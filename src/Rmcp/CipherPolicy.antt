-- ===== src/Rmcp/CipherPolicy.antt =====
-- The choice of a cipher suite among those that a channel advertises: ipmi-rs/src/rmcp/cipher_policy.rs,
-- with `CipherSuite` of ipmi-rs-core/src/app/auth/get_channel_cipher_suites.rs.
pub mod Choice
mod Examples
use ipmi_rs.Base.{
  ℕ, zero, suc, Bool, true, false, ◌||◌, List, [], ◌∷◌, Option, none, some, Result, ok, err, ◌>>=◌,
  ◌>>◌, reject_if, ltb, ◌-◌, get_or, drop, ◌==◌, if◌then◌else◌, bytes_eq, length, bit_and,
}

pub data CipherSuite : Type 0 where
  id0 id1 id2 id3 id4 id5 id6 id7 id8 id9 : CipherSuite
  id10 id11 id12 id13 id14 id15 id16 id17 id18 id19 : CipherSuite

unfoldable pub from_id : ℕ → Option CipherSuite
from_id v =
    if v == 0
    then some id0
    else if v == 1
    then some id1
    else if v == 2
    then some id2
    else if v == 3
    then some id3
    else if v == 4
    then some id4
    else if v == 5
    then some id5
    else if v == 6
    then some id6
    else if v == 7
    then some id7
    else if v == 8
    then some id8
    else if v == 9
    then some id9
    else if v == 10
    then some id10
    else if v == 11
    then some id11
    else if v == 12
    then some id12
    else if v == 13
    then some id13
    else if v == 14
    then some id14
    else if v == 15
    then some id15
    else if v == 16
    then some id16
    else if v == 17
    then some id17
    else if v == 18
    then some id18
    else if v == 19
    then some id19
    else none

-- The numbers of the authentication, the integrity and the confidentiality algorithm.
unfoldable pub into_suite : CipherSuite → List ℕ
into_suite id0 = 0 ∷ 0 ∷ 0 ∷ []
into_suite id1 = 1 ∷ 0 ∷ 0 ∷ []
into_suite id2 = 1 ∷ 1 ∷ 0 ∷ []
into_suite id3 = 1 ∷ 1 ∷ 1 ∷ []
into_suite id4 = 1 ∷ 1 ∷ 2 ∷ []
into_suite id5 = 1 ∷ 1 ∷ 3 ∷ []
into_suite id6 = 2 ∷ 0 ∷ 0 ∷ []
into_suite id7 = 2 ∷ 2 ∷ 0 ∷ []
into_suite id8 = 2 ∷ 2 ∷ 1 ∷ []
into_suite id9 = 2 ∷ 2 ∷ 2 ∷ []
into_suite id10 = 2 ∷ 2 ∷ 3 ∷ []
into_suite id11 = 2 ∷ 3 ∷ 0 ∷ []
into_suite id12 = 2 ∷ 3 ∷ 1 ∷ []
into_suite id13 = 2 ∷ 3 ∷ 2 ∷ []
into_suite id14 = 2 ∷ 3 ∷ 3 ∷ []
into_suite id15 = 3 ∷ 0 ∷ 0 ∷ []
into_suite id16 = 3 ∷ 4 ∷ 0 ∷ []
into_suite id17 = 3 ∷ 4 ∷ 1 ∷ []
into_suite id18 = 3 ∷ 4 ∷ 2 ∷ []
into_suite id19 = 3 ∷ 4 ∷ 3 ∷ []

pub data CipherSuiteListError : Type 0 where
  incomplete_record : CipherSuiteListError
  unknown_record : ℕ → CipherSuiteListError
  mismatched_algorithms : CipherSuite → CipherSuiteListError

-- Which of the suites 3 and 17 were found.
pub record Found : Type 0 where
  pub found_3 : Bool
  pub found_17 : Bool

-- The three algorithm bytes, less the tag bits.
abbrev pub algorithms : ℕ → ℕ → ℕ → List ℕ
algorithms a b c = bit_and a 0x3f ∷ bit_and b 0x3f ∷ bit_and c 0x3f ∷ []

unfoldable pub note : Found → Option CipherSuite → List ℕ → Result CipherSuiteListError Found
unfolding into_suite
note f (some id3) algos =
    if bytes_eq algos (into_suite id3)
    then ok (record f { found_3 = true })
    else err (mismatched_algorithms id3)
note f (some id17) algos =
    if bytes_eq algos (into_suite id17)
    then ok (record f { found_17 = true })
    else err (mismatched_algorithms id17)
note f _ algos = ok f

abbrev pub chosen : Found → Option CipherSuite
chosen f = if f.found_17 then some id17 else if f.found_3 then some id3 else none

-- The length that a marker stands for.
abbrev pub record_length : ℕ → Result CipherSuiteListError ℕ
record_length m = if m == 0xc0 then ok 5 else if m == 0xc1 then ok 8 else err (unknown_record m)

unfoldable pub noted : ℕ → Found → List ℕ → Result CipherSuiteListError Found
noted m f rest =
    if m == 0xc0
    then note f (from_id (get_or rest 0 0))
        (algorithms (get_or rest 1 0) (get_or rest 2 0) (get_or rest 3 0))
    else ok f

-- The loop over the records, a marker each: five bytes of a standard suite, eight of an OEM's. The
-- fuel bounds the records that are left; each takes a byte, so the length of the list is enough.
unfoldable pub scan : ℕ → Found → List ℕ → Result CipherSuiteListError (Option CipherSuite)
scan fuel f [] = ok (chosen f)
scan zero f (m ∷ rest) = err incomplete_record
scan (suc fuel) f (m ∷ rest) = do
  len ← record_length m
  reject_if (ltb (suc (length rest)) len) incomplete_record
  found ← noted m f rest
  scan fuel found (drop (len - 1) rest)

unfoldable pub select_best : List ℕ → Result CipherSuiteListError (Option CipherSuite)
select_best bytes = scan (length bytes) (record { found_3 = false; found_17 = false }) bytes
