-- ===== src/Rmcp/CipherPolicy/Choice.antt =====
-- The choice agrees with a description by records.
use ipmi_rs.Base.{
  ℕ, zero, suc, ◌-◌, ◌≤◌, ◌≡◌, ◌↔◌, inl, inr, refl, sym, ap, ◌∙◌, Bool, false, ◌||◌, ◌&&◌, not,
  List, [], ◌∷◌, ◌++◌, Option, none, some, Result, ok, err, ◌>>=◌, ◌>>◌, reject_if, bind_ap, ◌==◌,
  ltb, if◌then◌else◌, Bool-cases, bind_ok, reject_if-ok, bytes_eq, length, drop, get_or, arith,
}
use ipmi_rs.Rmcp.CipherPolicy.{
  CipherSuite, id3, id17, from_id, CipherSuiteListError, incomplete_record, mismatched_algorithms,
  Found, algorithms, note, chosen, noted, record_length, scan, select_best,
}

-- A record as the channel advertises it.
pub data Advertised : Type 0 where
  standard : (id a b c : ℕ) → Advertised
  oem : (id x y z a b c : ℕ) → Advertised

pub encode : List Advertised → List ℕ
encode [] = []
encode (standard id a b c ∷ rs) = 0xc0 ∷ id ∷ a ∷ b ∷ c ∷ encode rs
encode (oem id x y z a b c ∷ rs) = 0xc1 ∷ id ∷ x ∷ y ∷ z ∷ a ∷ b ∷ c ∷ encode rs

-- The suite that the record names with other algorithms than its own.
abbrev pub misnamed : Advertised → Option CipherSuite
misnamed (oem id x y z a b c) = none
misnamed (standard id a b c) =
    if id == 3 && not (bytes_eq (algorithms a b c) (1 ∷ 1 ∷ 1 ∷ []))
    then some id3
    else if id == 17 && not (bytes_eq (algorithms a b c) (3 ∷ 4 ∷ 1 ∷ []))
    then some id17
    else none

abbrev pub offers : ℕ → Advertised → Bool
offers v (standard id a b c) = id == v
offers v (oem id x y z a b c) = false

-- The first record that is misnamed, and whether any offers a suite.
abbrev pub first_misnamed : List Advertised → Option CipherSuite
first_misnamed [] = none
first_misnamed (r ∷ rs) = elim (misnamed r) [ some s ↦ some s | none ↦ first_misnamed rs ]

abbrev pub any_offers : ℕ → List Advertised → Bool
any_offers v [] = false
any_offers v (r ∷ rs) = offers v r || any_offers v rs

-- Any misnamed record refuses the list; else 17 is better than 3.
abbrev pub verdict : List Advertised → Result CipherSuiteListError (Option CipherSuite)
verdict rs = elim (first_misnamed rs) [
  | some s ↦ err (mismatched_algorithms s)
  | none ↦ ok (if any_offers 17 rs then some id17 else if any_offers 3 rs then some id3 else none)
]

abbrev merged : Found → Advertised → Found
merged f r = record { found_3 = offers 3 r || f.found_3; found_17 = offers 17 r || f.found_17 }

abbrev step : Found → Advertised → Option CipherSuite → Result CipherSuiteListError Found
step f r (some s) = err (mismatched_algorithms s)
step f r none = ok (merged f r)

note-step :
    (f : Found) (id a b c : ℕ)
    → note f (from_id id) (algorithms a b c)
      ≡ step f (standard id a b c) (misnamed (standard id a b c))
unfolding note from_id
note-step f id a b c = elim (Bool-cases (id == 3)) [
  | inl e ↦ ground (arith, e)
  | inr e ↦ elim (Bool-cases (id == 17)) [
    | inl g ↦ ground (arith, e, g)
    | inr g ↦ ground (arith, e, g)
  ]
]

gather : Found → List Advertised → Found
gather f [] = f
gather f (r ∷ rs) = gather (merged f r) rs

verdict_from : Found → List Advertised → Result CipherSuiteListError (Option CipherSuite)
verdict_from f rs = elim (first_misnamed rs) [
  | some s ↦ err (mismatched_algorithms s)
  | none ↦ ok (chosen (gather f rs))
]

noted-step :
    (f : Found) (r : Advertised) (rs : List Advertised)
    → noted (get_or (encode (r ∷ rs)) 0 0) f (drop 1 (encode (r ∷ rs))) ≡ step f r (misnamed r)
unfolding encode noted
noted-step f (standard id a b c) rs = note-step f id a b c
noted-step f (oem id x y z a b c) rs = refl

scan-cons :
    (fuel : ℕ) (f : Found) (r : Advertised) (rs : List Advertised)
    → scan (suc fuel) f (encode (r ∷ rs))
      ≡ step f r (misnamed r) >>= λ found. scan fuel found (encode rs)
unfolding encode scan
scan-cons fuel f (standard id a b c) rs =
    let n = noted-step f (standard id a b c) rs in
    let next : Found → Result CipherSuiteListError (Option CipherSuite) =
      λ found. scan fuel found (encode rs) in
    let fits : ltb (length (0xc0 ∷ id ∷ a ∷ b ∷ c ∷ encode rs)) 5 ≡ false = ground arith in
    ap (λ t. reject_if t incomplete_record >> (noted 0xc0 f (id ∷ a ∷ b ∷ c ∷ encode rs) >>= next))
      fits
    ∙ ap (λ t. t >>= next) n
scan-cons fuel f (oem id x y z a b c) rs =
    let bytes = 0xc1 ∷ id ∷ x ∷ y ∷ z ∷ a ∷ b ∷ c ∷ encode rs in
    let n = noted-step f (oem id x y z a b c) rs in
    let next : Found → Result CipherSuiteListError (Option CipherSuite) =
      λ found. scan fuel found (encode rs) in
    let fits : ltb (length bytes) 8 ≡ false = ground arith in
    ap (λ t. reject_if t incomplete_record >> (noted 0xc1 f (drop 1 bytes) >>= next)) fits
    ∙ ap (λ t. t >>= next) n

step-verdict_from :
    (f : Found) (r : Advertised) (rs : List Advertised) (o : Option CipherSuite)
    → misnamed r ≡ o
    → (step f r o >>= λ found. verdict_from found rs) ≡ verdict_from f (r ∷ rs)
unfolding verdict_from gather
step-verdict_from f r rs none e = ground (arith, e)
step-verdict_from f r rs (some s) e = ground (arith, e)

shorter :
    (r : Advertised) (rs : List Advertised) → suc (length (encode rs)) ≤ length (encode (r ∷ rs))
unfolding encode
shorter (standard id a b c) rs = omega arith
shorter (oem id x y z a b c) rs = omega arith

scan-encode :
    (fuel : ℕ) (f : Found) (rs : List Advertised)
    → length (encode rs) ≤ fuel
    → scan fuel f (encode rs) ≡ verdict_from f rs
scan-encode fuel f [] h = unfold encode scan verdict_from gather in refl
scan-encode zero f (r ∷ rs) h = absurd (omega (arith, shorter r rs))
scan-encode (suc fuel) f (r ∷ rs) h =
    scan-cons fuel f r rs
    ∙ bind_ap (step f r (misnamed r)) (λ found. scan fuel found (encode rs))
        (λ found. verdict_from found rs)
        (λ found. scan-encode fuel found rs (omega (arith, shorter r rs)))
    ∙ step-verdict_from f r rs (misnamed r) refl

split_four :
    (xs : List ℕ)
    → 4 ≤ length xs
    → (a : ℕ) × ((b : ℕ) × ((c : ℕ) × ((d : ℕ) × (xs ≡ a ∷ b ∷ c ∷ d ∷ drop 4 xs))))
split_four [] h = absurd (omega arith)
split_four (a ∷ []) h = absurd (omega arith)
split_four (a ∷ b ∷ []) h = absurd (omega arith)
split_four (a ∷ b ∷ c ∷ []) h = absurd (omega arith)
split_four (a ∷ b ∷ c ∷ d ∷ xs) h = (a, (b, (c, (d, refl))))

split_seven :
    (xs : List ℕ) → 7 ≤ length xs → (r : Advertised) × (0xc1 ∷ xs ≡ encode (r ∷ []) ++ drop 7 xs)
unfolding encode
split_seven [] h = absurd (omega arith)
split_seven (a ∷ []) h = absurd (omega arith)
split_seven (a ∷ b ∷ []) h = absurd (omega arith)
split_seven (a ∷ b ∷ c ∷ []) h = absurd (omega arith)
split_seven (a ∷ b ∷ c ∷ d ∷ []) h = absurd (omega arith)
split_seven (a ∷ b ∷ c ∷ d ∷ e ∷ []) h = absurd (omega arith)
split_seven (a ∷ b ∷ c ∷ d ∷ e ∷ f ∷ []) h = absurd (omega arith)
split_seven (a ∷ b ∷ c ∷ d ∷ e ∷ f ∷ g ∷ xs) h = (oem a b c d e f g, refl)

-- A marker with its record, at the head of a list that is not too short.
record_head :
    (m len : ℕ) (rest : List ℕ)
    → record_length m ≡ ok len
    → ltb (suc (length rest)) len ≡ false
    → (r : Advertised) × (m ∷ rest ≡ encode (r ∷ []) ++ drop (len - 1) rest)
unfolding encode
record_head m len rest h l = elim (Bool-cases (m == 0xc0)) [
  | inl e ↦
      let n : len ≡ 5 = ground (arith, h, e) in
      let q : m ≡ 0xc0 = ground (arith, e) in
      let (a, (b, (c, (d, x)))) = split_four rest (ground (arith, l, n)) in
      (
        standard a b c d,
        ap (λ k. k ∷ rest) q
            ∙ ap (λ k. 0xc0 ∷ k) x
            ∙ ap (λ k. 0xc0 ∷ a ∷ b ∷ c ∷ d ∷ drop (k - 1) rest) (sym n),
      )
  | inr e ↦ elim (Bool-cases (m == 0xc1)) [
    | inl g ↦
        let n : len ≡ 8 = ground (arith, h, e, g) in
        let q : m ≡ 0xc1 = ground (arith, g) in
        let r = split_seven rest (ground (arith, l, n)) in
        (r.0, ap (λ k. k ∷ rest) q ∙ r.1 ∙ ap (λ k. encode (r.0 ∷ []) ++ drop (k - 1) rest) (sym n))
    | inr g ↦ absurd (ground (arith, h, e, g))
  ]
]

encode-cons :
    (r : Advertised) (rs : List Advertised) → encode (r ∷ []) ++ encode rs ≡ encode (r ∷ rs)
unfolding encode
encode-cons (standard id a b c) rs = refl
encode-cons (oem id x y z a b c) rs = refl

scan-ok :
    (fuel : ℕ) (f : Found) (bytes : List ℕ) (s : Option CipherSuite)
    → scan fuel f bytes ≡ ok s
    → (rs : List Advertised) × (bytes ≡ encode rs)
unfolding scan encode
scan-ok fuel f [] s h = ([], refl)
scan-ok zero f (m ∷ rest) s h = absurd cc
scan-ok (suc fuel) f (m ∷ rest) s h =
    let (len, (hl, h1)) = bind_ok (record_length m) _ s h in
    let (fits, h2) =
      reject_if-ok (ltb (suc (length rest)) len) incomplete_record
        (noted m f rest >>= λ found. scan fuel found (drop (len - 1) rest)) s h1 in
    let (found, (hn, h3)) = bind_ok (noted m f rest) _ s h2 in
    let (rs, q) = scan-ok fuel found (drop (len - 1) rest) s h3 in
    let (r, p) = record_head m len rest hl fits in
    (r ∷ rs, p ∙ ap (λ k. encode (r ∷ []) ++ k) q ∙ encode-cons r rs)

gather-any :
    (f : Found) (rs : List Advertised)
    → ((gather f rs).found_3 ≡ any_offers 3 rs || f.found_3)
      × ((gather f rs).found_17 ≡ any_offers 17 rs || f.found_17)
unfolding gather
gather-any f [] = (refl, refl)
gather-any f (r ∷ rs) =
    let i = gather-any (merged f r) rs in (ground (arith, i.0), ground (arith, i.1))

verdict_from-verdict :
    (rs : List Advertised)
    → verdict_from (record { found_3 = false; found_17 = false }) rs ≡ verdict rs
unfolding verdict_from
verdict_from-verdict rs =
    let i = gather-any (record { found_3 = false; found_17 = false }) rs in ground (arith, i.0, i.1)

-- `select_best` succeeds exactly on the lists of whole records of which none names suite 3 or 17 with
-- other algorithms, and then it chooses 17 if a record offers it, else 3 if one does, else none.
pub select_best-verdict :
    (bytes : List ℕ) (s : Option CipherSuite)
    → (select_best bytes ≡ ok s)
      ↔ ((rs : List Advertised) × ((bytes ≡ encode rs) × (verdict rs ≡ ok s)))
unfolding select_best
select_best-verdict bytes s =
    let start : Found = record { found_3 = false; found_17 = false } in
    let agree : (rs : List Advertised) → select_best (encode rs) ≡ verdict rs =
      λ rs. scan-encode (length (encode rs)) start rs (omega arith) ∙ verdict_from-verdict rs in
    (
      (λ h.
          let (rs, e) = scan-ok (length bytes) start bytes s h in
          (rs, (e, sym (agree rs) ∙ ap select_best (sym e) ∙ h))),
      (λ (rs, (e, h)). ap select_best e ∙ agree rs ∙ h),
    )
