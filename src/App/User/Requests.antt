-- ===== src/App/User/Requests.antt =====
-- What the requests carry, and which users a list visits.
use mathlib.Core.Path.{subst}
use ipmi_rs.Base.{
  ℕ, zero, suc, ◌+◌, ◌-◌, ◌≤◌, ◌<◌, min, ◌≡◌, refl, ap, ◌∙◌, true, false, ◌&&◌, List, [], ◌∷◌,
  Option, none, some, ok, ltb, leb, bit_or, length, length-append, take, drop, take-append,
  drop-append, replicate, bind_ok, arith,
}
use ipmi_rs.App.User.{
  UserPassword, PasswordLength, width, size_bit, set, check_text, password_new,
  set_password_request, UserList, next, user_id_new, list_new, UserSummary,
}
use ipmi_rs.Connection.Channel.{Channel}

length-replicate : (n : ℕ) → length {A = ℕ} (replicate n 0) ≡ n
length-replicate zero = refl
length-replicate (suc n) = ap suc (length-replicate n)

-- The request has the user with the size bit, the operation, and the whole password in a field of the
-- size, with only zeros behind it.
pub record Carries (id : ℕ) (bytes : List ℕ) (len : PasswordLength) (request : List ℕ)
    : Type 0 where
  pub first : take 2 request ≡ bit_or id (size_bit len) ∷ 2 ∷ []
  pub size : length request ≡ width len + 2
  pub whole : take (length bytes) (drop 2 request) ≡ bytes
  pub rest : drop (length bytes) (drop 2 request) ≡ replicate (width len - length bytes) 0

check_text_fits :
    (bytes : List ℕ) (limit : ℕ) {u : Unit {0}}
    → check_text bytes limit ≡ ok u
    → length bytes ≤ limit
unfolding check_text
check_text_fits bytes limit h = ground (arith, h)

-- A request that sets a password that was accepted carries the user, the operation and all of the
-- password: it has the field's size and two bytes more, and adds nothing to the password but zeros.
pub set_password_request-Carries :
    (id : ℕ) (bytes : List ℕ) (len : PasswordLength) (p : UserPassword)
    → password_new bytes len ≡ ok p
    → Carries id bytes len (set_password_request id (set p))
unfolding password_new check_text set_password_request
set_password_request-Carries id bytes len p h =
    let c = bind_ok (check_text bytes (width len)) _ p h in
    let made : UserPassword = record { bytes = bytes; length_of = len } in
    let e : made ≡ p = cc in
    let fits = check_text_fits bytes (width len) c.1.0 in
    let zeros = replicate (width len - length bytes) 0 in
    subst (λ x. Carries id bytes len (set_password_request id (set x))) e
      (record {
        first = refl;
        size =
            omega
              (arith, fits, length-append bytes zeros, length-replicate (width len - length bytes));
        whole = take-append bytes zeros;
        rest = drop-append bytes zeros;
      })

-- The identifiers from `first`, as many as `count`.
abbrev pub range : ℕ → ℕ → List ℕ
range first zero = []
range first (suc count) = first ∷ range (suc first) count

-- As many answers without an identifier as `count`.
abbrev pub nothing : ℕ → List (Option ℕ)
nothing zero = []
nothing (suc count) = none ∷ nothing count

-- The identifiers as answers, and nothing after them.
abbrev pub answers : List ℕ → ℕ → List (Option ℕ)
answers [] more = nothing more
answers (id ∷ ids) more = some id ∷ answers ids more

-- The answers of an iterator to so many calls, whether or not it has ended.
pub collect : ℕ → UserList → List (Option ℕ)
collect zero l = []
collect (suc calls) l = (next l).1 ∷ collect calls (next l).0

abbrev list_at : Channel → ℕ → ℕ → UserList
list_at channel first last = record { channel = channel; next_id = first; max = last }

next_within :
    (channel : Channel) (first last : ℕ)
    → 1 ≤ first
    → first ≤ last
    → last ≤ 63
    → next (list_at channel first last) ≡ (list_at channel (suc first) last, some first)
unfolding next user_id_new
next_within channel first last h b c =
    let p : ltb last first ≡ false = ground arith in
    let q : leb 1 first && leb first 63 ≡ true = ground arith in rw (p, q)

next_beyond :
    (channel : Channel) (first last : ℕ)
    → last < first
    → next (list_at channel first last) ≡ (list_at channel first last, none)
unfolding next
next_beyond channel first last h = let p : ltb last first ≡ true = ground arith in rw (p)

collect-nothing :
    (calls : ℕ) (channel : Channel) (first last : ℕ)
    → last < first
    → collect calls (list_at channel first last) ≡ nothing calls
unfolding collect
collect-nothing zero channel first last h = refl
collect-nothing (suc calls) channel first last h =
    ap (λ r. r.1 ∷ collect calls r.0) (next_beyond channel first last h)
    ∙ ap (λ t. none ∷ t) (collect-nothing calls channel first last h)

collect-range :
    (more first count last : ℕ) (channel : Channel)
    → 1 ≤ first
    → suc last ≡ first + count
    → last ≤ 63
    → collect (count + more) (list_at channel first last) ≡ answers (range first count) more
unfolding collect
collect-range more first zero last channel h e b =
    ap (λ n. collect n (list_at channel first last)) (let e : zero + more ≡ more = omega arith in e)
    ∙ collect-nothing more channel first last (omega arith)
collect-range more first (suc count) last channel h e b =
    ap (λ n. collect n (list_at channel first last))
      (let e : suc count + more ≡ suc (count + more) = omega arith in e)
    ∙ ap (λ r. r.1 ∷ collect (count + more) r.0) (next_within channel first last h (omega arith) b)
    ∙ ap (λ t. some first ∷ t)
        (collect-range more (suc first) count last channel (omega arith) (omega arith) b)

-- The first calls on a list of users give the identifiers from 1 to the number that the summary tells,
-- but to 63 at most, in order, each once; every later call gives none.
pub collect-list_new :
    (more : ℕ) (channel : Channel) (summary : UserSummary)
    → collect (min summary.max_user_ids 63 + more) (list_new channel summary)
      ≡ answers (range 1 (min summary.max_user_ids 63)) more
unfolding list_new
collect-list_new more channel summary =
    collect-range more 1 (min summary.max_user_ids 63) (min summary.max_user_ids 63) channel
      (omega arith) (omega arith) (omega arith)
