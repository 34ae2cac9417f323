-- ===== src/Rmcp/V1_5/RoundTrip.antt =====
-- What is written is read back, and what is read carries the right code.
use ipmi_rs.Base.{
  ℕ, ◌≤◌, ◌≡◌, ◌≢◌, inl, inr, refl, sym, ap, ◌∙◌, true, false, List, [], ◌∷◌, ◌++◌, Option, none,
  some, Result, ok, err, ltb, if◌then◌else◌, Bool-cases, Result-cases, take, drop, get_or, length,
  length-append, take-append, drop-append, u32_le, of_le4, of_le4-u32_le, IsU32, arith,
}
use ipmi_rs.Rmcp.V1_5.Auth.{
  AuthType, auth_none, md2_auth, md5_auth, key, auth_type_code, calculate, IsMd5, verify-calculate,
  IsPassword, IsCodeOf, calculate-IsCodeOf,
}
use ipmi_rs.Rmcp.V1_5.Message.{
  ReadError, not_enough_data, Message, read_body, code_bytes, write_data, ends_in_zero,
  read_payload, read_auth, code_agrees, from_data,
}

ends_in_zero-append : (xs : List ℕ) → ends_in_zero (xs ++ (0 ∷ [])) ≡ true
ends_in_zero-append [] = refl
ends_in_zero-append (x ∷ []) = refl
ends_in_zero-append (x ∷ y ∷ ys) = ends_in_zero-append (y ∷ ys)

read_payload-padded : (xs : List ℕ) → read_payload (length xs) (xs ++ (0 ∷ [])) ≡ ok xs
unfolding read_payload
read_payload-padded [] = refl
read_payload-padded (x ∷ xs) =
    let n = length-append (x ∷ xs) (0 ∷ []) in
    let z = ends_in_zero-append (x ∷ xs) in
    let t = take-append (x ∷ xs) (0 ∷ []) in ground (arith, n, z, t)

-- The three header fields in front of what is left.
abbrev headed : AuthType → ℕ → ℕ → List ℕ → List ℕ
headed ty seq id rest = auth_type_code ty ∷ (u32_le seq ++ (u32_le id ++ rest))

-- What `take` and `drop` find behind a code of 16 bytes.
split_code :
    (auth_code rest : List ℕ)
    → length auth_code ≡ 16
    → (take 16 (auth_code ++ rest) ≡ auth_code) × (drop 16 (auth_code ++ rest) ≡ rest)
split_code auth_code rest h = (
  ap (λ k. take k (auth_code ++ rest)) (sym h) ∙ take-append auth_code rest,
  ap (λ k. drop k (auth_code ++ rest)) (sym h) ∙ drop-append auth_code rest,
)

read_auth-coded :
    (ty : AuthType) (seq id : ℕ) (auth_code rest : List ℕ)
    → ty ≢ auth_none
    → length auth_code ≡ 16
    → 1 ≤ length rest
    → read_auth (headed ty seq id (auth_code ++ rest)) ≡ ok (ty, (some auth_code, rest))
unfolding read_auth auth_type_code
read_auth-coded auth_none seq id auth_code rest n h r = absurd (n refl)
read_auth-coded md2_auth seq id auth_code rest n h r =
    let s = split_code auth_code rest h in ground (arith, s.0, s.1, length-append auth_code rest)
read_auth-coded md5_auth seq id auth_code rest n h r =
    let s = split_code auth_code rest h in ground (arith, s.0, s.1, length-append auth_code rest)
read_auth-coded key seq id auth_code rest n h r =
    let s = split_code auth_code rest h in ground (arith, s.0, s.1, length-append auth_code rest)

read_body-parts :
    (f : Option (List ℕ → List ℕ)) (password : Option (List ℕ)) (m : Message)
    (code : Option (List ℕ)) (bytes rest : List ℕ)
    → read_auth bytes ≡ ok (m.auth_type, (code, rest))
    → read_payload (get_or rest 0 0) (drop 1 rest) ≡ ok m.payload
    → code_agrees f password code m ≡ true
    → read_body f password bytes m.session_sequence_number m.session_id ≡ ok m
unfolding read_body
read_body-parts f password m code bytes rest ha hp hc = rw (ha, hp, hc)

from_data-parts :
    (f : Option (List ℕ → List ℕ)) (password : Option (List ℕ)) (m : Message)
    (code : Option (List ℕ)) (tail_bytes rest : List ℕ)
    → IsU32 m.session_sequence_number
    → IsU32 m.session_id
    → 1 ≤ length tail_bytes
    → read_auth (headed m.auth_type m.session_sequence_number m.session_id tail_bytes)
      ≡ ok (m.auth_type, (code, rest))
    → read_payload (get_or rest 0 0) (drop 1 rest) ≡ ok m.payload
    → code_agrees f password code m ≡ true
    → from_data f password (headed m.auth_type m.session_sequence_number m.session_id tail_bytes)
      ≡ ok m
unfolding from_data
from_data-parts f password m code tail_bytes rest hs hi hr ha hp hc =
    let bytes = headed m.auth_type m.session_sequence_number m.session_id tail_bytes in
    let short : ltb (length bytes) 10 ≡ false = ground arith in
    let seq = of_le4 (get_or bytes 1 0) (get_or bytes 2 0) (get_or bytes 3 0) (get_or bytes 4 0) in
    let id = of_le4 (get_or bytes 5 0) (get_or bytes 6 0) (get_or bytes 7 0) (get_or bytes 8 0) in
    ap (λ b. if b then err not_enough_data else read_body f password bytes seq id) short
    ∙ ap (λ k. read_body f password bytes k id) (of_le4-u32_le m.session_sequence_number hs)
    ∙ ap (λ k. read_body f password bytes m.session_sequence_number k)
        (of_le4-u32_le m.session_id hi)
    ∙ read_body-parts f password m code bytes rest ha hp hc

-- What `write_data` gives is the header, the code of `calculate`, and the payload.
write_data-ok :
    (f : Option (List ℕ → List ℕ)) (m : Message) (password : Option (List ℕ)) (bytes : List ℕ)
    → write_data f m password ≡ ok bytes
    → (code : Option (List ℕ)) × ((calculate f m.auth_type password m.session_id
            m.session_sequence_number m.payload
          ≡ ok code)
        × (bytes
            ≡ headed m.auth_type m.session_sequence_number m.session_id
                (code_bytes code ++ (length m.payload ∷ (m.payload ++ (0 ∷ []))))))
unfolding write_data
write_data-ok f m password bytes h =
    let made = calculate f m.auth_type password m.session_id m.session_sequence_number m.payload in
    elim (Result-cases made) [
      | inl (code, e) ↦ elim (Bool-cases (ltb 255 (length m.payload))) [
        | inl t ↦ absurd (ground (arith, h, e, t))
        | inr t ↦ (code, (e, ground (arith, h, e, t)))
      ]
      | inr (e, q) ↦ absurd (ground (arith, h, q))
    ]

code_agrees-calculate :
    (f : Option (List ℕ → List ℕ)) (m : Message) (password : Option (List ℕ)) (digest : List ℕ)
    → m.auth_type ≢ auth_none
    → calculate f m.auth_type password m.session_id m.session_sequence_number m.payload
      ≡ ok (some digest)
    → code_agrees f password (some digest) m ≡ true
code_agrees-calculate f m password digest n h =
    (verify-calculate f m.auth_type password m.session_id m.session_sequence_number m.payload digest
        n).1
      h

-- The layout of a message with a code is read back.
coded_read :
    (f : Option (List ℕ → List ℕ)) (m : Message) (password : Option (List ℕ)) (digest : List ℕ)
    → length digest ≡ 16
    → IsU32 m.session_sequence_number
    → IsU32 m.session_id
    → m.auth_type ≢ auth_none
    → calculate f m.auth_type password m.session_id m.session_sequence_number m.payload
      ≡ ok (some digest)
    → from_data f password (
        headed m.auth_type m.session_sequence_number m.session_id
          (digest ++ (length m.payload ∷ (m.payload ++ (0 ∷ [])))))
      ≡ ok m
coded_read f m password digest hd hs hi n h =
    let rest = length m.payload ∷ (m.payload ++ (0 ∷ [])) in
    from_data-parts f password m (some digest) (digest ++ rest) rest hs hi
      (omega (arith, length-append digest rest))
      (read_auth-coded m.auth_type m.session_sequence_number m.session_id digest rest n hd
        (omega arith))
      (read_payload-padded m.payload) (code_agrees-calculate f m password digest n h)

-- What is written for a message with this code, read again.
abbrev reread :
    Option (List ℕ → List ℕ)
    → Message
    → Option (List ℕ)
    → Option (List ℕ)
    → Result ReadError Message
reread f m password code = from_data f password (
    headed m.auth_type m.session_sequence_number m.session_id
      (code_bytes code ++ (length m.payload ∷ (m.payload ++ (0 ∷ [])))))

abbrev message_of : AuthType → ℕ → ℕ → List ℕ → Message
message_of ty seq id payload = record {
  auth_type = ty;
  session_sequence_number = seq;
  session_id = id;
  payload = payload;
}

reread-some :
    (f : Option (List ℕ → List ℕ)) (m : Message) (password code : Option (List ℕ))
    → IsU32 m.session_sequence_number
    → IsU32 m.session_id
    → m.auth_type ≢ auth_none
    → (digest : List ℕ) × ((code ≡ some digest) × (length digest ≡ 16))
    → calculate f m.auth_type password m.session_id m.session_sequence_number m.payload ≡ ok code
    → reread f m password code ≡ ok m
reread-some f m password code hs hi n d h =
    ap (λ c. reread f m password c) d.1.0
    ∙ coded_read f m password d.0 d.1.1 hs hi n (h ∙ ap ok d.1.0)

reread-ok :
    (f : Option (List ℕ → List ℕ)) (ty : AuthType) (seq id : ℕ) (payload : List ℕ)
    (password code : Option (List ℕ))
    → IsU32 seq
    → IsU32 id
    → IsCodeOf ty code
    → calculate f ty password id seq payload ≡ ok code
    → reread f (message_of ty seq id payload) password code ≡ ok (message_of ty seq id payload)
unfolding read_auth auth_type_code
reread-ok f auth_none seq id payload password code hs hi c h =
    let m = message_of auth_none seq id payload in
    let rest = length payload ∷ (payload ++ (0 ∷ [])) in
    ap (λ k. reread f m password k) c
    ∙ from_data-parts f password m none rest rest hs hi (omega arith) refl
        (read_payload-padded payload) refl
reread-ok f md2_auth seq id payload password code hs hi c h =
    reread-some f (message_of md2_auth seq id payload) password code hs hi (λ e. absurd cc) c h
reread-ok f md5_auth seq id payload password code hs hi c h =
    reread-some f (message_of md5_auth seq id payload) password code hs hi (λ e. absurd cc) c h
reread-ok f key seq id payload password code hs hi c h =
    reread-some f (message_of key seq id payload) password code hs hi (λ e. absurd cc) c h

-- A message that `write_data` writes is the one that `from_data` reads with the same password, where
-- the two numbers are of 32 bits, and the password and the digests of MD5 have 16 bytes.
pub from_data-write_data :
    (f : Option (List ℕ → List ℕ)) (m : Message) (password : Option (List ℕ)) (bytes : List ℕ)
    → IsMd5 f
    → IsPassword password
    → IsU32 m.session_sequence_number
    → IsU32 m.session_id
    → write_data f m password ≡ ok bytes
    → from_data f password bytes ≡ ok m
from_data-write_data f m password bytes hf hp hs hi h =
    let made = write_data-ok f m password bytes h in
    let sort =
      calculate-IsCodeOf f m.auth_type password m.session_id m.session_sequence_number m.payload
        made.0 hf hp made.1.0 in
    ap (λ b. from_data f password b) made.1.1
    ∙ reread-ok f m.auth_type m.session_sequence_number m.session_id m.payload password made.0 hs hi
        sort made.1.0
