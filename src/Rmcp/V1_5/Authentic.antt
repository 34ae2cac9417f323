-- ===== src/Rmcp/V1_5/Authentic.antt =====
-- A message that is read carries the code that is calculated for it.
use ipmi_rs.Base.{
  ℕ, ◌≡◌, ◌≢◌, ◌⊎◌, inl, inr, sym, ap, ◌∙◌, true, not, List, Option, some, ok, ◌==◌, ltb,
  Bool-cases, Result-cases, bind_ok, reject_if-ok, take, drop, get_or, length, of_le4, arith,
}
use ipmi_rs.Rmcp.V1_5.Auth.{AuthType, auth_none, calculate, verify-calculate}
use ipmi_rs.Rmcp.V1_5.Message.{
  authcode_error, Message, read_body, read_payload, read_auth, with_code, code_agrees, from_data,
}

-- The code of a message, for a type that has one.
read_auth-code :
    (bytes : List ℕ) (ty : AuthType) (code : Option (List ℕ)) (rest : List ℕ)
    → read_auth bytes ≡ ok (ty, (code, rest))
    → (ty ≡ auth_none) ⊎ (code ≡ some (take 16 (drop 9 bytes)))
unfolding read_auth
read_auth-code bytes ty code rest h = elim (Bool-cases (get_or bytes 0 0 == 0)) [
  | inl z ↦ inl (ground (arith, h, z))
  | inr z ↦ elim (Bool-cases (ltb (length bytes) 26)) [
    | inl l ↦ absurd (ground (arith, h, z, l))
    | inr l ↦ elim (Result-cases (with_code (get_or bytes 0 0))) [
      | inl (t, e) ↦ inr (ground (arith, h, z, l, e))
      | inr (x, e) ↦ absurd (ground (arith, h, z, l, e))
    ]
  ]
]

read_body-ok :
    (f : Option (List ℕ → List ℕ)) (password : Option (List ℕ)) (bytes : List ℕ) (seq id : ℕ)
    (m : Message)
    → read_body f password bytes seq id ≡ ok m
    → (code : Option (List ℕ)) × ((rest : List ℕ) × ((read_auth bytes
            ≡ ok (m.auth_type, (code, rest)))
          × (code_agrees f password code m ≡ true)))
unfolding read_body
read_body-ok f password bytes seq id m h =
    let a = bind_ok (read_auth bytes) _ m h in
    let b = bind_ok (read_payload (get_or a.0.1.1 0 0) (drop 1 a.0.1.1)) _ m a.1.1 in
    let made : Message = record {
      auth_type = a.0.0;
      session_sequence_number = seq;
      session_id = id;
      payload = b.0;
    } in
    let c =
      reject_if-ok (not (code_agrees f password a.0.1.0 made)) authcode_error (ok made) m b.1.1 in
    let e : made ≡ m = cc in
    let agrees : code_agrees f password a.0.1.0 made ≡ true = ground (arith, c.0) in
    (
      a.0.1.0,
      (
        a.0.1.1,
        (
          a.1.0 ∙ ap (λ x. ok (x.auth_type, a.0.1)) e,
          ap (λ x. code_agrees f password a.0.1.0 x) (sym e) ∙ agrees,
        ),
      ),
    )

-- A message that `from_data` accepts with a type other than `auth_none` carries, behind its nine bytes of
-- header, the code that `calculate` makes of its fields and the password.
pub from_data-calculate :
    (f : Option (List ℕ → List ℕ)) (password : Option (List ℕ)) (bytes : List ℕ) (m : Message)
    → from_data f password bytes ≡ ok m
    → m.auth_type ≢ auth_none
    → calculate f m.auth_type password m.session_id m.session_sequence_number m.payload
      ≡ ok (some (take 16 (drop 9 bytes)))
unfolding from_data
from_data-calculate f password bytes m h n =
    let seq = of_le4 (get_or bytes 1 0) (get_or bytes 2 0) (get_or bytes 3 0) (get_or bytes 4 0) in
    let id = of_le4 (get_or bytes 5 0) (get_or bytes 6 0) (get_or bytes 7 0) (get_or bytes 8 0) in
    let b : read_body f password bytes seq id ≡ ok m = elim (Bool-cases (ltb (length bytes) 10)) [
      | inl t ↦ absurd (ground (arith, h, t))
      | inr t ↦ ground (arith, h, t)
    ] in
    let r = read_body-ok f password bytes seq id m b in
    elim (read_auth-code bytes m.auth_type r.0 r.1.0 r.1.1.0) [
      | inl z ↦ absurd (n z)
      | inr z ↦
          (verify-calculate f m.auth_type password m.session_id m.session_sequence_number m.payload
              (take 16 (drop 9 bytes)) n).0
            (ap (λ c. code_agrees f password c m) (sym z) ∙ r.1.1.1)
    ]
