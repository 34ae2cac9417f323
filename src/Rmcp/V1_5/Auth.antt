-- ===== src/Rmcp/V1_5/Auth.antt =====
-- Authentication codes: v1_5/auth.rs, and `AuthType` of ipmi-rs-core/src/app/auth/mod.rs.
use ipmi_rs.Base.{
  ℕ, ◌≡◌, ◌≢◌, ◌↔◌, refl, ap, Bool, true, false, List, ◌++◌, Option, none, some, Result, ok, err,
  ◌==◌, if◌then◌else◌, bytes_eq, bytes_eq_refl, bytes_eq→eq, u32_le, length, sym, ◌∙◌,
}
use ipmi_rs.Rmcp.V1_5.Md2.{md2, length-md2}

pub data AuthType : Type 0 where
  auth_none md2_auth md5_auth key : AuthType

unfoldable pub auth_type_of_u8 : ℕ → Option AuthType
auth_type_of_u8 v =
    if v == 0
    then some auth_none
    else if v == 1
    then some md2_auth
    else if v == 2
    then some md5_auth
    else if v == 4
    then some key
    else none

unfoldable pub auth_type_code : AuthType → ℕ
auth_type_code auth_none = 0
auth_type_code md2_auth = 1
auth_type_code md5_auth = 2
auth_type_code key = 4

-- The strength of a type, to compare by: `compare_strength` as its four ranks.
pub data Order : Type 0 where
  less equal greater : Order

pub compare_strength : AuthType → AuthType → Order
compare_strength auth_none auth_none = equal
compare_strength md2_auth md2_auth = equal
compare_strength md5_auth md5_auth = equal
compare_strength key key = equal
compare_strength auth_none _ = less
compare_strength _ auth_none = greater
compare_strength key _ = less
compare_strength _ key = greater
compare_strength md2_auth _ = less
compare_strength _ _ = greater

-- The digests of MD5, of a crate of its own, that the feature `md5` brings in: they have 16 bytes.
abbrev pub IsMd5 : Option (List ℕ → List ℕ) → Type 0
IsMd5 none = Unit {0}
IsMd5 (some md5_digest) = (bytes : List ℕ) → length (md5_digest bytes) ≡ 16

pub data WriteError : Type 0 where
  missing_password : WriteError
  payload_too_large : ℕ → WriteError
  unsupported_auth_type : AuthType → WriteError

-- What is hashed.
abbrev enclosed : List ℕ → ℕ → ℕ → List ℕ → List ℕ
enclosed password session_id session_seq bytes =
    password ++ (u32_le session_id ++ (bytes ++ (u32_le session_seq ++ password)))

-- The argument `md5_digest` is none without the feature.
unfoldable pub calculate :
    Option (List ℕ → List ℕ)
    → AuthType
    → Option (List ℕ)
    → ℕ
    → ℕ
    → List ℕ
    → Result WriteError (Option (List ℕ))
calculate md5_digest auth_none password session_id session_seq bytes = ok none
calculate md5_digest md2_auth (some p) session_id session_seq bytes =
    ok (some (md2 (enclosed p session_id session_seq bytes)))
calculate (some md5_digest) md5_auth (some p) session_id session_seq bytes =
    ok (some (md5_digest (enclosed p session_id session_seq bytes)))
calculate none md5_auth (some p) session_id session_seq bytes = err (unsupported_auth_type md5_auth)
calculate md5_digest key (some p) session_id session_seq bytes = ok (some p)
calculate md5_digest _ none session_id session_seq bytes = err missing_password

unfoldable pub verify :
    Option (List ℕ → List ℕ) → AuthType → List ℕ → Option (List ℕ) → ℕ → ℕ → List ℕ → Bool
verify md5_digest auth_none digest password session_id session_seq bytes = true
verify md5_digest md2_auth digest (some p) session_id session_seq bytes =
    bytes_eq (md2 (enclosed p session_id session_seq bytes)) digest
verify (some md5_digest) md5_auth digest (some p) session_id session_seq bytes =
    bytes_eq (md5_digest (enclosed p session_id session_seq bytes)) digest
verify none md5_auth digest (some p) session_id session_seq bytes = false
verify md5_digest key digest (some p) session_id session_seq bytes = bytes_eq p digest
verify md5_digest _ digest none session_id session_seq bytes = false

abbrev coded : Option (List ℕ) → Result WriteError (Option (List ℕ))
coded code = ok code

bytes_eq-ok : (xs ys : List ℕ) → (bytes_eq xs ys ≡ true) ↔ (coded (some xs) ≡ ok (some ys))
bytes_eq-ok xs ys = (
  (λ h. ap (λ d. coded (some d)) (bytes_eq→eq xs ys h)),
  (λ h. let e : xs ≡ ys = cc in ap (λ d. bytes_eq xs d) (sym e) ∙ bytes_eq_refl xs),
)

-- For a type other than `auth_none`, the codes that `verify` lets through are exactly those that
-- `calculate` makes.
pub verify-calculate :
    (m : Option (List ℕ → List ℕ)) (ty : AuthType) (password : Option (List ℕ))
    (session_id session_seq : ℕ) (bytes digest : List ℕ)
    → ty ≢ auth_none
    → (verify m ty digest password session_id session_seq bytes ≡ true)
      ↔ (calculate m ty password session_id session_seq bytes ≡ ok (some digest))
unfolding verify calculate
verify-calculate m auth_none password session_id session_seq bytes digest n = absurd (n refl)
verify-calculate m md2_auth (some p) session_id session_seq bytes digest n =
    bytes_eq-ok (md2 (enclosed p session_id session_seq bytes)) digest
verify-calculate (some f) md5_auth (some p) session_id session_seq bytes digest n =
    bytes_eq-ok (f (enclosed p session_id session_seq bytes)) digest
verify-calculate none md5_auth (some p) session_id session_seq bytes digest n =
    ((λ h. absurd cc), (λ h. absurd cc))
verify-calculate m key (some p) session_id session_seq bytes digest n = bytes_eq-ok p digest
verify-calculate m md2_auth none session_id session_seq bytes digest n =
    ((λ h. absurd cc), (λ h. absurd cc))
verify-calculate m md5_auth none session_id session_seq bytes digest n =
    ((λ h. absurd cc), (λ h. absurd cc))
verify-calculate m key none session_id session_seq bytes digest n =
    ((λ h. absurd cc), (λ h. absurd cc))

-- A password, where there is one, has 16 bytes.
abbrev pub IsPassword : Option (List ℕ) → Type 0
IsPassword none = Unit {0}
IsPassword (some p) = length p ≡ 16

-- A code that is made has 16 bytes and is not made for `auth_none`; there is one for each other type.
abbrev pub IsCodeOf : AuthType → Option (List ℕ) → Type 0
IsCodeOf auth_none code = code ≡ none
IsCodeOf _ code = (digest : List ℕ) × ((code ≡ some digest) × (length digest ≡ 16))

made :
    {xs : List ℕ} {code : Option (List ℕ)}
    → length xs ≡ 16
    → coded (some xs) ≡ ok code
    → (digest : List ℕ) × ((code ≡ some digest) × (length digest ≡ 16))
made {xs} {code} n h = (xs, (cc, n))

pub calculate-IsCodeOf :
    (m : Option (List ℕ → List ℕ)) (ty : AuthType) (password : Option (List ℕ))
    (session_id session_seq : ℕ) (bytes : List ℕ) (code : Option (List ℕ))
    → IsMd5 m
    → IsPassword password
    → calculate m ty password session_id session_seq bytes ≡ ok code
    → IsCodeOf ty code
unfolding calculate
calculate-IsCodeOf m auth_none password session_id session_seq bytes code hm hp h = cc
calculate-IsCodeOf m md2_auth (some p) session_id session_seq bytes code hm hp h =
    made (length-md2 (enclosed p session_id session_seq bytes)) h
calculate-IsCodeOf (some f) md5_auth (some p) session_id session_seq bytes code hm hp h =
    made (hm (enclosed p session_id session_seq bytes)) h
calculate-IsCodeOf none md5_auth (some p) session_id session_seq bytes code hm hp h = absurd cc
calculate-IsCodeOf m key (some p) session_id session_seq bytes code hm hp h = made hp h
calculate-IsCodeOf m md2_auth none session_id session_seq bytes code hm hp h = absurd cc
calculate-IsCodeOf m md5_auth none session_id session_seq bytes code hm hp h = absurd cc
calculate-IsCodeOf m key none session_id session_seq bytes code hm hp h = absurd cc
