-- ===== src/Base/Bytes.antt =====
-- Bytes, and the fixed-width integers that Rust writes as bytes.
use Prim.Native.Nat.{ℕ, ◌+◌, ◌*◌, ◌/◌, ◌%◌, ◌^◌, ◌<◌}
use mathlib.Core.Path.{◌≡◌, refl}
use mathlib.Core.List.{List, [], ◌∷◌, ◌++◌}
use mathlib.Core.Bool.{Bool, true, false, ◌&&◌}
use native.Mathlib.Omega.{arith}
use ipmi_rs.Base.Tests.{◌==◌}

abbrev pub IsByte : ℕ → Type 0
IsByte b = b < 256

abbrev pub IsU16 : ℕ → Type 0
IsU16 v = v < 2 ^ 16

abbrev pub IsU32 : ℕ → Type 0
IsU32 v = v < 2 ^ 32

-- `v.to_le_bytes()` and `v.to_be_bytes()` of a `u32`, and `to_le_bytes` of a `u16`.
abbrev pub u16_le : ℕ → List ℕ
u16_le v = v % 256 ∷ v / 256 % 256 ∷ []

abbrev pub u32_le : ℕ → List ℕ
u32_le v = v % 256 ∷ v / 2 ^ 8 % 256 ∷ v / 2 ^ 16 % 256 ∷ v / 2 ^ 24 % 256 ∷ []

abbrev pub u32_be : ℕ → List ℕ
u32_be v = v / 2 ^ 24 % 256 ∷ v / 2 ^ 16 % 256 ∷ v / 2 ^ 8 % 256 ∷ v % 256 ∷ []

-- `u16::from_le_bytes` and `u32::from_le_bytes`; big-endian arguments come in the reverse order.
abbrev pub of_le2 : ℕ → ℕ → ℕ
of_le2 a b = a + 2 ^ 8 * b

abbrev pub of_le4 : ℕ → ℕ → ℕ → ℕ → ℕ
of_le4 a b c d = a + 2 ^ 8 * b + 2 ^ 16 * c + 2 ^ 24 * d

pub of_le2-u16_le : (v : ℕ) → IsU16 v → of_le2 (v % 256) (v / 256 % 256) ≡ v
of_le2-u16_le v h = omega arith

pub of_le4-u32_le :
    (v : ℕ) → IsU32 v → of_le4 (v % 256) (v / 2 ^ 8 % 256) (v / 2 ^ 16 % 256) (v / 2 ^ 24 % 256) ≡ v
of_le4-u32_le v h = omega arith

-- `==` of byte slices, and `starts_with`.
abbrev pub bytes_eq : List ℕ → List ℕ → Bool
bytes_eq [] [] = true
bytes_eq [] (y ∷ ys) = false
bytes_eq (x ∷ xs) [] = false
bytes_eq (x ∷ xs) (y ∷ ys) = x == y && bytes_eq xs ys

abbrev pub starts_with : List ℕ → List ℕ → Bool
starts_with xs [] = true
starts_with [] (y ∷ ys) = false
starts_with (x ∷ xs) (y ∷ ys) = x == y && starts_with xs ys

pub bytes_eq→eq : (xs ys : List ℕ) → bytes_eq xs ys ≡ true → xs ≡ ys
bytes_eq→eq [] [] h = refl
bytes_eq→eq [] (y ∷ ys) h = cc
bytes_eq→eq (x ∷ xs) [] h = cc
bytes_eq→eq (x ∷ xs) (y ∷ ys) h = ground (arith, bytes_eq→eq xs ys)

pub bytes_eq_refl : (xs : List ℕ) → bytes_eq xs xs ≡ true
bytes_eq_refl [] = refl
bytes_eq_refl (x ∷ xs) = ground (arith, bytes_eq_refl xs)

pub starts_with-append : (xs ys : List ℕ) → starts_with (xs ++ ys) xs ≡ true
starts_with-append [] [] = refl
starts_with-append [] (y ∷ ys) = refl
starts_with-append (x ∷ xs) ys = ground (arith, starts_with-append xs ys)
