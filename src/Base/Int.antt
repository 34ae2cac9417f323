-- ===== src/Base/Int.antt =====
-- Signed integers over the native numbers, and the signed reading of a machine word.
use Prim.Native.Nat.{ℕ, ◌-◌, ◌^◌}
use ipmi_rs.Base.Tests.{ltb, if◌then◌else◌}

-- `negsuc n` is -(n + 1).
pub data ℤ : Type 0 where
  pos negsuc : ℕ → ℤ

-- A word of 8 or 16 bits as `i8` or `i16`.
abbrev pub of_i8 : ℕ → ℤ
of_i8 v = if ltb v (2 ^ 7) then pos v else negsuc (2 ^ 8 - 1 - v)

abbrev pub of_i16 : ℕ → ℤ
of_i16 v = if ltb v (2 ^ 15) then pos v else negsuc (2 ^ 16 - 1 - v)
