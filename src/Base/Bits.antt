-- ===== src/Base/Bits.antt =====
-- Masks on one byte as arithmetic; each law is a table of at most 256 entries, checked by evaluation.
use Prim.Native.Nat.{ℕ, zero, suc, ◌+◌, ◌*◌, ◌/◌, ◌%◌, ◌<◌, bit_and, bit_or}
use mathlib.Core.Path.{◌≡◌, refl}
use mathlib.Core.Bool.{Bool, true, ◌&&◌}
use native.Mathlib.Omega.{arith}
use ipmi_rs.Base.Tests.{◌==◌, ==_iff}

unfoldable pub all_below : ℕ → (ℕ → Bool) → Bool
all_below zero test = true
all_below (suc bound) test = all_below bound test && test bound

pub all_below_sound :
    (bound : ℕ) (test : ℕ → Bool) (v : ℕ) → all_below bound test ≡ true → v < bound → test v ≡ true
unfolding all_below
all_below_sound zero test v passed below = absurd (omega arith)
all_below_sound (suc bound) test v passed below = ground (arith, all_below_sound bound test v)

agree : (f g : ℕ → ℕ) (n : ℕ) → all_below n (λ x. f x == g x) ≡ true → (x : ℕ) → x < n → f x ≡ g x
agree f g n t x h = (==_iff (f x) (g x)).0 (all_below_sound n _ x t h)

pub bit_and_3 : (x : ℕ) → x < 256 → bit_and x 3 ≡ x % 4
unfolding all_below
bit_and_3 = agree (λ x. bit_and x 3) (λ x. x % 4) 256 refl

pub bit_and_0x0f : (x : ℕ) → x < 256 → bit_and x 0x0f ≡ x % 16
unfolding all_below
bit_and_0x0f = agree (λ x. bit_and x 0x0f) (λ x. x % 16) 256 refl

pub bit_and_0x3f : (x : ℕ) → x < 256 → bit_and x 0x3f ≡ x % 64
unfolding all_below
bit_and_0x3f = agree (λ x. bit_and x 0x3f) (λ x. x % 64) 256 refl

pub bit_and_0x7f : (x : ℕ) → x < 256 → bit_and x 0x7f ≡ x % 128
unfolding all_below
bit_and_0x7f = agree (λ x. bit_and x 0x7f) (λ x. x % 128) 256 refl

pub bit_and_0x80 : (x : ℕ) → x < 256 → bit_and x 0x80 ≡ x / 128 * 128
unfolding all_below
bit_and_0x80 = agree (λ x. bit_and x 0x80) (λ x. x / 128 * 128) 256 refl

pub bit_and_0xf0 : (x : ℕ) → x < 256 → bit_and x 0xf0 ≡ x / 16 * 16
unfolding all_below
bit_and_0xf0 = agree (λ x. bit_and x 0xf0) (λ x. x / 16 * 16) 256 refl

pub bit_and_1 : (x : ℕ) → x < 256 → bit_and x 1 ≡ x % 2
unfolding all_below
bit_and_1 = agree (λ x. bit_and x 1) (λ x. x % 2) 256 refl

-- A shifted field of six bits joined with a field of two bits.
pub bit_or_pair : (hi lo : ℕ) → hi < 64 → lo < 4 → bit_or (hi * 4) lo ≡ hi * 4 + lo
unfolding all_below
bit_or_pair hi lo h l = pair hi h lo l
  where
    pair : (x : ℕ) → x < 64 → (y : ℕ) → y < 4 → bit_or (x * 4) y ≡ x * 4 + y
    pair x hx y hy = (==_iff (bit_or (x * 4) y) (x * 4 + y)).0 (
        all_below_sound 4 (λ b. bit_or (x * 4) b == (x * 4 + b)) y
          (all_below_sound 64 (λ a. all_below 4 (λ b. bit_or (a * 4) b == (a * 4 + b))) x refl hx)
          hy)
