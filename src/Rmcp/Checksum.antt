-- ===== src/Rmcp/Checksum.antt =====
-- ipmi-rs/src/rmcp/checksum.rs: the two's complement checksum of IPMB messages.
use ipmi_rs.Base.{ℕ, ◌+◌, ◌-◌, ◌%◌, ◌<◌, ◌≡◌, ◌↔◌, List, [], ◌∷◌, arith, IsByte}

-- The state byte after `feed`.
pub feed : ℕ → ℕ → ℕ
feed state b = (state + b) % 256

-- `(!state).wrapping_add(1)`.
pub finalize : ℕ → ℕ
finalize state = (255 - state + 1) % 256

pub feed_all : ℕ → List ℕ → ℕ
feed_all state [] = state
feed_all state (b ∷ bs) = feed_all (feed state b) bs

-- `Checksum::from_iter`.
unfoldable pub checksum : List ℕ → ℕ
unfolding feed finalize feed_all
checksum bs = finalize (feed_all 0 bs)

-- The plain sum of the bytes, to say what the checksum is for.
pub sum : List ℕ → ℕ
sum [] = 0
sum (b ∷ bs) = b + sum bs

feed_all-sum : (state : ℕ) (bs : List ℕ) → state < 256 → feed_all state bs ≡ (state + sum bs) % 256
unfolding feed_all feed sum
feed_all-sum state [] h = omega arith
feed_all-sum state (b ∷ bs) h = omega (arith, feed_all-sum ((state + b) % 256) bs (omega arith))

pub checksum-IsByte : (bs : List ℕ) → IsByte (checksum bs)
unfolding checksum
checksum-IsByte bs = omega arith

-- A byte is the checksum of a message exactly when the message and that byte sum to zero modulo
-- 256, so one checksum byte fits each message.
checksum_iff : (bs : List ℕ) (c : ℕ) → c < 256 → (c ≡ checksum bs) ↔ ((sum bs + c) % 256 ≡ 0)
unfolding checksum
checksum_iff bs c h = (
  λ e. omega (arith, feed_all-sum 0 bs (omega arith)),
  λ e. omega (arith, feed_all-sum 0 bs (omega arith)),
)
