-- ===== src/Connection/Channel.antt =====
-- Channels, logical units and request targets of ipmi-rs-core/src/connection/mod.rs and request.rs.
use ipmi_rs.Base.{
  ℕ, ◌<◌, ◌≡◌, ◌≢◌, ◌↔◌, Option, none, some, arith, ◌==◌, leb, if◌then◌else◌, bit_and,
}

-- `numbered v` is `Numbered(ChannelNumber(v))`.
pub data Channel : Type 0 where
  primary system current : Channel
  numbered : ℕ → Channel

-- `ChannelNumber::new(NonZeroU8::new(v)?)`.
unfoldable pub channel_number : ℕ → Option ℕ
channel_number v = if v == 0 then none else if leb v 0xb then some v else none

unfoldable pub channel_new : ℕ → Option Channel
unfolding channel_number
channel_new v =
    if v == 0
    then some primary
    else if v == 0xe
    then some current
    else if v == 0xf
    then some system
    else elim (channel_number v) [ none ↦ none | some n ↦ some (numbered n) ]

unfoldable pub channel_value : Channel → ℕ
channel_value primary = 0
channel_value (numbered v) = v
channel_value current = 0xe
channel_value system = 0xf

-- The channel numbers that are refused are 12, 13 and those above 15, and each channel that is
-- built has the number that it was built from.
pub channel_new-channel_value :
    (v : ℕ)
    → ((channel_new v ≡ none) ↔ ((0xb < v) × (v ≢ 0xe) × (v ≢ 0xf)))
      × ((c : Channel) → channel_new v ≡ some c → channel_value c ≡ v)
unfolding channel_new channel_value
channel_new-channel_value v = ((λ e. ground arith, λ e. ground arith), λ c e. ground arith)

pub data LogicalUnit : Type 0 where
  lun_zero lun_one lun_two lun_three : LogicalUnit

-- The fourth arm, `0b11`, is the only value left under the mask.
unfoldable pub lun_from_low_bits : ℕ → LogicalUnit
lun_from_low_bits v =
    let low = bit_and v 3 in
    if low == 0
    then lun_zero
    else if low == 1
    then lun_one
    else if low == 2
    then lun_two
    else lun_three

unfoldable pub lun_value : LogicalUnit → ℕ
lun_value lun_zero = 0
lun_value lun_one = 1
lun_value lun_two = 2
lun_value lun_three = 3

pub lun_value-lt : (l : LogicalUnit) → lun_value l < 4
unfolding lun_value
lun_value-lt lun_zero = omega arith
lun_value-lt lun_one = omega arith
lun_value-lt lun_two = omega arith
lun_value-lt lun_three = omega arith

-- `Address`, `Channel` and `LogicalUnit` of one bridge hop.
pub record IpmbTarget : Type 0 where
  pub address : ℕ
  pub channel : Channel
  pub lun : LogicalUnit

pub data RequestTargetAddress : Type 0 where
  bmc : LogicalUnit → RequestTargetAddress
  bmc_or_ipmb : ℕ → Channel → LogicalUnit → RequestTargetAddress
  bridged : IpmbTarget → Option IpmbTarget → RequestTargetAddress
