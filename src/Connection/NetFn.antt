-- ===== src/Connection/NetFn.antt =====
-- ipmi-rs-core/src/connection/netfn.rs: network function codes.
use ipmi_rs.Base.{
  ℕ, ◌+◌, ◌-◌, ◌*◌, ◌/◌, ◌%◌, ◌<◌, ◌≡◌, refl, Bool, ◌&&◌, ◌||◌, arith, ◌==◌, if◌then◌else◌,
  all_below, all_below_sound,
}

pub data NetFn : Type 0 where
  chassis bridge sensor_event app firmware storage transport : NetFn
  reserved : ℕ → NetFn

-- `From<u8>`.
unfoldable pub netfn_of_u8 : ℕ → NetFn
netfn_of_u8 v =
    if v == 0x00 || v == 0x01
    then chassis
    else if v == 0x02 || v == 0x03
    then bridge
    else if v == 0x04 || v == 0x05
    then sensor_event
    else if v == 0x06 || v == 0x07
    then app
    else if v == 0x08 || v == 0x09
    then firmware
    else if v == 0x0a || v == 0x0b
    then storage
    else if v == 0x0c || v == 0x0d
    then transport
    else reserved v

unfoldable pub request_value : NetFn → ℕ
request_value chassis = 0x00
request_value bridge = 0x02
request_value sensor_event = 0x04
request_value app = 0x06
request_value firmware = 0x08
request_value storage = 0x0a
request_value transport = 0x0c
request_value (reserved v) = if v % 2 == 1 then v - 1 else v

unfoldable pub response_value : NetFn → ℕ
response_value chassis = 0x01
response_value bridge = 0x03
response_value sensor_event = 0x05
response_value app = 0x07
response_value firmware = 0x09
response_value storage = 0x0b
response_value transport = 0x0d
response_value (reserved v) = if v % 2 == 0 then v + 1 else v

values_table :
    all_below 256 (λ v.
      (request_value (netfn_of_u8 v) == (v / 2 * 2))
      && (response_value (netfn_of_u8 v) == (v / 2 * 2 + 1)))
    ≡ Bool.true
unfolding all_below netfn_of_u8 request_value response_value
values_table = refl

-- Whatever byte a network function is read from, its request value is that byte with the lowest
-- bit cleared, and its response value is that byte with the lowest bit set.
pub netfn_of_u8_values :
    (v : ℕ)
    → v < 256
    → (request_value (netfn_of_u8 v) ≡ v / 2 * 2) × (response_value (netfn_of_u8 v) ≡ v / 2 * 2 + 1)
netfn_of_u8_values v h = ground (arith, all_below_sound 256 _ v values_table h)
