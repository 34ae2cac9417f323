-- ===== src/App/DeviceId.antt =====
-- ipmi-rs-core/src/app/get_device_id.rs: what a device tells of itself.
use ipmi_rs.Base.{
  ℕ, ◌+◌, ◌*◌, ◌/◌, Bool, List, [], ◌∷◌, Option, none, some, ◌==◌, ◌!=◌, ltb, if◌then◌else◌,
  bit_and, length, get_or, of_le2, of_le4,
}

pub record DeviceId : Type 0 where
  pub device_id : ℕ
  pub device_revision : ℕ
  pub provides_device_sdrs : Bool
  pub device_available : Bool
  pub major_fw_revision : ℕ
  pub minor_fw_revision : ℕ
  pub major_version : ℕ
  pub minor_version : ℕ
  pub chassis_support : Bool
  pub bridge_support : Bool
  pub ipmb_event_generator_support : Bool
  pub ipmb_event_receiver_support : Bool
  pub fru_inventory_support : Bool
  pub sel_device_support : Bool
  pub sdr_repository_support : Bool
  pub sensor_device_support : Bool
  pub manufacturer_id : ℕ
  pub product_id : ℕ
  pub aux_revision : Option (List ℕ)

-- Four bytes that an answer has from its fifteenth byte on.
abbrev pub aux_revision_of : List ℕ → Option (List ℕ)
aux_revision_of bytes =
    if ltb (length bytes) 15
    then none
    else some (get_or bytes 11 0 ∷ get_or bytes 12 0 ∷ get_or bytes 13 0 ∷ get_or bytes 14 0 ∷ [])

-- Two decimal digits; the sum is below 256 for every byte.
abbrev pub minor_of : ℕ → ℕ
minor_of v = bit_and v 0xf + bit_and (v / 16) 0xf * 10

unfoldable pub device_id_of : List ℕ → Option DeviceId
device_id_of bytes =
    let support = get_or bytes 5 0 in
    if ltb (length bytes) 11
    then none
    else some (record {
      device_id = get_or bytes 0 0;
      device_revision = bit_and (get_or bytes 1 0) 0xf;
      provides_device_sdrs = bit_and (get_or bytes 1 0) 0x80 == 0x80;
      device_available = bit_and (get_or bytes 2 0) 0x80 != 0x80;
      major_fw_revision = bit_and (get_or bytes 2 0) 0x7f;
      minor_fw_revision = minor_of (get_or bytes 3 0);
      major_version = bit_and (get_or bytes 4 0) 0xf;
      minor_version = bit_and (get_or bytes 4 0 / 16) 0xf;
      chassis_support = bit_and support 0x80 == 0x80;
      bridge_support = bit_and support 0x40 == 0x40;
      ipmb_event_generator_support = bit_and support 0x20 == 0x20;
      ipmb_event_receiver_support = bit_and support 0x10 == 0x10;
      fru_inventory_support = bit_and support 8 == 8;
      sel_device_support = bit_and support 4 == 4;
      sdr_repository_support = bit_and support 2 == 2;
      sensor_device_support = bit_and support 1 == 1;
      manufacturer_id = of_le4 (get_or bytes 6 0) (get_or bytes 7 0) (get_or bytes 8 0) 0;
      product_id = of_le2 (get_or bytes 9 0) (get_or bytes 10 0);
      aux_revision = aux_revision_of bytes;
    })
