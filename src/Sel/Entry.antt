-- ===== src/Sel/Entry.antt =====
-- Records of the log: `Entry::parse` of ipmi-rs-core/src/storage/sel/mod.rs, and the event data of
-- ipmi-rs-core/src/storage/sdr/event_data.rs. A record number and a timestamp are their numbers.
use ipmi_rs.Base.{
  ℕ, ◌/◌, ◌&&◌, List, Option, none, some, Result, ok, ok_or, ◌>>=◌, ◌>>◌, reject_if, ◌==◌, ◌!=◌,
  ltb, leb, if◌then◌else◌, bit_and, length, get_or, drop, of_le2, of_le4,
}
use ipmi_rs.Connection.Channel.{Channel, LogicalUnit, channel_new, lun_from_low_bits}

-- `SelRecordType`.
pub data RecordType : Type 0 where
  system_type : RecordType
  timestamped_oem_type non_timestamped_oem_type unknown_type : ℕ → RecordType

unfoldable pub record_type_of_u8 : ℕ → RecordType
record_type_of_u8 v =
    if v == 0x02
    then system_type
    else if leb 0xc0 v && leb v 0xdf
    then timestamped_oem_type v
    else if leb 0xe0 v && leb v 0xff
    then non_timestamped_oem_type v
    else unknown_type v

pub data ParseEntryError : Type 0 where
  not_enough_data : ParseEntryError
  invalid_length invalid_channel : ℕ → ParseEntryError

pub data EventGenerator : Type 0 where
  rq_sa_and_lun : (i2c_addr : ℕ) → Channel → LogicalUnit → EventGenerator
  software_id : (id : ℕ) → Channel → EventGenerator

unfoldable pub generator_of : ℕ → ℕ → Result ParseEntryError EventGenerator
generator_of a b = do
  channel ← ok_or (invalid_channel (bit_and (b / 16) 0xf)) (channel_new (bit_and (b / 16) 0xf))
  if bit_and a 1 == 1
      then ok (software_id (bit_and (a / 2) 0x7f) channel)
      else ok (rq_sa_and_lun (bit_and (a / 2) 0x7f) channel (lun_from_low_bits b))

pub data EventMessageRevision : Type 0 where
  revision_2_0 revision_1_0 : EventMessageRevision
  unknown_revision : ℕ → EventMessageRevision

unfoldable pub revision_of_u8 : ℕ → EventMessageRevision
revision_of_u8 v =
    if v == 4 then revision_2_0 else if v == 3 then revision_1_0 else unknown_revision v

pub data EventDirection : Type 0 where
  assert deassert : EventDirection

unfoldable pub direction_of : ℕ → EventDirection
direction_of v = if bit_and v 0x80 == 0x80 then deassert else assert

pub data EventData2Type : Type 0 where
  unspecified_2 : EventData2Type
  trigger_reading oem_code_2 sensor_specific_2 : ℕ → EventData2Type

pub data EventData3Type : Type 0 where
  unspecified_3 : EventData3Type
  trigger_threshold oem_code_3 sensor_specific_3 : ℕ → EventData3Type

-- `NonMaxU8::new`.
abbrev pub non_max : ℕ → Option ℕ
non_max v = if v == 0xff then none else some v

unfoldable pub event_data_2 : ℕ → ℕ → EventData2Type
event_data_2 kind value = elim (non_max value) [
  | none ↦ unspecified_2
  | some v ↦
      if kind == 1
      then trigger_reading v
      else if kind == 2
      then oem_code_2 v
      else if kind == 3
      then sensor_specific_2 v
      else unspecified_2
]

unfoldable pub event_data_3 : ℕ → ℕ → EventData3Type
event_data_3 kind value = elim (non_max value) [
  | none ↦ unspecified_3
  | some v ↦
      if kind == 1
      then trigger_threshold v
      else if kind == 2
      then oem_code_3 v
      else if kind == 3
      then sensor_specific_3 v
      else unspecified_3
]

pub record EventData : Type 0 where
  pub offset : ℕ
  pub data2_type : EventData2Type
  pub data3_type : EventData3Type

unfoldable pub parse_event_data : ℕ → ℕ → ℕ → EventData
unfolding event_data_2 event_data_3
parse_event_data a b c = record {
  offset = bit_and a 0x0f;
  data2_type = event_data_2 (bit_and (a / 64) 3) b;
  data3_type = event_data_3 (bit_and (a / 16) 3) c;
}

pub record SystemEvent : Type 0 where
  pub timestamp : ℕ
  pub generator_id : EventGenerator
  pub event_message_format : EventMessageRevision
  pub sensor_type : ℕ
  pub sensor_number : ℕ
  pub event_direction : EventDirection
  pub event_type : ℕ
  pub event_data : EventData

-- Each first argument is the record's number; `ty`, a timestamp and a manufacturer come before the data.
pub data Entry : Type 0 where
  system : (record_id : ℕ) → SystemEvent → Entry
  oem_timestamped : (record_id ty timestamp manufacturer_id : ℕ) → List ℕ → Entry
  oem_not_timestamped : (record_id ty : ℕ) → List ℕ → Entry
  unknown : (record_id ty : ℕ) → List ℕ → Entry

abbrev pub record_id : Entry → ℕ
record_id (system id e) = id
record_id (oem_timestamped id ty t m bytes) = id
record_id (oem_not_timestamped id ty bytes) = id
record_id (unknown id ty bytes) = id

-- `u32::from_le_bytes` of the four bytes from 3 on.
abbrev pub timestamp_of : List ℕ → ℕ
timestamp_of bytes =
    of_le4 (get_or bytes 3 0) (get_or bytes 4 0) (get_or bytes 5 0) (get_or bytes 6 0)

unfoldable pub system_event_of : EventGenerator → List ℕ → SystemEvent
unfolding revision_of_u8 direction_of parse_event_data
system_event_of generator bytes = record {
  timestamp = timestamp_of bytes;
  generator_id = generator;
  event_message_format = revision_of_u8 (get_or bytes 9 0);
  sensor_type = get_or bytes 10 0;
  sensor_number = get_or bytes 11 0;
  event_direction = direction_of (get_or bytes 12 0);
  event_type = bit_and (get_or bytes 12 0) 0x7f;
  event_data = parse_event_data (get_or bytes 13 0) (get_or bytes 14 0) (get_or bytes 15 0);
}

-- The record of a type from all its bytes.
unfoldable pub entry_of : ℕ → RecordType → List ℕ → Result ParseEntryError Entry
unfolding generator_of system_event_of
entry_of id system_type bytes = do
  generator ← generator_of (get_or bytes 7 0) (get_or bytes 8 0)
  ok (system id (system_event_of generator bytes))
entry_of id (timestamped_oem_type v) bytes = ok (
    oem_timestamped id v (timestamp_of bytes)
      (of_le4 (get_or bytes 7 0) (get_or bytes 8 0) (get_or bytes 9 0) 0) (drop 10 bytes))
entry_of id (non_timestamped_oem_type v) bytes = ok (oem_not_timestamped id v (drop 3 bytes))
entry_of id (unknown_type v) bytes = ok (unknown id v (drop 3 bytes))

-- `Entry::parse`.
unfoldable pub parse : List ℕ → Result ParseEntryError Entry
unfolding entry_of record_type_of_u8
parse bytes = do
  reject_if (ltb (length bytes) 16) not_enough_data
  reject_if (length bytes != 16) (invalid_length (length bytes))
  entry_of (of_le2 (get_or bytes 0 0) (get_or bytes 1 0)) (record_type_of_u8 (get_or bytes 2 0))
      bytes
