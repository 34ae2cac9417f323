-- ===== src/Fru/Inventory/Records.antt =====
-- The multirecord area: `parse_multirecords` of inventory.rs.
pub mod Lossless
use ipmi_rs.Base.{
  ℕ, zero, suc, ◌+◌, ◌%◌, Bool, true, false, ◌&&◌, List, [], ◌∷◌, Result, ok, err, ◌>>=◌, ◌>>◌,
  reject_if, ◌==◌, ◌!=◌, ltb, leb, if◌then◌else◌, bit_and, length, get_or, take, drop, of_le2, ℤ,
  of_i16,
}
use ipmi_rs.Fru.Inventory.{
  FruParseError, version, checksum, field, truncated, byte_sum, check_sum, get_range,
}

pub record DcRecord : Type 0 where
  pub number : ℕ
  pub nominal_voltage_10mv : ℤ
  pub minimum_10mv : ℤ
  pub maximum_10mv : ℤ
  pub ripple_mv : ℕ
  pub minimum_current_ma : ℕ
  pub maximum_current_ma : ℕ
  pub standby : Bool

pub data MultiRecordData : Type 0 where
  dc_output dc_load : DcRecord → MultiRecordData
  management_access : (subtype : ℕ) (payload : List ℕ) → MultiRecordData
  oem unknown : List ℕ → MultiRecordData

pub record MultiRecord : Type 0 where
  pub record_type : ℕ
  pub format_version : ℕ
  pub end_of_list : Bool
  pub raw : List ℕ
  pub payload : MultiRecordData

abbrev unsigned : List ℕ → ℕ → ℕ
unsigned payload i = of_le2 (get_or payload i 0) (get_or payload (i + 1) 0)

abbrev signed : List ℕ → ℕ → ℤ
signed payload i = of_i16 (unsigned payload i)

pub dc_record : ℕ → List ℕ → DcRecord
dc_record record_type payload = record {
  number = bit_and (get_or payload 0 0) 0x0f;
  nominal_voltage_10mv = signed payload 1;
  minimum_10mv = signed payload 3;
  maximum_10mv = signed payload 5;
  ripple_mv = unsigned payload 7;
  minimum_current_ma = unsigned payload 9;
  maximum_current_ma = unsigned payload 11;
  standby = record_type == 1 && (bit_and (get_or payload 0 0) 0x80 != 0);
}

abbrev split_subtype : List ℕ → Result FruParseError MultiRecordData
split_subtype [] = err field
split_subtype (subtype ∷ rest) = ok (management_access subtype rest)

-- The `match record_type`.
pub record_data : ℕ → List ℕ → Result FruParseError MultiRecordData
unfolding dc_record
record_data record_type payload =
    if record_type == 1
    then (do reject_if (length payload != 13) field; ok (dc_output (dc_record 1 payload)))
    else if record_type == 2
    then (do reject_if (length payload != 13) field; ok (dc_load (dc_record 2 payload)))
    else if record_type == 3
    then split_subtype payload
    else if leb 0xc0 record_type
    then ok (oem payload)
    else ok (unknown payload)

-- One turn of the loop at `bytes`, which are `area[pos..]`: the record, and what is behind it.
pub read_record : List ℕ → Result FruParseError (MultiRecord × List ℕ)
read_record bytes = do
  header ← get_range bytes 0 5
  reject_if (bit_and (get_or header 1 0) 0x7f != 2) version
  check_sum header
  let size = get_or header 2 0
  payload ← get_range bytes 5 size
  reject_if (byte_sum (get_or header 3 0) payload != 0) checksum
  decoded ← record_data (get_or header 0 0) payload
  let r : MultiRecord = record {
    record_type = get_or header 0 0;
    format_version = 2;
    end_of_list = bit_and (get_or header 1 0) 0x80 != 0;
    raw = payload;
    payload = decoded;
  }
  ok (r, drop (5 + size) bytes)

abbrev pub cons_record :
    MultiRecord
    → Result FruParseError (List MultiRecord × List ℕ)
    → Result FruParseError (List MultiRecord × List ℕ)
cons_record r (err e) = err e
cons_record r (ok (rs, tail)) = ok (r ∷ rs, tail)

-- The rest of the loop after one record.
abbrev pub next_record :
    Result FruParseError (MultiRecord × List ℕ)
    → (List ℕ → Result FruParseError (List MultiRecord × List ℕ))
    → Result FruParseError (List MultiRecord × List ℕ)
next_record (err e) again = err e
next_record (ok (r, rest)) again =
    let more = again rest in if r.end_of_list then ok (r ∷ [], rest) else cons_record r more

-- The loop, with the bytes behind the last record. Every turn takes five bytes at least, and `left`
-- is at least the number of bytes.
pub read_records : ℕ → List ℕ → Result FruParseError (List MultiRecord × List ℕ)
read_records zero bytes = err truncated
read_records (suc left) bytes = next_record (read_record bytes) (read_records left)

-- `parse_multirecords`; the source returns the number of bytes read in place of the rest.
unfoldable pub parse_multirecords : List ℕ → Result FruParseError (List MultiRecord × List ℕ)
unfolding read_records read_record record_data
parse_multirecords bytes = read_records (suc (length bytes)) bytes
