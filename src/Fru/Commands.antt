-- ===== src/Fru/Commands.antt =====
-- ipmi-rs-core/src/storage/fru/commands.rs: the FRU inventory commands, with the bounds of a transfer
-- and the checks of its answer.
use ipmi_rs.Base.{
  ℕ, ◌+◌, ◌*◌, ◌/◌, ◌%◌, Bool, true, ◌||◌, not, List, [], ◌∷◌, ◌++◌, Option, Result, ok, err, ◌>>=◌,
  ◌==◌, ◌!=◌, ltb, if◌then◌else◌, bit_and, length, of_le2, u16_le,
}
use ipmi_rs.Connection.Channel.{Channel, LogicalUnit}

abbrev pub default_chunk_bytes : ℕ
default_chunk_bytes = 16

pub data FruAccess : Type 0 where
  byte word : FruAccess

abbrev pub unit : FruAccess → ℕ
unit byte = 1
unit word = 2

pub record FruInfo : Type 0 where
  pub size : ℕ
  pub access : FruAccess

pub data FruCommandError : Type 0 where
  malformed_response empty_inventory invalid_length : FruCommandError
  out_of_bounds unaligned unexpected_count : FruCommandError

-- `value.is_multiple_of(unit)`.
abbrev pub multiple : FruAccess → ℕ → Bool
multiple byte n = true
multiple word n = n % 2 == 0

-- `offset / unit`.
abbrev pub in_units : FruAccess → ℕ → ℕ
in_units byte n = n
in_units word n = n / 2

unfoldable pub validate : FruInfo → ℕ → ℕ → Result FruCommandError ℕ
validate info offset len =
    if len == 0 || ltb 255 len
    then err invalid_length
    else if ltb info.size (offset + len)
    then err out_of_bounds
    else if not (multiple info.access offset) || not (multiple info.access len)
    then err unaligned
    else ok (in_units info.access offset)

-- `GetFruInventoryAreaInfo`: what it sends, and the answer.
unfoldable pub info_request : ℕ → List ℕ
info_request id = id ∷ []

unfoldable pub parse_info : List ℕ → Result FruCommandError FruInfo
parse_info (a ∷ b ∷ c ∷ []) =
    if of_le2 a b == 0
    then err empty_inventory
    else ok (record { size = of_le2 a b; access = if bit_and c 1 == 1 then word else byte })
parse_info _ = err malformed_response

pub record ReadFruData : Type 0 where
  pub id : ℕ
  pub offset : ℕ
  pub count : ℕ
  pub access : FruAccess
  pub target : Option (ℕ × Channel)
  pub lun : LogicalUnit

pub record ReadFruDataResponse : Type 0 where
  pub count : ℕ
  pub payload : List ℕ

unfoldable pub read_new :
    ℕ → Option (ℕ × Channel) → LogicalUnit → FruInfo → ℕ → ℕ → Result FruCommandError ReadFruData
unfolding validate
read_new id target lun info offset count = do
  wire_offset ← validate info offset count
  ok (record {
    id = id;
    offset = offset;
    count = count;
    access = info.access;
    target = target;
    lun = lun;
  })

unfoldable pub read_verify : ReadFruData → ReadFruDataResponse → Result FruCommandError (List ℕ)
read_verify c r =
    if r.count * unit c.access != c.count
    then err unexpected_count
    else if length r.payload != c.count
    then err malformed_response
    else ok r.payload

unfoldable pub read_request : ReadFruData → List ℕ
read_request c = c.id ∷ (u16_le (in_units c.access c.offset) ++ (c.count ∷ []))

unfoldable pub parse_read : List ℕ → Result FruCommandError ReadFruDataResponse
parse_read [] = err malformed_response
parse_read (count ∷ []) = err unexpected_count
parse_read (count ∷ b ∷ bs) =
    if count == 0 then err unexpected_count else ok (record { count = count; payload = b ∷ bs })

pub record WriteFruData : Type 0 where
  pub id : ℕ
  pub offset : ℕ
  pub payload : List ℕ
  pub access : FruAccess
  pub target : Option (ℕ × Channel)
  pub lun : LogicalUnit

unfoldable pub write_new :
    ℕ
    → Option (ℕ × Channel)
    → LogicalUnit
    → FruInfo
    → ℕ
    → List ℕ
    → Result FruCommandError WriteFruData
unfolding validate
write_new id target lun info offset payload = do
  wire_offset ← validate info offset (length payload)
  ok (record {
    id = id;
    offset = offset;
    payload = payload;
    access = info.access;
    target = target;
    lun = lun;
  })

unfoldable pub write_verify : WriteFruData → ℕ → Result FruCommandError (Unit {0})
write_verify c count =
    if count * unit c.access != length c.payload then err unexpected_count else ok tt

unfoldable pub write_request : WriteFruData → List ℕ
write_request c = c.id ∷ (u16_le (in_units c.access c.offset) ++ c.payload)

unfoldable pub parse_write : List ℕ → Result FruCommandError ℕ
parse_write (count ∷ []) = ok count
parse_write _ = err malformed_response
