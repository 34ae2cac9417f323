-- ===== src/Sel/Commands.antt =====
-- The commands of ipmi-rs-core/src/storage/sel: what each sends, and what it reads of an answer.
use ipmi_rs.Base.{
  ℕ, ◌/◌, Bool, true, false, ◌||◌, List, [], ◌∷◌, ◌++◌, Option, none, some, Result, ok, err, ok_or,
  map_err, ◌>>=◌, ◌>>◌, reject_if, ◌==◌, ◌!=◌, ltb, if◌then◌else◌, bit_and, length, get_or, drop,
  of_le2, of_le4, u16_le, u32_le,
}
use ipmi_rs.Sel.{
  SelCommand, SelInfo, delete, partial_add_entry, reserve, get_alloc_info, first_id, last_id,
}
use ipmi_rs.Sel.Entry.{Entry, ParseEntryError, not_enough_data, parse}

-- The number of a `NonZeroU16`.
abbrev pub non_zero : ℕ → Option ℕ
non_zero v = if v == 0 then none else some v

abbrev pub number_of : Option ℕ → ℕ
number_of none = 0
number_of (some id) = id

-- `RecordId::new`.
unfoldable pub record_id_new : ℕ → Option ℕ
record_id_new v = if v == first_id || v == last_id then none else some v

-- A record number that stands for one of the log's records, in an answer of two bytes.
abbrev pub parse_record_id : {E : Type 0} → (ℕ → E) → List ℕ → Result E ℕ
unfolding record_id_new
parse_record_id invalid bytes = do
  reject_if (length bytes != 2) (invalid (length bytes))
  ok_or (invalid (length bytes)) (record_id_new (of_le2 (get_or bytes 0 0) (get_or bytes 1 0)))

-- Get SEL Info (0x40).
abbrev pub with_command : Bool → SelCommand → List SelCommand → List SelCommand
with_command true c cs = c ∷ cs
with_command false c cs = cs

unfoldable pub parse_info : List ℕ → Option SelInfo
parse_info bytes =
    let support = get_or bytes 13 0 in
    if length bytes != 14
    then none
    else some (record {
      version_maj = bit_and (get_or bytes 0 0) 0xf;
      version_min = bit_and (get_or bytes 0 0 / 16) 0xf;
      entries = of_le2 (get_or bytes 1 0) (get_or bytes 2 0);
      bytes_free = of_le2 (get_or bytes 3 0) (get_or bytes 4 0);
      last_add_time =
          of_le4 (get_or bytes 5 0) (get_or bytes 6 0) (get_or bytes 7 0) (get_or bytes 8 0);
      last_del_time =
          of_le4 (get_or bytes 9 0) (get_or bytes 10 0) (get_or bytes 11 0) (get_or bytes 12 0);
      overflow = bit_and support 0x80 == 0x80;
      supported_cmds = with_command (bit_and support 8 == 8) delete (
          with_command (bit_and support 4 == 4) partial_add_entry (
            with_command (bit_and support 2 == 2) reserve
              (with_command (bit_and support 1 == 1) get_alloc_info [])));
    })

-- Get SEL Allocation Info (0x41): `AllocInfo` of ipmi-rs-core/src/storage/mod.rs.
pub record AllocInfo : Type 0 where
  pub num_alloc_units : Option ℕ
  pub alloc_unit_size : Option ℕ
  pub num_free_units : ℕ
  pub largest_free_blk : ℕ
  pub max_record_size : ℕ

-- `none` is the panic of `data[8]` on eight bytes.
unfoldable pub parse_alloc_info : List ℕ → Option (Option AllocInfo)
parse_alloc_info bytes =
    if ltb (length bytes) 8
    then some none
    else if length bytes == 8
    then none
    else some (
        some (record {
          num_alloc_units = non_zero (of_le2 (get_or bytes 0 0) (get_or bytes 1 0));
          alloc_unit_size = non_zero (of_le2 (get_or bytes 2 0) (get_or bytes 3 0));
          num_free_units = of_le2 (get_or bytes 4 0) (get_or bytes 5 0);
          largest_free_blk = of_le2 (get_or bytes 6 0) (get_or bytes 7 0);
          max_record_size = get_or bytes 8 0;
        }))

-- Reserve SEL (0x42).
unfoldable pub parse_reservation : List ℕ → Option ℕ
parse_reservation bytes =
    if ltb (length bytes) 2 then none else non_zero (of_le2 (get_or bytes 0 0) (get_or bytes 1 0))

-- Get SEL Entry (0x43).
pub record GetEntry : Type 0 where
  pub reservation_id : Option ℕ
  pub record_id : ℕ
  pub offset : ℕ
  pub bytes_to_read : Option ℕ

unfoldable pub get_entry_new : Option ℕ → ℕ → GetEntry
get_entry_new reservation id = record {
  reservation_id = reservation;
  record_id = id;
  offset = 0;
  bytes_to_read = none;
}

-- `NonMaxU8`: the value 0xff stands for all bytes.
abbrev pub size_byte : Option ℕ → ℕ
size_byte none = 0xff
size_byte (some v) = v

unfoldable pub get_entry_request : GetEntry → List ℕ
get_entry_request cmd =
    u16_le (number_of cmd.reservation_id)
    ++ (u16_le cmd.record_id ++ (cmd.offset ∷ size_byte cmd.bytes_to_read ∷ []))

pub record EntryInfo : Type 0 where
  pub next_entry : ℕ
  pub entry : Entry
  pub raw : List ℕ

-- `parse` has seen to it that the bytes behind the first two are sixteen.
unfoldable pub parse_get_entry : List ℕ → Result ParseEntryError EntryInfo
unfolding parse
parse_get_entry bytes = do
  reject_if (ltb (length bytes) 2) not_enough_data
  entry ← parse (drop 2 bytes)
  reject_if (length (drop 2 bytes) != 16) not_enough_data
  ok (record {
    next_entry = of_le2 (get_or bytes 0 0) (get_or bytes 1 0);
    entry = entry;
    raw = drop 2 bytes;
  })

-- Add SEL Entry (0x44).
pub data AddSelEntryError : Type 0 where
  invalid_length nonzero_record_id : ℕ → AddSelEntryError
  invalid_entry : ParseEntryError → AddSelEntryError
  invalid_added : ℕ → AddSelEntryError

-- The command is the sixteen bytes, and so is what it sends.
unfoldable pub add_entry_new : List ℕ → Result AddSelEntryError (List ℕ)
unfolding parse
add_entry_new bytes = do
  reject_if (length bytes != 16) (invalid_length (length bytes))
  reject_if (of_le2 (get_or bytes 0 0) (get_or bytes 1 0) != 0)
      (nonzero_record_id (of_le2 (get_or bytes 0 0) (get_or bytes 1 0)))
  entry ← map_err invalid_entry (parse bytes)
  ok bytes

unfoldable pub parse_added : List ℕ → Result AddSelEntryError ℕ
parse_added = parse_record_id invalid_added

-- Delete SEL Entry (0x46).
pub data DeleteSelEntryError : Type 0 where
  invalid_record_id : DeleteSelEntryError
  invalid_deleted : ℕ → DeleteSelEntryError

pub record DeleteSelEntry : Type 0 where
  pub reservation : Option ℕ
  pub record_id : ℕ

unfoldable pub delete_entry_new : Option ℕ → ℕ → Result DeleteSelEntryError DeleteSelEntry
delete_entry_new reservation id =
    if id == first_id || id == last_id
    then err invalid_record_id
    else ok (record { reservation = reservation; record_id = id })

unfoldable pub delete_request : DeleteSelEntry → List ℕ
delete_request cmd = u16_le (number_of cmd.reservation) ++ u16_le cmd.record_id

unfoldable pub parse_deleted : List ℕ → Result DeleteSelEntryError ℕ
parse_deleted = parse_record_id invalid_deleted

-- Clear SEL (0x47).
pub data ClearSelAction : Type 0 where
  initiate_erase get_status : ClearSelAction

pub data ErasureProgress : Type 0 where
  in_progress completed : ErasureProgress

pub record ClearSel : Type 0 where
  pub reservation_id : Option ℕ
  pub action : ClearSelAction

unfoldable pub clear_initiate : Option ℕ → ClearSel
clear_initiate reservation = record { reservation_id = reservation; action = initiate_erase }

unfoldable pub clear_get_status : Option ℕ → ClearSel
clear_get_status reservation = record { reservation_id = reservation; action = get_status }

abbrev pub action_byte : ClearSelAction → ℕ
action_byte initiate_erase = 0xaa
action_byte get_status = 0

unfoldable pub clear_request : ClearSel → List ℕ
clear_request cmd =
    u16_le (number_of cmd.reservation_id) ++ (0x43 ∷ 0x4c ∷ 0x52 ∷ action_byte cmd.action ∷ [])

unfoldable pub parse_progress : List ℕ → Option ErasureProgress
parse_progress [] = none
parse_progress (b ∷ bs) = if bit_and b 0x0f == 1 then some completed else some in_progress

-- Get and Set SEL Time (0x48 and 0x49); an error is the length of the answer.
unfoldable pub parse_time : List ℕ → Result ℕ ℕ
parse_time bytes =
    if length bytes != 4
    then err (length bytes)
    else ok (of_le4 (get_or bytes 0 0) (get_or bytes 1 0) (get_or bytes 2 0) (get_or bytes 3 0))

unfoldable pub set_time_request : ℕ → List ℕ
set_time_request seconds = u32_le seconds

unfoldable pub parse_time_set : List ℕ → Result ℕ (Unit {0})
parse_time_set [] = ok tt
parse_time_set (b ∷ bs) = err (length (b ∷ bs))
