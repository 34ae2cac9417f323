-- ===== src/Fru/Transfer.antt =====
-- Bounded FRU transfers: ipmi-rs/src/fru.rs. The connection is a parameter: each command is a function
-- of the state of the world, which holds the device.
pub mod Loop
pub mod Content
pub mod Outcome
use ipmi_rs.Base.{
  ℕ, zero, suc, ◌+◌, ◌-◌, ◌*◌, ◌/◌, ◌%◌, Bool, true, false, ◌&&◌, ◌||◌, not, List, [], ◌∷◌, ◌++◌,
  Option, none, some, min, max, Result, ok, err, map_err, ltb, ◌!=◌, if◌then◌else◌, length, take,
  drop,
}
use ipmi_rs.Connection.Channel.{Channel, LogicalUnit, lun_zero}
use ipmi_rs.Connection.CompletionCode.{
  CompletionErrorCode, request_data_len_invalid, request_data_length_limit_exceeded,
  cannot_return_num_of_requested_bytes,
}
use ipmi_rs.Fru.Commands.{
  FruInfo, FruAccess, FruCommandError, ReadFruData, ReadFruDataResponse, WriteFruData, read_new,
  read_verify, write_new, write_verify, unaligned, default_chunk_bytes, byte, word, unit,
}
use ipmi_rs.Fru.Inventory.{FruParseError}
use ipmi_rs.Fru.Inventory.Image.{FruInventory, parse}

pub record FruDevice : Type 0 where
  pub id : ℕ
  pub target : Option (ℕ × Channel)
  pub lun : LogicalUnit

abbrev pub builtin : FruDevice
builtin = record { id = 0; target = none; lun = lun_zero }

-- `IpmiError`: a completion code of the controller, an answer that the command refuses, with its
-- completion code if it has one, or any other failure of the exchange.
pub data IpmiError : Type 0 where
  failed : CompletionErrorCode → IpmiError
  command : FruCommandError → Option CompletionErrorCode → IpmiError
  no_answer : IpmiError

pub data FruReadError : Type 0 where
  command_failed : IpmiError → FruReadError
  transfer : FruCommandError → FruReadError
  inventory : FruParseError → FruReadError

pub data FruWriteError : Type 0 where
  invalid_image : FruParseError → FruWriteError
  size_mismatch : FruWriteError
  invalid_transfer : FruCommandError → FruWriteError
  outcome_unknown : (offset bytes_confirmed : ℕ) → IpmiError → FruWriteError
  outcome_unconfirmed : (offset bytes_confirmed : ℕ) → FruCommandError → FruWriteError

-- The three codes that say that a chunk is too long.
pub is_size_code : CompletionErrorCode → Bool
is_size_code request_data_len_invalid = true
is_size_code request_data_length_limit_exceeded = true
is_size_code cannot_return_num_of_requested_bytes = true
is_size_code _ = false

pub shrinkable : IpmiError → Bool
unfolding is_size_code
shrinkable (failed code) = is_size_code code
shrinkable (command e (some code)) = is_size_code code
shrinkable (command e none) = false
shrinkable no_answer = false

pub record Connection (W : Type 0) : Type 0 where
  pub get_info : FruDevice → W → W × Result IpmiError FruInfo
  pub read_data : ReadFruData → W → W × Result IpmiError ReadFruDataResponse
  pub write_data : WriteFruData → W → W × Result IpmiError ℕ

-- `info.access == FruAccess::Word && !n.is_multiple_of(2)`.
abbrev pub is_odd : FruAccess → ℕ → Bool
is_odd byte n = false
is_odd word n = n % 2 != 0

-- How the `match` on the answer to a read goes on.
pub data Turn : Type 0 where
  extend : List ℕ → Turn
  shrink : ℕ → Turn
  give_up : FruReadError → Turn

pub on_verified : Result FruCommandError (List ℕ) → Turn
on_verified (ok bytes) = extend bytes
on_verified (err e) = give_up (transfer e)

pub on_answer : FruInfo → ℕ → ReadFruData → Result IpmiError ReadFruDataResponse → Turn
unfolding on_verified
on_answer info chunk_size c (ok response) = on_verified (read_verify c response)
on_answer info chunk_size c (err e) =
    if shrinkable e && ltb (unit info.access) chunk_size
    then shrink (max (chunk_size / 2) (unit info.access))
    else give_up (command_failed e)

-- `offset as u16` and `count as u8` cut the two numbers.
abbrev pub read_command : FruDevice → FruInfo → ℕ → ℕ → Result FruCommandError ReadFruData
read_command device info chunk_size offset =
    read_new device.id device.target device.lun info (offset % 65536)
      (min chunk_size (info.size - offset) % 256)

-- What one turn of the loop makes of the chunk size and the bytes, if it goes on.
pub resume :
    {W : Type 0}
    → (ℕ → List ℕ → W → Option (W × Result FruReadError (List ℕ)))
    → ℕ
    → List ℕ
    → W × Turn
    → Option (W × Result FruReadError (List ℕ))
resume again chunk_size bytes (w, extend more) = again chunk_size (bytes ++ more) w
resume again chunk_size bytes (w, shrink size) = again size bytes w
resume again chunk_size bytes (w, give_up e) = some (w, err e)

module _ {W : Type 0} (c : Connection W) (device : FruDevice) (info : FruInfo) where
  pub send_read : ℕ → W → Result FruCommandError ReadFruData → W × Turn
  send_read chunk_size w (err e) = (w, give_up (transfer e))
  send_read chunk_size w (ok cmd) =
      ((c.read_data cmd w).0, on_answer info chunk_size cmd (c.read_data cmd w).1)

  -- The body of the loop at `offset`.
  pub read_turn : ℕ → ℕ → W → W × Turn
  unfolding send_read on_answer
  read_turn chunk_size offset w =
      send_read chunk_size w (read_command device info chunk_size offset)

  -- The loop on fuel; `none` means that it ran out.
  pub read_loop : ℕ → ℕ → List ℕ → W → Option (W × Result FruReadError (List ℕ))
  unfolding resume
  read_loop zero chunk_size bytes w = none
  read_loop (suc fuel) chunk_size bytes w =
      if ltb (length bytes) info.size
      then resume (read_loop fuel) chunk_size bytes (read_turn chunk_size (length bytes) w)
      else some (w, ok bytes)

-- `read_fru_image` after the answer to the info request.
pub read_sized :
    {W : Type 0}
    → Connection W
    → ℕ
    → FruDevice
    → W
    → Result IpmiError FruInfo
    → Option (W × Result FruReadError (List ℕ))
read_sized c fuel device w (err e) = some (w, err (command_failed e))
read_sized c fuel device w (ok info) =
    if is_odd info.access info.size
    then some (w, err (transfer unaligned))
    else read_loop c device info fuel default_chunk_bytes [] w

unfoldable pub read_fru_image :
    {W : Type 0} → Connection W → ℕ → FruDevice → W → Option (W × Result FruReadError (List ℕ))
unfolding read_sized
read_fru_image c fuel device w =
    read_sized c fuel device (c.get_info device w).0 (c.get_info device w).1

abbrev parsed : Result FruReadError (List ℕ) → Result FruReadError FruInventory
parsed (ok bytes) = map_err inventory (parse bytes)
parsed (err e) = err e

-- `read_fru_inventory`.
unfoldable pub read_fru_inventory :
    {W : Type 0} → Connection W → ℕ → FruDevice → W → Option (W × Result FruReadError FruInventory)
read_fru_inventory c fuel device w = elim (read_fru_image c fuel device w) [
  | none ↦ none
  | some (w', r) ↦ some (w', parsed r)
]

-- `image.chunks(DEFAULT_CHUNK_BYTES)`; `left` is at least the number of bytes.
pub chunks : ℕ → List ℕ → List (List ℕ)
chunks zero image = []
chunks (suc left) [] = []
chunks (suc left) (b ∷ bs) =
    take default_chunk_bytes (b ∷ bs) ∷ chunks left (drop default_chunk_bytes (b ∷ bs))

-- The answer to the write of one chunk at `offset`.
pub on_written : ℕ → WriteFruData → Result IpmiError ℕ → Result FruWriteError (Unit {0})
on_written offset cmd (ok count) =
    map_err (outcome_unconfirmed offset offset) (write_verify cmd count)
on_written offset cmd (err source) = err (outcome_unknown offset offset source)

module _ {W : Type 0} (c : Connection W) (device : FruDevice) (info : FruInfo) where
  pub send_write : ℕ → W → Result FruCommandError WriteFruData → W × Result FruWriteError (Unit {0})
  send_write offset w (err e) = (w, err (invalid_transfer e))
  send_write offset w (ok cmd) =
      ((c.write_data cmd w).0, on_written offset cmd (c.write_data cmd w).1)

  -- The body of the loop.
  pub write_turn : ℕ → List ℕ → W → W × Result FruWriteError (Unit {0})
  unfolding send_write on_written
  write_turn offset part w =
      send_write offset w (write_new device.id device.target device.lun info (offset % 65536) part)

  abbrev pub write_rest :
      (W → W × Result FruWriteError (Unit {0}))
      → W × Result FruWriteError (Unit {0})
      → W × Result FruWriteError (Unit {0})
  write_rest again (w, ok u) = again w
  write_rest again (w, err e) = (w, err e)

  pub write_loop : ℕ → List (List ℕ) → W → W × Result FruWriteError (Unit {0})
  write_loop index [] w = (w, ok tt)
  write_loop index (part ∷ parts) w =
      write_rest (write_loop (suc index) parts) (write_turn (index * default_chunk_bytes) part w)

-- `write_fru_image`.
unfoldable pub write_fru_image :
    {W : Type 0}
    → Connection W
    → FruDevice
    → FruInfo
    → List ℕ
    → W
    → W × Result FruWriteError (Unit {0})
write_fru_image c device info image w =
    if length image != info.size then (w, err size_mismatch) else elim (parse image) [
      | err e ↦ (w, err (invalid_image e))
      | ok fru ↦
          if is_odd info.access (length image)
          then (w, err (invalid_transfer unaligned))
          else write_loop c device info 0 (chunks (length image) image) w
    ]
