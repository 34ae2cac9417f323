-- ===== src/Fru/Inventory.antt =====
-- ipmi-rs-core/src/storage/fru/inventory.rs: checked decoding of a complete FRU inventory image.
pub mod Image
pub mod Records
pub mod Fields
pub mod Layout
use ipmi_rs.Base.{
  ℕ, zero, suc, ◌+◌, ◌-◌, ◌*◌, ◌/◌, ◌%◌, ◌^◌, Bool, true, false, ◌&&◌, ◌||◌, not, List, [], ◌∷◌,
  ◌++◌, Option, none, some, min, Result, ok, err, ◌>>=◌, ◌>>◌, reject_if, ok_or, ◌==◌, ◌!=◌, ltb,
  leb, if◌then◌else◌, bit_and, length, get_or, take, drop, of_le2,
}

pub data FruParseError : Type 0 where
  truncated version checksum layout field : FruParseError

-- `fold(first, wrapping_add)`.
pub byte_sum : ℕ → List ℕ → ℕ
byte_sum first [] = first
byte_sum first (b ∷ bs) = byte_sum ((first + b) % 256) bs

unfoldable pub check_sum : List ℕ → Result FruParseError (Unit {0})
unfolding byte_sum
check_sum bytes = if byte_sum 0 bytes == 0 then ok tt else err checksum

-- `bytes.get(start..start + count)`.
abbrev pub get_range : List ℕ → ℕ → ℕ → Result FruParseError (List ℕ)
get_range bytes start count =
    if ltb (length bytes) (start + count) then err truncated else ok (take count (drop start bytes))

pub record FruHeader : Type 0 where
  pub internal_use : Option ℕ
  pub chassis : Option ℕ
  pub board : Option ℕ
  pub product : Option ℕ
  pub multirecord : Option ℕ

abbrev is_some_of : ℕ → Option ℕ → Bool
is_some_of n none = false
is_some_of n (some m) = n == m

-- `offsets.contains(&Some(offset))`.
pub has_offset : List (Option ℕ) → ℕ → Bool
has_offset [] offset = false
has_offset (o ∷ os) offset = is_some_of offset o || has_offset os offset

-- One turn of the loop over the five offsets; `earlier` are those of the turns before.
unfoldable pub parse_offset : ℕ → List (Option ℕ) → ℕ → Result FruParseError (Option ℕ)
unfolding has_offset
parse_offset size earlier raw =
    if raw == 0
    then ok none
    else if leb size (raw * 8) || has_offset earlier (raw * 8)
    then err layout
    else ok (some (raw * 8))

unfoldable pub parse_header : List ℕ → Result FruParseError FruHeader
unfolding parse_offset check_sum
parse_header image = do
  reject_if (ltb (length image) 8) truncated
  reject_if ((get_or image 0 0 != 1) || (get_or image 6 0 != 0)) version
  check_sum (take 8 image)
  a ← parse_offset (length image) [] (get_or image 1 0)
  b ← parse_offset (length image) (a ∷ []) (get_or image 2 0)
  c ← parse_offset (length image) (a ∷ b ∷ []) (get_or image 3 0)
  d ← parse_offset (length image) (a ∷ b ∷ c ∷ []) (get_or image 4 0)
  e ← parse_offset (length image) (a ∷ b ∷ c ∷ d ∷ []) (get_or image 5 0)
  ok (record { internal_use = a; chassis = b; board = c; product = d; multirecord = e })

abbrev pub offsets : FruHeader → List (Option ℕ)
offsets h = h.internal_use ∷ h.chassis ∷ h.board ∷ h.product ∷ h.multirecord ∷ []

pub data FieldEncoding : Type 0 where
  binary bcd_plus six_bit_ascii eight_bit_ascii : FieldEncoding

-- `text` holds the code points.
pub record FruField : Type 0 where
  pub encoding : FieldEncoding
  pub raw : List ℕ
  pub text : Option (List ℕ)

-- `b"0123456789 -.:,_"`.
bcd_chars : List ℕ
bcd_chars =
    0x30 ∷ 0x31 ∷ 0x32 ∷ 0x33 ∷ 0x34 ∷ 0x35 ∷ 0x36 ∷ 0x37 ∷ 0x38 ∷ 0x39 ∷ 0x20 ∷ 0x2d ∷ 0x2e ∷ 0x3a
    ∷ 0x2c ∷ 0x5f ∷ []

pub bcd_text : List ℕ → List ℕ
unfolding bcd_chars
bcd_text [] = []
bcd_text (b ∷ bs) = get_or bcd_chars (b / 16) 0 ∷ get_or bcd_chars (bit_and b 0x0f) 0 ∷ bcd_text bs

-- `0x20 + ((bits >> (index * 6)) & 0x3f)`.
abbrev six_bits : ℕ → ℕ → ℕ
six_bits bits index = 0x20 + bit_and (bits / 2 ^ (index * 6)) 0x3f

-- By groups of three bytes; the last group may be shorter.
pub six_bit_text : List ℕ → List ℕ
six_bit_text [] = []
six_bit_text (a ∷ []) = six_bits a 0 ∷ []
six_bit_text (a ∷ b ∷ []) = let bits = a + 2 ^ 8 * b in six_bits bits 0 ∷ six_bits bits 1 ∷ []
six_bit_text (a ∷ b ∷ c ∷ rest) =
    let bits = a + 2 ^ 8 * b + 2 ^ 16 * c in
    six_bits bits 0 ∷ six_bits bits 1 ∷ six_bits bits 2 ∷ six_bits bits 3 ∷ six_bit_text rest

pub is_latin1_text : List ℕ → Bool
is_latin1_text [] = true
is_latin1_text (b ∷ bs) = leb 0x20 b && not (leb 0x7f b && leb b 0x9f) && is_latin1_text bs

abbrev is_english : Option ℕ → Bool
is_english none = false
is_english (some l) = l == 0 || l == 25

-- The `match descriptor >> 6`.
unfoldable pub decode_field : ℕ → List ℕ → Option ℕ → Result FruParseError FruField
unfolding bcd_text six_bit_text is_latin1_text
decode_field ty raw language =
    if ty == 0
    then ok (record { encoding = binary; raw = raw; text = none })
    else if ty == 1
    then ok (record { encoding = bcd_plus; raw = raw; text = some (bcd_text raw) })
    else if ty == 2
    then ok (record { encoding = six_bit_ascii; raw = raw; text = some (six_bit_text raw) })
    else if not (is_english language)
    then ok (record { encoding = eight_bit_ascii; raw = raw; text = none })
    else if is_latin1_text raw
    then ok (record { encoding = eight_bit_ascii; raw = raw; text = some raw })
    else err field

-- `area[pos..end].iter().any(|b| *b != 0)`.
unfoldable pub any_nonzero : List ℕ → Bool
any_nonzero [] = false
any_nonzero (b ∷ bs) = (b != 0) || any_nonzero bs

-- What is left after a field, its outcome put in front of theirs.
abbrev pub cons_field :
    Result FruParseError FruField
    → Result FruParseError (List FruField × List ℕ)
    → Result FruParseError (List FruField × List ℕ)
cons_field (err e) rest = err e
cons_field (ok f) (err e) = err e
cons_field (ok f) (ok (fs, tail)) = ok (f ∷ fs, tail)

-- The loop, over `area[pos..end]`, with the bytes after the end marker. Every turn takes a byte, and
-- `left` is at least the number of bytes.
unfoldable pub read_fields : ℕ → List ℕ → Option ℕ → Result FruParseError (List FruField × List ℕ)
read_fields zero bytes language = err field
read_fields (suc left) [] language = err field
read_fields (suc left) (descriptor ∷ bytes) language =
    let len = bit_and descriptor 0x3f in
    let rest = read_fields left (drop len bytes) language in
    if descriptor == 0xc1
    then ok ([], bytes)
    else if ltb (length bytes) len
    then err truncated
    else cons_field (decode_field (descriptor / 64) (take len bytes) language) rest

-- `area` without its last byte, the checksum, from `start` on.
unfoldable pub parse_fields : List ℕ → ℕ → ℕ → Option ℕ → Result FruParseError (List FruField)
parse_fields area start min_fields language = do
  let body = drop start (take (length area - 1) area)
  (fields, tail) ← read_fields (suc (length body)) body language
  reject_if (ltb (length fields) min_fields || any_nonzero tail) field
  ok fields

unfoldable pub area : List ℕ → ℕ → ℕ → ℕ → Result FruParseError (List ℕ × ℕ)
unfolding check_sum
area image start limit min_len = do
  head ← get_range image start 2
  reject_if (get_or head 0 0 != 1) version
  let size = get_or head 1 0 * 8
  reject_if (ltb size min_len) layout
  reject_if (ltb limit (start + size)) layout
  bytes ← get_range image start size
  check_sum bytes
  ok (bytes, start + size)
