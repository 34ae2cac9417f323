-- ===== src/Fru/Inventory/Image.antt =====
-- The whole image: `FruInventory::parse` of inventory.rs.
use ipmi_rs.Base.{
  ℕ, ◌+◌, ◌-◌, ◌*◌, ◌^◌, List, [], ◌∷◌, Option, none, some, Result, ok, err, ◌>>=◌, ltb,
  if◌then◌else◌, min, length, get_or, take, drop,
}
use ipmi_rs.Fru.Inventory.{
  FruParseError, FruHeader, FruField, field, parse_header, offsets, parse_fields, area,
}
use ipmi_rs.Fru.Inventory.Records.{MultiRecord, parse_multirecords}

pub record ChassisInfo : Type 0 where
  pub chassis_type : ℕ
  pub part_number : FruField
  pub serial_number : FruField
  pub extra : List FruField

pub record BoardInfo : Type 0 where
  pub language : ℕ
  pub manufacturing_minutes : ℕ
  pub manufacturer : FruField
  pub product_name : FruField
  pub serial_number : FruField
  pub part_number : FruField
  pub file_id : FruField
  pub extra : List FruField

pub record ProductInfo : Type 0 where
  pub language : ℕ
  pub manufacturer : FruField
  pub product_name : FruField
  pub part_number : FruField
  pub product_version : FruField
  pub serial_number : FruField
  pub asset_tag : FruField
  pub file_id : FruField
  pub extra : List FruField

pub record FruInventory : Type 0 where
  pub header : FruHeader
  pub internal_use : Option (List ℕ)
  pub chassis : Option ChassisInfo
  pub board : Option BoardInfo
  pub product : Option ProductInfo
  pub multirecords : List MultiRecord
  pub multirecord_tail : List ℕ

-- The least offset above `start`, or `size` if there is none.
abbrev pub nearer : ℕ → Option ℕ → ℕ → ℕ
nearer start none best = best
nearer start (some o) best = if ltb start o then min o best else best

unfoldable pub limit_of : List (Option ℕ) → ℕ → ℕ → ℕ
limit_of [] size start = size
limit_of (o ∷ os) size start = nearer start o (limit_of os size start)

-- `header.x.map(..)?` and the like.
abbrev pub if_present :
    {A : Type 0} → Option ℕ → (ℕ → Result FruParseError A) → Result FruParseError (Option A)
if_present none f = ok none
if_present (some start) f = do a ← f start; ok (some a)

-- `fields.next().unwrap()`, with the fewest fields that `parse_fields` lets through; the last
-- clause of each is for fewer, where the source would panic.
chassis_of : List ℕ → List FruField → Result FruParseError ChassisInfo
chassis_of bytes (a ∷ b ∷ extra) =
    ok (record {
      chassis_type = get_or bytes 2 0;
      part_number = a;
      serial_number = b;
      extra = extra;
    })
chassis_of bytes _ = err field

board_of : List ℕ → List FruField → Result FruParseError BoardInfo
board_of bytes (a ∷ b ∷ c ∷ d ∷ e ∷ extra) = ok (record {
  language = get_or bytes 2 0;
  manufacturing_minutes = get_or bytes 3 0 + 2 ^ 8 * get_or bytes 4 0 + 2 ^ 16 * get_or bytes 5 0;
  manufacturer = a;
  product_name = b;
  serial_number = c;
  part_number = d;
  file_id = e;
  extra = extra;
})
board_of bytes _ = err field

product_of : List ℕ → List FruField → Result FruParseError ProductInfo
product_of bytes (a ∷ b ∷ c ∷ d ∷ e ∷ f ∷ g ∷ extra) = ok (record {
  language = get_or bytes 2 0;
  manufacturer = a;
  product_name = b;
  part_number = c;
  product_version = d;
  serial_number = e;
  asset_tag = f;
  file_id = g;
  extra = extra;
})
product_of bytes _ = err field

module _ (image : List ℕ) (header : FruHeader) where
  abbrev limit : ℕ → ℕ
  limit = limit_of (offsets header) (length image)

  pub parse_chassis : ℕ → Result FruParseError ChassisInfo
  unfolding chassis_of
  parse_chassis start = do
    (bytes, next) ← area image start (limit start) 8
    fields ← parse_fields bytes 3 2 (some 0)
    chassis_of bytes fields

  pub parse_board : ℕ → Result FruParseError BoardInfo
  unfolding board_of
  parse_board start = do
    (bytes, next) ← area image start (limit start) 8
    fields ← parse_fields bytes 6 5 (some (get_or bytes 2 0))
    board_of bytes fields

  pub parse_product : ℕ → Result FruParseError ProductInfo
  unfolding product_of
  parse_product start = do
    (bytes, next) ← area image start (limit start) 8
    fields ← parse_fields bytes 3 7 (some (get_or bytes 2 0))
    product_of bytes fields

  abbrev span : ℕ → List ℕ
  span start = take (limit start - start) (drop start image)

  pub parse_records : Option ℕ → Result FruParseError (List MultiRecord × List ℕ)
  parse_records none = ok ([], [])
  parse_records (some start) = parse_multirecords (span start)

  pub parse_areas : Result FruParseError FruInventory
  parse_areas = do
    chassis ← if_present header.chassis parse_chassis
    board ← if_present header.board parse_board
    product ← if_present header.product parse_product
    (records, tail) ← parse_records header.multirecord
    ok (record {
      header = header;
      internal_use = elim header.internal_use [ none ↦ none | some start ↦ some (span start) ];
      chassis = chassis;
      board = board;
      product = product;
      multirecords = records;
      multirecord_tail = tail;
    })

unfoldable pub parse : List ℕ → Result FruParseError FruInventory
unfolding parse_areas
parse image = do header ← parse_header image; parse_areas image header
