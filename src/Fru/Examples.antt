-- ===== src/Fru/Examples.antt =====
-- A small image, and devices that hold it, for the theorems on FRU inventories.
use mathlib.Core.Path.{subst}
use ipmi_rs.Base.{
  zero, suc, ap, ok_cancel, ◌*◌, ℕ, ◌+◌, ◌-◌, ◌≤◌, ◌<◌, ◌≡◌, refl, true, false, List, [], ◌∷◌, ◌++◌,
  none, some, ok, err, if◌then◌else◌, length, take, drop, arith, bytes_eq, bytes_eq→eq,
}
use ipmi_rs.Fru.Commands.{unit, FruInfo, byte}
use ipmi_rs.Fru.Inventory.{
  FruHeader, FruField, binary, offsets, area, check_sum, parse_fields, any_nonzero, read_fields,
  decode_field,
}
use ipmi_rs.Fru.Inventory.Image.{limit_of}
use ipmi_rs.Fru.Inventory.Records.{MultiRecord, oem, parse_multirecords, read_records}
use ipmi_rs.Fru.Inventory.Records.Lossless.{encode_records, ends_once, parse_multirecords-encode}
use ipmi_rs.Fru.Inventory.Fields.{encode_fields, parse_fields-encode}
use ipmi_rs.Fru.Transfer.{Connection, no_answer, builtin, read_fru_image, write_fru_image}
use ipmi_rs.Fru.Transfer.Content.{Holds, IsU16Sized, ReadsContent, read_fru_image_content}
use ipmi_rs.Fru.Transfer.Outcome.{Stores, Outcome, write_fru_image-Outcome}

-- An image that is a header only.
abbrev image : List ℕ
image = 1 ∷ 0 ∷ 0 ∷ 0 ∷ 0 ∷ 0 ∷ 0 ∷ 0xff ∷ []

abbrev size_8 : FruInfo
size_8 = record { size = 8; access = byte }

-- A device that holds the image, and takes a write only of what it holds.
abbrev device : Connection (Unit {0})
device = record {
  get_info = λ d w. (w, ok size_8);
  read_data = λ cmd w. (
    w,
    ok (record {
      count = cmd.count;
      payload = take (cmd.count * unit cmd.access) (drop cmd.offset image);
    }),
  );
  write_data = λ cmd w. (
    w,
    if bytes_eq (take (cmd.offset + length cmd.payload * unit cmd.access) image)
          (take cmd.offset image ++ take (length cmd.payload * unit cmd.access) cmd.payload)
        then ok (length cmd.payload)
        else err no_answer,
  );
}

device-IsU16Sized : IsU16Sized device
device-IsU16Sized d w info e = ground arith

take_twice : (n : ℕ) (xs : List ℕ) → take n (take n xs) ≡ take n xs
take_twice zero xs = refl
take_twice (suc n) [] = refl
take_twice (suc n) (x ∷ xs) = ap (λ t. x ∷ t) (take_twice n xs)

device-Holds : Holds device builtin image
device-Holds cmd w r of e =
    let made : record {
      count = cmd.count;
      payload = take (cmd.count * unit cmd.access) (drop cmd.offset image);
    }
        ≡ r =
      ok_cancel refl e in
    subst
      (λ x.
        take (x.count * unit cmd.access) x.payload
        ≡ take (x.count * unit cmd.access) (drop cmd.offset image))
      made (take_twice (cmd.count * unit cmd.access) (drop cmd.offset image))

read_fru_image_content_example :
    ReadsContent (device.get_info builtin tt).1 image (read_fru_image device 65553 builtin tt)
read_fru_image_content_example =
    read_fru_image_content device 65553 builtin tt image device-IsU16Sized device-Holds
      (omega arith)

device-Stores : Stores device builtin (λ w. image)
device-Stores = record {
  confirmed = λ cmd w count to e h. ground (
    arith,
    bytes_eq→eq (take (cmd.offset + length cmd.payload * unit cmd.access) image)
        (take cmd.offset image ++ take (length cmd.payload * unit cmd.access) cmd.payload),
  );
  below = λ cmd w to. refl;
}

write_fru_image-Outcome_example :
    Outcome
      (λ w. image)
      image
      tt
      (write_fru_image device builtin size_8 image tt).0
      (write_fru_image device builtin size_8 image tt).1
write_fru_image-Outcome_example =
    write_fru_image-Outcome device builtin size_8 image (λ w. image) tt device-Stores (omega arith)

abbrev chain : List ℕ
chain = 0xc0 ∷ 0x82 ∷ 0x01 ∷ 0xfb ∷ 0xc2 ∷ 0x05 ∷ 0x09 ∷ []

abbrev oem_record : MultiRecord
oem_record = record {
  record_type = 0xc0;
  format_version = 2;
  end_of_list = true;
  raw = 5 ∷ [];
  payload = oem (5 ∷ []);
}

chain_read : parse_multirecords chain ≡ ok (oem_record ∷ [], 9 ∷ [])
unfolding parse_multirecords check_sum
chain_read = refl

parse_multirecords-encode_example :
    (encode_records (oem_record ∷ []) ++ (9 ∷ []) ≡ chain)
    × (ends_once (oem_record ∷ []) ≡ true)
    × ((more : ℕ) → length chain < more → read_records more chain ≡ ok (oem_record ∷ [], 9 ∷ []))
parse_multirecords-encode_example =
    parse_multirecords-encode chain (oem_record ∷ []) (9 ∷ []) (omega arith) chain_read

abbrev field_area : List ℕ
field_area = 1 ∷ 1 ∷ 0 ∷ 0x01 ∷ 0x55 ∷ 0xc1 ∷ 0 ∷ 0xe7 ∷ []

abbrev one_field : FruField
one_field = record { encoding = binary; raw = 0x55 ∷ []; text = none }

fields_read : parse_fields field_area 3 1 none ≡ ok (one_field ∷ [])
unfolding parse_fields read_fields decode_field any_nonzero
fields_read = refl

parse_fields-encode_example :
    (tail : List ℕ) × (encode_fields (one_field ∷ []) ++ tail
      ≡ drop 3 (take (length field_area - 1) field_area))
    × (any_nonzero tail ≡ false)
    × (1 ≤ length (one_field ∷ []))
parse_fields-encode_example =
    parse_fields-encode field_area 3 1 none (one_field ∷ []) (omega arith) fields_read

abbrev chassis_area : List ℕ
chassis_area = 1 ∷ 1 ∷ 0 ∷ 0xc1 ∷ 0 ∷ 0 ∷ 0 ∷ 0x3d ∷ []

abbrev chassis_image : List ℕ
chassis_image = 1 ∷ 0 ∷ 1 ∷ 0 ∷ 0 ∷ 0 ∷ 0 ∷ 0xfe ∷ chassis_area

abbrev chassis_header : FruHeader
chassis_header = record {
  internal_use = none;
  chassis = some 8;
  board = none;
  product = none;
  multirecord = none;
}

chassis_read :
    area chassis_image 8 (limit_of (offsets chassis_header) (length chassis_image) 8) 8
    ≡ ok (chassis_area, 16)
unfolding area limit_of
chassis_read = refl
