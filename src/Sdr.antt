-- ===== src/Sdr.antt =====
-- ipmi-rs-core/src/storage/sdr/get_info.rs: what the repository of sensor data records tells of itself.
use ipmi_rs.Base.{
  ℕ, ◌/◌, Bool, true, false, List, [], ◌∷◌, Option, none, some, ◌==◌, ltb, if◌then◌else◌, bit_and,
  length, get_or, of_le2, of_le4,
}

pub data FreeSpace : Type 0 where
  full unspecified : FreeSpace
  at_least : (bytes : ℕ) → FreeSpace

unfoldable pub free_space_of_u16 : ℕ → FreeSpace
free_space_of_u16 v = if v == 0 then full else if v == 0xffff then unspecified else at_least v

pub data Operation : Type 0 where
  modality_unspecified non_modal_update modal_update non_modal_and_modal_update : Operation
  delete partial_add reserve get_alloc_info : Operation

-- The mask leaves two bits, so the last arm is the value 3.
unfoldable pub modality_of : ℕ → Operation
modality_of v =
    let modality = bit_and v 0x60 / 32 in
    if modality == 0
    then modality_unspecified
    else if modality == 1
    then non_modal_update
    else if modality == 2
    then modal_update
    else non_modal_and_modal_update

pub record RepositoryInfo : Type 0 where
  pub version_major : ℕ
  pub version_minor : ℕ
  pub record_count : ℕ
  pub free_space : FreeSpace
  pub most_recent_addition : ℕ
  pub most_recent_erase : ℕ
  pub overflow : Bool
  pub supported_ops : List Operation

abbrev pub with_operation : Bool → Operation → List Operation → List Operation
with_operation true op ops = op ∷ ops
with_operation false op ops = ops

unfoldable pub parse_repository_info : List ℕ → Option RepositoryInfo
unfolding free_space_of_u16 modality_of
parse_repository_info bytes =
    let support = get_or bytes 13 0 in
    if ltb (length bytes) 14
    then none
    else some (record {
      version_major = bit_and (get_or bytes 0 0) 0x0f;
      version_minor = bit_and (get_or bytes 0 0) 0xf0 / 16;
      record_count = of_le2 (get_or bytes 1 0) (get_or bytes 2 0);
      free_space = free_space_of_u16 (of_le2 (get_or bytes 3 0) (get_or bytes 4 0));
      most_recent_addition =
          of_le4 (get_or bytes 5 0) (get_or bytes 6 0) (get_or bytes 7 0) (get_or bytes 8 0);
      most_recent_erase =
          of_le4 (get_or bytes 9 0) (get_or bytes 10 0) (get_or bytes 11 0) (get_or bytes 12 0);
      overflow = bit_and support 0x80 == 0x80;
      supported_ops =
          modality_of support
          ∷ with_operation (bit_and support 1 == 1) get_alloc_info (
              with_operation (bit_and support 2 == 2) reserve (
                with_operation (bit_and support 4 == 4) partial_add
                  (with_operation (bit_and support 8 == 8) delete [])));
    })
