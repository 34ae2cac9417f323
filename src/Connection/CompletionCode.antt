-- ===== src/Connection/CompletionCode.antt =====
-- ipmi-rs-core/src/connection/completion_code.rs.
use ipmi_rs.Base.{
  sym, ap, ◌∙◌, ◌||◌, ℕ, ◌<◌, ◌≡◌, refl, ◌↔◌, Bool, true, ◌&&◌, Option, none, some, arith, ◌==◌,
  leb, if◌then◌else◌, all_below, all_below_sound,
}

pub data ResponseUnavailableReason : Type 0 where
  unknown sdr_in_update device_in_fw_update bmc_initializing : ResponseUnavailableReason

pub data CompletionErrorCode : Type 0 where
  node_busy invalid_command invalid_command_for_lun processing_timeout : CompletionErrorCode
  out_of_space reservation_cancelled_or_invalid_id request_data_truncated : CompletionErrorCode
  request_data_len_invalid request_data_length_limit_exceeded : CompletionErrorCode
  parameter_out_of_range cannot_return_num_of_requested_bytes : CompletionErrorCode
  requested_datapoint_not_present invalid_data_field_in_request : CompletionErrorCode
  command_illegal_for_sensor_or_record : CompletionErrorCode
  response_unavailable : ResponseUnavailableReason → CompletionErrorCode
  cannot_execute_duplicate_request destination_unavailable : CompletionErrorCode
  insufficient_privilege cannot_execute_command_in_current_state : CompletionErrorCode
  sub_function_disabled unspecified : CompletionErrorCode
  oem command_specific reserved : ℕ → CompletionErrorCode

-- `TryFrom<u8>`; `none` is the error, the code of a success.
unfoldable pub completion_error : ℕ → Option CompletionErrorCode
completion_error v =
    if v == 0
    then none
    else if v == 0xc0
    then some node_busy
    else if v == 0xc1
    then some invalid_command
    else if v == 0xc2
    then some invalid_command_for_lun
    else if v == 0xc3
    then some processing_timeout
    else if v == 0xc4
    then some out_of_space
    else if v == 0xc5
    then some reservation_cancelled_or_invalid_id
    else if v == 0xc6
    then some request_data_truncated
    else if v == 0xc7
    then some request_data_len_invalid
    else if v == 0xc8
    then some request_data_length_limit_exceeded
    else if v == 0xc9
    then some parameter_out_of_range
    else if v == 0xca
    then some cannot_return_num_of_requested_bytes
    else if v == 0xcb
    then some requested_datapoint_not_present
    else if v == 0xcc
    then some invalid_data_field_in_request
    else if v == 0xcd
    then some command_illegal_for_sensor_or_record
    else if v == 0xce
    then some (response_unavailable unknown)
    else if v == 0xcf
    then some cannot_execute_duplicate_request
    else if v == 0xd0
    then some (response_unavailable sdr_in_update)
    else if v == 0xd1
    then some (response_unavailable device_in_fw_update)
    else if v == 0xd2
    then some (response_unavailable bmc_initializing)
    else if v == 0xd3
    then some destination_unavailable
    else if v == 0xd4
    then some insufficient_privilege
    else if v == 0xd5
    then some cannot_execute_command_in_current_state
    else if v == 0xd6
    then some sub_function_disabled
    else if v == 0xff
    then some unspecified
    else if leb 0x01 v && leb v 0x7e
    then some (oem v)
    else if leb 0x80 v && leb v 0xbe
    then some (command_specific v)
    else some (reserved v)

-- The byte that the IPMI specification gives each code, to state that decoding is faithful.
pub code_byte : CompletionErrorCode → ℕ
code_byte node_busy = 0xc0
code_byte invalid_command = 0xc1
code_byte invalid_command_for_lun = 0xc2
code_byte processing_timeout = 0xc3
code_byte out_of_space = 0xc4
code_byte reservation_cancelled_or_invalid_id = 0xc5
code_byte request_data_truncated = 0xc6
code_byte request_data_len_invalid = 0xc7
code_byte request_data_length_limit_exceeded = 0xc8
code_byte parameter_out_of_range = 0xc9
code_byte cannot_return_num_of_requested_bytes = 0xca
code_byte requested_datapoint_not_present = 0xcb
code_byte invalid_data_field_in_request = 0xcc
code_byte command_illegal_for_sensor_or_record = 0xcd
code_byte (response_unavailable unknown) = 0xce
code_byte (response_unavailable sdr_in_update) = 0xd0
code_byte (response_unavailable device_in_fw_update) = 0xd1
code_byte (response_unavailable bmc_initializing) = 0xd2
code_byte cannot_execute_duplicate_request = 0xcf
code_byte destination_unavailable = 0xd3
code_byte insufficient_privilege = 0xd4
code_byte cannot_execute_command_in_current_state = 0xd5
code_byte sub_function_disabled = 0xd6
code_byte unspecified = 0xff
code_byte (oem v) = v
code_byte (command_specific v) = v
code_byte (reserved v) = v

-- The codes that a byte can stand for: those of an original equipment manufacturer are 0x01 to 0x7e,
-- those of a command 0x80 to 0xbe, and the reserved ones are the bytes with no other meaning.
abbrev pub is_code : CompletionErrorCode → Bool
is_code (oem v) = leb 0x01 v && leb v 0x7e
is_code (command_specific v) = leb 0x80 v && leb v 0xbe
is_code (reserved v) = v == 0x7f || (v == 0xbf || leb 0xd7 v && leb v 0xfe)
is_code _ = true

abbrev faithful : ℕ → Bool
faithful v = elim (completion_error v) [
  | none ↦ v == 0
  | some c ↦ code_byte c == v && (leb 1 v && is_code c)
]

faithful_table : all_below 256 faithful ≡ true
unfolding all_below completion_error code_byte
faithful_table = refl

code_byte-completion_error :
    (c : CompletionErrorCode) → is_code c ≡ true → completion_error (code_byte c) ≡ some c
unfolding completion_error code_byte
code_byte-completion_error (response_unavailable unknown) h = refl
code_byte-completion_error (response_unavailable sdr_in_update) h = refl
code_byte-completion_error (response_unavailable device_in_fw_update) h = refl
code_byte-completion_error (response_unavailable bmc_initializing) h = refl
code_byte-completion_error (oem v) h = ground (arith, h)
code_byte-completion_error (command_specific v) h = ground (arith, h)
code_byte-completion_error (reserved v) h = ground (arith, h)
code_byte-completion_error c h = refl

-- The only byte that is no completion error is 0, and a byte decodes to an error exactly when the
-- specification gives that byte to that error, where the errors of manufacturers, of commands and the
-- reserved ones have their own ranges.
pub completion_error-code_byte :
    (v : ℕ)
    → v < 256
    → ((completion_error v ≡ none) ↔ (v ≡ 0))
      × ((c : CompletionErrorCode)
          → (completion_error v ≡ some c) ↔ ((code_byte c ≡ v) × (is_code c ≡ true)))
completion_error-code_byte v h =
    let t = all_below_sound 256 faithful v faithful_table h in
    (
      (λ e. ground arith, λ e. ground arith),
      λ c. (
        λ e. (ground arith, ground arith),
        λ e. ap completion_error (sym e.0) ∙ code_byte-completion_error c e.1,
      ),
    )
