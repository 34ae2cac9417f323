-- ===== src/Rmcp/V2_0/Rakp.antt =====
-- The four RAKP messages, v2_0/messages/rakp.rs and rakp_1.rs to rakp_4.rs, and the checks of v2_0/mod.rs.
use ipmi_rs.Base.{
  ℕ, Bool, true, false, ◌||◌, List, [], ◌∷◌, ◌++◌, Option, none, some, Result, ok, err, ◌>>◌,
  reject_if, ◌==◌, ◌!=◌, ltb, if◌then◌else◌, length, get_or, take, drop, u32_le,
}
use ipmi_rs.Rmcp.V2_0.Algorithms.{
  PrivilegeLevel, privilege_code, AuthenticationAlgorithm, rakp_none, rakp_hmac_sha1, rakp_hmac_md5,
  rakp_hmac_sha256,
}
use ipmi_rs.Rmcp.V2_0.OpenSession.{
  RakpErrorStatusCode, insufficient_resources_for_session_creation, invalid_session_id,
  illegal_or_unrecognized_parameter, word_at,
}

abbrev pub rakp_error_code : RakpErrorStatusCode → ℕ
rakp_error_code insufficient_resources_for_session_creation = 0x01
rakp_error_code invalid_session_id = 0x02
rakp_error_code illegal_or_unrecognized_parameter = 0x12

-- `Username::new` of the characters' code points: at most 16 are kept, and each must be ASCII but not NUL.
abbrev valid_characters : List ℕ → Bool
valid_characters [] = true
valid_characters (c ∷ cs) = if c == 0 || ltb 127 c then false else valid_characters cs

unfoldable pub username_new : List ℕ → Option (List ℕ)
username_new characters =
    if valid_characters (take 16 characters) then some (take 16 characters) else none

pub record RakpMessage1 : Type 0 where
  pub message_tag : ℕ
  pub managed_system_session_id : ℕ
  pub remote_console_random_number : List ℕ
  pub requested_maximum_privilege_level : PrivilegeLevel
  pub username : List ℕ

unfoldable pub write_rakp_1 : RakpMessage1 → List ℕ
write_rakp_1 m =
    (m.message_tag ∷ 0 ∷ 0 ∷ 0 ∷ u32_le m.managed_system_session_id)
    ++ (m.remote_console_random_number
        ++ (privilege_code m.requested_maximum_privilege_level
            ∷ 0
            ∷ 0
            ∷ length m.username
            ∷ m.username))

pub data RakpMessage2ErrorStatusCode : Type 0 where
  common : RakpErrorStatusCode → RakpMessage2ErrorStatusCode
  inactive_session_id invalid_role : RakpMessage2ErrorStatusCode
  unauthorized_role_or_privilege_level_requested : RakpMessage2ErrorStatusCode
  insufficient_resources_to_create_session_at_requested_role : RakpMessage2ErrorStatusCode
  invalid_name_length unauthorized_name : RakpMessage2ErrorStatusCode

pub data RakpMessage2ParseError : Type 0 where
  not_enough_data invalid_remote_console_session_id : RakpMessage2ParseError
  error_status_code : RakpMessage2ErrorStatusCode → RakpMessage2ParseError
  unknown_error_status_code : ℕ → RakpMessage2ParseError

unfoldable pub rakp_2_error : ℕ → RakpMessage2ParseError
rakp_2_error v =
    if v == 0x01
    then error_status_code (common insufficient_resources_for_session_creation)
    else if v == 0x02
    then error_status_code (common invalid_session_id)
    else if v == 0x12
    then error_status_code (common illegal_or_unrecognized_parameter)
    else if v == 0x08
    then error_status_code inactive_session_id
    else if v == 0x09
    then error_status_code invalid_role
    else if v == 0x0a
    then error_status_code unauthorized_role_or_privilege_level_requested
    else if v == 0x0b
    then error_status_code insufficient_resources_to_create_session_at_requested_role
    else if v == 0x0c
    then error_status_code invalid_name_length
    else if v == 0x0d
    then error_status_code unauthorized_name
    else unknown_error_status_code v

pub record RakpMessage2 : Type 0 where
  pub message_tag : ℕ
  pub remote_console_session_id : ℕ
  pub managed_system_random_number : List ℕ
  pub managed_system_guid : List ℕ
  pub key_exchange_auth_code : List ℕ

unfoldable pub parse_rakp_2 : List ℕ → Result RakpMessage2ParseError RakpMessage2
parse_rakp_2 bytes = do
  reject_if (ltb (length bytes) 4) not_enough_data
  reject_if (get_or bytes 1 0 != 0) (rakp_2_error (get_or bytes 1 0))
  reject_if (ltb (length bytes) 40) not_enough_data
  reject_if (word_at bytes 4 == 0) invalid_remote_console_session_id
  ok (record {
    message_tag = get_or bytes 0 0;
    remote_console_session_id = word_at bytes 4;
    managed_system_random_number = take 16 (drop 8 bytes);
    managed_system_guid = take 16 (drop 24 bytes);
    key_exchange_auth_code = drop 40 bytes;
  })

pub data RakpMessage3ErrorStatusCode : Type 0 where
  common_3 : RakpErrorStatusCode → RakpMessage3ErrorStatusCode
  inactive_session unauthorized_guid invalid_integrity : RakpMessage3ErrorStatusCode

pub data RakpMessage3Contents : Type 0 where
  failure : RakpMessage3ErrorStatusCode → RakpMessage3Contents
  success : List ℕ → RakpMessage3Contents

abbrev pub rakp_3_status : RakpMessage3ErrorStatusCode → ℕ
rakp_3_status (common_3 c) = rakp_error_code c
rakp_3_status inactive_session = 0x08
rakp_3_status unauthorized_guid = 0x0e
rakp_3_status invalid_integrity = 0x0f

pub record RakpMessage3 : Type 0 where
  pub message_tag : ℕ
  pub managed_system_session_id : ℕ
  pub contents : RakpMessage3Contents

abbrev rakp_3_parts : RakpMessage3Contents → ℕ × List ℕ
rakp_3_parts (failure status) = (rakp_3_status status, [])
rakp_3_parts (success after_id) = (0, after_id)

unfoldable pub write_rakp_3 : RakpMessage3 → List ℕ
write_rakp_3 m =
    let parts = rakp_3_parts m.contents in
    (m.message_tag ∷ parts.0 ∷ 0 ∷ 0 ∷ u32_le m.managed_system_session_id) ++ parts.1

pub data RakpMessage4ErrorStatusCode : Type 0 where
  common_4 : RakpErrorStatusCode → RakpMessage4ErrorStatusCode
  inactive_session_4 invalid_integrity_check_value : RakpMessage4ErrorStatusCode

pub data RakpMessage4ParseError : Type 0 where
  too_short zero_managed_system_session_id : RakpMessage4ParseError
  status_4 : RakpMessage4ErrorStatusCode → RakpMessage4ParseError
  unknown_status_4 : ℕ → RakpMessage4ParseError

unfoldable pub rakp_4_error : ℕ → RakpMessage4ParseError
rakp_4_error v =
    if v == 0x01
    then status_4 (common_4 insufficient_resources_for_session_creation)
    else if v == 0x02
    then status_4 (common_4 invalid_session_id)
    else if v == 0x12
    then status_4 (common_4 illegal_or_unrecognized_parameter)
    else if v == 0x08
    then status_4 inactive_session_4
    else if v == 0x0f
    then status_4 invalid_integrity_check_value
    else unknown_status_4 v

pub record RakpMessage4 : Type 0 where
  pub message_tag : ℕ
  pub managed_system_session_id : ℕ
  pub integrity_check_value : List ℕ

unfoldable pub parse_rakp_4 : List ℕ → Result RakpMessage4ParseError RakpMessage4
parse_rakp_4 bytes = do
  reject_if (ltb (length bytes) 4) too_short
  reject_if (get_or bytes 1 0 != 0) (rakp_4_error (get_or bytes 1 0))
  reject_if (ltb (length bytes) 8) too_short
  reject_if (word_at bytes 4 == 0) zero_managed_system_session_id
  ok (record {
    message_tag = get_or bytes 0 0;
    managed_system_session_id = word_at bytes 4;
    integrity_check_value = drop 8 bytes;
  })

-- The two checks have errors of the same names.
pub data ValidateRakpError : Type 0 where
  message_tag_mismatch remote_console_session_id_mismatch : ValidateRakpError

unfoldable pub validate_rm1_rm2 :
    ℕ → RakpMessage1 → RakpMessage2 → Result ValidateRakpError (Unit {0})
validate_rm1_rm2 console rm1 rm2 = do
  reject_if (rm1.message_tag != rm2.message_tag) message_tag_mismatch
  reject_if (console != rm2.remote_console_session_id) remote_console_session_id_mismatch
  ok tt

unfoldable pub validate_rm3_rm4 :
    ℕ → RakpMessage3 → RakpMessage4 → Result ValidateRakpError (Unit {0})
validate_rm3_rm4 console rm3 rm4 = do
  reject_if (rm3.message_tag != rm4.message_tag) message_tag_mismatch
  reject_if (rm4.managed_system_session_id != console) remote_console_session_id_mismatch
  ok tt

abbrev pub rakp_4_mac_len : AuthenticationAlgorithm → ℕ
rakp_4_mac_len rakp_hmac_sha1 = 12
rakp_4_mac_len rakp_hmac_sha256 = 16
rakp_4_mac_len rakp_none = 0
rakp_4_mac_len rakp_hmac_md5 = 16

-- The error has the length that was met.
unfoldable pub validate_rakp4_mac_len : AuthenticationAlgorithm → ℕ → Result ℕ (Unit {0})
validate_rakp4_mac_len algorithm actual_len =
    if actual_len != rakp_4_mac_len algorithm then err actual_len else ok tt
