-- ===== src/Rmcp/V2_0/OpenSession.antt =====
-- The request for a session and the answer to it: v2_0/messages/open_session.rs, with
-- `validate_open_session` of v2_0/mod.rs.
use ipmi_rs.Base.{
  ℕ, Bool, false, ◌&&◌, not, List, [], ◌∷◌, ◌++◌, Option, none, some, Result, ok, err, ◌>>=◌, ◌>>◌,
  reject_if, ok_or, map_err, ◌==◌, ◌!=◌, ltb, if◌then◌else◌, bit_and, bytes_eq, length, get_or,
  take, drop, u32_le, of_le4,
}
use ipmi_rs.Rmcp.CipherPolicy.{CipherSuite, id17, into_suite}
use ipmi_rs.Rmcp.V2_0.Algorithms.{
  AuthenticationAlgorithm, ConfidentialityAlgorithm, IntegrityAlgorithm, PrivilegeLevel,
  authentication_code, confidentiality_code, integrity_code, privilege_code, authentication_of_u8,
  confidentiality_of_u8, integrity_of_u8, privilege_of_u8,
}

pub data AlgorithmPayloadError : Type 0 where
  incorrect_data_len incorrect_payload_len_value : AlgorithmPayloadError
  unknown_auth_algorithm unknown_integrity_algorithm : ℕ → AlgorithmPayloadError
  unknown_confidentiality_algorithm unknown_payload_type : ℕ → AlgorithmPayloadError

pub data AlgorithmPayload : Type 0 where
  authentication : AuthenticationAlgorithm → AlgorithmPayload
  integrity : IntegrityAlgorithm → AlgorithmPayload
  confidentiality : ConfidentialityAlgorithm → AlgorithmPayload

abbrev pub type_code : AlgorithmPayload → ℕ
type_code (authentication a) = 0
type_code (integrity a) = 1
type_code (confidentiality a) = 2

abbrev pub algorithm_code : AlgorithmPayload → ℕ
algorithm_code (authentication a) = authentication_code a
algorithm_code (integrity a) = integrity_code a
algorithm_code (confidentiality a) = confidentiality_code a

-- `AlgorithmPayload::write`; no code is too large for its assertion.
unfoldable pub write : Bool → AlgorithmPayload → List ℕ
write null_byte p =
    type_code p ∷ 0 ∷ 0 ∷ (if null_byte then 0 else 8) ∷ algorithm_code p ∷ 0 ∷ 0 ∷ 0 ∷ []

abbrev pub algorithm_of : ℕ → ℕ → Result AlgorithmPayloadError AlgorithmPayload
algorithm_of ty algo =
    if ty == 0
    then (do
      a ← ok_or (unknown_auth_algorithm algo) (authentication_of_u8 algo)
      ok (authentication a))
    else if ty == 1
    then (do a ← ok_or (unknown_integrity_algorithm algo) (integrity_of_u8 algo); ok (integrity a))
    else if ty == 2
    then (do
      a ← ok_or (unknown_confidentiality_algorithm algo) (confidentiality_of_u8 algo)
      ok (confidentiality a))
    else err (unknown_payload_type ty)

unfoldable pub payload_from_data : List ℕ → Result AlgorithmPayloadError AlgorithmPayload
payload_from_data bytes = do
  reject_if (length bytes != 8) incorrect_data_len
  reject_if (get_or bytes 3 0 != 8) incorrect_payload_len_value
  algorithm_of (get_or bytes 0 0) (get_or bytes 4 0)

pub record OpenSessionRequest : Type 0 where
  pub message_tag : ℕ
  pub requested_max_privilege : Option PrivilegeLevel
  pub remote_console_session_id : ℕ
  pub authentication_algorithms : AuthenticationAlgorithm
  pub integrity_algorithms : IntegrityAlgorithm
  pub confidentiality_algorithms : ConfidentialityAlgorithm

abbrev level_or_zero : Option PrivilegeLevel → ℕ
level_or_zero none = 0
level_or_zero (some level) = privilege_code level

unfoldable pub write_request : OpenSessionRequest → List ℕ
write_request r =
    (r.message_tag
      ∷ level_or_zero r.requested_max_privilege
      ∷ 0
      ∷ 0
      ∷ u32_le r.remote_console_session_id)
    ++ (write false (authentication r.authentication_algorithms)
        ++ (write false (integrity r.integrity_algorithms)
            ++ write false (confidentiality r.confidentiality_algorithms)))

pub data RakpErrorStatusCode : Type 0 where
  insufficient_resources_for_session_creation invalid_session_id : RakpErrorStatusCode
  illegal_or_unrecognized_parameter : RakpErrorStatusCode

pub data OpenSessionResponseErrorStatusCode : Type 0 where
  common_rakp : RakpErrorStatusCode → OpenSessionResponseErrorStatusCode
  invalid_payload_type invalid_authentication_algorithm : OpenSessionResponseErrorStatusCode
  invalid_integrity_algorithm invalid_confidentiality_algorithm : OpenSessionResponseErrorStatusCode
  no_matching_authentication_payload : OpenSessionResponseErrorStatusCode
  no_matching_integrity_payload no_matching_cipher_suite : OpenSessionResponseErrorStatusCode
  invalid_role : OpenSessionResponseErrorStatusCode

-- A code that is unknown is kept as the byte.
unfoldable pub status_of_u8 : ℕ → Result ℕ OpenSessionResponseErrorStatusCode
status_of_u8 v =
    if v == 0x01
    then ok (common_rakp insufficient_resources_for_session_creation)
    else if v == 0x02
    then ok (common_rakp invalid_session_id)
    else if v == 0x12
    then ok (common_rakp illegal_or_unrecognized_parameter)
    else if v == 0x03
    then ok invalid_payload_type
    else if v == 0x04
    then ok invalid_authentication_algorithm
    else if v == 0x05
    then ok invalid_integrity_algorithm
    else if v == 0x10
    then ok invalid_confidentiality_algorithm
    else if v == 0x06
    then ok no_matching_authentication_payload
    else if v == 0x07
    then ok no_matching_integrity_payload
    else if v == 0x11
    then ok no_matching_cipher_suite
    else if v == 0x09
    then ok invalid_role
    else err v

pub data ParseSessionResponseError : Type 0 where
  not_enough_data zero_remote_console_session_id : ParseSessionResponseError
  zero_managed_system_session_id auth_payload_was_non_auth_algorithm : ParseSessionResponseError
  integrity_payload_was_non_integrity_algorithm : ParseSessionResponseError
  confidentiality_payload_was_non_confidentiality_algorithm : ParseSessionResponseError
  have_error_code : Result ℕ OpenSessionResponseErrorStatusCode → ParseSessionResponseError
  invalid_privilege_level : ℕ → ParseSessionResponseError
  algorithm_payload_error : AlgorithmPayloadError → ParseSessionResponseError

pub record OpenSessionResponse : Type 0 where
  pub message_tag : ℕ
  pub maximum_privilege_level : PrivilegeLevel
  pub remote_console_session_id : ℕ
  pub managed_system_session_id : ℕ
  pub authentication_payload : AuthenticationAlgorithm
  pub integrity_payload : IntegrityAlgorithm
  pub confidentiality_payload : ConfidentialityAlgorithm

abbrev pub as_authentication :
    AlgorithmPayload → Result ParseSessionResponseError AuthenticationAlgorithm
as_authentication (authentication a) = ok a
as_authentication _ = err auth_payload_was_non_auth_algorithm

abbrev pub as_integrity : AlgorithmPayload → Result ParseSessionResponseError IntegrityAlgorithm
as_integrity (integrity a) = ok a
as_integrity _ = err integrity_payload_was_non_integrity_algorithm

abbrev pub as_confidentiality :
    AlgorithmPayload → Result ParseSessionResponseError ConfidentialityAlgorithm
as_confidentiality (confidentiality a) = ok a
as_confidentiality _ = err confidentiality_payload_was_non_confidentiality_algorithm

-- The payload at an offset.
unfoldable pub payload_at : List ℕ → ℕ → Result ParseSessionResponseError AlgorithmPayload
payload_at bytes offset =
    map_err algorithm_payload_error (payload_from_data (take 8 (drop offset bytes)))

abbrev pub word_at : List ℕ → ℕ → ℕ
word_at bytes i =
    let w = drop i bytes in of_le4 (get_or w 0 0) (get_or w 1 0) (get_or w 2 0) (get_or w 3 0)

unfoldable pub from_data : List ℕ → Result ParseSessionResponseError OpenSessionResponse
from_data bytes = do
  reject_if (ltb (length bytes) 2) not_enough_data
  reject_if (get_or bytes 1 0 != 0) (have_error_code (status_of_u8 (get_or bytes 1 0)))
  reject_if (length bytes != 36) not_enough_data
  reject_if (bit_and (get_or bytes 2 0) 0xf0 != 0) (invalid_privilege_level (get_or bytes 2 0))
  level ← ok_or (invalid_privilege_level (get_or bytes 2 0)) (privilege_of_u8 (get_or bytes 2 0))
  reject_if (word_at bytes 4 == 0) zero_remote_console_session_id
  reject_if (word_at bytes 8 == 0) zero_managed_system_session_id
  pa ← payload_at bytes 12
  a ← as_authentication pa
  pi ← payload_at bytes 20
  i ← as_integrity pi
  pc ← payload_at bytes 28
  c ← as_confidentiality pc
  ok (record {
    message_tag = get_or bytes 0 0;
    maximum_privilege_level = level;
    remote_console_session_id = word_at bytes 4;
    managed_system_session_id = word_at bytes 8;
    authentication_payload = a;
    integrity_payload = i;
    confidentiality_payload = c;
  })

pub data ValidateSessionResponseError : Type 0 where
  message_tag_mismatch remote_console_session_id_mismatch : ValidateSessionResponseError
  privilege_level_mismatch : ValidateSessionResponseError
  negotiated_cipher_suite_mismatch : CipherSuite → List ℕ → ValidateSessionResponseError
  authentication_algorithm_mismatch : AuthenticationAlgorithm → ValidateSessionResponseError
  integrity_algorithm_mismatch : IntegrityAlgorithm → ValidateSessionResponseError
  confidentiality_algorithm_mismatch : ConfidentialityAlgorithm → ValidateSessionResponseError

-- `is_some_and(|level| level != granted)`.
abbrev pub other_level : Option PrivilegeLevel → PrivilegeLevel → Bool
other_level none granted = false
other_level (some level) granted = privilege_code level != privilege_code granted

abbrev pub requested : OpenSessionRequest → List ℕ
requested r =
    authentication_code r.authentication_algorithms
    ∷ integrity_code r.integrity_algorithms
    ∷ confidentiality_code r.confidentiality_algorithms
    ∷ []

abbrev pub negotiated : OpenSessionResponse → List ℕ
negotiated r =
    authentication_code r.authentication_payload
    ∷ integrity_code r.integrity_payload
    ∷ confidentiality_code r.confidentiality_payload
    ∷ []

unfoldable pub validate_open_session :
    OpenSessionRequest → OpenSessionResponse → Result ValidateSessionResponseError (Unit {0})
validate_open_session req resp = do
  reject_if (resp.message_tag != req.message_tag) message_tag_mismatch
  reject_if (resp.remote_console_session_id != req.remote_console_session_id)
      remote_console_session_id_mismatch
  reject_if (other_level req.requested_max_privilege resp.maximum_privilege_level)
      privilege_level_mismatch
  reject_if
      (bytes_eq (requested req) (into_suite id17)
        && not (bytes_eq (negotiated resp) (requested req)))
      (negotiated_cipher_suite_mismatch id17 (negotiated resp))
  reject_if
      (authentication_code resp.authentication_payload
        != authentication_code req.authentication_algorithms)
      (authentication_algorithm_mismatch resp.authentication_payload)
  reject_if (integrity_code resp.integrity_payload != integrity_code req.integrity_algorithms)
      (integrity_algorithm_mismatch resp.integrity_payload)
  reject_if
      (confidentiality_code resp.confidentiality_payload
        != confidentiality_code req.confidentiality_algorithms)
      (confidentiality_algorithm_mismatch resp.confidentiality_payload)
  ok tt
