-- ===== src/Rmcp/V2_0/Activation.antt =====
-- The activation of a session: `activate` of v2_0/mod.rs.
pub mod Steps
pub mod Scenario
mod Examples
mod Answers
mod Run
pub mod Authentic
use ipmi_rs.Base.{
  ℕ, Bool, true, false, not, ◌||◌, List, [], ◌∷◌, ◌++◌, Option, none, some, Result, ok, err, ◌>>=◌,
  ◌>>◌, reject_if, map_err, ◌!=◌, get_or, length, if◌then◌else◌,
}
use ipmi_rs.Rmcp.Errors.{RmcpIpmiReceiveError}
use ipmi_rs.Rmcp.CipherPolicy.{CipherSuite, into_suite}
use ipmi_rs.Rmcp.V2_0.Algorithms.{
  AuthenticationAlgorithm, rakp_none, rakp_hmac_sha1, rakp_hmac_md5, rakp_hmac_sha256,
  IntegrityAlgorithm, no_integrity, ConfidentialityAlgorithm, no_confidentiality, PrivilegeLevel,
  authentication_of_u8, integrity_of_u8, confidentiality_of_u8,
}
use ipmi_rs.Rmcp.V2_0.OpenSession.{
  OpenSessionRequest, write_request, OpenSessionResponse, ParseSessionResponseError,
  ValidateSessionResponseError, from_data, validate_open_session,
}
use ipmi_rs.Rmcp.V2_0.Rakp.{
  RakpMessage1, write_rakp_1, RakpMessage2, RakpMessage2ParseError, parse_rakp_2, RakpMessage3,
  RakpMessage3Contents, success, failure, invalid_integrity, write_rakp_3, RakpMessage4,
  RakpMessage4ParseError, parse_rakp_4, ValidateRakpError, validate_rm1_rm2, validate_rm3_rm4,
  validate_rakp4_mac_len,
}
use ipmi_rs.Rmcp.V2_0.Payload.{
  PayloadType, open_session_request, open_session_response, rakp_message_1, rakp_message_2,
  rakp_message_3, rakp_message_4, Message, payload_type_code,
}
use ipmi_rs.Rmcp.V2_0.Crypto.Backend.{Backend, CryptoBackendError}
use ipmi_rs.Rmcp.V2_0.Crypto.Keys.{ReadError, WriteError}
use ipmi_rs.Rmcp.V2_0.Crypto.SubState.{empty_state}
use ipmi_rs.Rmcp.V2_0.Crypto.Packet.{read_payload, write_payload}
use ipmi_rs.Rmcp.V2_0.Crypto.State.{CryptoState, new, calculate_rakp3_data, verify}
use ipmi_rs.Rmcp.V2_0.Activation.Steps.{
  ActivationError, crypto_backend, rakp_message_4_invalid_integrity_check_value, Socket, Parameters,
  Activated, activated, open_request, send_handshake, open_session, rakp_1_of, receive_rakp_2,
  send_rakp_3, receive_rakp_4,
}

unfoldable pub activate : Backend → Socket → Parameters → Result ActivationError Activated
activate b socket c = do
  packet_0 ← send_handshake b socket open_session_request (write_request (open_request c))
  response ← open_session b socket c (packet_0 ∷ [])
  let rm1 = rakp_1_of c response
  packet_1 ← send_handshake b socket rakp_message_1 (write_rakp_1 rm1)
  rm2 ← receive_rakp_2 b socket c (packet_1 ∷ packet_0 ∷ []) response
  agreed ← map_err crypto_backend (calculate_rakp3_data b (new c.kg c.password) response rm1 rm2)
  third ← send_rakp_3 b socket response agreed
  rm4 ← receive_rakp_4 b socket (third.0 ∷ packet_1 ∷ packet_0 ∷ []) response third.1.1
  verified ← map_err crypto_backend (
      verify b third.1.0 response.authentication_payload rm1.remote_console_random_number
        third.1.1.managed_system_session_id rm2.managed_system_guid rm4.integrity_check_value)
  reject_if (not verified) rakp_message_4_invalid_integrity_check_value
  ok (activated c third.1.1 third.1.0)
