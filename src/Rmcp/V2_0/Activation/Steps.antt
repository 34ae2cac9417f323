-- ===== src/Rmcp/V2_0/Activation/Steps.antt =====
-- The steps of an activation: v2_0/mod.rs, over a socket that adds the RMCP header to what is sent and
-- takes it off what is received.
use ipmi_rs.Base.{
  ℕ, Bool, not, ◌||◌, List, Option, none, some, Result, ok, err, ◌>>=◌, ◌>>◌, reject_if, map_err,
  ◌!=◌, get_or, length,
}
use ipmi_rs.Rmcp.Errors.{RmcpIpmiReceiveError}
use ipmi_rs.Rmcp.CipherPolicy.{CipherSuite, into_suite}
use ipmi_rs.Rmcp.V2_0.Algorithms.{
  AuthenticationAlgorithm, rakp_none, rakp_hmac_sha1, rakp_hmac_md5, rakp_hmac_sha256, no_integrity,
  no_confidentiality, PrivilegeLevel, authentication_of_u8, integrity_of_u8, confidentiality_of_u8,
}
use ipmi_rs.Rmcp.V2_0.OpenSession.{
  OpenSessionRequest, OpenSessionResponse, ParseSessionResponseError, ValidateSessionResponseError,
  from_data, validate_open_session,
}
use ipmi_rs.Rmcp.V2_0.Rakp.{
  RakpMessage1, RakpMessage2, RakpMessage2ParseError, parse_rakp_2, RakpMessage3,
  RakpMessage3Contents, success, failure, invalid_integrity, write_rakp_3, RakpMessage4,
  RakpMessage4ParseError, parse_rakp_4, ValidateRakpError, validate_rm1_rm2, validate_rm3_rm4,
  validate_rakp4_mac_len,
}
use ipmi_rs.Rmcp.V2_0.Payload.{
  PayloadType, open_session_response, rakp_message_2, rakp_message_3, rakp_message_4, Message,
  payload_type_code,
}
use ipmi_rs.Rmcp.V2_0.Crypto.Backend.{Backend, CryptoBackendError}
use ipmi_rs.Rmcp.V2_0.Crypto.Keys.{ReadError}
use ipmi_rs.Rmcp.V2_0.Crypto.SubState.{empty_state}
use ipmi_rs.Rmcp.V2_0.Crypto.Packet.{read_payload, write_payload}
use ipmi_rs.Rmcp.V2_0.Crypto.State.{CryptoState}

-- The causes of the errors of the socket are left out.
pub data ActivationError : Type 0 where
  send_error : PayloadType → ActivationError
  receive_error : PayloadType → RmcpIpmiReceiveError → ActivationError
  read_error : PayloadType → ReadError → ActivationError
  unexpected_payload_type : PayloadType → ActivationError
  unexpected_session_header server_authentication_failed : ActivationError
  rakp_message_4_invalid_integrity_check_value : ActivationError
  open_session_response_parse : ParseSessionResponseError → ActivationError
  open_session_response_validate : ValidateSessionResponseError → ActivationError
  rakp_message_2_parse : RakpMessage2ParseError → ActivationError
  rakp_message_2_validate : ValidateRakpError → ActivationError
  rakp_message_4_parse : RakpMessage4ParseError → ActivationError
  rakp_message_4_validate : ValidateRakpError → ActivationError
  invalid_key_exchange_auth_code_len : ℕ → AuthenticationAlgorithm → ActivationError
  invalid_rakp_message_4_integrity_check_value_len : ℕ → AuthenticationAlgorithm → ActivationError
  crypto_backend : CryptoBackendError → ActivationError

-- Whether a packet is sent, and what is received after the packets that were sent, the last one first.
pub record Socket : Type 0 where
  pub sends : List ℕ → Bool
  pub receives : List (List ℕ) → Result RmcpIpmiReceiveError (List ℕ)

-- What a caller gives, with the two random numbers that are drawn.
pub record Parameters : Type 0 where
  pub privilege_level : Option PrivilegeLevel
  pub username : List ℕ
  pub password : List ℕ
  pub kg : Option (List ℕ)
  pub suite : CipherSuite
  pub console_session_id : ℕ
  pub random_number : List ℕ

-- A session that is active.
pub record Activated : Type 0 where
  pub session_id : ℕ
  pub session_sequence_number : ℕ
  pub console_session_id : ℕ
  pub last_inbound_sequence : Option ℕ
  pub state : CryptoState

abbrev pub unwrap_or {ℓ} : {A : Type ℓ} → Option A → A → A
unwrap_or none d = d
unwrap_or (some a) d = a

-- No suite has a number that its algorithm does not know, so the defaults stand for no panic.
unfoldable pub open_request : Parameters → OpenSessionRequest
unfolding into_suite authentication_of_u8 integrity_of_u8 confidentiality_of_u8
open_request c = record {
  message_tag = 0;
  requested_max_privilege = c.privilege_level;
  remote_console_session_id = c.console_session_id;
  authentication_algorithms =
      unwrap_or (authentication_of_u8 (get_or (into_suite c.suite) 0 0)) rakp_none;
  integrity_algorithms = unwrap_or (integrity_of_u8 (get_or (into_suite c.suite) 1 0)) no_integrity;
  confidentiality_algorithms =
      unwrap_or (confidentiality_of_u8 (get_or (into_suite c.suite) 2 0)) no_confidentiality;
}

-- The packet, outside any session, that was sent.
unfoldable pub send_handshake :
    Backend → Socket → PayloadType → List ℕ → Result ActivationError (List ℕ)
send_handshake b socket ty payload = do
  packet ←
      map_err (λ e. send_error ty)
        (write_payload b empty_state none
          (record { ty = ty; session_id = 0; session_sequence_number = 0; payload = payload }))
  reject_if (not (socket.sends packet)) (send_error ty)
  ok packet

unfoldable pub validate_handshake : Message → PayloadType → Result ActivationError (Unit {0})
validate_handshake m expected = do
  reject_if (payload_type_code m.ty != payload_type_code expected) (unexpected_payload_type m.ty)
  reject_if (m.session_id != 0 || m.session_sequence_number != 0) unexpected_session_header
  ok tt

-- The payload of the answer to what was sent.
unfoldable pub receive_handshake :
    Backend → Socket → List (List ℕ) → PayloadType → Result ActivationError (List ℕ)
receive_handshake b socket sent expected = do
  bytes ← map_err (λ e. receive_error expected e) (socket.receives sent)
  m ← map_err (λ e. read_error expected e) (read_payload b empty_state bytes)
  validate_handshake m expected
  ok m.payload

unfoldable pub rakp_1_of : Parameters → OpenSessionResponse → RakpMessage1
rakp_1_of c response = record {
  message_tag = 0x0d;
  managed_system_session_id = response.managed_system_session_id;
  remote_console_random_number = c.random_number;
  requested_maximum_privilege_level = unwrap_or c.privilege_level response.maximum_privilege_level;
  username = c.username;
}

abbrev pub required_kex_auth_code_len : AuthenticationAlgorithm → ℕ
required_kex_auth_code_len rakp_none = 0
required_kex_auth_code_len rakp_hmac_sha1 = 20
required_kex_auth_code_len rakp_hmac_sha256 = 32
required_kex_auth_code_len rakp_hmac_md5 = 16

-- The answer to the request for a session.
unfoldable pub open_session :
    Backend → Socket → Parameters → List (List ℕ) → Result ActivationError OpenSessionResponse
open_session b socket c sent = do
  payload ← receive_handshake b socket sent open_session_response
  response ← map_err open_session_response_parse (from_data payload)
  map_err open_session_response_validate (validate_open_session (open_request c) response)
  ok response

-- The second message, which answers the first.
unfoldable pub receive_rakp_2 :
    Backend
    → Socket
    → Parameters
    → List (List ℕ)
    → OpenSessionResponse
    → Result ActivationError RakpMessage2
receive_rakp_2 b socket c sent response = do
  payload ← receive_handshake b socket sent rakp_message_2
  rm2 ← map_err rakp_message_2_parse (parse_rakp_2 payload)
  map_err rakp_message_2_validate (validate_rm1_rm2 c.console_session_id (rakp_1_of c response) rm2)
  reject_if
      (length rm2.key_exchange_auth_code
        != required_kex_auth_code_len response.authentication_payload)
      (invalid_key_exchange_auth_code_len (length rm2.key_exchange_auth_code)
        response.authentication_payload)
  ok rm2

abbrev pub rakp_3_of : OpenSessionResponse → RakpMessage3Contents → RakpMessage3
rakp_3_of response contents = record {
  message_tag = 0x0a;
  managed_system_session_id = response.managed_system_session_id;
  contents = contents;
}

-- Where the second message's code is wrong, the managed system is told so.
unfoldable pub send_rakp_3 :
    Backend
    → Socket
    → OpenSessionResponse
    → Option (CryptoState × List ℕ)
    → Result ActivationError (List ℕ × (CryptoState × RakpMessage3))
send_rakp_3 b socket response none = do
  packet ←
      send_handshake b socket rakp_message_3
        (write_rakp_3 (rakp_3_of response (failure invalid_integrity)))
  err server_authentication_failed
send_rakp_3 b socket response (some (state, code)) = do
  packet ← send_handshake b socket rakp_message_3 (write_rakp_3 (rakp_3_of response (success code)))
  ok (packet, (state, rakp_3_of response (success code)))

-- The fourth message, with the length that its code must have.
unfoldable pub receive_rakp_4 :
    Backend
    → Socket
    → List (List ℕ)
    → OpenSessionResponse
    → RakpMessage3
    → Result ActivationError RakpMessage4
receive_rakp_4 b socket sent response rm3 = do
  payload ← receive_handshake b socket sent rakp_message_4
  rm4 ← map_err rakp_message_4_parse (parse_rakp_4 payload)
  map_err rakp_message_4_validate (validate_rm3_rm4 response.remote_console_session_id rm3 rm4)
  map_err
      (λ len. invalid_rakp_message_4_integrity_check_value_len len response.authentication_payload)
      (validate_rakp4_mac_len response.authentication_payload (length rm4.integrity_check_value))
  ok rm4

abbrev pub activated : Parameters → RakpMessage3 → CryptoState → Activated
activated c rm3 state = record {
  session_id = rm3.managed_system_session_id;
  session_sequence_number = 1;
  console_session_id = c.console_session_id;
  last_inbound_sequence = none;
  state = state;
}
