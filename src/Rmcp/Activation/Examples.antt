-- ===== src/Rmcp/Activation/Examples.antt =====
-- A connection on which the best suite is chosen.
use ipmi_rs.Base.{ℕ, ◌≡◌, refl, List, [], ◌∷◌, none, some, Result, ok, err, true, replicate}
use ipmi_rs.Rmcp.CipherPolicy.{into_suite}
use ipmi_rs.Rmcp.V2_0.Algorithms.{
  administrator, authentication_of_u8, integrity_of_u8, confidentiality_of_u8, privilege_of_u8,
}
use ipmi_rs.Rmcp.V2_0.OpenSession.{
  write, write_request, from_data, payload_at, payload_from_data, validate_open_session,
}
use ipmi_rs.Rmcp.V2_0.Agreement.{encode_response}
use ipmi_rs.Rmcp.V2_0.Rakp.{
  parse_rakp_2, parse_rakp_4, validate_rm1_rm2, validate_rm3_rm4, validate_rakp4_mac_len,
  write_rakp_1, write_rakp_3,
}
use ipmi_rs.Rmcp.V2_0.Payload.{payload_type_of_u8}
use ipmi_rs.Rmcp.V2_0.Crypto.Keys.{derive}
use ipmi_rs.Rmcp.V2_0.Crypto.SubState.{
  write_data_encrypted, write_trailer, validate_trailer, read_data_encrypted,
}
use ipmi_rs.Rmcp.V2_0.Crypto.Packet.{write_payload, read_payload, read_sized, read_flags}
use ipmi_rs.Rmcp.V2_0.Crypto.State.{
  new, agree_keys, calculate_with, calculate_rakp3_data, verify_with, verify,
}
use ipmi_rs.Rmcp.V2_0.Crypto.Counting.{counting}
use ipmi_rs.Rmcp.V2_0.Activation.Steps.{
  open_request, send_handshake, validate_handshake, receive_handshake, rakp_1_of, open_session,
  receive_rakp_2, send_rakp_3, receive_rakp_4,
}
use ipmi_rs.Base.{◌==◌, if◌then◌else◌, false}
use ipmi_rs.Connection.Channel.{channel_value}
use ipmi_rs.Rmcp.Header
use ipmi_rs.Rmcp.Asf.{AsfMessage, pong}
use ipmi_rs.Rmcp.Asf
use ipmi_rs.Rmcp.CipherPolicy.{select_best, scan, noted, note, from_id}
use ipmi_rs.Rmcp.V1_5.Commands.{
  capabilities_request, parse_capabilities, cipher_suites_request, parse_cipher_suites,
}
use ipmi_rs.Rmcp.V1_5.Activation.{Exchange}
use ipmi_rs.Rmcp.V2_0.Rakp.{username_new}
use ipmi_rs.Rmcp.V2_0.Activation.Scenario.{socket}
use ipmi_rs.Rmcp.Activation.{
  best_available, Config, Peer, Active, v1_5, v2_0, read_message, read_pong, list_suites,
  select_suite, activate_2_0, choose,
}
use ipmi_rs.Rmcp.Activation
use ipmi_rs.Rmcp.Activation.Choice.{Made, activate-Made}
use ipmi_rs.Rmcp.V1_5.Activation as V1_5Activation
use ipmi_rs.Rmcp.V2_0.Activation as V2_0Activation

abbrev config : Config
config = record {
  rmcp_plus = true;
  suite_policy = some best_available;
  require_rmcp_plus = true;
  username = some (record { characters = 97 ∷ 98 ∷ []; utf8 = 97 ∷ 98 ∷ [] });
  password = some (1 ∷ 2 ∷ 3 ∷ []);
  kg = none;
  privilege = administrator;
}

abbrev presence_pong : AsfMessage
presence_pong = record {
  message_tag = 0xc8;
  message_type =
      pong 4542 0 (record { ipmi = true }) (record { rcmp_security = false; dmtf_dash = false });
}

abbrev pong_bytes : List ℕ
unfolding Header.write_infallible Header.new_asf Asf.write_data
pong_bytes = Header.write_infallible (Header.new_asf 0xff) (Asf.write_data presence_pong)

abbrev exchange : Exchange
exchange s cmd request = (
  s,
  some (
      if cmd == 0x38
      then 1 ∷ 0x84 ∷ 4 ∷ 2 ∷ 0 ∷ 0 ∷ 0 ∷ 0 ∷ []
      else 1 ∷ 0xc0 ∷ 3 ∷ 1 ∷ 1 ∷ 1 ∷ 0xc0 ∷ 17 ∷ 3 ∷ 4 ∷ 1 ∷ []),
)

abbrev peer : Peer
peer = record {
  cancelled = none;
  ping_sent = λ bytes. true;
  pong = ok pong_bytes;
  exchange = exchange;
  socket = socket;
  console_session_id = 7;
  random_number = replicate 16 4;
}

abbrev active_of : Result Activation.ActivationError Active → Active
active_of (ok a) = a
active_of (err e) = v1_5 V1_5Activation.new_state

abbrev connection : Active
connection = active_of (Activation.activate counting config peer)

connected : Activation.activate counting config peer ≡ ok connection
unfolding Activation.activate V2_0Activation.activate send_handshake open_request into_suite
    authentication_of_u8 integrity_of_u8 confidentiality_of_u8 privilege_of_u8 write_request write
    write_payload write_data_encrypted write_trailer open_session receive_handshake
    validate_handshake read_payload read_flags payload_type_of_u8 validate_trailer read_sized
    read_data_encrypted encode_response from_data payload_at payload_from_data validate_open_session
    rakp_1_of write_rakp_1 receive_rakp_2 parse_rakp_2 validate_rm1_rm2 calculate_rakp3_data new
    calculate_with agree_keys derive send_rakp_3 write_rakp_3 receive_rakp_4 parse_rakp_4
    validate_rm3_rm4 validate_rakp4_mac_len verify verify_with read_pong read_message list_suites
    select_suite activate_2_0 choose capabilities_request parse_capabilities cipher_suites_request
    parse_cipher_suites username_new select_best scan noted note from_id channel_value
    Header.from_bytes Header.from_parts Header.class_of_u8 Header.class_byte Header.type_code
    Header.header_new Header.written_sequence Header.write_infallible Header.new_asf Asf.write_data
    Asf.type_byte Asf.type_data Asf.from_bytes Asf.from_type_byte_and_data Asf.parse_pong
    Asf.interactions_of_u8 Asf.interactions_byte Asf.entities_of_u8 Asf.entities_byte
connected = refl

activate-Made_example : Made counting config peer connection
activate-Made_example = activate-Made counting config peer connection connected
