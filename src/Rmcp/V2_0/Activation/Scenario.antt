-- ===== src/Rmcp/V2_0/Activation/Scenario.antt =====
-- A socket that answers an activation with the suite 17.
use ipmi_rs.Base.{ℕ, List, [], ◌∷◌, ◌++◌, none, some, Result, ok, err, true, replicate, u32_le}
use ipmi_rs.Rmcp.Errors.{RmcpIpmiReceiveError, timeout}
use ipmi_rs.Rmcp.CipherPolicy.{id17}
use ipmi_rs.Rmcp.V2_0.Algorithms.{rakp_hmac_sha256, aes_cbc128, hmac_sha256_128, administrator}
use ipmi_rs.Rmcp.V2_0.OpenSession.{OpenSessionResponse}
use ipmi_rs.Rmcp.V2_0.Agreement.{encode_response}
use ipmi_rs.Rmcp.V2_0.Payload.{PayloadType, open_session_response, rakp_message_2, rakp_message_4}
use ipmi_rs.Rmcp.V2_0.Crypto.SubState.{empty_state}
use ipmi_rs.Rmcp.V2_0.Crypto.Packet.{write_payload}
use ipmi_rs.Rmcp.V2_0.Crypto.Counting.{counting, bytes_of}
use ipmi_rs.Rmcp.V2_0.Activation.Steps.{Socket, Parameters}

abbrev pub parameters : Parameters
parameters = record {
  privilege_level = some administrator;
  username = 97 ∷ 98 ∷ [];
  password = 1 ∷ 2 ∷ 3 ∷ [];
  kg = none;
  suite = id17;
  console_session_id = 7;
  random_number = replicate 16 4;
}

abbrev pub granted : OpenSessionResponse
granted = record {
  message_tag = 0;
  maximum_privilege_level = administrator;
  remote_console_session_id = 7;
  managed_system_session_id = 9;
  authentication_payload = rakp_hmac_sha256;
  integrity_payload = hmac_sha256_128;
  confidentiality_payload = aes_cbc128;
}

abbrev pub answer : PayloadType → List ℕ → List ℕ
answer ty payload = bytes_of (
    write_payload counting empty_state none
      (record { ty = ty; session_id = 0; session_sequence_number = 0; payload = payload }))

-- The digests of the second and of the fourth message are of 63 and of 68 bytes.
abbrev pub second : List ℕ
second = (0x0d ∷ 0 ∷ 0 ∷ 0 ∷ u32_le 7) ++ (replicate 16 5 ++ (replicate 16 6 ++ replicate 32 63))

abbrev pub fourth : List ℕ
fourth = (0x0a ∷ 0 ∷ 0 ∷ 0 ∷ u32_le 7) ++ replicate 16 68

abbrev pub answers : List (List ℕ) → Result RmcpIpmiReceiveError (List ℕ)
answers [] = err timeout
answers (p ∷ []) = ok (answer open_session_response (encode_response granted))
answers (p ∷ q ∷ []) = ok (answer rakp_message_2 second)
answers (p ∷ q ∷ r ∷ rest) = ok (answer rakp_message_4 fourth)

abbrev pub socket : Socket
socket = record { sends = λ packet. true; receives = answers }
