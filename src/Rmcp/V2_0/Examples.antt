-- ===== src/Rmcp/V2_0/Examples.antt =====
-- A request for the suite 17, with the answer that grants it.
use ipmi_rs.Base.{ℕ, ◌≡◌, refl, List, [], ◌∷◌, some, ok, replicate, arith}
use ipmi_rs.Rmcp.CipherPolicy.{into_suite}
use ipmi_rs.Rmcp.V2_0.Algorithms.{rakp_hmac_sha256, aes_cbc128, hmac_sha256_128, administrator}
use ipmi_rs.Rmcp.V2_0.OpenSession.{
  OpenSessionRequest, OpenSessionResponse, from_data, validate_open_session,
}
use ipmi_rs.Rmcp.V2_0.Rakp.{
  RakpMessage1, RakpMessage2, RakpMessage3, success, RakpMessage4, parse_rakp_2, parse_rakp_4,
  validate_rm1_rm2, validate_rm3_rm4,
}
use ipmi_rs.Rmcp.V2_0.Agreement.{
  Agrees, validate_open_session-Agrees, encode_response, from_data-encode_response,
}

abbrev request : OpenSessionRequest
request = record {
  message_tag = 0;
  requested_max_privilege = some administrator;
  remote_console_session_id = 7;
  authentication_algorithms = rakp_hmac_sha256;
  integrity_algorithms = hmac_sha256_128;
  confidentiality_algorithms = aes_cbc128;
}

abbrev response : OpenSessionResponse
response = record {
  message_tag = 0;
  maximum_privilege_level = administrator;
  remote_console_session_id = 7;
  managed_system_session_id = 9;
  authentication_payload = rakp_hmac_sha256;
  integrity_payload = hmac_sha256_128;
  confidentiality_payload = aes_cbc128;
}

response_accepted : validate_open_session request response ≡ ok tt
unfolding validate_open_session into_suite
response_accepted = refl

validate_open_session-Agrees_example : Agrees request response
validate_open_session-Agrees_example =
    validate_open_session-Agrees request response response_accepted

from_data-encode_response_example : from_data (encode_response response) ≡ ok response
from_data-encode_response_example =
    from_data-encode_response response (omega arith) (omega arith) (λ e. absurd (ground (arith, e)))
      (λ e. absurd (ground (arith, e)))

abbrev rakp_1 : RakpMessage1
rakp_1 = record {
  message_tag = 0;
  managed_system_session_id = 9;
  remote_console_random_number = replicate 16 1;
  requested_maximum_privilege_level = administrator;
  username = [];
}

abbrev rakp_2_bytes : List ℕ
rakp_2_bytes = 0 ∷ 0 ∷ 0 ∷ 0 ∷ 7 ∷ 0 ∷ 0 ∷ 0 ∷ replicate 33 5

abbrev rakp_2 : RakpMessage2
rakp_2 = record {
  message_tag = 0;
  remote_console_session_id = 7;
  managed_system_random_number = replicate 16 5;
  managed_system_guid = replicate 16 5;
  key_exchange_auth_code = 5 ∷ [];
}

rakp_2_parsed : parse_rakp_2 rakp_2_bytes ≡ ok rakp_2
unfolding parse_rakp_2
rakp_2_parsed = refl

rakp_2_accepted : validate_rm1_rm2 7 rakp_1 rakp_2 ≡ ok tt
unfolding validate_rm1_rm2
rakp_2_accepted = refl

abbrev rakp_3 : RakpMessage3
rakp_3 = record {
  message_tag = 0;
  managed_system_session_id = 9;
  contents = success (replicate 32 3);
}

abbrev rakp_4_bytes : List ℕ
rakp_4_bytes = 0 ∷ 0 ∷ 0 ∷ 0 ∷ 7 ∷ 0 ∷ 0 ∷ 0 ∷ replicate 16 5

abbrev rakp_4 : RakpMessage4
rakp_4 = record {
  message_tag = 0;
  managed_system_session_id = 7;
  integrity_check_value = replicate 16 5;
}

rakp_4_parsed : parse_rakp_4 rakp_4_bytes ≡ ok rakp_4
unfolding parse_rakp_4
rakp_4_parsed = refl

rakp_4_accepted : validate_rm3_rm4 7 rakp_3 rakp_4 ≡ ok tt
unfolding validate_rm3_rm4
rakp_4_accepted = refl
