-- ===== src/Rmcp/V2_0/Payload.antt =====
-- The types of payload and the message of a session: v2_0/mod.rs.
use ipmi_rs.Base.{ℕ, List, Option, none, some, ◌==◌, if◌then◌else◌}

pub data PayloadType : Type 0 where
  ipmi_message sol open_session_request open_session_response : PayloadType
  rakp_message_1 rakp_message_2 rakp_message_3 rakp_message_4 : PayloadType

unfoldable pub payload_type_of_u8 : ℕ → Option PayloadType
payload_type_of_u8 v =
    if v == 0x00
    then some ipmi_message
    else if v == 0x01
    then some sol
    else if v == 0x10
    then some open_session_request
    else if v == 0x11
    then some open_session_response
    else if v == 0x12
    then some rakp_message_1
    else if v == 0x13
    then some rakp_message_2
    else if v == 0x14
    then some rakp_message_3
    else if v == 0x15
    then some rakp_message_4
    else none

abbrev pub payload_type_code : PayloadType → ℕ
payload_type_code ipmi_message = 0x00
payload_type_code sol = 0x01
payload_type_code open_session_request = 0x10
payload_type_code open_session_response = 0x11
payload_type_code rakp_message_1 = 0x12
payload_type_code rakp_message_2 = 0x13
payload_type_code rakp_message_3 = 0x14
payload_type_code rakp_message_4 = 0x15

pub record Message : Type 0 where
  pub ty : PayloadType
  pub session_id : ℕ
  pub session_sequence_number : ℕ
  pub payload : List ℕ
