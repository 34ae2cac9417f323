-- ===== src/Rmcp/Asf/Examples.antt =====
-- A concrete pong and a concrete ping for the theorems on ASF messages.
use ipmi_rs.Base.{ℕ, ◌≡◌, refl, true, false, List, [], ◌∷◌, some, arith}
use ipmi_rs.Rmcp.Asf.{
  AsfMessage, ping, pong, write_data, from_bytes, from_type_byte_and_data, from_bytes-write_data,
}

abbrev presence_pong : AsfMessage
presence_pong = record {
  message_tag = 7;
  message_type =
      pong 4542 0 (record { ipmi = true }) (record { rcmp_security = true; dmtf_dash = false });
}

from_bytes-write_data_example : from_bytes (write_data presence_pong []) ≡ some presence_pong
from_bytes-write_data_example = from_bytes-write_data presence_pong (omega arith, omega arith)

abbrev ping_bytes : List ℕ
ping_bytes = 0 ∷ 0 ∷ 0x11 ∷ 0xbe ∷ 0x80 ∷ 7 ∷ 0 ∷ 0 ∷ []

abbrev presence_ping : AsfMessage
presence_ping = record { message_tag = 7; message_type = ping }

ping_read : from_bytes ping_bytes ≡ some presence_ping
unfolding from_bytes from_type_byte_and_data
ping_read = refl
