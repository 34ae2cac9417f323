-- ===== src/Rmcp/V2_0/Crypto/Examples.antt =====
-- A packet of the suite 17.
use ipmi_rs.Base.{ℕ, ◌≡◌, refl, List, [], ◌∷◌, some, ok, err, length, replicate, arith}
use ipmi_rs.Rmcp.V2_0.Payload.{Message, ipmi_message, payload_type_of_u8}
use ipmi_rs.Rmcp.V2_0.Crypto.Backend.{encrypt, decrypt}
use ipmi_rs.Rmcp.V2_0.Crypto.Keys.{auth_code_mismatch}
use ipmi_rs.Rmcp.V2_0.Crypto.SubState.{
  write_data_encrypted, write_aes, write_trailer, sign, validate_trailer, check_tag, strip_padding,
  read_data_encrypted, read_aes, strip_confidentiality,
}
use ipmi_rs.Rmcp.V2_0.Crypto.Packet.{write_payload, read_payload, read_sized, read_flags}
use ipmi_rs.Rmcp.V2_0.Crypto.RoundTrip.{read_payload-write_payload}
use ipmi_rs.Rmcp.V2_0.Crypto.Authentic.{
  IsSigned, read_payload-IsSigned, with_cipher, read_payload_unsigned,
}
use ipmi_rs.Rmcp.V2_0.Crypto.Counting.{counting, counting-IsBackend, suite_17, bytes_of}

abbrev message : Message
message = record {
  ty = ipmi_message;
  session_id = 258;
  session_sequence_number = 7;
  payload = 9 ∷ 8 ∷ 7 ∷ [];
}

abbrev packet : List ℕ
packet = bytes_of (write_payload counting suite_17 (some (replicate 16 5)) message)

packet_written : write_payload counting suite_17 (some (replicate 16 5)) message ≡ ok packet
unfolding write_payload write_data_encrypted write_aes write_trailer sign encrypt
packet_written = refl

packet_length : length packet ≡ 64
unfolding write_payload write_data_encrypted write_aes write_trailer sign encrypt
packet_length = refl

read_payload-write_payload_example : read_payload counting suite_17 packet ≡ ok message
read_payload-write_payload_example =
    read_payload-write_payload counting counting-IsBackend suite_17 (replicate 16 5) message packet
      refl (omega arith) (omega arith) packet_written

read_back : read_payload counting suite_17 packet ≡ ok message
unfolding write_payload write_data_encrypted write_aes write_trailer sign encrypt read_payload
    read_flags payload_type_of_u8 validate_trailer check_tag strip_padding read_sized
    read_data_encrypted read_aes decrypt strip_confidentiality
read_back = refl

forged : validate_trailer counting suite_17 (6 ∷ 192 ∷ replicate 62 0) ≡ err auth_code_mismatch
unfolding validate_trailer check_tag
forged = refl

read_payload-IsSigned_example : IsSigned counting suite_17 packet
read_payload-IsSigned_example =
    read_payload-IsSigned counting suite_17 packet message refl read_back

read_payload_unsigned_example :
    read_payload
      (with_cipher (λ aes_key iv bytes. ok []) counting)
      suite_17
      (6 ∷ 192 ∷ replicate 62 0)
    ≡ read_payload counting suite_17 (6 ∷ 192 ∷ replicate 62 0)
read_payload_unsigned_example =
    read_payload_unsigned counting suite_17 (6 ∷ 192 ∷ replicate 62 0) auth_code_mismatch
      (λ aes_key iv bytes. ok []) forged
