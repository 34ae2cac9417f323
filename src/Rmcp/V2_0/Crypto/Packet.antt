-- ===== src/Rmcp/V2_0/Crypto/Packet.antt =====
-- A packet of a session, read and written: `read_payload` and `write_payload` of
-- v2_0/crypto/sub_state.rs. A packet starts behind the RMCP header.
use ipmi_rs.Base.{
  ℕ, ◌*◌, Bool, true, false, not, List, ◌∷◌, ◌++◌, Option, Result, ok, ◌>>=◌, ◌>>◌, reject_if,
  ok_or, map_err, ◌==◌, ◌!=◌, ltb, bit_and, bit_or, length, get_or, drop, u32_le, of_le2, of_le4,
}
use ipmi_rs.Rmcp.V2_0.Payload.{PayloadType, Message, payload_type_of_u8, payload_type_code}
use ipmi_rs.Rmcp.V2_0.Crypto.Backend.{Backend}
use ipmi_rs.Rmcp.V2_0.Crypto.Keys.{
  CryptoUnwrapError, not_enough_data, mismatching_encryption_state,
  mismatching_authentication_state, incorrect_payload_len, ReadError, not_ipmi_v2_0, too_short,
  invalid_payload_type, decryption_error, WriteError,
}
use ipmi_rs.Rmcp.V2_0.Crypto.SubState.{
  SubState, encrypted, authenticated, write_trailer, validate_trailer, write_data_encrypted,
  read_data_encrypted,
}

abbrev pub bit_of : Bool → ℕ
bit_of true = 1
bit_of false = 0

abbrev pub flags_of : Bool → Bool → PayloadType → ℕ
flags_of enc auth ty = bit_or (bit_or (bit_of enc * 128) (bit_of auth * 64)) (payload_type_code ty)

abbrev pub differ : Bool → Bool → Bool
differ true b = not b
differ false b = b

-- The session's header in front of the payload.
abbrev pub headed : Bool → Bool → Message → List ℕ → List ℕ
headed enc auth m body =
    0x06
    ∷ flags_of enc auth m.ty
    ∷ (u32_le m.session_id ++ (u32_le m.session_sequence_number ++ body))

-- The bytes that `write_payload` appends to the RMCP header.
unfoldable pub write_payload :
    Backend → SubState → Option (List ℕ) → Message → Result WriteError (List ℕ)
write_payload b s iv m = do
  body ← write_data_encrypted b s iv m.payload
  write_trailer b s (headed (encrypted s) (authenticated s) m body)

abbrev pub word_at : List ℕ → ℕ → ℕ
word_at bytes i =
    let rest = drop i bytes in
    of_le4 (get_or rest 0 0) (get_or rest 1 0) (get_or rest 2 0) (get_or rest 3 0)

-- The payload behind the session's header and its own length.
unfoldable pub read_sized : Backend → SubState → List ℕ → Result CryptoUnwrapError (List ℕ)
read_sized b s framed = do
  reject_if (ltb (length framed) 10) not_enough_data
  let sized = drop 10 framed
  reject_if (ltb (length sized) 2) not_enough_data
  reject_if (of_le2 (get_or sized 0 0) (get_or sized 1 0) != length (drop 2 sized))
      incorrect_payload_len
  read_data_encrypted b s (drop 2 sized)

-- What the header's first two bytes must be; the result is the type of the payload.
unfoldable pub read_flags : SubState → ℕ → ℕ → Result ReadError PayloadType
read_flags s auth_type flags = do
  reject_if (auth_type != 0x06) not_ipmi_v2_0
  ty ← ok_or (invalid_payload_type (bit_and flags 0x3f)) (payload_type_of_u8 (bit_and flags 0x3f))
  reject_if (differ (encrypted s) (bit_and flags 0x80 == 0x80))
      (decryption_error mismatching_encryption_state)
  reject_if (differ (authenticated s) (bit_and flags 0x40 == 0x40))
      (decryption_error mismatching_authentication_state)
  ok ty

unfoldable pub read_payload : Backend → SubState → List ℕ → Result ReadError Message
read_payload b s bytes = do
  reject_if (ltb (length bytes) 10) too_short
  ty ← read_flags s (get_or bytes 0 0) (get_or bytes 1 0)
  framed ← map_err decryption_error (validate_trailer b s bytes)
  payload ← map_err decryption_error (read_sized b s framed)
  ok (record {
    ty = ty;
    session_id = word_at bytes 2;
    session_sequence_number = word_at bytes 6;
    payload = payload;
  })
