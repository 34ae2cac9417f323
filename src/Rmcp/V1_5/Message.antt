-- ===== src/Rmcp/V1_5/Message.antt =====
-- The message of a session: v1_5/message.rs, with the errors of v1_5/mod.rs.
use ipmi_rs.Base.{
  ℕ, suc, Bool, true, false, not, ◌&&◌, ◌||◌, List, [], ◌∷◌, ◌++◌, Option, none, some, Result, ok,
  err, ◌>>=◌, ◌>>◌, reject_if, ◌==◌, ltb, if◌then◌else◌, take, drop, get_or, length, u32_le, of_le4,
}
use ipmi_rs.Rmcp.V1_5.Auth.{
  AuthType, auth_none, md2_auth, md5_auth, key, auth_type_code, WriteError, payload_too_large,
  calculate, verify,
}

pub data ReadError : Type 0 where
  not_enough_data incorrect_payload_len authcode_error : ReadError
  unsupported_auth_type : ℕ → ReadError

pub record Message : Type 0 where
  pub auth_type : AuthType
  pub session_sequence_number : ℕ
  pub session_id : ℕ
  pub payload : List ℕ

abbrev pub code_bytes : Option (List ℕ) → List ℕ
code_bytes none = []
code_bytes (some auth_code) = auth_code

-- The bytes that `write_data` appends to its buffer.
unfoldable pub write_data :
    Option (List ℕ → List ℕ) → Message → Option (List ℕ) → Result WriteError (List ℕ)
write_data md5_digest m password = do
  auth_code ←
      calculate md5_digest m.auth_type password m.session_id m.session_sequence_number m.payload
  reject_if (ltb 255 (length m.payload)) (payload_too_large (length m.payload))
  ok (
      auth_type_code m.auth_type
      ∷ (u32_le m.session_sequence_number
          ++ (u32_le m.session_id
              ++ (code_bytes auth_code ++ (length m.payload ∷ (m.payload ++ (0 ∷ [])))))))

-- `data.last() == Some(&0)`.
abbrev pub ends_in_zero : List ℕ → Bool
ends_in_zero [] = false
ends_in_zero (x ∷ []) = x == 0
ends_in_zero (x ∷ y ∷ ys) = ends_in_zero (y ∷ ys)

-- The payload behind its length, with the padding byte or without.
unfoldable pub read_payload : ℕ → List ℕ → Result ReadError (List ℕ)
read_payload data_len bytes =
    if data_len == 0 && (length bytes == 0 || length bytes == 1)
    then ok []
    else if length bytes == data_len
    then ok bytes
    else if length bytes == suc data_len && ends_in_zero bytes
    then ok (take data_len bytes)
    else err incorrect_payload_len

abbrev pub with_code : ℕ → Result ReadError AuthType
with_code v =
    if v == 1
    then ok md2_auth
    else if v == 2
    then ok md5_auth
    else if v == 4
    then ok key
    else err (unsupported_auth_type v)

-- The type, the code that the message carries, and what is behind it.
unfoldable pub read_auth : List ℕ → Result ReadError (AuthType × (Option (List ℕ) × List ℕ))
read_auth bytes = if get_or bytes 0 0 == 0 then ok (auth_none, (none, drop 9 bytes)) else do
  reject_if (ltb (length bytes) 26) not_enough_data
  auth_type ← with_code (get_or bytes 0 0)
  ok (auth_type, (some (take 16 (drop 9 bytes)), drop 25 bytes))

abbrev pub code_agrees :
    Option (List ℕ → List ℕ) → Option (List ℕ) → Option (List ℕ) → Message → Bool
code_agrees md5_digest password none m = true
code_agrees md5_digest password (some auth_code) m =
    verify md5_digest m.auth_type auth_code password m.session_id m.session_sequence_number
      m.payload

-- From the type on, with the two header fields read.
unfoldable pub read_body :
    Option (List ℕ → List ℕ) → Option (List ℕ) → List ℕ → ℕ → ℕ → Result ReadError Message
read_body md5_digest password bytes session_sequence session_id = do
  parts ← read_auth bytes
  payload ← read_payload (get_or parts.1.1 0 0) (drop 1 parts.1.1)
  let m : Message = record {
    auth_type = parts.0;
    session_sequence_number = session_sequence;
    session_id = session_id;
    payload = payload;
  }
  reject_if (not (code_agrees md5_digest password parts.1.0 m)) authcode_error
  ok m

unfoldable pub from_data :
    Option (List ℕ → List ℕ) → Option (List ℕ) → List ℕ → Result ReadError Message
from_data md5_digest password bytes =
    if ltb (length bytes) 10
    then err not_enough_data
    else read_body md5_digest password bytes
        (of_le4 (get_or bytes 1 0) (get_or bytes 2 0) (get_or bytes 3 0) (get_or bytes 4 0))
        (of_le4 (get_or bytes 5 0) (get_or bytes 6 0) (get_or bytes 7 0) (get_or bytes 8 0))
