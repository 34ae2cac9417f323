-- ===== src/Rmcp/V2_0/Crypto/SubState.antt =====
-- The two trailers of a packet: v2_0/crypto/sub_state.rs. A packet starts behind the RMCP header.
use ipmi_rs.Base.{
  ℕ, zero, suc, ◌+◌, ◌-◌, ◌%◌, Bool, true, false, not, ◌||◌, List, [], ◌∷◌, ◌++◌, Option, none,
  some, Result, ok, err, ◌>>=◌, ◌>>◌, reject_if, ok_or, map_err, ◌==◌, ◌!=◌, ltb, if◌then◌else◌,
  bytes_eq, length, get_or, take, drop, replicate, u16_le,
}
use ipmi_rs.Rmcp.V2_0.Algorithms.{
  ConfidentialityAlgorithm, no_confidentiality, aes_cbc128, xrc4_128, xrc4_40, IntegrityAlgorithm,
  no_integrity, hmac_sha1_96, hmac_sha256_128,
}
use ipmi_rs.Rmcp.V2_0.Crypto.Keys.{
  CryptoUnwrapError, not_enough_data, incorrect_confidentiality_trailer_len,
  invalid_confidentiality_trailer, auth_code_mismatch, incorrect_integrity_trailer_len,
  invalid_integrity_padding, invalid_ciphertext, unknown_next_header,
  unsupported_integrity_algorithm, unsupported_confidentiality_algorithm, crypto_backend,
  WriteError, random, payload_too_long, encrypted_payload_too_long, cannot_sign, cannot_encrypt,
  backend_failed, Keys, empty_keys,
}
use ipmi_rs.Rmcp.V2_0.Crypto.Backend.{HashAlgorithm, sha1, sha256, Backend, encrypt, decrypt}

pub record SubState : Type 0 where
  pub keys : Keys
  pub confidentiality_algorithm : ConfidentialityAlgorithm
  pub integrity_algorithm : IntegrityAlgorithm

abbrev pub empty_state : SubState
empty_state = record {
  keys = empty_keys;
  confidentiality_algorithm = no_confidentiality;
  integrity_algorithm = no_integrity;
}

abbrev pub is_encrypting : ConfidentialityAlgorithm → Bool
is_encrypting no_confidentiality = false
is_encrypting _ = true

abbrev pub is_signing : IntegrityAlgorithm → Bool
is_signing no_integrity = false
is_signing _ = true

abbrev pub encrypted : SubState → Bool
encrypted s = is_encrypting s.confidentiality_algorithm

abbrev pub authenticated : SubState → Bool
authenticated s = is_signing s.integrity_algorithm

abbrev pub parameters_of : IntegrityAlgorithm → HashAlgorithm → Option (HashAlgorithm × ℕ)
parameters_of hmac_sha1_96 sha1 = some (sha1, 12)
parameters_of hmac_sha256_128 sha256 = some (sha256, 16)
parameters_of _ _ = none

abbrev pub integrity_parameters : SubState → Option (HashAlgorithm × ℕ)
integrity_parameters s = parameters_of s.integrity_algorithm s.keys.hash

abbrev pub pad_length : ℕ → ℕ
pad_length len = (4 - (len + 2) % 4) % 4

-- The frame with its integrity pad, the pad's length and the next header.
abbrev pub padded : List ℕ → List ℕ
padded frame =
    (frame ++ replicate (pad_length (length frame)) 0xff) ++ (pad_length (length frame) ∷ 0x07 ∷ [])

unfoldable pub sign : Backend → SubState → HashAlgorithm × ℕ → List ℕ → Result WriteError (List ℕ)
sign b s parameters signed = do
  tag ← map_err backend_failed (b.hmac parameters.0 s.keys.k1 (signed ∷ []))
  ok (signed ++ take parameters.1 tag)

-- The frame, with the trailer where the packets are authenticated.
unfoldable pub write_trailer : Backend → SubState → List ℕ → Result WriteError (List ℕ)
write_trailer b s frame = if not (authenticated s) then ok frame else do
  parameters ← ok_or (cannot_sign s.integrity_algorithm) (integrity_parameters s)
  sign b s parameters (padded frame)

abbrev pub all_ff : List ℕ → Bool
all_ff [] = true
all_ff (x ∷ xs) = if x == 0xff then all_ff xs else false

-- What is signed, where the tag behind it is right.
unfoldable pub check_tag :
    Backend → SubState → HashAlgorithm × ℕ → List ℕ → Result CryptoUnwrapError (List ℕ)
check_tag b s parameters bytes = do
  let tag_len = parameters.1
  reject_if (ltb (length bytes) (tag_len + 2)) incorrect_integrity_trailer_len
  let signed = take (length bytes - tag_len) bytes
  checksum ← map_err crypto_backend (b.hmac parameters.0 s.keys.k1 (signed ∷ []))
  reject_if (not (bytes_eq (drop (length bytes - tag_len) bytes) (take tag_len checksum)))
      auth_code_mismatch
  ok signed

-- What is in front of the integrity pad, of its length and of the next header.
unfoldable pub strip_padding : List ℕ → Result CryptoUnwrapError (List ℕ)
strip_padding signed = do
  reject_if (ltb (length signed) 2) incorrect_integrity_trailer_len
  let body = take (length signed - 2) signed
  let pad_len = get_or signed (length signed - 2) 0
  let next_header = get_or signed (length signed - 1) 0
  reject_if (next_header != 0x07) (unknown_next_header next_header)
  reject_if
      (ltb (length body) 12
        || (ltb 3 pad_len || (ltb (length body - 12) pad_len || (length body + 2) % 4 != 0)))
      incorrect_integrity_trailer_len
  reject_if (not (all_ff (drop (length body - pad_len) body))) invalid_integrity_padding
  ok (take (length body - pad_len) body)

unfoldable pub validate_trailer : Backend → SubState → List ℕ → Result CryptoUnwrapError (List ℕ)
validate_trailer b s bytes = if not (authenticated s) then ok bytes else do
  parameters ←
      ok_or (unsupported_integrity_algorithm s.integrity_algorithm) (integrity_parameters s)
  signed ← check_tag b s parameters bytes
  strip_padding signed

-- `(from..).take(n)`.
abbrev pub count_from : ℕ → ℕ → List ℕ
count_from from zero = []
count_from from (suc n) = from ∷ count_from (suc from) n

abbrev pub non_pad_len : ℕ → ℕ
non_pad_len data_len = data_len + 1 + 16

abbrev pub confidentiality_pad_len : ℕ → ℕ
confidentiality_pad_len data_len = (16 - non_pad_len data_len % 16) % 16

-- The payload with the confidentiality trailer.
abbrev pub plaintext : List ℕ → List ℕ
plaintext payload =
    let pad_len = confidentiality_pad_len (length payload) in
    (payload ++ count_from 1 pad_len) ++ (pad_len ∷ [])

abbrev pub u16_max : ℕ
u16_max = 65535

-- `iv` is what the generator of random bytes gives.
unfoldable pub write_aes :
    Backend → SubState → Option (List ℕ) → List ℕ → Result WriteError (List ℕ)
write_aes b s iv payload = do
  iv' ← ok_or random iv
  let padded_len = non_pad_len (length payload) + confidentiality_pad_len (length payload)
  reject_if (ltb u16_max padded_len) encrypted_payload_too_long
  text ← map_err backend_failed (encrypt b s.keys.aes_key iv' (plaintext payload))
  ok (u16_le padded_len ++ (iv' ++ text))

-- The bytes that `write_data_encrypted` appends to its buffer.
unfoldable pub write_data_encrypted :
    Backend → SubState → Option (List ℕ) → List ℕ → Result WriteError (List ℕ)
write_data_encrypted b s iv payload = do
  reject_if (ltb u16_max (length payload)) payload_too_long
  elim s.confidentiality_algorithm [
    | no_confidentiality ↦ ok (u16_le (length payload) ++ payload)
    | aes_cbc128 ↦ write_aes b s iv payload
    | xrc4_128 ↦ err (cannot_encrypt xrc4_128)
    | xrc4_40 ↦ err (cannot_encrypt xrc4_40)
  ]

abbrev pub counts_from : ℕ → List ℕ → Bool
counts_from from [] = true
counts_from from (x ∷ xs) = if x == from then counts_from (suc from) xs else false

-- The payload in front of its confidentiality trailer.
unfoldable pub strip_confidentiality : List ℕ → Result CryptoUnwrapError (List ℕ)
strip_confidentiality plain = do
  reject_if (length plain == 0) incorrect_confidentiality_trailer_len
  let pad_len = get_or plain (length plain - 1) 0
  let body = take (length plain - 1) plain
  let pad = drop (length body - pad_len) body
  reject_if (length pad != pad_len) incorrect_confidentiality_trailer_len
  reject_if (not (counts_from 1 pad)) invalid_confidentiality_trailer
  ok (take (length body - pad_len) body)

unfoldable pub read_aes : Backend → SubState → List ℕ → Result CryptoUnwrapError (List ℕ)
read_aes b s bytes = do
  reject_if (ltb (length bytes) 16) not_enough_data
  let text = drop 16 bytes
  reject_if (length text == 0 || length text % 16 != 0) invalid_ciphertext
  plain ← map_err crypto_backend (decrypt b s.keys.aes_key (take 16 bytes) text)
  strip_confidentiality plain

unfoldable pub read_data_encrypted : Backend → SubState → List ℕ → Result CryptoUnwrapError (List ℕ)
read_data_encrypted b s bytes = elim s.confidentiality_algorithm [
  | no_confidentiality ↦ ok bytes
  | aes_cbc128 ↦ read_aes b s bytes
  | xrc4_128 ↦ err (unsupported_confidentiality_algorithm xrc4_128)
  | xrc4_40 ↦ err (unsupported_confidentiality_algorithm xrc4_40)
]
