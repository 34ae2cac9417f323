-- ===== src/Rmcp/V2_0/Crypto/Keys.antt =====
-- The keys of a session and the errors of its packets: v2_0/crypto/keys.rs and mod.rs, with those of
-- v2_0/mod.rs.
use ipmi_rs.Base.{ℕ, List, [], ◌∷◌, Result, ok, ◌>>=◌, take, replicate}
use ipmi_rs.Rmcp.V2_0.Algorithms.{ConfidentialityAlgorithm, IntegrityAlgorithm}
use ipmi_rs.Rmcp.V2_0.Crypto.Backend.{HashAlgorithm, sha1, CryptoBackendError, Backend}

pub data CryptoUnwrapError : Type 0 where
  not_enough_data mismatching_encryption_state mismatching_authentication_state : CryptoUnwrapError
  incorrect_payload_len incorrect_confidentiality_trailer_len : CryptoUnwrapError
  invalid_confidentiality_trailer auth_code_mismatch : CryptoUnwrapError
  incorrect_integrity_trailer_len invalid_integrity_padding invalid_ciphertext : CryptoUnwrapError
  unknown_next_header : ℕ → CryptoUnwrapError
  unsupported_integrity_algorithm : IntegrityAlgorithm → CryptoUnwrapError
  unsupported_confidentiality_algorithm : ConfidentialityAlgorithm → CryptoUnwrapError
  crypto_backend : CryptoBackendError → CryptoUnwrapError

pub data ReadError : Type 0 where
  not_ipmi_v2_0 too_short not_rmcp_plus : ReadError
  invalid_payload_type : ℕ → ReadError
  decryption_error : CryptoUnwrapError → ReadError

-- The errors of the framing; those of the socket are not among them.
pub data WriteError : Type 0 where
  random payload_too_long encrypted_payload_too_long : WriteError
  cannot_sign : IntegrityAlgorithm → WriteError
  cannot_encrypt : ConfidentialityAlgorithm → WriteError
  backend_failed : CryptoBackendError → WriteError

pub record Keys : Type 0 where
  pub sik : List ℕ
  pub k1 : List ℕ
  pub k2 : List ℕ
  pub aes_key : List ℕ
  pub k3 : List ℕ
  pub hash : HashAlgorithm

abbrev pub empty_keys : Keys
empty_keys = record { sik = []; k1 = []; k2 = []; aes_key = replicate 16 0; k3 = []; hash = sha1 }

unfoldable pub derive : Backend → HashAlgorithm → List ℕ → Result CryptoBackendError Keys
derive b hash sik = do
  k1 ← b.hmac hash sik (replicate 20 1 ∷ [])
  k2 ← b.hmac hash sik (replicate 20 2 ∷ [])
  k3 ← b.hmac hash sik (replicate 20 3 ∷ [])
  ok (record { sik = sik; k1 = k1; k2 = k2; aes_key = take 16 k2; k3 = k3; hash = hash })
