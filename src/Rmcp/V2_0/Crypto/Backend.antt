-- ===== src/Rmcp/V2_0/Crypto/Backend.antt =====
-- The cryptographic provider of a session: v2_0/crypto/provider.rs. The digests and the block cipher
-- are those of other crates.
use ipmi_rs.Base.{ℕ, ◌%◌, ◌≡◌, ◌||◌, List, Result, ok, err, ◌==◌, ◌!=◌, if◌then◌else◌, length}

pub data HashAlgorithm : Type 0 where
  sha1 sha256 : HashAlgorithm

abbrev pub digest_len : HashAlgorithm → ℕ
digest_len sha1 = 20
digest_len sha256 = 32

pub data CryptoBackendError : Type 0 where
  unavailable operation_failed : CryptoBackendError

-- What the other crates do: a keyed digest of a message in parts, and a cipher in blocks of 16 bytes
-- under a key and an initialization vector.
pub record Backend : Type 0 where
  pub hmac : HashAlgorithm → List ℕ → List (List ℕ) → Result CryptoBackendError (List ℕ)
  pub cbc_encrypt : List ℕ → List ℕ → List ℕ → Result CryptoBackendError (List ℕ)
  pub cbc_decrypt : List ℕ → List ℕ → List ℕ → Result CryptoBackendError (List ℕ)

unfoldable pub encrypt : Backend → List ℕ → List ℕ → List ℕ → Result CryptoBackendError (List ℕ)
encrypt b aes_key iv bytes =
    if length bytes == 0 || length bytes % 16 != 0
    then err operation_failed
    else b.cbc_encrypt aes_key iv bytes

unfoldable pub decrypt : Backend → List ℕ → List ℕ → List ℕ → Result CryptoBackendError (List ℕ)
decrypt b aes_key iv bytes =
    if length bytes == 0 || length bytes % 16 != 0
    then err operation_failed
    else b.cbc_decrypt aes_key iv bytes

-- What those crates document: the size of a digest, and that a text is decrypted to what was
-- encrypted, in place.
pub record IsBackend (b : Backend) : Type 0 where
  pub digest :
      (hash : HashAlgorithm) (secret : List ℕ) (parts : List (List ℕ)) (d : List ℕ)
      → b.hmac hash secret parts ≡ ok d
      → length d ≡ digest_len hash
  pub in_place :
      (aes_key iv plain text : List ℕ)
      → b.cbc_encrypt aes_key iv plain ≡ ok text
      → length text ≡ length plain
  pub inverse :
      (aes_key iv plain text : List ℕ)
      → b.cbc_encrypt aes_key iv plain ≡ ok text
      → b.cbc_decrypt aes_key iv text ≡ ok plain
