-- ===== src/Rmcp/V2_0/Crypto/State.antt =====
-- The handshake's codes and the keys they leave: v2_0/crypto/state.rs.
use ipmi_rs.Base.{
  ℕ, Bool, true, false, ◌&&◌, not, List, [], ◌∷◌, Option, none, some, Result, ok, ◌>>=◌, ◌!=◌, ◌==◌,
  if◌then◌else◌, bytes_eq, length, take, u32_le,
}
use ipmi_rs.Rmcp.V2_0.Algorithms.{
  AuthenticationAlgorithm, rakp_hmac_sha1, rakp_hmac_sha256, ConfidentialityAlgorithm, aes_cbc128,
  IntegrityAlgorithm, hmac_sha1_96, hmac_sha256_128, privilege_code,
}
use ipmi_rs.Rmcp.V2_0.OpenSession.{OpenSessionResponse}
use ipmi_rs.Rmcp.V2_0.Rakp.{RakpMessage1, RakpMessage2}
use ipmi_rs.Rmcp.V2_0.Crypto.Backend.{
  HashAlgorithm, sha1, sha256, digest_len, CryptoBackendError, Backend,
}
use ipmi_rs.Rmcp.V2_0.Crypto.Keys.{Keys, derive}
use ipmi_rs.Rmcp.V2_0.Crypto.SubState.{SubState, empty_state}

pub record CryptoState : Type 0 where
  pub password : List ℕ
  pub kg : Option (List ℕ)
  pub state : SubState

unfoldable pub new : Option (List ℕ) → List ℕ → CryptoState
new kg password = record { password = password; kg = kg; state = empty_state }

-- The digest of a handshake, for the three algorithms that go together.
abbrev pub suite_hash :
    AuthenticationAlgorithm → IntegrityAlgorithm → ConfidentialityAlgorithm → Option HashAlgorithm
suite_hash rakp_hmac_sha1 hmac_sha1_96 aes_cbc128 = some sha1
suite_hash rakp_hmac_sha256 hmac_sha256_128 aes_cbc128 = some sha256
suite_hash _ _ _ = none

abbrev pub role_of : RakpMessage1 → List ℕ
role_of m1 = privilege_code m1.requested_maximum_privilege_level ∷ length m1.username ∷ []

-- What the second message's code is a digest of.
abbrev pub rakp_2_input : RakpMessage1 → RakpMessage2 → List (List ℕ)
rakp_2_input m1 m2 =
    u32_le m2.remote_console_session_id
    ∷ u32_le m1.managed_system_session_id
    ∷ m1.remote_console_random_number
    ∷ m2.managed_system_random_number
    ∷ m2.managed_system_guid
    ∷ role_of m1
    ∷ m1.username
    ∷ []

-- What the session's integrity key is a digest of.
abbrev pub sik_input : RakpMessage1 → RakpMessage2 → List (List ℕ)
sik_input m1 m2 =
    m1.remote_console_random_number
    ∷ m2.managed_system_random_number
    ∷ role_of m1
    ∷ m1.username
    ∷ []

-- What the third message's code is a digest of.
abbrev pub rakp_3_input : RakpMessage1 → RakpMessage2 → List (List ℕ)
rakp_3_input m1 m2 =
    m2.managed_system_random_number
    ∷ u32_le m2.remote_console_session_id
    ∷ role_of m1
    ∷ m1.username
    ∷ []

abbrev pub kg_or : Option (List ℕ) → List ℕ → List ℕ
kg_or none password = password
kg_or (some kg) password = kg

-- `zeroize` leaves an empty vector.
abbrev zeroized : Option (List ℕ) → Option (List ℕ)
zeroized none = none
zeroized (some kg) = some []

abbrev pub configured : Keys → OpenSessionResponse → CryptoState → CryptoState
configured keys osr s = record {
  password = [];
  kg = zeroized s.kg;
  state = record {
    keys = keys;
    confidentiality_algorithm = osr.confidentiality_payload;
    integrity_algorithm = osr.integrity_payload;
  };
}

-- The keys and the third message's code, where the second one's code was right.
unfoldable pub agree_keys :
    Backend
    → CryptoState
    → HashAlgorithm
    → OpenSessionResponse
    → RakpMessage1
    → RakpMessage2
    → Result CryptoBackendError (Option (CryptoState × List ℕ))
agree_keys b s hash osr m1 m2 = do
  sik ← b.hmac hash (kg_or s.kg s.password) (sik_input m1 m2)
  output ← b.hmac hash s.password (rakp_3_input m1 m2)
  keys ← derive b hash sik
  ok (some (configured keys osr s, output))

abbrev pub is_code : HashAlgorithm → List ℕ → List ℕ → Bool
is_code hash code expected = length code == digest_len hash && bytes_eq code expected

-- The state changes only where a code is returned.
unfoldable pub calculate_with :
    Backend
    → CryptoState
    → Option HashAlgorithm
    → OpenSessionResponse
    → RakpMessage1
    → RakpMessage2
    → Result CryptoBackendError (Option (CryptoState × List ℕ))
calculate_with b s none osr m1 m2 = ok none
calculate_with b s (some hash) osr m1 m2 = do
  expected ← b.hmac hash s.password (rakp_2_input m1 m2)
  if is_code hash m2.key_exchange_auth_code expected then agree_keys b s hash osr m1 m2 else ok none

unfoldable pub calculate_rakp3_data :
    Backend
    → CryptoState
    → OpenSessionResponse
    → RakpMessage1
    → RakpMessage2
    → Result CryptoBackendError (Option (CryptoState × List ℕ))
calculate_rakp3_data b s osr m1 m2 =
    calculate_with b s
      (suite_hash osr.authentication_payload osr.integrity_payload osr.confidentiality_payload) osr
      m1 m2

abbrev pub rakp_hash : AuthenticationAlgorithm → Option HashAlgorithm
rakp_hash rakp_hmac_sha1 = some sha1
rakp_hash rakp_hmac_sha256 = some sha256
rakp_hash _ = none

abbrev pub same_hash : HashAlgorithm → HashAlgorithm → Bool
same_hash sha1 sha1 = true
same_hash sha256 sha256 = true
same_hash _ _ = false

abbrev pub check_len : HashAlgorithm → ℕ
check_len sha1 = 12
check_len sha256 = 16

-- What the fourth message's code is the front of a digest of.
abbrev pub rakp_4_input : List ℕ → ℕ → List ℕ → List (List ℕ)
rakp_4_input random managed guid = random ∷ u32_le managed ∷ guid ∷ []

abbrev pub has_key : Keys → HashAlgorithm → Bool
has_key keys hash = same_hash hash keys.hash && length keys.sik != 0

unfoldable pub verify_with :
    Backend
    → Keys
    → Option HashAlgorithm
    → List ℕ
    → ℕ
    → List ℕ
    → List ℕ
    → Result CryptoBackendError Bool
verify_with b keys none random managed guid code = ok false
verify_with b keys (some hash) random managed guid code =
    if not (has_key keys hash) then ok false else do
      integrity ← b.hmac hash keys.sik (rakp_4_input random managed guid)
      ok (length code == check_len hash && bytes_eq code (take (check_len hash) integrity))

unfoldable pub verify :
    Backend
    → CryptoState
    → AuthenticationAlgorithm
    → List ℕ
    → ℕ
    → List ℕ
    → List ℕ
    → Result CryptoBackendError Bool
verify b s algorithm random managed guid code =
    verify_with b s.state.keys (rakp_hash algorithm) random managed guid code
