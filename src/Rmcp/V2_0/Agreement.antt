-- ===== src/Rmcp/V2_0/Agreement.antt =====
-- What is accepted is what was asked for, and an answer is read as it was meant.
use ipmi_rs.Base.{
  ℕ, ◌≡◌, ◌≢◌, not, ◌&&◌, bytes_eq, false, List, [], ◌∷◌, ◌++◌, Option, some, ok, reject_if-ok,
  ◌==◌, ◌!=◌, bit_and, u32_le, of_le4-u32_le, IsU32, arith,
}
use ipmi_rs.Rmcp.CipherPolicy.{id17, into_suite}
use ipmi_rs.Rmcp.V2_0.Algorithms.{
  authentication_code, integrity_code, confidentiality_code, PrivilegeLevel, privilege_code,
  privilege_of_u8, authentication_of_u8, integrity_of_u8, confidentiality_of_u8,
  AuthenticationAlgorithm, IntegrityAlgorithm, ConfidentialityAlgorithm,
}
use ipmi_rs.Rmcp.V2_0.OpenSession.{
  AlgorithmPayload, authentication, integrity, confidentiality, write, payload_from_data,
  payload_at, OpenSessionRequest, OpenSessionResponse, from_data, validate_open_session, requested,
  negotiated, other_level, message_tag_mismatch, remote_console_session_id_mismatch,
  privilege_level_mismatch, negotiated_cipher_suite_mismatch, authentication_algorithm_mismatch,
  integrity_algorithm_mismatch, confidentiality_algorithm_mismatch,
}

-- What a request has in common with the answer that is accepted.
pub record Agrees (req : OpenSessionRequest) (resp : OpenSessionResponse) : Type 0 where
  pub tag : resp.message_tag ≡ req.message_tag
  pub session : resp.remote_console_session_id ≡ req.remote_console_session_id
  pub privilege :
      (level : PrivilegeLevel)
      → req.requested_max_privilege ≡ some level
      → resp.maximum_privilege_level ≡ level
  pub authenticated : resp.authentication_payload ≡ req.authentication_algorithms
  pub integral : resp.integrity_payload ≡ req.integrity_algorithms
  pub confidential : resp.confidentiality_payload ≡ req.confidentiality_algorithms

authentication_code-eq :
    (a b : AuthenticationAlgorithm)
    → (authentication_code a != authentication_code b) ≡ false
    → a ≡ b
authentication_code-eq a b h = ground arith

integrity_code-eq :
    (a b : IntegrityAlgorithm) → (integrity_code a != integrity_code b) ≡ false → a ≡ b
integrity_code-eq a b h = ground arith

confidentiality_code-eq :
    (a b : ConfidentialityAlgorithm)
    → (confidentiality_code a != confidentiality_code b) ≡ false
    → a ≡ b
confidentiality_code-eq a b h = ground arith

granted :
    (asked : Option PrivilegeLevel) (given level : PrivilegeLevel)
    → asked ≡ some level
    → other_level asked given ≡ false
    → given ≡ level
granted asked given level e h = ground (arith, e, h)

-- An answer is accepted only if it has the tag, the session, the privilege level where one was asked
-- for, and each of the three algorithms of the request.
pub validate_open_session-Agrees :
    (req : OpenSessionRequest) (resp : OpenSessionResponse)
    → validate_open_session req resp ≡ ok tt
    → Agrees req resp
unfolding validate_open_session
validate_open_session-Agrees req resp h =
    let h1 = reject_if-ok (resp.message_tag != req.message_tag) message_tag_mismatch _ tt h in
    let h2 =
      reject_if-ok (resp.remote_console_session_id != req.remote_console_session_id)
        remote_console_session_id_mismatch _ tt h1.1 in
    let h3 =
      reject_if-ok (other_level req.requested_max_privilege resp.maximum_privilege_level)
        privilege_level_mismatch _ tt h2.1 in
    let h4 =
      reject_if-ok
        (bytes_eq (requested req) (into_suite id17)
          && not (bytes_eq (negotiated resp) (requested req)))
        (negotiated_cipher_suite_mismatch id17 (negotiated resp)) _ tt h3.1 in
    let h5 =
      reject_if-ok
        (authentication_code resp.authentication_payload
          != authentication_code req.authentication_algorithms)
        (authentication_algorithm_mismatch resp.authentication_payload) _ tt h4.1 in
    let h6 =
      reject_if-ok
        (integrity_code resp.integrity_payload != integrity_code req.integrity_algorithms)
        (integrity_algorithm_mismatch resp.integrity_payload) _ tt h5.1 in
    let h7 =
      reject_if-ok
        (confidentiality_code resp.confidentiality_payload
          != confidentiality_code req.confidentiality_algorithms)
        (confidentiality_algorithm_mismatch resp.confidentiality_payload) (ok tt) tt h6.1 in
    record {
      tag = ground (arith, h1.0);
      session = ground (arith, h2.0);
      privilege =
          λ level e. granted req.requested_max_privilege resp.maximum_privilege_level level e h3.0;
      authenticated =
          authentication_code-eq resp.authentication_payload req.authentication_algorithms h5.0;
      integral = integrity_code-eq resp.integrity_payload req.integrity_algorithms h6.0;
      confidential =
          confidentiality_code-eq resp.confidentiality_payload req.confidentiality_algorithms h7.0;
    }

payload_from_data-write : (p : AlgorithmPayload) → payload_from_data (write false p) ≡ ok p
unfolding payload_from_data write authentication_of_u8 integrity_of_u8 confidentiality_of_u8
payload_from_data-write (authentication a) = ground arith
payload_from_data-write (integrity a) = ground arith
payload_from_data-write (confidentiality a) = ground arith

-- The answer as the specification lays it out.
unfoldable pub encode_response : OpenSessionResponse → List ℕ
encode_response r =
    (r.message_tag ∷ 0 ∷ privilege_code r.maximum_privilege_level ∷ 0 ∷ [])
    ++ (u32_le r.remote_console_session_id
        ++ (u32_le r.managed_system_session_id
            ++ (write false (authentication r.authentication_payload)
                ++ (write false (integrity r.integrity_payload)
                    ++ write false (confidentiality r.confidentiality_payload)))))

privilege-read :
    (l : PrivilegeLevel)
    → (privilege_of_u8 (privilege_code l) ≡ some l)
      × ((bit_and (privilege_code l) 0xf0 != 0) ≡ false)
unfolding privilege_of_u8
privilege-read l = (ground arith, ground arith)

-- An answer with two sessions that are not zero is read as it was laid out.
pub from_data-encode_response :
    (r : OpenSessionResponse)
    → IsU32 r.remote_console_session_id
    → IsU32 r.managed_system_session_id
    → r.remote_console_session_id ≢ 0
    → r.managed_system_session_id ≢ 0
    → from_data (encode_response r) ≡ ok r
unfolding from_data encode_response payload_at write
from_data-encode_response r hc hm nc nm =
    let p = privilege-read r.maximum_privilege_level in
    let c = of_le4-u32_le r.remote_console_session_id hc in
    let m = of_le4-u32_le r.managed_system_session_id hm in
    let zc : (r.remote_console_session_id == 0) ≡ false = ground (arith, nc) in
    let zm : (r.managed_system_session_id == 0) ≡ false = ground (arith, nm) in
    let a = payload_from_data-write (authentication r.authentication_payload) in
    let i = payload_from_data-write (integrity r.integrity_payload) in
    let k = payload_from_data-write (confidentiality r.confidentiality_payload) in
    rw (p.1, p.0, c, m, zc, zm, a, i, k)
