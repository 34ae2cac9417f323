-- ===== src/Rmcp/V2_0/Activation/Answers.antt =====
-- What each step of an activation has checked when it succeeds.
use mathlib.Core.Path.{subst}
use ipmi_rs.Base.{
  ℕ, ◌≡◌, sym, ap, ◌∙◌, true, ◌&&◌, List, [], ◌∷◌, Option, none, some, ok, ◌==◌, map_err, bind_ok,
  map_err-ok, reject_if-ok, bytes_eq, bytes_eq→eq, ◌!=◌, length, take, inl, inr, Bool-cases,
  replicate, arith,
}
use ipmi_rs.Rmcp.V2_0.Algorithms.{
  AuthenticationAlgorithm, IntegrityAlgorithm, ConfidentialityAlgorithm,
}
use ipmi_rs.Rmcp.V2_0.OpenSession.{OpenSessionResponse, from_data, validate_open_session}
use ipmi_rs.Rmcp.V2_0.Agreement.{Agrees, validate_open_session-Agrees}
use ipmi_rs.Rmcp.V2_0.Rakp.{
  RakpMessage1, RakpMessage2, RakpMessage3, RakpMessage4, parse_rakp_2, parse_rakp_4,
  validate_rm1_rm2, validate_rm3_rm4, validate_rakp4_mac_len,
}
use ipmi_rs.Rmcp.V2_0.Payload.{open_session_response, rakp_message_2, rakp_message_4}
use ipmi_rs.Rmcp.V2_0.Crypto.Backend.{HashAlgorithm, Backend}
use ipmi_rs.Rmcp.V2_0.Crypto.Keys.{Keys, derive}
use ipmi_rs.Rmcp.V2_0.Crypto.SubState.{is_signing, is_encrypting}
use ipmi_rs.Rmcp.V2_0.Crypto.State.{
  CryptoState, suite_hash, rakp_2_input, sik_input, rakp_3_input, rakp_4_input, kg_or, configured,
  agree_keys, is_code, calculate_with, rakp_hash, check_len, verify_with, has_key,
}
use ipmi_rs.Rmcp.V2_0.Activation.Steps.{
  open_session_response_parse, open_session_response_validate, rakp_message_2_parse,
  rakp_message_2_validate, rakp_message_4_parse, rakp_message_4_validate,
  required_kex_auth_code_len, Socket, Parameters, open_request, receive_handshake, rakp_1_of,
  open_session, receive_rakp_2, receive_rakp_4,
}

-- The keys that stand behind a code of the second message.
pub record Keyed (b : Backend) (s t : CryptoState) (osr : OpenSessionResponse) (m1 : RakpMessage1)
    (m2 : RakpMessage2) (output : List ℕ) : Type 0 where
  pub hash : HashAlgorithm
  pub sik : List ℕ
  pub keys : Keys
  pub suite :
      suite_hash osr.authentication_payload osr.integrity_payload osr.confidentiality_payload
      ≡ some hash
  pub code : b.hmac hash s.password (rakp_2_input m1 m2) ≡ ok m2.key_exchange_auth_code
  pub root : b.hmac hash (kg_or s.kg s.password) (sik_input m1 m2) ≡ ok sik
  pub shown : b.hmac hash s.password (rakp_3_input m1 m2) ≡ ok output
  pub derived : derive b hash sik ≡ ok keys
  pub next : configured keys osr s ≡ t

pub calculate_with-Keyed :
    (b : Backend) (s t : CryptoState) (h : Option HashAlgorithm) (osr : OpenSessionResponse)
    (m1 : RakpMessage1) (m2 : RakpMessage2) (output : List ℕ)
    → suite_hash osr.authentication_payload osr.integrity_payload osr.confidentiality_payload ≡ h
    → calculate_with b s h osr m1 m2 ≡ ok (some (t, output))
    → Keyed b s t osr m1 m2 output
unfolding calculate_with agree_keys
calculate_with-Keyed b s t none osr m1 m2 output e w = absurd cc
calculate_with-Keyed b s t (some hash) osr m1 m2 output e w =
    let x = bind_ok (b.hmac hash s.password (rakp_2_input m1 m2)) _ (some (t, output)) w in
    elim (Bool-cases (is_code hash m2.key_exchange_auth_code x.0)) [
      | inr wrong ↦ let y = rw wrong at x.1.1 in absurd (cc)
      | inl right ↦
          let y = rw right at x.1.1 in
          let sik =
            bind_ok (b.hmac hash (kg_or s.kg s.password) (sik_input m1 m2)) _ (some (t, output))
              y in
          let out =
            bind_ok (b.hmac hash s.password (rakp_3_input m1 m2)) _ (some (t, output)) sik.1.1 in
          let keys = bind_ok (derive b hash sik.0) _ (some (t, output)) out.1.1 in
          let same : bytes_eq m2.key_exchange_auth_code x.0 ≡ true = ground (arith, right) in
          record {
            hash = hash;
            sik = sik.0;
            keys = keys.0;
            suite = e;
            code = x.1.0 ∙ ap ok (sym (bytes_eq→eq m2.key_exchange_auth_code x.0 same));
            root = sik.1.0;
            shown = out.1.0 ∙ (let e : ok out.0 ≡ ok output = cc in e);
            derived = keys.1.0;
            next = cc;
          }
    ]

pub suite_hash-parts :
    (a : AuthenticationAlgorithm) (i : IntegrityAlgorithm) (c : ConfidentialityAlgorithm)
    (hash : HashAlgorithm)
    → suite_hash a i c ≡ some hash
    → (rakp_hash a ≡ some hash) × (is_signing i ≡ true) × (is_encrypting c ≡ true)
suite_hash-parts a i c hash h = ground (arith, h)

-- A code that is verified is the front of its digest under the session's key.
pub verify_with-digest :
    (b : Backend) (keys : Keys) (hash : HashAlgorithm) (random : List ℕ) (managed : ℕ)
    (guid code : List ℕ)
    → verify_with b keys (some hash) random managed guid code ≡ ok true
    → (integrity : List ℕ) × (b.hmac hash keys.sik (rakp_4_input random managed guid)
        ≡ ok integrity)
      × (code ≡ take (check_len hash) integrity)
unfolding verify_with
verify_with-digest b keys hash random managed guid code h = elim (Bool-cases (has_key keys hash)) [
  | inr lacks ↦ let y = rw lacks at h in absurd (cc)
  | inl has ↦
      let y = rw has at h in
      let x = bind_ok (b.hmac hash keys.sik (rakp_4_input random managed guid)) _ true y in
      let front = take (check_len hash) x.0 in
      let t : (length code == check_len hash && bytes_eq code front) ≡ true = cc in
      (x.0, x.1.0, bytes_eq→eq code front (ground (arith, t)))
]

pub derive-sik :
    (b : Backend) (hash : HashAlgorithm) (sik : List ℕ) (keys : Keys)
    → derive b hash sik ≡ ok keys
    → keys.sik ≡ sik
unfolding derive
derive-sik b hash sik keys h =
    let k1 = bind_ok (b.hmac hash sik (replicate 20 1 ∷ [])) _ keys h in
    let k2 = bind_ok (b.hmac hash sik (replicate 20 2 ∷ [])) _ keys k1.1.1 in
    let k3 = bind_ok (b.hmac hash sik (replicate 20 3 ∷ [])) _ keys k2.1.1 in
    let made : Keys = record {
      sik = sik;
      k1 = k1.0;
      k2 = k2.0;
      aes_key = take 16 k2.0;
      k3 = k3.0;
      hash = hash;
    } in
    let e : made ≡ keys = cc in ap (λ k. k.sik) (sym e)

pub open_session-Agrees :
    (b : Backend) (socket : Socket) (c : Parameters) (sent : List (List ℕ))
    (response : OpenSessionResponse)
    → open_session b socket c sent ≡ ok response
    → Agrees (open_request c) response
unfolding open_session
open_session-Agrees b socket c sent response h =
    let p = bind_ok (receive_handshake b socket sent open_session_response) _ response h in
    let r = bind_ok (map_err open_session_response_parse (from_data p.0)) _ response p.1.1 in
    let v =
      bind_ok (map_err open_session_response_validate (validate_open_session (open_request c) r.0))
        _ response r.1.1 in
    let e : r.0 ≡ response = cc in
    let w =
      map_err-ok open_session_response_validate (validate_open_session (open_request c) r.0) tt
        v.1.0 in
    subst (Agrees (open_request c)) e (validate_open_session-Agrees (open_request c) r.0 w)

-- Where a second message is from: the bytes that the socket received.
pub record Second (b : Backend) (socket : Socket) (sent : List (List ℕ)) (rm2 : RakpMessage2)
    : Type 0 where
  pub payload : List ℕ
  pub received : receive_handshake b socket sent rakp_message_2 ≡ ok payload
  pub parsed : parse_rakp_2 payload ≡ ok rm2

pub receive_rakp_2-Second :
    (b : Backend) (socket : Socket) (c : Parameters) (sent : List (List ℕ))
    (response : OpenSessionResponse) (rm2 : RakpMessage2)
    → receive_rakp_2 b socket c sent response ≡ ok rm2
    → Second b socket sent rm2
      × (validate_rm1_rm2 c.console_session_id (rakp_1_of c response) rm2 ≡ ok tt)
unfolding receive_rakp_2
receive_rakp_2-Second b socket c sent response rm2 h =
    let p = bind_ok (receive_handshake b socket sent rakp_message_2) _ rm2 h in
    let r = bind_ok (map_err rakp_message_2_parse (parse_rakp_2 p.0)) _ rm2 p.1.1 in
    let check = validate_rm1_rm2 c.console_session_id (rakp_1_of c response) r.0 in
    let v = bind_ok (map_err rakp_message_2_validate check) _ rm2 r.1.1 in
    let w = map_err-ok rakp_message_2_validate check tt v.1.0 in
    let l =
      reject_if-ok
        (length r.0.key_exchange_auth_code
          != required_kex_auth_code_len response.authentication_payload)
        _ _ rm2 v.1.1 in
    let e : r.0 ≡ rm2 = cc in
    let q = map_err-ok rakp_message_2_parse (parse_rakp_2 p.0) r.0 r.1.0 in
    (
      record { payload = p.0; received = p.1.0; parsed = q ∙ ap ok e },
      ap (validate_rm1_rm2 c.console_session_id (rakp_1_of c response)) (sym e) ∙ w,
    )

pub record Fourth (b : Backend) (socket : Socket) (sent : List (List ℕ)) (rm4 : RakpMessage4)
    : Type 0 where
  pub payload : List ℕ
  pub received : receive_handshake b socket sent rakp_message_4 ≡ ok payload
  pub parsed : parse_rakp_4 payload ≡ ok rm4

pub receive_rakp_4-Fourth :
    (b : Backend) (socket : Socket) (sent : List (List ℕ)) (response : OpenSessionResponse)
    (rm3 : RakpMessage3) (rm4 : RakpMessage4)
    → receive_rakp_4 b socket sent response rm3 ≡ ok rm4
    → Fourth b socket sent rm4
      × (validate_rm3_rm4 response.remote_console_session_id rm3 rm4 ≡ ok tt)
unfolding receive_rakp_4
receive_rakp_4-Fourth b socket sent response rm3 rm4 h =
    let p = bind_ok (receive_handshake b socket sent rakp_message_4) _ rm4 h in
    let r = bind_ok (map_err rakp_message_4_parse (parse_rakp_4 p.0)) _ rm4 p.1.1 in
    let v =
      bind_ok
        (map_err rakp_message_4_validate
          (validate_rm3_rm4 response.remote_console_session_id rm3 r.0))
        _ rm4 r.1.1 in
    let l =
      bind_ok
        (map_err _ (
          validate_rakp4_mac_len response.authentication_payload
            (length r.0.integrity_check_value)))
        _ rm4 v.1.1 in
    let e : r.0 ≡ rm4 = cc in
    let q = map_err-ok rakp_message_4_parse (parse_rakp_4 p.0) r.0 r.1.0 in
    let check = validate_rm3_rm4 response.remote_console_session_id rm3 r.0 in
    (
      record { payload = p.0; received = p.1.0; parsed = q ∙ ap ok e },
      ap (validate_rm3_rm4 response.remote_console_session_id rm3) (sym e)
          ∙ map_err-ok rakp_message_4_validate check tt v.1.0,
    )
