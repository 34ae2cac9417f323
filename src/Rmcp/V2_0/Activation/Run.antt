-- ===== src/Rmcp/V2_0/Activation/Run.antt =====
-- The steps of an activation that succeeds, and what its codes say of the keys.
use ipmi_rs.Base.{
  ℕ, ◌≡◌, refl, sym, ap, ◌∙◌, Bool, true, false, not, List, [], ◌∷◌, Option, none, some, Result, ok,
  map_err, bind_ok, ok_cancel, map_err-ok, reject_if-ok, take, arith,
}
use ipmi_rs.Rmcp.V2_0.OpenSession.{write_request, OpenSessionResponse}
use ipmi_rs.Rmcp.V2_0.Rakp.{
  write_rakp_3, success, failure, invalid_integrity, RakpMessage2, RakpMessage3, RakpMessage4,
  write_rakp_1,
}
use ipmi_rs.Rmcp.V2_0.Payload.{open_session_request, rakp_message_1, rakp_message_3}
use ipmi_rs.Rmcp.V2_0.Crypto.Backend.{HashAlgorithm, Backend, CryptoBackendError}
use ipmi_rs.Rmcp.V2_0.Crypto.Keys.{derive}
use ipmi_rs.Rmcp.V2_0.Crypto.SubState.{authenticated, encrypted}
use ipmi_rs.Rmcp.V2_0.Crypto.State.{
  CryptoState, new, suite_hash, rakp_2_input, rakp_3_input, sik_input, rakp_4_input, kg_or,
  calculate_rakp3_data, check_len, verify_with, verify,
}
use ipmi_rs.Rmcp.V2_0.Activation.Steps.{
  crypto_backend, rakp_3_of, send_handshake, Socket, Parameters, Activated, open_request, rakp_1_of,
  open_session, receive_rakp_2, send_rakp_3, receive_rakp_4, activated,
}
use ipmi_rs.Rmcp.V2_0.Activation.{activate}
use ipmi_rs.Rmcp.V2_0.Activation.Answers.{
  calculate_with-Keyed, suite_hash-parts, verify_with-digest, derive-sik,
}

accepted : (v : Bool) → not v ≡ false → v ≡ true
accepted v h = ground (arith, h)

-- The third message goes out with a code only where keys were agreed.
pub send_rakp_3-some :
    (b : Backend) (socket : Socket) (response : OpenSessionResponse)
    (agreed : Option (CryptoState × List ℕ)) (third : List ℕ × (CryptoState × RakpMessage3))
    → send_rakp_3 b socket response agreed ≡ ok third
    → (output : List ℕ) × (agreed ≡ some (third.1.0, output))
      × (third.1.1 ≡ rakp_3_of response (success output))
      × (send_handshake b socket rakp_message_3 (write_rakp_3 (rakp_3_of response (success output)))
          ≡ ok third.0)
unfolding send_rakp_3
send_rakp_3-some b socket response none third h =
    let p =
      bind_ok
        (send_handshake b socket rakp_message_3
          (write_rakp_3 (rakp_3_of response (failure invalid_integrity))))
        _ third h in
    absurd (cc (p.1.1))
send_rakp_3-some b socket response (some (state, output)) third h =
    let p =
      bind_ok
        (send_handshake b socket rakp_message_3
          (write_rakp_3 (rakp_3_of response (success output))))
        _ third h in
    let e : (p.0, (state, rakp_3_of response (success output))) ≡ third = cc in
    (output, ap (λ t. some (t.1.0, output)) e, ap (λ t. t.1.1) (sym e), p.1.0 ∙ ap (λ t. ok t.0) e)

-- The values of the steps.
pub record Run (b : Backend) (socket : Socket) (c : Parameters) (s : Activated) : Type 0 where
  pub packet_0 : List ℕ
  pub packet_1 : List ℕ
  pub response : OpenSessionResponse
  pub rm2 : RakpMessage2
  pub agreed : Option (CryptoState × List ℕ)
  pub third : List ℕ × (CryptoState × RakpMessage3)
  pub rm4 : RakpMessage4
  pub opened : open_session b socket c (packet_0 ∷ []) ≡ ok response
  pub second : receive_rakp_2 b socket c (packet_1 ∷ packet_0 ∷ []) response ≡ ok rm2
  pub calculated :
      calculate_rakp3_data b (new c.kg c.password) response (rakp_1_of c response) rm2 ≡ ok agreed
  pub sent : send_rakp_3 b socket response agreed ≡ ok third
  pub fourth :
      receive_rakp_4 b socket (third.0 ∷ packet_1 ∷ packet_0 ∷ []) response third.1.1 ≡ ok rm4
  pub verified :
      verify b third.1.0 response.authentication_payload
        (rakp_1_of c response).remote_console_random_number
        third.1.1.managed_system_session_id
        rm2.managed_system_guid
        rm4.integrity_check_value
      ≡ ok true
  pub is : activated c third.1.1 third.1.0 ≡ s

pub activate-Run :
    (b : Backend) (socket : Socket) (c : Parameters) (s : Activated)
    → activate b socket c ≡ ok s
    → Run b socket c s
unfolding activate
activate-Run b socket c s h =
    let p0 =
      bind_ok (send_handshake b socket open_session_request (write_request (open_request c))) _ s
        h in
    let o = bind_ok (open_session b socket c (p0.0 ∷ [])) _ s p0.1.1 in
    let p1 =
      bind_ok (send_handshake b socket rakp_message_1 (write_rakp_1 (rakp_1_of c o.0))) _ s o.1.1 in
    let r2 = bind_ok (receive_rakp_2 b socket c (p1.0 ∷ p0.0 ∷ []) o.0) _ s p1.1.1 in
    let k =
      bind_ok
        (map_err crypto_backend
          (calculate_rakp3_data b (new c.kg c.password) o.0 (rakp_1_of c o.0) r2.0))
        _ s r2.1.1 in
    let t = bind_ok (send_rakp_3 b socket o.0 k.0) _ s k.1.1 in
    let r4 = bind_ok (receive_rakp_4 b socket (t.0.0 ∷ p1.0 ∷ p0.0 ∷ []) o.0 t.0.1.1) _ s t.1.1 in
    let v = bind_ok (map_err crypto_backend _) _ s r4.1.1 in
    let w = reject_if-ok (not v.0) _ _ s v.1.1 in
    record {
      packet_0 = p0.0;
      packet_1 = p1.0;
      response = o.0;
      rm2 = r2.0;
      agreed = k.0;
      third = t.0;
      rm4 = r4.0;
      opened = o.1.0;
      second = r2.1.0;
      calculated = map_err-ok crypto_backend _ k.0 k.1.0;
      sent = t.1.0;
      fourth = r4.1.0;
      verified = map_err-ok crypto_backend _ v.0 v.1.0 ∙ ap ok (accepted v.0 w.0);
      is = ok_cancel refl w.1;
    }

-- What the codes say of the keys.
pub record Agreed (b : Backend) (c : Parameters) (response : OpenSessionResponse)
    (rm2 : RakpMessage2) (managed : ℕ) (code output : List ℕ) (t : CryptoState) : Type 0 where
  pub hash : HashAlgorithm
  pub sik : List ℕ
  pub integrity : List ℕ
  pub suite :
      suite_hash response.authentication_payload response.integrity_payload
        response.confidentiality_payload
      ≡ some hash
  pub knows_password :
      b.hmac hash c.password (rakp_2_input (rakp_1_of c response) rm2)
      ≡ ok rm2.key_exchange_auth_code
  pub root : b.hmac hash (kg_or c.kg c.password) (sik_input (rakp_1_of c response) rm2) ≡ ok sik
  pub shown : b.hmac hash c.password (rakp_3_input (rakp_1_of c response) rm2) ≡ ok output
  pub keys : derive b hash sik ≡ ok t.state.keys
  pub knows_root :
      b.hmac hash sik (rakp_4_input c.random_number managed rm2.managed_system_guid) ≡ ok integrity
  pub proof_of_root : code ≡ take (check_len hash) integrity
  pub signs : authenticated t.state ≡ true
  pub encrypts : encrypted t.state ≡ true

pub agree :
    (b : Backend) (c : Parameters) (response : OpenSessionResponse) (rm2 : RakpMessage2)
    (managed : ℕ) (code output : List ℕ) (t : CryptoState)
    → calculate_rakp3_data b (new c.kg c.password) response (rakp_1_of c response) rm2
      ≡ ok (some (t, output))
    → verify b t response.authentication_payload c.random_number managed rm2.managed_system_guid
        code
      ≡ ok true
    → Agreed b c response rm2 managed code output t
unfolding calculate_rakp3_data verify new
agree b c response rm2 managed code output t h v =
    let algorithms =
      suite_hash response.authentication_payload response.integrity_payload
        response.confidentiality_payload in
    let keyed =
      calculate_with-Keyed b (new c.kg c.password) t algorithms response (rakp_1_of c response) rm2
        output refl h in
    let parts =
      suite_hash-parts response.authentication_payload response.integrity_payload
        response.confidentiality_payload keyed.hash keyed.suite in
    let check : Option HashAlgorithm → Result CryptoBackendError Bool =
      λ x. verify_with b t.state.keys x c.random_number managed rm2.managed_system_guid code in
    let digest =
      verify_with-digest b t.state.keys keyed.hash c.random_number managed rm2.managed_system_guid
        code (ap check (sym parts.0) ∙ v) in
    let same : t.state.keys.sik ≡ keyed.sik =
      ap (λ x. x.state.keys.sik) (sym keyed.next)
      ∙ derive-sik b keyed.hash keyed.sik keyed.keys keyed.derived in
    record {
      hash = keyed.hash;
      sik = keyed.sik;
      integrity = digest.0;
      suite = keyed.suite;
      knows_password = keyed.code;
      root = keyed.root;
      shown = keyed.shown;
      keys = keyed.derived ∙ ap ok (ap (λ x. x.state.keys) keyed.next);
      knows_root =
          ap
            (λ x.
              b.hmac keyed.hash x (rakp_4_input c.random_number managed rm2.managed_system_guid))
            (sym same)
          ∙ digest.1;
      proof_of_root = digest.2;
      signs = ap (λ x. authenticated x.state) (sym keyed.next) ∙ parts.1;
      encrypts = ap (λ x. encrypted x.state) (sym keyed.next) ∙ parts.2;
    }
