-- ===== src/Rmcp/V2_0/Activation/Authentic.antt =====
-- What an activation has checked when it succeeds: the managed system has shown that it knows the
-- password, and the keys are those of both.
use mathlib.Core.Path.{subst}
use ipmi_rs.Base.{ℕ, u32_le, refl, ◌≡◌, sym, ap, ◌∙◌, true, List, [], ◌∷◌, none, some, ok, take}
use ipmi_rs.Rmcp.V2_0.OpenSession.{OpenSessionResponse}
use ipmi_rs.Rmcp.V2_0.Agreement.{Agrees}
use ipmi_rs.Rmcp.V2_0.Rakp.{success, write_rakp_3, RakpMessage2, RakpMessage4}
use ipmi_rs.Rmcp.V2_0.Payload.{rakp_message_3}
use ipmi_rs.Rmcp.V2_0.Crypto.Backend.{HashAlgorithm, Backend}
use ipmi_rs.Rmcp.V2_0.Crypto.Keys.{derive}
use ipmi_rs.Rmcp.V2_0.Crypto.SubState.{authenticated, encrypted}
use ipmi_rs.Rmcp.V2_0.Crypto.State.{
  suite_hash, rakp_2_input, role_of, sik_input, rakp_4_input, kg_or, check_len,
}
use ipmi_rs.Rmcp.V2_0.Activation.Steps.{
  rakp_3_of, send_handshake, Socket, Parameters, Activated, open_request, rakp_1_of,
}
use ipmi_rs.Rmcp.V2_0.Activation.{activate}
use ipmi_rs.Rmcp.V2_0.Activation.Answers.{
  open_session-Agrees, Second, receive_rakp_2-Second, Fourth, receive_rakp_4-Fourth,
}
use ipmi_rs.Rmcp.V2_0.Handshake.{
  Answers1, Answers3, validate_rm1_rm2-Answers1, validate_rm3_rm4-Answers3,
}
use ipmi_rs.Rmcp.V2_0.Activation.Run.{send_rakp_3-some, Run, activate-Run, agree}

-- What holds of a session that was activated.
pub record IsAuthentic (b : Backend) (socket : Socket) (c : Parameters) (s : Activated)
    : Type 0 where
  pub response : OpenSessionResponse
  pub hash : HashAlgorithm
  pub rm2 : RakpMessage2
  pub rm4 : RakpMessage4
  pub sent_2 : List (List ℕ)
  pub sent_4 : List (List ℕ)
  pub sik : List ℕ
  pub integrity : List ℕ
  pub granted : Agrees (open_request c) response
  pub suite :
      suite_hash response.authentication_payload response.integrity_payload
        response.confidentiality_payload
      ≡ some hash
  pub second : Second b socket sent_2 rm2
  pub answers_1 : Answers1 c.console_session_id (rakp_1_of c response) second.payload
  pub knows_password :
      b.hmac hash c.password (rakp_2_input (rakp_1_of c response) rm2)
      ≡ ok rm2.key_exchange_auth_code
  pub root : b.hmac hash (kg_or c.kg c.password) (sik_input (rakp_1_of c response) rm2) ≡ ok sik
  pub keys : derive b hash sik ≡ ok s.state.state.keys
  pub fourth : Fourth b socket sent_4 rm4
  pub code : List ℕ
  pub shows_password :
      b.hmac hash c.password (
        rm2.managed_system_random_number
        ∷ u32_le rm2.remote_console_session_id
        ∷ role_of (rakp_1_of c response)
        ∷ (rakp_1_of c response).username
        ∷ [])
      ≡ ok code
  pub third : List ℕ
  pub sent_third :
      send_handshake b socket rakp_message_3 (write_rakp_3 (rakp_3_of response (success code)))
      ≡ ok third
  pub after : sent_4 ≡ third ∷ sent_2
  pub answers_3 :
      Answers3 response.remote_console_session_id (rakp_3_of response (success code)) fourth.payload
  pub knows_root :
      b.hmac hash sik
        (rakp_4_input c.random_number response.managed_system_session_id rm2.managed_system_guid)
      ≡ ok integrity
  pub proof_of_root : rm4.integrity_check_value ≡ take (check_len hash) integrity
  pub signs : authenticated s.state.state ≡ true
  pub encrypts : encrypted s.state.state ≡ true
  pub managed : s.session_id ≡ response.managed_system_session_id
  pub console : s.console_session_id ≡ c.console_session_id
  pub fresh : (s.session_sequence_number ≡ 1) × (s.last_inbound_sequence ≡ none)

Run-IsAuthentic :
    (b : Backend) (socket : Socket) (c : Parameters) (s : Activated)
    → Run b socket c s
    → IsAuthentic b socket c s
unfolding rakp_1_of
Run-IsAuthentic b socket c s r =
    let u = send_rakp_3-some b socket r.response r.agreed r.third r.sent in
    let managed : r.third.1.1.managed_system_session_id ≡ r.response.managed_system_session_id =
      ap (λ x. x.managed_system_session_id) u.2 in
    let a =
      agree b c r.response r.rm2 r.third.1.1.managed_system_session_id r.rm4.integrity_check_value
        u.0 r.third.1.0 (r.calculated ∙ ap ok u.1) r.verified in
    let sent_2 = r.packet_1 ∷ r.packet_0 ∷ [] in
    let sent_4 = r.third.0 ∷ sent_2 in
    let two = receive_rakp_2-Second b socket c sent_2 r.response r.rm2 r.second in
    let four = receive_rakp_4-Fourth b socket sent_4 r.response r.third.1.1 r.rm4 r.fourth in
    let console = r.response.remote_console_session_id in
    record {
      response = r.response;
      hash = a.hash;
      rm2 = r.rm2;
      rm4 = r.rm4;
      sent_2 = sent_2;
      sent_4 = sent_4;
      sik = a.sik;
      integrity = a.integrity;
      granted = open_session-Agrees b socket c (r.packet_0 ∷ []) r.response r.opened;
      suite = a.suite;
      second = two.0;
      answers_1 =
          validate_rm1_rm2-Answers1 c.console_session_id (rakp_1_of c r.response) two.0.payload
            r.rm2 two.0.parsed two.1;
      knows_password = a.knows_password;
      root = a.root;
      keys = a.keys ∙ ap (λ x. ok x.state.state.keys) r.is;
      fourth = four.0;
      code = u.0;
      shows_password = a.shown;
      third = r.third.0;
      sent_third = u.3;
      after = refl;
      answers_3 =
          subst (λ x. Answers3 console x four.0.payload) u.2
            (validate_rm3_rm4-Answers3 console r.third.1.1 four.0.payload r.rm4 four.0.parsed
              four.1);
      knows_root =
          ap (λ x. b.hmac a.hash a.sik (rakp_4_input c.random_number x r.rm2.managed_system_guid))
            (sym managed)
          ∙ a.knows_root;
      proof_of_root = a.proof_of_root;
      signs = ap (λ x. authenticated x.state.state) (sym r.is) ∙ a.signs;
      encrypts = ap (λ x. encrypted x.state.state) (sym r.is) ∙ a.encrypts;
      managed = ap (λ x. x.session_id) (sym r.is) ∙ managed;
      console = ap (λ x. x.console_session_id) (sym r.is);
      fresh = (
        ap (λ x. x.session_sequence_number) (sym r.is),
        ap (λ x. x.last_inbound_sequence) (sym r.is),
      );
    }

pub activate-IsAuthentic :
    (b : Backend) (socket : Socket) (c : Parameters) (s : Activated)
    → activate b socket c ≡ ok s
    → IsAuthentic b socket c s
activate-IsAuthentic b socket c s h = Run-IsAuthentic b socket c s (activate-Run b socket c s h)
