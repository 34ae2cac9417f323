-- ===== src/Rmcp/V2_0/Session/Signed.antt =====
-- What a session accepts is signed.
use ipmi_rs.Base.{
  ℕ, ◌≡◌, inl, inr, refl, sym, ap, ◌∙◌, true, List, ◌∷◌, ok, map_err, bind_ok, reject_if-ok,
  ok_cancel, Result-cases, ltb, length, get_or,
}
use ipmi_rs.Rmcp.V2_0.Payload.{Message}
use ipmi_rs.Rmcp.V2_0.Crypto.Backend.{Backend}
use ipmi_rs.Rmcp.V2_0.Crypto.Keys.{decryption_error, too_short}
use ipmi_rs.Rmcp.V2_0.Crypto.SubState.{SubState, authenticated, validate_trailer}
use ipmi_rs.Rmcp.V2_0.Crypto.Packet.{read_payload, read_flags, read_sized, word_at}
use ipmi_rs.Rmcp.V2_0.Crypto.Authentic.{IsSigned, read_payload-IsSigned}
use ipmi_rs.Rmcp.V2_0.Session.{Session, Sending}
use ipmi_rs.Rmcp.V2_0.Session.Receive.{receive_one}
use ipmi_rs.Rmcp.V2_0.Session.Replay.{not_longer, on_message-Source}

-- Where a number that was accepted is from.
pub record Source (b : Backend) (s : Session) (bytes : List ℕ) (number : ℕ) : Type 0 where
  pub signed : IsSigned b s.state bytes
  pub session : word_at bytes 2 ≡ s.console_session_id
  pub sequence : word_at bytes 6 ≡ number

-- The header's fields of a message are those of the bytes.
read_payload-fields :
    (b : Backend) (s : SubState) (bytes : List ℕ) (m : Message)
    → read_payload b s bytes ≡ ok m
    → (m.session_id ≡ word_at bytes 2) × (m.session_sequence_number ≡ word_at bytes 6)
unfolding read_payload
read_payload-fields b s bytes m h =
    let r = reject_if-ok (ltb (length bytes) 10) too_short _ m h in
    let f = bind_ok (read_flags s (get_or bytes 0 0) (get_or bytes 1 0)) _ m r.1 in
    let v = bind_ok (map_err decryption_error (validate_trailer b s bytes)) _ m f.1.1 in
    let p = bind_ok (map_err decryption_error (read_sized b s v.0)) _ m v.1.1 in
    let made : Message = record {
      ty = f.0;
      session_id = word_at bytes 2;
      session_sequence_number = word_at bytes 6;
      payload = p.0;
    } in
    let e : made ≡ m = ok_cancel refl p.1.1 in
    (ap (λ x. x.session_id) (sym e), ap (λ x. x.session_sequence_number) (sym e))

-- In a session with an algorithm of integrity, a datagram adds a number to those accepted only if it is
-- signed under the session's key, and its header has the console's session and that number.
pub receive_one-Source :
    (b : Backend) (s : Session) (seen : List ℕ) (io : Sending) (bytes : List ℕ) (number : ℕ)
    → authenticated s.state ≡ true
    → (receive_one b s seen io bytes).seen ≡ number ∷ seen
    → Source b s bytes number
unfolding receive_one
receive_one-Source b s seen io bytes number a h =
    elim (Result-cases (read_payload b s.state bytes)) [
      | inr (x, e) ↦ absurd (not_longer seen number (rw (e, receive_one) at h))
      | inl (m, e) ↦
          let f = read_payload-fields b s.state bytes m e in
          let k = on_message-Source b s seen io m number (rw (e, receive_one) at h) in
          record {
            signed = read_payload-IsSigned b s.state bytes m a e;
            session = sym f.0 ∙ k.0;
            sequence = sym f.1 ∙ k.1;
          }
    ]
