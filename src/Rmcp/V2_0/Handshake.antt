-- ===== src/Rmcp/V2_0/Handshake.antt =====
-- The answers of the handshake: what is accepted of them.
use ipmi_rs.Base.{
  ℕ, ◌≤◌, ◌≡◌, ◌≢◌, sym, ap, ◌∙◌, false, List, ok, reject_if-ok, ◌==◌, ◌!=◌, ltb, length, get_or,
  take, drop, arith,
}
use ipmi_rs.Rmcp.V2_0.OpenSession.{word_at}
use ipmi_rs.Rmcp.V2_0.Rakp.{
  RakpMessage1, RakpMessage2, RakpMessage3, RakpMessage4, parse_rakp_2, parse_rakp_4,
  not_enough_data, too_short, invalid_remote_console_session_id, zero_managed_system_session_id,
  rakp_2_error, rakp_4_error, validate_rm1_rm2, validate_rm3_rm4,
}

not_other : (a b : ℕ) → (a != b) ≡ false → a ≡ b
not_other a b h = ground (arith, h)

not_below : (a b : ℕ) → ltb a b ≡ false → b ≤ a
not_below a b h = ground (arith, h)

not_zero : (a : ℕ) → (a == 0) ≡ false → a ≢ 0
not_zero a h e = ground (arith, h, e)

-- What equals the one side of a comparison equals the other.
equal : (a x b : ℕ) → x ≡ b → (a != b) ≡ false → x ≡ a
equal a x b e h = e ∙ sym (not_other a b h)

-- What the bytes of an accepted second message are, for the first one and the console's session.
pub record Answers1 (console : ℕ) (rm1 : RakpMessage1) (bytes : List ℕ) : Type 0 where
  pub long : 40 ≤ length bytes
  pub status : get_or bytes 1 0 ≡ 0
  pub tag : get_or bytes 0 0 ≡ rm1.message_tag
  pub session : word_at bytes 4 ≡ console
  pub live : console ≢ 0

-- A second message is accepted only if its bytes have no error status, the tag of the first one and the
-- console's session, which is not zero.
pub validate_rm1_rm2-Answers1 :
    (console : ℕ) (rm1 : RakpMessage1) (bytes : List ℕ) (rm2 : RakpMessage2)
    → parse_rakp_2 bytes ≡ ok rm2
    → validate_rm1_rm2 console rm1 rm2 ≡ ok tt
    → Answers1 console rm1 bytes
unfolding parse_rakp_2 validate_rm1_rm2
validate_rm1_rm2-Answers1 console rm1 bytes rm2 h v =
    let h1 = reject_if-ok (ltb (length bytes) 4) not_enough_data _ rm2 h in
    let h2 = reject_if-ok (get_or bytes 1 0 != 0) (rakp_2_error (get_or bytes 1 0)) _ rm2 h1.1 in
    let h3 = reject_if-ok (ltb (length bytes) 40) not_enough_data _ rm2 h2.1 in
    let h4 = reject_if-ok (word_at bytes 4 == 0) invalid_remote_console_session_id _ rm2 h3.1 in
    let v1 = reject_if-ok (rm1.message_tag != rm2.message_tag) _ _ tt v in
    let v2 = reject_if-ok (console != rm2.remote_console_session_id) _ _ tt v1.1 in
    let made : RakpMessage2 = record {
      message_tag = get_or bytes 0 0;
      remote_console_session_id = word_at bytes 4;
      managed_system_random_number = take 16 (drop 8 bytes);
      managed_system_guid = take 16 (drop 24 bytes);
      key_exchange_auth_code = drop 40 bytes;
    } in
    let e : made ≡ rm2 = cc in
    let t : get_or bytes 0 0 ≡ rm2.message_tag = ap (λ m. m.message_tag) e in
    let i : word_at bytes 4 ≡ rm2.remote_console_session_id =
      ap (λ m. m.remote_console_session_id) e in
    let session : word_at bytes 4 ≡ console =
      equal console (word_at bytes 4) rm2.remote_console_session_id i v2.0 in
    record {
      long = not_below (length bytes) 40 h3.0;
      status = not_other (get_or bytes 1 0) 0 h2.0;
      tag = equal rm1.message_tag (get_or bytes 0 0) rm2.message_tag t v1.0;
      session = session;
      live = λ z. not_zero (word_at bytes 4) h4.0 (session ∙ z);
    }

-- What the bytes of an accepted fourth message are, for the third one and the console's session.
pub record Answers3 (console : ℕ) (rm3 : RakpMessage3) (bytes : List ℕ) : Type 0 where
  pub long : 8 ≤ length bytes
  pub status : get_or bytes 1 0 ≡ 0
  pub tag : get_or bytes 0 0 ≡ rm3.message_tag
  pub session : word_at bytes 4 ≡ console
  pub live : console ≢ 0

-- A fourth message is accepted only if its bytes have no error status, the tag of the third one and the
-- console's session, which is not zero.
pub validate_rm3_rm4-Answers3 :
    (console : ℕ) (rm3 : RakpMessage3) (bytes : List ℕ) (rm4 : RakpMessage4)
    → parse_rakp_4 bytes ≡ ok rm4
    → validate_rm3_rm4 console rm3 rm4 ≡ ok tt
    → Answers3 console rm3 bytes
unfolding parse_rakp_4 validate_rm3_rm4
validate_rm3_rm4-Answers3 console rm3 bytes rm4 h v =
    let h1 = reject_if-ok (ltb (length bytes) 4) too_short _ rm4 h in
    let h2 = reject_if-ok (get_or bytes 1 0 != 0) (rakp_4_error (get_or bytes 1 0)) _ rm4 h1.1 in
    let h3 = reject_if-ok (ltb (length bytes) 8) too_short _ rm4 h2.1 in
    let h4 = reject_if-ok (word_at bytes 4 == 0) zero_managed_system_session_id _ rm4 h3.1 in
    let v1 = reject_if-ok (rm3.message_tag != rm4.message_tag) _ _ tt v in
    let v2 = reject_if-ok (rm4.managed_system_session_id != console) _ _ tt v1.1 in
    let made : RakpMessage4 = record {
      message_tag = get_or bytes 0 0;
      managed_system_session_id = word_at bytes 4;
      integrity_check_value = drop 8 bytes;
    } in
    let e : made ≡ rm4 = cc in
    let t : get_or bytes 0 0 ≡ rm4.message_tag = ap (λ m. m.message_tag) e in
    let i : word_at bytes 4 ≡ rm4.managed_system_session_id =
      ap (λ m. m.managed_system_session_id) e in
    let session : word_at bytes 4 ≡ console =
      i ∙ not_other rm4.managed_system_session_id console v2.0 in
    record {
      long = not_below (length bytes) 8 h3.0;
      status = not_other (get_or bytes 1 0) 0 h2.0;
      tag = equal rm3.message_tag (get_or bytes 0 0) rm4.message_tag t v1.0;
      session = session;
      live = λ z. not_zero (word_at bytes 4) h4.0 (session ∙ z);
    }
