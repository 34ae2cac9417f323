-- ===== src/Rmcp/V2_0/Crypto/Authentic.antt =====
-- A packet is accepted only with the right tag, and the tag is checked before anything is decrypted.
use ipmi_rs.Base.{
  ℕ, ◌+◌, ◌-◌, ◌≤◌, ◌≡◌, sym, ap, ◌∙◌, true, false, not, ◌||◌, List, [], ◌∷◌, ◌++◌, some, Result,
  ok, err, map_err, ok_or, bind_ok, map_err-ok, ok_or-ok, reject_if-ok, bytes_eq, bytes_eq→eq, ◌!=◌,
  ltb, length, length-take, take, drop, get_or, take-append-drop, arith, ◌%◌,
}
use ipmi_rs.Rmcp.V2_0.Payload.{Message}
use ipmi_rs.Rmcp.V2_0.Crypto.Backend.{HashAlgorithm, Backend, CryptoBackendError}
use ipmi_rs.Rmcp.V2_0.Crypto.Keys.{
  CryptoUnwrapError, decryption_error, crypto_backend, auth_code_mismatch,
  incorrect_integrity_trailer_len, unsupported_integrity_algorithm, unknown_next_header, too_short,
}
use ipmi_rs.Rmcp.V2_0.Crypto.SubState.{
  SubState, authenticated, integrity_parameters, check_tag, strip_padding, validate_trailer,
}
use ipmi_rs.Rmcp.V2_0.Crypto.Packet.{read_payload, read_flags}

-- What the bytes of an accepted packet are: the session's header at least, with padding, and behind
-- them the tag of all that under the key K1.
pub record IsSigned (b : Backend) (s : SubState) (bytes : List ℕ) : Type 0 where
  pub hash : HashAlgorithm
  pub tag_len : ℕ
  pub signed : List ℕ
  pub checksum : List ℕ
  pub agreed : integrity_parameters s ≡ some (hash, tag_len)
  pub long : 14 ≤ length signed
  pub tagged : signed ++ take tag_len checksum ≡ bytes
  pub digest : b.hmac hash s.keys.k1 (signed ∷ []) ≡ ok checksum

check_tag-tagged :
    (b : Backend) (s : SubState) (hash : HashAlgorithm) (tag_len : ℕ) (bytes signed : List ℕ)
    → check_tag b s (hash, tag_len) bytes ≡ ok signed
    → (checksum : List ℕ) × (signed ++ take tag_len checksum ≡ bytes)
      × (b.hmac hash s.keys.k1 (signed ∷ []) ≡ ok checksum)
unfolding check_tag
check_tag-tagged b s hash tag_len bytes signed h =
    let n = length bytes - tag_len in
    let front = take n bytes in
    let r =
      reject_if-ok (ltb (length bytes) (tag_len + 2)) incorrect_integrity_trailer_len _ signed h in
    let c = bind_ok (map_err crypto_backend (b.hmac hash s.keys.k1 (front ∷ []))) _ signed r.1 in
    let q = map_err-ok crypto_backend (b.hmac hash s.keys.k1 (front ∷ [])) c.0 c.1.0 in
    let t =
      reject_if-ok (not (bytes_eq (drop n bytes) (take tag_len c.0))) auth_code_mismatch _ signed
        c.1.1 in
    let e : bytes_eq (drop n bytes) (take tag_len c.0) ≡ true = ground (arith, t.0) in
    let d = bytes_eq→eq (drop n bytes) (take tag_len c.0) e in
    let i : front ≡ signed = cc in
    (
      c.0,
      ap (λ x. x ++ take tag_len c.0) (sym i)
          ∙ (ap (λ x. front ++ x) (sym d) ∙ take-append-drop n bytes),
      ap (λ x. b.hmac hash s.keys.k1 (x ∷ [])) (sym i) ∙ q,
    )

strip_padding_long : (signed frame : List ℕ) → strip_padding signed ≡ ok frame → 14 ≤ length signed
unfolding strip_padding
strip_padding_long signed frame h =
    let body = take (length signed - 2) signed in
    let pad_len = get_or signed (length signed - 2) 0 in
    let next_header = get_or signed (length signed - 1) 0 in
    let r = reject_if-ok (ltb (length signed) 2) incorrect_integrity_trailer_len _ frame h in
    let n = reject_if-ok (next_header != 7) (unknown_next_header next_header) _ frame r.1 in
    let k =
      reject_if-ok
        (ltb (length body) 12
          || (ltb 3 pad_len || (ltb (length body - 12) pad_len || (length body + 2) % 4 != 0)))
        incorrect_integrity_trailer_len _ frame n.1 in
    let f : ltb (length body) 12 ≡ false = ground (arith, k.0) in
    ground (arith, f, length-take (length signed - 2) signed)

validate_trailer-IsSigned :
    (b : Backend) (s : SubState) (bytes frame : List ℕ)
    → authenticated s ≡ true
    → validate_trailer b s bytes ≡ ok frame
    → IsSigned b s bytes
unfolding validate_trailer
validate_trailer-IsSigned b s bytes frame a h =
    let h' = rw a at h in
    let p =
      bind_ok
        (ok_or (unsupported_integrity_algorithm s.integrity_algorithm) (integrity_parameters s)) _
        frame h' in
    let c = bind_ok (check_tag b s p.0 bytes) _ frame p.1.1 in
    let t = check_tag-tagged b s p.0.0 p.0.1 bytes c.0 c.1.0 in
    record {
      hash = p.0.0;
      tag_len = p.0.1;
      signed = c.0;
      checksum = t.0;
      agreed =
          ok_or-ok (unsupported_integrity_algorithm s.integrity_algorithm) (integrity_parameters s)
            p.0 p.1.0;
      long = strip_padding_long c.0 frame c.1.1;
      tagged = t.1;
      digest = t.2;
    }

-- Where the state has an algorithm of integrity, a packet is accepted only if its bytes are a signed
-- part of at least 14 bytes, which the session's header is in, and behind it the front of that part's
-- digest under the key K1, as long as the algorithm has it.
pub read_payload-IsSigned :
    (b : Backend) (s : SubState) (bytes : List ℕ) (m : Message)
    → authenticated s ≡ true
    → read_payload b s bytes ≡ ok m
    → IsSigned b s bytes
unfolding read_payload
read_payload-IsSigned b s bytes m a h =
    let r = reject_if-ok (ltb (length bytes) 10) too_short _ m h in
    let f = bind_ok (read_flags s (get_or bytes 0 0) (get_or bytes 1 0)) _ m r.1 in
    let v = bind_ok (map_err decryption_error (validate_trailer b s bytes)) _ m f.1.1 in
    validate_trailer-IsSigned b s bytes v.0 a
      (map_err-ok decryption_error (validate_trailer b s bytes) v.0 v.1.0)

-- The backend with another cipher.
abbrev pub with_cipher :
    (List ℕ → List ℕ → List ℕ → Result CryptoBackendError (List ℕ)) → Backend → Backend
with_cipher cipher b = record b { cbc_decrypt = cipher }

-- What is read of a packet that does not pass the check of its trailer does not depend on how a
-- ciphertext is decrypted.
pub read_payload_unsigned :
    (b : Backend) (s : SubState) (bytes : List ℕ) (e : CryptoUnwrapError)
    (cipher : List ℕ → List ℕ → List ℕ → Result CryptoBackendError (List ℕ))
    → validate_trailer b s bytes ≡ err e
    → read_payload (with_cipher cipher b) s bytes ≡ read_payload b s bytes
unfolding read_payload validate_trailer check_tag
read_payload_unsigned b s bytes e cipher h = rw h
