-- ===== src/Rmcp/V2_0/Crypto/Confidentiality.antt =====
-- The payload that is written, encrypted or not, is read back.
use ipmi_rs.Base.{
  ℕ, zero, suc, ◌+◌, ◌-◌, ◌%◌, ◌≤◌, ◌≡◌, refl, sym, ap, ◌∙◌, true, false, List, [], ◌∷◌, ◌++◌, some,
  ok, err, map_err, bind_ok, map_err-ok, reject_if-ok, ◌==◌, ◌||◌, ◌!=◌, ltb, length, length-append,
  take_front, drop_front, get_or_front, arith, u16_le,
}
use ipmi_rs.Rmcp.V2_0.Algorithms.{
  no_confidentiality, aes_cbc128, xrc4_128, xrc4_40, ConfidentialityAlgorithm,
}
use ipmi_rs.Rmcp.V2_0.Crypto.Keys.{
  encrypted_payload_too_long, payload_too_long, backend_failed, cannot_encrypt,
}
use ipmi_rs.Rmcp.V2_0.Crypto.Backend.{Backend, IsBackend, encrypt, decrypt}
use ipmi_rs.Rmcp.V2_0.Crypto.SubState.{
  SubState, plaintext, count_from, counts_from, confidentiality_pad_len, non_pad_len,
  strip_confidentiality, read_aes, write_aes, u16_max, write_data_encrypted, read_data_encrypted,
}

length-count_from : (from n : ℕ) → length (count_from from n) ≡ n
length-count_from from zero = refl
length-count_from from (suc n) = ap suc (length-count_from (suc from) n)

counts_from-count_from : (from n : ℕ) → counts_from from (count_from from n) ≡ true
counts_from-count_from from zero = refl
counts_from-count_from from (suc n) = ground (arith, counts_from-count_from (suc from) n)

strip_confidentiality-plaintext :
    (payload : List ℕ) → strip_confidentiality (plaintext payload) ≡ ok payload
unfolding strip_confidentiality
strip_confidentiality-plaintext payload =
    let p = confidentiality_pad_len (length payload) in
    let pads = count_from 1 p in
    let body = payload ++ pads in
    let last : List ℕ = p ∷ [] in
    let n : length body ≡ length payload + p =
      length-append payload pads ∙ ap (λ k. length payload + k) (length-count_from 1 p) in
    let m : length (body ++ last) ≡ length body + 1 = length-append body last in
    let t = take_front (length (body ++ last) - 1) body last (omega (arith, m)) in
    let a = get_or_front (length (body ++ last) - 1) 0 body last (omega (arith, m)) in
    let u = take_front (length body - p) payload pads (omega (arith, n)) in
    let d = drop_front (length body - p) payload pads (omega (arith, n)) in
    let f = counts_from-count_from 1 p in
    let q = length-count_from 1 p in rw (t, a, u, d, f, q) (ground (arith, m, n))

-- What stands behind the header of a packet: a length, and as many bytes that hold the payload.
pub record Carries (b : Backend) (s : SubState) (payload bytes : List ℕ) : Type 0 where
  pub rest : List ℕ
  pub is : u16_le (length rest) ++ rest ≡ bytes
  pub fits : length rest ≤ u16_max
  pub holds : read_data_encrypted b s rest ≡ ok payload

length-plaintext :
    (payload : List ℕ)
    → length (plaintext payload) + 16
      ≡ non_pad_len (length payload) + confidentiality_pad_len (length payload)
length-plaintext payload =
    let p = confidentiality_pad_len (length payload) in
    omega (
      arith,
      length-append (payload ++ count_from 1 p) (p ∷ []),
      length-append payload (count_from 1 p),
      length-count_from 1 p,
    )

-- A ciphertext behind its initialization vector is read as what was encrypted.
read_aes_text :
    (b : Backend)
    → IsBackend b
    → (s : SubState) (iv payload text : List ℕ) → length iv ≡ 16
    → encrypt b s.keys.aes_key iv (plaintext payload) ≡ ok text
    → (length text ≡ length (plaintext payload)) × (read_aes b s (iv ++ text) ≡ ok payload)
unfolding encrypt decrypt read_aes
read_aes_text b law s iv payload text h e =
    let plain = plaintext payload in
    let n = length-plaintext payload in
    let g : (length plain == 0 || length plain % 16 != 0) ≡ false = ground (arith, n) in
    let c : b.cbc_encrypt s.keys.aes_key iv plain ≡ ok text = rw g at e in
    let l = law.in_place s.keys.aes_key iv plain text c in
    let i = law.inverse s.keys.aes_key iv plain text c in
    let g' : (length text == 0 || length text % 16 != 0) ≡ false = rw l g in
    let t = take_front 16 iv text (sym h) in
    let d = drop_front 16 iv text (sym h) in
    let k : ltb (length (iv ++ text)) 16 ≡ false = ground (arith, length-append iv text, h) in
    (l, rw (k, d, t, g', i) (strip_confidentiality-plaintext payload))

write_aes-Carries :
    (b : Backend)
    → IsBackend b
    → (s : SubState) (iv payload bytes : List ℕ) → length iv ≡ 16
    → s.confidentiality_algorithm ≡ aes_cbc128
    → write_aes b s (some iv) payload ≡ ok bytes
    → Carries b s payload bytes
unfolding write_aes read_data_encrypted read_aes
write_aes-Carries b law s iv payload bytes h a w =
    let size = non_pad_len (length payload) + confidentiality_pad_len (length payload) in
    let g = reject_if-ok (ltb u16_max size) encrypted_payload_too_long _ bytes w in
    let c =
      bind_ok (map_err backend_failed (encrypt b s.keys.aes_key iv (plaintext payload))) _ bytes
        g.1 in
    let text = c.0 in
    let e =
      map_err-ok backend_failed (encrypt b s.keys.aes_key iv (plaintext payload)) text c.1.0 in
    let r = read_aes_text b law s iv payload text h e in
    let l : length (iv ++ text) ≡ size =
      omega (arith, length-append iv text, r.0, length-plaintext payload, h) in
    let i : u16_le size ++ (iv ++ text) ≡ bytes = cc in
    record {
      rest = iv ++ text;
      is = ap (λ k. u16_le k ++ (iv ++ text)) l ∙ i;
      fits = ground (arith, l, g.0);
      holds = rw (a) r.1;
    }

pub write_data-Carries :
    (b : Backend)
    → IsBackend b
    → (s : SubState) (iv payload bytes : List ℕ) → length iv ≡ 16
    → write_data_encrypted b s (some iv) payload ≡ ok bytes
    → Carries b s payload bytes
unfolding write_data_encrypted read_data_encrypted
write_data-Carries b law s iv payload bytes h w =
    let g = reject_if-ok (ltb u16_max (length payload)) payload_too_long _ bytes w in
    by_algorithm s.confidentiality_algorithm refl g.0 g.1
  where
    by_algorithm :
        (a : ConfidentialityAlgorithm)
        → s.confidentiality_algorithm ≡ a
        → ltb u16_max (length payload) ≡ false
        → elim a [
          | no_confidentiality ↦ ok (u16_le (length payload) ++ payload)
          | aes_cbc128 ↦ write_aes b s (some iv) payload
          | xrc4_128 ↦ err (cannot_encrypt xrc4_128)
          | xrc4_40 ↦ err (cannot_encrypt xrc4_40)
        ]
          ≡ ok bytes
        → Carries b s payload bytes
    by_algorithm no_confidentiality e g w' = record {
      rest = payload;
      is = cc;
      fits = ground (arith, g);
      holds = rw (e);
    }
    by_algorithm aes_cbc128 e g w' = write_aes-Carries b law s iv payload bytes h e w'
    by_algorithm xrc4_128 e g w' = absurd cc
    by_algorithm xrc4_40 e g w' = absurd cc
