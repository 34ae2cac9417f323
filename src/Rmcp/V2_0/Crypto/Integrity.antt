-- ===== src/Rmcp/V2_0/Crypto/Integrity.antt =====
-- The integrity trailer that is written passes the check of it, and is taken off.
use mathlib.Core.Path.{subst}
use mathlib.Core.List.{append_assoc, append-nil}
use ipmi_rs.Base.{
  ℕ, zero, suc, ◌+◌, ◌-◌, ◌≤◌, ◌≡◌, refl, sym, ap, ◌∙◌, inl, inr, true, false, List, [], ◌∷◌, ◌++◌,
  some, ok, map_err, ok_or, bind_ok, map_err-ok, ok_or-ok, ltb, Bool-cases, take, length,
  length-take, length-append, take_front, drop_front, get_or_front, length-replicate, replicate,
  arith, bytes_eq_refl,
}
use ipmi_rs.Rmcp.V2_0.Algorithms.{IntegrityAlgorithm}
use ipmi_rs.Rmcp.V2_0.Crypto.Keys.{backend_failed, cannot_sign}
use ipmi_rs.Rmcp.V2_0.Crypto.Backend.{HashAlgorithm, digest_len, Backend, IsBackend}
use ipmi_rs.Rmcp.V2_0.Crypto.SubState.{
  SubState, sign, check_tag, strip_padding, padded, pad_length, all_ff, authenticated,
  write_trailer, validate_trailer, parameters_of, integrity_parameters,
}

all_ff-replicate : (n : ℕ) → all_ff (replicate n 0xff) ≡ true
all_ff-replicate zero = refl
all_ff-replicate (suc n) = all_ff-replicate n

-- A frame of at least the header's size comes back from under its padding.
strip_padding-padded :
    (frame : List ℕ) → 12 ≤ length frame → strip_padding (padded frame) ≡ ok frame
unfolding strip_padding
strip_padding-padded frame h =
    let p = pad_length (length frame) in
    let pads = replicate p 0xff in
    let body = frame ++ pads in
    let last : List ℕ = p ∷ 7 ∷ [] in
    let n : length body ≡ length frame + p =
      length-append frame pads ∙ ap (λ k. length frame + k) (length-replicate p 0xff) in
    let m : length (body ++ last) ≡ length body + 2 = length-append body last in
    let t = take_front (length (body ++ last) - 2) body last (omega (arith, m)) in
    let a = get_or_front (length (body ++ last) - 2) 0 body last (omega (arith, m)) in
    let c = get_or_front (length (body ++ last) - 1) 1 body last (omega (arith, m)) in
    let u = take_front (length body - p) frame pads (omega (arith, n)) in
    let d = drop_front (length body - p) frame pads (omega (arith, n)) in
    let f = all_ff-replicate p in rw (t, a, c, u, d, f) (ground (arith, m, n, h))

-- A signed frame passes the check of its tag.
check_tag-sign :
    (b : Backend)
    → IsBackend b
    → (s : SubState) (hash : HashAlgorithm) (tag_len : ℕ) (signed bytes : List ℕ)
    → tag_len ≤ digest_len hash
    → 2 ≤ length signed
    → sign b s (hash, tag_len) signed ≡ ok bytes
    → check_tag b s (hash, tag_len) bytes ≡ ok signed
unfolding sign check_tag
check_tag-sign b law s hash tag_len signed bytes h l w =
    let c = bind_ok (map_err backend_failed (b.hmac hash s.keys.k1 (signed ∷ []))) _ bytes w in
    let d = c.0 in
    let q = map_err-ok backend_failed (b.hmac hash s.keys.k1 (signed ∷ [])) d c.1.0 in
    let tag = take tag_len d in
    let size : length d ≡ digest_len hash = law.digest hash s.keys.k1 (signed ∷ []) d q in
    let n : length tag ≡ tag_len = length-take tag_len d ∙ omega (arith, size, h) in
    let m : length (signed ++ tag) ≡ length signed + tag_len =
      length-append signed tag ∙ ap (λ k. length signed + k) n in
    let k : length (signed ++ tag) - tag_len ≡ length signed = omega (arith, m) in
    let t = take_front (length (signed ++ tag) - tag_len) signed tag k in
    let r = drop_front (length (signed ++ tag) - tag_len) signed tag k in
    let v : ltb (length (signed ++ tag)) (tag_len + 2) ≡ false = ground (arith, m, l) in
    let i : signed ++ tag ≡ bytes = cc in
    subst (λ x. check_tag b s (hash, tag_len) x ≡ ok signed) i (rw (v, t, r, q, bytes_eq_refl tag))

tag_len_le :
    (a : IntegrityAlgorithm) (hash : HashAlgorithm) (p : HashAlgorithm × ℕ)
    → parameters_of a hash ≡ some p
    → p.1 ≤ digest_len p.0
tag_len_le a hash p h = ground (arith, h)

length-padded : (frame : List ℕ) → 2 ≤ length (padded frame)
length-padded frame =
    let p = pad_length (length frame) in
    omega (arith, length-append (frame ++ replicate p 0xff) (p ∷ 7 ∷ []))

padded_front :
    (b : Backend) (s : SubState) (parameters : HashAlgorithm × ℕ) (frame bytes : List ℕ)
    → sign b s parameters (padded frame) ≡ ok bytes
    → (more : List ℕ) × (frame ++ more ≡ bytes)
unfolding sign
padded_front b s parameters frame bytes w =
    let p = pad_length (length frame) in
    let c =
      bind_ok (map_err backend_failed (b.hmac parameters.0 s.keys.k1 (padded frame ∷ []))) _ bytes
        w in
    let tag = take parameters.1 c.0 in
    let i : padded frame ++ tag ≡ bytes = cc in
    let last : List ℕ = p ∷ 7 ∷ [] in
    (
      replicate p 0xff ++ (last ++ tag),
      sym (append_assoc frame (replicate p 0xff) (last ++ tag))
          ∙ (sym (append_assoc (frame ++ replicate p 0xff) last tag) ∙ i),
    )

-- A signed packet starts with its frame, and the frame is what its trailer is checked for.
pub validate_trailer-write_trailer :
    (b : Backend)
    → IsBackend b
    → (s : SubState) (frame bytes : List ℕ) → 12 ≤ length frame
    → write_trailer b s frame ≡ ok bytes
    → ((more : List ℕ) × (frame ++ more ≡ bytes)) × (validate_trailer b s bytes ≡ ok frame)
unfolding write_trailer validate_trailer
validate_trailer-write_trailer b law s frame bytes h w = elim (Bool-cases (authenticated s)) [
  | inr e ↦
      let w' : ok frame ≡ ok bytes = rw e at w in
      let i : frame ≡ bytes = cc in (([], append-nil frame ∙ i), rw (e) (ap ok (sym i)))
  | inl e ↦
      let p = padded frame in
      let w' = rw e at w in
      let c =
        bind_ok (ok_or (cannot_sign s.integrity_algorithm) (integrity_parameters s)) _ bytes w' in
      let parameters = c.0 in
      let q =
        ok_or-ok (cannot_sign s.integrity_algorithm) (integrity_parameters s) parameters c.1.0 in
      let l = tag_len_le s.integrity_algorithm s.keys.hash parameters q in
      let n : 2 ≤ length (padded frame) = length-padded frame in
      let k = check_tag-sign b law s parameters.0 parameters.1 (padded frame) bytes l n c.1.1 in
      (padded_front b s parameters frame bytes c.1.1, rw (e, q, k) (strip_padding-padded frame h))
]
