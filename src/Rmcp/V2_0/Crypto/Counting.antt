-- ===== src/Rmcp/V2_0/Crypto/Counting.antt =====
-- A backend for examples, whose digests count bytes and whose cipher adds one to each, and a state of
-- the suite 17.
use ipmi_rs.Base.{
  ℕ, suc, ◌+◌, ◌-◌, ◌%◌, ◌≡◌, refl, sym, ap, ok_cancel, length-replicate, ◌∙◌, List, [], ◌∷◌,
  Result, ok, err, length, replicate, arith,
}
use ipmi_rs.Rmcp.V2_0.Algorithms.{aes_cbc128, hmac_sha256_128}
use ipmi_rs.Rmcp.V2_0.Crypto.Backend.{Backend, IsBackend, sha256, digest_len}
use ipmi_rs.Rmcp.V2_0.Crypto.Keys.{WriteError}
use ipmi_rs.Rmcp.V2_0.Crypto.SubState.{SubState}

abbrev pub weight : List (List ℕ) → ℕ
weight [] = 0
weight (x ∷ xs) = length x + weight xs

abbrev pub undone : List ℕ → List ℕ
undone [] = []
undone (x ∷ xs) = (x - 1) ∷ undone xs

abbrev pub done : List ℕ → List ℕ
done [] = []
done (x ∷ xs) = (x + 1) ∷ done xs

abbrev pub counting : Backend
counting = record {
  hmac =
      λ hash secret parts. ok (replicate (digest_len hash) ((length secret + weight parts) % 256));
  cbc_encrypt = λ aes_key iv bytes. ok (done bytes);
  cbc_decrypt = λ aes_key iv bytes. ok (undone bytes);
}

undone-done : (xs : List ℕ) → undone (done xs) ≡ xs
undone-done [] = refl
undone-done (x ∷ xs) = ground (arith, undone-done xs)

length-done : (xs : List ℕ) → length (done xs) ≡ length xs
length-done [] = refl
length-done (x ∷ xs) = ap suc (length-done xs)

pub counting-IsBackend : IsBackend counting
counting-IsBackend = record {
  digest = λ hash secret parts d h.
      ap length (sym (ok_cancel refl h))
      ∙ length-replicate (digest_len hash) ((length secret + weight parts) % 256);
  in_place = λ aes_key iv plain text h. ap length (sym (ok_cancel refl h)) ∙ length-done plain;
  inverse = λ aes_key iv plain text h.
      ap (λ x. ok (undone x)) (sym (ok_cancel refl h)) ∙ ap ok (undone-done plain);
}

abbrev pub suite_17 : SubState
suite_17 = record {
  keys = record {
    sik = 1 ∷ [];
    k1 = 2 ∷ 3 ∷ [];
    k2 = [];
    aes_key = replicate 16 0;
    k3 = [];
    hash = sha256;
  };
  confidentiality_algorithm = aes_cbc128;
  integrity_algorithm = hmac_sha256_128;
}

abbrev pub bytes_of : Result WriteError (List ℕ) → List ℕ
bytes_of (ok bytes) = bytes
bytes_of (err e) = []
