-- ===== src/Fru/Inventory/Fields.antt =====
-- The fields of an area that are read stand for the bytes that they were read from.
use ipmi_rs.Base.{
  ℕ, zero, suc, ◌+◌, ◌-◌, ◌*◌, ◌/◌, ◌≤◌, ◌<◌, ◌≡◌, refl, sym, ap, ◌∙◌, false, List, [], ◌∷◌, ◌++◌,
  Option, Result, ok, err, ◌==◌, ltb, if◌then◌else◌, length, take, drop, arith, All, All-drop,
  All-take, IsByte, bit_and, bit_and_0x3f, take-append-drop, length-take, length-drop, Bool-cases,
  Result-cases, inl, inr,
}
use mathlib.Core.List.{append_assoc}
use mathlib.Core.Path.{subst}
use ipmi_rs.Fru.Inventory.{
  FruParseError, truncated, FieldEncoding, binary, bcd_plus, six_bit_ascii, eight_bit_ascii,
  FruField, decode_field, cons_field, read_fields, parse_fields, any_nonzero,
}

abbrev pub encoding_code : FieldEncoding → ℕ
encoding_code binary = 0
encoding_code bcd_plus = 1
encoding_code six_bit_ascii = 2
encoding_code eight_bit_ascii = 3

-- A field on the wire: its type and length in one byte, and its bytes.
pub encode_field : FruField → List ℕ
encode_field f = (encoding_code f.encoding * 64 + length f.raw) ∷ f.raw

pub encode_fields : List FruField → List ℕ
encode_fields [] = 0xc1 ∷ []
encode_fields (f ∷ fs) = encode_field f ++ encode_fields fs

decode_field_lem :
    (ty : ℕ) (raw : List ℕ) (language : Option ℕ) (f : FruField)
    → ty < 4
    → decode_field ty raw language ≡ ok f
    → (encoding_code f.encoding ≡ ty) × (f.raw ≡ raw)
unfolding decode_field
decode_field_lem ty raw language f small h = ground arith

-- What is read of some bytes: the fields and the end marker, then the tail.
abbrev ReadsAs : List ℕ → List FruField → List ℕ → Type 0
ReadsAs bytes fields tail = encode_fields fields ++ tail ≡ bytes

cons_ReadsAs :
    (descriptor : ℕ) (bytes tail : List ℕ) (language : Option ℕ) (fields : List FruField)
    (x : Result FruParseError FruField) (y : Result FruParseError (List FruField × List ℕ))
    → let len = bit_and descriptor 0x3f in
      descriptor < 256
      → len ≤ length bytes
      → x ≡ decode_field (descriptor / 64) (take len bytes) language
      → ((more : List FruField) → y ≡ ok (more, tail) → ReadsAs (drop len bytes) more tail)
      → cons_field x y ≡ ok (fields, tail)
      → ReadsAs (descriptor ∷ bytes) fields tail
unfolding encode_fields encode_field
cons_ReadsAs descriptor bytes tail language fields (err e) y small fits is ih h =
    absurd (ground arith)
cons_ReadsAs descriptor bytes tail language fields (ok f) (err e) small fits is ih h =
    absurd (ground arith)
cons_ReadsAs descriptor bytes tail language fields (ok f) (ok (more, t)) small fits is ih h =
    let len = bit_and descriptor 0x3f in
    let d = decode_field_lem (descriptor / 64) (take len bytes) language f (omega arith) (sym is) in
    let all : f ∷ more ≡ fields = ground arith in
    let behind : t ≡ tail = ground arith in
    let head : encoding_code f.encoding * 64 + length f.raw ≡ descriptor =
      omega (arith, d.0, ap length d.1, length-take len bytes, bit_and_0x3f descriptor small) in
    subst (λ l. ReadsAs (descriptor ∷ bytes) l tail) all
      (ap (λ n. (n ∷ f.raw) ++ encode_fields more ++ tail) head
        ∙ ap (λ r. descriptor ∷ (r ++ encode_fields more) ++ tail) d.1
        ∙ ap (λ t. descriptor ∷ t)
            (append_assoc (take len bytes) (encode_fields more) tail
              ∙ ap (λ t. take len bytes ++ t) (ih more (ap (λ k. ok (more, k)) behind))
              ∙ take-append-drop len bytes))

read_fields-ReadsAs :
    (left : ℕ) (bytes : List ℕ) (language : Option ℕ) (fields : List FruField) (tail : List ℕ)
    → All IsByte bytes
    → read_fields left bytes language ≡ ok (fields, tail)
    → ReadsAs bytes fields tail
unfolding read_fields encode_fields
read_fields-ReadsAs zero bytes language fields tail b h = absurd (ground arith)
read_fields-ReadsAs (suc left) [] language fields tail b h = absurd (ground arith)
read_fields-ReadsAs (suc left) (descriptor ∷ bytes) language fields tail b h =
    let len = bit_and descriptor 0x3f in
    elim (Bool-cases (descriptor == 0xc1)) [
      | inl last ↦
          let e : descriptor ≡ 0xc1 = ground (arith, last) in
          let all : [] ≡ fields = ground (arith, last, h) in
          let behind : bytes ≡ tail = ground (arith, last, h) in
          subst (λ l. ReadsAs (descriptor ∷ bytes) l tail) all
            (ap (λ n. n ∷ tail) (sym e) ∙ ap (λ t. descriptor ∷ t) (sym behind))
      | inr more ↦ elim (Bool-cases (ltb (length bytes) len)) [
        | inl long ↦ absurd (ground (arith, more, long, h))
        | inr fits ↦
            cons_ReadsAs descriptor bytes tail language fields
              (decode_field (descriptor / 64) (take len bytes) language)
              (read_fields left (drop len bytes) language) b.0 (ground (arith, fits)) refl
              (λ l e.
                read_fields-ReadsAs left (drop len bytes) language l tail
                  (All-drop IsByte len bytes b.1) e)
              (ground (arith, more, fits, h))
      ]
    ]

-- The turns given to the loop are enough: more change nothing.
read_fields_enough :
    (m n : ℕ) (bytes : List ℕ) (language : Option ℕ)
    → length bytes < m
    → length bytes < n
    → read_fields m bytes language ≡ read_fields n bytes language
unfolding read_fields
read_fields_enough zero n bytes language p q = absurd (omega arith)
read_fields_enough (suc m) zero bytes language p q = absurd (omega arith)
read_fields_enough (suc m) (suc n) [] language p q = refl
read_fields_enough (suc m) (suc n) (descriptor ∷ bytes) language p q =
    let len = bit_and descriptor 0x3f in
    let l = length-drop len bytes in
    ap
      (λ rest.
        if descriptor == 0xc1
        then ok ([], bytes)
        else if ltb (length bytes) len
        then err truncated
        else cons_field (decode_field (descriptor / 64) (take len bytes) language) rest)
      (read_fields_enough m n (drop len bytes) language (omega arith) (omega arith))

-- The fields of an area that is accepted are, byte for byte, what it holds from `start` to its
-- checksum: they encode to it, with the end marker and zeros behind, and are as many as required.
pub parse_fields-encode :
    (area : List ℕ) (start min_fields : ℕ) (language : Option ℕ) (fields : List FruField)
    → All IsByte area
    → parse_fields area start min_fields language ≡ ok fields
    → (tail : List ℕ) × (encode_fields fields ++ tail ≡ drop start (take (length area - 1) area))
      × (any_nonzero tail ≡ false)
      × (min_fields ≤ length fields)
unfolding parse_fields
parse_fields-encode area start min_fields language fields b h =
    let body = drop start (take (length area - 1) area) in
    let bytes = All-drop IsByte start _ (All-take IsByte (length area - 1) area b) in
    elim (Result-cases (read_fields (suc (length body)) body language)) [
      | inr (e, p) ↦ absurd (ground (arith, p, h))
      | inl ((fs, tail), p) ↦
          let same : fs ≡ fields = ground (arith, p, h) in
          (
            tail,
            read_fields-ReadsAs (suc (length body)) body language fields tail bytes
                (p ∙ ap (λ l. ok (l, tail)) same),
            ground (arith, p, h),
            ground (arith, p, h),
          )
    ]
