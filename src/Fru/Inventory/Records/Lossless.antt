-- ===== src/Fru/Inventory/Records/Lossless.antt =====
-- The multirecords that are read stand for the bytes that they were read from.
use ipmi_rs.Base.{
  ℕ, zero, suc, ◌+◌, ◌-◌, ◌%◌, ◌<◌, ◌≡◌, refl, sym, ap, ◌∙◌, Bool, true, false, List, [], ◌∷◌, ◌++◌,
  not, ◌&&◌, Result, ok, err, if◌then◌else◌, length, take, drop, arith, All, All-drop, IsByte,
  bit_and_0x7f, bit_and_0x80, take-append-drop, length-take, length-drop, Bool-cases, inl, inr,
}
use mathlib.Core.List.{append_assoc}
use mathlib.Core.Path.{subst}
use ipmi_rs.Fru.Inventory.{FruParseError, byte_sum, check_sum}
use ipmi_rs.Fru.Inventory.Records.{
  MultiRecord, read_record, cons_record, next_record, read_records, parse_multirecords,
}

-- The byte that makes a sum zero.
abbrev pub negated : ℕ → ℕ
negated s = (256 - s) % 256

-- A record on the wire: its type, its version with the end flag, its length and its two checksums.
pub encode_record : MultiRecord → List ℕ
encode_record r =
    let flags = if r.end_of_list then 0x82 else 0x02 in
    let size = length r.raw in
    let sum = negated (byte_sum 0 r.raw) in
    (r.record_type ∷ flags ∷ size ∷ sum ∷ negated ((r.record_type + flags + size + sum) % 256) ∷ [])
    ++ r.raw

pub encode_records : List MultiRecord → List ℕ
encode_records [] = []
encode_records (r ∷ rs) = encode_record r ++ encode_records rs

byte_sum_lem :
    (first : ℕ) (bytes : List ℕ) → byte_sum first bytes % 256 ≡ (first + byte_sum 0 bytes) % 256
unfolding byte_sum
byte_sum_lem first [] = omega arith
byte_sum_lem first (b ∷ bs) =
    omega (arith, byte_sum_lem ((first + b) % 256) bs, byte_sum_lem ((0 + b) % 256) bs)

byte_sum-IsByte : (first : ℕ) (bytes : List ℕ) → first < 256 → byte_sum first bytes < 256
unfolding byte_sum
byte_sum-IsByte first [] h = h
byte_sum-IsByte first (b ∷ bs) h = byte_sum-IsByte ((first + b) % 256) bs (omega arith)

-- What a turn that reads a record has checked.
record IsRead (a b c d e : ℕ) (xs : List ℕ) (r : MultiRecord) (rest : List ℕ) : Type 0 where
  record_type : r.record_type ≡ a
  flags : (if r.end_of_list then 0x82 else 0x02) ≡ b
  raw : r.raw ≡ take c xs
  behind : rest ≡ drop c xs
  size : length (take c xs) ≡ c
  payload_sum : byte_sum d (take c xs) ≡ 0
  header_sum : (a + b + c + d + e) % 256 ≡ 0

read_record-IsRead :
    (a b c d e : ℕ) (xs : List ℕ) (r : MultiRecord) (rest : List ℕ)
    → b < 256
    → read_record (a ∷ b ∷ c ∷ d ∷ e ∷ xs) ≡ ok (r, rest)
    → IsRead a b c d e xs r rest
unfolding read_record check_sum
read_record-IsRead a b c d e xs r rest byte h = record {
  record_type = ground arith;
  flags = ground (arith, bit_and_0x7f b, bit_and_0x80 b);
  raw = ground arith;
  behind = ground arith;
  size = ground (arith, length-take c xs);
  payload_sum = ground arith;
  header_sum = ground arith;
}

same_bytes :
    (a b c d e : ℕ) (xs : List ℕ) (r : MultiRecord) (rest : List ℕ)
    → All IsByte (a ∷ b ∷ c ∷ d ∷ e ∷ xs)
    → IsRead a b c d e xs r rest
    → encode_record r ++ rest ≡ a ∷ b ∷ c ∷ d ∷ e ∷ xs
unfolding encode_record
same_bytes a b c d e xs r rest bytes h =
    let s = byte_sum-IsByte 0 (take c xs) (omega arith) in
    let t = byte_sum_lem d (take c xs) in
    let sum : negated (byte_sum 0 (take c xs)) ≡ d =
      omega (arith, bytes.1.1.1.0, s, t, h.payload_sum) in
    let head : negated ((a + b + c + d) % 256) ≡ e = omega (arith, bytes.1.1.1.1.0, h.header_sum) in
    rw (h.record_type, h.flags, h.raw, h.behind, h.size, sum, head)
      (ap (λ t. a ∷ b ∷ c ∷ d ∷ e ∷ t) (take-append-drop c xs))

-- A turn of the loop, at any bytes.
read_record-encode :
    (bytes : List ℕ) (r : MultiRecord) (rest : List ℕ)
    → All IsByte bytes
    → read_record bytes ≡ ok (r, rest)
    → (encode_record r ++ rest ≡ bytes) × All IsByte rest × (length rest < length bytes)
read_record-encode [] r rest bytes h = absurd (unfold read_record in ground arith)
read_record-encode (a ∷ []) r rest bytes h = absurd (unfold read_record in ground arith)
read_record-encode (a ∷ b ∷ []) r rest bytes h = absurd (unfold read_record in ground arith)
read_record-encode (a ∷ b ∷ c ∷ []) r rest bytes h = absurd (unfold read_record in ground arith)
read_record-encode (a ∷ b ∷ c ∷ d ∷ []) r rest bytes h = absurd (unfold read_record in ground arith)
read_record-encode (a ∷ b ∷ c ∷ d ∷ e ∷ xs) r rest bytes h =
    let p = read_record-IsRead a b c d e xs r rest bytes.1.0 h in
    (
      same_bytes a b c d e xs r rest bytes p,
      rw p.behind (All-drop IsByte c xs bytes.1.1.1.1.1),
      omega (arith, length-drop c xs, ap length p.behind),
    )

-- The end flag stands on the last record and on no other.
pub ends_once : List MultiRecord → Bool
ends_once [] = false
ends_once (r ∷ []) = r.end_of_list
ends_once (r ∷ s ∷ rs) = not r.end_of_list && ends_once (s ∷ rs)

-- What a chain of records that is read shows.
abbrev pub ReadsAs : List ℕ → List MultiRecord → List ℕ → Type 0
ReadsAs bytes rs tail = (encode_records rs ++ tail ≡ bytes) × (ends_once rs ≡ true)

cons_ReadsAs :
    (bytes rest tail : List ℕ) (r : MultiRecord) (rs : List MultiRecord)
    → encode_record r ++ rest ≡ bytes
    → r.end_of_list ≡ false
    → ReadsAs rest rs tail
    → ReadsAs bytes (r ∷ rs) tail
unfolding encode_records ends_once
cons_ReadsAs bytes rest tail r [] e f h = absurd (ground (arith, h.1))
cons_ReadsAs bytes rest tail r (s ∷ rs) e f h = (
  append_assoc (encode_record r) (encode_records (s ∷ rs)) tail
      ∙ ap (λ t. encode_record r ++ t) h.0
      ∙ e,
  ground (arith, f, h.1),
)

cons_record-ReadsAs :
    (bytes rest tail : List ℕ) (r : MultiRecord) (rs : List MultiRecord)
    (x : Result FruParseError (List MultiRecord × List ℕ))
    → encode_record r ++ rest ≡ bytes
    → r.end_of_list ≡ false
    → ((more : List MultiRecord) → x ≡ ok (more, tail) → ReadsAs rest more tail)
    → cons_record r x ≡ ok (rs, tail)
    → ReadsAs bytes rs tail
cons_record-ReadsAs bytes rest tail r rs (err y) e f ih h = absurd (ground arith)
cons_record-ReadsAs bytes rest tail r rs (ok (more, t)) e f ih h =
    let same : t ≡ tail = ground arith in
    let all : r ∷ more ≡ rs = ground arith in
    subst (λ l. ReadsAs bytes l tail) all
      (cons_ReadsAs bytes rest tail r more e f (ih more (ap (λ k. ok (more, k)) same)))

next_record-ReadsAs :
    (bytes : List ℕ) (x : Result FruParseError (MultiRecord × List ℕ))
    (again : List ℕ → Result FruParseError (List MultiRecord × List ℕ)) (rs : List MultiRecord)
    (tail : List ℕ)
    → ((r : MultiRecord) (rest : List ℕ)
        → x ≡ ok (r, rest)
        → (encode_record r ++ rest ≡ bytes) × All IsByte rest × (length rest < length bytes))
    → ((rest : List ℕ) (more : List MultiRecord)
        → All IsByte rest
        → again rest ≡ ok (more, tail)
        → ReadsAs rest more tail)
    → next_record x again ≡ ok (rs, tail)
    → ReadsAs bytes rs tail
unfolding encode_records ends_once
next_record-ReadsAs bytes (err e) again rs tail f ih h = absurd (ground arith)
next_record-ReadsAs bytes (ok (r, rest)) again rs tail f ih h =
    let p = f r rest refl in
    elim (Bool-cases r.end_of_list) [
      | inl last ↦
          let one : r ∷ [] ≡ rs = ground (arith, last, h) in
          let behind : rest ≡ tail = ground (arith, last, h) in
          subst (λ l. ReadsAs bytes l tail) one
            (
              (append_assoc (encode_record r) [] tail
                  ∙ ap (λ t. encode_record r ++ t) (sym behind)
                  ∙ p.0),
              last,
            )
      | inr more ↦
          cons_record-ReadsAs bytes rest tail r rs (again rest) p.0 more (λ l e. ih rest l p.1 e)
            (ground (arith, more, h))
    ]

read_records-ReadsAs :
    (left : ℕ) (bytes : List ℕ) (rs : List MultiRecord) (tail : List ℕ)
    → All IsByte bytes
    → read_records left bytes ≡ ok (rs, tail)
    → ReadsAs bytes rs tail
unfolding read_records
read_records-ReadsAs zero bytes rs tail b h = absurd (ground arith)
read_records-ReadsAs (suc left) bytes rs tail b h =
    next_record-ReadsAs bytes (read_record bytes) (read_records left) rs tail
      (λ r rest e. read_record-encode bytes r rest b e)
      (λ rest more c e. read_records-ReadsAs left rest more tail c e) h

next_record_same :
    (x : Result FruParseError (MultiRecord × List ℕ))
    (f g : List ℕ → Result FruParseError (List MultiRecord × List ℕ))
    → ((r : MultiRecord) (rest : List ℕ) → x ≡ ok (r, rest) → f rest ≡ g rest)
    → next_record x f ≡ next_record x g
next_record_same (err e) f g same = refl
next_record_same (ok (r, rest)) f g same =
    ap (λ t. if r.end_of_list then ok (r ∷ [], rest) else cons_record r t) (same r rest refl)

-- Any number of turns above the number of bytes gives the same result.
read_records_enough :
    (m n : ℕ) (bytes : List ℕ)
    → All IsByte bytes
    → length bytes < m
    → length bytes < n
    → read_records m bytes ≡ read_records n bytes
unfolding read_records
read_records_enough zero n bytes b p q = absurd (omega arith)
read_records_enough (suc m) zero bytes b p q = absurd (omega arith)
read_records_enough (suc m) (suc n) bytes b p q =
    next_record_same (read_record bytes) (read_records m) (read_records n) (λ r rest e.
      let x = read_record-encode bytes r rest b e in
      read_records_enough m n rest x.1 (omega (arith, x.2)) (omega (arith, x.2)))

-- A multirecord area that is accepted is, byte for byte, what its records encode to, checksums
-- included, with the tail behind; and the end flag stands on the last record and on no other. No
-- turns beyond those that the loop is given change its result.
pub parse_multirecords-encode :
    (bytes : List ℕ) (rs : List MultiRecord) (tail : List ℕ)
    → All IsByte bytes
    → parse_multirecords bytes ≡ ok (rs, tail)
    → (encode_records rs ++ tail ≡ bytes)
      × (ends_once rs ≡ true)
      × ((more : ℕ) → length bytes < more → read_records more bytes ≡ ok (rs, tail))
unfolding parse_multirecords
parse_multirecords-encode bytes rs tail b h =
    let r = read_records-ReadsAs (suc (length bytes)) bytes rs tail b h in
    (r.0, r.1, λ more p. read_records_enough more (suc (length bytes)) bytes b p (omega arith) ∙ h)
