-- ===== src/Rmcp/Ipmb/Packet.antt =====
-- IPMB packets: `ExpectedReply`, `ipmb_request`, `validate_ipmb_checksums` and `correlate` of
-- ipmi-rs/src/rmcp/internal.rs.
mod Examples
use ipmi_rs.Base.{
  Bool-cases, inl, inr, ℕ, suc, ◌+◌, ◌-◌, ◌*◌, ◌/◌, ◌%◌, ◌^◌, ◌≤◌, ◌<◌, ◌≡◌, refl, sym, ap, ◌∙◌,
  ◌↔◌, Bool, true, false, ◌&&◌, ◌||◌, not, List, [], ◌∷◌, ◌++◌, Option, none, some, Result, ok, err,
  ◌>>=◌, ◌>>◌, reject_if, ok_or, arith, ◌==◌, ◌!=◌, ltb, if◌then◌else◌, bit_and, bit_or, bit_and_3,
  bit_or_pair, length, ge→ltb, get_or, take, drop, length-append, IsByte, All,
}
use ipmi_rs.Connection.Channel.{LogicalUnit, lun_value, lun_value-lt}
use ipmi_rs.Connection.Message.{Message, Response, response_new}
use ipmi_rs.Rmcp.Checksum.{checksum, checksum-IsByte}
use ipmi_rs.Rmcp.Errors.{
  RmcpIpmiReceiveError, not_enough_data, ipmb_checksum_failed, ipmb_response_mismatch,
  empty_message,
}

pub record ExpectedReply : Type 0 where
  pub sequence : ℕ
  pub netfn : ℕ
  pub cmd : ℕ
  pub responder_addr : ℕ
  pub responder_lun : LogicalUnit
  pub requestor_addr : ℕ
  pub requestor_lun : LogicalUnit

-- `x << 2` on a byte.
abbrev pub shl2 : ℕ → ℕ
shl2 x = x * 4 % 256

unfoldable pub ipmb_request : ExpectedReply → List ℕ → List ℕ
ipmb_request e body =
    let first = e.responder_addr ∷ bit_or (shl2 (e.netfn - 1)) (lun_value e.responder_lun) ∷ [] in
    let second =
      e.requestor_addr ∷ bit_or (shl2 e.sequence) (lun_value e.requestor_lun) ∷ e.cmd ∷ [] in
    first ++ (checksum first ∷ (second ++ (body ++ (checksum (second ++ body) ∷ []))))

-- `data[i]`; each use below comes after a check of the length.
abbrev pub at : List ℕ → ℕ → ℕ
at bytes i = get_or bytes i 0

unfoldable pub validate_ipmb_checksums : List ℕ → Bool
validate_ipmb_checksums bytes =
    if ltb (length bytes) 8
    then false
    else if checksum (at bytes 0 ∷ at bytes 1 ∷ []) != at bytes 2
    then false
    else checksum (take (length bytes - 1 - 3) (drop 3 bytes)) == at bytes (length bytes - 1)

-- The test of the addresses, units, sequence, function and command of a reply.
unfoldable pub mismatches : List ℕ → ExpectedReply → Bool
mismatches bytes e =
    (at bytes 0 != e.requestor_addr)
    || (bit_and (at bytes 1) 3 != lun_value e.requestor_lun)
    || (at bytes 3 != e.responder_addr)
    || (bit_and (at bytes 4) 3 != lun_value e.responder_lun)
    || (at bytes 4 / 4 != e.sequence)
    || (at bytes 1 / 4 != e.netfn)
    || (at bytes 5 != e.cmd)

-- The message in a reply.
abbrev pub reply_message : List ℕ → Message
reply_message bytes = record {
  netfn = at bytes 1 / 4;
  cmd = at bytes 5;
  payload = take (length bytes - 1 - 6) (drop 6 bytes);
}

unfoldable pub correlate : List ℕ → ExpectedReply → Result RmcpIpmiReceiveError Response
correlate bytes e =
    if ltb (length bytes) 8
    then err not_enough_data
    else if not (validate_ipmb_checksums bytes)
    then err ipmb_checksum_failed
    else if mismatches bytes e
    then err ipmb_response_mismatch
    else ok_or empty_message (response_new (reply_message bytes) e.sequence)

-- The reply that a controller sends, by the IPMB specification: the addresses and units change
-- places, and the body begins with the completion code.
pub answer : ExpectedReply → ℕ → List ℕ → List ℕ
answer e code body =
    let first = e.requestor_addr ∷ (e.netfn * 4 + lun_value e.requestor_lun) ∷ [] in
    let second =
      e.responder_addr ∷ (e.sequence * 4 + lun_value e.responder_lun) ∷ e.cmd ∷ code ∷ [] in
    first ++ (checksum first ∷ (second ++ (body ++ (checksum (second ++ body) ∷ []))))

pub record IsReply (e : ExpectedReply) : Type 0 where
  pub sequence : e.sequence < 64
  pub netfn : e.netfn < 64

-- The fields of a packet that answers a request: the addresses and units in their places, and the
-- sequence number, function and command of the request.
pub record IsReplyTo (e : ExpectedReply) (bytes : List ℕ) : Type 0 where
  pub requestor : at bytes 0 ≡ e.requestor_addr
  pub requestor_lun : bit_and (at bytes 1) 3 ≡ lun_value e.requestor_lun
  pub responder : at bytes 3 ≡ e.responder_addr
  pub responder_lun : bit_and (at bytes 4) 3 ≡ lun_value e.responder_lun
  pub sequence : at bytes 4 / 4 ≡ e.sequence
  pub netfn : at bytes 1 / 4 ≡ e.netfn
  pub cmd : at bytes 5 ≡ e.cmd

length_body : (xs : List ℕ) (c : ℕ) → length (xs ++ (c ∷ [])) ≡ suc (length xs)
length_body xs c = omega (arith, length-append xs (c ∷ []))

last_byte : (xs : List ℕ) (c : ℕ) → at (xs ++ (c ∷ [])) (length xs) ≡ c
last_byte [] c = refl
last_byte (x ∷ xs) c = last_byte xs c

all_but_last : (xs : List ℕ) (c : ℕ) → take (length xs) (xs ++ (c ∷ [])) ≡ xs
all_but_last [] c = refl
all_but_last (x ∷ xs) c = ap (λ t. x ∷ t) (all_but_last xs c)

less_one :
    (k : ℕ)
    → suc (suc (suc (suc (suc (suc (suc (suc k))))))) - 1
      ≡ suc (suc (suc (suc (suc (suc (suc k))))))
less_one k = omega arith

less_four :
    (k : ℕ) → suc (suc (suc (suc (suc (suc (suc (suc k))))))) - 1 - 3 ≡ suc (suc (suc (suc k)))
less_four k = omega arith

less_seven : (k : ℕ) → suc (suc (suc (suc (suc (suc (suc (suc k))))))) - 1 - 6 ≡ suc k
less_seven k = omega arith

answer_checks :
    (e : ExpectedReply) (code : ℕ) (body : List ℕ)
    → validate_ipmb_checksums (answer e code body) ≡ true
unfolding validate_ipmb_checksums answer
answer_checks e code body =
    let second : List ℕ =
      e.responder_addr ∷ (e.sequence * 4 + lun_value e.responder_lun) ∷ e.cmd ∷ code ∷ [] in
    let c = checksum (second ++ body) in
    rw
      (
        length_body body c,
        less_four (length body),
        less_one (length body),
        all_but_last body c,
        last_byte body c,
      )
      (ground arith)

answer_fits :
    (e : ExpectedReply) (code : ℕ) (body : List ℕ)
    → IsReply e
    → mismatches (answer e code body) e ≡ false
unfolding mismatches answer
answer_fits e code body w = ground (
  arith,
  lun_value-lt e.requestor_lun,
  lun_value-lt e.responder_lun,
  bit_and_3 (e.netfn * 4 + lun_value e.requestor_lun),
  bit_and_3 (e.sequence * 4 + lun_value e.responder_lun),
)

answer_long : (e : ExpectedReply) (code : ℕ) (body : List ℕ) → 8 ≤ length (answer e code body)
unfolding answer
answer_long e code body = omega (arith, length_body body 0, length-append {0} body)

answer_message :
    (e : ExpectedReply) (code : ℕ) (body : List ℕ)
    → IsReply e
    → reply_message (answer e code body)
      ≡ record { netfn = e.netfn; cmd = e.cmd; payload = code ∷ body }
unfolding answer
answer_message e code body w =
    let second : List ℕ =
      e.responder_addr ∷ (e.sequence * 4 + lun_value e.responder_lun) ∷ e.cmd ∷ code ∷ [] in
    let c = checksum (second ++ body) in
    let n : (e.netfn * 4 + lun_value e.requestor_lun) / 4 ≡ e.netfn =
      omega (arith, lun_value-lt e.requestor_lun) in
    rw (length_body body c, less_seven (length body), all_but_last body c, n) refl

-- For a request whose sequence number and function have six bits: whatever completion code and body
-- a controller replies with, its reply is accepted for the request and read back.
pub correlate-answer :
    (e : ExpectedReply) (code : ℕ) (body : List ℕ)
    → IsReply e
    → correlate (answer e code body) e
      ≡ ok (record {
        seq = e.sequence;
        message = record { netfn = e.netfn; cmd = e.cmd; payload = code ∷ body };
      })
unfolding correlate
correlate-answer e code body w =
    rw
      (
        ge→ltb (length (answer e code body)) 8 (answer_long e code body),
        answer_checks e code body,
        answer_fits e code body w,
        answer_message e code body w,
      )
      (unfold response_new in refl)

response_new-some :
    (m : Message) (seq : ℕ) (r : Response)
    → ok_or empty_message (response_new m seq) ≡ ok r
    → (r.seq ≡ seq) × (r.message ≡ m)
unfolding response_new
response_new-some m seq r e = ground arith

no_mismatch : (bytes : List ℕ) (e : ExpectedReply) → mismatches bytes e ≡ false → IsReplyTo e bytes
unfolding mismatches
no_mismatch bytes e h = record {
  requestor = ground arith;
  requestor_lun = ground arith;
  responder = ground arith;
  responder_lun = ground arith;
  sequence = ground arith;
  netfn = ground arith;
  cmd = ground arith;
}

-- A packet that is accepted as a reply has valid checksums, the addresses, units, sequence number,
-- function and command that are expected, in their places, and the response is the message of that
-- packet, under that sequence number.
pub correlate-Answers :
    (e : ExpectedReply) (bytes : List ℕ) (r : Response)
    → correlate bytes e ≡ ok r
    → (validate_ipmb_checksums bytes ≡ true)
      × IsReplyTo e bytes
      × (r.message ≡ reply_message bytes)
      × (r.seq ≡ at bytes 4 / 4)
unfolding correlate
correlate-Answers e bytes r h = elim (Bool-cases (ltb (length bytes) 8)) [
  | inl a ↦ let h' = rw (a) at h in absurd (cc)
  | inr a ↦ elim (Bool-cases (validate_ipmb_checksums bytes)) [
    | inr b ↦ let h' = rw (a, b) at h in absurd (cc)
    | inl b ↦ elim (Bool-cases (mismatches bytes e)) [
      | inl c ↦ let h' = rw (a, b, c) at h in absurd (cc)
      | inr c ↦
          let h' = rw (a, b, c) at h in
          let same = response_new-some (reply_message bytes) e.sequence r h' in
          let fields = no_mismatch bytes e c in (b, fields, same.1, same.0 ∙ sym fields.sequence)
    ]
  ]
]
