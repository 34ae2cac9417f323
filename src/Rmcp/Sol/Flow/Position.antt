-- ===== src/Rmcp/Sol/Flow/Position.antt =====
-- Where a SOL flow stands to the packet that a BMC is sending, and what `accept` makes of it.
use ipmi_rs.Base.{
  ℕ, ◌+◌, ◌-◌, ◌≤◌, ◌<◌, ◌≡◌, ◌≢◌, refl, sym, ap, ◌∙◌, ◌||◌, ◌++◌, ltb, if◌then◌else◌, Bool, Option,
  none, some, Result, ok, List, starts_with-append, bytes_eq_refl, take-add, err, arith, length,
  take, drop,
}
use native.Mathlib.Decide.{dec_le}
use mathlib.Core.List.{append_assoc, append-nil}
use ipmi_rs.Rmcp.Sol.Frame.{SolFrame, SolFrameError, ack_frame, exceeds_negotiated_limit}
use ipmi_rs.Rmcp.Sol.Flow.{SolFlow, accept, note_ack, check_order, is_new, following}
use ipmi_rs.Rmcp.Sol.Flow.Bounds.{
  IsBounded, IsReady, confirmed, stored, store-stored, note_ack-IsBounded,
}

-- Where the flow stands to the packet that the BMC is sending: `sent` is what the BMC knows to be
-- taken of the packets before it, `taken` what the console has read.
pub data Position (f : SolFlow) (taken sent : List ℕ) (sequence : ℕ) (packet : List ℕ)
    : Type 0 where
  first :
      f.previous_sequence ≡ none → taken ++ f.output ≡ sent → Position f taken sent sequence packet
  seen :
      f.previous_sequence ≡ some sequence
      → f.previous_data ≡ packet
      → taken ++ f.output ≡ sent ++ take f.previous_accepted packet
      → Position f taken sent sequence packet
  next :
      (p : ℕ) (extra : List ℕ)
      → f.previous_sequence ≡ some p
      → following p ≡ sequence
      → packet ≡ drop f.previous_accepted f.previous_data ++ extra
      → taken ++ f.output ≡ sent
      → Position f taken sent sequence packet

-- What a flow remembers of the last frame.
pub record IsSame (f g : SolFlow) : Type 0 where
  pub previous_sequence : g.previous_sequence ≡ f.previous_sequence
  pub previous_data : g.previous_data ≡ f.previous_data
  pub previous_accepted : g.previous_accepted ≡ f.previous_accepted

pub note_ack-IsSame : (f : SolFlow) (frame : SolFrame) → IsSame f (note_ack f frame)
unfolding note_ack
note_ack-IsSame f frame = ground arith

pub note_ack-output : (f : SolFlow) (frame : SolFrame) → (note_ack f frame).output ≡ f.output
unfolding note_ack
note_ack-output f frame = ground arith

pub Position-IsSame :
    (f g : SolFlow) (taken taken' : List ℕ) {sent packet : List ℕ} {s : ℕ}
    → IsSame f g
    → taken' ++ g.output ≡ taken ++ f.output
    → Position f taken sent s packet
    → Position g taken' sent s packet
Position-IsSame f g taken taken' same out (first a b) = first (cc same.previous_sequence) (out ∙ b)
Position-IsSame f g taken taken' same out (seen a b c) =
    seen (same.previous_sequence ∙ a) (same.previous_data ∙ b)
      (out ∙ cc (c, same.previous_accepted))
Position-IsSame f g taken taken' same out (next p extra a b c d) =
    next p extra (same.previous_sequence ∙ a) b (cc (c, same.previous_accepted, same.previous_data))
      (out ∙ d)

order_first :
    (g : SolFlow) (frame : SolFrame) → g.previous_sequence ≡ none → check_order g frame ≡ ok g
unfolding check_order
order_first g frame e = ground arith

order_seen :
    (g : SolFlow) (frame : SolFrame)
    → IsBounded g
    → g.previous_sequence ≡ some frame.sequence
    → g.previous_data ≡ frame.payload
    → check_order g frame ≡ ok g
unfolding check_order
order_seen g frame b e d = ground (arith, bytes_eq_refl (take (length frame.payload) frame.payload))

order_next :
    (g : SolFlow) (frame : SolFrame) (p : ℕ) (extra : List ℕ)
    → g.previous_sequence ≡ some p
    → following p ≡ frame.sequence
    → frame.payload ≡ drop g.previous_accepted g.previous_data ++ extra
    → check_order g frame ≡ ok (record g { previous_accepted = 0 })
unfolding check_order
order_next g frame p extra e n d =
    ground (arith, starts_with-append (drop g.previous_accepted g.previous_data) extra)

-- `accept` on a frame that fits and is in order.
pub accept_stores :
    (f h : SolFlow) (frame : SolFrame)
    → length frame.payload + 4 ≤ f.max_output
    → 1 ≤ frame.sequence
    → check_order (note_ack f frame) frame ≡ ok h
    → IsReady h frame
    → accept f frame
      ≡ some (
        stored h frame (is_new (note_ack f frame) frame),
        ok (
            some (
              ack_frame frame.sequence
                (confirmed h frame)
                (ltb (confirmed h frame) (length frame.payload)))),
      )
unfolding accept
accept_stores f h frame fits pos e r =
    ground (arith, e, store-stored h frame (is_new (note_ack f frame) frame) r)

append_part :
    (taken output sent bytes : List ℕ) (n k : ℕ)
    → taken ++ output ≡ sent ++ take n bytes
    → taken ++ (output ++ take (n + k - n) (drop n bytes)) ≡ sent ++ take (n + k) bytes
append_part taken output sent bytes n k e =
    let part = take (n + k - n) (drop n bytes) in
    let same : n + k - n ≡ k = omega arith in
    sym (append_assoc taken output part)
    ∙ ap (λ t. t ++ part) e
    ∙ append_assoc sent (take n bytes) part
    ∙ ap (λ t. sent ++ t)
        (ap (λ j. take n bytes ++ take j (drop n bytes)) same ∙ take-add n k bytes)

-- A frame that is stored is the packet seen last, and its new bytes are in their place.
stored-seen :
    (h : SolFlow) (frame : SolFrame) (new : Bool) (taken sent : List ℕ)
    → taken ++ h.output ≡ sent ++ take h.previous_accepted frame.payload
    → (if new || ltb (length h.previous_data) (length frame.payload)
        then frame.payload
        else h.previous_data)
      ≡ frame.payload
    → Position (stored h frame new) taken sent frame.sequence frame.payload
stored-seen h frame new taken sent e kept =
    seen refl kept (append_part taken h.output sent frame.payload h.previous_accepted _ e)

pub following-ne : (p : ℕ) → following p ≢ p
unfolding following
following-ne p e = ground arith

pub following-pos : (p : ℕ) → 1 ≤ p → 1 ≤ following p
unfolding following
following-pos p h = ground arith

-- In order, a packet that fits the limit is never refused.
pub order_agrees :
    (g : SolFlow) (frame : SolFrame) (taken sent : List ℕ)
    → IsBounded g
    → length frame.payload ≤ 255
    → Position g taken sent frame.sequence frame.payload
    → (h : SolFlow) × (check_order g frame ≡ ok h)
      × (h.output ≡ g.output)
      × IsReady h frame
      × Position (stored h frame (is_new g frame)) taken sent frame.sequence frame.payload
order_agrees g frame taken sent b fits (first e t) = (
  g,
  order_first g frame e,
  refl,
  ground (arith, b.first e),
  stored-seen g frame (is_new g frame) taken sent
      (t ∙ sym (append-nil sent) ∙ ap (λ j. sent ++ take j frame.payload) (sym (b.first e)))
      (ground arith),
)
order_agrees g frame taken sent b fits (seen e d t) = (
  g,
  order_seen g frame b e d,
  refl,
  ground arith,
  stored-seen g frame (is_new g frame) taken sent t (ground arith),
)
order_agrees g frame taken sent b fits (next p extra e n d t) = (
  record g { previous_accepted = 0 },
  order_next g frame p extra e n d,
  refl,
  ground arith,
  stored-seen (record g { previous_accepted = 0 }) frame (is_new g frame) taken sent
      (t ∙ sym (append-nil sent)) (ground (arith, following-ne p)),
)

accept_over :
    (f : SolFlow) (frame : SolFrame)
    → f.max_output < length frame.payload + 4
    → accept f frame ≡ some (f, err exceeds_negotiated_limit)
unfolding accept
accept_over f frame h = ground arith

pub accept_in_order :
    (f : SolFlow) (frame : SolFrame) (taken sent : List ℕ)
    → IsBounded f
    → 1 ≤ frame.sequence
    → Position f taken sent frame.sequence frame.payload
    → (r : SolFlow × Result SolFrameError (Option SolFrame)) × (accept f frame ≡ some r)
      × Position r.0 taken sent frame.sequence frame.payload
accept_in_order f frame taken sent b pos p = elim (dec_le (length frame.payload + 4) f.max_output) [
  | no over ↦ ((f, err exceeds_negotiated_limit), accept_over f frame (omega arith), p)
  | yes fits ↦
      let same =
        Position-IsSame f (note_ack f frame) taken taken (note_ack-IsSame f frame)
          (ap (λ t. taken ++ t) (note_ack-output f frame)) p in
      let (h, e, _, ready, q) =
        order_agrees (note_ack f frame) frame taken sent (note_ack-IsBounded f frame b)
          (omega (arith, b.limit)) same in
      (_, accept_stores f h frame fits pos e ready, q)
]

-- Once the packet is seen, the stream is known up to what was taken of it.
pub seen_stream :
    (f : SolFlow) {taken sent packet : List ℕ} {s : ℕ}
    → f.previous_sequence ≡ some s
    → Position f taken sent s packet
    → (f.previous_data ≡ packet) × (taken ++ f.output ≡ sent ++ take f.previous_accepted packet)
seen_stream f e (first a b) = cc
seen_stream f e (seen a b c) = (b, c)
seen_stream f e (next p x a b c d) = absurd (following-ne p (cc))
