-- ===== src/Rmcp/Sol/Flow/Bounds.antt =====
-- The bounds of a SOL flow, which keep its subtractions and slices from failing.
use ipmi_rs.Base.{
  ℕ, ◌+◌, ◌-◌, ◌≤◌, ◌≡◌, ◌||◌, ◌++◌, ltb, if◌then◌else◌, Bool, Option, none, some, min, Result, ok,
  err, arith, length, take, drop, length-append, length-take, Bool-cases, Result-cases, inl, inr,
  ◌==◌,
}
use ipmi_rs.Rmcp.Sol.Frame.{SolFrame, SolFrameError, ack_frame, exceeds_negotiated_limit}
use ipmi_rs.Rmcp.Sol.Flow.{
  SolFlow, flow_new, accept, note_ack, check_order, store, is_new, max_output_queue,
}

pub record IsBounded (f : SolFlow) : Type 0 where
  pub queue : length f.output ≤ max_output_queue
  pub accepted : f.previous_accepted ≤ length f.previous_data
  pub seen : length f.previous_data ≤ 255
  pub first : f.previous_sequence ≡ none → f.previous_accepted ≡ 0
  pub limit : f.max_output ≤ 259

pub flow_new-IsBounded : (i o : ℕ) → IsBounded (flow_new i o)
unfolding flow_new
flow_new-IsBounded i o = ground arith

pub note_ack-IsBounded :
    (f : SolFlow) (frame : SolFrame) → IsBounded f → IsBounded (note_ack f frame)
unfolding note_ack
note_ack-IsBounded f frame b = ground arith

-- A flow that may store a frame: what it has accepted of it is there.
pub record IsReady (f : SolFlow) (frame : SolFrame) : Type 0 where
  pub bounded : IsBounded f
  pub prefix : f.previous_accepted ≤ length frame.payload

check_order-IsReady :
    (f h : SolFlow) (frame : SolFrame) → IsBounded f → check_order f frame ≡ ok h → IsReady h frame
unfolding check_order
check_order-IsReady f h frame b e = ground arith

-- How much of the frame is confirmed after the store.
abbrev pub confirmed : SolFlow → SolFrame → ℕ
confirmed f frame =
    f.previous_accepted
    + min (min (length frame.payload - f.previous_accepted) (max_output_queue - length f.output))
        (255 - f.previous_accepted)

abbrev pub stored : SolFlow → SolFrame → Bool → SolFlow
stored f frame new = record f {
  output =
      f.output
      ++ take (confirmed f frame - f.previous_accepted) (drop f.previous_accepted frame.payload);
  previous_sequence = some frame.sequence;
  previous_data =
      if new || ltb (length f.previous_data) (length frame.payload)
      then frame.payload
      else f.previous_data;
  previous_accepted = confirmed f frame;
}

pub store-stored :
    (f : SolFlow) (frame : SolFrame) (new : Bool)
    → IsReady f frame
    → store f frame new
      ≡ some (
        stored f frame new,
        ack_frame frame.sequence
            (confirmed f frame)
            (ltb (confirmed f frame) (length frame.payload)),
      )
unfolding store
store-stored f frame new r = ground arith

pub stored-IsBounded :
    (f : SolFlow) (frame : SolFrame) (new : Bool)
    → length frame.payload ≤ 255
    → IsReady f frame
    → IsBounded (stored f frame new)
stored-IsBounded f frame new fits r = record {
  queue = ground (
    arith,
    length-append f.output
        (take (confirmed f frame - f.previous_accepted) (drop f.previous_accepted frame.payload)),
    length-take (confirmed f frame - f.previous_accepted) (drop f.previous_accepted frame.payload),
  );
  accepted = ground arith;
  seen = ground arith;
  first = λ e. cc;
  limit = r.bounded.limit;
}

-- What a call ends with: a bounded flow, and, where it acknowledges the frame, a count that is the
-- number of bytes of the frame that the flow has taken.
pub record IsSound (frame : SolFrame) (r : SolFlow × Result SolFrameError (Option SolFrame))
    : Type 0 where
  pub bounded : IsBounded r.0
  pub honest :
      (a : SolFrame)
      → r.1 ≡ ok (some a)
      → (a.ack ≡ frame.sequence)
        × (a.accepted ≡ r.0.previous_accepted)
        × (a.accepted ≤ length frame.payload)
        × (a.flags.nack ≡ ltb a.accepted (length frame.payload))

stored-IsSound :
    (f : SolFlow) (frame : SolFrame) (new : Bool)
    → length frame.payload ≤ 255
    → IsReady f frame
    → IsSound frame (
      stored f frame new,
      ok (
          some (
            ack_frame frame.sequence
              (confirmed f frame)
              (ltb (confirmed f frame) (length frame.payload)))),
    )
unfolding ack_frame
stored-IsSound f frame new fits r = record {
  bounded = stored-IsBounded f frame new fits r;
  honest = λ a e. ground arith;
}

accept_body :
    (f : SolFlow) (frame : SolFrame)
    → IsBounded f
    → length frame.payload + 4 ≤ f.max_output
    → (r : SolFlow × Result SolFrameError (Option SolFrame)) × (accept f frame ≡ some r)
      × IsSound frame r
unfolding accept
accept_body f frame b fits = elim (Bool-cases (frame.sequence == 0)) [
  | inl ack_only ↦ (
    (note_ack f frame, ok none),
    ground arith,
    record { bounded = note_ack-IsBounded f frame b; honest = λ a e. cc },
  )
  | inr numbered ↦ elim (Result-cases (check_order (note_ack f frame) frame)) [
    | inl (h, e) ↦
        let ready =
          check_order-IsReady (note_ack f frame) h frame (note_ack-IsBounded f frame b) e in
        (
          _,
          ground (arith, e, store-stored h frame (is_new (note_ack f frame) frame) ready),
          stored-IsSound h frame (is_new (note_ack f frame) frame) (omega (arith, b.limit)) ready,
        )
    | inr (x, e) ↦ (
      (note_ack f frame, err x),
      ground (arith, e),
      record { bounded = note_ack-IsBounded f frame b; honest = λ a e. cc },
    )
  ]
]

-- From a bounded flow no frame makes a subtraction or a slice fail; the flow stays bounded; and an
-- acknowledgement names the frame's sequence number, claims the bytes that the flow took of the
-- frame and no more, and is negative exactly when some were left.
pub accept-IsSound :
    (f : SolFlow) (frame : SolFrame)
    → IsBounded f
    → (r : SolFlow × Result SolFrameError (Option SolFrame)) × (accept f frame ≡ some r)
      × IsSound frame r
unfolding accept
accept-IsSound f frame b = elim (Bool-cases (ltb f.max_output (length frame.payload + 4))) [
  | inl over ↦
      ((f, err exceeds_negotiated_limit), rw over, record { bounded = b; honest = λ a e. cc })
  | inr fits ↦ accept_body f frame b (ground arith)
]
