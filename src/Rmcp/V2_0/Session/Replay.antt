-- ===== src/Rmcp/V2_0/Session/Replay.antt =====
-- The filter of `receive_one`: no sequence number is accepted twice in a session.
use ipmi_rs.Base.{
  ℕ, ◌+◌, ◌≡◌, ◌⊎◌, inl, inr, refl, sym, ap, ◌∙◌, true, false, List, ◌∷◌, Option, none, some,
  Result, ok, err, ◌!=◌, leb, not, Bool-cases, Result-cases, arith, length,
}
use ipmi_rs.Connection.Message.{Response}
use ipmi_rs.Rmcp.Errors.{RmcpIpmiSendError, RmcpIpmiReceiveError}
use ipmi_rs.Rmcp.Sol.Frame.{SolFrame, SolFrameError, decode, encode, ack_frame}
use ipmi_rs.Rmcp.Sol.Flow.{SolFlow, accept}
use ipmi_rs.Rmcp.Ipmb.State.{IpmbState, is_some, needs_poll}
use ipmi_rs.Rmcp.Ipmb.Receive.{receive}
use ipmi_rs.Rmcp.V1_5.Receive.{is_replay, max_unrelated}
use ipmi_rs.Rmcp.V2_0.Payload.{PayloadType, ipmi_message, sol, Message}
use ipmi_rs.Rmcp.V2_0.Crypto.Backend.{Backend}
use ipmi_rs.Rmcp.V2_0.Crypto.Packet.{read_payload, write_payload}
use ipmi_rs.Rmcp.V2_0.Session.{
  Session, Sending, outgoing, send_numbered, send_payload, send_sol_frame,
}
use ipmi_rs.Rmcp.V2_0.Session.Loops.{Loop, Turn, after_error, after_receive, after_probe, probe}
use ipmi_rs.Rmcp.V2_0.Session.Receive.{
  Received, after_ipmb, on_ipmb_message, acknowledged, after_accept, on_frame, on_sol_message,
  by_type, on_message, receive_one,
}

-- What the filter reads of the session, which no send and no datagram changes.
abbrev pub fixed : Session → ℕ × Option ℕ
fixed s = (s.console_session_id, s.last_inbound_sequence)

pub send_numbered-fixed :
    (b : Backend) (s : Session) (io : Sending) (ty : PayloadType) (payload : List ℕ)
    → fixed (send_numbered b s io ty payload).0 ≡ fixed s
unfolding send_numbered
send_numbered-fixed b s io ty payload =
    elim (Result-cases (write_payload b s.state io.iv (outgoing s ty payload))) [
      | inl (bytes, e) ↦ rw (e, send_numbered)
      | inr (x, e) ↦ rw (e, send_numbered)
    ]

pub send_payload-fixed :
    (b : Backend) (s : Session) (io : Sending) (payload : List ℕ)
    → fixed (send_payload b s io payload).0 ≡ fixed s
unfolding send_payload
send_payload-fixed b s io payload =
    let n = send_numbered-fixed b s io ipmi_message payload in ground (arith, n)

pub send_sol_frame-fixed :
    (b : Backend) (s : Session) (io : Sending) (frame : SolFrame)
    → fixed (send_sol_frame b s io frame).0 ≡ fixed s
unfolding send_sol_frame
send_sol_frame-fixed b s io frame = elim (Result-cases (encode frame)) [
  | inl (payload, e) ↦ let n = send_numbered-fixed b s io sol payload in ground (arith, n, e)
  | inr (x, e) ↦ ground (arith, e)
]

-- A datagram leaves the numbers seen, or adds one that is not a replay.
abbrev pub Advances : Session → List ℕ → List ℕ → Type 0
Advances s seen seen' =
    (seen' ≡ seen)
    ⊎ ((q : ℕ) × ((seen' ≡ q ∷ seen) × (is_replay s.last_inbound_sequence seen q ≡ false)))

abbrev Noted : Session → List ℕ → ℕ → Received → Type 0
Noted s seen q r = (fixed r.session ≡ fixed s) × ((r.seen ≡ seen) ⊎ (r.seen ≡ q ∷ seen))

on_ipmb_message-Noted :
    (s : Session) (seen : List ℕ) (m : Message)
    → Noted s seen m.session_sequence_number (on_ipmb_message s seen m)
unfolding on_ipmb_message
on_ipmb_message-Noted s seen m = elim (Bool-cases (not (is_some s.ipmb_state.pending))) [
  | inl e ↦ rw e (refl, inl refl)
  | inr e ↦ rw e (after (receive s.ipmb_state m.payload))
]
  where
    after :
        (r : IpmbState × Result RmcpIpmiReceiveError (Option Response))
        → Noted s seen m.session_sequence_number (after_ipmb s seen m.session_sequence_number r)
    after (ipmb, err e) = (refl, inl refl)
    after (ipmb, ok response) = (refl, inr refl)

-- What was noted before the frame is read stays so.
acknowledged-fixed :
    (s : Session) (seen : List ℕ) (result : Result RmcpIpmiReceiveError (Option Response))
    (r : Session × Result RmcpIpmiSendError (List ℕ))
    → fixed r.0 ≡ fixed s
    → (fixed (acknowledged seen result r).session ≡ fixed s)
      × ((acknowledged seen result r).seen ≡ seen)
acknowledged-fixed s seen result (t, err e) h = (h, refl)
acknowledged-fixed s seen result (t, ok m) h = (h, refl)

abbrev Kept : Session → List ℕ → Received → Type 0
Kept s seen r = (fixed r.session ≡ fixed s) × (r.seen ≡ seen)

after_accept-Kept :
    (b : Backend) (s : Session) (seen : List ℕ) (io : Sending) (frame : SolFrame)
    (r : Option (SolFlow × Result SolFrameError (Option SolFrame)))
    → Kept s seen (after_accept b s seen io frame r)
after_accept-Kept b s seen io frame none = (refl, refl)
after_accept-Kept b s seen io frame (some (flow, err e)) = elim (Bool-cases (frame.sequence != 0)) [
  | inl q ↦
      let t : Session = record s { sol_flow = some flow } in
      let f = send_sol_frame-fixed b t io (ack_frame frame.sequence 0 true) in
      rw q (acknowledged-fixed s seen _ (send_sol_frame b t io (ack_frame frame.sequence 0 true)) f)
  | inr q ↦ rw q (refl, refl)
]
after_accept-Kept b s seen io frame (some (flow, ok (some ack))) =
    let t : Session = record s { sol_flow = some flow } in
    acknowledged-fixed s seen _ (send_sol_frame b t io ack) (send_sol_frame-fixed b t io ack)
after_accept-Kept b s seen io frame (some (flow, ok none)) = (refl, refl)

pub on_frame-Kept :
    (b : Backend) (s : Session) (seen : List ℕ) (io : Sending) (flow : SolFlow)
    (r : Result SolFrameError SolFrame)
    → Kept s seen (on_frame b s seen io flow r)
on_frame-Kept b s seen io flow (err e) = (refl, refl)
on_frame-Kept b s seen io flow (ok frame) = after_accept-Kept b s seen io frame (accept flow frame)

on_sol_message-Noted :
    (b : Backend) (s : Session) (seen : List ℕ) (io : Sending) (m : Message) (flow : Option SolFlow)
    → Noted s seen m.session_sequence_number (on_sol_message b s seen io m flow)
unfolding on_sol_message
on_sol_message-Noted b s seen io m none = (refl, inl refl)
on_sol_message-Noted b s seen io m (some flow) =
    let k = on_frame-Kept b s (m.session_sequence_number ∷ seen) io flow (decode m.payload) in
    (k.0, inr k.1)

by_type-Noted :
    (b : Backend) (s : Session) (seen : List ℕ) (io : Sending) (m : Message) (ty : PayloadType)
    → Noted s seen m.session_sequence_number (by_type b s seen io m ty)
by_type-Noted b s seen io m ipmi_message = on_ipmb_message-Noted s seen m
by_type-Noted b s seen io m sol = on_sol_message-Noted b s seen io m s.sol_flow
by_type-Noted b s seen io m _ = (refl, inl refl)

abbrev pub Moves : Session → List ℕ → Received → Type 0
Moves s seen r = (fixed r.session ≡ fixed s) × Advances s seen r.seen

Noted-Moves :
    (s : Session) (seen : List ℕ) (q : ℕ) (r : Received)
    → is_replay s.last_inbound_sequence seen q ≡ false
    → Noted s seen q r
    → Moves s seen r
Noted-Moves s seen q r h (e, inl k) = (e, inl k)
Noted-Moves s seen q r h (e, inr k) = (e, inr (q, (k, h)))

on_message-Moves :
    (b : Backend) (s : Session) (seen : List ℕ) (io : Sending) (m : Message)
    → Moves s seen (on_message b s seen io m)
unfolding on_message
on_message-Moves b s seen io m = elim (Bool-cases (m.session_id != s.console_session_id)) [
  | inl other ↦ rw other (refl, inl refl)
  | inr ours ↦
      elim (Bool-cases (is_replay s.last_inbound_sequence seen m.session_sequence_number)) [
        | inl old ↦ rw (ours, old) (refl, inl refl)
        | inr new ↦ elim (Bool-cases (leb (64 + max_unrelated) (length seen))) [
          | inl full ↦ rw (ours, new, full) (refl, inl refl)
          | inr room ↦
              rw (ours, new, room)
                (Noted-Moves s seen m.session_sequence_number (by_type b s seen io m m.ty) new
                  (by_type-Noted b s seen io m m.ty))
        ]
      ]
]

pub receive_one-Moves :
    (b : Backend) (s : Session) (seen : List ℕ) (io : Sending) (bytes : List ℕ)
    → Moves s seen (receive_one b s seen io bytes)
unfolding receive_one
receive_one-Moves b s seen io bytes = elim (Result-cases (read_payload b s.state bytes)) [
  | inl (m, e) ↦ rw (e, receive_one) (on_message-Moves b s seen io m)
  | inr (x, e) ↦ rw (e, receive_one) (refl, inl refl)
]

-- What a turn does after a datagram or a probe changes neither the numbers nor what the filter reads.
abbrev pub Same : Loop → Turn → Type 0
Same l t = (fixed t.0.session ≡ fixed l.session) × (t.0.seen ≡ l.seen)

after_error-Same : (l : Loop) (e : RmcpIpmiReceiveError) → Same l (after_error l e)
after_error-Same l e = ground arith

pub after_receive-Same :
    (l : Loop) (r : Option (Result RmcpIpmiReceiveError (Option Response)))
    → Same l (after_receive l r)
after_receive-Same l none = (refl, refl)
after_receive-Same l (some (err e)) = after_error-Same l e
after_receive-Same l (some (ok (some response))) = (refl, refl)
after_receive-Same l (some (ok none)) = elim (Bool-cases (needs_poll l.session.ipmb_state)) [
  | inl e ↦ rw e (refl, refl)
  | inr e ↦ rw e (refl, refl)
]

pub probe-Same :
    (b : Backend) (l : Loop) (io : Sending) (r : Result RmcpIpmiSendError (List ℕ))
    → Same l (probe b l io r)
probe-Same b l io (ok payload) =
    after (send_payload b l.session io payload) (send_payload-fixed b l.session io payload)
  where
    after :
        (r : Session × Result RmcpIpmiSendError (List ℕ))
        → fixed r.0 ≡ fixed l.session
        → Same l (after_probe l r)
    after (s, ok m) h = (h, refl)
    after (s, err e) h = (h, refl)
probe-Same b l io (err e) = ground arith

-- No list is longer than itself.
pub not_longer : (seen : List ℕ) (q : ℕ) → ¬ (seen ≡ q ∷ seen)
not_longer seen q e = ground (arith, ap length e)

Noted-number :
    (s : Session) (seen : List ℕ) (q number : ℕ) (r : Received)
    → Noted s seen q r
    → r.seen ≡ number ∷ seen
    → q ≡ number
Noted-number s seen q number r (f, inl e) h = absurd (not_longer seen number (sym e ∙ h))
Noted-number s seen q number r (f, inr e) h = let k : q ∷ seen ≡ number ∷ seen = sym e ∙ h in cc

-- A number is added only for a message of the session that has it.
pub on_message-Source :
    (b : Backend) (s : Session) (seen : List ℕ) (io : Sending) (m : Message) (number : ℕ)
    → (on_message b s seen io m).seen ≡ number ∷ seen
    → (m.session_id ≡ s.console_session_id) × (m.session_sequence_number ≡ number)
unfolding on_message
on_message-Source b s seen io m number h =
    elim (Bool-cases (m.session_id != s.console_session_id)) [
      | inl other ↦ absurd (not_longer seen number (rw other at h))
      | inr ours ↦
          elim (Bool-cases (is_replay s.last_inbound_sequence seen m.session_sequence_number)) [
            | inl old ↦ absurd (not_longer seen number (rw (ours, old) at h))
            | inr new ↦ elim (Bool-cases (leb (64 + max_unrelated) (length seen))) [
              | inl full ↦ absurd (not_longer seen number (rw (ours, new, full) at h))
              | inr room ↦ (
                ground (arith, ours),
                Noted-number s seen m.session_sequence_number number (by_type b s seen io m m.ty)
                    (by_type-Noted b s seen io m m.ty) (rw (ours, new, room) at h),
              )
            ]
          ]
    ]
