-- ===== src/Rmcp/V2_0/Session/Delivered.antt =====
-- Which messages a session accepts, told from what a call does and not from the numbers that it keeps.
use ipmi_rs.Base.{
  ℕ, suc, ◌+◌, ◌≡◌, refl, sym, ap, ◌∙◌, Bool, true, false, not, List, [], ◌∷◌, ◌++◌, Option, none,
  some, Result, ok, err, ◌!=◌, leb, if◌then◌else◌, Bool-cases, Result-cases, length, inl, inr,
}
use mathlib.Core.Path.{subst}
use mathlib.Core.List.{append_assoc}
use ipmi_rs.Connection.Message.{Response}
use ipmi_rs.Rmcp.Errors.{
  RmcpIpmiSendError, RmcpIpmiReceiveError, session, sol_ack_failed, session_id_mismatch,
  invalid_session_sequence, too_many_unrelated_packets, unexpected_payload_type,
}
use ipmi_rs.Rmcp.Errors
use ipmi_rs.Rmcp.Sol.Frame.{SolFrame, SolFrameError, decode, ack_frame}
use ipmi_rs.Rmcp.Sol.Flow.{SolFlow, accept}
use ipmi_rs.Rmcp.Ipmb.State.{IpmbState, is_some, poll_message}
use ipmi_rs.Rmcp.Ipmb.Receive.{receive}
use ipmi_rs.Rmcp.V1_5.Receive.{is_replay, max_unrelated}
use ipmi_rs.Rmcp.V2_0.Payload.{PayloadType, ipmi_message, sol, Message}
use ipmi_rs.Rmcp.V2_0.Crypto.Backend.{Backend}
use ipmi_rs.Rmcp.V2_0.Crypto.Packet.{read_payload}
use ipmi_rs.Rmcp.V2_0.Session.{Session, Sending, send_sol_frame}
use ipmi_rs.Rmcp.V2_0.Session.Receive.{
  Received, refused, after_ipmb, on_ipmb_message, acknowledged, reported, after_accept, on_frame,
  on_sol_message, by_type, on_message, receive_one,
}
use ipmi_rs.Rmcp.V2_0.Session.Loops.{
  Event, arrives, arrives_other, probes, fails, Ending, Loop, Turn, turn, after_turn, with_received,
  on_ipmb, on_probe, recv_loop, start, recv, commit, PollEvent, polls, polls_other, poll_fails,
  after_poll, poll_counted, Polled, then_poll, poll_sol,
}
use ipmi_rs.Rmcp.V1_5.Delivered.{nothing_before}
use ipmi_rs.Rmcp.V2_0.Session.Replay.{on_frame-Kept, after_receive-Same, probe-Same}

abbrev pub Outcome : Type 0
Outcome = Option (Result RmcpIpmiReceiveError (Option Response))

-- An IPMI message is accepted where it is no error; a SOL message also where its frame is one, or the
-- acknowledgement of it fails, or it makes the flow panic.
abbrev pub ipmi_delivers : Outcome → Bool
ipmi_delivers (some (ok response)) = true
ipmi_delivers _ = false

abbrev pub sol_delivers : Outcome → Bool
sol_delivers none = true
sol_delivers (some (ok response)) = true
sol_delivers (some (err (Errors.sol e))) = true
sol_delivers (some (err sol_ack_failed)) = true
sol_delivers _ = false

abbrev pub delivers : PayloadType → Outcome → Bool
delivers ipmi_message outcome = ipmi_delivers outcome
delivers sol outcome = sol_delivers outcome
delivers _ outcome = false

abbrev pub accepted_if : Bool → ℕ → List ℕ
accepted_if true number = number ∷ []
accepted_if false number = []

-- The number of the message in a datagram, if the outcome says that it was accepted.
unfoldable pub datagram_accepted : Backend → Session → List ℕ → Outcome → List ℕ
datagram_accepted b s bytes outcome = elim (read_payload b s.state bytes) [
  | err e ↦ []
  | ok m ↦ accepted_if (delivers m.ty outcome) m.session_sequence_number
]

abbrev Told : List ℕ → PayloadType → ℕ → Received → Type 0
Told seen ty number r = r.seen ≡ accepted_if (delivers ty r.result) number ++ seen

refused-Told :
    (s : Session) (seen : List ℕ) (e : RmcpIpmiReceiveError) (ty : PayloadType) (number : ℕ)
    → sol_delivers (some (err e)) ≡ false
    → Told seen ty number (refused s seen e)
refused-Told s seen e ipmi_message number h = refl
refused-Told s seen e sol number h = ap (λ t. accepted_if t number ++ seen) (sym h)
refused-Told s seen e _ number h = refl

on_ipmb_message-Told :
    (s : Session) (seen : List ℕ) (m : Message)
    → Told seen ipmi_message m.session_sequence_number (on_ipmb_message s seen m)
unfolding on_ipmb_message
on_ipmb_message-Told s seen m = elim (Bool-cases (not (is_some s.ipmb_state.pending))) [
  | inl e ↦ rw e refl
  | inr e ↦ rw e (after (receive s.ipmb_state m.payload))
]
  where
    after :
        (r : IpmbState × Result RmcpIpmiReceiveError (Option Response))
        → Told seen ipmi_message m.session_sequence_number
            (after_ipmb s seen m.session_sequence_number r)
    after (ipmb, err e) = refl
    after (ipmb, ok response) = refl

acknowledged-delivers :
    (seen : List ℕ) (result : Result RmcpIpmiReceiveError (Option Response))
    (r : Session × Result RmcpIpmiSendError (List ℕ))
    → sol_delivers (some result) ≡ true
    → sol_delivers (acknowledged seen result r).result ≡ true
acknowledged-delivers seen result (s, err e) h = refl
acknowledged-delivers seen result (s, ok bytes) h = h

reported-delivers : (frame : SolFrame) → sol_delivers (some (reported frame)) ≡ true
reported-delivers frame = elim (Bool-cases frame.flags.inactive) [
  | inl a ↦ rw a refl
  | inr a ↦ elim (Bool-cases frame.flags.overrun) [
    | inl o ↦ rw (a, o) refl
    | inr o ↦ rw (a, o) refl
  ]
]

after_accept-delivers :
    (b : Backend) (s : Session) (seen : List ℕ) (io : Sending) (frame : SolFrame)
    (r : Option (SolFlow × Result SolFrameError (Option SolFrame)))
    → sol_delivers (after_accept b s seen io frame r).result ≡ true
after_accept-delivers b s seen io frame none = refl
after_accept-delivers b s seen io frame (some (flow, err e)) =
    elim (Bool-cases (frame.sequence != 0)) [
      | inl q ↦
          let t : Session = record s { sol_flow = some flow } in
          rw q (
            acknowledged-delivers seen (err (Errors.sol e))
              (send_sol_frame b t io (ack_frame frame.sequence 0 true)) refl)
      | inr q ↦ rw q refl
    ]
after_accept-delivers b s seen io frame (some (flow, ok (some ack))) =
    acknowledged-delivers seen (reported frame)
      (send_sol_frame b (record s { sol_flow = some flow }) io ack) (reported-delivers frame)
after_accept-delivers b s seen io frame (some (flow, ok none)) = reported-delivers frame

on_frame-delivers :
    (b : Backend) (s : Session) (seen : List ℕ) (io : Sending) (flow : SolFlow)
    (r : Result SolFrameError SolFrame)
    → sol_delivers (on_frame b s seen io flow r).result ≡ true
on_frame-delivers b s seen io flow (err e) = refl
on_frame-delivers b s seen io flow (ok frame) =
    after_accept-delivers b s seen io frame (accept flow frame)

on_sol_message-Told :
    (b : Backend) (s : Session) (seen : List ℕ) (io : Sending) (m : Message) (flow : Option SolFlow)
    → Told seen sol m.session_sequence_number (on_sol_message b s seen io m flow)
unfolding on_sol_message
on_sol_message-Told b s seen io m none = refl
on_sol_message-Told b s seen io m (some flow) =
    let number = m.session_sequence_number in
    let k = on_frame-Kept b s (number ∷ seen) io flow (decode m.payload) in
    let d = on_frame-delivers b s (number ∷ seen) io flow (decode m.payload) in
    k.1 ∙ ap (λ t. accepted_if t number ++ seen) (sym d)

by_type-Told :
    (b : Backend) (s : Session) (seen : List ℕ) (io : Sending) (m : Message) (ty : PayloadType)
    → Told seen ty m.session_sequence_number (by_type b s seen io m ty)
by_type-Told b s seen io m ipmi_message = on_ipmb_message-Told s seen m
by_type-Told b s seen io m sol = on_sol_message-Told b s seen io m s.sol_flow
by_type-Told b s seen io m _ = refl

on_message-Told :
    (b : Backend) (s : Session) (seen : List ℕ) (io : Sending) (m : Message)
    → Told seen m.ty m.session_sequence_number (on_message b s seen io m)
unfolding on_message
on_message-Told b s seen io m = elim (Bool-cases (m.session_id != s.console_session_id)) [
  | inl other ↦
      rw other (refused-Told s seen session_id_mismatch m.ty m.session_sequence_number refl)
  | inr ours ↦
      elim (Bool-cases (is_replay s.last_inbound_sequence seen m.session_sequence_number)) [
        | inl old ↦
            rw (ours, old)
              (refused-Told s seen invalid_session_sequence m.ty m.session_sequence_number refl)
        | inr new ↦ elim (Bool-cases (leb (64 + max_unrelated) (length seen))) [
          | inl full ↦
              rw (ours, new, full)
                (refused-Told s seen too_many_unrelated_packets m.ty m.session_sequence_number refl)
          | inr room ↦ rw (ours, new, room) (by_type-Told b s seen io m m.ty)
        ]
      ]
]

pub receive_one-accepted :
    (b : Backend) (s : Session) (seen : List ℕ) (io : Sending) (bytes : List ℕ)
    → (receive_one b s seen io bytes).seen
      ≡ datagram_accepted b s bytes (receive_one b s seen io bytes).result ++ seen
unfolding receive_one datagram_accepted
receive_one-accepted b s seen io bytes = elim (Result-cases (read_payload b s.state bytes)) [
  | inl (m, e) ↦
      let number = m.session_sequence_number in
      let r = on_message b s seen io m in
      let q : receive_one b s seen io bytes ≡ r = rw (e, receive_one) in
      let d : datagram_accepted b s bytes r.result ≡ accepted_if (delivers m.ty r.result) number =
        rw (e, datagram_accepted) in
      subst (λ x. x.seen ≡ datagram_accepted b s bytes x.result ++ seen) (sym q)
        (on_message-Told b s seen io m ∙ ap (λ x. x ++ seen) (sym d))
  | inr (x, e) ↦
      let q : receive_one b s seen io bytes ≡ refused s seen session = rw (e, receive_one) in
      let d : datagram_accepted b s bytes (some (err session)) ≡ [] = rw (e, datagram_accepted) in
      subst (λ x. x.seen ≡ datagram_accepted b s bytes x.result ++ seen) (sym q)
        (ap (λ x. x ++ seen) (sym d))
]

-- The number of the message that a turn of `recv` accepts, if it does.
abbrev pub turn_accepted : Backend → Loop → Event → List ℕ
turn_accepted b l (arrives io bytes) =
    datagram_accepted b l.session bytes (receive_one b l.session l.seen io bytes).result
turn_accepted b l arrives_other = []
turn_accepted b l (probes io) = []
turn_accepted b l (fails e) = []

abbrev pub unless_ended : {A : Type 0} → Option (Ending A) → List ℕ → List ℕ
unless_ended none later = later
unless_ended (some r) later = []

-- The numbers of the messages that the loop accepts, the later ones first.
unfoldable pub loop_accepted : Backend → Loop → List Event → List ℕ
loop_accepted b l [] = []
loop_accepted b l (event ∷ events) =
    unless_ended (turn b l event).1 (loop_accepted b (turn b l event).0 events)
    ++ turn_accepted b l event

-- Those that a call of `recv` accepts.
unfoldable pub recv_accepted : Backend → Session → List Event → List ℕ
recv_accepted b s events =
    if is_some s.ipmb_state.pending then loop_accepted b (start s) events else []

-- Those that a call of `poll_sol` accepts.
unfoldable pub poll_accepted : Backend → Session → Bool → ℕ → List PollEvent → List ℕ
poll_accepted b s wait_ack unrelated [] = []
poll_accepted b s wait_ack unrelated (polls io bytes ∷ events) =
    let r = receive_one b s [] io bytes in
    let s' = commit r.session r.seen in
    unless_ended (after_poll wait_ack unrelated s'.sol_flow r.result)
      (poll_accepted b s' wait_ack (suc unrelated) events)
    ++ datagram_accepted b s bytes r.result
poll_accepted b s wait_ack unrelated (polls_other ∷ events) =
    unless_ended (poll_counted unrelated) (poll_accepted b s wait_ack (suc unrelated) events)
poll_accepted b s wait_ack unrelated (poll_fails e ∷ events) = []

turn-accepted :
    (b : Backend) (l : Loop) (event : Event)
    → (turn b l event).0.seen ≡ turn_accepted b l event ++ l.seen
unfolding turn on_probe
turn-accepted b l (arrives io bytes) =
    let r = receive_one b l.session l.seen io bytes in
    (after_receive-Same (with_received l r) r.result).1
    ∙ receive_one-accepted b l.session l.seen io bytes
turn-accepted b l arrives_other = refl
turn-accepted b l (probes io) =
    let r = poll_message l.session.ipmb_state in (probe-Same b (on_ipmb l r.0) io r.1).1
turn-accepted b l (fails e) = refl

after_turn-accepted :
    (t : Turn) (rest : Loop × Ending Response) (later now seen : List ℕ)
    → t.0.seen ≡ now ++ seen
    → rest.0.seen ≡ later ++ t.0.seen
    → (after_turn t rest).0.seen ≡ (unless_ended t.1 later ++ now) ++ seen
after_turn-accepted (l, some r) rest later now seen h k = h
after_turn-accepted (l, none) rest later now seen h k =
    k ∙ ap (λ x. later ++ x) h ∙ sym (append_assoc later now seen)

recv_loop-accepted :
    (b : Backend) (l : Loop) (events : List Event)
    → (recv_loop b l events).0.seen ≡ loop_accepted b l events ++ l.seen
unfolding recv_loop loop_accepted
recv_loop-accepted b l [] = refl
recv_loop-accepted b l (event ∷ events) =
    let t = turn b l event in
    after_turn-accepted t (recv_loop b t.0 events) (loop_accepted b t.0 events)
      (turn_accepted b l event) l.seen (turn-accepted b l event) (recv_loop-accepted b t.0 events)

-- The numbers that a call of `recv` keeps are those of the messages that it accepts.
pub recv-accepted :
    (b : Backend) (s : Session) (events : List Event)
    → (recv b s events).1.0 ≡ recv_accepted b s events
unfolding recv recv_accepted
recv-accepted b s events = elim (Bool-cases (is_some s.ipmb_state.pending)) [
  | inl p ↦
      rw p
        (recv_loop-accepted b (start s) events ∙ nothing_before (loop_accepted b (start s) events))
  | inr p ↦ rw p refl
]

then_poll-accepted :
    (s : Session) (seen now later : List ℕ) (o : Option (Ending (Unit {0}))) (rest : Polled)
    → seen ≡ now
    → rest.1.0 ≡ later
    → (then_poll s seen o rest).1.0 ≡ unless_ended o later ++ now
then_poll-accepted s seen now later (some ending) rest h k = h
then_poll-accepted s seen now later none (s', (more, ending)) h k =
    ap (λ x. x ++ seen) k ∙ ap (λ x. later ++ x) h

-- And so it is of `poll_sol`.
pub poll_sol-accepted :
    (b : Backend) (s : Session) (wait_ack : Bool) (unrelated : ℕ) (events : List PollEvent)
    → (poll_sol b s wait_ack unrelated events).1.0 ≡ poll_accepted b s wait_ack unrelated events
unfolding poll_sol poll_accepted
poll_sol-accepted b s wait_ack unrelated [] = refl
poll_sol-accepted b s wait_ack unrelated (polls io bytes ∷ events) =
    let r = receive_one b s [] io bytes in
    let s' = commit r.session r.seen in
    then_poll-accepted s' r.seen (datagram_accepted b s bytes r.result)
      (poll_accepted b s' wait_ack (suc unrelated) events)
      (after_poll wait_ack unrelated s'.sol_flow r.result)
      (poll_sol b s' wait_ack (suc unrelated) events)
      (receive_one-accepted b s [] io bytes ∙ nothing_before (datagram_accepted b s bytes r.result))
      (poll_sol-accepted b s' wait_ack (suc unrelated) events)
poll_sol-accepted b s wait_ack unrelated (polls_other ∷ events) =
    then_poll-accepted s [] [] (poll_accepted b s wait_ack (suc unrelated) events)
      (poll_counted unrelated) (poll_sol b s wait_ack (suc unrelated) events) refl
      (poll_sol-accepted b s wait_ack (suc unrelated) events)
    ∙ nothing_before _
poll_sol-accepted b s wait_ack unrelated (poll_fails e ∷ events) = refl
