-- ===== src/Rmcp/V2_0/Session/Loops.antt =====
-- The loops that wait on an active session: `recv`, `commit_session_sequences` and `poll_sol` of
-- v2_0/mod.rs, with `record_unrelated` of internal.rs and `count_unrelated` of socket.rs.
use ipmi_rs.Base.{
  ℕ, suc, Bool, true, false, List, [], ◌∷◌, ◌++◌, Option, none, some, Result, ok, err, ◌!=◌, leb,
  if◌then◌else◌, length,
}
use ipmi_rs.Connection.Message.{Response}
use ipmi_rs.Rmcp.Errors.{
  RmcpIpmiSendError, ipmb_sequence_exhausted, ipmb_sequence_reserved, RmcpIpmiReceiveError,
  ipmb_response_mismatch, no_pending_request, session_id_mismatch, bridge_poll_send,
  invalid_session_sequence, too_many_unrelated_packets, timeout, unexpected_payload_type,
}
use ipmi_rs.Rmcp.Sol.Flow.{SolFlow}
use ipmi_rs.Rmcp.Ipmb.State.{
  IpmbState, is_some, needs_poll, poll_message, retire_pending, stop_polling,
}
use ipmi_rs.Rmcp.V1_5.Receive.{max_unrelated, highest}
use ipmi_rs.Rmcp.V2_0.Crypto.Backend.{Backend}
use ipmi_rs.Rmcp.V2_0.Session.{Session, Sending, send_payload}
use ipmi_rs.Rmcp.V2_0.Session.Receive.{Received, receive_one}

-- What a loop meets: a datagram, of the class IPMI or of another one, a time at which a probe is due,
-- or an error of the socket.
pub data Event : Type 0 where
  arrives : Sending → List ℕ → Event
  arrives_other : Event
  probes : Sending → Event
  fails : RmcpIpmiReceiveError → Event

pub data Ending (A : Type 0) : Type 0 where
  returned : Result RmcpIpmiReceiveError A → Ending A
  panicked : Ending A

-- The variables of the loop of `recv`.
pub record Loop : Type 0 where
  pub session : Session
  pub seen : List ℕ
  pub unrelated : ℕ
  pub first_mismatch : Option RmcpIpmiReceiveError

-- A turn goes on, or it ends the loop.
abbrev pub Turn : Type 0
Turn = Loop × Option (Ending Response)

abbrev first_of : Option RmcpIpmiReceiveError → RmcpIpmiReceiveError → RmcpIpmiReceiveError
first_of none e = e
first_of (some first) e = first

abbrev pub count_unrelated : Loop → Turn
count_unrelated l = (
  record l { unrelated = suc l.unrelated },
  if leb max_unrelated (suc l.unrelated)
      then some (returned (err too_many_unrelated_packets))
      else none,
)

abbrev pub record_unrelated : Loop → RmcpIpmiReceiveError → Turn
record_unrelated l e =
    count_unrelated (record l { first_mismatch = some (first_of l.first_mismatch e) })

abbrev pub after_error : Loop → RmcpIpmiReceiveError → Turn
after_error l ipmb_response_mismatch = record_unrelated l ipmb_response_mismatch
after_error l session_id_mismatch = record_unrelated l session_id_mismatch
after_error l invalid_session_sequence = record_unrelated l invalid_session_sequence
after_error l unexpected_payload_type = record_unrelated l unexpected_payload_type
after_error l e = (l, some (returned (err e)))

abbrev pub after_receive : Loop → Option (Result RmcpIpmiReceiveError (Option Response)) → Turn
after_receive l none = (l, some panicked)
after_receive l (some (err e)) = after_error l e
after_receive l (some (ok (some response))) = (l, some (returned (ok response)))
after_receive l (some (ok none)) =
    if needs_poll l.session.ipmb_state then (l, none) else count_unrelated l

abbrev pub with_received : Loop → Received → Loop
with_received l r = record l { session = r.session; seen = r.seen }

abbrev pub on_ipmb : Loop → IpmbState → Loop
on_ipmb l ipmb = record l { session = record l.session { ipmb_state = ipmb } }

abbrev pub after_probe : Loop → Session × Result RmcpIpmiSendError (List ℕ) → Turn
after_probe l (s, ok m) = (record l { session = s }, none)
after_probe l (s, err e) = (record l { session = s }, some (returned (err (bridge_poll_send e))))

abbrev pub without_probe : Loop → RmcpIpmiSendError → Turn
without_probe l ipmb_sequence_exhausted = (on_ipmb l (stop_polling l.session.ipmb_state), none)
without_probe l ipmb_sequence_reserved = (l, none)
without_probe l e = (l, some (returned (err (bridge_poll_send e))))

abbrev pub probe : Backend → Loop → Sending → Result RmcpIpmiSendError (List ℕ) → Turn
probe b l io (ok payload) = after_probe l (send_payload b l.session io payload)
probe b l io (err e) = without_probe l e

unfoldable pub on_probe : Backend → Loop → Sending → Turn
on_probe b l io = let r = poll_message l.session.ipmb_state in probe b (on_ipmb l r.0) io r.1

unfoldable pub turn : Backend → Loop → Event → Turn
turn b l (arrives io bytes) =
    let r = receive_one b l.session l.seen io bytes in after_receive (with_received l r) r.result
turn b l arrives_other = count_unrelated l
turn b l (probes io) = on_probe b l io
turn b l (fails e) = (l, some (returned (err e)))

abbrev pub after_turn : Turn → Loop × Ending Response → Loop × Ending Response
after_turn (l, some ending) rest = (l, ending)
after_turn (l, none) rest = rest

-- Where no event is left, the deadline has come.
unfoldable pub recv_loop : Backend → Loop → List Event → Loop × Ending Response
recv_loop b l [] = (l, returned (err (first_of l.first_mismatch timeout)))
recv_loop b l (event ∷ events) = let t = turn b l event in after_turn t (recv_loop b t.0 events)

abbrev pub start : Session → Loop
start s = record { session = s; seen = []; unrelated = 0; first_mismatch = none }

-- `commit_session_sequences`: the highest number seen takes the place of the last one.
abbrev pub commit : Session → List ℕ → Session
commit s seen = record s { last_inbound_sequence = highest seen s.last_inbound_sequence }

abbrev pub closed : Loop × Ending Response → Session × (List ℕ × Ending Response)
closed (l, ending) =
    let s = commit l.session l.seen in
    (record s { ipmb_state = retire_pending s.ipmb_state }, (l.seen, ending))

-- The result has the numbers that the call accepted, too.
unfoldable pub recv : Backend → Session → List Event → Session × (List ℕ × Ending Response)
recv b s events =
    if is_some s.ipmb_state.pending
    then closed (recv_loop b (start s) events)
    else (s, ([], returned (err no_pending_request)))

-- What `poll_sol` meets.
pub data PollEvent : Type 0 where
  polls : Sending → List ℕ → PollEvent
  polls_other : PollEvent
  poll_fails : RmcpIpmiReceiveError → PollEvent

-- Whether the flow has what is waited for: an acknowledgement, or output.
abbrev pub has_come : Bool → SolFlow → Bool
has_come true flow = is_some flow.input_ack
has_come false flow = length flow.output != 0

-- Another datagram is waited for, where the budget allows.
abbrev pub poll_counted : ℕ → Option (Ending (Unit {0}))
poll_counted unrelated =
    if leb max_unrelated (suc unrelated)
    then some (returned (err too_many_unrelated_packets))
    else none

abbrev pub after_poll :
    Bool
    → ℕ
    → Option SolFlow
    → Option (Result RmcpIpmiReceiveError (Option Response))
    → Option (Ending (Unit {0}))
after_poll wait_ack unrelated flow none = some panicked
after_poll wait_ack unrelated flow (some (err e)) = some (returned (err e))
after_poll wait_ack unrelated flow (some (ok (some response))) =
    some (returned (err unexpected_payload_type))
after_poll wait_ack unrelated none (some (ok none)) = some panicked
after_poll wait_ack unrelated (some flow) (some (ok none)) =
    if has_come wait_ack flow then some (returned (ok tt)) else poll_counted unrelated

abbrev pub Polled : Type 0
Polled = Session × (List ℕ × Ending (Unit {0}))

-- The numbers of the later turns are put in front of these.
abbrev pub then_poll : Session → List ℕ → Option (Ending (Unit {0})) → Polled → Polled
then_poll s seen (some ending) rest = (s, (seen, ending))
then_poll s seen none (s', (more, ending)) = (s', (more ++ seen, ending))

-- Each number is committed at once. Where no event is left, the deadline has come.
unfoldable pub poll_sol : Backend → Session → Bool → ℕ → List PollEvent → Polled
poll_sol b s wait_ack unrelated [] = (s, ([], returned (err timeout)))
poll_sol b s wait_ack unrelated (polls io bytes ∷ events) =
    let r = receive_one b s [] io bytes in
    let s' = commit r.session r.seen in
    let rest = poll_sol b s' wait_ack (suc unrelated) events in
    then_poll s' r.seen (after_poll wait_ack unrelated s'.sol_flow r.result) rest
poll_sol b s wait_ack unrelated (polls_other ∷ events) =
    let rest = poll_sol b s wait_ack (suc unrelated) events in
    then_poll s [] (poll_counted unrelated) rest
poll_sol b s wait_ack unrelated (poll_fails e ∷ events) = (s, ([], returned (err e)))
