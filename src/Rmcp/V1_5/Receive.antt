-- ===== src/Rmcp/V1_5/Receive.antt =====
-- `recv` of a session: v1_5/mod.rs, with `record_unrelated` of internal.rs and `count_unrelated` of
-- socket.rs.
use ipmi_rs.Base.{
  ℕ, suc, ◌+◌, max, Bool, false, not, ◌&&◌, ◌||◌, List, [], ◌∷◌, Option, none, some, Result, ok,
  err, ◌==◌, ◌!=◌, leb, if◌then◌else◌, length,
}
use ipmi_rs.Connection.Message.{Response}
use ipmi_rs.Rmcp.Errors.{
  RmcpIpmiSendError, ipmb_sequence_exhausted, ipmb_sequence_reserved, RmcpIpmiReceiveError, session,
  ipmb_response_mismatch, no_pending_request, session_id_mismatch, bridge_poll_send,
  invalid_session_sequence, too_many_unrelated_packets, timeout,
}
use ipmi_rs.Rmcp.Ipmb.State.{
  IpmbState, is_some, is_some_and, poll_message, retire_pending, stop_polling,
}
use ipmi_rs.Rmcp.Ipmb.Receive.{receive}
use ipmi_rs.Rmcp.V1_5.Auth.{auth_type_code}
use ipmi_rs.Rmcp.V1_5.Message.{ReadError, Message, from_data}
use ipmi_rs.Rmcp.V1_5.State.{State, send_payload}

abbrev pub max_unrelated : ℕ
max_unrelated = 32

-- The variables of the loop of `recv`.
pub record Loop : Type 0 where
  pub state : State
  pub seen : List ℕ
  pub unrelated : ℕ
  pub first_mismatch : Option RmcpIpmiReceiveError

abbrev first_of : Option RmcpIpmiReceiveError → RmcpIpmiReceiveError → RmcpIpmiReceiveError
first_of none e = e
first_of (some first) e = first

-- A turn goes on, or it ends the loop with a result.
abbrev pub Turn : Type 0
Turn = Loop × Option (Result RmcpIpmiReceiveError Response)

abbrev pub record_unrelated : Loop → RmcpIpmiReceiveError → Turn
record_unrelated l e =
    let l' : Loop = record l {
      unrelated = suc l.unrelated;
      first_mismatch = some (first_of l.first_mismatch e);
    } in
    (
      l',
      if leb max_unrelated (suc l.unrelated) then some (err too_many_unrelated_packets) else none,
    )

abbrev pub contains : ℕ → List ℕ → Bool
contains v [] = false
contains v (x ∷ xs) = v == x || contains v xs

-- A number that is zero, at or below the last of the earlier calls, or seen in this one.
abbrev pub is_replay : Option ℕ → List ℕ → ℕ → Bool
is_replay last seen sequence =
    sequence == 0 || (is_some_and last (λ v. leb sequence v) || contains sequence seen)

-- An accepted message: its number is noted, and a response ends the loop.
abbrev pub accept : Loop → ℕ → Option Response → Turn
accept l sequence response =
    let answer : Option (Result RmcpIpmiReceiveError Response) = elim response [
      | none ↦ none
      | some r ↦ some (ok r)
    ] in
    if not l.state.activated
    then (l, answer)
    else if leb (64 + max_unrelated) (length l.seen)
    then (l, some (err too_many_unrelated_packets))
    else (record l { seen = sequence ∷ l.seen }, answer)

abbrev pub on_ipmb : Loop → IpmbState → Loop
on_ipmb l ipmb = record l { state = record l.state { ipmb_state = ipmb } }

abbrev pub after_error : Loop → RmcpIpmiReceiveError → Turn
after_error l ipmb_response_mismatch = record_unrelated l ipmb_response_mismatch
after_error l e = (l, some (err e))

abbrev pub settle : Loop → ℕ → Result RmcpIpmiReceiveError (Option Response) → Turn
settle l sequence (err e) = after_error l e
settle l sequence (ok response) = accept l sequence response

unfoldable pub deliver : Loop → Message → Turn
deliver l m =
    let r = receive l.state.ipmb_state m.payload in
    settle (on_ipmb l r.0) m.session_sequence_number r.1

-- Within a session, only messages of it that are no replays are delivered.
unfoldable pub on_session : Loop → ℕ → Message → Turn
unfolding auth_type_code
on_session l id m =
    if m.session_id != id || auth_type_code m.auth_type != auth_type_code l.state.auth_type
    then record_unrelated l session_id_mismatch
    else if l.state.activated
        && is_replay l.state.last_inbound_sequence l.seen m.session_sequence_number
    then record_unrelated l invalid_session_sequence
    else deliver l m

abbrev pub on_message : Loop → Message → Option ℕ → Turn
on_message l m none = deliver l m
on_message l m (some id) = on_session l id m

abbrev pub on_parsed : Loop → Result ReadError Message → Turn
on_parsed l (err e) = (l, some (err session))
on_parsed l (ok m) = on_message l m l.state.session_id

abbrev pub on_datagram : Option (List ℕ → List ℕ) → Loop → List ℕ → Turn
on_datagram f l bytes = on_parsed l (from_data f l.state.password bytes)

abbrev pub after_probe : Loop → State × Result RmcpIpmiSendError (List ℕ) → Turn
after_probe l (s, ok m) = (record l { state = s }, none)
after_probe l (s, err e) = (record l { state = s }, some (err (bridge_poll_send e)))

abbrev pub without_probe : Loop → RmcpIpmiSendError → Turn
without_probe l ipmb_sequence_exhausted = (on_ipmb l (stop_polling l.state.ipmb_state), none)
without_probe l ipmb_sequence_reserved = (l, none)
without_probe l e = (l, some (err (bridge_poll_send e)))

abbrev pub probe :
    Option (List ℕ → List ℕ)
    → Loop
    → Option RmcpIpmiSendError
    → Bool
    → Result RmcpIpmiSendError (List ℕ)
    → Turn
probe f l blocked accepted (ok payload) =
    after_probe l (send_payload f l.state blocked accepted payload)
probe f l blocked accepted (err e) = without_probe l e

-- A queue probe, where it is due.
unfoldable pub on_probe : Option (List ℕ → List ℕ) → Loop → Option RmcpIpmiSendError → Bool → Turn
on_probe f l blocked accepted =
    let r = poll_message l.state.ipmb_state in probe f (on_ipmb l r.0) blocked accepted r.1

-- What the loop meets: a datagram of the class IPMI, behind its header, or of another class, a time
-- at which a probe is due, or an error of the socket.
pub data Event : Type 0 where
  arrives : List ℕ → Event
  arrives_other : Event
  probes : Option RmcpIpmiSendError → Bool → Event
  fails : RmcpIpmiReceiveError → Event

unfoldable pub turn : Option (List ℕ → List ℕ) → Loop → Event → Turn
turn f l (arrives bytes) = on_datagram f l bytes
turn f l arrives_other = (
  record l { unrelated = suc l.unrelated },
  if leb max_unrelated (suc l.unrelated) then some (err too_many_unrelated_packets) else none,
)
turn f l (probes blocked accepted) = on_probe f l blocked accepted
turn f l (fails e) = (l, some (err e))

-- The loop's result, or what the rest of it gives.
abbrev pub after_turn :
    Turn → Loop × Result RmcpIpmiReceiveError Response → Loop × Result RmcpIpmiReceiveError Response
after_turn (l, some r) rest = (l, r)
after_turn (l, none) rest = rest

-- Where no event is left, the deadline has come.
unfoldable pub recv_loop :
    Option (List ℕ → List ℕ) → Loop → List Event → Loop × Result RmcpIpmiReceiveError Response
recv_loop f l [] = (l, err (first_of l.first_mismatch timeout))
recv_loop f l (event ∷ events) = let t = turn f l event in after_turn t (recv_loop f t.0 events)

abbrev pub max_of : ℕ → List ℕ → ℕ
max_of x [] = x
max_of x (y ∷ ys) = max_of (max x y) ys

-- The highest number seen takes the place of the last one.
abbrev pub highest : List ℕ → Option ℕ → Option ℕ
highest [] last = last
highest (x ∷ xs) last = some (max_of x xs)

abbrev pub start : State → Loop
start s = record { state = s; seen = []; unrelated = 0; first_mismatch = none }

abbrev pub close : Loop → State
close l = record l.state {
  last_inbound_sequence = highest l.seen l.state.last_inbound_sequence;
  ipmb_state = retire_pending l.state.ipmb_state;
}

abbrev pub closed :
    Loop × Result RmcpIpmiReceiveError Response
    → State × (List ℕ × Result RmcpIpmiReceiveError Response)
closed (l, r) = (close l, (l.seen, r))

-- The result has the numbers that the call accepted, too.
unfoldable pub recv :
    Option (List ℕ → List ℕ)
    → State
    → List Event
    → State × (List ℕ × Result RmcpIpmiReceiveError Response)
recv f s events =
    if is_some s.ipmb_state.pending
    then closed (recv_loop f (start s) events)
    else (s, ([], err no_pending_request))
