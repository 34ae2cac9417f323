-- ===== src/Rmcp/V2_0/Session/Receive.antt =====
-- What an active session receives: `receive_one` of v2_0/mod.rs.
use ipmi_rs.Base.{
  ℕ, ◌+◌, true, not, List, ◌∷◌, Option, none, some, Result, ok, err, ◌!=◌, leb, if◌then◌else◌,
  length,
}
use ipmi_rs.Connection.Message.{Response}
use ipmi_rs.Rmcp.Errors.{
  RmcpIpmiSendError, ipmb_sequence_exhausted, ipmb_sequence_reserved, RmcpIpmiReceiveError, session,
  ipmb_response_mismatch, no_pending_request, session_id_mismatch, bridge_poll_send,
  invalid_session_sequence, too_many_unrelated_packets, timeout, unexpected_payload_type,
  sol_ack_failed,
}
use ipmi_rs.Rmcp.Errors
use ipmi_rs.Rmcp.Sol.Frame.{
  SolFrame, SolFrameError, decode, ack_frame, remote_inactive, output_overrun,
}
use ipmi_rs.Rmcp.Sol.Flow.{SolFlow, accept}
use ipmi_rs.Rmcp.Ipmb.State.{IpmbState, is_some}
use ipmi_rs.Rmcp.Ipmb.Receive.{receive}
use ipmi_rs.Rmcp.V1_5.Receive.{max_unrelated, is_replay}
use ipmi_rs.Rmcp.V2_0.Payload.{PayloadType, ipmi_message, sol, Message}
use ipmi_rs.Rmcp.V2_0.Crypto.Backend.{Backend}
use ipmi_rs.Rmcp.V2_0.Crypto.Packet.{read_payload}
use ipmi_rs.Rmcp.V2_0.Session.{Session, Sending, send_sol_frame}

-- What one datagram leaves: the session, the numbers seen in the call, and the result, which is `none`
-- for a panic.
pub record Received : Type 0 where
  pub session : Session
  pub seen : List ℕ
  pub result : Option (Result RmcpIpmiReceiveError (Option Response))

abbrev pub refused : Session → List ℕ → RmcpIpmiReceiveError → Received
refused s seen e = record { session = s; seen = seen; result = some (err e) }

abbrev pub after_ipmb :
    Session → List ℕ → ℕ → IpmbState × Result RmcpIpmiReceiveError (Option Response) → Received
after_ipmb s seen number (ipmb, err e) = refused (record s { ipmb_state = ipmb }) seen e
after_ipmb s seen number (ipmb, ok response) = record {
  session = record s { ipmb_state = ipmb };
  seen = number ∷ seen;
  result = some (ok response);
}

unfoldable pub on_ipmb_message : Session → List ℕ → Message → Received
on_ipmb_message s seen m =
    if not (is_some s.ipmb_state.pending)
    then refused s seen unexpected_payload_type
    else after_ipmb s seen m.session_sequence_number (receive s.ipmb_state m.payload)

-- After the send of an acknowledgement, the call's result is this one.
abbrev pub acknowledged :
    List ℕ
    → Result RmcpIpmiReceiveError (Option Response)
    → Session × Result RmcpIpmiSendError (List ℕ)
    → Received
acknowledged seen result (s, err e) = refused s seen sol_ack_failed
acknowledged seen result (s, ok m) = record { session = s; seen = seen; result = some result }

-- What is reported of a frame that was accepted.
abbrev pub reported : SolFrame → Result RmcpIpmiReceiveError (Option Response)
reported frame =
    if frame.flags.inactive
    then err (Errors.sol remote_inactive)
    else if frame.flags.overrun
    then err (Errors.sol output_overrun)
    else ok none

abbrev pub after_accept :
    Backend
    → Session
    → List ℕ
    → Sending
    → SolFrame
    → Option (SolFlow × Result SolFrameError (Option SolFrame))
    → Received
after_accept b s seen io frame none = record { session = s; seen = seen; result = none }
after_accept b s seen io frame (some (flow, err e)) =
    if frame.sequence != 0
    then acknowledged seen (err (Errors.sol e))
        (send_sol_frame b (record s { sol_flow = some flow }) io (ack_frame frame.sequence 0 true))
    else refused (record s { sol_flow = some flow }) seen (Errors.sol e)
after_accept b s seen io frame (some (flow, ok (some ack))) =
    acknowledged seen (reported frame) (send_sol_frame b (record s { sol_flow = some flow }) io ack)
after_accept b s seen io frame (some (flow, ok none)) = record {
  session = record s { sol_flow = some flow };
  seen = seen;
  result = some (reported frame);
}

abbrev pub on_frame :
    Backend → Session → List ℕ → Sending → SolFlow → Result SolFrameError SolFrame → Received
on_frame b s seen io flow (err e) = refused s seen (Errors.sol e)
on_frame b s seen io flow (ok frame) = after_accept b s seen io frame (accept flow frame)

-- The number is noted before the frame is read.
unfoldable pub on_sol_message :
    Backend → Session → List ℕ → Sending → Message → Option SolFlow → Received
on_sol_message b s seen io m none = refused s seen unexpected_payload_type
on_sol_message b s seen io m (some flow) =
    on_frame b s (m.session_sequence_number ∷ seen) io flow (decode m.payload)

abbrev pub by_type : Backend → Session → List ℕ → Sending → Message → PayloadType → Received
by_type b s seen io m ipmi_message = on_ipmb_message s seen m
by_type b s seen io m sol = on_sol_message b s seen io m s.sol_flow
by_type b s seen io m _ = refused s seen unexpected_payload_type

-- Only messages of the session that are no replays are delivered.
unfoldable pub on_message : Backend → Session → List ℕ → Sending → Message → Received
on_message b s seen io m =
    if m.session_id != s.console_session_id
    then refused s seen session_id_mismatch
    else if is_replay s.last_inbound_sequence seen m.session_sequence_number
    then refused s seen invalid_session_sequence
    else if leb (64 + max_unrelated) (length seen)
    then refused s seen too_many_unrelated_packets
    else by_type b s seen io m m.ty

-- `receive_one` of a datagram of the class IPMI, behind its header; `io` is what an acknowledgement
-- meets.
unfoldable pub receive_one : Backend → Session → List ℕ → Sending → List ℕ → Received
receive_one b s seen io bytes = elim (read_payload b s.state bytes) [
  | err e ↦ refused s seen session
  | ok m ↦ on_message b s seen io m
]
