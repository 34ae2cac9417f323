-- ===== src/Rmcp/V2_0/Session.antt =====
-- An active session and what it sends: `State` of v2_0/mod.rs, with `send`, `send_payload` and
-- `send_sol_frame`.
pub mod Receive
pub mod Loops
pub mod Replay
mod Delivered
pub mod Exchange
pub mod Signed
mod Examples
use ipmi_rs.Base.{ℕ, suc, Bool, List, Option, none, some, Result, ok, err, ◌==◌, if◌then◌else◌}
use ipmi_rs.Connection.Message.{Request}
use ipmi_rs.Rmcp.Errors.{RmcpIpmiSendError, v2_0, session_sequence_exhausted, sol_frame}
use ipmi_rs.Rmcp.Sol.Frame.{SolFrame, encode}
use ipmi_rs.Rmcp.Sol.Flow.{SolFlow}
use ipmi_rs.Rmcp.Ipmb.State.{IpmbState, begin, retire_pending}
use ipmi_rs.Rmcp.V1_5.State.{u32_max}
use ipmi_rs.Rmcp.V2_0.Payload.{PayloadType, ipmi_message, sol, Message}
use ipmi_rs.Rmcp.V2_0.Crypto.Backend.{Backend}
use ipmi_rs.Rmcp.V2_0.Crypto.SubState.{SubState}
use ipmi_rs.Rmcp.V2_0.Crypto.Packet.{write_payload}

pub record Session : Type 0 where
  pub session_id : ℕ
  pub session_sequence_number : ℕ
  pub console_session_id : ℕ
  pub last_inbound_sequence : Option ℕ
  pub state : SubState
  pub ipmb_state : IpmbState
  pub sol_flow : Option SolFlow

-- What a send meets: the error of the cancellation and the deadline, the initialization vector that is
-- drawn, and whether the socket takes the datagram.
pub record Sending : Type 0 where
  pub blocked : Option RmcpIpmiSendError
  pub iv : Option (List ℕ)
  pub accepted : Bool

abbrev pub exhausted : Session → Bool
exhausted s = s.session_sequence_number == u32_max

-- The number is taken before the message is written.
abbrev pub counted : Session → Session
counted s = record s { session_sequence_number = suc s.session_sequence_number }

abbrev pub outgoing : Session → PayloadType → List ℕ → Message
outgoing s ty payload = record {
  ty = ty;
  session_id = s.session_id;
  session_sequence_number = s.session_sequence_number;
  payload = payload;
}

-- The result is the datagram that was sent.
unfoldable pub send_numbered :
    Backend → Session → Sending → PayloadType → List ℕ → Session × Result RmcpIpmiSendError (List ℕ)
send_numbered b s io ty payload = elim (write_payload b s.state io.iv (outgoing s ty payload)) [
  | err e ↦ (counted s, err v2_0)
  | ok bytes ↦ (counted s, if io.accepted then ok bytes else err v2_0)
]

unfoldable pub send_payload :
    Backend → Session → Sending → List ℕ → Session × Result RmcpIpmiSendError (List ℕ)
send_payload b s io payload = elim io.blocked [
  | some e ↦ (s, err e)
  | none ↦
      if exhausted s
      then (s, err session_sequence_exhausted)
      else send_numbered b s io ipmi_message payload
]

abbrev pub retired_on_error :
    Session × Result RmcpIpmiSendError (List ℕ) → Session × Result RmcpIpmiSendError (List ℕ)
retired_on_error (s, ok m) = (s, ok m)
retired_on_error (s, err e) = (record s { ipmb_state = retire_pending s.ipmb_state }, err e)

abbrev pub send_begun :
    Backend
    → Session
    → Sending
    → Result RmcpIpmiSendError (IpmbState × List ℕ)
    → Session × Result RmcpIpmiSendError (List ℕ)
send_begun b s io (err e) = (s, err e)
send_begun b s io (ok (ipmb, payload)) =
    retired_on_error (send_payload b (record s { ipmb_state = ipmb }) io payload)

-- The same tests run in `send` and again in `send_payload`, between which the clock moves.
unfoldable pub send :
    Backend
    → Session
    → (before : Option RmcpIpmiSendError) → Sending
    → Request
    → ℕ
    → Session × Result RmcpIpmiSendError (List ℕ)
send b s (some e) io request deadline = (s, err e)
send b s none io request deadline =
    if exhausted s
    then (s, err session_sequence_exhausted)
    else send_begun b s io (begin s.ipmb_state request deadline)

-- A frame that cannot be encoded takes no number.
unfoldable pub send_sol_frame :
    Backend → Session → Sending → SolFrame → Session × Result RmcpIpmiSendError (List ℕ)
send_sol_frame b s io frame = elim io.blocked [
  | some e ↦ (s, err e)
  | none ↦ if exhausted s then (s, err session_sequence_exhausted) else elim (encode frame) [
    | err e ↦ (s, err sol_frame)
    | ok payload ↦ send_numbered b s io sol payload
  ]
]
