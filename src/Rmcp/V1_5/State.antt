-- ===== src/Rmcp/V1_5/State.antt =====
-- The state of a session and its calls `send_payload` and `send`: v1_5/mod.rs. The privileges are left out.
use ipmi_rs.Base.{
  ℕ, suc, ◌-◌, ◌^◌, Bool, ◌&&◌, List, Option, none, some, Result, ok, err, ◌==◌, if◌then◌else◌,
}
use ipmi_rs.Connection.Message.{Request}
use ipmi_rs.Rmcp.Errors.{RmcpIpmiSendError, v1_5, session_sequence_exhausted}
use ipmi_rs.Rmcp.Ipmb.State.{IpmbState, is_some, begin, retire_pending}
use ipmi_rs.Rmcp.V1_5.Auth.{AuthType}
use ipmi_rs.Rmcp.V1_5.Message.{Message, write_data}

pub record State : Type 0 where
  pub ipmb_state : IpmbState
  pub session_id : Option ℕ
  pub auth_type : AuthType
  pub password : Option (List ℕ)
  pub session_sequence : ℕ
  pub last_inbound_sequence : Option ℕ
  pub activated : Bool

abbrev pub u32_max : ℕ
u32_max = 2 ^ 32 - 1

abbrev id_or_zero : Option ℕ → ℕ
id_or_zero none = 0
id_or_zero (some id) = id

abbrev pub exhausted : State → Bool
exhausted s = is_some s.session_id && s.session_sequence == u32_max

-- The number is taken before the message is written.
abbrev pub counted : State → State
counted s =
    if is_some s.session_id then record s { session_sequence = suc s.session_sequence } else s

abbrev pub outgoing : State → List ℕ → Message
outgoing s payload = record {
  auth_type = s.auth_type;
  session_sequence_number = s.session_sequence;
  session_id = id_or_zero s.session_id;
  payload = payload;
}

-- `blocked` is the error of the cancellation and the deadline, `accepted` whether the socket takes
-- the datagram. The result is the datagram that was sent.
unfoldable pub send_payload :
    Option (List ℕ → List ℕ)
    → State
    → Option RmcpIpmiSendError
    → Bool
    → List ℕ
    → State × Result RmcpIpmiSendError (List ℕ)
send_payload f s (some e) accepted payload = (s, err e)
send_payload f s none accepted payload =
    if exhausted s
    then (s, err session_sequence_exhausted)
    else elim (write_data f (outgoing (counted s) payload) s.password) [
      | err e ↦ (counted s, err v1_5)
      | ok bytes ↦ (counted s, if accepted then ok bytes else err v1_5)
    ]

abbrev pub retired_on_error :
    State × Result RmcpIpmiSendError (List ℕ) → State × Result RmcpIpmiSendError (List ℕ)
retired_on_error (s, ok m) = (s, ok m)
retired_on_error (s, err e) = (record s { ipmb_state = retire_pending s.ipmb_state }, err e)

abbrev pub send_begun :
    Option (List ℕ → List ℕ)
    → State
    → Option RmcpIpmiSendError
    → Bool
    → Result RmcpIpmiSendError (IpmbState × List ℕ)
    → State × Result RmcpIpmiSendError (List ℕ)
send_begun f s blocked accepted (err e) = (s, err e)
send_begun f s blocked accepted (ok (ipmb, payload)) =
    retired_on_error (send_payload f (record s { ipmb_state = ipmb }) blocked accepted payload)

-- The same tests run in `send` and again in `send_payload`, between which the clock moves.
unfoldable pub send :
    Option (List ℕ → List ℕ)
    → State
    → (before blocked : Option RmcpIpmiSendError) → Bool
    → Request
    → ℕ
    → State × Result RmcpIpmiSendError (List ℕ)
send f s (some e) blocked accepted request deadline = (s, err e)
send f s none blocked accepted request deadline =
    if exhausted s
    then (s, err session_sequence_exhausted)
    else send_begun f s blocked accepted (begin s.ipmb_state request deadline)
