-- ===== src/Rmcp/Errors.antt =====
-- The transport's errors: `RmcpIpmiReceiveError` and `RmcpIpmiSendError` of
-- ipmi-rs/src/rmcp/mod.rs. The causes that `io`, `session`, `v1_5` and `v2_0` carry are left out.
use ipmi_rs.Base.{ℕ}
use ipmi_rs.Rmcp.Header.{RmcpHeaderError}
use ipmi_rs.Rmcp.Sol.Frame.{SolFrameError}

pub data RmcpIpmiSendError : Type 0 where
  v1_5 v2_0 request_pending unsupported_target invalid_bridge_target : RmcpIpmiSendError
  bridge_payload_too_large invalid_netfn : ℕ → RmcpIpmiSendError
  ipmb_sequence_exhausted ipmb_sequence_reserved session_sequence_exhausted : RmcpIpmiSendError
  sol_frame cancelled deadline_expired : RmcpIpmiSendError

pub data RmcpIpmiReceiveError : Type 0 where
  io session not_ipmi not_enough_data empty_message ipmb_checksum_failed : RmcpIpmiReceiveError
  rmcp_header : RmcpHeaderError → RmcpIpmiReceiveError
  ipmb_response_mismatch no_pending_request session_id_mismatch : RmcpIpmiReceiveError
  bridge_completion : (hop code : ℕ) → RmcpIpmiReceiveError
  bridge_queue_completion : (command code : ℕ) → RmcpIpmiReceiveError
  bridge_poll_send : RmcpIpmiSendError → RmcpIpmiReceiveError
  invalid_session_sequence unexpected_payload_type sol_ack_failed : RmcpIpmiReceiveError
  sol : SolFrameError → RmcpIpmiReceiveError
  datagram_too_large too_many_unrelated_packets timeout cancelled : RmcpIpmiReceiveError
