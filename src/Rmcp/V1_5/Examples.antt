-- ===== src/Rmcp/V1_5/Examples.antt =====
-- A session with a password as the key, which receives a reply and then the same reply again.
use ipmi_rs.Base.{
  ℕ, suc, ◌≡◌, ◌↔◌, refl, true, false, List, [], ◌∷◌, ◌++◌, none, some, ok, take, drop, replicate,
  Distinct, IsU32, arith,
}
use ipmi_rs.Connection.Channel.{lun_zero, lun_value}
use ipmi_rs.Connection.Message.{response_new}
use ipmi_rs.Rmcp.Checksum.{checksum}
use ipmi_rs.Rmcp.Ipmb.Packet.{ExpectedReply, correlate, validate_ipmb_checksums, mismatches}
use ipmi_rs.Rmcp.Ipmb.State.{PendingRequest, IpmbState}
use ipmi_rs.Rmcp.Ipmb.Receive.{
  receive, receive_nested, receive_kind, receive_final, kind_of, kind_of_ack, finish, acknowledged,
}
use ipmi_rs.Rmcp.V1_5.Auth.{key, auth_type_code, calculate, verify, verify-calculate}
use ipmi_rs.Rmcp.V1_5.Message.{Message, write_data, from_data, read_body, read_auth, read_payload}
use ipmi_rs.Rmcp.V1_5.RoundTrip.{from_data-write_data}
use ipmi_rs.Rmcp.V1_5.Authentic.{from_data-calculate}
use ipmi_rs.Rmcp.V1_5.State.{State, send_payload}
use ipmi_rs.Rmcp.V1_5.Receive.{arrives, turn, recv, on_session, deliver}
use ipmi_rs.Rmcp.V1_5.Replay.{send_payload_numbered}
use ipmi_rs.Rmcp.V1_5.Delivered.{recv_accepted, loop_accepted}
use ipmi_rs.Rmcp.V1_5.Session.{opened, received, History-Distinct}

abbrev password : List ℕ
password = 112 ∷ 97 ∷ 115 ∷ 115 ∷ replicate 12 0

abbrev reply : List ℕ
reply = 0x81 ∷ 0x1c ∷ 0x63 ∷ 0x20 ∷ 0x14 ∷ 0x01 ∷ 0x00 ∷ 0x51 ∷ 0x7a ∷ []

abbrev session_number : ℕ
session_number = 5

abbrev message : Message
message = record { auth_type = key; session_sequence_number = 3; session_id = 5; payload = reply }

abbrev datagram : List ℕ
datagram = 4 ∷ 3 ∷ 0 ∷ 0 ∷ 0 ∷ 5 ∷ 0 ∷ 0 ∷ 0 ∷ (password ++ (9 ∷ (reply ++ (0 ∷ []))))

message_written : write_data none message (some password) ≡ ok datagram
unfolding write_data calculate auth_type_code
message_written = refl

from_data-write_data_example : from_data none (some password) datagram ≡ ok message
from_data-write_data_example =
    from_data-write_data none message (some password) datagram tt refl (omega arith) (omega arith)
      message_written

from_data-calculate_example :
    calculate none key (some password) 5 3 reply ≡ ok (some (take 16 (drop 9 datagram)))
from_data-calculate_example =
    from_data-calculate none (some password) datagram message from_data-write_data_example
      (λ e. absurd cc)

verify-calculate_example :
    (verify none key password (some password) 5 3 reply ≡ true)
    ↔ (calculate none key (some password) 5 3 reply ≡ ok (some password))
verify-calculate_example =
    verify-calculate none key (some password) 5 3 reply password (λ e. absurd cc)

abbrev expected : ExpectedReply
expected = record {
  sequence = 5;
  netfn = 7;
  cmd = 1;
  responder_addr = 0x20;
  responder_lun = lun_zero;
  requestor_addr = 0x81;
  requestor_lun = lun_zero;
}

abbrev request : PendingRequest
request = record {
  final_reply = expected;
  bmc_ack = none;
  transit_ack = none;
  bmc_acked = false;
  transit_acked = false;
  poll = none;
  deferred = none;
  queue_channel = 0;
  queue_available = false;
  deadline = 100;
  poll_blocked = false;
}

abbrev waiting : IpmbState
waiting = record {
  ipmb_sequence = 6;
  responder_addr = 0x20;
  requestor_addr = 0x81;
  requestor_lun = lun_zero;
  pending = some request;
  retired_sequences = [];
  get_message_supported = true;
  reserved_sequences = none;
}

abbrev session : State
session = record {
  ipmb_state = waiting;
  session_id = some 5;
  auth_type = key;
  password = some password;
  session_sequence = 2;
  last_inbound_sequence = none;
  activated = true;
}

reply_sent : (send_payload none session none true reply).1 ≡ ok datagram
unfolding send_payload write_data calculate auth_type_code
reply_sent = refl

send_payload_numbered_example :
    (write_data none
        (record {
          auth_type = key;
          session_sequence_number = suc 2;
          session_id = 5;
          payload = reply;
        })
        (some password)
      ≡ ok datagram)
    × ((send_payload none session none true reply).0.session_sequence ≡ suc 2)
    × IsU32 (suc 2)
send_payload_numbered_example =
    send_payload_numbered none session 5 none true reply datagram refl (omega arith) reply_sent

abbrev accepted : List ℕ
accepted = 3 ∷ []

reply_accepted : recv_accepted none session (arrives datagram ∷ []) ++ [] ≡ accepted
unfolding recv_accepted loop_accepted turn from_data read_body read_auth read_payload verify
    on_session deliver auth_type_code receive receive_nested receive_kind receive_final kind_of
    kind_of_ack finish acknowledged correlate validate_ipmb_checksums mismatches checksum
    response_new lun_value
reply_accepted = refl

History-Distinct_example : Distinct accepted
History-Distinct_example =
    History-Distinct none session (recv none session (arrives datagram ∷ [])).0 5 accepted refl (
      received (recv none session (arrives datagram ∷ [])).0 accepted (arrives datagram ∷ []) opened
        refl reply_accepted)
