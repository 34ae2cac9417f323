-- ===== src/Rmcp/Ipmb/Receive/Examples.antt =====
-- A concrete request to the BMC, with a reply to it, for the theorems on receiving.
use ipmi_rs.Base.{ℕ, ◌≡◌, refl, true, false, List, [], ◌∷◌, none, some, ok}
use ipmi_rs.Connection.Channel.{lun_zero, lun_value}
use ipmi_rs.Connection.Message.{Response, response_new}
use ipmi_rs.Rmcp.Checksum.{checksum}
use ipmi_rs.Rmcp.Ipmb.Packet.{ExpectedReply, correlate, validate_ipmb_checksums, mismatches}
use ipmi_rs.Rmcp.Ipmb.State.{PendingRequest, IpmbState}
use ipmi_rs.Rmcp.Ipmb.Receive.{
  receive, receive_nested, receive_kind, receive_final, kind_of, kind_of_ack, finish, acknowledged,
}
use ipmi_rs.Rmcp.Ipmb.Receive.Safety.{
  Arrived, Answered, HopsAcked, IsPending, receive-Answers, receive-IsPending,
}

abbrev expected : ExpectedReply
expected = record {
  sequence = 5;
  netfn = 7;
  cmd = 1;
  responder_addr = 0x20;
  responder_lun = lun_zero;
  requestor_addr = 0x81;
  requestor_lun = lun_zero;
}

abbrev request : PendingRequest
request = record {
  final_reply = expected;
  bmc_ack = none;
  transit_ack = none;
  bmc_acked = false;
  transit_acked = false;
  poll = none;
  deferred = none;
  queue_channel = 0;
  queue_available = false;
  deadline = 100;
  poll_blocked = false;
}

request-IsPending : IsPending (Arrived []) request
request-IsPending = record { deferred = λ r e. cc; bmc = λ a e h. cc; transit = λ a e h. cc }

abbrev waiting : IpmbState
waiting = record {
  ipmb_sequence = 6;
  responder_addr = 0x20;
  requestor_addr = 0x81;
  requestor_lun = lun_zero;
  pending = some request;
  retired_sequences = [];
  get_message_supported = true;
  reserved_sequences = none;
}

abbrev reply : List ℕ
reply = 0x81 ∷ 0x1c ∷ 0x63 ∷ 0x20 ∷ 0x14 ∷ 0x01 ∷ 0x00 ∷ 0x51 ∷ 0x7a ∷ []

abbrev response : Response
response = record { seq = 5; message = record { netfn = 7; cmd = 1; payload = 0 ∷ 0x51 ∷ [] } }

reply_received : (receive waiting reply).1 ≡ ok (some response)
unfolding receive receive_nested receive_kind receive_final kind_of kind_of_ack finish acknowledged
    correlate validate_ipmb_checksums mismatches checksum response_new lun_value
reply_received = refl

receive-Answers_example :
    Answered (Arrived (reply ∷ [])) expected response
    × HopsAcked (Arrived (reply ∷ [])) request
    × ((receive waiting reply).0.pending ≡ none)
receive-Answers_example =
    receive-Answers waiting request [] reply response refl request-IsPending reply_received

-- A packet that is too short leaves the request pending.
short_refused : (receive waiting (0x81 ∷ [])).0.pending ≡ some request
unfolding receive receive_nested receive_kind receive_final kind_of kind_of_ack finish correlate
short_refused = refl

receive-IsPending_example :
    IsPending (Arrived ((0x81 ∷ []) ∷ [])) request
    × (request.final_reply ≡ request.final_reply)
    × (request.bmc_ack ≡ request.bmc_ack)
    × (request.transit_ack ≡ request.transit_ack)
receive-IsPending_example =
    receive-IsPending waiting request request [] (0x81 ∷ []) refl request-IsPending short_refused
