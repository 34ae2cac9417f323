-- ===== src/Rmcp/Ipmb/Packet/Examples.antt =====
-- A concrete request and its reply for the theorems on IPMB packets.
use ipmi_rs.Base.{◌/◌, ◌≡◌, true, [], ◌∷◌, ok, arith}
use ipmi_rs.Connection.Channel.{lun_zero, lun_two}
use ipmi_rs.Connection.Message.{Response}
use ipmi_rs.Rmcp.Ipmb.Packet.{
  ExpectedReply, IsReply, IsReplyTo, reply_message, at, answer, correlate, validate_ipmb_checksums,
  correlate-answer, correlate-Answers,
}

abbrev expected : ExpectedReply
expected = record {
  sequence = 5;
  netfn = 7;
  cmd = 1;
  responder_addr = 0x20;
  responder_lun = lun_two;
  requestor_addr = 0x81;
  requestor_lun = lun_zero;
}

expected-IsReply : IsReply expected
expected-IsReply = record { sequence = omega arith; netfn = omega arith }

abbrev response : Response
response = record { seq = 5; message = record { netfn = 7; cmd = 1; payload = 0 ∷ 0x51 ∷ [] } }

correlate-answer_example : correlate (answer expected 0 (0x51 ∷ [])) expected ≡ ok response
correlate-answer_example = correlate-answer expected 0 (0x51 ∷ []) expected-IsReply

response_read : correlate (answer expected 0 (0x51 ∷ [])) expected ≡ ok response
response_read = correlate-answer expected 0 (0x51 ∷ []) expected-IsReply

correlate-Answers_example :
    (validate_ipmb_checksums (answer expected 0 (0x51 ∷ [])) ≡ true)
    × IsReplyTo expected (answer expected 0 (0x51 ∷ []))
    × (response.message ≡ reply_message (answer expected 0 (0x51 ∷ [])))
    × (response.seq ≡ at (answer expected 0 (0x51 ∷ [])) 4 / 4)
correlate-Answers_example =
    correlate-Answers expected (answer expected 0 (0x51 ∷ [])) response response_read
