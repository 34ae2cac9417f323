-- ===== src/Rmcp/V2_0/Session/Examples.antt =====
-- A session that is polled for output, with two packets of it and a copy of the first one.
use ipmi_rs.Base.{ℕ, ◌≡◌, refl, List, [], ◌∷◌, ◌++◌, none, some, true, replicate, Distinct}
use ipmi_rs.Rmcp.Sol.Frame.{decode, flags_decode, flags_encode, ack_frame, encode}
use ipmi_rs.Rmcp.Sol.Flow.{
  sol_open, accept, flow_new, note_ack, check_order, check_retransmission, check_next, following,
  store,
}
use ipmi_rs.Rmcp.Ipmb.State.{ipmb_default}
use ipmi_rs.Rmcp.V2_0.Payload.{sol, payload_type_of_u8}
use ipmi_rs.Rmcp.V2_0.Crypto.Backend.{encrypt, decrypt}
use ipmi_rs.Rmcp.V2_0.Crypto.SubState.{
  write_data_encrypted, write_aes, write_trailer, sign, validate_trailer, check_tag, strip_padding,
  read_data_encrypted, read_aes, strip_confidentiality,
}
use ipmi_rs.Rmcp.V2_0.Crypto.Packet.{write_payload, read_payload, read_sized, read_flags}
use ipmi_rs.Rmcp.V2_0.Crypto.Counting.{counting, suite_17, bytes_of}
use ipmi_rs.Rmcp.V2_0.Session.{Session, Sending, send_sol_frame, send_numbered}
use ipmi_rs.Rmcp.V2_0.Session.Receive.{on_sol_message, on_message, receive_one}
use ipmi_rs.Rmcp.V2_0.Session.Loops.{PollEvent, polls, polls_other, poll_sol}
use ipmi_rs.Rmcp.V2_0.Session.Delivered.{poll_accepted, datagram_accepted}
use ipmi_rs.Rmcp.V2_0.Session.Exchange.{opened, polled, Exchange-Distinct}
use ipmi_rs.Rmcp.V2_0.Session.Signed.{Source, receive_one-Source}

abbrev active : Session
active = record {
  session_id = 9;
  session_sequence_number = 1;
  console_session_id = 7;
  last_inbound_sequence = none;
  state = suite_17;
  ipmb_state = ipmb_default;
  sol_flow = some sol_open;
}

abbrev free : Sending
free = record { blocked = none; iv = some (replicate 16 5); accepted = true }

abbrev output : ℕ → List ℕ → List ℕ
output number payload = bytes_of (
    write_payload counting suite_17 (some (replicate 16 5))
      (record { ty = sol; session_id = 7; session_sequence_number = number; payload = payload }))

abbrev first : List ℕ
first = output 1 (1 ∷ 0 ∷ 0 ∷ 0 ∷ 65 ∷ [])

abbrev events : List PollEvent
events =
    polls free first
    ∷ polls_other
    ∷ polls free (output 2 (2 ∷ 0 ∷ 0 ∷ 0 ∷ 66 ∷ []))
    ∷ polls free first
    ∷ []

polled_numbers : poll_accepted counting active true 0 events ++ [] ≡ 2 ∷ 1 ∷ []
unfolding poll_accepted datagram_accepted receive_one read_payload read_flags payload_type_of_u8
    validate_trailer check_tag strip_padding read_sized read_data_encrypted read_aes decrypt
    strip_confidentiality on_message on_sol_message decode sol_open flow_new accept note_ack
    check_order check_retransmission check_next following store flags_decode flags_encode
    send_sol_frame encode ack_frame send_numbered write_payload write_data_encrypted write_aes
    write_trailer sign encrypt
polled_numbers = refl

abbrev two_numbers : List ℕ
two_numbers = 2 ∷ 1 ∷ []

Exchange-Distinct_example : Distinct two_numbers
Exchange-Distinct_example =
    Exchange-Distinct counting active (poll_sol counting active true 0 events).0 two_numbers (
      polled (poll_sol counting active true 0 events).0 two_numbers true events opened refl
        polled_numbers)

first_accepted : (receive_one counting active [] free first).seen ≡ 1 ∷ []
unfolding receive_one read_payload read_flags payload_type_of_u8 validate_trailer check_tag
    strip_padding read_sized read_data_encrypted read_aes decrypt strip_confidentiality on_message
    on_sol_message decode sol_open flow_new accept note_ack check_order check_retransmission
    check_next following store flags_decode flags_encode send_sol_frame encode ack_frame
    send_numbered write_payload write_data_encrypted write_aes write_trailer sign encrypt
first_accepted = refl

receive_one-Source_example : Source counting active first 1
receive_one-Source_example = receive_one-Source counting active [] free first 1 refl first_accepted
