-- ===== src/Rmcp/Ipmb/Receive.antt =====
-- Receiving: `receive` and `receive_nested` of ipmi-rs/src/rmcp/internal.rs. Forwarded replies are
-- unwrapped hop by hop.
mod Examples
pub mod Safety
use ipmi_rs.Base.{
  ℕ, zero, suc, ◌+◌, ◌-◌, ◌%◌, Bool, true, false, ◌&&◌, ◌||◌, not, List, [], ◌∷◌, Option, none,
  some, Result, ok, err, ◌==◌, ◌!=◌, ltb, leb, if◌then◌else◌, bit_and, length, drop, is_ok,
}
use ipmi_rs.Connection.Message.{Response, completion_code, response_data}
use ipmi_rs.Rmcp.Errors.{
  RmcpIpmiReceiveError, not_enough_data, ipmb_checksum_failed, ipmb_response_mismatch,
  no_pending_request, bridge_completion, bridge_queue_completion,
}
use ipmi_rs.Rmcp.Ipmb.Packet.{ExpectedReply, at, correlate, validate_ipmb_checksums}
use ipmi_rs.Rmcp.Ipmb.State.{PendingRequest, IpmbState, get_message, get_message_flags, is_some}

-- The pending request and `get_message_supported`, which the calls change, and the result.
pub record Received : Type 0 where
  pub pending : PendingRequest
  pub supported : Bool
  pub result : Result RmcpIpmiReceiveError (Option Response)

abbrev pub waits : PendingRequest → Bool → Received
waits p supported = record { pending = p; supported = supported; result = ok none }

abbrev pub fails : PendingRequest → Bool → RmcpIpmiReceiveError → Received
fails p supported e = record { pending = p; supported = supported; result = err e }

-- A queued message may come without its first byte, the destination, which its checksum covers.
pub queued_packet : List ℕ → Option (List ℕ)
queued_packet queued =
    let full = ((256 - (at queued 0 + at queued 1) % 256) % 256) ∷ queued in
    if validate_ipmb_checksums queued
    then some queued
    else if validate_ipmb_checksums full
    then some full
    else none

-- The completion code of a queue probe.
pub data ProbeCode : Type 0 where
  success unavailable unsupported retry failed : ProbeCode

pub probe_code : ExpectedReply → ℕ → ProbeCode
probe_code poll code =
    if code == 0
    then success
    else if code == 0x80 && poll.cmd == get_message
    then unavailable
    else if code == 0xc1 || code == 0xc2 || code == 0xd6
    then unsupported
    else if code == 0xc0
        || code == 0xc3
        || code == 0xce
        || leb 0xd0 code && leb code 0xd2
        || code == 0xd5
    then retry
    else failed

-- The successful answer to Get Message Flags.
pub receive_flags : PendingRequest → Bool → List ℕ → Received
receive_flags p supported body =
    if length body != 1
    then fails p supported not_enough_data
    else waits (record p { queue_available = bit_and (at body 0) 1 != 0 }) supported

-- All hops have acknowledged.
unfoldable pub acknowledged : PendingRequest → Bool
acknowledged p =
    (p.bmc_acked || not (is_some p.bmc_ack)) && (not (is_some p.transit_ack) || p.transit_acked)

-- A reply to the request itself.
unfoldable pub finish : PendingRequest → Bool → Result RmcpIpmiReceiveError Response → Received
unfolding acknowledged
finish p supported (err e) = fails p supported e
finish p supported (ok response) =
    if acknowledged p
    then record { pending = p; supported = supported; result = ok (some response) }
    else if is_some p.deferred
    then fails p supported ipmb_response_mismatch
    else waits (record p { deferred = some response }) supported

unfoldable pub receive_final : PendingRequest → Bool → List ℕ → Received
unfolding finish
receive_final p supported bytes = finish p supported (correlate bytes p.final_reply)

-- An acknowledgement with no reply inside: where it is the last one, a deferred reply is due.
pub receive_ack : PendingRequest → Bool → Received
receive_ack p supported =
    if p.bmc_acked && (not (is_some p.transit_ack) || p.transit_acked)
    then record {
      pending = record p { deferred = none };
      supported = supported;
      result = ok p.deferred;
    }
    else waits p supported

-- The replies that a packet can be: one to the queue probe, to a hop's Send Message, or another.
pub data Kind : Type 0 where
  to_poll : ExpectedReply → Response → Kind
  to_bmc to_transit : Response → Kind
  to_request : Kind

abbrev pub answer_to : List ℕ → Option ExpectedReply → Option Response
answer_to bytes none = none
answer_to bytes (some e) = elim (correlate bytes e) [ ok r ↦ some r | err x ↦ none ]

unfoldable pub kind_of_ack : PendingRequest → List ℕ → Kind
kind_of_ack p bytes = elim (answer_to bytes p.bmc_ack) [
  | some r ↦ to_bmc r
  | none ↦ elim (answer_to bytes p.transit_ack) [ some r ↦ to_transit r | none ↦ to_request ]
]

unfoldable pub kind_of : PendingRequest → List ℕ → Kind
unfolding kind_of_ack
kind_of p bytes = elim p.poll [
  | some poll ↦ elim (correlate bytes poll) [ ok r ↦ to_poll poll r | err x ↦ kind_of_ack p bytes ]
  | none ↦ kind_of_ack p bytes
]

-- The parts of one call that may call it again, for what a reply contains; `again` is that call.
module _ (again : PendingRequest → Bool → List ℕ → Received) where
  pub receive_packet : PendingRequest → Bool → Option (List ℕ) → Received
  receive_packet p supported none = fails p supported ipmb_checksum_failed
  receive_packet p supported (some packet) = again p supported packet

  -- The successful answer to Get Message.
  pub receive_queued : PendingRequest → Bool → List ℕ → Received
  receive_queued p supported body =
      if ltb (length body) 8
      then fails p supported not_enough_data
      else if at body 0 != p.queue_channel
      then fails p supported ipmb_response_mismatch
      else receive_packet p supported (queued_packet (drop 1 body))

  pub receive_probe : PendingRequest → Bool → ExpectedReply → Response → ProbeCode → Received
  receive_probe p supported poll r success =
      if poll.cmd == get_message_flags
      then receive_flags p supported (response_data r)
      else receive_queued (record p { queue_available = false }) supported (response_data r)
  receive_probe p supported poll r unavailable =
      waits (record p { queue_available = false }) supported
  receive_probe p supported poll r unsupported = waits p false
  receive_probe p supported poll r retry = waits (record p { queue_available = false }) supported
  receive_probe p supported poll r failed =
      fails p supported (bridge_queue_completion poll.cmd (completion_code r))

  pub receive_poll : PendingRequest → Bool → ExpectedReply → Response → Received
  receive_poll p supported poll r =
      receive_probe (record p { poll = none }) supported poll r
        (probe_code poll (completion_code r))

  -- What the acknowledgement contains.
  pub receive_inner : PendingRequest → Bool → List ℕ → Received
  receive_inner p supported [] = receive_ack p supported
  receive_inner p supported (b ∷ bs) = again p supported (b ∷ bs)

  -- `acked` is the pending request with the hop's acknowledgement noted, and `before` tells if it
  -- was noted before.
  pub receive_hop : PendingRequest → PendingRequest → Bool → Bool → ℕ → Response → Received
  receive_hop p acked before supported hop r =
      if before
      then fails p supported ipmb_response_mismatch
      else if completion_code r != 0
      then fails p supported (bridge_completion hop (completion_code r))
      else receive_inner acked supported (response_data r)

  unfoldable pub receive_kind : PendingRequest → Bool → List ℕ → Kind → Received
  receive_kind p supported bytes (to_poll poll r) = receive_poll p supported poll r
  receive_kind p supported bytes (to_bmc r) =
      receive_hop p (record p { bmc_acked = true }) p.bmc_acked supported 0 r
  receive_kind p supported bytes (to_transit r) =
      receive_hop p (record p { transit_acked = true }) p.transit_acked supported 1 r
  receive_kind p supported bytes to_request = receive_final p supported bytes

-- `left` counts the depths that are left: it is 3 at depth 0, and 0 at depth 3, where the source
-- gives up.
unfoldable pub receive_nested : ℕ → PendingRequest → Bool → List ℕ → Received
receive_nested zero p supported bytes = fails p supported ipmb_response_mismatch
receive_nested (suc left) p supported bytes =
    receive_kind (receive_nested left) p supported bytes (kind_of p bytes)

-- A response that is handed over ends the pending request.
unfoldable pub receive :
    IpmbState → List ℕ → IpmbState × Result RmcpIpmiReceiveError (Option Response)
receive s bytes = elim s.pending [
  | none ↦ (s, err no_pending_request)
  | some p ↦
      let r = receive_nested 3 p s.get_message_supported bytes in
      let s' = record s { pending = some r.pending; get_message_supported = r.supported } in
      elim r.result [
        | err e ↦ (s', err e)
        | ok none ↦ (s', ok none)
        | ok (some response) ↦ (record s' { pending = none }, ok (some response))
      ]
]
