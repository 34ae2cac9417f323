-- ===== src/Rmcp/Ipmb/State.antt =====
-- Sending: `IpmbState` of ipmi-rs/src/rmcp/internal.rs. A sequence number is never used twice.
mod Examples
pub mod Fresh
use ipmi_rs.Base.{
  ℕ, zero, suc, ◌+◌, ◌-◌, ◌*◌, ◌%◌, ◌≤◌, ◌<◌, ◌≡◌, refl, Bool, true, false, ◌&&◌, ◌||◌, not, List,
  [], ◌∷◌, ◌++◌, Option, none, some, Result, ok, err, ◌>>=◌, ◌>>◌, reject_if, ◌==◌, ltb, leb,
  if◌then◌else◌, bit_and, bit_or, length, get_or, set, replicate,
}
use ipmi_rs.Connection.NetFn.{request_value}
use ipmi_rs.Connection.Channel.{
  Channel, primary, system, current, numbered, channel_value, LogicalUnit, lun_zero, IpmbTarget,
  RequestTargetAddress, bmc, bmc_or_ipmb, bridged,
}
use ipmi_rs.Connection.Message.{Request, Response, request_netfn}
use ipmi_rs.Rmcp.Errors.{
  RmcpIpmiSendError, request_pending, invalid_netfn, invalid_bridge_target,
  bridge_payload_too_large, ipmb_sequence_exhausted, ipmb_sequence_reserved,
}
use ipmi_rs.Rmcp.Ipmb.Packet.{ExpectedReply, ipmb_request}

-- The arrays `send_acks` and `acked` have one element for the BMC's hop and one for the transit hop.
pub record PendingRequest : Type 0 where
  pub final_reply : ExpectedReply
  pub bmc_ack : Option ExpectedReply
  pub transit_ack : Option ExpectedReply
  pub bmc_acked : Bool
  pub transit_acked : Bool
  pub poll : Option ExpectedReply
  pub deferred : Option Response
  pub queue_channel : ℕ
  pub queue_available : Bool
  pub deadline : ℕ
  pub poll_blocked : Bool

pub record IpmbState : Type 0 where
  pub ipmb_sequence : ℕ
  pub responder_addr : ℕ
  pub requestor_addr : ℕ
  pub requestor_lun : LogicalUnit
  pub pending : Option PendingRequest
  pub retired_sequences : List Bool
  pub get_message_supported : Bool
  pub reserved_sequences : Option ℕ

abbrev pub app_netfn : ℕ
app_netfn = 6

abbrev pub send_message : ℕ
send_message = 0x34

abbrev pub get_message : ℕ
get_message = 0x33

abbrev pub get_message_flags : ℕ
get_message_flags = 0x31

abbrev pub track_request : ℕ
track_request = 0x40

-- `IpmbState::default()`.
unfoldable pub ipmb_default : IpmbState
ipmb_default = record {
  ipmb_sequence = 0;
  responder_addr = 0x20;
  requestor_addr = 0x81;
  requestor_lun = lun_zero;
  pending = none;
  retired_sequences = replicate 64 false;
  get_message_supported = true;
  reserved_sequences = none;
}

abbrev pub is_some {ℓ} : {A : Type ℓ} → Option A → Bool
is_some none = false
is_some (some a) = true

-- `Option::is_some_and`.
abbrev pub is_some_and {ℓ} : {A : Type ℓ} → Option A → (A → Bool) → Bool
is_some_and none p = false
is_some_and (some a) p = p a

-- `usize::from(bool)`.
abbrev pub count_of : Bool → ℕ
count_of true = 1
count_of false = 0

-- The number `index & 0x3f` is retired.
abbrev pub retired : IpmbState → ℕ → Bool
retired s index = get_or s.retired_sequences (index % 64) false

-- `take_while(..).count()` over the next `left` numbers.
pub unused_from : IpmbState → ℕ → ℕ → ℕ
unused_from s index zero = 0
unused_from s index (suc left) =
    let rest = unused_from s (index + 1) left in if retired s index then 0 else suc rest

unfoldable pub remaining_sequences : IpmbState → ℕ
unfolding unused_from
remaining_sequences s = unused_from s s.ipmb_sequence 64

unfoldable pub reserve_sequences : IpmbState → ℕ → IpmbState × Bool
reserve_sequences s minimum =
    if is_some s.pending || is_some s.reserved_sequences || ltb (remaining_sequences s) minimum
    then (s, false)
    else (record s { reserved_sequences = some minimum }, true)

unfoldable pub release_sequences : IpmbState → IpmbState
release_sequences s = record s { reserved_sequences = none }

unfoldable pub retire_pending : IpmbState → IpmbState
retire_pending s = record s { pending = none }

pub next_reply : IpmbState → ℕ → ℕ → ℕ → LogicalUnit → ℕ → IpmbState × ExpectedReply
next_reply s netfn cmd responder_addr responder_lun requestor_addr =
    let sequence = s.ipmb_sequence % 64 in
    (
      record s {
        ipmb_sequence = (sequence + 1) % 64;
        retired_sequences = set s.retired_sequences sequence true;
      },
      record {
        sequence = sequence;
        netfn = netfn + 1;
        cmd = cmd;
        responder_addr = responder_addr;
        responder_lun = responder_lun;
        requestor_addr = requestor_addr;
        requestor_lun = s.requestor_lun;
      },
    )

abbrev is_hop_channel : Channel → Bool
is_hop_channel primary = true
is_hop_channel (numbered n) = true
is_hop_channel system = false
is_hop_channel current = false

abbrev is_local_channel : Channel → Bool
is_local_channel primary = true
is_local_channel current = true
is_local_channel system = false
is_local_channel (numbered n) = false

-- `==` of channels.
abbrev channel_eq : Channel → Channel → Bool
channel_eq primary primary = true
channel_eq system system = true
channel_eq current current = true
channel_eq (numbered a) (numbered b) = a == b
channel_eq _ _ = false

pub valid_hop : IpmbTarget → Bool
valid_hop hop = leb 2 hop.address && bit_and hop.address 1 == 0 && is_hop_channel hop.channel

-- The two variables `target` and `transit` of `begin`, as one: the BMC itself, or a bridged route.
pub data Route : Type 0 where
  local : LogicalUnit → Route
  bridge : IpmbTarget → Option IpmbTarget → Route

pub route_of : IpmbState → RequestTargetAddress → Route
route_of s (bmc lun) = local lun
route_of s (bmc_or_ipmb address channel lun) =
    if address == s.responder_addr && is_local_channel channel
    then local lun
    else bridge (record { address = address; channel = channel; lun = lun }) none
route_of s (bridged target transit) = bridge target transit

pub bridge_len : List ℕ → Option IpmbTarget → ℕ
bridge_len body transit = 7 + length body + 8 * (1 + count_of (is_some transit))

pub check_route : IpmbState → List ℕ → Route → Result RmcpIpmiSendError (Unit {0})
unfolding valid_hop bridge_len
check_route s body (local lun) = ok tt
check_route s body (bridge target transit) = do
  reject_if
      (not (valid_hop target)
        || is_some_and transit (λ hop.
          not (valid_hop hop)
          || hop.address == target.address && channel_eq hop.channel target.channel
          || hop.address == s.responder_addr))
      invalid_bridge_target
  reject_if (ltb 255 (bridge_len body transit)) (bridge_payload_too_large (bridge_len body transit))

pub needed_sequences : Route → ℕ
needed_sequences (local lun) = 1
needed_sequences (bridge target transit) = 2 + count_of (is_some transit)

-- `(0..needed).any(|i| self.retired_sequences[..])`.
pub any_retired : IpmbState → ℕ → ℕ → Bool
any_retired s index zero = false
any_retired s index (suc left) =
    let rest = any_retired s (index + 1) left in retired s index || rest

-- What is sent, what is pending for it, and the state after.
pub record Begun : Type 0 where
  pub state : IpmbState
  pub payload : List ℕ
  pub pending : PendingRequest

pub pending_new :
    ExpectedReply → Option ExpectedReply → Option ExpectedReply → ℕ → ℕ → PendingRequest
pending_new final_reply bmc_ack transit_ack queue_channel deadline = record {
  final_reply = final_reply;
  bmc_ack = bmc_ack;
  transit_ack = transit_ack;
  bmc_acked = false;
  transit_acked = false;
  poll = none;
  deferred = none;
  queue_channel = queue_channel;
  queue_available = false;
  deadline = deadline;
  poll_blocked = false;
}

-- `[TRACK_REQUEST | channel]` in front of a packet, sent in a Send Message request.
abbrev enclose : ExpectedReply → ℕ → List ℕ → List ℕ
enclose ack channel inner = ipmb_request ack (bit_or track_request channel ∷ inner)

pub begin_local : IpmbState → ℕ → ℕ → List ℕ → ℕ → LogicalUnit → Begun
unfolding next_reply pending_new
begin_local s netfn cmd body deadline lun =
    let (s', reply) = next_reply s netfn cmd s.responder_addr lun s.requestor_addr in
    record {
      state = s';
      payload = ipmb_request reply body;
      pending = pending_new reply none none 0 deadline;
    }

pub begin_direct : IpmbState → ℕ → ℕ → List ℕ → ℕ → IpmbTarget → Begun
unfolding next_reply pending_new
begin_direct s netfn cmd body deadline target =
    let (s₁, bmc_ack) =
      next_reply s app_netfn send_message s.responder_addr lun_zero s.requestor_addr in
    let (s₂, final_reply) = next_reply s₁ netfn cmd target.address target.lun s.requestor_addr in
    record {
      state = s₂;
      payload = enclose bmc_ack (channel_value target.channel) (ipmb_request final_reply body);
      pending = pending_new final_reply (some bmc_ack) none (channel_value target.channel) deadline;
    }

pub begin_transit : IpmbState → ℕ → ℕ → List ℕ → ℕ → IpmbTarget → IpmbTarget → Begun
unfolding next_reply pending_new
begin_transit s netfn cmd body deadline target hop =
    let (s₁, bmc_ack) =
      next_reply s app_netfn send_message s.responder_addr lun_zero s.requestor_addr in
    let (s₂, ack) = next_reply s₁ app_netfn send_message hop.address hop.lun s.requestor_addr in
    let (s₃, final_reply) = next_reply s₂ netfn cmd target.address target.lun s.responder_addr in
    record {
      state = s₃;
      payload =
          enclose bmc_ack (channel_value hop.channel)
            (enclose ack (channel_value target.channel) (ipmb_request final_reply body));
      pending =
          pending_new final_reply (some bmc_ack) (some ack) (channel_value hop.channel) deadline;
    }

pub begin_route : IpmbState → ℕ → ℕ → List ℕ → ℕ → Route → Begun
unfolding begin_local begin_direct begin_transit
begin_route s netfn cmd body deadline (local lun) = begin_local s netfn cmd body deadline lun
begin_route s netfn cmd body deadline (bridge target none) =
    begin_direct s netfn cmd body deadline target
begin_route s netfn cmd body deadline (bridge target (some hop)) =
    begin_transit s netfn cmd body deadline target hop

-- `*minimum -= needed`.
abbrev pub spend : IpmbState → ℕ → IpmbState
spend s needed = record s {
  reserved_sequences = elim s.reserved_sequences [
    | none ↦ none
    | some minimum ↦ some (minimum - needed)
  ];
}

-- A failed call leaves the state as it was, so only a successful one returns a state.
unfoldable pub begin : IpmbState → Request → ℕ → Result RmcpIpmiSendError (IpmbState × List ℕ)
begin s request deadline = do
  reject_if (is_some s.pending) request_pending
  let route = route_of s request.target
  reject_if (ltb 0x3e (request_value (request_netfn request))) (invalid_netfn request.message.netfn)
  check_route s request.message.payload route
  let needed = needed_sequences route
  reject_if (is_some_and s.reserved_sequences (λ minimum. ltb minimum needed))
      ipmb_sequence_exhausted
  reject_if (any_retired s s.ipmb_sequence needed) ipmb_sequence_exhausted
  let b =
      begin_route (spend s needed) (request_value (request_netfn request)) request.message.cmd
        request.message.payload deadline route
  ok (record b.state { pending = some b.pending }, b.payload)

unfoldable pub needs_poll : IpmbState → Bool
needs_poll s = is_some_and s.pending (λ p.
    s.get_message_supported
    && not p.poll_blocked
    && is_some p.bmc_ack
    && p.bmc_acked
    && not (is_some p.poll))

unfoldable pub queue_available : IpmbState → Bool
queue_available s = is_some_and s.pending (λ p. p.queue_available)

unfoldable pub stop_polling : IpmbState → IpmbState
stop_polling s = record s { get_message_supported = false }

-- The pending request is changed in place; without one nothing is.
abbrev pub on_pending : IpmbState → (PendingRequest → PendingRequest) → IpmbState
on_pending s f = record s { pending = elim s.pending [ none ↦ none | some p ↦ some (f p) ] }

unfoldable pub poll_message : IpmbState → IpmbState × Result RmcpIpmiSendError (List ℕ)
poll_message s =
    if not (needs_poll s)
    then (s, err request_pending)
    else if is_some_and s.reserved_sequences (λ minimum. leb (remaining_sequences s) minimum)
    then (on_pending s (λ p. record p { poll_blocked = true }), err ipmb_sequence_reserved)
    else if retired s s.ipmb_sequence
    then (s, err ipmb_sequence_exhausted)
    else (let cmd = if queue_available s then get_message else get_message_flags in
        let (s', reply) = next_reply s app_netfn cmd s.responder_addr lun_zero s.requestor_addr in
        (on_pending s' (λ p. record p { poll = some reply }), ok (ipmb_request reply [])))
