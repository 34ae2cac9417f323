-- ===== src/Rmcp/Ipmb/Receive/Safety.antt =====
-- What a received packet may hand over: a response to the pending request, once every hop of its
-- route has acknowledged it.
use ipmi_rs.Base.{
  ◌/◌, get_or, Result-cases, some_inj, ℕ, zero, suc, ◌≡◌, refl, sym, ap, ◌∙◌, Bool, true, false,
  List, [], ◌∷◌, Option, none, some, Result, ok, err, arith, Bool-cases, inl, inr, ◌==◌, ◌!=◌,
  length, drop, ◌&&◌, ◌||◌, not,
}
use mathlib.Core.Path.{subst}
use ipmi_rs.Connection.Message.{Response, completion_code, response_data}
use ipmi_rs.Rmcp.Errors.{
  RmcpIpmiReceiveError, ipmb_response_mismatch, not_enough_data, ipmb_checksum_failed,
  bridge_completion,
}
use ipmi_rs.Rmcp.Ipmb.Packet.{
  ExpectedReply, IsReplyTo, at, reply_message, validate_ipmb_checksums, correlate,
  correlate-Answers,
}
use ipmi_rs.Rmcp.Ipmb.State.{PendingRequest, IpmbState, get_message_flags, is_some}
use ipmi_rs.Rmcp.Ipmb.Receive.{
  Received, receive, receive_nested, receive_kind, receive_hop, receive_poll, receive_queued,
  receive_ack, receive_packet, receive_probe, receive_inner, queued_packet, ProbeCode,
  receive_final, receive_flags, waits, fails, finish, acknowledged, Kind, to_poll, to_bmc,
  to_transit, to_request, kind_of, kind_of_ack, answer_to, success, unavailable, unsupported, retry,
  failed,
}

-- The packets that a packet contains: itself, those of a forwarded reply behind its completion code,
-- and those of a queued message behind its completion code and channel.
pub data Inside : List ℕ → List ℕ → Type 0 where
  itself : (bytes : List ℕ) → Inside bytes bytes
  forwarded :
      (bytes inner : List ℕ)
      → Inside (drop 1 (reply_message bytes).payload) inner
      → Inside bytes inner
  queued :
      (bytes packet inner : List ℕ)
      → queued_packet (drop 1 (drop 1 (reply_message bytes).payload)) ≡ some packet
      → Inside packet inner
      → Inside bytes inner

-- The packets inside the datagrams of a log.
pub data Arrived : List (List ℕ) → List ℕ → Type 0 where
  now :
      (bytes inner : List ℕ) (log : List (List ℕ))
      → Inside bytes inner
      → Arrived (bytes ∷ log) inner
  before :
      (bytes inner : List ℕ) (log : List (List ℕ)) → Arrived log inner → Arrived (bytes ∷ log) inner

-- A packet that was seen is a valid reply with the fields that are expected, and the response is its
-- message, under its sequence number.
pub record Answered (Seen : List ℕ → Type 0) (e : ExpectedReply) (r : Response) : Type 0 where
  pub packet : List ℕ
  pub seen : Seen packet
  pub valid : validate_ipmb_checksums packet ≡ true
  pub reply : IsReplyTo e packet
  pub message : r.message ≡ reply_message packet
  pub seq : r.seq ≡ at packet 4 / 4

-- A packet that was seen is a valid reply with the fields that are expected, and with the completion
-- code of a success.
pub record Acked (Seen : List ℕ → Type 0) (e : ExpectedReply) : Type 0 where
  pub packet : List ℕ
  pub seen : Seen packet
  pub valid : validate_ipmb_checksums packet ≡ true
  pub reply : IsReplyTo e packet
  pub success : get_or (reply_message packet).payload 0 0 ≡ 0

-- Where the request is sent over a hop, the hop has acknowledged it.
pub record HopsAcked (Seen : List ℕ → Type 0) (p : PendingRequest) : Type 0 where
  pub bmc : (e : ExpectedReply) → p.bmc_ack ≡ some e → Acked Seen e
  pub transit : (e : ExpectedReply) → p.transit_ack ≡ some e → Acked Seen e

-- A deferred response is the reply of a packet seen, and so is each acknowledgement noted.
pub record IsPending (Seen : List ℕ → Type 0) (p : PendingRequest) : Type 0 where
  pub deferred : (r : Response) → p.deferred ≡ some r → Answered Seen p.final_reply r
  pub bmc : p.bmc_acked ≡ true → (e : ExpectedReply) → p.bmc_ack ≡ some e → Acked Seen e
  pub transit : p.transit_acked ≡ true → (e : ExpectedReply) → p.transit_ack ≡ some e → Acked Seen e

Answered-wider :
    {S T : List ℕ → Type 0} {e : ExpectedReply} {r : Response}
    → ((q : List ℕ) → S q → T q)
    → Answered S e r
    → Answered T e r
Answered-wider f a = record {
  packet = a.packet;
  seen = f a.packet a.seen;
  valid = a.valid;
  reply = a.reply;
  message = a.message;
  seq = a.seq;
}

Acked-wider :
    {S T : List ℕ → Type 0} {e : ExpectedReply} → ((q : List ℕ) → S q → T q) → Acked S e → Acked T e
Acked-wider f a = record {
  packet = a.packet;
  seen = f a.packet a.seen;
  valid = a.valid;
  reply = a.reply;
  success = a.success;
}

IsPending-wider :
    {S T : List ℕ → Type 0} {p : PendingRequest}
    → ((q : List ℕ) → S q → T q)
    → IsPending S p
    → IsPending T p
IsPending-wider f w = record {
  deferred = λ r e. Answered-wider f (w.deferred r e);
  bmc = λ a e h. Acked-wider f (w.bmc a e h);
  transit = λ a e h. Acked-wider f (w.transit a e h);
}

correlate-Acked :
    {Seen : List ℕ → Type 0} (bytes : List ℕ) (e : ExpectedReply) (r : Response)
    → Seen bytes
    → correlate bytes e ≡ ok r
    → completion_code r ≡ 0
    → Acked Seen e
correlate-Acked bytes e r seen h good =
    let a = correlate-Answers e bytes r h in
    record {
      packet = bytes;
      seen = seen;
      valid = a.0;
      reply = a.1;
      success = ap (λ m. get_or m.payload 0 0) (sym a.2) ∙ good;
    }

correlate-Answered :
    {Seen : List ℕ → Type 0} (bytes : List ℕ) (e : ExpectedReply) (r : Response)
    → Seen bytes
    → correlate bytes e ≡ ok r
    → Answered Seen e r
correlate-Answered bytes e r seen h =
    let a = correlate-Answers e bytes r h in
    record { packet = bytes; seen = seen; valid = a.0; reply = a.1; message = a.2; seq = a.3 }

-- What a kind says of the packet.
abbrev KindIs : PendingRequest → List ℕ → Kind → Type 0
KindIs p bytes (to_poll poll r) = correlate bytes poll ≡ ok r
KindIs p bytes (to_bmc r) = (e : ExpectedReply) × (p.bmc_ack ≡ some e) × (correlate bytes e ≡ ok r)
KindIs p bytes (to_transit r) =
    (e : ExpectedReply) × (p.transit_ack ≡ some e) × (correlate bytes e ≡ ok r)
KindIs p bytes to_request = Unit {0}

answer_to_lem :
    (bytes : List ℕ) (o : Option ExpectedReply) (r : Response)
    → answer_to bytes o ≡ some r
    → (e : ExpectedReply) × (o ≡ some e) × (correlate bytes e ≡ ok r)
answer_to_lem bytes none r h = absurd cc
answer_to_lem bytes (some e) r h = elim (Result-cases (correlate bytes e)) [
  | inl (x, k) ↦ let h' = rw (k, answer_to) at h in (e, refl, k ∙ ap ok (some_inj h'))
  | inr (x, k) ↦ let h' = rw (k, answer_to) at h in absurd cc
]

kind_of_ack-KindIs : (p : PendingRequest) (bytes : List ℕ) → KindIs p bytes (kind_of_ack p bytes)
unfolding kind_of_ack
kind_of_ack-KindIs p bytes =
    acked_lem (answer_to bytes p.bmc_ack) (answer_to bytes p.transit_ack)
      (answer_to_lem bytes p.bmc_ack) (answer_to_lem bytes p.transit_ack)
  where
    acked_lem :
        (x y : Option Response)
        → ((r : Response)
            → x ≡ some r
            → (e : ExpectedReply) × (p.bmc_ack ≡ some e) × (correlate bytes e ≡ ok r))
        → ((r : Response)
            → y ≡ some r
            → (e : ExpectedReply) × (p.transit_ack ≡ some e) × (correlate bytes e ≡ ok r))
        → KindIs p bytes (elim x [
          | some r ↦ to_bmc r
          | none ↦ elim y [ some r ↦ to_transit r | none ↦ to_request ]
        ])
    acked_lem none none f g = tt
    acked_lem none (some r) f g = g r refl
    acked_lem (some r) y f g = f r refl

kind_of-KindIs : (p : PendingRequest) (bytes : List ℕ) → KindIs p bytes (kind_of p bytes)
unfolding kind_of
kind_of-KindIs p bytes = polled_lem p.poll
  where
    polled_lem :
        (o : Option ExpectedReply)
        → KindIs p bytes (elim o [
          | some poll ↦ elim (correlate bytes poll) [
            | ok r ↦ to_poll poll r
            | err x ↦ kind_of_ack p bytes
          ]
          | none ↦ kind_of_ack p bytes
        ])
    polled_lem none = kind_of_ack-KindIs p bytes
    polled_lem (some poll) = elim (Result-cases (correlate bytes poll)) [
      | inl (r, k) ↦ rw (k) k
      | inr (x, k) ↦ rw (k) (kind_of_ack-KindIs p bytes)
    ]

module _ (Seen : List ℕ → Type 0) where
  -- What holds after a packet: the route is the same, what was noted was seen, and a response that is
  -- handed over is one to the request, with every hop acknowledged.
  record Post (p : PendingRequest) (x : Received) : Type 0 where
    final : x.pending.final_reply ≡ p.final_reply
    bmc : x.pending.bmc_ack ≡ p.bmc_ack
    transit : x.pending.transit_ack ≡ p.transit_ack
    pending : IsPending Seen x.pending
    handed :
        (r : Response)
        → x.result ≡ ok (some r)
        → Answered Seen p.final_reply r × (acknowledged x.pending ≡ true)

  waits-Post :
      (p : PendingRequest) (supported : Bool) → IsPending Seen p → Post p (waits p supported)
  waits-Post p supported w = record {
    final = refl;
    bmc = refl;
    transit = refl;
    pending = w;
    handed = λ r e. cc;
  }

  fails-Post :
      (p : PendingRequest) (supported : Bool) (x : RmcpIpmiReceiveError)
      → IsPending Seen p
      → Post p (fails p supported x)
  fails-Post p supported x w = record {
    final = refl;
    bmc = refl;
    transit = refl;
    pending = w;
    handed = λ r e. cc;
  }

  finish-Post :
      (p : PendingRequest) (supported : Bool) (x : Result RmcpIpmiReceiveError Response)
      → ((r : Response) → x ≡ ok r → Answered Seen p.final_reply r)
      → IsPending Seen p
      → Post p (finish p supported x)
  unfolding finish
  finish-Post p supported (err e) a w = fails-Post p supported e w
  finish-Post p supported (ok response) a w = elim (Bool-cases (acknowledged p)) [
    | inl all ↦ rw all (record {
      final = refl;
      bmc = refl;
      transit = refl;
      pending = w;
      handed = λ r e. (a r (cc e), all);
    })
    | inr more ↦ rw more (elim (Bool-cases (is_some p.deferred)) [
      | inl two ↦ rw two (fails-Post p supported ipmb_response_mismatch w)
      | inr one ↦ rw one (record {
        final = refl;
        bmc = refl;
        transit = refl;
        pending = record { deferred = λ r e. a r (cc e); bmc = w.bmc; transit = w.transit };
        handed = λ r e. cc;
      })
    ])
  ]

  receive_final-Post :
      (p : PendingRequest) (supported : Bool) (bytes : List ℕ)
      → Seen bytes
      → IsPending Seen p
      → Post p (receive_final p supported bytes)
  unfolding receive_final
  receive_final-Post p supported bytes seen w =
      finish-Post p supported (correlate bytes p.final_reply)
        (λ r e. correlate-Answered bytes p.final_reply r seen e) w

  receive_ack-Post :
      (p : PendingRequest) (supported : Bool) → IsPending Seen p → Post p (receive_ack p supported)
  unfolding receive_ack
  receive_ack-Post p supported w =
      elim (Bool-cases (p.bmc_acked && (not (is_some p.transit_ack) || p.transit_acked))) [
        | inl all ↦ rw all (record {
          final = refl;
          bmc = refl;
          transit = refl;
          pending = record { deferred = λ r e. cc; bmc = w.bmc; transit = w.transit };
          handed = λ r e. (w.deferred r (cc e), unfold acknowledged in ground arith);
        })
        | inr more ↦ rw more (waits-Post p supported w)
      ]

  receive_flags-Post :
      (p : PendingRequest) (supported : Bool) (body : List ℕ)
      → IsPending Seen p
      → Post p (receive_flags p supported body)
  unfolding receive_flags
  receive_flags-Post p supported body w = elim (Bool-cases (length body != 1)) [
    | inl bad ↦ rw bad (fails-Post p supported not_enough_data w)
    | inr one ↦ rw one (record {
      final = refl;
      bmc = refl;
      transit = refl;
      pending = record { deferred = w.deferred; bmc = w.bmc; transit = w.transit };
      handed = λ r e. cc;
    })
  ]

  -- What the nested call must do, where all that the packet contains counts as seen.
  abbrev Sound : (PendingRequest → Bool → List ℕ → Received) → Type 0
  Sound again =
      (p : PendingRequest) (supported : Bool) (bytes : List ℕ)
      → ((q : List ℕ) → Inside bytes q → Seen q)
      → IsPending Seen p
      → Post p (again p supported bytes)

  -- Only the probe and the flags of the queue are changed.
  rebase :
      (p : PendingRequest) (poll : Option ExpectedReply) (available : Bool) {x : Received}
      → Post (record p { poll = poll; queue_available = available }) x
      → Post p x
  rebase p poll available q = record {
    final = q.final;
    bmc = q.bmc;
    transit = q.transit;
    pending = q.pending;
    handed = q.handed;
  }

  polled :
      (p : PendingRequest) (poll : Option ExpectedReply) (available : Bool)
      → IsPending Seen p
      → IsPending Seen (record p { poll = poll; queue_available = available })
  polled p poll available w = record { deferred = w.deferred; bmc = w.bmc; transit = w.transit }

  -- An acknowledgement that is noted changes nothing of the route.
  rebase_acked :
      (p : PendingRequest) (a b : Bool) {x : Received}
      → Post (record p { bmc_acked = a; transit_acked = b }) x
      → Post p x
  rebase_acked p a b q = record {
    final = q.final;
    bmc = q.bmc;
    transit = q.transit;
    pending = q.pending;
    handed = q.handed;
  }

  module _ (again : PendingRequest → Bool → List ℕ → Received) (sound : Sound again) where
    receive_packet-Post :
        (p : PendingRequest) (supported : Bool) (o : Option (List ℕ))
        → ((packet q : List ℕ) → o ≡ some packet → Inside packet q → Seen q)
        → IsPending Seen p
        → Post p (receive_packet again p supported o)
    unfolding receive_packet
    receive_packet-Post p supported none seen w = fails-Post p supported ipmb_checksum_failed w
    receive_packet-Post p supported (some packet) seen w =
        sound p supported packet (λ q i. seen packet q refl i) w

    receive_queued-Post :
        (p : PendingRequest) (supported : Bool) (body : List ℕ)
        → ((packet q : List ℕ)
            → queued_packet (drop 1 body) ≡ some packet
            → Inside packet q
            → Seen q)
        → IsPending Seen p
        → Post p (receive_queued again p supported body)
    unfolding receive_queued
    receive_queued-Post p supported body seen w = ground (
      arith,
      fails-Post p supported not_enough_data w,
      fails-Post p supported ipmb_response_mismatch w,
      receive_packet-Post p supported (queued_packet (drop 1 body)) seen w,
    )

    receive_probe-Post :
        (p : PendingRequest) (supported : Bool) (poll : ExpectedReply) (r : Response)
        (c : ProbeCode)
        → ((packet q : List ℕ)
            → queued_packet (drop 1 (response_data r)) ≡ some packet
            → Inside packet q
            → Seen q)
        → IsPending Seen p
        → Post p (receive_probe again p supported poll r c)
    unfolding receive_probe
    receive_probe-Post p supported poll r success seen w =
        elim (Bool-cases (poll.cmd == get_message_flags)) [
          | inl flags ↦ rw flags (receive_flags-Post p supported (response_data r) w)
          | inr message ↦ rw message (
              rebase p p.poll false (
                receive_queued-Post (record p { queue_available = false }) supported
                  (response_data r) seen (polled p p.poll false w)))
        ]
    receive_probe-Post p supported poll r unavailable seen w =
        rebase p p.poll false
          (waits-Post (record p { queue_available = false }) supported (polled p p.poll false w))
    receive_probe-Post p supported poll r unsupported seen w = waits-Post p false w
    receive_probe-Post p supported poll r retry seen w =
        rebase p p.poll false
          (waits-Post (record p { queue_available = false }) supported (polled p p.poll false w))
    receive_probe-Post p supported poll r failed seen w = fails-Post p supported _ w

    receive_inner-Post :
        (p : PendingRequest) (supported : Bool) (body : List ℕ)
        → ((q : List ℕ) → Inside body q → Seen q)
        → IsPending Seen p
        → Post p (receive_inner again p supported body)
    unfolding receive_inner
    receive_inner-Post p supported [] seen w = receive_ack-Post p supported w
    receive_inner-Post p supported (b ∷ bs) seen w = sound p supported (b ∷ bs) seen w

    receive_hop-Post :
        (p acked : PendingRequest) (before supported : Bool) (hop : ℕ) (r : Response)
        → IsPending Seen p
        → (completion_code r ≡ 0 → Post p (receive_inner again acked supported (response_data r)))
        → Post p (receive_hop again p acked before supported hop r)
    unfolding receive_hop
    receive_hop-Post p acked true supported hop r w inner =
        fails-Post p supported ipmb_response_mismatch w
    receive_hop-Post p acked false supported hop r w inner =
        elim (Bool-cases (completion_code r != 0)) [
          | inl bad ↦ rw bad (fails-Post p supported (bridge_completion hop (completion_code r)) w)
          | inr good ↦ rw good (inner (ground (arith, good)))
        ]

    receive_kind-Post :
        (p : PendingRequest) (supported : Bool) (bytes : List ℕ) (k : Kind)
        → KindIs p bytes k
        → ((q : List ℕ) → Inside bytes q → Seen q)
        → IsPending Seen p
        → Post p (receive_kind again p supported bytes k)
    unfolding receive_kind receive_poll
    receive_kind-Post p supported bytes (to_poll poll r) is seen w =
        let same = (correlate-Answers poll bytes r is).2 in
        rebase p none p.queue_available (
          receive_probe-Post (record p { poll = none }) supported poll r _
            (λ packet q e i. seen q (
              queued bytes packet q
                (ap (λ m. queued_packet (drop 1 (drop 1 m.payload))) (sym same) ∙ e) i))
            (polled p none p.queue_available w))
    receive_kind-Post p supported bytes (to_bmc r) is seen w =
        let (e, route, read) = is in
        let same = (correlate-Answers e bytes r read).2 in
        receive_hop-Post p (record p { bmc_acked = true }) p.bmc_acked supported 0 r w
          (λ good. rebase_acked p true p.transit_acked (
            receive_inner-Post (record p { bmc_acked = true }) supported (response_data r)
              (λ q i. seen q (forwarded bytes q (subst (λ m. Inside (drop 1 m.payload) q) same i)))
              (record {
                deferred = w.deferred;
                bmc = λ a x h.
                    subst (Acked Seen) (some_inj (sym route ∙ h))
                      (correlate-Acked bytes e r (seen bytes (itself bytes)) read good);
                transit = w.transit;
              })))
    receive_kind-Post p supported bytes (to_transit r) is seen w =
        let (e, route, read) = is in
        let same = (correlate-Answers e bytes r read).2 in
        receive_hop-Post p (record p { transit_acked = true }) p.transit_acked supported 1 r w
          (λ good. rebase_acked p p.bmc_acked true (
            receive_inner-Post (record p { transit_acked = true }) supported (response_data r)
              (λ q i. seen q (forwarded bytes q (subst (λ m. Inside (drop 1 m.payload) q) same i)))
              (record {
                deferred = w.deferred;
                bmc = w.bmc;
                transit = λ a x h.
                    subst (Acked Seen) (some_inj (sym route ∙ h))
                      (correlate-Acked bytes e r (seen bytes (itself bytes)) read good);
              })))
    receive_kind-Post p supported bytes to_request is seen w =
        receive_final-Post p supported bytes (seen bytes (itself bytes)) w

  receive_nested-Post : (left : ℕ) → Sound (receive_nested left)
  unfolding receive_nested
  receive_nested-Post zero p supported bytes seen w =
      fails-Post p supported ipmb_response_mismatch w
  receive_nested-Post (suc left) p supported bytes seen w =
      receive_kind-Post (receive_nested left) (receive_nested-Post left) p supported bytes
        (kind_of p bytes) (kind_of-KindIs p bytes) seen w

  acknowledged-HopsAcked :
      (p : PendingRequest) → IsPending Seen p → acknowledged p ≡ true → HopsAcked Seen p
  unfolding acknowledged
  acknowledged-HopsAcked p w h = record {
    bmc = λ e q. w.bmc (let h' = rw (q) at h in ground (arith, h')) e q;
    transit = λ e q. w.transit (let h' = rw (q) at h in ground (arith, h')) e q;
  }

-- All that a datagram contains has arrived, and so has all that had before.
after_datagram :
    (log : List (List ℕ)) (bytes : List ℕ) (p : PendingRequest) (supported : Bool)
    → IsPending (Arrived log) p
    → Post (Arrived (bytes ∷ log)) p (receive_nested 3 p supported bytes)
after_datagram log bytes p supported w =
    receive_nested-Post (Arrived (bytes ∷ log)) 3 p supported bytes (λ q i. now bytes q log i)
      (IsPending-wider (λ q a. before bytes q log a) w)

-- While a request is pending, and what is noted for it was read of the datagrams of a log: a response that
-- `receive` hands over is the message of a packet inside the new datagram or those of the log, a valid
-- packet with the addresses, units, sequence number, function and command of the reply to the request; for
-- each hop of the route such a packet is a reply to the hop's own Send Message, with the
-- completion code of a success; and the request is no longer pending.
pub receive-Answers :
    (s : IpmbState) (p : PendingRequest) (log : List (List ℕ)) (bytes : List ℕ) (r : Response)
    → s.pending ≡ some p
    → IsPending (Arrived log) p
    → (receive s bytes).1 ≡ ok (some r)
    → Answered (Arrived (bytes ∷ log)) p.final_reply r
      × HopsAcked (Arrived (bytes ∷ log)) p
      × ((receive s bytes).0.pending ≡ none)
unfolding receive
receive-Answers s p log bytes r e w h =
    let q = after_datagram log bytes p s.get_message_supported w in
    let x = receive_nested 3 p s.get_message_supported bytes in
    let handed : x.result ≡ ok (some r) = ground arith in
    let done = q.handed r handed in
    let acked = acknowledged-HopsAcked (Arrived (bytes ∷ log)) x.pending q.pending done.1 in
    (
      done.0,
      record {
        bmc = λ y k. acked.bmc y (q.bmc ∙ k);
        transit = λ y k. acked.transit y (q.transit ∙ k);
      },
      ground arith,
    )

receive-pending :
    (s : IpmbState) (p q : PendingRequest) (bytes : List ℕ)
    → s.pending ≡ some p
    → (receive s bytes).0.pending ≡ some q
    → (receive_nested 3 p s.get_message_supported bytes).pending ≡ q
unfolding receive
receive-pending s p q bytes e h = ground arith

-- While a request is pending, and what is noted for it was read of the datagrams of a log: what is pending
-- after `receive` is the same request with the same route, a reply that is kept for it is the message of a
-- valid packet inside the new datagram or those of the log, with the fields of its reply, and each
-- hop that is noted as acknowledged was, by such a packet with the completion code of a success.
pub receive-IsPending :
    (s : IpmbState) (p q : PendingRequest) (log : List (List ℕ)) (bytes : List ℕ)
    → s.pending ≡ some p
    → IsPending (Arrived log) p
    → (receive s bytes).0.pending ≡ some q
    → IsPending (Arrived (bytes ∷ log)) q
      × (q.final_reply ≡ p.final_reply)
      × (q.bmc_ack ≡ p.bmc_ack)
      × (q.transit_ack ≡ p.transit_ack)
receive-IsPending s p q log bytes e w h =
    let x = after_datagram log bytes p s.get_message_supported w in
    let same = receive-pending s p q bytes e h in
    (
      subst (IsPending (Arrived (bytes ∷ log))) same x.pending,
      ap (λ y. y.final_reply) (sym same) ∙ x.final,
      ap (λ y. y.bmc_ack) (sym same) ∙ x.bmc,
      ap (λ y. y.transit_ack) (sym same) ∙ x.transit,
    )
