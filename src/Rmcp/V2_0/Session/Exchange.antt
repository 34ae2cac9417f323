-- ===== src/Rmcp/V2_0/Session/Exchange.antt =====
-- A session's whole history of sends, receives and polls.
use mathlib.Core.Path.{subst}
use mathlib.Core.List.{append_assoc}
use ipmi_rs.Base.{
  ℕ, suc, ◌≡◌, inl, inr, refl, sym, ap, ◌∙◌, Bool, true, false, List, [], ◌∷◌, ◌++◌, Option, none,
  some, Result, ok, err, Bool-cases, All, Distinct, arith,
}
use ipmi_rs.Connection.Message.{Request, Response}
use ipmi_rs.Rmcp.Errors.{RmcpIpmiSendError}
use ipmi_rs.Rmcp.Sol.Frame.{SolFrame}
use ipmi_rs.Rmcp.Sol.Flow.{SolFlow}
use ipmi_rs.Rmcp.Ipmb.State.{IpmbState, is_some, poll_message, begin}
use ipmi_rs.Rmcp.V1_5.Receive.{is_replay, contains, highest}
use ipmi_rs.Rmcp.V1_5.Replay.{below, contains-All}
use ipmi_rs.Rmcp.V1_5.Session.{Distinct-append, highest-below}
use ipmi_rs.Rmcp.V2_0.Crypto.Backend.{Backend}
use ipmi_rs.Rmcp.V2_0.Session.{
  Session, Sending, exhausted, send_payload, send, send_begun, retired_on_error, send_sol_frame,
}
use ipmi_rs.Rmcp.V2_0.Session.Receive.{receive_one}
use ipmi_rs.Rmcp.V2_0.Session.Loops.{
  Event, arrives, arrives_other, probes, fails, Ending, Loop, Turn, with_received, on_ipmb,
  on_probe, turn, after_turn, recv_loop, start, commit, closed, recv, PollEvent, polls, polls_other,
  poll_fails, after_poll, poll_counted, Polled, then_poll, poll_sol,
}
use ipmi_rs.Rmcp.V2_0.Session.Delivered.{
  recv_accepted, recv-accepted, poll_accepted, poll_sol-accepted,
}
use ipmi_rs.Rmcp.V2_0.Session.Replay.{
  fixed, send_payload-fixed, send_sol_frame-fixed, after_receive-Same, probe-Same, Advances,
  receive_one-Moves,
}

abbrev MovesOn : Loop → Turn → Type 0
MovesOn l t = (fixed t.0.session ≡ fixed l.session) × Advances l.session l.seen t.0.seen

turn-MovesOn : (b : Backend) (l : Loop) (event : Event) → MovesOn l (turn b l event)
unfolding turn on_probe
turn-MovesOn b l (arrives io bytes) =
    let r = receive_one b l.session l.seen io bytes in
    let m = receive_one-Moves b l.session l.seen io bytes in
    let k = after_receive-Same (with_received l r) r.result in
    (k.0 ∙ m.0, subst (Advances l.session l.seen) (sym k.1) m.1)
turn-MovesOn b l arrives_other = (refl, inl refl)
turn-MovesOn b l (probes io) =
    let r = poll_message l.session.ipmb_state in
    let k = probe-Same b (on_ipmb l r.0) io r.1 in (k.0, inl k.1)
turn-MovesOn b l (fails e) = (refl, inl refl)

-- The numbers seen in a call are distinct and new.
record Clean (last : Option ℕ) (s : Session) (seen : List ℕ) : Type 0 where
  at_last : s.last_inbound_sequence ≡ last
  distinct : Distinct seen
  new : All (λ q. below last q ≡ false) seen

advance-Clean :
    (last : Option ℕ) (s s' : Session) (seen seen' : List ℕ)
    → fixed s' ≡ fixed s
    → Advances s seen seen'
    → Clean last s seen
    → Clean last s' seen'
advance-Clean last s s' seen seen' f (inl e) c = record {
  at_last = ap (λ t. t.1) f ∙ c.at_last;
  distinct = subst Distinct (sym e) c.distinct;
  new = subst (All (λ q. below last q ≡ false)) (sym e) c.new;
}
advance-Clean last s s' seen seen' f (inr (q, (e, r))) c =
    let r' : is_replay last seen q ≡ false = ap (λ x. is_replay x seen q) (sym c.at_last) ∙ r in
    let b : below last q ≡ false = ground (arith, r') in
    let d : contains q seen ≡ false = ground (arith, r') in
    record {
      at_last = ap (λ t. t.1) f ∙ c.at_last;
      distinct = subst Distinct (sym e) (contains-All q seen d, c.distinct);
      new = subst (All (λ q. below last q ≡ false)) (sym e) (b, c.new);
    }

recv_loop-Clean :
    (b : Backend) (last : Option ℕ) (l : Loop) (events : List Event)
    → Clean last l.session l.seen
    → Clean last (recv_loop b l events).0.session (recv_loop b l events).0.seen
unfolding recv_loop
recv_loop-Clean b last l [] c = c
recv_loop-Clean b last l (event ∷ events) c =
    let t = turn b l event in
    let m = turn-MovesOn b l event in
    let d = advance-Clean last l.session t.0.session l.seen t.0.seen m.0 m.1 c in
    after t (recv_loop b t.0 events) d (recv_loop-Clean b last t.0 events d)
  where
    after :
        (t : Turn) (rest : Loop × Ending Response)
        → Clean last t.0.session t.0.seen
        → Clean last rest.0.session rest.0.seen
        → Clean last (after_turn t rest).0.session (after_turn t rest).0.seen
    after (l', some r) rest d e = d
    after (l', none) rest d e = e

-- What is known of a session: the accepted numbers are distinct, and at or below the last one.
record Track (s : Session) (all : List ℕ) : Type 0 where
  distinct : Distinct all
  old : All (λ q. below s.last_inbound_sequence q ≡ true) all

commit-Track :
    (last : Option ℕ) (s : Session) (seen all : List ℕ)
    → Clean last s seen
    → Distinct all
    → All (λ q. below last q ≡ true) all
    → Track (commit s seen) (seen ++ all)
commit-Track last s seen all c d o = record {
  distinct = Distinct-append last seen all c.distinct d c.new o;
  old =
      subst (λ x. All (λ q. below (highest seen x) q ≡ true) (seen ++ all)) (sym c.at_last)
        (highest-below last seen all c.new o);
}

-- A change of what the filter does not read.
kept-Track : (s s' : Session) (all : List ℕ) → fixed s' ≡ fixed s → Track s all → Track s' all
kept-Track s s' all f t = record {
  distinct = t.distinct;
  old = subst (λ x. All (λ q. below x q ≡ true) all) (sym (ap (λ x. x.1) f)) t.old;
}

recv-Track :
    (b : Backend) (s : Session) (events : List Event) (all : List ℕ)
    → Track s all
    → Track (recv b s events).0 ((recv b s events).1.0 ++ all)
unfolding recv
recv-Track b s events all t = elim (Bool-cases (is_some s.ipmb_state.pending)) [
  | inl p ↦
      let c =
        recv_loop-Clean b s.last_inbound_sequence (start s) events
          (record { at_last = refl; distinct = tt; new = tt }) in
      rw p (after (recv_loop b (start s) events) c)
  | inr p ↦ rw p t
]
  where
    after :
        (r : Loop × Ending Response)
        → Clean s.last_inbound_sequence r.0.session r.0.seen
        → Track (closed r).0 ((closed r).1.0 ++ all)
    after (l, ending) c =
        let u = commit-Track s.last_inbound_sequence l.session l.seen all c t.distinct t.old in
        record { distinct = u.distinct; old = u.old }

then_poll-Track :
    (s : Session) (seen all : List ℕ) (o : Option (Ending (Unit {0}))) (rest : Polled)
    → Track s (seen ++ all)
    → Track rest.0 (rest.1.0 ++ (seen ++ all))
    → Track (then_poll s seen o rest).0 ((then_poll s seen o rest).1.0 ++ all)
then_poll-Track s seen all (some ending) rest u v = u
then_poll-Track s seen all none (s', (more, ending)) u v =
    subst (Track s') (sym (append_assoc more seen all)) v

poll_sol-Track :
    (b : Backend) (s : Session) (wait_ack : Bool) (unrelated : ℕ) (events : List PollEvent)
    (all : List ℕ)
    → Track s all
    → Track
        (poll_sol b s wait_ack unrelated events).0
        ((poll_sol b s wait_ack unrelated events).1.0 ++ all)
unfolding poll_sol
poll_sol-Track b s wait_ack unrelated [] all t = t
poll_sol-Track b s wait_ack unrelated (polls io bytes ∷ events) all t =
    let r = receive_one b s [] io bytes in
    let m = receive_one-Moves b s [] io bytes in
    let c =
      advance-Clean s.last_inbound_sequence s r.session [] r.seen m.0 m.1
        (record { at_last = refl; distinct = tt; new = tt }) in
    let s' = commit r.session r.seen in
    let u = commit-Track s.last_inbound_sequence r.session r.seen all c t.distinct t.old in
    let rest = poll_sol b s' wait_ack (suc unrelated) events in
    then_poll-Track s' r.seen all (after_poll wait_ack unrelated s'.sol_flow r.result) rest u
      (poll_sol-Track b s' wait_ack (suc unrelated) events (r.seen ++ all) u)
poll_sol-Track b s wait_ack unrelated (polls_other ∷ events) all t =
    then_poll-Track s [] all (poll_counted unrelated) (poll_sol b s wait_ack (suc unrelated) events)
      t (poll_sol-Track b s wait_ack (suc unrelated) events all t)
poll_sol-Track b s wait_ack unrelated (poll_fails e ∷ events) all t = t

-- The calls on a session, with the numbers of the messages that were accepted. A change of the flow is
-- `sol_open`, `sol_limits`, `sol_close` or a call on the flow itself.
pub data Exchange (b : Backend) (s : Session) : Session → List ℕ → Type 0 where
  opened : Exchange b s s []
  sent :
      {t : Session} {all : List ℕ} (u : Session) (before : Option RmcpIpmiSendError) (io : Sending)
      (request : Request) (deadline : ℕ)
      → Exchange b s t all
      → (send b t before io request deadline).0 ≡ u
      → Exchange b s u all
  sent_frame :
      {t : Session} {all : List ℕ} (u : Session) (io : Sending) (frame : SolFrame)
      → Exchange b s t all
      → (send_sol_frame b t io frame).0 ≡ u
      → Exchange b s u all
  with_flow :
      {t : Session} {all : List ℕ} (u : Session) (flow : Option SolFlow)
      → Exchange b s t all
      → record t { sol_flow = flow } ≡ u
      → Exchange b s u all
  received :
      {t : Session} {all : List ℕ} (u : Session) (more : List ℕ) (events : List Event)
      → Exchange b s t all
      → (recv b t events).0 ≡ u
      → recv_accepted b t events ++ all ≡ more
      → Exchange b s u more
  polled :
      {t : Session} {all : List ℕ} (u : Session) (more : List ℕ) (wait_ack : Bool)
      (events : List PollEvent)
      → Exchange b s t all
      → (poll_sol b t wait_ack 0 events).0 ≡ u
      → poll_accepted b t wait_ack 0 events ++ all ≡ more
      → Exchange b s u more

send_begun-fixed :
    (b : Backend) (s : Session) (io : Sending) (r : Result RmcpIpmiSendError (IpmbState × List ℕ))
    → fixed (send_begun b s io r).0 ≡ fixed s
send_begun-fixed b s io (err e) = refl
send_begun-fixed b s io (ok (ipmb, payload)) =
    let t : Session = record s { ipmb_state = ipmb } in
    retired (send_payload b t io payload) ∙ send_payload-fixed b t io payload
  where
    retired :
        (r : Session × Result RmcpIpmiSendError (List ℕ)) → fixed (retired_on_error r).0 ≡ fixed r.0
    retired (t, ok m) = refl
    retired (t, err e) = refl

send-fixed :
    (b : Backend) (s : Session) (before : Option RmcpIpmiSendError) (io : Sending)
    (request : Request) (deadline : ℕ)
    → fixed (send b s before io request deadline).0 ≡ fixed s
unfolding send
send-fixed b s (some e) io request deadline = refl
send-fixed b s none io request deadline = elim (Bool-cases (exhausted s)) [
  | inl e ↦ rw e
  | inr e ↦ rw e (send_begun-fixed b s io (begin s.ipmb_state request deadline))
]

Exchange-Track : {b : Backend} {s t : Session} {all : List ℕ} → Exchange b s t all → Track t all
Exchange-Track opened = record { distinct = tt; old = tt }
Exchange-Track {b} (sent {t} {all} u before io request deadline h e) =
    kept-Track t u all (ap fixed (sym e) ∙ send-fixed b t before io request deadline)
      (Exchange-Track h)
Exchange-Track {b} (sent_frame {t} {all} u io frame h e) =
    kept-Track t u all (ap fixed (sym e) ∙ send_sol_frame-fixed b t io frame) (Exchange-Track h)
Exchange-Track (with_flow {t} {all} u flow h e) =
    kept-Track t u all (ap fixed (sym e)) (Exchange-Track h)
Exchange-Track {b} (received {t} {all} u more events h e m) =
    let kept : (recv b t events).1.0 ++ all ≡ more =
      ap (λ x. x ++ all) (recv-accepted b t events) ∙ m in
    subst (λ x. Track x more) e
      (subst (Track (recv b t events).0) kept (recv-Track b t events all (Exchange-Track h)))
Exchange-Track {b} (polled {t} {all} u more wait_ack events h e m) =
    let kept : (poll_sol b t wait_ack 0 events).1.0 ++ all ≡ more =
      ap (λ x. x ++ all) (poll_sol-accepted b t wait_ack 0 events) ∙ m in
    subst (λ x. Track x more) e
      (subst (Track (poll_sol b t wait_ack 0 events).0) kept
        (poll_sol-Track b t wait_ack 0 events all (Exchange-Track h)))

-- In no history of a session, of sends, receives, SOL frames and polls, are two messages with the same
-- sequence number accepted. An IPMI message is accepted when its datagram is read and `receive_one` returns no
-- error; a SOL message also when the error is of its frame or of the acknowledgement.
pub Exchange-Distinct :
    (b : Backend) (s t : Session) (all : List ℕ) → Exchange b s t all → Distinct all
Exchange-Distinct b s t all h = (Exchange-Track h).distinct
