-- ===== src/Rmcp/V1_5/Session.antt =====
-- A session's whole history of sends and receives.
use mathlib.Core.Path.{subst}
use ipmi_rs.Base.{
  ℕ, ◌≤◌, max, ◌≡◌, refl, sym, ap, ◌∙◌, Bool, true, false, List, [], ◌∷◌, ◌++◌, Option, none, some,
  Result, ok, err, inl, inr, Bool-cases, All, All-append, Distinct, arith,
}
use ipmi_rs.Connection.Message.{Request}
use ipmi_rs.Rmcp.Errors.{RmcpIpmiSendError, no_pending_request}
use ipmi_rs.Rmcp.Ipmb.State.{IpmbState, begin, is_some}
use ipmi_rs.Rmcp.V1_5.State.{State, send_payload, send, send_begun, retired_on_error, exhausted}
use ipmi_rs.Rmcp.V1_5.Receive.{Loop, Event, recv_loop, recv, close, start, highest, max_of, closed}
use ipmi_rs.Rmcp.V1_5.Delivered.{recv_accepted, recv-accepted}
use ipmi_rs.Rmcp.V1_5.Replay.{fixed, IsActive, Clean, below, send_payload-fixed, recv_loop-Clean}

-- The calls on a session, with the numbers of the messages that were accepted: those that a call of `recv`
-- neither counts as unrelated nor answers with an error.
pub data History (f : Option (List ℕ → List ℕ)) (s : State) : State → List ℕ → Type 0 where
  opened : History f s s []
  sent :
      {t : State} {all : List ℕ} (u : State) (before blocked : Option RmcpIpmiSendError)
      (accepted : Bool) (request : Request) (deadline : ℕ)
      → History f s t all
      → (send f t before blocked accepted request deadline).0 ≡ u
      → History f s u all
  received :
      {t : State} {all : List ℕ} (u : State) (more : List ℕ) (events : List Event)
      → History f s t all
      → (recv f t events).0 ≡ u
      → recv_accepted f t events ++ all ≡ more
      → History f s u more

retired-fixed :
    (r : State × Result RmcpIpmiSendError (List ℕ)) → fixed (retired_on_error r).0 ≡ fixed r.0
retired-fixed (s, ok m) = refl
retired-fixed (s, err e) = refl

send_begun-fixed :
    (f : Option (List ℕ → List ℕ)) (s : State) (blocked : Option RmcpIpmiSendError)
    (accepted : Bool) (b : Result RmcpIpmiSendError (IpmbState × List ℕ))
    → fixed (send_begun f s blocked accepted b).0 ≡ fixed s
send_begun-fixed f s blocked accepted (err e) = refl
send_begun-fixed f s blocked accepted (ok (ipmb, payload)) =
    let s' : State = record s { ipmb_state = ipmb } in
    retired-fixed (send_payload f s' blocked accepted payload)
    ∙ send_payload-fixed f s' blocked accepted payload

send-fixed :
    (f : Option (List ℕ → List ℕ)) (s : State) (before blocked : Option RmcpIpmiSendError)
    (accepted : Bool) (request : Request) (deadline : ℕ)
    → fixed (send f s before blocked accepted request deadline).0 ≡ fixed s
unfolding send
send-fixed f s (some e) blocked accepted request deadline = refl
send-fixed f s none blocked accepted request deadline = elim (Bool-cases (exhausted s)) [
  | inl e ↦ ground (arith, e)
  | inr e ↦
      let b = begin s.ipmb_state request deadline in
      let q : send f s none blocked accepted request deadline ≡ send_begun f s blocked accepted b =
        rw (e) in
      ap (λ r. fixed r.0) q ∙ send_begun-fixed f s blocked accepted b
]

All-apart :
    (last : Option ℕ) (x : ℕ) (ys : List ℕ)
    → below last x ≡ false
    → All (λ q. below last q ≡ true) ys
    → All (λ y. ¬ (x ≡ y)) ys
All-apart last x [] h o = tt
All-apart last x (y ∷ ys) h o = ((λ e. absurd cc), All-apart last x ys h o.1)

pub Distinct-append :
    (last : Option ℕ) (xs ys : List ℕ)
    → Distinct xs
    → Distinct ys
    → All (λ q. below last q ≡ false) xs
    → All (λ q. below last q ≡ true) ys
    → Distinct (xs ++ ys)
Distinct-append last [] ys dx dy nx oy = dy
Distinct-append last (x ∷ xs) ys dx dy nx oy = (
  All-append (λ y. ¬ (x ≡ y)) xs ys dx.0 (All-apart last x ys nx.0 oy),
  Distinct-append last xs ys dx.1 dy nx.1 oy,
)

-- The highest number bounds those seen, and the last one when there are new ones.
max_of_ge : (x : ℕ) (xs : List ℕ) → x ≤ max_of x xs
max_of_ge x [] = omega arith
max_of_ge x (y ∷ ys) = omega (arith, max_of_ge (max x y) ys)

max_of-All : (b x : ℕ) (xs : List ℕ) → max_of x xs ≤ b → All (λ q. q ≤ b) (x ∷ xs)
max_of-All b x [] h = (h, tt)
max_of-All b x (y ∷ ys) h =
    let r = max_of-All b (max x y) ys h in (omega (arith, r.0), (omega (arith, r.0), r.1))

All-below : (b : ℕ) (xs : List ℕ) → All (λ q. q ≤ b) xs → All (λ q. below (some b) q ≡ true) xs
All-below b [] h = tt
All-below b (x ∷ xs) h = (ground (arith, h.0), All-below b xs h.1)

All-raised :
    (last : Option ℕ) (x b : ℕ) (ys : List ℕ)
    → below last x ≡ false
    → x ≤ b
    → All (λ q. below last q ≡ true) ys
    → All (λ q. below (some b) q ≡ true) ys
All-raised last x b [] h l o = tt
All-raised none x b (y ∷ ys) h l o = absurd (ground (arith, o.0))
All-raised (some v) x b (y ∷ ys) h l o =
    (ground (arith, h, l, o.0), All-raised (some v) x b ys h l o.1)

pub highest-below :
    (last : Option ℕ) (seen all : List ℕ)
    → All (λ q. below last q ≡ false) seen
    → All (λ q. below last q ≡ true) all
    → All (λ q. below (highest seen last) q ≡ true) (seen ++ all)
highest-below last [] all n o = o
highest-below last (x ∷ xs) all n o =
    let b = max_of x xs in
    All-append (λ q. below (some b) q ≡ true) (x ∷ xs) all
      (All-below b (x ∷ xs) (max_of-All b x xs (omega arith)))
      (All-raised last x b all n.0 (max_of_ge x xs) o)

-- What is known of a session: it is active, and the accepted numbers are distinct and at or below
-- the last one.
record Track (s : State) (all : List ℕ) : Type 0 where
  last : Option ℕ
  active : IsActive s last
  distinct : Distinct all
  old : All (λ q. below last q ≡ true) all

close-Track :
    (l : Loop) (last : Option ℕ) (all : List ℕ)
    → Clean last l
    → Distinct all
    → All (λ q. below last q ≡ true) all
    → Track (close l) (l.seen ++ all)
close-Track l last all c d o =
    let e : l.state.last_inbound_sequence ≡ last = ap (λ t. t.1.1) c.active.is in
    record {
      last = highest l.seen last;
      active = record {
        id = c.active.id;
        is = ap (λ t. (t.0, (t.1.0, highest l.seen t.1.1))) c.active.is;
      };
      distinct = Distinct-append last l.seen all c.distinct d c.new o;
      old = highest-below last l.seen all c.new o;
    }

recv-Track :
    (f : Option (List ℕ → List ℕ)) (s : State) (events : List Event) (all : List ℕ)
    → Track s all
    → Track (recv f s events).0 ((recv f s events).1.0 ++ all)
unfolding recv
recv-Track f s events all t = elim (Bool-cases (is_some s.ipmb_state.pending)) [
  | inl p ↦
      let r = recv_loop f (start s) events in
      let q : recv f s events ≡ closed r = rw (p) in
      let c =
        recv_loop-Clean f (start s) events t.last
          (record { active = t.active; distinct = tt; new = tt }) in
      subst (λ x. Track x.0 (x.1.0 ++ all)) (sym q) (close-Track r.0 t.last all c t.distinct t.old)
  | inr p ↦
      let q : recv f s events ≡ (s, ([], err no_pending_request)) = rw (p) in
      subst (λ x. Track x.0 (x.1.0 ++ all)) (sym q) t
]

History-Track :
    {f : Option (List ℕ → List ℕ)} {s t : State} {all : List ℕ}
    → Track s []
    → History f s t all
    → Track t all
History-Track {f = f} w opened = w
History-Track {f = f} w (sent {t = t} {all = all} u before blocked accepted request deadline h e) =
    let k = History-Track w h in
    let q = send-fixed f t before blocked accepted request deadline in
    record {
      last = k.last;
      active = record { id = k.active.id; is = ap fixed (sym e) ∙ (q ∙ k.active.is) };
      distinct = k.distinct;
      old = k.old;
    }
History-Track {f = f} w (received {t = t} {all = all} u more events h e m) =
    let k = recv-Track f t events all (History-Track w h) in
    let same = recv-accepted f t events (History-Track w h).last (History-Track w h).active in
    let kept : (recv f t events).1.0 ++ all ≡ more = ap (λ x. x ++ all) same ∙ m in
    subst (λ x. Track x more) e (subst (Track (recv f t events).0) kept k)

-- In no history of sends and receives, from an activated session that has accepted nothing, are two
-- messages with the same sequence number accepted. A message is accepted when a call of `recv` reads it from a
-- datagram and neither counts the datagram as unrelated nor ends with an error at it.
pub History-Distinct :
    (f : Option (List ℕ → List ℕ)) (s t : State) (id : ℕ) (all : List ℕ)
    → fixed s ≡ (some id, (true, none))
    → History f s t all
    → Distinct all
History-Distinct f s t id all e h =
    (History-Track
      (record { last = none; active = record { id = id; is = e }; distinct = tt; old = tt })
      h).distinct
