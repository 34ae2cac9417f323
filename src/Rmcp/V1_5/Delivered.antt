-- ===== src/Rmcp/V1_5/Delivered.antt =====
-- Which messages a call of `recv` accepts, told from what it does and not from the numbers that it keeps.
use ipmi_rs.Base.{
  ℕ, ◌≡◌, refl, sym, ap, ◌∙◌, Bool, true, false, ◌&&◌, ◌||◌, not, List, [], ◌∷◌, ◌++◌, Option, none,
  some, Result, ok, err, ◌==◌, ◌!=◌, if◌then◌else◌, Bool-cases, arith, inl, inr,
}
use mathlib.Core.Path.{subst}
use mathlib.Core.List.{append_assoc}
use ipmi_rs.Connection.Message.{Response}
use ipmi_rs.Rmcp.Errors.{RmcpIpmiReceiveError}
use ipmi_rs.Rmcp.Ipmb.State.{is_some}
use ipmi_rs.Rmcp.Ipmb.Receive.{receive}
use ipmi_rs.Rmcp.V1_5.Auth.{auth_type_code}
use ipmi_rs.Rmcp.V1_5.Message.{ReadError, Message, from_data}
use ipmi_rs.Rmcp.V1_5.State.{State}
use ipmi_rs.Rmcp.V1_5.Receive.{
  Loop, Event, arrives, arrives_other, probes, fails, Turn, accept, deliver, settle, on_ipmb,
  on_session, on_message, on_parsed, turn, recv_loop, recv, start, after_turn, is_replay,
}
use ipmi_rs.Rmcp.V1_5.Replay.{IsActive, turn-Moves, on_probe-Unmoved}

-- A turn that reads a message accepts it, unless it counts the datagram as an unrelated one or ends the
-- call with an error.
abbrev pub is_failure : Option (Result RmcpIpmiReceiveError Response) → Bool
is_failure none = false
is_failure (some (ok r)) = false
is_failure (some (err e)) = true

abbrev pub taken : ℕ → ℕ → Turn → List ℕ
taken number unrelated t =
    if (t.0.unrelated == unrelated) && not (is_failure t.1) then number ∷ [] else []

abbrev pub taken_parsed : ℕ → Turn → Result ReadError Message → List ℕ
taken_parsed unrelated t (ok m) = taken m.session_sequence_number unrelated t
taken_parsed unrelated t (err e) = []

-- The number of the message that a turn accepts, if it does.
abbrev pub turn_accepted : Option (List ℕ → List ℕ) → Loop → Event → List ℕ
turn_accepted f l (arrives bytes) =
    taken_parsed l.unrelated (turn f l (arrives bytes)) (from_data f l.state.password bytes)
turn_accepted f l arrives_other = []
turn_accepted f l (probes blocked accepted) = []
turn_accepted f l (fails e) = []

abbrev pub unless_ended : Option (Result RmcpIpmiReceiveError Response) → List ℕ → List ℕ
unless_ended none later = later
unless_ended (some r) later = []

-- The numbers of the messages that the loop accepts, the later ones first.
unfoldable pub loop_accepted : Option (List ℕ → List ℕ) → Loop → List Event → List ℕ
loop_accepted f l [] = []
loop_accepted f l (event ∷ events) =
    unless_ended (turn f l event).1 (loop_accepted f (turn f l event).0 events)
    ++ turn_accepted f l event

-- And those that a call of `recv` accepts.
unfoldable pub recv_accepted : Option (List ℕ → List ℕ) → State → List Event → List ℕ
recv_accepted f s events =
    if is_some s.ipmb_state.pending then loop_accepted f (start s) events else []

accept-taken :
    (l : Loop) (number : ℕ) (response : Option Response)
    → l.state.activated ≡ true
    → (accept l number response).0.seen
      ≡ taken number l.unrelated (accept l number response) ++ l.seen
accept-taken l number none a = ground (arith, a)
accept-taken l number (some r) a = ground (arith, a)

settle-taken :
    (l : Loop) (number : ℕ) (r : Result RmcpIpmiReceiveError (Option Response))
    → l.state.activated ≡ true
    → (settle l number r).0.seen ≡ taken number l.unrelated (settle l number r) ++ l.seen
settle-taken l number (ok response) a = accept-taken l number response a
settle-taken l number (err e) a = ground arith

on_session-taken :
    (l : Loop) (id : ℕ) (m : Message)
    → l.state.activated ≡ true
    → (on_session l id m).0.seen
      ≡ taken m.session_sequence_number l.unrelated (on_session l id m) ++ l.seen
unfolding on_session deliver
on_session-taken l id m a =
    elim (Bool-cases
      (m.session_id != id || auth_type_code m.auth_type != auth_type_code l.state.auth_type)) [
        | inl b ↦ rw (b) (ground arith)
        | inr b ↦
            elim (Bool-cases
              (is_replay l.state.last_inbound_sequence l.seen m.session_sequence_number)) [
                | inl c ↦ rw (b, a, c) (ground arith)
                | inr c ↦
                    let r = receive l.state.ipmb_state m.payload in
                    let e : on_session l id m ≡ deliver l m = rw (b, a, c) in
                    subst (λ t. t.0.seen ≡ taken m.session_sequence_number l.unrelated t ++ l.seen)
                      (sym e) (settle-taken (on_ipmb l r.0) m.session_sequence_number r.1 a)
              ]
      ]

on_parsed-taken :
    (l : Loop) (r : Result ReadError Message) (last : Option ℕ)
    → IsActive l.state last
    → (on_parsed l r).0.seen ≡ taken_parsed l.unrelated (on_parsed l r) r ++ l.seen
on_parsed-taken l (err e) last h = refl
on_parsed-taken l (ok m) last h =
    subst
      (λ id.
        (on_message l m id).0.seen
        ≡ taken m.session_sequence_number l.unrelated (on_message l m id) ++ l.seen)
      (sym (ap (λ t. t.0) h.is)) (on_session-taken l h.id m (ap (λ t. t.1.0) h.is))

turn-accepted :
    (f : Option (List ℕ → List ℕ)) (l : Loop) (event : Event) (last : Option ℕ)
    → IsActive l.state last
    → (turn f l event).0.seen ≡ turn_accepted f l event ++ l.seen
unfolding turn
turn-accepted f l (arrives bytes) last h =
    on_parsed-taken l (from_data f l.state.password bytes) last h
turn-accepted f l arrives_other last h = refl
turn-accepted f l (probes blocked accepted) last h = (on_probe-Unmoved f l blocked accepted).1
turn-accepted f l (fails e) last h = refl

after_turn-accepted :
    (t : Turn) (rest : Loop × Result RmcpIpmiReceiveError Response) (later now seen : List ℕ)
    → t.0.seen ≡ now ++ seen
    → rest.0.seen ≡ later ++ t.0.seen
    → (after_turn t rest).0.seen ≡ (unless_ended t.1 later ++ now) ++ seen
after_turn-accepted (l, some r) rest later now seen h k = h
after_turn-accepted (l, none) rest later now seen h k =
    k ∙ ap (λ x. later ++ x) h ∙ sym (append_assoc later now seen)

pub recv_loop-accepted :
    (f : Option (List ℕ → List ℕ)) (l : Loop) (events : List Event) (last : Option ℕ)
    → IsActive l.state last
    → (recv_loop f l events).0.seen ≡ loop_accepted f l events ++ l.seen
unfolding recv_loop loop_accepted
recv_loop-accepted f l [] last h = refl
recv_loop-accepted f l (event ∷ events) last h =
    let t = turn f l event in
    let active : IsActive t.0.state last = record {
      id = h.id;
      is = (turn-Moves f l event last h).0 ∙ h.is;
    } in
    after_turn-accepted t (recv_loop f t.0 events) (loop_accepted f t.0 events)
      (turn_accepted f l event) l.seen (turn-accepted f l event last h)
      (recv_loop-accepted f t.0 events last active)

pub nothing_before : (xs : List ℕ) → xs ++ [] ≡ xs
nothing_before [] = refl
nothing_before (x ∷ xs) = ap (λ t. x ∷ t) (nothing_before xs)

-- The numbers that a call of `recv` keeps are those of the messages that it accepts.
pub recv-accepted :
    (f : Option (List ℕ → List ℕ)) (s : State) (events : List Event) (last : Option ℕ)
    → IsActive s last
    → (recv f s events).1.0 ≡ recv_accepted f s events
unfolding recv recv_accepted
recv-accepted f s events last h = elim (Bool-cases (is_some s.ipmb_state.pending)) [
  | inl p ↦ rw p (
      recv_loop-accepted f (start s) events last (record { id = h.id; is = h.is })
      ∙ nothing_before (loop_accepted f (start s) events))
  | inr p ↦ rw p refl
]
