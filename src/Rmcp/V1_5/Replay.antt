-- ===== src/Rmcp/V1_5/Replay.antt =====
-- The filter of `recv`: no sequence number is accepted twice in a session.
use ipmi_rs.Base.{
  Result-cases, ◌==◌, ℕ, suc, ◌≡◌, ◌⊎◌, inl, inr, refl, sym, ap, ◌∙◌, Bool, true, false, ◌||◌, List,
  [], ◌∷◌, Option, none, some, Result, ok, err, ◌!=◌, leb, Bool-cases, All, Distinct, IsU32, arith,
}
use mathlib.Core.Path.{subst}
use ipmi_rs.Connection.Message.{Response}
use ipmi_rs.Rmcp.Errors.{
  RmcpIpmiSendError, RmcpIpmiReceiveError, session_id_mismatch, invalid_session_sequence,
}
use ipmi_rs.Rmcp.Ipmb.State.{is_some_and, poll_message}
use ipmi_rs.Rmcp.Ipmb.Receive.{receive}
use ipmi_rs.Rmcp.V1_5.Message.{ReadError, Message, from_data, write_data}
use ipmi_rs.Rmcp.V1_5.Auth.{auth_type_code}
use ipmi_rs.Rmcp.V1_5.State.{State, send_payload, counted, u32_max}
use ipmi_rs.Rmcp.V1_5.Receive.{
  Loop, Event, arrives, arrives_other, probes, fails, Turn, accept, deliver, on_session, on_message,
  on_parsed, after_turn, on_probe, on_ipmb, after_probe, without_probe, probe, settle, turn,
  recv_loop, is_replay, contains, record_unrelated,
}

-- What the filter reads of the state, which no turn changes.
abbrev pub fixed : State → Option ℕ × (Bool × Option ℕ)
fixed s = (s.session_id, (s.activated, s.last_inbound_sequence))

-- A turn leaves the numbers seen, or adds one that is not a replay.
abbrev pub Advances : Loop → Loop → Type 0
Advances l l' =
    (l'.seen ≡ l.seen)
    ⊎ ((q : ℕ) × ((l'.seen ≡ q ∷ l.seen)
          × (is_replay l.state.last_inbound_sequence l.seen q ≡ false)))

pub send_payload-fixed :
    (f : Option (List ℕ → List ℕ)) (s : State) (blocked : Option RmcpIpmiSendError)
    (accepted : Bool) (payload : List ℕ)
    → fixed (send_payload f s blocked accepted payload).0 ≡ fixed s
unfolding send_payload
send_payload-fixed f s blocked accepted payload = ground arith

counted_number :
    (s : State) (id : ℕ)
    → s.session_id ≡ some id
    → (counted s).session_sequence ≡ suc s.session_sequence
counted_number s id e = ground (arith, e)

-- A datagram that a session sends, whose last number is of 32 bits, is the message with the number above
-- that, the session's identifier and authentication type and the payload, written with the password; that
-- number has 32 bits, and the state keeps it.
pub send_payload_numbered :
    (f : Option (List ℕ → List ℕ)) (s : State) (id : ℕ) (blocked : Option RmcpIpmiSendError)
    (accepted : Bool) (payload bytes : List ℕ)
    → s.session_id ≡ some id
    → IsU32 s.session_sequence
    → (send_payload f s blocked accepted payload).1 ≡ ok bytes
    → (write_data f
          (record {
            auth_type = s.auth_type;
            session_sequence_number = suc s.session_sequence;
            session_id = id;
            payload = payload;
          })
          s.password
        ≡ ok bytes)
      × ((send_payload f s blocked accepted payload).0.session_sequence ≡ suc s.session_sequence)
      × IsU32 (suc s.session_sequence)
unfolding send_payload
send_payload_numbered f s id (some x) accepted payload bytes e u h = absurd cc
send_payload_numbered f s id none accepted payload bytes e u h =
    elim (Bool-cases (s.session_sequence == u32_max)) [
      | inl full ↦ let h' = rw (e, full) at h in absurd cc
      | inr room ↦
          let sent : Message = record {
            auth_type = s.auth_type;
            session_sequence_number = suc s.session_sequence;
            session_id = id;
            payload = payload;
          } in
          elim (Result-cases (write_data f sent s.password)) [
            | inr (x, w) ↦ let h' = rw (e, room, w) at h in absurd cc
            | inl (written, w) ↦
                let h' = rw (e, room, w) at h in
                let same : written ≡ bytes = ground (arith, h') in
                (w ∙ ap ok same, rw (e, room, w) (counted_number s id e), ground (arith, room))
          ]
    ]

abbrev Unmoved : Loop → Turn → Type 0
Unmoved l t = (fixed t.0.state ≡ fixed l.state) × (t.0.seen ≡ l.seen)

after_probe-Unmoved :
    (l : Loop) (r : State × Result RmcpIpmiSendError (List ℕ))
    → fixed r.0 ≡ fixed l.state
    → Unmoved l (after_probe l r)
after_probe-Unmoved l (s, ok m) e = (e, refl)
after_probe-Unmoved l (s, err x) e = (e, refl)

without_probe-Unmoved : (l : Loop) (e : RmcpIpmiSendError) → Unmoved l (without_probe l e)
without_probe-Unmoved l e = ground arith

probe-Unmoved :
    (f : Option (List ℕ → List ℕ)) (l : Loop) (blocked : Option RmcpIpmiSendError) (accepted : Bool)
    (r : Result RmcpIpmiSendError (List ℕ))
    → Unmoved l (probe f l blocked accepted r)
probe-Unmoved f l blocked accepted (ok payload) =
    after_probe-Unmoved l (send_payload f l.state blocked accepted payload)
      (send_payload-fixed f l.state blocked accepted payload)
probe-Unmoved f l blocked accepted (err e) = without_probe-Unmoved l e

pub on_probe-Unmoved :
    (f : Option (List ℕ → List ℕ)) (l : Loop) (blocked : Option RmcpIpmiSendError) (accepted : Bool)
    → Unmoved l (on_probe f l blocked accepted)
unfolding on_probe
on_probe-Unmoved f l blocked accepted =
    let r = poll_message l.state.ipmb_state in probe-Unmoved f (on_ipmb l r.0) blocked accepted r.1

-- A turn in which a message with this number is delivered.
abbrev Noted : Loop → ℕ → Turn → Type 0
Noted l q t = (fixed t.0.state ≡ fixed l.state) × ((t.0.seen ≡ l.seen) ⊎ (t.0.seen ≡ q ∷ l.seen))

accept-Noted : (l : Loop) (q : ℕ) (response : Option Response) → Noted l q (accept l q response)
accept-Noted l q response = elim (Bool-cases l.state.activated) [
  | inl a ↦ ground (arith, a)
  | inr a ↦ ground (arith, a)
]

settle-Noted :
    (l : Loop) (q : ℕ) (r : Result RmcpIpmiReceiveError (Option Response))
    → Noted l q (settle l q r)
settle-Noted l q (ok response) = accept-Noted l q response
settle-Noted l q (err e) = ground arith

deliver-Noted : (l : Loop) (m : Message) → Noted l m.session_sequence_number (deliver l m)
unfolding deliver
deliver-Noted l m =
    let r = receive l.state.ipmb_state m.payload in
    settle-Noted (on_ipmb l r.0) m.session_sequence_number r.1

abbrev pub Moves : Loop → Turn → Type 0
Moves l t = (fixed t.0.state ≡ fixed l.state) × Advances l t.0

Noted-Moves :
    (l : Loop) (q : ℕ) (t : Turn)
    → is_replay l.state.last_inbound_sequence l.seen q ≡ false
    → Noted l q t
    → Moves l t
Noted-Moves l q t h (e, inl s) = (e, inl s)
Noted-Moves l q t h (e, inr s) = (e, inr (q, (s, h)))

on_session-Moves :
    (l : Loop) (id : ℕ) (m : Message) → l.state.activated ≡ true → Moves l (on_session l id m)
unfolding on_session
on_session-Moves l id m a =
    elim (Bool-cases
      (m.session_id != id || auth_type_code m.auth_type != auth_type_code l.state.auth_type)) [
        | inl b ↦
            let e : on_session l id m ≡ record_unrelated l session_id_mismatch = rw (b) in
            subst (Moves l) (sym e) (refl, inl refl)
        | inr b ↦
            elim (Bool-cases
              (is_replay l.state.last_inbound_sequence l.seen m.session_sequence_number)) [
                | inl c ↦
                    let e : on_session l id m ≡ record_unrelated l invalid_session_sequence =
                      rw (b, a, c) in
                    subst (Moves l) (sym e) (refl, inl refl)
                | inr c ↦
                    let e : on_session l id m ≡ deliver l m = rw (b, a, c) in
                    subst (Moves l) (sym e)
                      (Noted-Moves l m.session_sequence_number (deliver l m) c (deliver-Noted l m))
              ]
      ]

-- A session is on, and it is activated.
pub record IsActive (s : State) (last : Option ℕ) : Type 0 where
  pub id : ℕ
  pub is : fixed s ≡ (some id, (true, last))

on_message-Moves :
    (l : Loop) (m : Message) (last : Option ℕ)
    → IsActive l.state last
    → Moves l (on_message l m l.state.session_id)
on_message-Moves l m last h =
    subst (λ id. Moves l (on_message l m id)) (sym (ap (λ t. t.0) h.is))
      (on_session-Moves l h.id m (ap (λ t. t.1.0) h.is))

on_parsed-Moves :
    (l : Loop) (r : Result ReadError Message) (last : Option ℕ)
    → IsActive l.state last
    → Moves l (on_parsed l r)
on_parsed-Moves l (ok m) last h = on_message-Moves l m last h
on_parsed-Moves l (err e) last h = (refl, inl refl)

pub turn-Moves :
    (f : Option (List ℕ → List ℕ)) (l : Loop) (event : Event) (last : Option ℕ)
    → IsActive l.state last
    → Moves l (turn f l event)
unfolding turn
turn-Moves f l (arrives bytes) last h =
    on_parsed-Moves l (from_data f l.state.password bytes) last h
turn-Moves f l arrives_other last h = (refl, inl refl)
turn-Moves f l (probes blocked accepted) last h =
    let u = on_probe-Unmoved f l blocked accepted in (u.0, inl u.1)
turn-Moves f l (fails e) last h = (refl, inl refl)

-- At or below the last number of the earlier calls.
abbrev pub below : Option ℕ → ℕ → Bool
below last q = is_some_and last (λ v. leb q v)

pub contains-All : (q : ℕ) (xs : List ℕ) → contains q xs ≡ false → All (λ y. ¬ (q ≡ y)) xs
contains-All q [] h = tt
contains-All q (x ∷ xs) h = ((λ e. ground (arith, h, e)), contains-All q xs (ground (arith, h)))

-- The numbers seen so far are distinct and new.
pub record Clean (last : Option ℕ) (l : Loop) : Type 0 where
  pub active : IsActive l.state last
  pub distinct : Distinct l.seen
  pub new : All (λ q. below last q ≡ false) l.seen

replay-parts :
    (l : Loop) (q : ℕ) (last : Option ℕ)
    → IsActive l.state last
    → is_replay l.state.last_inbound_sequence l.seen q ≡ false
    → (below last q ≡ false) × (contains q l.seen ≡ false)
replay-parts l q last h r =
    let e : l.state.last_inbound_sequence ≡ last = ap (λ t. t.1.1) h.is in
    let r' : is_replay last l.seen q ≡ false = ap (λ x. is_replay x l.seen q) (sym e) ∙ r in
    (ground (arith, r'), ground (arith, r'))

turn-Clean :
    (f : Option (List ℕ → List ℕ)) (l : Loop) (event : Event) (last : Option ℕ)
    → Clean last l
    → Clean last (turn f l event).0
turn-Clean f l event last c =
    let t = turn-Moves f l event last c.active in
    let active : IsActive (turn f l event).0.state last = record {
      id = c.active.id;
      is = t.0 ∙ c.active.is;
    } in
    elim (t.1) [
      | inl e ↦ record {
        active = active;
        distinct = subst Distinct (sym e) c.distinct;
        new = subst (All (λ q. below last q ≡ false)) (sym e) c.new;
      }
      | inr (q, (e, r)) ↦
          let parts = replay-parts l q last c.active r in
          record {
            active = active;
            distinct = subst Distinct (sym e) (contains-All q l.seen parts.1, c.distinct);
            new = subst (All (λ q. below last q ≡ false)) (sym e) (parts.0, c.new);
          }
    ]

after_turn-Clean :
    (t : Turn) (rest : Loop × Result RmcpIpmiReceiveError Response) (last : Option ℕ)
    → Clean last t.0
    → Clean last rest.0
    → Clean last (after_turn t rest).0
after_turn-Clean (l, some r) rest last c d = c
after_turn-Clean (l, none) rest last c d = d

pub recv_loop-Clean :
    (f : Option (List ℕ → List ℕ)) (l : Loop) (events : List Event) (last : Option ℕ)
    → Clean last l
    → Clean last (recv_loop f l events).0
unfolding recv_loop
recv_loop-Clean f l [] last c = c
recv_loop-Clean f l (event ∷ events) last c =
    let d = turn-Clean f l event last c in
    let t = turn f l event in
    after_turn-Clean t (recv_loop f t.0 events) last d (recv_loop-Clean f t.0 events last d)
