-- ===== src/Rmcp/Sol/Flow/Stream.antt =====
-- The console output of a SOL session as one stream: what a BMC sends in packets, with resends and
-- with the suffix of a packet that was taken in part, reaches the reader once and in order.
use ipmi_rs.Base.{
  ℕ, ◌+◌, ◌≤◌, ◌≡◌, refl, sym, ap, ◌∙◌, ◌++◌, ltb, false, Option, some, min, Result, ok, List, [],
  take-length, arith, length, take, drop, length-drop, some_inj, ge→ltb, take-append-drop,
}
use mathlib.Core.Path.{subst}
use ipmi_rs.Rmcp.Sol.Flow.Position.{
  Position, first, seen, next, seen_stream, following-pos, accept_in_order, Position-IsSame,
  accept_stores, order_agrees, note_ack-IsSame, note_ack-output,
}
use mathlib.Core.List.{append_assoc}
use ipmi_rs.Rmcp.Sol.Frame.{SolFrame, SolFlags, SolFrameError, ack_frame}
use ipmi_rs.Rmcp.Sol.Flow.{
  SolFlow, flow_new, accept, note_ack, is_new, max_output_queue, read, following,
}
use ipmi_rs.Rmcp.Sol.Flow.Bounds.{
  flow_new-IsBounded, IsBounded, IsReady, confirmed, stored, accept-IsSound, note_ack-IsBounded,
}

-- The BMC's side of the session: `later` is what it has not put into a packet yet.
pub record Link : Type 0 where
  pub flow : SolFlow
  pub taken : List ℕ
  pub sent : List ℕ
  pub sequence : ℕ
  pub packet : List ℕ
  pub later : List ℕ

abbrev pub packet_frame : Link → ℕ → ℕ → SolFlags → SolFrame
packet_frame l ack accepted flags = record {
  sequence = l.sequence;
  ack = ack;
  accepted = accepted;
  flags = flags;
  payload = l.packet;
}

-- A packet arrives, for the first time or again; the BMC acts on the acknowledgement of its whole
-- packet so far, and its next packet begins with what was not taken; the console reads; and the
-- other calls change what does not receive.
pub data Step (l : Link) : Link → Type 0 where
  arrive :
      (ack accepted : ℕ) (flags : SolFlags) (r : SolFlow × Result SolFrameError (Option SolFrame))
      → accept l.flow (packet_frame l ack accepted flags) ≡ some r
      → Step l (record l { flow = r.0 })
  advance :
      (extra rest : List ℕ)
      → l.flow.previous_sequence ≡ some l.sequence
      → l.later ≡ extra ++ rest
      → Step l (record l {
        sent = l.sent ++ take l.flow.previous_accepted l.packet;
        sequence = following l.sequence;
        packet = drop l.flow.previous_accepted l.packet ++ extra;
        later = rest;
      })
  console :
      (room : ℕ)
      → Step l (record l { flow = (read l.flow room).0; taken = l.taken ++ (read l.flow room).1 })
  other :
      (g : SolFlow)
      → g.output ≡ l.flow.output
      → g.previous_sequence ≡ l.flow.previous_sequence
      → g.previous_data ≡ l.flow.previous_data
      → g.previous_accepted ≡ l.flow.previous_accepted
      → g.max_output ≤ 259
      → Step l (record l { flow = g })

pub data Reach (l : Link) : Link → Type 0 where
  here : Reach l l
  step : {m n : Link} → Reach l m → Step m n → Reach l n

pub record IsInSync (stream : List ℕ) (l : Link) : Type 0 where
  pub bounded : IsBounded l.flow
  pub numbered : 1 ≤ l.sequence
  pub position : Position l.flow l.taken l.sent l.sequence l.packet
  pub whole : l.sent ++ (l.packet ++ l.later) ≡ stream

arrive-IsInSync :
    (stream : List ℕ) (l : Link) (ack accepted : ℕ) (flags : SolFlags)
    (r : SolFlow × Result SolFrameError (Option SolFrame))
    → IsInSync stream l
    → accept l.flow (packet_frame l ack accepted flags) ≡ some r
    → IsInSync stream (record l { flow = r.0 })
arrive-IsInSync stream l ack accepted flags r s e =
    let frame = packet_frame l ack accepted flags in
    let (r₁, e₁, sound) = accept-IsSound l.flow frame s.bounded in
    let (r₂, e₂, p) = accept_in_order l.flow frame l.taken l.sent s.bounded s.numbered s.position in
    record {
      bounded = subst (λ q. IsBounded q.0) (some_inj (sym e₁ ∙ e)) sound.bounded;
      numbered = s.numbered;
      position =
          subst (λ q. Position q.0 l.taken l.sent l.sequence l.packet) (some_inj (sym e₂ ∙ e)) p;
      whole = s.whole;
    }

advance_position :
    (f : SolFlow) (taken sent : List ℕ) (s : ℕ) (packet extra : List ℕ)
    → f.previous_sequence ≡ some s
    → Position f taken sent s packet
    → Position f taken
        (sent ++ take f.previous_accepted packet)
        (following s)
        (drop f.previous_accepted packet ++ extra)
advance_position f taken sent s packet extra e p =
    let (b, c) = seen_stream f e p in
    next s extra e refl (ap (λ t. drop f.previous_accepted t ++ extra) (sym b)) c

regroup :
    (a t d x r : List ℕ) {p later stream : List ℕ}
    → t ++ d ≡ p
    → later ≡ x ++ r
    → a ++ (p ++ later) ≡ stream
    → (a ++ t) ++ ((d ++ x) ++ r) ≡ stream
regroup a t d x r e f h = simp append_assoc (simp append_assoc at (rw (← e, f) at h))

advance-IsInSync :
    (stream : List ℕ) (l : Link) (extra rest : List ℕ)
    → IsInSync stream l
    → l.flow.previous_sequence ≡ some l.sequence
    → l.later ≡ extra ++ rest
    → IsInSync stream (record l {
      sent = l.sent ++ take l.flow.previous_accepted l.packet;
      sequence = following l.sequence;
      packet = drop l.flow.previous_accepted l.packet ++ extra;
      later = rest;
    })
advance-IsInSync stream l extra rest s e split = record {
  bounded = s.bounded;
  numbered = following-pos l.sequence s.numbered;
  position = advance_position l.flow l.taken l.sent l.sequence l.packet extra e s.position;
  whole =
      regroup l.sent (take l.flow.previous_accepted l.packet)
        (drop l.flow.previous_accepted l.packet) extra rest
        (take-append-drop l.flow.previous_accepted l.packet) split s.whole;
}

console-IsInSync :
    (stream : List ℕ) (l : Link) (room : ℕ)
    → IsInSync stream l
    → IsInSync stream
        (record l { flow = (read l.flow room).0; taken = l.taken ++ (read l.flow room).1 })
unfolding read
console-IsInSync stream l room s = record {
  bounded = ground (arith, length-drop (min room (length l.flow.output)) l.flow.output);
  numbered = s.numbered;
  position =
      Position-IsSame l.flow _ l.taken _
        (record { previous_sequence = refl; previous_data = refl; previous_accepted = refl })
        (append_assoc l.taken _ _
          ∙ ap (λ t. l.taken ++ t)
              (take-append-drop (min room (length l.flow.output)) l.flow.output))
        s.position;
  whole = s.whole;
}

Step-IsInSync : (stream : List ℕ) {l m : Link} → Step l m → IsInSync stream l → IsInSync stream m
Step-IsInSync stream {l} (arrive ack accepted flags r e) s =
    arrive-IsInSync stream l ack accepted flags r s e
Step-IsInSync stream {l} (advance extra rest e split) s =
    advance-IsInSync stream l extra rest s e split
Step-IsInSync stream {l} (console room) s = console-IsInSync stream l room s
Step-IsInSync stream {l} (other g a b c d limit) s = record {
  bounded = ground arith;
  numbered = s.numbered;
  position =
      Position-IsSame l.flow g l.taken l.taken
        (record { previous_sequence = b; previous_data = c; previous_accepted = d })
        (ap (λ t. l.taken ++ t) a) s.position;
  whole = s.whole;
}

Reach-IsInSync : (stream : List ℕ) {l m : Link} → IsInSync stream l → Reach l m → IsInSync stream m
Reach-IsInSync stream s here = s
Reach-IsInSync stream s (step r st) = Step-IsInSync stream st (Reach-IsInSync stream s r)

-- The session at its start, with the first packet of the stream on its way.
abbrev pub start : ℕ → ℕ → List ℕ → List ℕ → Link
start max_input max_output packet later = record {
  flow = flow_new max_input max_output;
  taken = [];
  sent = [];
  sequence = 1;
  packet = packet;
  later = later;
}

start-IsInSync :
    (i o : ℕ) (packet later : List ℕ) → IsInSync (packet ++ later) (start i o packet later)
unfolding flow_new
start-IsInSync i o packet later = record {
  bounded = flow_new-IsBounded i o;
  numbered = omega arith;
  position = first refl refl;
  whole = refl;
}

Position-prefix :
    (f : SolFlow) (taken sent : List ℕ) (s : ℕ) (packet later : List ℕ)
    → Position f taken sent s packet
    → (rest : List ℕ) × ((taken ++ f.output) ++ rest ≡ sent ++ (packet ++ later))
Position-prefix f taken sent s packet later (first a b) =
    (packet ++ later, ap (λ t. t ++ (packet ++ later)) b)
Position-prefix f taken sent s packet later (seen a b c) =
    let rest = drop f.previous_accepted packet ++ later in
    (
      rest,
      ap (λ t. t ++ rest) c
          ∙ append_assoc sent (take f.previous_accepted packet) rest
          ∙ ap (λ t. sent ++ t)
              (sym (
                  append_assoc (take f.previous_accepted packet) (drop f.previous_accepted packet)
                    later)
                ∙ ap (λ t. t ++ later) (take-append-drop f.previous_accepted packet)),
    )
Position-prefix f taken sent s packet later (next p x a b c d) =
    (packet ++ later, ap (λ t. t ++ (packet ++ later)) d)

-- However packets are repeated, taken in part and cut anew, and whenever the console reads: what it
-- has read, followed by what waits in the queue, is a prefix of the stream that the BMC sends. No
-- character is lost, repeated or moved.
pub Reach-prefix :
    (max_input max_output : ℕ) (packet later : List ℕ) {l : Link}
    → Reach (start max_input max_output packet later) l
    → (rest : List ℕ) × ((l.taken ++ l.flow.output) ++ rest ≡ packet ++ later)
Reach-prefix i o packet later {l} r =
    let s = Reach-IsInSync (packet ++ later) (start-IsInSync i o packet later) r in
    let (rest, e) = Position-prefix l.flow l.taken l.sent l.sequence l.packet l.later s.position in
    (rest, e ∙ s.whole)

all_confirmed :
    (h : SolFlow) (frame : SolFrame)
    → IsReady h frame
    → length frame.payload ≤ 255
    → length h.output + length frame.payload ≤ max_output_queue
    → confirmed h frame ≡ length frame.payload
all_confirmed h frame r fits room = omega (arith, r.prefix)

-- In any reachable session, a packet that fits the negotiated limit and the room in the queue is
-- acknowledged in full whenever it arrives, for the first time or again; and what the console has
-- read, with what waits in the queue, is then the stream up to the end of that packet.
pub arrive_acknowledged :
    (max_input max_output : ℕ) (packet later : List ℕ) {l : Link}
    → Reach (start max_input max_output packet later) l
    → (ack accepted : ℕ) (flags : SolFlags) → length l.packet + 4 ≤ l.flow.max_output
    → length l.flow.output + length l.packet ≤ max_output_queue
    → (f : SolFlow) × (accept l.flow (packet_frame l ack accepted flags)
        ≡ some (f, ok (some (ack_frame l.sequence (length l.packet) false))))
      × (l.taken ++ f.output ≡ l.sent ++ l.packet)
arrive_acknowledged i o packet later {l} r ack accepted flags fits room =
    let frame = packet_frame l ack accepted flags in
    let s = Reach-IsInSync (packet ++ later) (start-IsInSync i o packet later) r in
    let g = note_ack l.flow frame in
    let same =
      Position-IsSame l.flow g l.taken l.taken (note_ack-IsSame l.flow frame)
        (ap (λ t. l.taken ++ t) (note_ack-output l.flow frame)) s.position in
    let short : length l.packet ≤ 255 = omega (arith, s.bounded.limit) in
    let (h, e, out, ready, q) =
      order_agrees g frame l.taken l.sent (note_ack-IsBounded l.flow frame s.bounded) short same in
    let kept : length h.output ≡ length l.flow.output =
      ap length (out ∙ note_ack-output l.flow frame) in
    let f = stored h frame (is_new g frame) in
    let whole = all_confirmed h frame ready short (omega arith) in
    (
      f,
      accept_stores l.flow h frame fits s.numbered e ready
          ∙ ap (λ n. some (f, ok (some (ack_frame l.sequence n (ltb n (length l.packet)))))) whole
          ∙ ap (λ b. some (f, ok (some (ack_frame l.sequence (length l.packet) b))))
              (ge→ltb (length l.packet) (length l.packet) (omega arith)),
      (seen_stream f refl q).1
          ∙ ap (λ n. l.sent ++ take n l.packet) whole
          ∙ ap (λ t. l.sent ++ t) (take-length l.packet),
    )
