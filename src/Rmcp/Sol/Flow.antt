-- ===== src/Rmcp/Sol/Flow.antt =====
-- Flow control of one SOL session: `SolFlow` of ipmi-rs/src/rmcp/v2_0/sol.rs, and the calls of
-- ipmi-rs/src/rmcp/v2_0/mod.rs that open it and set its limits.
mod Examples
pub mod Bounds
pub mod Position
pub mod Stream
use ipmi_rs.Base.{
  ℕ, suc, ◌+◌, ◌-◌, Bool, true, false, ◌&&◌, ◌||◌, not, List, [], ◌∷◌, ◌++◌, Option, none, some,
  min, Result, ok, err, ◌==◌, ◌!=◌, ltb, leb, if◌then◌else◌, length, take, drop, bytes_eq,
  starts_with,
}
use ipmi_rs.Rmcp.Sol.Frame.{
  SolFrame, SolFrameError, max_sol_data, ack_frame, exceeds_negotiated_limit, output_gap,
  conflicting_retransmission,
}

abbrev pub max_output_queue : ℕ
max_output_queue = 4096

pub record InputAck : Type 0 where
  pub accepted : ℕ
  pub nack : Bool
  pub unavailable : Bool

pub record SolFlow : Type 0 where
  pub output : List ℕ
  pub previous_sequence : Option ℕ
  pub previous_data : List ℕ
  pub previous_accepted : ℕ
  pub next_input_sequence : ℕ
  pub waiting_for_ack : Option ℕ
  pub input_ack : Option InputAck
  pub max_input : ℕ
  pub max_output : ℕ

unfoldable pub flow_new : ℕ → ℕ → SolFlow
flow_new max_input max_output = record {
  output = [];
  previous_sequence = none;
  previous_data = [];
  previous_accepted = 0;
  next_input_sequence = 1;
  waiting_for_ack = none;
  input_ack = none;
  max_input = min max_input (max_sol_data + 4);
  max_output = min max_output (max_sol_data + 4);
}

-- `State::sol_open` and `State::sol_limits`.
unfoldable pub sol_open : SolFlow
unfolding flow_new
sol_open = flow_new (max_sol_data + 4) (max_sol_data + 4)

unfoldable pub sol_limits : SolFlow → ℕ → ℕ → SolFlow
sol_limits f input output = record f {
  max_input = min input (max_sol_data + 4);
  max_output = min output (max_sol_data + 4);
}

-- `read` into a buffer of `room` bytes: the flow afterwards, and what was read.
unfoldable pub read : SolFlow → ℕ → SolFlow × List ℕ
read f room =
    let count = min room (length f.output) in
    (record f { output = drop count f.output }, take count f.output)

unfoldable pub take_output : SolFlow → SolFlow × List ℕ
take_output f = (record f { output = [] }, f.output)

-- The sequence number after `s`: 1 to 15 in turn.
unfoldable pub following : ℕ → ℕ
following s = if s == 15 then 1 else s + 1

-- `next_sequence`.
unfoldable pub next_sequence : SolFlow → SolFlow × ℕ
unfolding following
next_sequence f =
    (record f { next_input_sequence = following f.next_input_sequence }, f.next_input_sequence)

infixl 5 ◌>>=◌
abbrev ◌>>=◌ {ℓ κ} : {A : Type ℓ} {B : Type κ} → Option A → (A → Option B) → Option B
none >>= f = none
some a >>= f = f a

-- `a - b` on `usize`, and `bytes[start..end]`; `none` is a panic.
abbrev sub? : ℕ → ℕ → Option ℕ
sub? a b = if leb b a then some (a - b) else none

abbrev slice : List ℕ → ℕ → ℕ → Option (List ℕ)
slice bytes start end =
    if leb start end && leb end (length bytes)
    then some (take (end - start) (drop start bytes))
    else none

-- An acknowledgement of the console's own data is noted.
unfoldable pub note_ack : SolFlow → SolFrame → SolFlow
note_ack f frame = elim f.waiting_for_ack [
  | none ↦ f
  | some waiting ↦
      if frame.ack == waiting
      then record f {
        input_ack = some (record {
          accepted = frame.accepted;
          nack = frame.flags.nack;
          unavailable = frame.flags.transfer_unavailable;
        });
      }
      else f
]

-- A frame with the sequence number of the last one.
unfoldable pub check_retransmission : SolFlow → SolFrame → Result SolFrameError SolFlow
check_retransmission f frame =
    let common = min (length f.previous_data) (length frame.payload) in
    if not (bytes_eq (take common frame.payload) (take common f.previous_data))
    then err conflicting_retransmission
    else if ltb (length frame.payload) f.previous_accepted
    then err conflicting_retransmission
    else ok f

-- A frame with another sequence number: it must be the following one, and begin with what was not
-- accepted of the last one.
unfoldable pub check_next : SolFlow → SolFrame → ℕ → Result SolFrameError SolFlow
unfolding following
check_next f frame previous =
    if (frame.sequence != following previous)
      || (ltb f.previous_accepted (length f.previous_data)
          && not (starts_with frame.payload (drop f.previous_accepted f.previous_data)))
    then err output_gap
    else ok (record f { previous_accepted = 0 })

unfoldable pub check_order : SolFlow → SolFrame → Result SolFrameError SolFlow
unfolding check_retransmission check_next
check_order f frame = elim f.previous_sequence [
  | none ↦ ok f
  | some previous ↦
      if frame.sequence == previous
      then check_retransmission f frame
      else check_next f frame previous
]

abbrev pub is_new : SolFlow → SolFrame → Bool
is_new f frame = elim f.previous_sequence [
  | none ↦ true
  | some previous ↦ frame.sequence != previous
]

-- The bytes that are new and fit the queue are queued, and all that was accepted is acknowledged.
unfoldable pub store : SolFlow → SolFrame → Bool → Option (SolFlow × SolFrame)
store f frame new_sequence = do
  let newly_available = length frame.payload - f.previous_accepted
  room ← sub? max_output_queue (length f.output)
  countable ← sub? 255 f.previous_accepted
  let accepted = min (min newly_available room) countable
  let end = f.previous_accepted + accepted
  part ← slice frame.payload f.previous_accepted end
  some (
    record f {
      output = f.output ++ part;
      previous_sequence = some frame.sequence;
      previous_data =
          if new_sequence || ltb (length f.previous_data) (length frame.payload)
          then frame.payload
          else f.previous_data;
      previous_accepted = end;
    },
    ack_frame frame.sequence end (ltb end (length frame.payload)),
  )

-- The flow after the call, and the call's result; `none` is a panic.
unfoldable pub accept :
    SolFlow → SolFrame → Option (SolFlow × Result SolFrameError (Option SolFrame))
accept f frame =
    if ltb f.max_output (length frame.payload + 4)
    then some (f, err exceeds_negotiated_limit)
    else (let g = note_ack f frame in
        if frame.sequence == 0 then some (g, ok none) else elim (check_order g frame) [
          | err e ↦ some (g, err e)
          | ok h ↦ do (h', a) ← store h frame (is_new g frame); some (h', ok (some a))
        ])
