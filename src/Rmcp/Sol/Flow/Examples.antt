-- ===== src/Rmcp/Sol/Flow/Examples.antt =====
-- A concrete console session for the theorems on SOL flow control: one packet that arrives twice.
use ipmi_rs.Base.{ℕ, ◌≡◌, refl, false, List, [], ◌∷◌, ◌++◌, Option, some, Result, ok, arith}
use ipmi_rs.Rmcp.Sol.Frame.{SolFrame, SolFrameError, no_flags, ack_frame}
use ipmi_rs.Rmcp.Sol.Flow.{SolFlow, flow_new, accept, note_ack, check_order, store, read}
use ipmi_rs.Rmcp.Sol.Flow.Bounds.{flow_new-IsBounded, IsSound, accept-IsSound}
use ipmi_rs.Rmcp.Sol.Flow.Stream.{
  Link, start, packet_frame, Reach, here, step, arrive, console, Reach-prefix, arrive_acknowledged,
}

abbrev packet : List ℕ
packet = 0x68 ∷ 0x69 ∷ []

abbrev later : List ℕ
later = 0x21 ∷ []

abbrev opened : Link
opened = start 259 259 packet later

abbrev flow_arrived : SolFlow
flow_arrived = record (flow_new 259 259) {
  output = packet;
  previous_sequence = some 1;
  previous_data = packet;
  previous_accepted = 2;
}

abbrev arrived : Link
arrived = record opened { flow = flow_arrived }

first_arrives :
    accept opened.flow (packet_frame opened 0 0 no_flags)
    ≡ some (flow_arrived, ok (some (ack_frame 1 2 false)))
unfolding accept note_ack check_order store flow_new
first_arrives = refl

arrived_reached : Reach opened arrived
arrived_reached =
    step here (arrive 0 0 no_flags (flow_arrived, ok (some (ack_frame 1 2 false))) first_arrives)

abbrev half_read : Link
half_read = record arrived { flow = (read flow_arrived 1).0; taken = (read flow_arrived 1).1 }

half_read_reached : Reach opened half_read
half_read_reached = step arrived_reached (console 1)

accept-IsSound_example :
    (r : SolFlow × Result SolFrameError (Option SolFrame)) × (accept
        (flow_new 259 259)
        (packet_frame opened 0 0 no_flags)
      ≡ some r)
    × IsSound (packet_frame opened 0 0 no_flags) r
accept-IsSound_example =
    accept-IsSound (flow_new 259 259) (packet_frame opened 0 0 no_flags)
      (flow_new-IsBounded 259 259)

Reach-prefix_example :
    (rest : List ℕ) × ((half_read.taken ++ half_read.flow.output) ++ rest ≡ packet ++ later)
Reach-prefix_example = Reach-prefix 259 259 packet later half_read_reached

arrive_acknowledged_example :
    (f : SolFlow) × (accept arrived.flow (packet_frame arrived 0 0 no_flags)
      ≡ some (f, ok (some (ack_frame 1 2 false))))
    × (arrived.taken ++ f.output ≡ arrived.sent ++ packet)
unfolding flow_new
arrive_acknowledged_example =
    arrive_acknowledged 259 259 packet later arrived_reached 0 0 no_flags (omega arith)
      (omega arith)
