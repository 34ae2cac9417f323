-- ===== src/Rmcp/Ipmb/Session.antt =====
-- A session's whole history of requests, queue probes and received packets.
use ipmi_rs.Base.{ℕ, ◌≡◌, ◌++◌, true, List, [], ok, err, All, Distinct}
use ipmi_rs.Connection.Message.{Request}
use ipmi_rs.Rmcp.Errors.{RmcpIpmiSendError}
use ipmi_rs.Rmcp.Ipmb.State.{
  IpmbState, needed_sequences, route_of, begin, poll_message, reserve_sequences, release_sequences,
  retire_pending, stop_polling,
}
use ipmi_rs.Rmcp.Ipmb.State.Fresh.{used, IsSequenced, sent_numbers}
use ipmi_rs.Rmcp.Ipmb.Receive.{receive}

-- One call on the state, and the sequence numbers in the packet that it sends: of a request and of the Send
-- Message packets that enclose it, or of a queue probe. A `begin` that fails
-- changes nothing, so it is no step.
pub data Step (s : IpmbState) : IpmbState → List ℕ → Type 0 where
  begins :
      (request : Request) (deadline : ℕ) (r : IpmbState × List ℕ)
      → begin s request deadline ≡ ok r
      → Step s r.0 (sent_numbers (needed_sequences (route_of s request.target)) r.1)
  polls :
      (packet : List ℕ)
      → (poll_message s).1 ≡ ok packet
      → Step s (poll_message s).0 (sent_numbers 1 packet)
  poll_fails :
      (error : RmcpIpmiSendError) → (poll_message s).1 ≡ err error → Step s (poll_message s).0 []
  receives : (bytes : List ℕ) → Step s (receive s bytes).0 []
  reserves : (minimum : ℕ) → Step s (reserve_sequences s minimum).0 []
  releases : Step s (release_sequences s) []
  retires : Step s (retire_pending s) []
  stops : Step s (stop_polling s) []

-- A history, with all the numbers that were sent in it.
pub data Session (s : IpmbState) : IpmbState → List ℕ → Type 0 where
  opened : Session s s []
  called :
      {t u : IpmbState} {sent new : List ℕ} (all : List ℕ)
      → Session s t sent
      → Step t u new
      → all ≡ sent ++ new
      → Session s u all

record History (t : IpmbState) (sent : List ℕ) : Type 0 where
  marked : All (λ i. used t i ≡ true) sent
  distinct : Distinct sent
  sequenced : IsSequenced t
