-- ===== src/Rmcp/Header/Examples.antt =====
-- A concrete ASF header for the theorems on RMCP headers.
use ipmi_rs.Base.{ℕ, ◌≡◌, refl, true, List, [], ◌∷◌, ◌++◌, ok, arith}
use ipmi_rs.Rmcp.Header.{
  RmcpHeader, asf, from_bytes, from_parts, class_of_u8, write_infallible, on_wire, from_bytes-write,
  write-from_bytes,
}

abbrev asf_ack : RmcpHeader
asf_ack = record { version = 6; sequence_number = 9; class = record { ty = asf; is_ack = true } }

from_bytes-write_example :
    from_bytes (write_infallible asf_ack (λ buffer. buffer ++ (1 ∷ 2 ∷ [])))
    ≡ ok (on_wire asf_ack, 1 ∷ 2 ∷ [])
from_bytes-write_example = from_bytes-write asf_ack (1 ∷ 2 ∷ []) refl

abbrev datagram : List ℕ
datagram = 6 ∷ 0 ∷ 9 ∷ 0x86 ∷ 1 ∷ []

datagram_read : from_bytes datagram ≡ ok (asf_ack, 1 ∷ [])
unfolding from_bytes from_parts class_of_u8
datagram_read = refl

write-from_bytes_example :
    (write_infallible asf_ack (λ buffer. buffer ++ (1 ∷ [])) ≡ datagram) × (asf_ack.version ≡ 6)
write-from_bytes_example =
    write-from_bytes asf_ack datagram (1 ∷ [])
      (omega arith, (omega arith, (omega arith, (omega arith, (omega arith, tt))))) datagram_read
