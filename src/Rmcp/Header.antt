-- ===== src/Rmcp/Header.antt =====
-- ipmi-rs/src/rmcp/header.rs: the four-byte RMCP header.
mod Examples
use ipmi_rs.Base.{
  ℕ, ◌*◌, ◌^◌, ◌<◌, ◌≡◌, refl, Bool, true, false, ◌&&◌, List, [], ◌∷◌, ◌++◌, Option, none, some,
  Result, ok, err, ◌>>=◌, ◌>>◌, reject_if, ok_or, arith, ◌==◌, ◌!=◌, if◌then◌else◌, bit_and, bit_or,
  IsByte, All, all_below, all_below_sound,
}

pub data RmcpType : Type 0 where
  asf ipmi oem_defined : RmcpType

pub record RmcpClass : Type 0 where
  pub ty : RmcpType
  pub is_ack : Bool

-- `==` against `RmcpType::Ipmi`.
abbrev pub is_ipmi : RmcpType → Bool
is_ipmi asf = false
is_ipmi ipmi = true
is_ipmi oem_defined = false

abbrev pub bit : Bool → ℕ
bit true = 1
bit false = 0

unfoldable pub type_code : RmcpType → ℕ
type_code asf = 0x06
type_code ipmi = 0x07
type_code oem_defined = 0x08

-- `From<RmcpClass> for u8`.
unfoldable pub class_byte : RmcpClass → ℕ
unfolding type_code
class_byte c = bit_or (type_code c.ty) (bit c.is_ack * 2 ^ 7)

-- `TryFrom<u8> for RmcpClass`.
unfoldable pub class_of_u8 : ℕ → Option RmcpClass
class_of_u8 b =
    let ack = bit_and b 0x80 == 0x80 in
    let v = bit_and b 0x7f in
    if v == 0x06
    then some (record { ty = asf; is_ack = ack })
    else if v == 0x07
    then some (record { ty = ipmi; is_ack = ack })
    else if v == 0x08
    then some (record { ty = oem_defined; is_ack = ack })
    else none

pub data RmcpHeaderError : Type 0 where
  not_enough_data invalid_asf_message invalid_rmcp_class : RmcpHeaderError
  invalid_version : ℕ → RmcpHeaderError
  invalid_reserved_byte invalid_sequence : RmcpHeaderError

pub record RmcpHeader : Type 0 where
  pub version : ℕ
  pub sequence_number : ℕ
  pub class : RmcpClass

unfoldable pub header_new : ℕ → RmcpType → RmcpHeader
header_new sequence ty = record {
  version = 6;
  sequence_number = sequence;
  class = record { ty = ty; is_ack = false };
}

unfoldable pub new_asf : ℕ → RmcpHeader
unfolding header_new
new_asf sequence = header_new sequence asf

unfoldable pub new_ipmi : RmcpHeader
unfolding header_new
new_ipmi = header_new 0xff ipmi

unfoldable pub written_sequence : RmcpHeader → ℕ
written_sequence h = if is_ipmi h.class.ty then 0xff else h.sequence_number

-- `write`: the closure extends the buffer, or fails.
unfoldable pub write : {E : Type 0} → RmcpHeader → (List ℕ → Result E (List ℕ)) → Result E (List ℕ)
unfolding class_byte written_sequence
write h fill = fill (h.version ∷ 0 ∷ written_sequence h ∷ class_byte h.class ∷ [])

-- `write_infallible`.
unfoldable pub write_infallible : RmcpHeader → (List ℕ → List ℕ) → List ℕ
unfolding class_byte written_sequence
write_infallible h fill = fill (h.version ∷ 0 ∷ written_sequence h ∷ class_byte h.class ∷ [])

-- Header and rest of the datagram. The arguments are `data[0]` to `data[3]` and `data[4..]`.
unfoldable pub from_parts : ℕ → ℕ → ℕ → ℕ → List ℕ → Result RmcpHeaderError (RmcpHeader × List ℕ)
from_parts version reserved sequence class_code rest = do
  reject_if (version != 6) (invalid_version version)
  reject_if (reserved != 0) invalid_reserved_byte
  class ← ok_or invalid_rmcp_class (class_of_u8 class_code)
  reject_if (is_ipmi class.ty && (sequence != 0xff)) invalid_sequence
  ok (record { version = version; sequence_number = sequence; class = class }, rest)

unfoldable pub from_bytes : List ℕ → Result RmcpHeaderError (RmcpHeader × List ℕ)
unfolding from_parts class_of_u8
from_bytes [] = err not_enough_data
from_bytes (a ∷ []) = err not_enough_data
from_bytes (a ∷ b ∷ []) = err not_enough_data
from_bytes (a ∷ b ∷ c ∷ []) = err not_enough_data
from_bytes (a ∷ b ∷ c ∷ d ∷ rest) = from_parts a b c d rest

-- The class of an acknowledgement and of a message, each read back.
class_of_u8-class_byte : (c : RmcpClass) → class_of_u8 (class_byte c) ≡ some c
unfolding class_of_u8 class_byte
class_of_u8-class_byte c = ground arith

abbrev class_reads_back : ℕ → Bool
class_reads_back b = elim (class_of_u8 b) [ none ↦ true | some c ↦ class_byte c == b ]

class_table : all_below 256 class_reads_back ≡ true
unfolding all_below class_of_u8 class_byte
class_table = refl

class_byte-class_of_u8 :
    (b : ℕ) (c : RmcpClass) → b < 256 → class_of_u8 b ≡ some c → class_byte c ≡ b
class_byte-class_of_u8 b c h e =
    let t = all_below_sound 256 class_reads_back b class_table h in ground arith

-- The sequence number that reaches the wire: 0xFF on IPMI messages, whatever the header holds.
abbrev pub on_wire : RmcpHeader → RmcpHeader
on_wire h = record h { sequence_number = if is_ipmi h.class.ty then 0xff else h.sequence_number }

-- Any header of version 6 is read back from what it writes, with the payload after it, and with
-- the sequence number 0xFF in place of its own if it is an IPMI header.
pub from_bytes-write :
    (h : RmcpHeader) (payload : List ℕ)
    → h.version ≡ 6
    → from_bytes (write_infallible h (λ buffer. buffer ++ payload)) ≡ ok (on_wire h, payload)
unfolding from_bytes write_infallible
from_bytes-write h payload v6 =
    unfold written_sequence in ground (arith, class_of_u8-class_byte h.class)

-- Every datagram of bytes that is accepted is, byte for byte, what its header and its payload write,
-- and its version is 6.
pub write-from_bytes :
    (h : RmcpHeader) (datagram payload : List ℕ)
    → All IsByte datagram
    → from_bytes datagram ≡ ok (h, payload)
    → (write_infallible h (λ buffer. buffer ++ payload) ≡ datagram) × (h.version ≡ 6)
unfolding from_bytes write_infallible
write-from_bytes h [] payload bytes e = cc
write-from_bytes h (a ∷ []) payload bytes e = cc
write-from_bytes h (a ∷ b ∷ []) payload bytes e = cc
write-from_bytes h (a ∷ b ∷ c ∷ []) payload bytes e = cc
write-from_bytes h (a ∷ b ∷ c ∷ d ∷ rest) payload bytes e =
    ground (arith, class_byte-class_of_u8 d h.class)
