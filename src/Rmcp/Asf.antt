-- ===== src/Rmcp/Asf.antt =====
-- ipmi-rs/src/rmcp/asf.rs: ASF presence ping and pong.
mod Examples
use ipmi_rs.Base.{
  ℕ, ◌+◌, ◌≡◌, refl, Bool, false, ◌&&◌, not, List, [], ◌∷◌, ◌++◌, Option, none, some, arith, ◌==◌,
  ◌!=◌, ltb, if◌then◌else◌, bit_and, bit_or, IsU32, u32_be, of_le4, length, get_or, take, drop,
  replicate, bytes_eq, bytes_eq→eq, length-drop, get_or-drop,
}

-- `?` on options.
infixl 5 ◌>>=◌
abbrev ◌>>=◌ {ℓ κ} : {A : Type ℓ} {B : Type κ} → Option A → (A → Option B) → Option B
none >>= f = none
some a >>= f = f a

pub record SupportedInteractions : Type 0 where
  pub rcmp_security : Bool
  pub dmtf_dash : Bool

unfoldable pub interactions_of_u8 : ℕ → Option SupportedInteractions
interactions_of_u8 v =
    if bit_and v 0x6f != 0
    then none
    else some
        (record { rcmp_security = bit_and v 0x80 == 0x80; dmtf_dash = bit_and v 0x10 == 0x10 })

unfoldable pub interactions_byte : SupportedInteractions → ℕ
interactions_byte s =
    bit_or (if s.rcmp_security then 0x80 else 0x00) (if s.dmtf_dash then 0x10 else 0x00)

pub record SupportedEntities : Type 0 where
  pub ipmi : Bool

unfoldable pub entities_of_u8 : ℕ → SupportedEntities
entities_of_u8 v = record { ipmi = bit_and v 0x80 == 0x80 }

unfoldable pub entities_byte : SupportedEntities → ℕ
entities_byte s = if s.ipmi then 0x80 else 0x00

pub data AsfMessageType : Type 0 where
  ping : AsfMessageType
  pong :
      (enterprise_number oem_data : ℕ) → SupportedEntities → SupportedInteractions → AsfMessageType

unfoldable pub type_byte : AsfMessageType → ℕ
type_byte ping = 0x80
type_byte (pong e o s i) = 0x40

-- `u32::from_be_bytes(data[i..i + 4])`.
abbrev be_at : List ℕ → ℕ → ℕ
be_at bytes i =
    of_le4 (get_or bytes (i + 3) 0) (get_or bytes (i + 2) 0) (get_or bytes (i + 1) 0)
      (get_or bytes i 0)

-- The arm for 0x40; the caller has checked that there are 17 bytes.
unfoldable pub parse_pong : List ℕ → Option AsfMessageType
parse_pong bytes = do
  i ← interactions_of_u8 (get_or bytes 10 0)
  some (pong (be_at bytes 1) (be_at bytes 5) (entities_of_u8 (get_or bytes 9 0)) i)

-- `from_type_byte_and_data`.
unfoldable pub from_type_byte_and_data : ℕ → List ℕ → Option AsfMessageType
unfolding parse_pong
from_type_byte_and_data code [] = none
from_type_byte_and_data code (len ∷ body) =
    if length (len ∷ body) != len + 1
    then none
    else if code == 0x80 && len == 0
    then some ping
    else if code == 0x40 && len == 0x10
    then parse_pong (len ∷ body)
    else none

-- `ASFMessageType::write_data`, as what it appends.
unfoldable pub type_data : AsfMessageType → List ℕ
type_data ping = 0 ∷ []
type_data (pong enterprise oem s i) =
    0x10
    ∷ (u32_be enterprise ++ (u32_be oem ++ (entities_byte s ∷ interactions_byte i ∷ replicate 6 0)))

pub record AsfMessage : Type 0 where
  pub message_tag : ℕ
  pub message_type : AsfMessageType

unfoldable pub write_data : AsfMessage → List ℕ → List ℕ
unfolding type_byte type_data
write_data m buffer =
    buffer
    ++ (u32_be 4542 ++ (type_byte m.message_type ∷ m.message_tag ∷ 0 ∷ type_data m.message_type))

unfoldable pub from_bytes : List ℕ → Option AsfMessage
unfolding from_type_byte_and_data
from_bytes bytes =
    if ltb (length bytes) 8
    then none
    else if not (bytes_eq (take 4 bytes) (u32_be 4542))
    then none
    else if get_or bytes 6 0 != 0
    then none
    else do
      ty ← from_type_byte_and_data (get_or bytes 4 0) (drop 7 bytes)
      some (record { message_tag = get_or bytes 5 0; message_type = ty })

abbrev pub IsAsfType : AsfMessageType → Type 0
IsAsfType ping = Unit {0}
IsAsfType (pong enterprise oem s i) = IsU32 enterprise × IsU32 oem

interactions-byte : (s : SupportedInteractions) → interactions_of_u8 (interactions_byte s) ≡ some s
unfolding interactions_of_u8 interactions_byte
interactions-byte s = ground arith

entities-byte : (s : SupportedEntities) → entities_of_u8 (entities_byte s) ≡ s
unfolding entities_of_u8 entities_byte
entities-byte s = ground arith

type_data-read :
    (t : AsfMessageType)
    → IsAsfType t
    → from_type_byte_and_data (type_byte t) (type_data t) ≡ some t
unfolding from_type_byte_and_data type_byte type_data
type_data-read ping fits = refl
type_data-read (pong enterprise oem s i) fits = ground (arith, interactions-byte i, entities-byte s)

-- Each ASF message, a ping, or a pong whose two numbers have 32 bits, is read back from the bytes
-- that it writes.
pub from_bytes-write_data :
    (m : AsfMessage) → IsAsfType m.message_type → from_bytes (write_data m []) ≡ some m
unfolding from_bytes write_data
from_bytes-write_data m fits =
    ground (arith, type_data-read m.message_type fits, long m.message_type)
  where
    long : (t : AsfMessageType) → ltb (length (type_data t)) 1 ≡ false
    long ping = refl
    long (pong enterprise oem s i) = refl

type_data_length :
    (code : ℕ) (body : List ℕ) (t : AsfMessageType)
    → from_type_byte_and_data code body ≡ some t
    → length body ≡ get_or body 0 0 + 1
unfolding from_type_byte_and_data
type_data_length code [] t e = cc
type_data_length code (len ∷ body) t e = ground arith

-- What is accepted carries the ASF enterprise number 4542 and a zero reserved byte, and is exactly
-- as long as its length byte says.
pub from_bytes_accepts :
    (bytes : List ℕ) (m : AsfMessage)
    → from_bytes bytes ≡ some m
    → (take 4 bytes ≡ u32_be 4542) × (length bytes ≡ get_or bytes 7 0 + 8) × (get_or bytes 6 0 ≡ 0)
unfolding from_bytes
from_bytes_accepts bytes m e = ground (
  arith,
  bytes_eq→eq (take 4 bytes) (u32_be 4542),
  type_data_length (get_or bytes 4 0) (drop 7 bytes) m.message_type,
  length-drop 7 bytes,
  get_or-drop 7 bytes 0 0,
)
