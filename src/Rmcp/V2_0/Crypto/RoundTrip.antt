-- ===== src/Rmcp/V2_0/Crypto/RoundTrip.antt =====
-- A packet that is written is read back.
use mathlib.Core.Path.{subst}
use ipmi_rs.Base.{
  ℕ, ◌≤◌, ◌≡◌, refl, sym, ap, Bool, true, false, List, ◌++◌, some, ok, bind_ok, ◌==◌, bit_and,
  length, arith, of_le2-u16_le, of_le4-u32_le, IsU16, IsU32,
}
use ipmi_rs.Rmcp.V2_0.Crypto.Backend.{Backend, IsBackend}
use ipmi_rs.Rmcp.V2_0.Crypto.SubState.{
  encrypted, SubState, write_data_encrypted, authenticated, validate_trailer,
}
use ipmi_rs.Rmcp.V2_0.Payload.{Message, PayloadType, payload_type_of_u8, payload_type_code}
use ipmi_rs.Rmcp.V2_0.Crypto.Packet.{
  flags_of, differ, headed, write_payload, read_sized, read_flags, read_payload,
}
use ipmi_rs.Rmcp.V2_0.Crypto.Integrity.{validate_trailer-write_trailer}
use ipmi_rs.Rmcp.V2_0.Crypto.Confidentiality.{Carries, write_data-Carries}

-- The header's second byte has the two marks and the type.
flags_fields :
    (e a : Bool) (ty : PayloadType)
    → (bit_and (flags_of e a ty) 0x3f ≡ payload_type_code ty)
      × ((bit_and (flags_of e a ty) 0x80 == 0x80) ≡ e)
      × ((bit_and (flags_of e a ty) 0x40 == 0x40) ≡ a)
flags_fields true true ty = ground arith
flags_fields true false ty = ground arith
flags_fields false true ty = ground arith
flags_fields false false ty = ground arith

of_u8-code : (ty : PayloadType) → payload_type_of_u8 (payload_type_code ty) ≡ some ty
unfolding payload_type_of_u8
of_u8-code ty = ground arith

differ_same : (a : Bool) → differ a a ≡ false
differ_same true = refl
differ_same false = refl

read_flags-flags_of :
    (s : SubState) (ty : PayloadType)
    → read_flags s 0x06 (flags_of (encrypted s) (authenticated s) ty) ≡ ok ty
unfolding read_flags
read_flags-flags_of s ty =
    let f = flags_fields (encrypted s) (authenticated s) ty in
    rw (f.0, f.1, f.2, of_u8-code ty, differ_same (encrypted s), differ_same (authenticated s))

read_sized-headed :
    (b : Backend) (s : SubState) (m : Message) (body : List ℕ)
    → Carries b s m.payload body
    → read_sized b s (headed (encrypted s) (authenticated s) m body) ≡ ok m.payload
unfolding read_sized
read_sized-headed b s m body c =
    let l : IsU16 (length c.rest) = omega (arith, c.fits) in
    let e = of_le2-u16_le (length c.rest) l in
    subst (λ x. read_sized b s (headed (encrypted s) (authenticated s) m x) ≡ ok m.payload) c.is
      (rw (e, c.holds) (ground arith))

-- A packet that `write_payload` makes of a message is read by `read_payload` under the same state as
-- that message, for every algorithm of integrity and of confidentiality that can be written, where the
-- initialization vector has 16 bytes and the header's two fields are words of 32 bits.
pub read_payload-write_payload :
    (b : Backend)
    → IsBackend b
    → (s : SubState) (iv : List ℕ) (m : Message) (bytes : List ℕ) → length iv ≡ 16
    → IsU32 m.session_id
    → IsU32 m.session_sequence_number
    → write_payload b s (some iv) m ≡ ok bytes
    → read_payload b s bytes ≡ ok m
unfolding write_payload read_payload
read_payload-write_payload b law s iv m bytes h id seq w =
    let c = bind_ok (write_data_encrypted b s (some iv) m.payload) _ bytes w in
    let body = c.0 in
    let frame = headed (encrypted s) (authenticated s) m body in
    let carried = write_data-Carries b law s iv m.payload body h c.1.0 in
    let n : 12 ≤ length frame = ground (arith, ap length carried.is) in
    let v = validate_trailer-write_trailer b law s frame bytes n c.1.1 in
    let k = read_sized-headed b s m body carried in
    let f = read_flags-flags_of s m.ty in
    let i = of_le4-u32_le m.session_id id in
    let q = of_le4-u32_le m.session_sequence_number seq in
    let r : validate_trailer b s (frame ++ v.0.0) ≡ ok frame =
      subst (λ x. validate_trailer b s x ≡ ok frame) (sym v.0.1) v.1 in
    subst (λ x. read_payload b s x ≡ ok m) v.0.1 (rw (f, r, k, i, q) (ground arith))
