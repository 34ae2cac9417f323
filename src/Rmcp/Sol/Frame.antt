-- ===== src/Rmcp/Sol/Frame.antt =====
-- SOL framing: `SolFlags` and `SolFrame` of ipmi-rs/src/rmcp/v2_0/sol.rs.
mod Examples
use ipmi_rs.Base.{
  ℕ, ◌+◌, ◌*◌, ◌%◌, ◌^◌, ◌≤◌, ◌<◌, ◌≡◌, refl, Bool, true, false, ◌&&◌, ◌||◌, not, List, [], ◌∷◌,
  ◌++◌, Result, ok, err, ◌>>=◌, ◌>>◌, reject_if, arith, ◌==◌, ◌!=◌, ltb, leb, if◌then◌else◌,
  bit_and, bit_or, bit_and_0xf0, length, get_or, drop, All, IsByte, all_below, all_below_sound,
}

abbrev pub max_sol_data : ℕ
max_sol_data = 255

pub data SolFrameError : Type 0 where
  invalid_length invalid_header conflicting_retransmission output_gap : SolFrameError
  invalid_ack exceeds_negotiated_limit remote_inactive output_overrun : SolFrameError

pub record SolFlags : Type 0 where
  pub nack : Bool
  pub transfer_unavailable : Bool
  pub inactive : Bool
  pub overrun : Bool
  pub break_detected : Bool
  pub generate_break : Bool
  pub flush_inbound : Bool
  pub flush_outbound : Bool

-- `SolFlags::default()`.
abbrev pub no_flags : SolFlags
no_flags = record {
  nack = false;
  transfer_unavailable = false;
  inactive = false;
  overrun = false;
  break_detected = false;
  generate_break = false;
  flush_inbound = false;
  flush_outbound = false;
}

unfoldable pub flags_decode : ℕ → Result SolFrameError SolFlags
flags_decode value =
    if bit_and value 0x83 != 0
    then err invalid_header
    else ok (record no_flags {
      nack = bit_and value 0x40 != 0;
      transfer_unavailable = bit_and value 0x20 != 0;
      inactive = bit_and value 0x10 != 0;
      overrun = bit_and value 0x08 != 0;
      break_detected = bit_and value 0x04 != 0;
    })

-- `u8::from(flag) << k`.
abbrev shifted : Bool → ℕ → ℕ
shifted true k = 2 ^ k
shifted false k = 0

unfoldable pub flags_encode : SolFlags → ℕ
flags_encode f =
    bit_or
      (bit_or
        (bit_or
          (bit_or
            (bit_or
              (bit_or (bit_or (shifted f.nack 6) (shifted f.transfer_unavailable 5))
                (shifted f.inactive 4))
              (shifted f.overrun 3))
            (shifted f.break_detected 2))
          (shifted f.generate_break 4))
        (shifted f.flush_inbound 1))
      (shifted f.flush_outbound 0)

-- `payload` is the field `data` of the source.
pub record SolFrame : Type 0 where
  pub sequence : ℕ
  pub ack : ℕ
  pub accepted : ℕ
  pub flags : SolFlags
  pub payload : List ℕ

abbrev is_empty : List ℕ → Bool
is_empty [] = true
is_empty (b ∷ bs) = false

unfoldable pub decode : List ℕ → Result SolFrameError SolFrame
unfolding flags_decode
decode bytes = do
  reject_if (not (leb 4 (length bytes) && leb (length bytes) (max_sol_data + 4))) invalid_length
  reject_if ((bit_and (get_or bytes 0 0) 0xf0 != 0) || (bit_and (get_or bytes 1 0) 0xf0 != 0))
      invalid_header
  flags ← flags_decode (get_or bytes 3 0)
  let sequence = get_or bytes 0 0
  let ack = get_or bytes 1 0
  let accepted = get_or bytes 2 0
  let payload = drop 4 bytes
  reject_if (ack == 0 && (accepted != 0) || sequence == 0 && not (is_empty payload)) invalid_header
  ok (record {
    sequence = sequence;
    ack = ack;
    accepted = accepted;
    flags = flags;
    payload = payload;
  })

unfoldable pub encode : SolFrame → Result SolFrameError (List ℕ)
unfolding flags_encode
encode f = do
  reject_if
      (ltb 15 f.sequence
        || ltb 15 f.ack
        || ltb max_sol_data (length f.payload)
        || f.sequence == 0 && not (is_empty f.payload)
        || f.ack == 0 && (f.accepted != 0))
      invalid_header
  ok (f.sequence ∷ f.ack ∷ f.accepted ∷ flags_encode f.flags ∷ f.payload)

-- `SolFrame::ack`; `accepted as u8` cuts the count to a byte.
unfoldable pub ack_frame : ℕ → ℕ → Bool → SolFrame
ack_frame sequence accepted nack = record {
  sequence = 0;
  ack = sequence;
  accepted = accepted % 256;
  flags = record no_flags { nack = nack };
  payload = [];
}

-- The flags that a BMC sends; the other three only go from the console to the BMC.
pub record IsInbound (f : SolFlags) : Type 0 where
  pub generate_break : f.generate_break ≡ false
  pub flush_inbound : f.flush_inbound ≡ false
  pub flush_outbound : f.flush_outbound ≡ false

flags_decode-encode : (f : SolFlags) → IsInbound f → flags_decode (flags_encode f) ≡ ok f
unfolding flags_decode flags_encode
flags_decode-encode f i = ground arith

abbrev flags_kept : ℕ → Bool
flags_kept v = elim (flags_decode v) [ ok f ↦ flags_encode f == v | err e ↦ true ]

flags_table : all_below 256 flags_kept ≡ true
unfolding all_below flags_decode flags_encode
flags_table = refl

flags_encode-decode : (v : ℕ) (f : SolFlags) → v < 256 → flags_decode v ≡ ok f → flags_encode f ≡ v
flags_encode-decode v f h e = let t = all_below_sound 256 flags_kept v flags_table h in ground arith

-- What `encode` demands, and what it then writes.
record IsEncoded (f : SolFrame) (bytes : List ℕ) : Type 0 where
  sequence_fits : f.sequence ≤ 15
  ack_fits : f.ack ≤ 15
  payload_fits : length f.payload ≤ max_sol_data
  consistent :
      (f.ack == 0 && (f.accepted != 0) || f.sequence == 0 && not (is_empty f.payload)) ≡ false
  written : bytes ≡ f.sequence ∷ f.ack ∷ f.accepted ∷ flags_encode f.flags ∷ f.payload

encode-IsEncoded : (f : SolFrame) (bytes : List ℕ) → encode f ≡ ok bytes → IsEncoded f bytes
unfolding encode
encode-IsEncoded f bytes e = record {
  sequence_fits = ground arith;
  ack_fits = ground arith;
  payload_fits = ground arith;
  consistent = ground arith;
  written = ground arith;
}

decode_encoded :
    (f : SolFrame)
    → IsInbound f.flags
    → f.sequence ≤ 15
    → f.ack ≤ 15
    → length f.payload ≤ max_sol_data
    → (f.ack == 0 && (f.accepted != 0) || f.sequence == 0 && not (is_empty f.payload)) ≡ false
    → decode (f.sequence ∷ f.ack ∷ f.accepted ∷ flags_encode f.flags ∷ f.payload) ≡ ok f
unfolding decode
decode_encoded f i s a n c =
    rw
      (
        bit_and_0xf0 f.sequence (omega arith),
        bit_and_0xf0 f.ack (omega arith),
        flags_decode-encode f.flags i,
        c,
      )
      (ground arith)

-- A frame with a BMC's flags that can be encoded is decoded to itself.
pub decode-encode :
    (f : SolFrame) (bytes : List ℕ) → IsInbound f.flags → encode f ≡ ok bytes → decode bytes ≡ ok f
decode-encode f bytes i e =
    let p = encode-IsEncoded f bytes e in
    rw p.written (decode_encoded f i p.sequence_fits p.ack_fits p.payload_fits p.consistent)

-- A payload of bytes that is decoded is the one that its frame encodes to: no header bit is lost.
pub encode-decode :
    (f : SolFrame) (bytes : List ℕ) → All IsByte bytes → decode bytes ≡ ok f → encode f ≡ ok bytes
unfolding decode encode
encode-decode f [] h e = cc
encode-decode f (a ∷ []) h e = cc
encode-decode f (a ∷ b ∷ []) h e = cc
encode-decode f (a ∷ b ∷ c ∷ []) h e = cc
encode-decode f (a ∷ b ∷ c ∷ d ∷ rest) h e =
    ground (arith, flags_encode-decode d f.flags, bit_and_0xf0 a, bit_and_0xf0 b)
