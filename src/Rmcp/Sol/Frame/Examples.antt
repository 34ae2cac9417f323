-- ===== src/Rmcp/Sol/Frame/Examples.antt =====
-- A concrete frame for the theorems on SOL frames.
use ipmi_rs.Base.{ℕ, ◌≡◌, refl, true, List, [], ◌∷◌, ok, arith}
use ipmi_rs.Rmcp.Sol.Frame.{
  SolFrame, no_flags, flags_encode, encode, decode, decode-encode, encode-decode, flags_decode,
}

abbrev console_frame : SolFrame
console_frame = record {
  sequence = 3;
  ack = 2;
  accepted = 5;
  flags = record no_flags { nack = true; overrun = true };
  payload = 0x68 ∷ 0x69 ∷ [];
}

abbrev console_bytes : List ℕ
console_bytes = 3 ∷ 2 ∷ 5 ∷ 0x48 ∷ 0x68 ∷ 0x69 ∷ []

console_written : encode console_frame ≡ ok console_bytes
unfolding encode flags_encode
console_written = refl

console_read : decode console_bytes ≡ ok console_frame
unfolding decode flags_decode
console_read = refl

decode-encode_example : decode console_bytes ≡ ok console_frame
decode-encode_example =
    decode-encode console_frame console_bytes
      (record { generate_break = refl; flush_inbound = refl; flush_outbound = refl })
      console_written

encode-decode_example : encode console_frame ≡ ok console_bytes
encode-decode_example =
    encode-decode console_frame console_bytes
      (omega arith, (omega arith, (omega arith, (omega arith, (omega arith, (omega arith, tt))))))
      console_read
