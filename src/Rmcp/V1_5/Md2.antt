-- ===== src/Rmcp/V1_5/Md2.antt =====
-- MD2 as v1_5/md2.rs computes it: the padded chunks, the checksum and the digest.
use ipmi_rs.Base.{
  ℕ, zero, suc, ◌+◌, ◌%◌, ◌≤◌, min, bit_xor, ◌≡◌, refl, ap, ◌∙◌, List, [], ◌∷◌, ◌++◌, get_or, take,
  replicate, length, length-append, length-take, arith,
}

abbrev s_table : List ℕ
s_table =
    41 ∷ 46 ∷ 67 ∷ 201 ∷ 162 ∷ 216 ∷ 124 ∷ 1 ∷ 61 ∷ 54 ∷ 84 ∷ 161 ∷ 236 ∷ 240 ∷ 6 ∷ 19 ∷ 98 ∷ 167
    ∷ 5 ∷ 243 ∷ 192 ∷ 199 ∷ 115 ∷ 140 ∷ 152 ∷ 147 ∷ 43 ∷ 217 ∷ 188 ∷ 76 ∷ 130 ∷ 202 ∷ 30 ∷ 155 ∷ 87
    ∷ 60 ∷ 253 ∷ 212 ∷ 224 ∷ 22 ∷ 103 ∷ 66 ∷ 111 ∷ 24 ∷ 138 ∷ 23 ∷ 229 ∷ 18 ∷ 190 ∷ 78 ∷ 196 ∷ 214
    ∷ 218 ∷ 158 ∷ 222 ∷ 73 ∷ 160 ∷ 251 ∷ 245 ∷ 142 ∷ 187 ∷ 47 ∷ 238 ∷ 122 ∷ 169 ∷ 104 ∷ 121 ∷ 145
    ∷ 21 ∷ 178 ∷ 7 ∷ 63 ∷ 148 ∷ 194 ∷ 16 ∷ 137 ∷ 11 ∷ 34 ∷ 95 ∷ 33 ∷ 128 ∷ 127 ∷ 93 ∷ 154 ∷ 90 ∷ 144
    ∷ 50 ∷ 39 ∷ 53 ∷ 62 ∷ 204 ∷ 231 ∷ 191 ∷ 247 ∷ 151 ∷ 3 ∷ 255 ∷ 25 ∷ 48 ∷ 179 ∷ 72 ∷ 165 ∷ 181
    ∷ 209 ∷ 215 ∷ 94 ∷ 146 ∷ 42 ∷ 172 ∷ 86 ∷ 170 ∷ 198 ∷ 79 ∷ 184 ∷ 56 ∷ 210 ∷ 150 ∷ 164 ∷ 125 ∷ 182
    ∷ 118 ∷ 252 ∷ 107 ∷ 226 ∷ 156 ∷ 116 ∷ 4 ∷ 241 ∷ 69 ∷ 157 ∷ 112 ∷ 89 ∷ 100 ∷ 113 ∷ 135 ∷ 32 ∷ 134
    ∷ 91 ∷ 207 ∷ 101 ∷ 230 ∷ 45 ∷ 168 ∷ 2 ∷ 27 ∷ 96 ∷ 37 ∷ 173 ∷ 174 ∷ 176 ∷ 185 ∷ 246 ∷ 28 ∷ 70
    ∷ 97 ∷ 105 ∷ 52 ∷ 64 ∷ 126 ∷ 15 ∷ 85 ∷ 71 ∷ 163 ∷ 35 ∷ 221 ∷ 81 ∷ 175 ∷ 58 ∷ 195 ∷ 92 ∷ 249
    ∷ 206 ∷ 186 ∷ 197 ∷ 234 ∷ 38 ∷ 44 ∷ 83 ∷ 13 ∷ 110 ∷ 133 ∷ 40 ∷ 132 ∷ 9 ∷ 211 ∷ 223 ∷ 205 ∷ 244
    ∷ 65 ∷ 129 ∷ 77 ∷ 82 ∷ 106 ∷ 220 ∷ 55 ∷ 200 ∷ 108 ∷ 193 ∷ 171 ∷ 250 ∷ 36 ∷ 225 ∷ 123 ∷ 8 ∷ 12
    ∷ 189 ∷ 177 ∷ 74 ∷ 120 ∷ 136 ∷ 149 ∷ 139 ∷ 227 ∷ 99 ∷ 232 ∷ 109 ∷ 233 ∷ 203 ∷ 213 ∷ 254 ∷ 59 ∷ 0
    ∷ 29 ∷ 57 ∷ 242 ∷ 239 ∷ 183 ∷ 14 ∷ 102 ∷ 88 ∷ 208 ∷ 228 ∷ 166 ∷ 119 ∷ 114 ∷ 248 ∷ 235 ∷ 117 ∷ 75
    ∷ 10 ∷ 49 ∷ 68 ∷ 80 ∷ 180 ∷ 143 ∷ 237 ∷ 31 ∷ 26 ∷ 219 ∷ 153 ∷ 141 ∷ 51 ∷ 159 ∷ 17 ∷ 131 ∷ 20
    ∷ []

-- What `PaddedIter` yields: `chunk` is the part of a chunk read so far, which lacks `suc n` bytes.
abbrev padded : List ℕ → ℕ → List ℕ → List (List ℕ)
padded chunk n [] = (chunk ++ replicate (suc n) (suc n)) ∷ []
padded chunk zero (x ∷ xs) = (chunk ++ (x ∷ [])) ∷ padded [] 15 xs
padded chunk (suc n) (x ∷ xs) = padded (chunk ++ (x ∷ [])) n xs

abbrev xor_all : List ℕ → List ℕ → List ℕ
xor_all (x ∷ xs) (y ∷ ys) = bit_xor x y ∷ xor_all xs ys
xor_all _ _ = []

-- One round over the digest, with `t` threaded through.
abbrev mix_round : ℕ → List ℕ → ℕ × List ℕ
mix_round t [] = (t, [])
mix_round t (x ∷ xs) =
    let new_val = bit_xor x (get_or s_table t 0) in
    let rest = mix_round new_val xs in (rest.0, new_val ∷ rest.1)

-- `n` rounds, the first with the number `j`.
unfoldable mix_rounds : ℕ → ℕ → ℕ → List ℕ → List ℕ
mix_rounds zero j t digest = digest
mix_rounds (suc n) j t digest =
    let mixed = mix_round t digest in mix_rounds n (suc j) ((mixed.0 + j) % 256) mixed.1

unfoldable md2_step : List ℕ → List ℕ → List ℕ
md2_step chunk digest =
    mix_rounds 18 0 0 (take 16 digest ++ (chunk ++ xor_all chunk (take 16 digest)))

abbrev checksum_bytes : ℕ → List ℕ → List ℕ → List ℕ
checksum_bytes l (c ∷ chunk) (s ∷ checksum) =
    let new_val = bit_xor s (get_or s_table (bit_xor c l) 0) in
    new_val ∷ checksum_bytes new_val chunk checksum
checksum_bytes l chunk checksum = []

abbrev checksum_step : List ℕ → List ℕ → List ℕ
checksum_step chunk checksum = checksum_bytes (get_or checksum 15 0) chunk checksum

-- The digest after the chunks and the checksum of them.
unfoldable md2_chunks : List ℕ → List ℕ → List (List ℕ) → List ℕ
md2_chunks checksum digest [] = take 16 (md2_step checksum digest)
md2_chunks checksum digest (chunk ∷ chunks) =
    md2_chunks (checksum_step chunk checksum) (md2_step chunk digest) chunks

pub md2 : List ℕ → List ℕ
md2 bytes = md2_chunks (replicate 16 0) (replicate 48 0) (padded [] 15 bytes)

length-xor_all : (xs ys : List ℕ) → length (xor_all xs ys) ≡ min (length xs) (length ys)
length-xor_all [] ys = omega arith
length-xor_all (x ∷ xs) [] = omega arith
length-xor_all (x ∷ xs) (y ∷ ys) = omega (arith, length-xor_all xs ys)

length-mix_round : (t : ℕ) (digest : List ℕ) → length (mix_round t digest).1 ≡ length digest
length-mix_round t [] = refl
length-mix_round t (x ∷ xs) = ap suc (length-mix_round (bit_xor x (get_or s_table t 0)) xs)

length-mix_rounds : (n j t : ℕ) (digest : List ℕ) → length (mix_rounds n j t digest) ≡ length digest
unfolding mix_rounds
length-mix_rounds zero j t digest = refl
length-mix_rounds (suc n) j t digest =
    length-mix_rounds n (suc j) (((mix_round t digest).0 + j) % 256) (mix_round t digest).1
    ∙ length-mix_round t digest

length-md2_step : (chunk digest : List ℕ) → 16 ≤ length digest → 16 ≤ length (md2_step chunk digest)
unfolding md2_step
length-md2_step chunk digest h =
    let start = take 16 digest in
    let mixed = chunk ++ xor_all chunk start in
    omega (
      arith,
      length-mix_rounds 18 0 0 (start ++ mixed),
      length-append start mixed,
      length-take 16 digest,
    )

length-md2_chunks :
    (checksum digest : List ℕ) (chunks : List (List ℕ))
    → 16 ≤ length digest
    → length (md2_chunks checksum digest chunks) ≡ 16
unfolding md2_chunks
length-md2_chunks checksum digest [] h =
    omega (arith, length-md2_step checksum digest h, length-take 16 (md2_step checksum digest))
length-md2_chunks checksum digest (chunk ∷ chunks) h =
    length-md2_chunks (checksum_step chunk checksum) (md2_step chunk digest) chunks
      (length-md2_step chunk digest h)

-- A digest has 16 bytes, whatever the message.
pub length-md2 : (bytes : List ℕ) → length (md2 bytes) ≡ 16
unfolding md2
length-md2 bytes =
    length-md2_chunks (replicate 16 0) (replicate 48 0) (padded [] 15 bytes) (omega arith)

-- The digest of `abc` in the source's tests.
md2_abc :
    md2 (97 ∷ 98 ∷ 99 ∷ [])
    ≡ 218 ∷ 133 ∷ 59 ∷ 13 ∷ 63 ∷ 136 ∷ 217 ∷ 155 ∷ 48 ∷ 40 ∷ 58 ∷ 105 ∷ 230 ∷ 222 ∷ 214 ∷ 187 ∷ []
unfolding md2 md2_chunks md2_step mix_rounds
md2_abc = refl
