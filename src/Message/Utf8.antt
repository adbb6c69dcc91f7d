-- ===== src/Message/Utf8.antt =====
-- The UTF-8 helpers of src/protocol/BinaryMessageCodec.ts. A text is the list of its UTF-16 code units.
-- A bitwise `|` of disjoint bits is written `+`, a mask of high bits as a test on the quotient.
pub mod RoundTrip
pub mod Total
use i_tantra.Base.{
  ℕ, zero, suc, ◌+◌, ◌-◌, ◌*◌, ◌/◌, ◌%◌, Bool, true, false, ◌&&◌, ◌||◌, List, [], ◌∷◌, ◌++◌, Result,
  ok, err, ◌>>=◌, ◌>>◌, throw_if, ltb, leb, nat_beq, length, Text, if◌then◌else◌,
}
use i_tantra.Bytes.{Bytes}

abbrev pub is_high_surrogate : ℕ → Bool
is_high_surrogate c = leb 0xd800 c && leb c 0xdbff

abbrev pub is_low_surrogate : ℕ → Bool
is_low_surrogate c = leb 0xdc00 c && leb c 0xdfff

-- The code point of a surrogate pair.
abbrev pub pair_point : ℕ → ℕ → ℕ
pair_point c d = (c - 0xd800) * 1024 + (d - 0xdc00) + 0x10000

-- The bytes pushed for one code point.
unfoldable pub encode_point : ℕ → Bytes
encode_point code =
    if ltb code 0x80
    then code ∷ []
    else if ltb code 0x800
    then (0xc0 + code / 64) ∷ (0x80 + code % 64) ∷ []
    else if ltb code 0x10000
    then (0xe0 + code / 4096) ∷ (0x80 + code / 64 % 64) ∷ (0x80 + code % 64) ∷ []
    else (0xf0 + code / 262144)
      ∷ (0x80 + code / 4096 % 64)
      ∷ (0x80 + code / 64 % 64)
      ∷ (0x80 + code % 64)
      ∷ []

unfoldable pub utf8_encode : Text → Bytes
unfolding encode_point
utf8_encode [] = []
utf8_encode (c ∷ []) = encode_point c
utf8_encode (c ∷ d ∷ cs) =
    let skipping = encode_point (pair_point c d) ++ utf8_encode cs in
    let keeping = encode_point c ++ utf8_encode (d ∷ cs) in
    if is_high_surrogate c && is_low_surrogate d then skipping else keeping

unfoldable pub point_length : ℕ → ℕ
point_length code =
    if ltb code 0x80 then 1 else if ltb code 0x800 then 2 else if ltb code 0x10000 then 3 else 4

unfoldable pub utf8_byte_length : Text → ℕ
unfolding point_length
utf8_byte_length [] = 0
utf8_byte_length (c ∷ []) = point_length c
utf8_byte_length (c ∷ d ∷ cs) =
    let skipping = point_length (pair_point c d) + utf8_byte_length cs in
    let keeping = point_length c + utf8_byte_length (d ∷ cs) in
    if is_high_surrogate c && is_low_surrogate d then skipping else keeping

pub data Utf8Error : Type 0 where
  invalid_start truncated invalid_continuation overlong out_of_fuel : Utf8Error

-- The length of the sequence and the bits of its start byte.
unfoldable pub start_byte : ℕ → Result Utf8Error (ℕ × ℕ)
start_byte b =
    if ltb b 0x80
    then ok (1, b)
    else if nat_beq (b / 32) 6
    then ok (2, b % 32)
    else if nat_beq (b / 16) 14
    then ok (3, b % 16)
    else if nat_beq (b / 8) 30
    then ok (4, b % 8)
    else err invalid_start

-- for (let j = 1; j < seqLen; j++): the code point, and the bytes behind the sequence.
unfoldable pub continuation : ℕ → Bytes → ℕ → Result Utf8Error (ℕ × Bytes)
continuation zero bs point = ok (point, bs)
continuation (suc n) [] point = err truncated
continuation (suc n) (b ∷ bs) point =
    let rest = continuation n bs (point * 64 + b % 64) in
    if nat_beq (b / 64) 2 then rest else err invalid_continuation

unfoldable pub is_overlong : ℕ → ℕ → Bool
is_overlong n point =
    (nat_beq n 2 && ltb point 0x80)
    || (nat_beq n 3 && ltb point 0x800)
    || (nat_beq n 4 && ltb point 0x10000)

-- The code units pushed for one code point.
unfoldable pub point_units : ℕ → Text
point_units point =
    if leb point 0xffff
    then point ∷ []
    else (0xd800 + (point - 0x10000) / 1024) ∷ (0xdc00 + (point - 0x10000) % 1024) ∷ []

-- One sequence at the front of the bytes: its code point, and what follows.
unfoldable pub read_point : Bytes → Result Utf8Error (ℕ × Bytes)
unfolding start_byte continuation is_overlong
read_point [] = err truncated
read_point (b ∷ bs) = do
  (n, bits) ← start_byte b
  throw_if (ltb (length (b ∷ bs)) n) truncated
  (point, rest) ← continuation (n - 1) bs bits
  throw_if (is_overlong n point) overlong
  ok (point, rest)

-- while (i < bytes.length): every round takes a byte, so the length is fuel enough.
unfoldable pub decode_loop : ℕ → Bytes → Result Utf8Error Text
unfolding read_point point_units
decode_loop fuel [] = ok []
decode_loop zero (b ∷ bs) = err out_of_fuel
decode_loop (suc fuel) (b ∷ bs) = do
  (point, rest) ← read_point (b ∷ bs)
  units ← decode_loop fuel rest
  ok (point_units point ++ units)

unfoldable pub utf8_decode : Bytes → Result Utf8Error Text
unfolding decode_loop
utf8_decode bytes = decode_loop (length bytes) bytes
