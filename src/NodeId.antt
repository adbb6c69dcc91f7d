-- ===== src/NodeId.antt =====
-- 64-bit identifiers as text, "0x" and 16 lower-case hex digits: src/BITCHAT/core/BitChatPacket.ts.
-- `trim`, `BigInt`, `toString(16)`, `padStart` and the regular expressions are those of JavaScript.
-- Numbers are integers here, so the refusals of infinite and fractional numbers have no counterpart.
pub mod Hex
pub mod Normal
use i_tantra.Base.{
  ℕ, zero, suc, ◌+◌, ◌-◌, ◌*◌, ◌/◌, ◌%◌, ◌^◌, Bool, true, false, not, ◌&&◌, ◌||◌, List, [], ◌∷◌,
  ◌++◌, Option, none, some, Result, ok, err, ◌>>=◌, ◌>>◌, throw_if, ltb, leb, nat_beq, length, drop,
  replicate, Text, codes, if◌then◌else◌,
}
use i_tantra.Base.Int.{ℤ, pos, negsuc}
use i_tantra.Bytes.{Bytes, write_uint64_be, read_uint64_be}
use mathlib.Core.List.{reverse}

abbrev pub NodeId : Type 0
NodeId = Text

abbrev pub PacketId : Type 0
PacketId = Text

-- The digit's character, lower case.
unfoldable pub hex_digit : ℕ → ℕ
hex_digit d = if ltb d 10 then 48 + d else 87 + d

-- v.toString(16): at most `fuel` digits, put before `acc`.
unfoldable pub to_hex_loop : ℕ → ℕ → Text → Text
to_hex_loop zero v acc = acc
to_hex_loop (suc fuel) v acc =
    let acc' = hex_digit (v % 16) ∷ acc in
    let rest = to_hex_loop fuel (v / 16) acc' in if nat_beq (v / 16) 0 then acc' else rest

-- s.padStart(n, c)
unfoldable pub pad_start : ℕ → ℕ → Text → Text
pad_start n c s = replicate (n - length s) c ++ s

-- A number below 2 ^ 64 has 16 hex digits at most, so 16 rounds are enough.
unfoldable pub format : ℕ → Text
unfolding to_hex_loop pad_start
format v = 48 ∷ 120 ∷ pad_start 16 48 (to_hex_loop 16 v [])

unfoldable pub is_lower_hex : ℕ → Bool
is_lower_hex c = (leb 48 c && leb c 57) || (leb 97 c && leb c 102)

unfoldable pub is_hex : ℕ → Bool
unfolding is_lower_hex
is_hex c = is_lower_hex c || (leb 65 c && leb c 70)

unfoldable pub is_decimal : ℕ → Bool
is_decimal c = leb 48 c && leb c 57

unfoldable pub all : (ℕ → Bool) → Text → Bool
all p [] = true
all p (c ∷ cs) = p c && all p cs

unfoldable pub digit_value : ℕ → ℕ
digit_value c = if leb c 57 then c - 48 else if leb c 70 then c - 55 else c - 87

-- BigInt of a text of digits in the given base
unfoldable pub value : ℕ → ℕ → Text → ℕ
unfolding digit_value
value base acc [] = acc
value base acc (c ∷ cs) = value base (acc * base + digit_value c) cs

-- White space and line ends, as `trim` strips them.
unfoldable pub is_space : ℕ → Bool
is_space c =
    (leb 9 c && leb c 13)
    || nat_beq c 32
    || nat_beq c 160
    || nat_beq c 0x1680
    || (leb 0x2000 c && leb c 0x200a)
    || nat_beq c 0x2028
    || nat_beq c 0x2029
    || nat_beq c 0x202f
    || nat_beq c 0x205f
    || nat_beq c 0x3000
    || nat_beq c 0xfeff

unfoldable pub trim_start : Text → Text
trim_start [] = []
trim_start (c ∷ cs) = if is_space c then trim_start cs else c ∷ cs

unfoldable pub trim : Text → Text
unfolding trim_start
trim s = reverse (trim_start (reverse (trim_start s)))

-- /^0x[0-9a-fA-F]+$/
unfoldable pub matches_hex : Text → Bool
matches_hex (a ∷ b ∷ c ∷ cs) = nat_beq a 48 && nat_beq b 120 && all is_hex (c ∷ cs)
matches_hex _ = false

-- /^[0-9]+$/
unfoldable pub matches_decimal : Text → Bool
matches_decimal [] = false
matches_decimal (c ∷ cs) = all is_decimal (c ∷ cs)

pub data IdError : Type 0 where
  negative exceeds_maximum invalid_string : IdError

pub data IdInput : Type 0 where
  big : ℤ → IdInput
  num : ℤ → IdInput
  str : Text → IdInput

parse_integer : ℤ → Result IdError ℕ
parse_integer (pos n) = ok n
parse_integer (negsuc n) = err negative

unfoldable pub parse_trimmed : Text → Result IdError ℕ
parse_trimmed t =
    if matches_hex t
    then ok (value 16 0 (drop 2 t))
    else if matches_decimal t
    then ok (value 10 0 t)
    else err invalid_string

unfoldable pub parse_input : IdInput → Result IdError ℕ
unfolding parse_integer
parse_input (big i) = parse_integer i
parse_input (num i) = parse_integer i
parse_input (str s) = parse_trimmed (trim s)

unfoldable pub normalize_uint64 : IdInput → Result IdError Text
normalize_uint64 input = do
  v ← parse_input input
  throw_if (ltb 18446744073709551615 v) exceeds_maximum
  ok (format v)

-- normalizeNodeId and normalizePacketId on a text, the form in which the other modules hold ids
unfoldable pub normalize_id : Text → Result IdError Text
unfolding normalize_uint64
normalize_id s = normalize_uint64 (str s)

-- /^0x[0-9a-f]{16}$/
unfoldable pub is_valid_id : Text → Bool
is_valid_id (a ∷ b ∷ cs) =
    nat_beq a 48 && nat_beq b 120 && nat_beq (length cs) 16 && all is_lower_hex cs
is_valid_id _ = false

-- writeUInt64BE(buf, offset, id), for an id in hex
unfoldable pub write_id_be : Bytes → ℕ → Text → Bytes
unfolding write_uint64_be
write_id_be buf offset id = write_uint64_be buf offset (value 16 0 (drop 2 id))

unfoldable pub read_id_be : Bytes → ℕ → Text
unfolding read_uint64_be
read_id_be buf offset = format (read_uint64_be buf offset)
