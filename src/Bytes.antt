-- ===== src/Bytes.antt =====
-- Byte buffers (Uint8Array) as lists of numbers below 256, and the big-endian helpers that
-- src/protocol/V6BFrameCodec.ts, TxControlCodec.ts, FragmentCodec.ts, BinaryMessageCodec.ts,
-- ReliabilityManager.ts and src/BITCHAT/core/BitChatPacket.ts each declare.
-- A bitwise `|` of bytes shifted to disjoint places is written `+`, `>>> k` and `& 0xff` are `/ 2 ^ k`
-- and `% 256`.
pub mod Laws
use i_tantra.Base.{
  ℕ, zero, suc, ◌+◌, ◌-◌, ◌*◌, ◌/◌, ◌%◌, ◌^◌, ◌<◌, List, [], ◌∷◌, ◌++◌, get_or, set, length, slice,
  replicate, All,
}
use i_tantra.Base.Int.{ℤ, pos, negsuc, signed32}

abbrev pub Bytes : Type 0
Bytes = List ℕ

abbrev pub IsBytes : Bytes → Type 0
IsBytes = All (λ b. b < 256)

-- new Uint8Array(n)
abbrev pub zeros : ℕ → Bytes
zeros n = replicate n 0

-- buf[i] = v keeps the low eight bits.
abbrev pub set_byte : Bytes → ℕ → ℕ → Bytes
set_byte buf i v = set buf i (v % 256)

-- buf[i], where `undefined & 0xff` is 0.
abbrev pub byte_at : Bytes → ℕ → ℕ
byte_at buf i = get_or buf i 0

abbrev pub write_uint16_be : Bytes → ℕ → ℕ → Bytes
write_uint16_be buf offset value =
    set_byte (set_byte buf offset (value / 2 ^ 8 % 256)) (offset + 1) (value % 256)

abbrev pub read_uint16_be : Bytes → ℕ → ℕ
read_uint16_be buf offset = byte_at buf offset % 256 * 2 ^ 8 + byte_at buf (offset + 1) % 256

abbrev pub write_uint32_be : Bytes → ℕ → ℕ → Bytes
write_uint32_be buf offset value =
    let buf0 = set_byte buf offset (value / 2 ^ 24 % 256) in
    let buf1 = set_byte buf0 (offset + 1) (value / 2 ^ 16 % 256) in
    let buf2 = set_byte buf1 (offset + 2) (value / 2 ^ 8 % 256) in
    set_byte buf2 (offset + 3) (value % 256)

-- With the final `>>> 0`: unsigned.
abbrev pub read_uint32_be : Bytes → ℕ → ℕ
read_uint32_be buf offset =
    byte_at buf offset % 256 * 2 ^ 24
    + byte_at buf (offset + 1) % 256 * 2 ^ 16
    + byte_at buf (offset + 2) % 256 * 2 ^ 8
    + byte_at buf (offset + 3) % 256

-- Without it the result of `|` is an int32, which may be negative.
abbrev pub read_int32_be : Bytes → ℕ → ℤ
read_int32_be buf offset = signed32 (read_uint32_be buf offset)

-- for (let i = 0; i < 8; i++) buf[offset + i] = (value >> (56 - 8 * i)) & 0xff
write_uint64_loop : ℕ → Bytes → ℕ → ℕ → ℕ → Bytes
write_uint64_loop zero buf i offset value = buf
write_uint64_loop (suc rounds) buf i offset value =
    write_uint64_loop rounds (set_byte buf (offset + i) (value / 2 ^ (56 - i * 8) % 256)) (i + 1)
      offset value

unfoldable pub write_uint64_be : Bytes → ℕ → ℕ → Bytes
unfolding write_uint64_loop
write_uint64_be buf offset value = write_uint64_loop 8 buf 0 offset value

-- value = (value << 8) | (buf[offset + i] & 0xff)
read_uint64_loop : ℕ → Bytes → ℕ → ℕ → ℕ → ℕ
read_uint64_loop zero buf i offset value = value
read_uint64_loop (suc rounds) buf i offset value =
    read_uint64_loop rounds buf (i + 1) offset (value * 2 ^ 8 + byte_at buf (offset + i) % 256)

unfoldable pub read_uint64_be : Bytes → ℕ → ℕ
unfolding read_uint64_loop
read_uint64_be buf offset = read_uint64_loop 8 buf 0 offset 0

-- data.slice(from, to), where a negative end counts from the end of the buffer.
abbrev pub slice_to : ℕ → ℤ → Bytes → Bytes
slice_to from (pos to) buf = slice from to buf
slice_to from (negsuc n) buf = slice from (length buf - suc n) buf
