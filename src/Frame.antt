-- ===== src/Frame.antt =====
-- The V6B transport frame: src/protocol/V6BFrameTypes.ts and V6BFrameCodec.ts.
-- The arguments of `encode` range over the non-negative integers, so the checks of `isInteger` and
-- `instanceof Uint8Array` have no counterpart.
pub mod RoundTrip
pub mod Decode
use i_tantra.Base.{
  ℕ, ◌+◌, ◌-◌, ◌^◌, Bool, true, false, not, List, [], ◌∷◌, Option, Result, ok, err, ◌>>=◌, ◌>>◌,
  throw_if, to_option, ltb, leb, nat_beq, length, set_from, if◌then◌else◌,
}
use i_tantra.Base.Int.{ℤ, pos, negsuc, ◌+ℤ◌, ltb_ℤ}
use i_tantra.Bytes.{Bytes, zeros, set_byte, byte_at, write_uint32_be, read_int32_be, slice_to}

abbrev pub v6b_version : ℕ
v6b_version = 0x03

abbrev pub v6b_frame_v6a_message : ℕ
v6b_frame_v6a_message = 0x01

abbrev pub v6b_frame_tx_control : ℕ
v6b_frame_tx_control = 0x12

-- V6B_VALID_FRAME_TYPES: message, BITCHAT, ACK, NACK, TX control, ping, pong
abbrev pub v6b_valid_frame_types : List ℕ
v6b_valid_frame_types = 0x01 ∷ 0x02 ∷ 0x10 ∷ 0x11 ∷ 0x12 ∷ 0x21 ∷ 0x22 ∷ []

abbrev pub v6b_header_size : ℕ
v6b_header_size = 10

abbrev pub v6b_max_frame_size : ℕ
v6b_max_frame_size = 509

abbrev pub v6b_max_payload_size : ℕ
v6b_max_payload_size = v6b_max_frame_size - v6b_header_size

-- set.has(x)
unfoldable pub contains : List ℕ → ℕ → Bool
contains [] x = false
contains (y ∷ ys) x = if nat_beq y x then true else contains ys x

pub data FrameError : Type 0 where
  invalid_sequence invalid_frame_type payload_too_large : FrameError
  frame_too_short unsupported_version frame_truncated : FrameError

pub record DecodedFrame : Type 0 where
  pub version : ℕ
  pub frame_type : ℕ
  pub sequence : ℤ
  pub payload_length : ℤ
  pub payload : Bytes

unfoldable pub encode : ℕ → ℕ → Bytes → Result FrameError Bytes
encode sequence frame_type payload = do
  throw_if (ltb 0xffffffff sequence) invalid_sequence
  throw_if (not (contains v6b_valid_frame_types frame_type)) invalid_frame_type
  throw_if (ltb v6b_max_payload_size (length payload)) payload_too_large
  let frame0 = zeros (v6b_header_size + length payload)
  let frame1 = set_byte frame0 0 v6b_version
  let frame2 = set_byte frame1 1 frame_type
  let frame3 = write_uint32_be frame2 2 sequence
  let frame4 = write_uint32_be frame3 6 (length payload)
  ok (set_from frame4 v6b_header_size payload)

unfoldable pub decode : Bytes → Result FrameError DecodedFrame
decode bytes = do
  throw_if (ltb (length bytes) v6b_header_size) frame_too_short
  let version = byte_at bytes 0
  throw_if (not (nat_beq version v6b_version)) unsupported_version
  let frame_type = byte_at bytes 1
  throw_if (not (contains v6b_valid_frame_types frame_type)) invalid_frame_type
  let sequence = read_int32_be bytes 2
  let payload_length = read_int32_be bytes 6
  throw_if (ltb_ℤ (pos v6b_max_payload_size) payload_length) payload_too_large
  let expected_frame_size = pos v6b_header_size +ℤ payload_length
  throw_if (ltb_ℤ (pos (length bytes)) expected_frame_size) frame_truncated
  let payload = slice_to v6b_header_size expected_frame_size bytes
  ok (record {
    version = version;
    frame_type = frame_type;
    sequence = sequence;
    payload_length = payload_length;
    payload = payload;
  })

unfoldable pub safe_decode : Bytes → Option DecodedFrame
unfolding decode
safe_decode bytes = to_option (decode bytes)

-- `{ valid: true }` or the error's code
unfoldable pub validate_frame : Bytes → Result FrameError (Unit {0})
unfolding decode
validate_frame bytes = elim (decode bytes) [ ok f ↦ ok tt | err e ↦ err e ]
