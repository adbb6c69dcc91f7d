-- ===== src/Message.antt =====
-- V6A messages: src/protocol/BinaryMessageTypes.ts and BinaryMessageCodec.ts.
-- Messages are objects with fields of their types and data are byte buffers, so the tests of `typeof`
-- and `instanceof` have no counterpart; an argument that may be a text or a buffer is an `Incoming`.
pub mod Utf8
pub mod Registry
pub mod Bounds
pub mod RoundTrip
pub mod Decode
use i_tantra.Base.{
  ℕ, suc, ◌+◌, ◌-◌, ◌*◌, ◌/◌, ◌%◌, ◌^◌, Bool, true, false, not, ◌||◌, List, [], ◌∷◌, Option, none,
  some, Result, ok, err, ◌>>=◌, ◌>>◌, throw_if, to_option, ltb, nat_beq, length, set_from, Text,
  codes, if◌then◌else◌,
}
use i_tantra.Base.Int.{ℤ, pos, negsuc, ◌+ℤ◌, ltb_ℤ, beq_ℤ}
use i_tantra.Bytes.{
  Bytes, zeros, set_byte, byte_at, write_uint32_be, read_int32_be, write_uint64_be, read_uint64_be,
  slice_to,
}
use i_tantra.Frame.{contains}
use i_tantra.NodeId.{trim, format}
use i_tantra.Semantic.{Number, whole, SemanticMessage, is_blank, Parsed}
use i_tantra.Semantic
use i_tantra.Message.Utf8.{Utf8Error, utf8_encode, utf8_decode, utf8_byte_length}
use i_tantra.Message.Registry.{
  language_registry, emotion_registry, voice_profile_registry, is_in, wire_code, valid_codes,
  label_or,
}
use Prim.Native.Nat.{bit_xor}

abbrev pub protocol_version : ℕ
protocol_version = 0x02

abbrev pub msg_type_text : ℕ
msg_type_text = 0x01

abbrev pub valid_message_types : List ℕ
valid_message_types = msg_type_text ∷ []

abbrev pub header_size : ℕ
header_size = 18

abbrev pub max_ble_payload : ℕ
max_ble_payload = 509

pub data MessageError : Type 0 where
  packet_too_short unsupported_version invalid_message_type invalid_language : MessageError
  invalid_emotion invalid_voice_profile empty_text packet_truncated invalid_utf8 : MessageError
  missing_message_id payload_too_large : MessageError

-- hash ^= byte; hash = (hash * prime) & 0xffffffffffffffff, for every byte
unfoldable pub fnv_loop : ℕ → Bytes → ℕ
fnv_loop hash [] = hash
fnv_loop hash (b ∷ bs) = fnv_loop (bit_xor hash b * 0x100000001b3 % 2 ^ 64) bs

unfoldable pub fnv1a64 : Bytes → ℕ
unfolding fnv_loop
fnv1a64 bs = fnv_loop 0xcbf29ce484222325 bs

unfoldable pub hash_message_id : Text → ℕ
unfolding fnv1a64
hash_message_id message_id = fnv1a64 (utf8_encode message_id)

-- Math.round(Math.min(1, Math.max(0, x)) * 255): halves are rounded up.
unfoldable pub confidence_byte : Number → ℕ
confidence_byte x = elim x.num [
  | negsuc n ↦ 0
  | pos n ↦
      if ltb (suc x.den_pred) n then 255 else (2 * n * 255 + suc x.den_pred) / (2 * suc x.den_pred)
]

unfoldable pub build_packet : SemanticMessage → Bytes
build_packet message =
    let text_bytes = utf8_encode message.text in
    let text_length = length text_bytes in
    let buf0 = zeros (header_size + text_length) in
    let buf1 = set_byte buf0 0 protocol_version in
    let buf2 = set_byte buf1 1 msg_type_text in
    let buf3 = set_byte buf2 2 (wire_code message.language language_registry) in
    let buf4 = set_byte buf3 3 (wire_code message.emotion emotion_registry) in
    let buf5 = set_byte buf4 4 (confidence_byte message.emotion_confidence) in
    let buf6 = set_byte buf5 5 (wire_code message.voice_profile voice_profile_registry) in
    let buf7 = write_uint64_be buf6 6 (hash_message_id message.message_id) in
    let buf8 = write_uint32_be buf7 14 text_length in set_from buf8 header_size text_bytes

unfoldable pub validate_semantic_message : SemanticMessage → Result MessageError (Unit {0})
validate_semantic_message message = do
  throw_if (is_blank message.message_id) missing_message_id
  throw_if (is_blank (trim message.text)) empty_text
  throw_if (not (is_in message.emotion emotion_registry)) invalid_emotion
  throw_if (not (is_in message.voice_profile voice_profile_registry)) invalid_voice_profile
  ok tt

unfoldable pub encode : SemanticMessage → Result MessageError Bytes
encode message = do
  validate_semantic_message message
  let packet = build_packet message
  throw_if (ltb max_ble_payload (length packet)) payload_too_large
  ok packet

unfoldable pub encode_unrestricted : SemanticMessage → Result MessageError Bytes
encode_unrestricted message = do validate_semantic_message message; ok (build_packet message)

-- confidenceByte / 255.0
abbrev pub confidence_of_byte : ℕ → Number
confidence_of_byte b = record { num = pos b; den_pred = 254 }

-- An exception of `utf8Decode`, thrown on with a code of its own.
abbrev pub text_result : Result Utf8Error Text → Result MessageError Text
text_result (ok text) = ok text
text_result (err e) = err invalid_utf8

-- `textLength` is an int32, which may be negative. A valid emotion code has a label, so the
-- `undefined` of a missing one, here [], does not arise.
unfoldable pub decode : Bytes → Result MessageError SemanticMessage
decode buf = do
  throw_if (ltb (length buf) header_size) packet_too_short
  throw_if (not (nat_beq (byte_at buf 0) protocol_version)) unsupported_version
  throw_if (not (contains valid_message_types (byte_at buf 1))) invalid_message_type
  throw_if (not (contains (valid_codes language_registry) (byte_at buf 2))) invalid_language
  throw_if (not (contains (valid_codes emotion_registry) (byte_at buf 3))) invalid_emotion
  throw_if (not (contains (valid_codes voice_profile_registry) (byte_at buf 5)))
      invalid_voice_profile
  let text_length = read_int32_be buf 14
  throw_if (beq_ℤ text_length (pos 0)) empty_text
  let expected_packet_size = pos header_size +ℤ text_length
  throw_if (ltb_ℤ (pos (length buf)) expected_packet_size) packet_truncated
  text ← text_result (utf8_decode (slice_to header_size expected_packet_size buf))
  throw_if (is_blank (trim text)) empty_text
  ok (record {
    version = whole protocol_version;
    message_id = format (read_uint64_be buf 6);
    text = text;
    language = label_or (codes "unknown") (byte_at buf 2) language_registry;
    emotion = label_or [] (byte_at buf 3) emotion_registry;
    emotion_confidence = confidence_of_byte (byte_at buf 4);
    voice_profile = label_or (codes "default") (byte_at buf 5) voice_profile_registry;
  })

unfoldable pub safe_decode : Bytes → Option SemanticMessage
safe_decode buf = to_option (decode buf)

pub data Incoming : Type 0 where
  string : Text → Incoming
  bytes : Bytes → Incoming

-- `parse` is JSON.parse.
unfoldable pub decode_with_fallback : (Text → Option Parsed) → Incoming → Option SemanticMessage
decode_with_fallback parse (string s) = Semantic.safe_decode parse s
decode_with_fallback parse (bytes []) = none
decode_with_fallback parse (bytes (b ∷ bs)) =
    if nat_beq b protocol_version
    then safe_decode (b ∷ bs)
    else if nat_beq b 0x7b
    then elim (utf8_decode (b ∷ bs)) [ ok s ↦ Semantic.safe_decode parse s | err e ↦ none ]
    else none

-- { valid: true }, or the code of the error
unfoldable pub validate_packet : Bytes → Result MessageError (Unit {0})
validate_packet buf = do message ← decode buf; ok tt

unfoldable pub get_encoded_byte_length : SemanticMessage → ℕ
get_encoded_byte_length message = header_size + utf8_byte_length message.text
