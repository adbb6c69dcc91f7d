-- ===== src/Chat/Service/Laws.antt =====
-- The payloads and identifiers of src/messages/ChatMessageService.ts.
use i_tantra.Base.{
  ℕ, suc, ◌^◌, ◌<◌, ◌≡◌, refl, ◌∙◌, true, false, [], ◌∷◌, some, ok, length, overwrite_all, leb,
  Text, arith,
}
use i_tantra.Base.Int.{pos}
use i_tantra.Bytes.{Bytes}
use i_tantra.Bytes.Laws.{zeros-add}
use i_tantra.NodeId.{format, all, is_hex, value}
use i_tantra.NodeId.Hex.{
  format-fixed_hex, fixed_hex, all-fixed_hex, value-fixed_hex, length-fixed_hex,
}
use i_tantra.NodeId.Normal.{normalize_uint64-lt, trim-format, all-hex_of_lower}
use i_tantra.Message.{hash_message_id}
use i_tantra.Message.Bounds.{hash_message_id-lt}
use i_tantra.Chat.Service.{
  encode_chat_application_payload, decode_chat_application_payload, has_magic, chat_header_size,
  compact_message_id,
}
use i_tantra.Chat.Service.Integers.{big_int, integer_literal, digits}

pub encode_chat_application_payload-layout :
    (p : Bytes) → encode_chat_application_payload p ≡ 0x49 ∷ 0x54 ∷ 0x43 ∷ 0x01 ∷ p
unfolding encode_chat_application_payload
encode_chat_application_payload-layout p = rw (zeros-add 4 (length p)) (rw (overwrite_all p 0) refl)

-- A payload that is not empty is wrapped and found again.
pub decode-encode_chat_application_payload :
    (p : Bytes)
    → 0 < length p
    → decode_chat_application_payload (encode_chat_application_payload p) ≡ some p
unfolding decode_chat_application_payload has_magic
decode-encode_chat_application_payload p h =
    let size : chat_header_size ≡ 4 = refl in
    let long : leb (suc (suc (suc (suc (length p))))) chat_header_size ≡ false =
      rw size (ground arith) in
    rw (encode_chat_application_payload-layout p) (rw long refl)

pub compact_message_id-hash : (s : Text) → compact_message_id s ≡ ok (format (hash_message_id s))
unfolding compact_message_id
compact_message_id-hash s = normalize_uint64-lt (hash_message_id s) (hash_message_id-lt s)

digits_hex :
    (s : Text) → 0 < length s → all is_hex s ≡ true → digits is_hex 16 s ≡ some (pos (value 16 0 s))
unfolding digits
digits_hex [] h a = absurd (omega arith)
digits_hex (c ∷ cs) h a = rw a refl

pub big_int-format : (v : ℕ) → v < 2 ^ 64 → big_int (format v) ≡ some (pos v)
unfolding big_int integer_literal
big_int-format v h =
    rw (trim-format v h, format-fixed_hex v h)
      (digits_hex (fixed_hex 16 v) (omega (arith, length-fixed_hex 16 v))
          (all-hex_of_lower (fixed_hex 16 v) (all-fixed_hex 16 v))
        ∙ rw (value-fixed_hex 16 v h) refl)
