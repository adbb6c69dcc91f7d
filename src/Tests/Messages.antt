-- ===== src/Tests/Messages.antt =====
-- Messages and their codecs at concrete inputs.
use i_tantra.Base.{
  ℕ, ◌^◌, ◌<◌, ◌≡◌, ◌≢◌, refl, true, false, [], ◌∷◌, Option, some, ok, err, ◌>>=◌, Text, codes,
  text_eq, arith,
}
use i_tantra.Base.Dict
use i_tantra.Bytes.{Bytes}
use i_tantra.NodeId.{format, trim, is_space}
use i_tantra.Base.Int.{pos}
use i_tantra.Semantic.{Number, whole, SemanticMessage, Parsed, object}
use i_tantra.Semantic
use i_tantra.Semantic.RoundTrip.{fields_of}
use i_tantra.Message
use i_tantra.Message.{
  validate_semantic_message, encode_unrestricted, hash_message_id, confidence_byte,
  confidence_of_byte, get_encoded_byte_length,
}
use i_tantra.Message.Registry.{language_registry, emotion_registry, voice_profile_registry, is_in}
use i_tantra.Message.RoundTrip.{decode-encode_unrestricted, received_of, decode-build_packet}
use i_tantra.Message.Decode.{decode-validate_semantic_message}
use i_tantra.Message.Utf8.{
  utf8_byte_length, utf8_encode, utf8_decode, out_of_fuel, is_high_surrogate,
}
use i_tantra.Message.Utf8.RoundTrip.{utf8_decode-utf8_encode}
use i_tantra.Message.Utf8.Total.{utf8_decode-fueled, utf8_decode_beyond}

-- "hi", in English, happy with confidence 1/2.
abbrev greeting : SemanticMessage
greeting = record {
  version = whole 1;
  message_id = codes "m1";
  text = codes "hi";
  language = codes "en";
  emotion = codes "happy";
  emotion_confidence = record { num = pos 1; den_pred = 1 };
  voice_profile = codes "default";
}

greeting_valid : validate_semantic_message greeting ≡ ok tt
unfolding validate_semantic_message is_in Dict.has trim is_space
greeting_valid = refl

greeting_text : Semantic.is_blank (trim (codes "hi")) ≡ false
unfolding trim is_space
greeting_text = refl

english : Dict.has (codes "en") language_registry ≡ true
unfolding Dict.has
english = refl

happy : Dict.has (codes "happy") emotion_registry ≡ true
unfolding Dict.has
happy = refl

default_voice : Dict.has (codes "default") voice_profile_registry ≡ true
unfolding Dict.has
default_voice = refl

greeting_short : get_encoded_byte_length greeting < 2 ^ 31
unfolding get_encoded_byte_length utf8_byte_length
greeting_short = omega arith

decode-encode_unrestricted_example :
    (encode_unrestricted greeting >>= Message.decode)
    ≡ ok (record {
      version = whole 2;
      message_id = format (hash_message_id (codes "m1"));
      text = codes "hi";
      language = codes "en";
      emotion = codes "happy";
      emotion_confidence =
          confidence_of_byte (confidence_byte (record { num = pos 1; den_pred = 1 }));
      voice_profile = codes "default";
    })
decode-encode_unrestricted_example =
    decode-encode_unrestricted greeting greeting_valid (omega arith, (omega arith, tt)) english
      happy default_voice greeting_short

abbrev greeting_packet : Bytes
greeting_packet = Message.build_packet greeting

decode-validate_semantic_message_example : validate_semantic_message (received_of greeting) ≡ ok tt
decode-validate_semantic_message_example =
    decode-validate_semantic_message (Message.build_packet greeting) (received_of greeting)
      (decode-build_packet greeting greeting_text (omega arith, (omega arith, tt)) greeting_short)

utf8_decode-utf8_encode_example :
    utf8_decode (utf8_encode (0xd83d ∷ 0xde00 ∷ 0x939 ∷ [])) ≡ ok (0xd83d ∷ 0xde00 ∷ 0x939 ∷ [])
utf8_decode-utf8_encode_example =
    utf8_decode-utf8_encode (0xd83d ∷ 0xde00 ∷ 0x939 ∷ [])
      (omega arith, (omega arith, (omega arith, tt)))

utf8_decode-fueled_example : utf8_decode (0xe0 ∷ 0xa4 ∷ []) ≢ err out_of_fuel
utf8_decode-fueled_example = utf8_decode-fueled (0xe0 ∷ 0xa4 ∷ [])

utf8_decode_beyond_example :
    (u : ℕ) × (v : ℕ) × (utf8_decode (0xf4 ∷ 0x90 ∷ 0x80 ∷ 0x80 ∷ []) ≡ ok (u ∷ v ∷ []))
    × (is_high_surrogate u ≡ false)
utf8_decode_beyond_example =
    utf8_decode_beyond 4 16 0 0 (omega arith) (omega arith) (omega arith) (omega arith)
      (omega arith)

-- A message and the text that stands for it.
abbrev stringify : SemanticMessage → Text
stringify m = 123 ∷ []

abbrev parse : Text → Option Parsed
parse s = some (object (fields_of greeting))
