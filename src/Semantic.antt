-- ===== src/Semantic.antt =====
-- Semantic messages and their JSON form: src/semantic/SemanticMessageTypes.ts and
-- SemanticMessageCodec.ts. `JSON.parse` and `JSON.stringify` are parameters of the functions that call
-- them. A number is a fraction, and arithmetic on it is exact; messages are objects, so the tests
-- whether one is have no counterpart.
pub mod RoundTrip
use i_tantra.Base.{
  ℕ, suc, ◌+◌, ◌*◌, Bool, true, false, not, ◌||◌, List, [], ◌∷◌, Option, none, some, Result, ok,
  err, ◌>>=◌, ◌>>◌, throw_if, to_option, ltb, nat_beq, Text, codes, text_eq, any, ◌==◌,
  if◌then◌else◌, zero, ◌/◌, ◌%◌, ◌++◌,
}
use i_tantra.Base.Int.{ℤ, pos, negsuc}
use i_tantra.Base.Dict
use i_tantra.NodeId.{trim, pad_start}

-- num / (den_pred + 1)
pub record Number : Type 0 where
  pub num : ℤ
  pub den_pred : ℕ

abbrev pub whole : ℕ → Number
whole n = record { num = pos n; den_pred = 0 }

abbrev pub is_negative : Number → Bool
is_negative x = elim x.num [ pos n ↦ false | negsuc n ↦ true ]

-- x === n
abbrev pub is_whole : Number → ℕ → Bool
is_whole x n = elim x.num [ pos m ↦ nat_beq m (n * suc x.den_pred) | negsuc m ↦ false ]

-- x > 1
abbrev pub exceeds_one : Number → Bool
exceeds_one x = elim x.num [ pos m ↦ ltb (suc x.den_pred) m | negsuc m ↦ false ]

pub record SemanticMessage : Type 0 where
  pub version : Number
  pub message_id : Text
  pub text : Text
  pub language : Text
  pub emotion : Text
  pub emotion_confidence : Number
  pub voice_profile : Text

abbrev pub supported_version : ℕ
supported_version = 1

abbrev pub valid_emotions : List Text
valid_emotions = codes "neutral" ∷ codes "happy" ∷ codes "sad" ∷ codes "angry" ∷ []

pub data SemanticError : Type 0 where
  invalid_input malformed_json invalid_json_root invalid_version unsupported_version : SemanticError
  missing_message_id empty_text invalid_language invalid_emotion invalid_confidence : SemanticError
  invalid_voice_profile : SemanticError

-- !text
abbrev pub is_blank : Text → Bool
is_blank [] = true
is_blank (c ∷ cs) = false

unfoldable pub validate : SemanticMessage → Result SemanticError (Unit {0})
validate message = do
  throw_if (is_negative message.version) invalid_version
  throw_if (not (is_whole message.version supported_version)) unsupported_version
  throw_if (is_blank message.message_id) missing_message_id
  throw_if (is_blank message.text || is_blank (trim message.text)) empty_text
  throw_if (is_blank message.language) invalid_language
  throw_if (not (any (λ e. e == message.emotion) valid_emotions)) invalid_emotion
  throw_if (is_negative message.emotion_confidence || exceeds_one message.emotion_confidence)
      invalid_confidence
  throw_if (is_blank message.voice_profile) invalid_voice_profile
  ok tt

unfoldable pub encode : (SemanticMessage → Text) → SemanticMessage → Result SemanticError Text
encode stringify message = do validate message; ok (stringify message)

-- What `typeof` tells apart in a field.
pub data Field : Type 0 where
  number : Number → Field
  string : Text → Field
  other : Field

-- The root that `JSON.parse` returns: an object by its fields, or something else.
pub data Parsed : Type 0 where
  not_object : Parsed
  object : List (Text × Field) → Parsed

abbrev pub string_or_empty : Option Field → Text
string_or_empty (some (string s)) = s
string_or_empty (some (number x)) = []
string_or_empty (some other) = []
string_or_empty none = []

abbrev pub number_or_minus_one : Option Field → Number
number_or_minus_one (some (number x)) = x
number_or_minus_one (some (string s)) = record { num = negsuc 0; den_pred = 0 }
number_or_minus_one (some other) = record { num = negsuc 0; den_pred = 0 }
number_or_minus_one none = record { num = negsuc 0; den_pred = 0 }

unfoldable pub message_of : List (Text × Field) → SemanticMessage
message_of obj = record {
  version = number_or_minus_one (Dict.lookup (codes "version") obj);
  message_id = string_or_empty (Dict.lookup (codes "messageId") obj);
  text = string_or_empty (Dict.lookup (codes "text") obj);
  language = string_or_empty (Dict.lookup (codes "language") obj);
  emotion = string_or_empty (Dict.lookup (codes "emotion") obj);
  emotion_confidence = number_or_minus_one (Dict.lookup (codes "emotionConfidence") obj);
  voice_profile = string_or_empty (Dict.lookup (codes "voiceProfile") obj);
}

-- `none` is an exception of `JSON.parse`.
unfoldable pub decode_parsed : Option Parsed → Result SemanticError SemanticMessage
unfolding message_of
decode_parsed none = err malformed_json
decode_parsed (some not_object) = err invalid_json_root
decode_parsed (some (object obj)) = do validate (message_of obj); ok (message_of obj)

unfoldable pub decode : (Text → Option Parsed) → Text → Result SemanticError SemanticMessage
unfolding decode_parsed
decode parse serialized = do
  throw_if (is_blank serialized) invalid_input
  decode_parsed (parse serialized)

unfoldable pub safe_decode : (Text → Option Parsed) → Text → Option SemanticMessage
safe_decode parse serialized = to_option (decode parse serialized)

-- The length that is counted by code units: one of a surrogate pair counts three.
unfoldable pub json_byte_length : Text → ℕ
json_byte_length [] = 0
json_byte_length (c ∷ cs) =
    let rest = json_byte_length cs in
    if ltb c 0x80
    then 1 + rest
    else if ltb c 0x800
    then 2 + rest
    else if ltb c 0x10000
    then 3 + rest
    else 4 + rest

unfoldable pub get_encoded_byte_length : (SemanticMessage → Text) → SemanticMessage → ℕ
unfolding json_byte_length
get_encoded_byte_length stringify message = json_byte_length (stringify message)

-- n.toString(36), at most `fuel` digits put before `acc`; 12 rounds are enough for a number below 36 ^ 12.
unfoldable pub base36_loop : ℕ → ℕ → Text → Text
base36_loop zero n acc = acc
base36_loop (suc fuel) n acc =
    let digit = if ltb (n % 36) 10 then 48 + n % 36 else 87 + n % 36 in
    let rest = base36_loop fuel (n / 36) (digit ∷ acc) in
    if nat_beq (n / 36) 0 then digit ∷ acc else rest

-- The counter moved on, and the identifier. `random` is the text of the random digits.
unfoldable pub generate_message_id : ℕ → Text → ℕ → ℕ × Text
unfolding base36_loop
generate_message_id now random counter = (
  counter + 1,
  codes "msg_"
      ++ base36_loop 12 now []
      ++ codes "_"
      ++ random
      ++ codes "_"
      ++ pad_start 2 48 (base36_loop 12 counter []),
)

pub record Overrides : Type 0 where
  pub language : Option Text
  pub emotion : Option Text
  pub emotion_confidence : Option Number
  pub voice_profile : Option Text

-- x ?? other
abbrev pub given_or : {A : Type 0} → Option A → A → A
given_or (some x) default_value = x
given_or none default_value = default_value

-- The identifier is the one generated.
unfoldable pub create_semantic_message : Text → Text → Overrides → SemanticMessage
create_semantic_message message_id text overrides = record {
  version = whole supported_version;
  message_id = message_id;
  text = text;
  language = given_or overrides.language (codes "en");
  emotion = given_or overrides.emotion (codes "neutral");
  emotion_confidence = given_or overrides.emotion_confidence (whole 0);
  voice_profile = given_or overrides.voice_profile (codes "default");
}

abbrev pub language_display_names : List (Text × Text)
language_display_names =
    (codes "en", codes "English")
    ∷ (codes "hi", codes "Hindi")
    ∷ (codes "bn", codes "Bengali")
    ∷ (codes "gu", codes "Gujarati")
    ∷ (codes "mr", codes "Marathi")
    ∷ (codes "kn", codes "Kannada")
    ∷ (codes "ml", codes "Malayalam")
    ∷ (codes "ta", codes "Tamil")
    ∷ (codes "te", codes "Telugu")
    ∷ (codes "or", codes "Odia")
    ∷ []

unfoldable pub get_language_display_name : Text → Text
get_language_display_name code = given_or (Dict.lookup code language_display_names) code
