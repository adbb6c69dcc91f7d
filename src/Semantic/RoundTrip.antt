-- ===== src/Semantic/RoundTrip.antt =====
-- Round trip of src/semantic/SemanticMessageCodec.ts.
use i_tantra.Base.{
  ◌≡◌, refl, false, List, [], ◌∷◌, Option, none, some, ok, ◌>>=◌, throw_if-eq-ok, Result-cases,
  ok-injective, Text, codes, text_eq, inl, inr,
}
use i_tantra.Base.Dict
use i_tantra.Semantic.{
  SemanticMessage, validate, encode, Field, number, string, Parsed, not_object, object, message_of,
  decode_parsed, decode, is_blank,
}

-- The object of a message, as `JSON.stringify` writes its fields.
abbrev pub fields_of : SemanticMessage → List (Text × Field)
fields_of m =
    (codes "version", number m.version)
    ∷ (codes "messageId", string m.message_id)
    ∷ (codes "text", string m.text)
    ∷ (codes "language", string m.language)
    ∷ (codes "emotion", string m.emotion)
    ∷ (codes "emotionConfidence", number m.emotion_confidence)
    ∷ (codes "voiceProfile", string m.voice_profile)
    ∷ []

message_of-fields_of : (m : SemanticMessage) → message_of (fields_of m) ≡ m
unfolding message_of Dict.lookup
message_of-fields_of m = refl

-- Of what `decode` accepts every field is valid.
pub decode-validate :
    (parse : Text → Option Parsed) (s : Text) (m : SemanticMessage)
    → decode parse s ≡ ok m
    → validate m ≡ ok tt
unfolding decode decode_parsed
decode-validate parse s m e =
    let (e1, r) = throw_if-eq-ok (is_blank s) _ _ _ e in accepted (parse s) r
  where
    accepted : (p : Option Parsed) → decode_parsed p ≡ ok m → validate m ≡ ok tt
    accepted none r = cc
    accepted (some not_object) r = cc
    accepted (some (object obj)) r = elim (Result-cases (validate (message_of obj))) [
      | inl (u, k) ↦ rw (← ok-injective (rw k at r)) k
      | inr (x, k) ↦ cc (rw k at r)
    ]

-- If `JSON.parse` reads back the fields that `JSON.stringify` writes, into a text that is not empty,
-- then every message is either refused by `encode` or, encoded and decoded, the same message.
pub decode-encode_message :
    (stringify : SemanticMessage → Text) (parse : Text → Option Parsed) (m : SemanticMessage)
    → is_blank (stringify m) ≡ false
    → parse (stringify m) ≡ some (object (fields_of m))
    → (encode stringify m >>= decode parse) ≡ (validate m >>= λ u. ok m)
unfolding encode decode decode_parsed
decode-encode_message stringify parse m b h = elim (Result-cases (validate m)) [
  | inl (u, k) ↦ rw (k, b, h) (rw (message_of-fields_of m, k) refl)
  | inr (x, k) ↦ rw k refl
]
