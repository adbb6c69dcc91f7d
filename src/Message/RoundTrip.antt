-- ===== src/Message/RoundTrip.antt =====
-- Round trip of src/protocol/BinaryMessageCodec.ts.
use i_tantra.Base.{
  ℕ, ◌+◌, ◌-◌, ◌/◌, ◌%◌, ◌^◌, ◌≤◌, ◌<◌, ◌≡◌, ◌↔◌, refl, sym, ap, ◌∙◌, true, false, [], ◌∷◌, ok,
  ◌>>=◌, throw_if-eq-ok, ltb, ltb-false, le_of_ltb, length, take_all, overwrite_all, Text, codes,
  Result-cases, text_eq, ok-injective, inl, inr, arith,
}
use i_tantra.Base.Int.{pos, signed32_small, pos-+ℤ, ltb_ℤ-pos, beq_ℤ}
use i_tantra.Base.Dict
use i_tantra.Bytes.{Bytes, write_uint64_be, read_uint64_be}
use i_tantra.Bytes.Laws.{mod-mod_byte, zeros-add, uint32_bytes, uint64_bytes}
use i_tantra.Frame.{contains}
use i_tantra.NodeId.{trim, format}
use i_tantra.Semantic.{whole, SemanticMessage, is_blank}
use i_tantra.Message.Utf8.{pair_point, utf8_encode, utf8_byte_length}
use i_tantra.Message.Utf8.RoundTrip.{
  IsUnits, utf8_decode-utf8_encode, utf8_byte_length-utf8_encode, point_length-pos,
}
use i_tantra.Message.Registry.{
  language_registry, emotion_registry, voice_profile_registry, wire_code, valid_codes, label_or,
}
use i_tantra.Message.Registry.Codes.{
  wire_code-valid_codes, label_or-wire_code, language_code-lt, emotion_code-lt, voice_code-lt,
  languages-zero, emotions-zero, voices-zero, languages-HasDistinctCodes, emotions-HasDistinctCodes,
  voices-HasDistinctCodes,
}
use i_tantra.Message.{
  valid_message_types, hash_message_id, confidence_byte, build_packet, validate_semantic_message,
  encode, encode_unrestricted, confidence_of_byte, decode, get_encoded_byte_length,
}
use i_tantra.Message.Bounds.{hash_message_id-lt, confidence_byte-lt}

-- A packet laid out byte by byte.
abbrev pub layout : ℕ → ℕ → ℕ → ℕ → ℕ → ℕ → Bytes → Bytes
layout l e c v id n text =
    2
    ∷ 1
    ∷ (l % 256)
    ∷ (e % 256)
    ∷ (c % 256)
    ∷ (v % 256)
    ∷ (id / 2 ^ 56 % 256 % 256)
    ∷ (id / 2 ^ 48 % 256 % 256)
    ∷ (id / 2 ^ 40 % 256 % 256)
    ∷ (id / 2 ^ 32 % 256 % 256)
    ∷ (id / 2 ^ 24 % 256 % 256)
    ∷ (id / 2 ^ 16 % 256 % 256)
    ∷ (id / 2 ^ 8 % 256 % 256)
    ∷ (id / 2 ^ 0 % 256 % 256)
    ∷ (n / 2 ^ 24 % 256)
    ∷ (n / 2 ^ 16 % 256)
    ∷ (n / 2 ^ 8 % 256)
    ∷ (n % 256)
    ∷ text

-- The layout of a message.
abbrev pub layout_of : SemanticMessage → Bytes
layout_of m =
    layout (wire_code m.language language_registry) (wire_code m.emotion emotion_registry)
      (confidence_byte m.emotion_confidence) (wire_code m.voice_profile voice_profile_registry)
      (hash_message_id m.message_id) (length (utf8_encode m.text)) (utf8_encode m.text)

pub build_packet-layout : (m : SemanticMessage) → build_packet m ≡ layout_of m
unfolding build_packet write_uint64_be
build_packet-layout m =
    rw (zeros-add 18 (length (utf8_encode m.text)))
      (rw (overwrite_all (utf8_encode m.text) 0) (simp mod-mod_byte))

text_type : contains valid_message_types 1 ≡ true
unfolding contains
text_type = refl

add_sub_cancel : (n : ℕ) → 18 + n - 18 ≡ n
add_sub_cancel n = omega arith

beq_ℤ-pos : (n : ℕ) → 0 < n → beq_ℤ (pos n) (pos 0) ≡ false
unfolding beq_ℤ
beq_ℤ-pos n h = ground arith

-- What a receiver makes of the layout.
abbrev pub received : ℕ → ℕ → ℕ → ℕ → ℕ → Text → SemanticMessage
received l e c v id text = record {
  version = whole 2;
  message_id = format id;
  text = text;
  language = label_or (codes "unknown") l language_registry;
  emotion = label_or [] e emotion_registry;
  emotion_confidence = confidence_of_byte c;
  voice_profile = label_or (codes "default") v voice_profile_registry;
}

module _ (l e c v id : ℕ) (text : Text) (hl : contains (valid_codes language_registry) l ≡ true)
    (he : contains (valid_codes emotion_registry) e ≡ true) (hc : c < 256)
    (hv : contains (valid_codes voice_profile_registry) v ≡ true) (hid : id < 2 ^ 64)
    (ht : IsUnits text) (hb : is_blank (trim text) ≡ false) (hp : 0 < length (utf8_encode text))
    (hn : length (utf8_encode text) < 2 ^ 31) where
  decode-layout :
      decode (layout l e c v id (length (utf8_encode text)) (utf8_encode text))
      ≡ ok (received l e c v id text)
  unfolding decode read_uint64_be
  decode-layout =
      let n = length (utf8_encode text) in
      let same_l : l % 256 ≡ l = omega (arith, language_code-lt l hl) in
      let same_e : e % 256 ≡ e = omega (arith, emotion_code-lt e he) in
      let same_c : c % 256 ≡ c = omega arith in
      let same_v : v % 256 ≡ v = omega (arith, voice_code-lt v hv) in
      let size = length (layout l e c v id n (utf8_encode text)) in
      rw (same_l, same_e, same_c, same_v, hl, he, hv, text_type)
        (rw (uint32_bytes n (omega arith), uint64_bytes id hid)
          (rw (signed32_small n hn, pos-+ℤ, ltb_ℤ-pos, beq_ℤ-pos n hp)
            (rw
              (
                ltb-false size 18 (omega arith),
                ltb-false size (18 + n) (omega arith),
                add_sub_cancel n,
                take_all (utf8_encode text),
                utf8_decode-utf8_encode text ht,
              )
              (rw hb refl))))

length-pos-trim : (s : Text) → is_blank (trim s) ≡ false → 0 < length (utf8_encode s)
unfolding trim
length-pos-trim [] h = cc
length-pos-trim (c ∷ []) h =
    unfold utf8_byte_length in
    omega (arith, utf8_byte_length-utf8_encode (c ∷ []), point_length-pos c)
length-pos-trim (c ∷ d ∷ cs) h =
    unfold utf8_byte_length in
    ground (
      arith,
      utf8_byte_length-utf8_encode (c ∷ d ∷ cs),
      point_length-pos c,
      point_length-pos (pair_point c d),
    )

-- What the validation says of a message that it takes.
pub validated :
    (m : SemanticMessage) → validate_semantic_message m ≡ ok tt → is_blank (trim m.text) ≡ false
unfolding validate_semantic_message
validated m e =
    let (e1, r1) = throw_if-eq-ok (is_blank m.message_id) _ _ _ e in
    let (e2, r2) = throw_if-eq-ok (is_blank (trim m.text)) _ _ _ r1 in e2

-- What a receiver makes of the packet of a message.
abbrev pub received_of : SemanticMessage → SemanticMessage
received_of m =
    received (wire_code m.language language_registry) (wire_code m.emotion emotion_registry)
      (confidence_byte m.emotion_confidence) (wire_code m.voice_profile voice_profile_registry)
      (hash_message_id m.message_id) m.text

pub decode-build_packet :
    (m : SemanticMessage)
    → is_blank (trim m.text) ≡ false
    → IsUnits m.text
    → get_encoded_byte_length m < 2 ^ 31
    → decode (build_packet m) ≡ ok (received_of m)
unfolding get_encoded_byte_length
decode-build_packet m h u n = rw (build_packet-layout m) (
    decode-layout _ _ _ _ _ m.text
      (wire_code-valid_codes m.language language_registry languages-zero)
      (wire_code-valid_codes m.emotion emotion_registry emotions-zero)
      (confidence_byte-lt m.emotion_confidence)
      (wire_code-valid_codes m.voice_profile voice_profile_registry voices-zero)
      (hash_message_id-lt m.message_id) u h (length-pos-trim m.text h)
      (omega (arith, utf8_byte_length-utf8_encode m.text)))

pub length-build_packet :
    (m : SemanticMessage) → length (build_packet m) ≡ get_encoded_byte_length m
unfolding get_encoded_byte_length
length-build_packet m =
    rw (build_packet-layout m) (omega (arith, utf8_byte_length-utf8_encode m.text))

-- A valid message whose text is made of code units, whose language, emotion and voice profile are
-- registered, and whose packet is shorter than 2 ^ 31 bytes, is encoded by `encode_unrestricted` and
-- decoded with its text, its language, its emotion and its voice profile; the version is 2, the
-- identifier is the hash of the message's, and the confidence that of its byte.
pub decode-encode_unrestricted :
    (m : SemanticMessage)
    → validate_semantic_message m ≡ ok tt
    → IsUnits m.text
    → Dict.has m.language language_registry ≡ true
    → Dict.has m.emotion emotion_registry ≡ true
    → Dict.has m.voice_profile voice_profile_registry ≡ true
    → get_encoded_byte_length m < 2 ^ 31
    → (encode_unrestricted m >>= decode)
      ≡ ok (record {
        version = whole 2;
        message_id = format (hash_message_id m.message_id);
        text = m.text;
        language = m.language;
        emotion = m.emotion;
        emotion_confidence = confidence_of_byte (confidence_byte m.emotion_confidence);
        voice_profile = m.voice_profile;
      })
unfolding encode_unrestricted
decode-encode_unrestricted m v u l e p n =
    rw (v, decode-build_packet m (validated m v) u n)
      (rw
        (
          label_or-wire_code (codes "unknown") m.language language_registry
              languages-HasDistinctCodes l,
          label_or-wire_code [] m.emotion emotion_registry emotions-HasDistinctCodes e,
          label_or-wire_code (codes "default") m.voice_profile voice_profile_registry
              voices-HasDistinctCodes p,
        )
        refl)

-- `encode` returns a packet exactly for a valid message whose length, counted without encoding, is 509
-- bytes at most, and then it is the packet of `encode_unrestricted`, of that length.
pub encode-eq-ok_iff :
    (m : SemanticMessage) (b : Bytes)
    → (encode m ≡ ok b) ↔ (
        (encode_unrestricted m ≡ ok b)
        × (length b ≡ get_encoded_byte_length m)
        × (get_encoded_byte_length m ≤ 509))
unfolding encode encode_unrestricted
encode-eq-ok_iff m b = elim (Result-cases (validate_semantic_message m)) [
  | inr (x, k) ↦ rw k (λ e. cc, λ (e, _, _). cc)
  | inl (u, k) ↦ rw k (
    λ e.
        let (small, same) = throw_if-eq-ok (ltb 509 (length (build_packet m))) _ _ _ e in
        let here = ok-injective same in
        (
          same,
          ap length (sym here) ∙ length-build_packet m,
          omega (arith, le_of_ltb _ _ small, length-build_packet m),
        ),
    λ (same, _, small).
        rw (ltb-false 509 (length (build_packet m)) (omega (arith, length-build_packet m))) same,
  )
]
