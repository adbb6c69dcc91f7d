-- ===== src/Message/Decode.antt =====
-- What `decode` of src/protocol/BinaryMessageCodec.ts accepts.
use i_tantra.Base.{
  ℕ, ◌≡◌, refl, sym, ap, Bool, true, false, not, [], ◌∷◌, ok, throw_if-eq-ok, ltb, nat_beq, length,
  Text, codes, text_eq, Result-cases, ok-injective, inl, inr, arith,
}
use i_tantra.Base.Int.{pos, ◌+ℤ◌, ltb_ℤ, beq_ℤ}
use i_tantra.Base.Dict
use i_tantra.Bytes.{Bytes, byte_at, read_int32_be, read_uint64_be, slice_to}
use i_tantra.Frame.{contains}
use i_tantra.NodeId.{trim, format}
use i_tantra.Semantic.{SemanticMessage, is_blank}
use i_tantra.Message.Utf8.{utf8_decode}
use i_tantra.Message.Registry.{
  Registry, language_registry, emotion_registry, voice_profile_registry, is_in, valid_codes,
  label_or,
}
use i_tantra.Message.{valid_message_types, validate_semantic_message, decode, text_result}

-- The label of a valid code is registered.
has-label_or :
    (other : Text) (code : ℕ) (registry : Registry)
    → contains (valid_codes registry) code ≡ true
    → Dict.has (label_or other code registry) registry ≡ true
unfolding contains valid_codes label_or Dict.has
has-label_or other code [] h = cc
has-label_or other code ((name, c) ∷ registry) h =
    ground (arith, h, text_eq.equals_iff name name, has-label_or other code registry)

is_in-label_or :
    (other : Text) (code : ℕ) (registry : Registry)
    → contains (valid_codes registry) code ≡ true
    → is_in (label_or other code registry) registry ≡ true
unfolding is_in
is_in-label_or other code registry h = rw (has-label_or other code registry h) refl

is_blank-format : (v : ℕ) → is_blank (format v) ≡ false
unfolding format
is_blank-format v = refl

of_not : (b : Bool) → not b ≡ false → b ≡ true
of_not b h = ground arith

-- Every message that `decode` returns passes the validation of the encoder, so it can be sent on.
pub decode-validate_semantic_message :
    (b : Bytes) (m : SemanticMessage) → decode b ≡ ok m → validate_semantic_message m ≡ ok tt
unfolding decode validate_semantic_message
decode-validate_semantic_message b m e =
    let (e1, r1) = throw_if-eq-ok (ltb (length b) 18) _ _ _ e in
    let (e2, r2) = throw_if-eq-ok (not (nat_beq (byte_at b 0) 2)) _ _ _ r1 in
    let (e3, r3) = throw_if-eq-ok (not (contains valid_message_types (byte_at b 1))) _ _ _ r2 in
    let (e4, r4) =
      throw_if-eq-ok (not (contains (valid_codes language_registry) (byte_at b 2))) _ _ _ r3 in
    let (e5, r5) =
      throw_if-eq-ok (not (contains (valid_codes emotion_registry) (byte_at b 3))) _ _ _ r4 in
    let (e6, r6) =
      throw_if-eq-ok (not (contains (valid_codes voice_profile_registry) (byte_at b 5))) _ _ _ r5 in
    let n = read_int32_be b 14 in
    let (e7, r7) = throw_if-eq-ok (beq_ℤ n (pos 0)) _ _ _ r6 in
    let (e8, r8) = throw_if-eq-ok (ltb_ℤ (pos (length b)) (pos 18 +ℤ n)) _ _ _ r7 in
    elim (Result-cases (text_result (utf8_decode (slice_to 18 (pos 18 +ℤ n) b)))) [
      | inr (x, k) ↦ cc (rw k at r8)
      | inl (text, k) ↦
          let (e9, r9) = throw_if-eq-ok (is_blank (trim text)) _ _ _ (rw k at r8) in
          rw (← ok-injective r9) (
            rw
              (
                is_blank-format (read_uint64_be b 6),
                e9,
                is_in-label_or [] (byte_at b 3) emotion_registry (of_not _ e5),
                is_in-label_or (codes "default") (byte_at b 5) voice_profile_registry (of_not _ e6),
              )
              refl)
    ]

-- The identifier of a message that `decode` returns is the packet's, in its normal form.
pub decode-id :
    (b : Bytes) (m : SemanticMessage) → decode b ≡ ok m → m.message_id ≡ format (read_uint64_be b 6)
unfolding decode
decode-id b m e =
    let (e1, r1) = throw_if-eq-ok (ltb (length b) 18) _ _ _ e in
    let (e2, r2) = throw_if-eq-ok (not (nat_beq (byte_at b 0) 2)) _ _ _ r1 in
    let (e3, r3) = throw_if-eq-ok (not (contains valid_message_types (byte_at b 1))) _ _ _ r2 in
    let (e4, r4) =
      throw_if-eq-ok (not (contains (valid_codes language_registry) (byte_at b 2))) _ _ _ r3 in
    let (e5, r5) =
      throw_if-eq-ok (not (contains (valid_codes emotion_registry) (byte_at b 3))) _ _ _ r4 in
    let (e6, r6) =
      throw_if-eq-ok (not (contains (valid_codes voice_profile_registry) (byte_at b 5))) _ _ _ r5 in
    let n = read_int32_be b 14 in
    let (e7, r7) = throw_if-eq-ok (beq_ℤ n (pos 0)) _ _ _ r6 in
    let (e8, r8) = throw_if-eq-ok (ltb_ℤ (pos (length b)) (pos 18 +ℤ n)) _ _ _ r7 in
    elim (Result-cases (text_result (utf8_decode (slice_to 18 (pos 18 +ℤ n) b)))) [
      | inr (x, k) ↦ cc (rw k at r8)
      | inl (text, k) ↦
          let (e9, r9) = throw_if-eq-ok (is_blank (trim text)) _ _ _ (rw k at r8) in
          sym (ap (λ (x : SemanticMessage). x.message_id) (ok-injective r9))
    ]
