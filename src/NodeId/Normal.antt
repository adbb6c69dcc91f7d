-- ===== src/NodeId/Normal.antt =====
-- Lemmas on `normalize_id`, for src/BITCHAT/core/BitChatPacket.ts.
use i_tantra.Base.{
  ltb-false, ℕ, ◌/◌, ◌%◌, ◌^◌, ◌<◌, ◌≡◌, refl, true, false, [], ◌∷◌, ◌++◌, ok, throw_if-eq-ok,
  Result-cases, le_of_ltb, ltb-false, ltb, inl, inr, length, Text, arith,
}
use mathlib.Core.List.{reverse-append, reverse-reverse}
use i_tantra.Base.Int.{pos}
use i_tantra.NodeId.{
  normalize_uint64, parse_input, big, hex_digit, format, is_lower_hex, is_hex, is_space, trim, all,
  matches_hex, is_valid_id, normalize_id, str, exceeds_maximum, parse_input, parse_trimmed,
}
use i_tantra.NodeId.Hex.{
  fixed_hex, length-fixed_hex, all-fixed_hex, format-fixed_hex, value-format, is_valid_id-format,
}

not_space : (c : ℕ) → is_lower_hex c ≡ true → is_space c ≡ false
unfolding is_lower_hex is_space
not_space c h = ground arith

hex_of_lower : (c : ℕ) → is_lower_hex c ≡ true → is_hex c ≡ true
unfolding is_hex is_lower_hex
hex_of_lower c h = ground arith

pub all-hex_of_lower : (s : Text) → all is_lower_hex s ≡ true → all is_hex s ≡ true
unfolding all
all-hex_of_lower [] h = refl
all-hex_of_lower (c ∷ s) h = ground (arith, hex_of_lower c, all-hex_of_lower s)

-- A text whose first and last characters are no spaces is left alone by `trim`.
trim_keep :
    (c d : ℕ) (s : Text)
    → is_space c ≡ false
    → is_space d ≡ false
    → trim (c ∷ s ++ d ∷ []) ≡ c ∷ s ++ d ∷ []
unfolding trim
trim_keep c d s hc hd =
    let whole : Text = c ∷ s ++ d ∷ [] in
    rw hc (
      rw (reverse-append (c ∷ s) (d ∷ []), hd)
        (rw (← reverse-append (c ∷ s) (d ∷ [])) (reverse-reverse whole)))

digit_lower : (v : ℕ) → is_lower_hex (hex_digit (v % 16)) ≡ true
unfolding is_lower_hex hex_digit
digit_lower v = ground arith

pub trim-format : (v : ℕ) → v < 2 ^ 64 → trim (format v) ≡ format v
trim-format v h = rw (format-fixed_hex v h) (
    unfold fixed_hex in
    trim_keep 48 (hex_digit (v % 16)) (120 ∷ fixed_hex 15 (v / 16)) (unfold is_space in refl)
      (not_space _ (digit_lower v)))

matches_hex-format : (v : ℕ) → v < 2 ^ 64 → matches_hex (format v) ≡ true
matches_hex-format v h =
    rw (format-fixed_hex v h) (go (fixed_hex 16 v) (length-fixed_hex 16 v) (all-fixed_hex 16 v))
  where
    go : (s : Text) → length s ≡ 16 → all is_lower_hex s ≡ true → matches_hex (48 ∷ 120 ∷ s) ≡ true
    go [] e a = absurd (omega arith)
    go (c ∷ s) e a = unfold matches_hex in all-hex_of_lower (c ∷ s) a

pub normalize_uint64-lt : (v : ℕ) → v < 2 ^ 64 → normalize_uint64 (big (pos v)) ≡ ok (format v)
unfolding normalize_uint64 parse_input format
normalize_uint64-lt v h = rw (ltb-false 18446744073709551615 v (omega arith)) refl

-- An identifier made from a 64-bit number is its own normal form.
pub normalize_id-format : (v : ℕ) → v < 2 ^ 64 → normalize_id (format v) ≡ ok (format v)
unfolding normalize_id parse_input parse_trimmed
normalize_id-format v h =
    rw (trim-format v h, matches_hex-format v h, value-format v h)
      (rw (ltb-false 18446744073709551615 v (omega arith)))

-- What `normalize_id` returns is the identifier of a 64-bit number.
pub normalize_id-eq-ok :
    (s t : Text) → normalize_id s ≡ ok t → (v : ℕ) × (v < 2 ^ 64) × (t ≡ format v)
unfolding normalize_id
normalize_id-eq-ok s t e = elim (Result-cases (parse_input (str s))) [
  | inr (x, p) ↦ cc
  | inl (v, p) ↦
      let (small, r) =
        throw_if-eq-ok (ltb 18446744073709551615 v) exceeds_maximum (ok (format v)) t (rw p at e) in
      (v, omega (arith, le_of_ltb 18446744073709551615 v small), cc)
]

-- Normalising an identifier that was normalised changes nothing: whatever text the identifier came
-- from, the result is a valid identifier and a fixed point.
pub normalize_id_idem :
    (s t : Text) → normalize_id s ≡ ok t → (is_valid_id t ≡ true) × (normalize_id t ≡ ok t)
normalize_id_idem s t e =
    let (v, h, p) = normalize_id-eq-ok s t e in
    rw p (is_valid_id-format v h, normalize_id-format v h)
