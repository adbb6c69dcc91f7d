-- ===== src/Message/Utf8/RoundTrip.antt =====
-- Round trip of the UTF-8 helpers of src/protocol/BinaryMessageCodec.ts.
use i_tantra.Base.{
  ℕ, zero, suc, ◌≤◌, ◌<◌, ◌≡◌, ◌≢◌, refl, sym, ap, ◌∙◌, true, ◌&&◌, [], ◌∷◌, ◌++◌, ok, length,
  length-append, Text, All, Bool-cases, inl, inr, arith,
}
use i_tantra.Bytes.{Bytes, IsBytes}
use i_tantra.Message.Utf8.{
  is_high_surrogate, is_low_surrogate, pair_point, encode_point, utf8_encode, point_length,
  utf8_byte_length, start_byte, continuation, is_overlong, point_units, read_point, decode_loop,
  utf8_decode,
}

-- A text of UTF-16 code units.
abbrev pub IsUnits : Text → Type 0
IsUnits = All (λ c. c < 65536)

-- The bytes of a code point are read back, whatever follows.
read_point-encode_point :
    (c : ℕ) (rest : Bytes) → c < 0x110000 → read_point (encode_point c ++ rest) ≡ ok (c, rest)
unfolding read_point encode_point start_byte continuation is_overlong
read_point-encode_point c rest h = ground arith

point_units-small : (c : ℕ) → c < 65536 → point_units c ≡ c ∷ []
unfolding point_units
point_units-small c h = ground arith

point_units-pair :
    (c d : ℕ)
    → (is_high_surrogate c && is_low_surrogate d) ≡ true
    → (pair_point c d < 0x110000) × (point_units (pair_point c d) ≡ c ∷ d ∷ [])
unfolding point_units
point_units-pair c d h = (ground arith, ground arith)

length-encode_point : (c : ℕ) → length (encode_point c) ≡ point_length c
unfolding encode_point point_length
length-encode_point c = ground arith

pub point_length-pos : (c : ℕ) → 0 < point_length c
unfolding point_length
point_length-pos c = ground arith

read_point_nil : (c : ℕ) (rest : Bytes) → read_point [] ≢ ok (c, rest)
unfolding read_point
read_point_nil c rest e = cc

decode_step :
    (f c : ℕ) (bs rest : Bytes) (u : Text)
    → read_point bs ≡ ok (c, rest)
    → decode_loop f rest ≡ ok u
    → decode_loop (suc f) bs ≡ ok (point_units c ++ u)
unfolding decode_loop
decode_step f c [] rest u h k = absurd (read_point_nil c rest h)
decode_step f c (b ∷ bs) rest u h k = rw (h, k) refl

-- One code point in front of bytes that are decoded.
prefix_decoded :
    (c fuel : ℕ) (rest : Bytes) (u : Text)
    → c < 0x110000
    → length (encode_point c ++ rest) ≤ fuel
    → ((f : ℕ) → length rest ≤ f → decode_loop f rest ≡ ok u)
    → decode_loop fuel (encode_point c ++ rest) ≡ ok (point_units c ++ u)
prefix_decoded c zero rest u h l k =
    absurd (
      omega (arith, length-append (encode_point c) rest, length-encode_point c, point_length-pos c))
prefix_decoded c (suc f) rest u h l k =
    decode_step f c (encode_point c ++ rest) rest u (read_point-encode_point c rest h) (
      k f (
        omega
          (arith, length-append (encode_point c) rest, length-encode_point c, point_length-pos c)))

append_nil : (xs : Bytes) → xs ++ [] ≡ xs
append_nil [] = refl
append_nil (x ∷ xs) = ap (◌∷◌ x) (append_nil xs)

decode_loop-utf8_encode :
    (s : Text) (fuel : ℕ)
    → IsUnits s
    → length (utf8_encode s) ≤ fuel
    → decode_loop fuel (utf8_encode s) ≡ ok s
unfolding utf8_encode
decode_loop-utf8_encode [] fuel u l = unfold decode_loop in refl
decode_loop-utf8_encode (c ∷ []) fuel (hc, u) l = rw (← append_nil (encode_point c)) (
    prefix_decoded c fuel [] [] (omega arith) (rw (append_nil (encode_point c)) l)
      (λ f h. unfold decode_loop in refl)
    ∙ rw (point_units-small c hc) refl)
decode_loop-utf8_encode (c ∷ d ∷ cs) fuel (hc, (hd, u)) l =
    elim (Bool-cases (is_high_surrogate c && is_low_surrogate d)) [
      | inl t ↦
          let (small, units) = point_units-pair c d t in
          rw t (
            prefix_decoded (pair_point c d) fuel (utf8_encode cs) cs small (rw t at l)
              (λ f h. decode_loop-utf8_encode cs f u h)
            ∙ rw units refl)
      | inr n ↦ rw n (
          prefix_decoded c fuel (utf8_encode (d ∷ cs)) (d ∷ cs) (omega arith) (rw n at l)
            (λ f h. decode_loop-utf8_encode (d ∷ cs) f (hd, u) h)
          ∙ rw (point_units-small c hc) refl)
    ]

-- Every text, unpaired surrogates included, is read back from its UTF-8 bytes.
pub utf8_decode-utf8_encode : (s : Text) → IsUnits s → utf8_decode (utf8_encode s) ≡ ok s
unfolding utf8_decode
utf8_decode-utf8_encode s h = decode_loop-utf8_encode s (length (utf8_encode s)) h (omega arith)

-- The counted length is that of the encoding.
pub utf8_byte_length-utf8_encode : (s : Text) → utf8_byte_length s ≡ length (utf8_encode s)
unfolding utf8_byte_length utf8_encode
utf8_byte_length-utf8_encode [] = refl
utf8_byte_length-utf8_encode (c ∷ []) = sym (length-encode_point c)
utf8_byte_length-utf8_encode (c ∷ d ∷ cs) =
    elim (Bool-cases (is_high_surrogate c && is_low_surrogate d)) [
      | inl t ↦ rw t (
          omega (
            arith,
            length-append (encode_point (pair_point c d)) (utf8_encode cs),
            length-encode_point (pair_point c d),
            utf8_byte_length-utf8_encode cs,
          ))
      | inr n ↦ rw n (
          omega (
            arith,
            length-append (encode_point c) (utf8_encode (d ∷ cs)),
            length-encode_point c,
            utf8_byte_length-utf8_encode (d ∷ cs),
          ))
    ]

encode_point-IsBytes :
    (c : ℕ) (rest : Bytes) → c < 0x110000 → IsBytes rest → IsBytes (encode_point c ++ rest)
unfolding encode_point
encode_point-IsBytes c rest h r = ground arith
