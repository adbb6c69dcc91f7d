-- ===== src/Message/Utf8/Total.antt =====
-- The decoding loop of src/protocol/BinaryMessageCodec.ts on arbitrary bytes.
use i_tantra.Base.{
  ℕ, zero, suc, ◌+◌, ◌-◌, ◌*◌, ◌/◌, ◌%◌, ◌≤◌, ◌<◌, ◌≡◌, ◌≢◌, refl, ap, false, [], ◌∷◌, ok, err,
  throw_if-eq-ok, Result-cases, ltb, length, Bool-cases, ok-injective, inl, inr, arith,
}
use i_tantra.Bytes.{Bytes}
use i_tantra.Message.Utf8.{
  out_of_fuel, is_high_surrogate, start_byte, continuation, is_overlong, point_units, read_point,
  decode_loop, utf8_decode,
}

continuation-length :
    (n : ℕ) (bs rest : Bytes) (bits c : ℕ)
    → continuation n bs bits ≡ ok (c, rest)
    → length rest ≤ length bs
unfolding continuation
continuation-length zero bs rest bits c h =
    omega (arith, ap length (ap (λ (x : ℕ × Bytes). x.1) (ok-injective h)))
continuation-length (suc n) [] rest bits c h = cc
continuation-length (suc n) (b ∷ bs) rest bits c h =
    ground (arith, continuation-length n bs rest (bits * 64 + b % 64) c)

-- What is left behind a code point is shorter.
read_point-length :
    (b c : ℕ) (bs rest : Bytes) → read_point (b ∷ bs) ≡ ok (c, rest) → length rest ≤ length bs
unfolding read_point
read_point-length b c bs rest h = elim (Result-cases (start_byte b)) [
  | inr (x, e) ↦ cc (rw e at h)
  | inl ((n, bits), e) ↦
      let (e1, r1) = throw_if-eq-ok (ltb (length (b ∷ bs)) n) _ _ _ (rw e at h) in
      elim (Result-cases (continuation (n - 1) bs bits)) [
        | inr (x, k) ↦ cc (rw k at r1)
        | inl ((point, tl), k) ↦
            let (e2, r2) = throw_if-eq-ok (is_overlong n point) _ _ _ (rw k at r1) in
            let same = ap (λ (x : ℕ × Bytes). x.1) (ok-injective r2) in
            omega (arith, continuation-length (n - 1) bs tl bits point k, ap length same)
      ]
]

continuation-fueled : (n : ℕ) (bs : Bytes) (bits : ℕ) → continuation n bs bits ≢ err out_of_fuel
unfolding continuation
continuation-fueled zero bs bits e = cc
continuation-fueled (suc n) [] bits e = cc
continuation-fueled (suc n) (b ∷ bs) bits e =
    ground (arith, e, continuation-fueled n bs (bits * 64 + b % 64))

start_byte-fueled : (b : ℕ) → start_byte b ≢ err out_of_fuel
unfolding start_byte
start_byte-fueled b e = ground (arith, e)

read_point-fueled : (bs : Bytes) → read_point bs ≢ err out_of_fuel
unfolding read_point
read_point-fueled [] e = cc
read_point-fueled (b ∷ bs) e = elim (Result-cases (start_byte b)) [
  | inr (x, k) ↦ start_byte-fueled b (cc (rw k at e))
  | inl ((n, bits), k) ↦ elim (Bool-cases (ltb (length (b ∷ bs)) n)) [
    | inl t ↦ cc (rw (k, t) at e)
    | inr f ↦ elim (Result-cases (continuation (n - 1) bs bits)) [
      | inr (x, q) ↦ continuation-fueled (n - 1) bs bits (cc (rw (k, f, q) at e))
      | inl ((point, tl), q) ↦ elim (Bool-cases (is_overlong n point)) [
        | inl t ↦ cc (rw (k, f, q, t) at e)
        | inr g ↦ cc (rw (k, f, q, g) at e)
      ]
    ]
  ]
]

decode_loop-fueled :
    (fuel : ℕ) (bs : Bytes) → length bs ≤ fuel → decode_loop fuel bs ≢ err out_of_fuel
unfolding decode_loop
decode_loop-fueled zero [] h e = cc
decode_loop-fueled zero (b ∷ bs) h e = absurd (omega arith)
decode_loop-fueled (suc fuel) [] h e = cc
decode_loop-fueled (suc fuel) (b ∷ bs) h e = elim (Result-cases (read_point (b ∷ bs))) [
  | inr (x, k) ↦ read_point-fueled (b ∷ bs) (cc (rw k at e))
  | inl ((point, rest), k) ↦ elim (Result-cases (decode_loop fuel rest)) [
    | inr (x, q) ↦
        decode_loop-fueled fuel rest (omega (arith, read_point-length b point bs rest k))
          (cc (rw (k, q) at e))
    | inl (u, q) ↦ cc (rw (k, q) at e)
  ]
]

-- The loop ends: on any bytes, a round for each byte is enough, so decoding returns a text or one of
-- the four errors of the code.
pub utf8_decode-fueled : (bs : Bytes) → utf8_decode bs ≢ err out_of_fuel
unfolding utf8_decode
utf8_decode-fueled bs = decode_loop-fueled (length bs) bs (omega arith)

-- A four-byte sequence for a number beyond the last code point, U+10FFFF, is no UTF-8, but it is
-- decoded, to two code units of which the first is no high surrogate.
pub utf8_decode_beyond :
    (a b c d : ℕ)
    → a < 8
    → b < 64
    → c < 64
    → d < 64
    → 0x10ffff < ((a * 64 + b) * 64 + c) * 64 + d
    → (u : ℕ) × (v : ℕ) × (utf8_decode ((0xf0 + a) ∷ (0x80 + b) ∷ (0x80 + c) ∷ (0x80 + d) ∷ [])
        ≡ ok (u ∷ v ∷ []))
      × (is_high_surrogate u ≡ false)
unfolding utf8_decode decode_loop
utf8_decode_beyond a b c d ha hb hc hd h =
    let point = ((a * 64 + b) * 64 + c) * 64 + d in
    (
      0xd800 + (point - 0x10000) / 1024,
      0xdc00 + (point - 0x10000) % 1024,
      rw (read_beyond a b c d ha hb hc hd h) (rw (two_units point h) refl),
      ground arith,
    )
  where
    read_beyond :
        (a b c d : ℕ)
        → a < 8
        → b < 64
        → c < 64
        → d < 64
        → 0x10ffff < ((a * 64 + b) * 64 + c) * 64 + d
        → read_point ((0xf0 + a) ∷ (0x80 + b) ∷ (0x80 + c) ∷ (0x80 + d) ∷ [])
          ≡ ok (((a * 64 + b) * 64 + c) * 64 + d, [])
    read_beyond a b c d ha hb hc hd h =
        unfold read_point start_byte continuation is_overlong in ground arith

    two_units :
        (p : ℕ)
        → 0x10ffff < p
        → point_units p ≡ (0xd800 + (p - 0x10000) / 1024) ∷ (0xdc00 + (p - 0x10000) % 1024) ∷ []
    two_units p h = unfold point_units in ground arith
