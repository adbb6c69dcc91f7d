-- ===== src/Frame/RoundTrip.antt =====
-- Lemmas on `encode` of src/protocol/V6BFrameCodec.ts, and on `decode` after it.
use i_tantra.Base.{
  ℕ, ◌+◌, ◌/◌, ◌-◌, ◌%◌, ◌^◌, ◌≤◌, ◌<◌, ◌≡◌, ◌↔◌, ap, true, not, ◌∷◌, ok, ◌>>=◌, ltb, ltb-false,
  throw_if-eq-ok, length, take_all, overwrite_all, arith,
}
use i_tantra.Base.Int.{pos, signed32, signed32_small, pos-+ℤ, ltb_ℤ-pos}
use i_tantra.Bytes.{Bytes}
use i_tantra.Bytes.Laws.{mod-mod_byte, zeros-add, uint32_bytes}
use i_tantra.Frame.{
  DecodedFrame, encode, decode, contains, v6b_valid_frame_types, v6b_max_payload_size,
}

-- A frame laid out byte by byte.
abbrev pub layout : ℕ → ℕ → ℕ → Bytes → Bytes
layout t s n p =
    3
    ∷ t
    ∷ (s / 2 ^ 24 % 256)
    ∷ (s / 2 ^ 16 % 256)
    ∷ (s / 2 ^ 8 % 256)
    ∷ (s % 256)
    ∷ (n / 2 ^ 24 % 256)
    ∷ (n / 2 ^ 16 % 256)
    ∷ (n / 2 ^ 8 % 256)
    ∷ (n % 256)
    ∷ p

pub valid_type_lt : (t : ℕ) → contains v6b_valid_frame_types t ≡ true → t < 256
unfolding contains
valid_type_lt t h = ground arith

pub encode-layout :
    (s t : ℕ) (p : Bytes)
    → s < 2 ^ 32
    → contains v6b_valid_frame_types t ≡ true
    → length p ≤ v6b_max_payload_size
    → encode s t p ≡ ok (layout t s (length p) p)
unfolding encode
encode-layout s t p hs ht hp =
    let small : t % 256 ≡ t = omega (arith, valid_type_lt t ht) in
    rw (ltb-false 0xffffffff s (omega arith), ht, ltb-false 499 (length p) hp)
      (rw (zeros-add 10 (length p), overwrite_all p 0, small) (simp mod-mod_byte))

add_sub_cancel : (n : ℕ) → 10 + n - 10 ≡ n
add_sub_cancel n = omega arith

-- The declared length of a frame is read back as a number below 2 ^ 31.
abbrev pub decoded : ℕ → ℕ → Bytes → DecodedFrame
decoded t s p = record {
  version = 3;
  frame_type = t;
  sequence = signed32 s;
  payload_length = pos (length p);
  payload = p;
}

pub decode-layout :
    (s t : ℕ) (p : Bytes)
    → s < 2 ^ 32
    → contains v6b_valid_frame_types t ≡ true
    → length p ≤ v6b_max_payload_size
    → decode (layout t s (length p) p) ≡ ok (decoded t s p)
unfolding decode
decode-layout s t p hs ht hp =
    let n = length p in
    rw (uint32_bytes s hs, uint32_bytes n (omega arith), ht)
      (rw (signed32_small n (omega arith), pos-+ℤ, ltb_ℤ-pos, ltb_ℤ-pos)
        (rw (
          ltb-false (length (layout t s n p)) 10 (omega arith),
          ltb-false 499 n hp,
          ltb-false (length (layout t s n p)) (10 + n) (omega arith),
          add_sub_cancel n,
          take_all p,
        )))

-- A frame with a 32-bit sequence number, a recognised type and a payload of at most 499 bytes is
-- encoded, and `decode` returns its type, its payload, and its sequence number read as a signed
-- 32-bit number.
pub decode-encode :
    (s t : ℕ) (p : Bytes)
    → s < 2 ^ 32
    → contains v6b_valid_frame_types t ≡ true
    → length p ≤ v6b_max_payload_size
    → (encode s t p >>= decode) ≡ ok (decoded t s p)
decode-encode s t p hs ht hp = rw (encode-layout s t p hs ht hp) (decode-layout s t p hs ht hp)

-- `encode` succeeds exactly on a 32-bit sequence number, a recognised type and a payload of at most
-- 499 bytes.
pub encode_iff :
    (s t : ℕ) (p : Bytes)
    → ((b : Bytes) × (encode s t p ≡ ok b)) ↔ (
        (s < 2 ^ 32)
        × (contains v6b_valid_frame_types t ≡ true)
        × (length p ≤ v6b_max_payload_size))
unfolding encode
encode_iff s t p = (
  λ (b, e).
      let (e1, r1) = throw_if-eq-ok (ltb 0xffffffff s) _ _ _ e in
      let (e2, r2) = throw_if-eq-ok (not (contains v6b_valid_frame_types t)) _ _ _ r1 in
      let (e3, r3) = throw_if-eq-ok (ltb v6b_max_payload_size (length p)) _ _ _ r2 in
      (ground (arith, e1), ground (arith, e2), ground (arith, e3)),
  λ (hs, ht, hp). (layout t s (length p) p, encode-layout s t p hs ht hp),
)

-- A frame that `encode` returns is 10 bytes longer than its payload, and at most 509 bytes long.
pub length-encode :
    (s t : ℕ) (p b : Bytes) → encode s t p ≡ ok b → (length b ≡ 10 + length p) × (length b ≤ 509)
length-encode s t p b e =
    let (hs, ht, hp) = (encode_iff s t p).0 (b, e) in
    let same : layout t s (length p) p ≡ b = cc (encode-layout s t p hs ht hp) in
    omega (arith, ap length same)
