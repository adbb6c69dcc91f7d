-- ===== src/Frame/Decode.antt =====
-- Lemmas on `decode` of src/protocol/V6BFrameCodec.ts.
use i_tantra.Base.{
  ℕ, ◌+◌, ◌-◌, ◌^◌, ◌≤◌, ◌<◌, ◌≡◌, refl, true, false, not, ok, ltb, ltb-false, le_of_ltb,
  throw_if-eq-ok, nat_beq, length, slice, drop, length-take, length-drop, arith,
}
use i_tantra.Base.Int.{
  pos, negsuc, signed32_small, signed32_large, ◌+ℤ◌, ltb_ℤ, pos-+ℤ, ltb_ℤ-pos, ltb_ℤ-negsuc,
}
use i_tantra.Bytes.{Bytes, byte_at, read_uint32_be, read_int32_be, slice_to}
use i_tantra.Frame.{DecodedFrame, decode, contains, v6b_valid_frame_types}

-- The tests that an accepted frame has passed.
pub decode_guards :
    (b : Bytes) (f : DecodedFrame)
    → decode b ≡ ok f
    → (10 ≤ length b)
      × (byte_at b 0 ≡ 3)
      × (contains v6b_valid_frame_types (byte_at b 1) ≡ true)
      × (ltb_ℤ (pos 499) (read_int32_be b 6) ≡ false)
      × (ltb_ℤ (pos (length b)) (pos 10 +ℤ read_int32_be b 6) ≡ false)
      × (f ≡ record {
        version = byte_at b 0;
        frame_type = byte_at b 1;
        sequence = read_int32_be b 2;
        payload_length = read_int32_be b 6;
        payload = slice_to 10 (pos 10 +ℤ read_int32_be b 6) b;
      })
unfolding decode
decode_guards b f e =
    let (e1, r1) = throw_if-eq-ok (ltb (length b) 10) _ _ _ e in
    let (e2, r2) = throw_if-eq-ok (not (nat_beq (byte_at b 0) 3)) _ _ _ r1 in
    let (e3, r3) = throw_if-eq-ok (not (contains v6b_valid_frame_types (byte_at b 1))) _ _ _ r2 in
    let (e4, r4) = throw_if-eq-ok (ltb_ℤ (pos 499) (read_int32_be b 6)) _ _ _ r3 in
    let (e5, r5) = throw_if-eq-ok (ltb_ℤ (pos (length b)) (pos 10 +ℤ read_int32_be b 6)) _ _ _ r4 in
    (ground (arith, e1), ground (arith, e2), ground (arith, e3), e4, e5, cc)

length-slice : (n : ℕ) (b : Bytes) → 10 + n ≤ length b → length (slice 10 (10 + n) b) ≡ n
length-slice n b h = omega (arith, length-take (10 + n - 10) (drop 10 b), length-drop 10 b)

-- A frame whose declared length, read as an unsigned number, is below 2 ^ 31: `decode` accepts it
-- only if the declared length is at most 499 and the buffer holds that many bytes after the header,
-- and the payload has exactly the declared length.
pub decode_declared :
    (b : Bytes) (f : DecodedFrame)
    → read_uint32_be b 6 < 2 ^ 31
    → decode b ≡ ok f
    → (f.payload_length ≡ pos (length f.payload))
      × (length f.payload ≡ read_uint32_be b 6)
      × (length f.payload ≤ 499)
      × (10 + length f.payload ≤ length b)
decode_declared b f h e =
    let (g0, g1, g2, g3, g4, g5) = decode_guards b f e in
    let n = read_uint32_be b 6 in
    let small : read_int32_be b 6 ≡ pos n = signed32_small n h in
    let le : n ≤ 499 = le_of_ltb 499 n (rw (small, ltb_ℤ-pos) at g3) in
    let fit : 10 + n ≤ length b =
      le_of_ltb (length b) (10 + n) (rw (small, pos-+ℤ, ltb_ℤ-pos) at g4) in
    let len : length (slice 10 (10 + n) b) ≡ n = length-slice n b fit in
    rw (g5, small, pos-+ℤ, len) (refl, refl, le, fit)

-- 10 plus a negative number is below any length from 10 on.
ltb_ℤ_sum : (n k : ℕ) → 10 ≤ n → ltb_ℤ (pos n) (pos 10 +ℤ negsuc k) ≡ false
unfolding ltb_ℤ ◌+ℤ◌
ltb_ℤ_sum n k h = ground arith

-- A frame whose declared length has its top bit set passes every length check: if the version and
-- the type are right, `decode` accepts it, and reports a negative payload length.
pub decode_top_bit :
    (b : Bytes)
    → 10 ≤ length b
    → byte_at b 0 ≡ 3
    → contains v6b_valid_frame_types (byte_at b 1) ≡ true
    → 2 ^ 31 ≤ read_uint32_be b 6
    → (f : DecodedFrame) × (decode b ≡ ok f)
      × (f.payload_length ≡ negsuc (2 ^ 32 - read_uint32_be b 6 - 1))
unfolding decode
decode_top_bit b h0 h1 h2 h3 =
    let n = read_uint32_be b 6 in
    let large : read_int32_be b 6 ≡ negsuc (2 ^ 32 - n - 1) = signed32_large n h3 in
    (
      record {
        version = byte_at b 0;
        frame_type = byte_at b 1;
        sequence = read_int32_be b 2;
        payload_length = read_int32_be b 6;
        payload = slice_to 10 (pos 10 +ℤ read_int32_be b 6) b;
      },
      rw (ltb-false (length b) 10 h0, h1, h2)
          (rw (large, ltb_ℤ-negsuc, ltb_ℤ_sum (length b) (2 ^ 32 - n - 1) h0)),
      large,
    )
