-- ===== src/Message/Bounds.antt =====
-- The ranges of the computed fields of src/protocol/BinaryMessageCodec.ts.
use i_tantra.Base.{
  ℕ, suc, ◌+◌, ◌*◌, ◌%◌, ◌^◌, ◌≤◌, ◌<◌, [], ◌∷◌, ltb, ltb-false, le_of_ltb, Text, Bool-cases, inl,
  inr, arith,
}
use i_tantra.Base.Int.{ℤ, pos, negsuc}
use i_tantra.Bytes.{Bytes}
use i_tantra.Semantic.{Number}
use i_tantra.Message.Utf8.{utf8_encode}
use i_tantra.Message.{fnv_loop, fnv1a64, hash_message_id, confidence_byte}
use Prim.Native.Nat.{bit_xor}
use native.Mathlib.Nat.{div-mul-le_self, lt-div-mul-add, div-lt_iff_lt-mul}

fnv_loop-lt : (hash : ℕ) (bs : Bytes) → hash < 2 ^ 64 → fnv_loop hash bs < 2 ^ 64
unfolding fnv_loop
fnv_loop-lt hash [] h = h
fnv_loop-lt hash (b ∷ bs) h = fnv_loop-lt (bit_xor hash b * 0x100000001b3 % 2 ^ 64) bs (omega arith)

-- The hash of every identifier fits the eight bytes of the header.
pub hash_message_id-lt : (id : Text) → hash_message_id id < 2 ^ 64
unfolding hash_message_id fnv1a64
hash_message_id-lt id = fnv_loop-lt 0xcbf29ce484222325 (utf8_encode id) (omega arith)

-- Of a confidence between 0 and 1 the stored byte is the nearest 255th: they are 1/510 apart at most.
pub confidence_byte-near :
    (n d : ℕ)
    → n ≤ suc d
    → (2 * confidence_byte (record { num = pos n; den_pred = d }) * suc d ≤ 510 * n + suc d)
      × (510 * n ≤ 2 * confidence_byte (record { num = pos n; den_pred = d }) * suc d + suc d)
unfolding confidence_byte
confidence_byte-near n d h =
    let k = div-mul-le_self (2 * n * 255 + suc d) (2 * suc d) in
    let l = lt-div-mul-add {a = 2 * n * 255 + suc d} {b = 2 * suc d} (omega arith) in
    rw (ltb-false (suc d) n h) (omega (arith, k), omega (arith, l))

pub confidence_byte-lt : (x : Number) → confidence_byte x < 256
unfolding confidence_byte
confidence_byte-lt x = in_range x.num x.den_pred
  where
    in_range : (i : ℤ) (d : ℕ) → confidence_byte (record { num = i; den_pred = d }) < 256
    in_range (negsuc n) d = omega arith
    in_range (pos n) d = elim (Bool-cases (ltb (suc d) n)) [
      | inl t ↦ rw t (omega arith)
      | inr f ↦ rw f (
          (div-lt_iff_lt-mul {k = 2 * suc d} {x = 2 * n * 255 + suc d} {y = 256} (omega arith)).1
            (omega (arith, le_of_ltb (suc d) n f)))
    ]
