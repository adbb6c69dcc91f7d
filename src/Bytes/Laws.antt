-- ===== src/Bytes/Laws.antt =====
-- Laws of the byte buffers: fresh buffers, and big-endian numbers read back.
use i_tantra.Base.{
  ℕ, zero, suc, ◌+◌, ◌*◌, ◌/◌, ◌%◌, ◌^◌, ◌<◌, ◌≡◌, ap, [], ◌∷◌, ◌++◌, length, overwrite,
  overwrite_all, arith,
}
use i_tantra.Bytes.{Bytes, IsBytes, byte_at, zeros, read_uint64_be}

pub zeros-add : (m n : ℕ) → zeros (m + n) ≡ zeros m ++ zeros n
zeros-add zero n = rw (z n)
  where
    z : (n : ℕ) → zero + n ≡ n
    z n = omega arith
zeros-add (suc m) n = rw (s m n) (ap (◌∷◌ 0) (zeros-add m n))
  where
    s : (m n : ℕ) → suc m + n ≡ suc (m + n)
    s m n = omega arith

-- A byte stored again is the same byte.
pub mod-mod_byte : (x : ℕ) → x % 256 % 256 ≡ x % 256
mod-mod_byte x = omega arith

-- The four bytes of a number below 2 ^ 32, as the readers take them.
pub uint32_bytes :
    (v : ℕ)
    → v < 2 ^ 32
    → v / 2 ^ 24 % 256 % 256 * 2 ^ 24
        + v / 2 ^ 16 % 256 % 256 * 2 ^ 16
        + v / 2 ^ 8 % 256 % 256 * 2 ^ 8
        + v % 256 % 256
      ≡ v
uint32_bytes v h = omega arith

-- The eight bytes of a number below 2 ^ 64, as the reader takes them.
pub uint64_bytes :
    (v : ℕ)
    → v < 2 ^ 64
    → ((((((((0 * 2 ^ 8 + v / 2 ^ 56 % 256 % 256 % 256) * 2 ^ 8 + v / 2 ^ 48 % 256 % 256 % 256)
                              * 2 ^ 8
                            + v / 2 ^ 40 % 256 % 256 % 256)
                          * 2 ^ 8
                        + v / 2 ^ 32 % 256 % 256 % 256)
                      * 2 ^ 8
                    + v / 2 ^ 24 % 256 % 256 % 256)
                  * 2 ^ 8
                + v / 2 ^ 16 % 256 % 256 % 256)
              * 2 ^ 8
            + v / 2 ^ 8 % 256 % 256 % 256)
          * 2 ^ 8
        + v / 2 ^ 0 % 256 % 256 % 256)
      ≡ v
uint64_bytes v h = omega arith

pub uint16_bytes : (v : ℕ) → v < 2 ^ 16 → v / 2 ^ 8 % 256 % 256 * 2 ^ 8 + v % 256 % 256 ≡ v
uint16_bytes v h = omega arith

-- A byte of a buffer, or 0 past its end, is below 256.
pub byte_at-lt : (b : Bytes) (i : ℕ) → IsBytes b → byte_at b i < 256
byte_at-lt [] i h = omega arith
byte_at-lt (x ∷ b) zero h = h.0
byte_at-lt (x ∷ b) (suc i) h = byte_at-lt b i h.1

-- Whatever the buffer holds, eight bytes make a number below 2 ^ 64.
pub read_uint64_be-lt : (b : Bytes) (o : ℕ) → read_uint64_be b o < 2 ^ 64
unfolding read_uint64_be
read_uint64_be-lt b o = omega arith

-- A buffer of the right length filled from its start.
pub overwrite-zeros_self : (src : Bytes) (n : ℕ) → length src ≡ n → overwrite (zeros n) src ≡ src
overwrite-zeros_self src n e = rw (← e) (overwrite_all src 0)
