-- ===== src/Fragment/Header.antt =====
-- Lemmas on the headers of src/protocol/FragmentCodec.ts.
use i_tantra.Base.{
  ℕ, ◌+◌, ◌-◌, ◌*◌, ◌/◌, ◌%◌, ◌^◌, ◌≤◌, ◌<◌, ◌≡◌, refl, min, false, not, ◌||◌, ◌∷◌, ok,
  throw_if-eq-ok, ok-injective, ltb, leb, ltb-false, nat_beq, length, slice, drop, length-take,
  length-drop, arith,
}
use i_tantra.Bytes.{Bytes, byte_at, read_uint16_be}
use i_tantra.Bytes.Laws.{zeros-add, mod-mod_byte, uint32_bytes, uint16_bytes, overwrite-zeros_self}
use i_tantra.Fragment.{FragmentHeader, parse_header, make_chunk, max_v6a_length}

-- The nine header bytes before a chunk.
abbrev pub layout : ℕ → ℕ → ℕ → ℕ → Bytes → Bytes
layout g i t n chunk =
    0xf7
    ∷ (g / 2 ^ 24 % 256)
    ∷ (g / 2 ^ 16 % 256)
    ∷ (g / 2 ^ 8 % 256)
    ∷ (g % 256)
    ∷ (i % 256)
    ∷ (t % 256)
    ∷ (n / 2 ^ 8 % 256)
    ∷ (n % 256)
    ∷ chunk

-- The bytes of the packet that the i-th fragment carries.
abbrev pub chunk_of : ℕ → ℕ → Bytes → Bytes
chunk_of size i packet = slice (i * size) (i * size + min size (length packet - i * size)) packet

pub length-chunk_of :
    (size i : ℕ) (p : Bytes) → length (chunk_of size i p) ≡ min size (length p - i * size)
length-chunk_of size i p = omega (
  arith,
  length-take (i * size + min size (length p - i * size) - i * size) (drop (i * size) p),
  length-drop (i * size) p,
)

pub make_chunk-layout :
    (size t g i : ℕ) (p : Bytes)
    → (make_chunk size t g i p).payload ≡ layout g i t (length p) (chunk_of size i p)
unfolding make_chunk
make_chunk-layout size t g i p =
    let n = min size (length p - i * size) in
    rw (zeros-add 9 n, overwrite-zeros_self (chunk_of size i p) n (length-chunk_of size i p))
      (simp mod-mod_byte)

pub make_chunk-header :
    (size t g i : ℕ) (p : Bytes)
    → (make_chunk size t g i p).header ≡ record {
      marker = 0xf7;
      group_id = g;
      fragment_index = i;
      total_fragments = t;
      v6a_length = length p;
    }
unfolding make_chunk
make_chunk-header size t g i p = refl

parse_layout :
    (g i t n : ℕ) (chunk : Bytes)
    → g < 2 ^ 32
    → i < t
    → t ≤ 128
    → 0 < n
    → n ≤ max_v6a_length
    → parse_header (layout g i t n chunk)
      ≡ ok (record {
        marker = 0xf7;
        group_id = g;
        fragment_index = i;
        total_fragments = t;
        v6a_length = n;
      })
unfolding parse_header
parse_layout g i t n chunk hg hi ht hn hl =
    let same_i : i % 256 ≡ i = omega arith in
    let same_t : t % 256 ≡ t = omega arith in
    let short : ltb (length (layout g i t n chunk)) 9 ≡ false =
      ltb-false (length (layout g i t n chunk)) 9 (omega arith) in
    let c1 : (ltb t 1 || ltb 128 t) ≡ false = ground arith in
    let c2 : leb t i ≡ false = ground arith in
    let c3 : (nat_beq n 0 || ltb 62720 n) ≡ false = ground arith in
    rw (short, same_i, same_t, uint32_bytes g hg, uint16_bytes n (omega arith)) (rw (c1, c2, c3))

-- A fragment of a non-empty packet of at most 62720 bytes, with a 32-bit group number, at most 128
-- fragments and its own number below theirs: its header is parsed back from the payload that
-- carries it, and the chunk follows it.
pub parse_header-make_chunk :
    (size t g i : ℕ) (p : Bytes)
    → g < 2 ^ 32
    → i < t
    → t ≤ 128
    → 0 < length p
    → length p ≤ max_v6a_length
    → (parse_header (make_chunk size t g i p).payload ≡ ok (make_chunk size t g i p).header)
      × (drop 9 (make_chunk size t g i p).payload ≡ chunk_of size i p)
parse_header-make_chunk size t g i p hg hi ht hp hl =
    rw (make_chunk-layout size t g i p, make_chunk-header size t g i p)
      (parse_layout g i t (length p) (chunk_of size i p) hg hi ht hp hl, refl)

in_range :
    (b : Bytes)
    → ltb (length b) 9 ≡ false
    → not (nat_beq (byte_at b 0) 0xf7) ≡ false
    → (ltb (byte_at b 6) 1 || ltb 128 (byte_at b 6)) ≡ false
    → leb (byte_at b 6) (byte_at b 5) ≡ false
    → (nat_beq (read_uint16_be b 7) 0 || ltb 62720 (read_uint16_be b 7)) ≡ false
    → (9 ≤ length b)
      × (byte_at b 0 ≡ 0xf7)
      × (1 ≤ byte_at b 6)
      × (byte_at b 6 ≤ 128)
      × (byte_at b 5 < byte_at b 6)
      × (0 < read_uint16_be b 7)
      × (read_uint16_be b 7 ≤ max_v6a_length)
in_range b e1 e2 e3 e4 e5 = (
  ground arith,
  ground arith,
  ground arith,
  ground arith,
  ground arith,
  positive (read_uint16_be b 7) e5,
  bounded (read_uint16_be b 7) e5,
)
  where
    positive : (n : ℕ) → (nat_beq n 0 || ltb 62720 n) ≡ false → 0 < n
    positive n h = ground arith

    bounded : (n : ℕ) → (nat_beq n 0 || ltb 62720 n) ≡ false → n ≤ 62720
    bounded n h = ground arith

-- What `parse_header` accepts: every field of the header is then in range, whatever the bytes are.
pub parse_header-InRange :
    (b : Bytes) (h : FragmentHeader)
    → parse_header b ≡ ok h
    → (9 ≤ length b)
      × (h.marker ≡ 0xf7)
      × (1 ≤ h.total_fragments)
      × (h.total_fragments ≤ 128)
      × (h.fragment_index < h.total_fragments)
      × (0 < h.v6a_length)
      × (h.v6a_length ≤ max_v6a_length)
unfolding parse_header
parse_header-InRange b h e =
    let t = byte_at b 6 in
    let n = read_uint16_be b 7 in
    let (e1, r1) = throw_if-eq-ok (ltb (length b) 9) _ _ _ e in
    let (e2, r2) = throw_if-eq-ok (not (nat_beq (byte_at b 0) 0xf7)) _ _ _ r1 in
    let (e3, r3) = throw_if-eq-ok (ltb t 1 || ltb 128 t) _ _ _ r2 in
    let (e4, r4) = throw_if-eq-ok (leb t (byte_at b 5)) _ _ _ r3 in
    let (e5, r5) = throw_if-eq-ok (nat_beq n 0 || ltb 62720 n) _ _ _ r4 in
    rw (← ok-injective r5) (in_range b e1 e2 e3 e4 e5)
