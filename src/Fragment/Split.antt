-- ===== src/Fragment/Split.antt =====
-- Lemmas on the splitting of src/protocol/FragmentCodec.ts.
use i_tantra.Base.{
  ℕ, zero, suc, ◌+◌, ◌-◌, ◌*◌, ◌/◌, ◌%◌, ◌^◌, ◌≤◌, ◌<◌, ◌≡◌, refl, sym, ap, ◌∙◌, min, true, List,
  [], ◌∷◌, ◌++◌, ok, throw_if-eq-ok, ok-injective, All, ltb, leb, le_of_ltb, lt_of_leb, Bool-cases,
  inl, inr, ◌⊎◌, length, take, drop, take_all, take_ge, take-append-drop, length-drop, arith,
}
use native.Mathlib.Decide.{dec_le}
use native.Mathlib.Nat.{div-add-mod, mod-lt}
use i_tantra.Bytes.{Bytes}
use i_tantra.Fragment.{
  FragmentChunk, make_chunk, split_loop, split_sized, split_v6a, split_v6a_for_budget,
  data_bytes_per_fragment, parse_header, max_v6a_length,
}
use i_tantra.Fragment.Header.{chunk_of, length-chunk_of, make_chunk-layout, parse_header-make_chunk}

drop-nil : (n : ℕ) → drop n (let e : Bytes = [] in e) ≡ []
drop-nil zero = refl
drop-nil (suc n) = refl

add_zero_left : (n : ℕ) → zero + n ≡ n
add_zero_left n = omega arith

drop-add : (m n : ℕ) (xs : Bytes) → drop n (drop m xs) ≡ drop (m + n) xs
drop-add zero n xs = rw (add_zero_left n)
drop-add (suc m) n [] = drop-nil n ∙ sym (drop-nil (suc m + n))
drop-add (suc m) n (x ∷ xs) = rw (suc-add m n) (drop-add m n xs)
  where
    suc-add : (m n : ℕ) → suc m + n ≡ suc (m + n)
    suc-add m n = omega arith

drop_all : (n : ℕ) (xs : Bytes) → length xs ≤ n → drop n xs ≡ []
drop_all zero [] h = refl
drop_all zero (x ∷ xs) h = absurd (omega arith)
drop_all (suc n) [] h = refl
drop_all (suc n) (x ∷ xs) h = drop_all n xs (omega arith)

take-min : (n m : ℕ) (xs : Bytes) → length xs ≡ m → take (min n m) xs ≡ take n xs
take-min n m xs e = elim (dec_le n m) [
  | yes h ↦ let le : min n m ≡ n = omega arith in rw le
  | no h ↦
      let le : min n m ≡ length xs = omega arith in
      rw (le, take_all xs) (sym (take_ge n xs (omega arith)))
]

-- A fragment carries `size` bytes of the packet from its place on, or what is left.
pub chunk_of_lem : (size i : ℕ) (p : Bytes) → chunk_of size i p ≡ take size (drop (i * size) p)
chunk_of_lem size i p =
    let n = min size (length p - i * size) in
    let span : i * size + n - i * size ≡ n = omega arith in
    rw span (take-min size (length p - i * size) (drop (i * size) p) (length-drop (i * size) p))

-- The data that the fragments carry, one after the other.
abbrev pub data_of : List FragmentChunk → Bytes
data_of [] = []
data_of (c ∷ cs) = drop 9 c.payload ++ data_of cs

pub make_chunk-data :
    (size t g i : ℕ) (p : Bytes) → drop 9 (make_chunk size t g i p).payload ≡ chunk_of size i p
make_chunk-data size t g i p = rw (make_chunk-layout size t g i p)

pub split_loop-data :
    (rounds i size t g : ℕ) (p : Bytes)
    → length p ≤ i * size + rounds * size
    → data_of (split_loop rounds i size t g p) ≡ drop (i * size) p
unfolding split_loop
split_loop-data zero i size t g p h = sym (drop_all (i * size) p (omega arith))
split_loop-data (suc r) i size t g p h =
    let next : i * size + size ≡ (i + 1) * size = omega arith in
    rw
      (
        make_chunk-data size t g i p,
        chunk_of_lem size i p,
        split_loop-data r (i + 1) size t g p (omega arith),
        ← next,
        ← drop-add (i * size) size p,
      )
      (take-append-drop size (drop (i * size) p))

-- Enough fragments: the quotient is rounded up.
pub enough : (n size : ℕ) → 0 < size → n ≤ (n + (size - 1)) / size * size
enough n size h = omega (arith, div-add-mod (n + (size - 1)) size, mod-lt (n + (size - 1)) h)

length-split_loop :
    (rounds i size t g : ℕ) (p : Bytes) → length (split_loop rounds i size t g p) ≡ rounds
unfolding split_loop
length-split_loop zero i size t g p = refl
length-split_loop (suc r) i size t g p = ap suc (length-split_loop r (i + 1) size t g p)

-- A fragment that fits: at most `size` bytes after its header, which is parsed back from it.
abbrev pub Fits : ℕ → FragmentChunk → Type 0
Fits size c = (length c.payload ≤ 9 + size) × (parse_header c.payload ≡ ok c.header)

make_chunk-Fits :
    (size t g i : ℕ) (p : Bytes)
    → g < 2 ^ 32
    → i < t
    → t ≤ 128
    → 0 < length p
    → length p ≤ max_v6a_length
    → Fits size (make_chunk size t g i p)
make_chunk-Fits size t g i p hg hi ht hp hl = (
  rw (make_chunk-layout size t g i p) (omega (arith, length-chunk_of size i p)),
  (parse_header-make_chunk size t g i p hg hi ht hp hl).0,
)

split_loop-Fits :
    (rounds i size t g : ℕ) (p : Bytes)
    → g < 2 ^ 32
    → i + rounds ≤ t
    → t ≤ 128
    → 0 < length p
    → length p ≤ max_v6a_length
    → All (Fits size) (split_loop rounds i size t g p)
unfolding split_loop
split_loop-Fits zero i size t g p hg hi ht hp hl = tt
split_loop-Fits (suc r) i size t g p hg hi ht hp hl = (
  make_chunk-Fits size t g i p hg (omega arith) ht hp hl,
  split_loop-Fits r (i + 1) size t g p hg (omega arith) ht hp hl,
)

zero_times : (n : ℕ) → 0 * n ≡ 0
zero_times n = omega arith

split_sized_lem :
    (counter size : ℕ) (p : Bytes) (cs : List FragmentChunk) (next : ℕ)
    → 0 < size
    → 0 < length p
    → split_sized counter size p ≡ ok (cs, next)
    → (data_of cs ≡ p) × (length cs ≤ 128) × All (Fits size) cs
unfolding split_sized
split_sized_lem counter size p cs next hs hp e =
    let t = (length p + (size - 1)) / size in
    let (e1, r1) = throw_if-eq-ok (ltb max_v6a_length (length p)) _ _ _ e in
    let (e2, r2) = throw_if-eq-ok (ltb 128 t) _ _ _ r1 in
    let same : split_loop t 0 size t (counter % 2 ^ 32) p ≡ cs =
      ap (λ (x : List FragmentChunk × ℕ). x.0) (ok-injective r2) in
    let few = le_of_ltb 128 t e2 in
    rw (← same) (
      split_loop-data t 0 size t (counter % 2 ^ 32) p (omega (arith, enough (length p) size hs))
          ∙ rw (zero_times size),
      omega (arith, length-split_loop t 0 size t (counter % 2 ^ 32) p),
      split_loop-Fits t 0 size t (counter % 2 ^ 32) p (omega arith) (omega arith) few hp
          (le_of_ltb max_v6a_length (length p) e1),
    )

-- A packet of at most 499 bytes is not split. A longer one that is split at all is split into at most
-- 128 fragments, each at most 499 bytes long with a header that is parsed back, and their data, one
-- after the other, are the packet.
pub split_v6a-data :
    (counter : ℕ) (p : Bytes) (cs : List FragmentChunk) (next : ℕ)
    → split_v6a counter p ≡ ok (cs, next)
    → ((length p ≤ 499) × (cs ≡ []) × (next ≡ counter))
      ⊎ ((499 < length p) × (data_of cs ≡ p) × (length cs ≤ 128) × All (Fits 490) cs)
unfolding split_v6a
split_v6a-data counter p cs next e = elim (Bool-cases (leb (length p) 499)) [
  | inl t ↦
      let same : ◌≡◌ {A = List FragmentChunk × ℕ} ([], counter) (cs, next) =
        ok-injective (rw t at e) in
      inl (
        leb→le t,
        sym (ap (λ (x : List FragmentChunk × ℕ). x.0) same),
        sym (ap (λ (x : List FragmentChunk × ℕ). x.1) same),
      )
  | inr f ↦
      let long : 499 < length p = lt_of_leb (length p) 499 f in
      let (whole, few, fit) =
        split_sized_lem counter 490 p cs next (omega arith) (omega arith) (rw f at e) in
      inr (long, whole, few, fit)
]
  where
    leb→le : leb (length p) 499 ≡ true → length p ≤ 499
    leb→le h = ground arith

within : (b : ℕ) → 10 ≤ b → 9 + data_bytes_per_fragment b ≤ b
unfolding data_bytes_per_fragment
within b h = omega arith

clamped : (b : ℕ) → data_bytes_per_fragment b ≤ 490
unfolding data_bytes_per_fragment
clamped b = omega arith

positive : (b : ℕ) → 10 ≤ b → 0 < data_bytes_per_fragment b
unfolding data_bytes_per_fragment
positive b h = omega arith

-- If a packet is split under a budget, the budget is at least ten bytes. A packet that fits one
-- frame is not split; any other gives at most 128 fragments, none longer than the budget or 499
-- bytes, each with a header that is parsed back, and their data, one after the other, are the
-- packet.
pub split_v6a_for_budget-data :
    (counter budget : ℕ) (p : Bytes) (cs : List FragmentChunk) (next : ℕ)
    → split_v6a_for_budget counter p budget ≡ ok (cs, next)
    → (10 ≤ budget)
      × (9 + data_bytes_per_fragment budget ≤ budget)
      × (data_bytes_per_fragment budget ≤ 490)
      × (((length p ≤ data_bytes_per_fragment budget) × (cs ≡ []))
          ⊎ ((data_of cs ≡ p) × (length cs ≤ 128) × All (Fits (data_bytes_per_fragment budget)) cs))
unfolding split_v6a_for_budget
split_v6a_for_budget-data counter budget p cs next e =
    let (e1, r1) = throw_if-eq-ok (ltb budget 10) _ _ _ e in
    let big = le_of_ltb budget 10 e1 in
    let size = data_bytes_per_fragment budget in
    (
      big,
      within budget big,
      clamped budget,
      elim (Bool-cases (leb (length p) size)) [
        | inl t ↦
            let same : ◌≡◌ {A = List FragmentChunk × ℕ} ([], counter) (cs, next) =
              ok-injective (rw t at r1) in
            inl (fits size t, sym (ap (λ (x : List FragmentChunk × ℕ). x.0) same))
        | inr f ↦
            let long = lt_of_leb (length p) size f in
            inr (
              split_sized_lem counter size p cs next (positive budget big) (omega arith)
                (rw f at r1))
      ],
    )
  where
    fits : (size : ℕ) → leb (length p) size ≡ true → length p ≤ size
    fits size h = ground arith
