-- ===== src/Reassembly/Pieces.antt =====
-- The fragments of one packet as the reassembler stores them, in the order of their numbers.
use i_tantra.Base.{
  ℕ, zero, suc, ◌+◌, ◌-◌, ◌*◌, ◌≤◌, ◌≡◌, refl, ap, ◌∙◌, true, false, List, [], ◌∷◌, ◌++◌, none,
  length, length-append, nat_beq, nat_eq, leb, arith,
}
use i_tantra.Base.Dict
use i_tantra.Bytes.{Bytes}
use i_tantra.Fragment.{split_loop}
use i_tantra.Fragment.Header.{chunk_of, length-chunk_of}
use i_tantra.Fragment.Split.{data_of, make_chunk-data, split_loop-data}
use i_tantra.Reassembly.{byte_sum, insert_index, sort_by_index}
use i_tantra.Reassembly.Place.{concat}

-- The fragments from number `i` on, `rounds` of them.
abbrev pub pieces : ℕ → ℕ → ℕ → Bytes → List (ℕ × Bytes)
pieces zero i size p = []
pieces (suc r) i size p = (i, chunk_of size i p) ∷ pieces r (i + 1) size p

pub pieces_snoc :
    (r i size : ℕ) (p : Bytes)
    → pieces (suc r) i size p ≡ pieces r i size p ++ (i + r, chunk_of size (i + r) p) ∷ []
pieces_snoc zero i size p = let z : i + 0 ≡ i = omega arith in rw z refl
pieces_snoc (suc r) i size p =
    let next : i + 1 + r ≡ i + suc r = omega arith in
    ap (◌∷◌ (i, chunk_of size i p)) (pieces_snoc r (i + 1) size p ∙ rw next refl)

-- A number behind the stored ones is absent.
pub pieces_absent :
    (r i j size : ℕ) (p : Bytes)
    → i + r ≤ j
    → (Dict.lookup j (pieces r i size p) ≡ none) × (Dict.has j (pieces r i size p) ≡ false)
unfolding Dict.lookup Dict.has
pieces_absent zero i j size p h = (refl, refl)
pieces_absent (suc r) i j size p h =
    let different : nat_beq i j ≡ false = ground arith in
    rw different (pieces_absent r (i + 1) j size p (omega arith))

insert_index_first :
    (r i size : ℕ) (p f : Bytes)
    → insert_index (i, f) (pieces r (i + 1) size p) ≡ (i, f) ∷ pieces r (i + 1) size p
unfolding insert_index
insert_index_first zero i size p f = refl
insert_index_first (suc r) i size p f =
    let before : leb i (i + 1) ≡ true = ground arith in rw before refl

pub sort_by_index-pieces :
    (r i size : ℕ) (p : Bytes) → sort_by_index (pieces r i size p) ≡ pieces r i size p
unfolding sort_by_index
sort_by_index-pieces zero i size p = refl
sort_by_index-pieces (suc r) i size p =
    rw (sort_by_index-pieces r (i + 1) size p) (insert_index_first r i size p (chunk_of size i p))

pub byte_sum-pieces-le :
    (r i size : ℕ) (p : Bytes) → byte_sum (pieces r i size p) ≤ length p - i * size
unfolding byte_sum
byte_sum-pieces-le zero i size p = omega arith
byte_sum-pieces-le (suc r) i size p =
    let next : i * size + size ≡ (i + 1) * size = omega arith in
    omega (arith, length-chunk_of size i p, byte_sum-pieces-le r (i + 1) size p, next)

pub byte_sum-append :
    (xs : List (ℕ × Bytes)) (i : ℕ) (f : Bytes)
    → byte_sum (xs ++ (i, f) ∷ []) ≡ byte_sum xs + length f
unfolding byte_sum
byte_sum-append [] i f = omega arith
byte_sum-append ((j, g) ∷ xs) i f = omega (arith, byte_sum-append xs i f)

pub byte_sum-concat : (xs : List (ℕ × Bytes)) → byte_sum xs ≡ length (concat xs)
unfolding byte_sum
byte_sum-concat [] = refl
byte_sum-concat ((j, g) ∷ xs) = omega (arith, byte_sum-concat xs, length-append g (concat xs))

concat-pieces :
    (r i size t g : ℕ) (p : Bytes)
    → concat (pieces r i size p) ≡ data_of (split_loop r i size t g p)
unfolding split_loop
concat-pieces zero i size t g p = refl
concat-pieces (suc r) i size t g p =
    rw (make_chunk-data size t g i p, concat-pieces r (i + 1) size t g p) refl

zero_times : (n : ℕ) → 0 * n ≡ 0
zero_times n = omega arith

-- All pieces together are the packet.
pub concat-pieces_all :
    (t size : ℕ) (p : Bytes) → length p ≤ t * size → concat (pieces t 0 size p) ≡ p
concat-pieces_all t size p h =
    concat-pieces t 0 size t 0 p
    ∙ split_loop-data t 0 size t 0 p (omega arith)
    ∙ rw (zero_times size) refl
