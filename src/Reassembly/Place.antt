-- ===== src/Reassembly/Place.antt =====
-- `tryComplete` of src/protocol/Reassembler.ts.
use i_tantra.Base.{
  nat_beq_self, append_assoc, ℕ, ◌+◌, ◌≡◌, refl, sym, ap, ◌∙◌, true, List, [], ◌∷◌, ◌++◌, length,
  length-append, nat_beq, overwrite, set_from, if◌then◌else◌, Bool-cases, inl, inr, Text, text_eq,
  arith,
}
use i_tantra.Base.Dict
use i_tantra.Bytes.{Bytes, zeros}
use i_tantra.Bytes.Laws.{zeros-add}
use i_tantra.Reassembly.{
  FragmentState, Groups, complete, error, byte_sum_mismatch, byte_sum, insert_index, sort_by_index,
  place, try_complete,
}

-- The fragments' bytes, one fragment after the other.
abbrev pub concat : List (ℕ × Bytes) → Bytes
concat [] = []
concat ((i, f) ∷ rest) = f ++ concat rest

append_nil : (xs : Bytes) → xs ++ [] ≡ xs
append_nil [] = refl
append_nil (x ∷ xs) = ap (◌∷◌ x) (append_nil xs)

overwrite-zeros : (f : Bytes) (n : ℕ) → overwrite (zeros (length f + n)) f ≡ f ++ zeros n
overwrite-zeros f n = rw (zeros-add (length f) n) (go f)
  where
    go : (g : Bytes) → overwrite (zeros (length g) ++ zeros n) g ≡ g ++ zeros n
    go [] = refl
    go (x ∷ g) = ap (◌∷◌ x) (go g)

set_from-append :
    (pre buf src : Bytes) → set_from (pre ++ buf) (length pre) src ≡ pre ++ overwrite buf src
set_from-append [] buf src = refl
set_from-append (x ∷ pre) buf src = ap (◌∷◌ x) (set_from-append pre buf src)

place_from :
    (fs : List (ℕ × Bytes)) (pre : Bytes)
    → place fs (pre ++ zeros (byte_sum fs)) (length pre)
      ≡ (pre ++ concat fs, length pre + byte_sum fs)
unfolding place byte_sum
place_from [] pre = let z : length pre + 0 ≡ length pre = omega arith in rw z refl
place_from ((i, f) ∷ fs) pre =
    let sum = byte_sum fs in
    let next : length pre + length f ≡ length (pre ++ f) = sym (length-append pre f) in
    let total : length (pre ++ f) + sum ≡ length pre + (length f + sum) =
      omega (arith, length-append pre f) in
    rw
      (
        set_from-append pre (zeros (length f + sum)) f,
        overwrite-zeros f sum,
        ← append_assoc pre f (zeros sum),
        next,
      )
      (place_from fs (pre ++ f) ∙ rw (append_assoc pre f (concat fs), total) refl)

pub place_all :
    (fs : List (ℕ × Bytes)) → place fs (zeros (byte_sum fs)) 0 ≡ (concat fs, byte_sum fs)
place_all fs =
    let z : length {A = ℕ} [] + byte_sum fs ≡ byte_sum fs = omega arith in
    place_from fs [] ∙ ap (λ (n : ℕ). (concat fs, n)) z

byte_sum-insert_index :
    (i : ℕ) (f : Bytes) (fs : List (ℕ × Bytes))
    → byte_sum (insert_index (i, f) fs) ≡ length f + byte_sum fs
unfolding byte_sum insert_index
byte_sum-insert_index i f [] = refl
byte_sum-insert_index i f ((j, g) ∷ fs) = ground (arith, byte_sum-insert_index i f fs)

byte_sum-sort_by_index : (fs : List (ℕ × Bytes)) → byte_sum (sort_by_index fs) ≡ byte_sum fs
unfolding byte_sum sort_by_index
byte_sum-sort_by_index [] = refl
byte_sum-sort_by_index ((i, f) ∷ fs) =
    byte_sum-insert_index i f (sort_by_index fs) ∙ omega (arith, byte_sum-sort_by_index fs)

nat_beq-true : (m n : ℕ) → nat_beq m n ≡ true → m ≡ n
nat_beq-true m n h = ground arith

-- A complete group is removed. It yields the bytes of its fragments in the order of their numbers if
-- their lengths add up to the declared length, and a byte sum error otherwise: the offset check
-- behind the sum check never fails.
pub try_complete_lem :
    (state : FragmentState) (key : Text) (groups : Groups)
    → try_complete state key groups ≡ (
      Dict.remove key groups,
      if nat_beq (byte_sum state.fragments) state.v6a_length
          then complete (concat (sort_by_index state.fragments))
          else error byte_sum_mismatch,
    )
unfolding try_complete
try_complete_lem state key groups =
    elim (Bool-cases (nat_beq (byte_sum state.fragments) state.v6a_length)) [
      | inr f ↦ rw f refl
      | inl t ↦
          let sorted = sort_by_index state.fragments in
          let same : state.v6a_length ≡ byte_sum sorted =
            sym (nat_beq-true (byte_sum state.fragments) state.v6a_length t)
            ∙ sym (byte_sum-sort_by_index state.fragments) in
          rw t (rw (same, place_all sorted, nat_beq_self (byte_sum sorted)) refl)
    ]
