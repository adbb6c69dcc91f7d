-- ===== src/Reassembly/Ordered.antt =====
-- The order in which `tryComplete` of src/protocol/Reassembler.ts joins the fragments.
use mathlib.Core.List.{Perm}
use mathlib.Core.List.Perm
use i_tantra.Base.{
  ℕ, ◌≤◌, ◌≡◌, List, [], ◌∷◌, leb, nat_beq, Bool-cases, inl, inr, Text, text_eq, arith,
  if◌then◌else◌,
}
use i_tantra.Base.Dict
use i_tantra.Bytes.{Bytes}
use i_tantra.Reassembly.{
  FragmentState, Groups, complete, error, byte_sum_mismatch, byte_sum, insert_index, sort_by_index,
  try_complete,
}
use i_tantra.Reassembly.Place.{concat, try_complete_lem}

-- The fragments' numbers do not fall.
abbrev pub IsAscending : List (ℕ × Bytes) → Type 0
IsAscending [] = Unit {0}
IsAscending (x ∷ []) = Unit {0}
IsAscending (x ∷ y ∷ rest) = (x.0 ≤ y.0) × IsAscending (y ∷ rest)

-- Behind a fragment that comes no later.
insert_index-IsAscending :
    (x : ℕ × Bytes) (fs : List (ℕ × Bytes)) → IsAscending fs → IsAscending (insert_index x fs)
unfolding insert_index
insert_index-IsAscending (i, f) [] h = tt
insert_index-IsAscending (i, f) ((j, g) ∷ []) h = ground arith
insert_index-IsAscending (i, f) ((j, g) ∷ (k, l) ∷ rest) (le, h) =
    ground (arith, insert_index-IsAscending (i, f) ((k, l) ∷ rest) h)

sort_by_index-IsAscending : (fs : List (ℕ × Bytes)) → IsAscending (sort_by_index fs)
unfolding sort_by_index
sort_by_index-IsAscending [] = tt
sort_by_index-IsAscending (x ∷ fs) =
    insert_index-IsAscending x (sort_by_index fs) (sort_by_index-IsAscending fs)

insert_index-Perm : (x : ℕ × Bytes) (fs : List (ℕ × Bytes)) → Perm (insert_index x fs) (x ∷ fs)
unfolding insert_index
insert_index-Perm (i, f) [] = Perm.refl _
insert_index-Perm (i, f) ((j, g) ∷ rest) = elim (Bool-cases (leb i j)) [
  | inl t ↦ rw t (Perm.refl _)
  | inr n ↦
      rw n (
        Perm.trans (Perm.cons (j, g) (insert_index-Perm (i, f) rest))
          (Perm.swap (i, f) (j, g) rest))
]

sort_by_index-Perm : (fs : List (ℕ × Bytes)) → Perm (sort_by_index fs) fs
unfolding sort_by_index
sort_by_index-Perm [] = Perm.refl []
sort_by_index-Perm (x ∷ fs) =
    Perm.trans (insert_index-Perm x (sort_by_index fs)) (Perm.cons x (sort_by_index-Perm fs))

-- A complete group is removed. If the lengths of its fragments add up to the declared length, it yields
-- their bytes, one fragment after the other in the ascending order of their numbers, and a byte sum
-- error otherwise: the offset check behind the sum check never fails.
pub try_complete-IsAscending :
    (state : FragmentState) (key : Text) (groups : Groups)
    → (sorted : List (ℕ × Bytes)) × IsAscending sorted
      × Perm sorted state.fragments
      × (try_complete state key groups ≡ (
        Dict.remove key groups,
        if nat_beq (byte_sum state.fragments) state.v6a_length
            then complete (concat sorted)
            else error byte_sum_mismatch,
      ))
try_complete-IsAscending state key groups = (
  sort_by_index state.fragments,
  sort_by_index-IsAscending state.fragments,
  sort_by_index-Perm state.fragments,
  try_complete_lem state key groups,
)
