-- ===== src/Reassembly/Bounded.antt =====
-- The number of open groups in src/protocol/Reassembler.ts.
use i_tantra.Base.{
  ℕ, ◌≤◌, ◌≡◌, ◌⊎◌, refl, true, [], ◌∷◌, Option, none, some, ltb, leb, nat_eq, length, Text,
  text_eq, text_beq_iff, if◌then◌else◌, Bool-cases, inl, inr, arith,
}
use i_tantra.Base.Dict
use i_tantra.Base.Dict.{
  length-remove-has, length-remove-le, length-insert-le, length-insert_present, lookup-insert_self,
}
use i_tantra.Bytes.{Bytes}
use i_tantra.Fragment.{FragmentHeader}
use i_tantra.Reassembly.{
  FragmentState, Groups, oldest, delete_found, abort_oldest_group, open_group, add_to_group,
  add_fragment, store_fragment, make_group_key, max_concurrent_groups,
}
use i_tantra.Reassembly.Place.{try_complete_lem}

-- The found key belongs to the map, unless the search started with it.
oldest-has :
    (k : Text) (t : ℕ) (best : Option (Text × ℕ)) (m : Groups)
    → oldest best m ≡ some (k, t)
    → (best ≡ some (k, t)) ⊎ (Dict.has k m ≡ true)
unfolding oldest Dict.has
oldest-has k t best [] h = inl h
oldest-has k t none ((j, n) ∷ m) h =
    ground (arith, text_beq_iff j k, oldest-has k t (some (j, n.created_at)) m h)
oldest-has k t (some (b, s)) ((j, n) ∷ m) h = elim (Bool-cases (ltb n.created_at s)) [
  | inl c ↦ ground (arith, text_beq_iff j k, oldest-has k t (some (j, n.created_at)) m (rw c at h))
  | inr c ↦ ground (arith, oldest-has k t (some (b, s)) m (rw c at h))
]

oldest_found :
    (k : Text) (t : ℕ) (m : Groups) → (j : Text) × (s : ℕ) × (oldest (some (k, t)) m ≡ some (j, s))
unfolding oldest
oldest_found k t [] = (k, t, refl)
oldest_found k t ((j, n) ∷ m) = elim (Bool-cases (ltb n.created_at t)) [
  | inl c ↦ rw c (oldest_found j n.created_at m)
  | inr c ↦ rw c (oldest_found k t m)
]

length-abort_oldest_group :
    (x : Text × FragmentState) (m : Groups) → length (abort_oldest_group (x ∷ m)) ≤ length m
unfolding abort_oldest_group oldest
length-abort_oldest_group (i, n) m =
    let (k, t, e) = oldest_found i n.created_at m in
    elim (oldest-has k t none ((i, n) ∷ m) (unfold oldest in e)) [
      | inl no_start ↦ cc
      | inr present ↦
          rw e (unfold delete_found in omega (arith, length-remove-has k ((i, n) ∷ m) present))
    ]

room-length :
    (m : Groups)
    → length m ≤ 8
    → length (if leb max_concurrent_groups (length m) then abort_oldest_group m else m) ≤ 7
room-length [] h = ground arith
room-length (x ∷ m) h = ground (arith, length-abort_oldest_group x m)

-- The key's group is open, and there are at most eight.
open_group-IsOpen :
    (o : Option FragmentState) (s : Text) (h : FragmentHeader) (key : Text) (now : ℕ) (m : Groups)
    → Dict.lookup key m ≡ o
    → length m ≤ 8
    → (length (open_group o s h key now m).0 ≤ 8)
      × (Dict.lookup key (open_group o s h key now m).0 ≡ some (open_group o s h key now m).1)
unfolding open_group
open_group-IsOpen (some st) s h key now m q b = (b, q)
open_group-IsOpen none s h key now m q b = (
  omega (
    arith,
    room-length m b,
    length-insert-le key _
        (if leb max_concurrent_groups (length m) then abort_oldest_group m else m),
  ),
  lookup-insert_self key _ _,
)

add_to_group-IsBounded :
    (m : Groups) (st : FragmentState) (key : Text) (h : FragmentHeader) (p : Bytes) (now : ℕ)
    → Dict.lookup key m ≡ some st
    → length m ≤ 8
    → length (add_to_group (m, st) key h p now).0 ≤ 8
unfolding add_to_group
add_to_group-IsBounded m st key h p now q b =
    let removed = length-remove-le key m in
    let touched = length-insert_present key (record st { last_activity_at = now }) st m q in
    let stored = length-insert_present key (store_fragment st h p now) st m q in
    let finished = length-remove-le key (Dict.insert key (store_fragment st h p now) m) in
    rw
      (try_complete_lem (store_fragment st h p now) key
        (Dict.insert key (store_fragment st h p now) m))
      (ground (arith, removed, touched, stored, finished, b))

-- If at most eight groups are open, at most eight are open after any fragment.
pub add_fragment-IsBounded :
    (m : Groups) (source_id : Text) (h : FragmentHeader) (p : Bytes) (now : ℕ)
    → length m ≤ max_concurrent_groups
    → length (add_fragment m source_id h p now).0 ≤ max_concurrent_groups
unfolding add_fragment
add_fragment-IsBounded m source_id h p now b =
    let key = make_group_key source_id h.group_id in
    let (fits, there) = open_group-IsOpen (Dict.lookup key m) source_id h key now m refl b in
    let opened = open_group (Dict.lookup key m) source_id h key now m in
    ground (arith, b, add_to_group-IsBounded opened.0 opened.1 key h p now there fits)
