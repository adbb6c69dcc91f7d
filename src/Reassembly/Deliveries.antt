-- ===== src/Reassembly/Deliveries.antt =====
-- The results of src/protocol/Reassembler.ts for the fragments of a packet, one by one.
use i_tantra.Base.{
  nat_beq_self, ℕ, zero, suc, ◌+◌, ◌*◌, ◌≤◌, ◌<◌, ◌≡◌, refl, sym, ap, ◌∙◌, List, [], ◌∷◌, none, ok,
  ◌-◌, ◌/◌, ◌%◌, ◌^◌, ◌⊎◌, inl, inr, Bool-cases, throw_if-eq-ok, ok-injective, le_of_ltb, ltb, leb,
  length, nat_eq, drop, Text, text_eq, if◌then◌else◌, arith,
}
use i_tantra.Base.Dict
use i_tantra.Base.Dict.{lookup-insert_self}
use i_tantra.Bytes.{Bytes}
use i_tantra.Fragment.{
  FragmentChunk, make_chunk, split_loop, split_sized, split_v6a_for_budget, data_bytes_per_fragment,
  max_v6a_length,
}
use i_tantra.Fragment.Header.{chunk_of}
use i_tantra.Fragment.Split.{make_chunk-data, enough}
use i_tantra.Reassembly.{
  FragmentState, Groups, incomplete, complete, open_group, add_to_group, add_fragment,
  store_fragment, make_group_key, abort_oldest_group, max_concurrent_groups,
}
use i_tantra.Reassembly.InOrder.{
  Progress, header_of, nat_beq_ne, store_fragment-Progress, add_to_group-next,
}
use i_tantra.Reassembly.Arrive.{header_lem, add_fragment-checked, try_complete-Progress}

-- Every fragment but the last leaves the packet incomplete, and the last one completes it.
pub data Completes (s : Text) (clock : ℕ → ℕ) (p : Bytes)
    : ℕ → Groups → List FragmentChunk → Groups → Type 0 where
  last :
      {k : ℕ} {m m' : Groups} {c : FragmentChunk}
      → add_fragment m s c.header (drop 9 c.payload) (clock k) ≡ (m', complete p)
      → Completes s clock p k m (c ∷ []) m'
  more :
      {k : ℕ} {m m1 m' : Groups} {c : FragmentChunk} {cs : List FragmentChunk}
      → add_fragment m s c.header (drop 9 c.payload) (clock k) ≡ (m1, incomplete)
      → Completes s clock p (k + 1) m1 cs m'
      → Completes s clock p k m (c ∷ cs) m'

module _ (t size g : ℕ) (p : Bytes) (s : Text) (clock : ℕ → ℕ) (ht : t ≤ 128) (h0 : 0 < length p)
    (hl : length p ≤ max_v6a_length) (enough' : length p ≤ t * size) where
  -- A fragment arrives in the group that is open for it.
  arrives :
      (k : ℕ) (m : Groups)
      → k < t
      → add_fragment m s
          (make_chunk size t g k p).header
          (drop 9 (make_chunk size t g k p).payload)
          (clock k)
        ≡ add_to_group
            (open_group
              (Dict.lookup (make_group_key s g) m)
              s
              (header_of k t g p)
              (make_group_key s g)
              (clock k)
              m)
            (make_group_key s g)
            (header_of k t g p)
            (chunk_of size k p)
            (clock k)
  arrives k m hk =
      rw (header_lem size t g k p, make_chunk-data size t g k p)
        (add_fragment-checked k t g p (chunk_of size k p) m s (clock k) hk ht h0 hl)

  completes_from :
      (r k : ℕ) (m m0 : Groups) (st : FragmentState)
      → k + suc r ≡ t
      → Progress k t size p st
      → open_group
          (Dict.lookup (make_group_key s g) m0)
          s
          (header_of k t g p)
          (make_group_key s g)
          (clock k)
          m0
        ≡ (m, st)
      → (m' : Groups) × Completes s clock p k m0 (split_loop (suc r) k size t g p) m'
  unfolding split_loop open_group
  completes_from zero k m m0 st hk pr opened =
      let whole : k + 1 ≡ t = omega arith in
      let stored = store_fragment st (header_of k t g p) (chunk_of size k p) (clock k) in
      let pr' : Progress t t size p stored =
        rw whole at (store_fragment-Progress k t size g p st (clock k) pr) in
      let key = make_group_key s g in
      let m1 = Dict.insert key stored m in
      (
        Dict.remove key m1,
        last (
            arrives k m0 (omega arith)
            ∙ rw (opened, add_to_group-next k t size g p m key st (clock k) pr)
                (rw (whole, nat_beq_self t)
                  (try_complete-Progress t size p stored key m1 enough' pr'))),
      )
  completes_from (suc r) k m m0 st hk pr opened =
      let stored = store_fragment st (header_of k t g p) (chunk_of size k p) (clock k) in
      let key = make_group_key s g in
      let m1 = Dict.insert key stored m in
      let (m', rest) =
        completes_from r (k + 1) m1 m1 stored (omega arith)
          (store_fragment-Progress k t size g p st (clock k) pr)
          (rw (lookup-insert_self key stored m) refl) in
      (
        m',
        more
            (arrives k m0 (omega arith)
              ∙ rw (opened, add_to_group-next k t size g p m key st (clock k) pr)
                  (rw (nat_beq_ne (k + 1) t (omega arith)) refl))
            rest,
      )

  -- The fragments of a packet for which no group is open.
  pub split_loop-Completes :
      (r : ℕ) (m : Groups)
      → suc r ≡ t
      → Dict.lookup (make_group_key s g) m ≡ none
      → (m' : Groups) × Completes s clock p 0 m (split_loop (suc r) 0 size t g p) m'
  unfolding open_group
  split_loop-Completes r m hr new =
      let key = make_group_key s g in
      let room = if leb max_concurrent_groups (length m) then abort_oldest_group m else m in
      let fresh : FragmentState = record {
        source_id = s;
        group_id = g;
        total_fragments = t;
        v6a_length = length p;
        fragments = [];
        received_count = 0;
        created_at = clock 0;
        last_activity_at = clock 0;
      } in
      completes_from r 0 (Dict.insert key fresh room) m fresh (omega arith) (refl, refl, refl, refl)
        (rw new refl)

predecessor : (t : ℕ) → 0 < t → (r : ℕ) × (suc r ≡ t)
predecessor zero h = absurd (omega arith)
predecessor (suc r) h = (r, refl)

some_fragment : (n t size : ℕ) → 0 < n → n ≤ t * size → 0 < t
some_fragment n zero size h k = absurd (omega arith)
some_fragment n (suc t) size h k = omega arith

pub split_sized-Completes :
    (counter next size : ℕ) (p : Bytes) (cs : List FragmentChunk) (s : Text) (clock : ℕ → ℕ)
    (m : Groups)
    → split_sized counter size p ≡ ok (cs, next)
    → 0 < size
    → 0 < length p
    → Dict.lookup (make_group_key s (counter % 2 ^ 32)) m ≡ none
    → (m' : Groups) × Completes s clock p 0 m cs m'
unfolding split_sized
split_sized-Completes counter next size p cs s clock m e hs h0 new =
    let t = (length p + (size - 1)) / size in
    let (e1, r1) = throw_if-eq-ok (ltb max_v6a_length (length p)) _ _ _ e in
    let (e2, r2) = throw_if-eq-ok (ltb 128 t) _ _ _ r1 in
    let g = counter % 2 ^ 32 in
    let same : split_loop t 0 size t g p ≡ cs =
      ap (λ (x : List FragmentChunk × ℕ). x.0) (ok-injective r2) in
    let whole = enough (length p) size hs in
    let (r, hr) = predecessor t (some_fragment (length p) t size h0 whole) in
    let (m', done) =
      split_loop-Completes t size g p s clock (le_of_ltb 128 t e2) h0
        (le_of_ltb max_v6a_length (length p) e1) whole r m hr new in
    (m', rw (ap (λ (n : ℕ). split_loop n 0 size t g p) hr ∙ same) at done)

-- A packet split under a budget is sent whole or, when its fragments arrive in order, completed.
pub split_v6a_for_budget-Completes :
    (counter next budget : ℕ) (p : Bytes) (cs : List FragmentChunk) (s : Text) (clock : ℕ → ℕ)
    (m : Groups)
    → split_v6a_for_budget counter p budget ≡ ok (cs, next)
    → 0 < length p
    → Dict.lookup (make_group_key s (counter % 2 ^ 32)) m ≡ none
    → (cs ≡ []) ⊎ ((m' : Groups) × Completes s clock p 0 m cs m')
unfolding split_v6a_for_budget data_bytes_per_fragment
split_v6a_for_budget-Completes counter next budget p cs s clock m e h0 new =
    let (e1, r1) = throw_if-eq-ok (ltb budget 10) _ _ _ e in
    let big = le_of_ltb budget 10 e1 in
    let size = data_bytes_per_fragment budget in
    elim (Bool-cases (leb (length p) size)) [
      | inl t ↦
          let same : ◌≡◌ {A = List FragmentChunk × ℕ} ([], counter) (cs, next) =
            ok-injective (rw t at r1) in
          inl (sym (ap (λ (x : List FragmentChunk × ℕ). x.0) same))
      | inr f ↦
          inr (
            split_sized-Completes counter next size p cs s clock m (rw f at r1) (omega arith) h0
              new)
    ]

-- What is split under a budget is not too long.
pub length-split_v6a_for_budget :
    (counter next budget : ℕ) (p : Bytes) (cs : List FragmentChunk)
    → split_v6a_for_budget counter p budget ≡ ok (cs, next)
    → length p ≤ max_v6a_length
unfolding split_v6a_for_budget data_bytes_per_fragment split_sized
length-split_v6a_for_budget counter next budget p cs e =
    let (e1, r1) = throw_if-eq-ok (ltb budget 10) _ _ _ e in
    elim (Bool-cases (leb (length p) (data_bytes_per_fragment budget))) [
      | inl t ↦ ground arith
      | inr f ↦
          let (e2, r2) = throw_if-eq-ok (ltb max_v6a_length (length p)) _ _ _ (rw f at r1) in
          le_of_ltb max_v6a_length (length p) e2
    ]
