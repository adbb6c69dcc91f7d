-- ===== src/Reassembly/Arrive.antt =====
-- All fragments of a packet of src/protocol/FragmentCodec.ts given to src/protocol/Reassembler.ts.
use i_tantra.Base.{
  nat_beq_self, ℕ, zero, suc, ◌+◌, ◌-◌, ◌*◌, ◌/◌, ◌%◌, ◌^◌, ◌≤◌, ◌<◌, ◌≡◌, refl, sym, ap, ◌∙◌,
  false, ◌||◌, List, [], ◌∷◌, none, ok, ltb, leb, length, nat_beq, nat_eq, drop, Text, text_eq,
  if◌then◌else◌, throw_if-eq-ok, ok-injective, le_of_ltb, arith,
}
use i_tantra.Base.Dict
use i_tantra.Base.Dict.{lookup-insert_self}
use i_tantra.Bytes.{Bytes}
use i_tantra.Fragment.{
  FragmentChunk, make_chunk, split_loop, split_sized, split_v6a, max_v6a_length,
}
use i_tantra.Fragment.Header.{chunk_of, make_chunk-header}
use i_tantra.Fragment.Split.{make_chunk-data, enough}
use i_tantra.Reassembly.{
  FragmentState, Groups, ReassemblyResult, complete, open_group, add_to_group, add_fragment,
  store_fragment, try_complete, make_group_key, abort_oldest_group, byte_sum, max_concurrent_groups,
}
use i_tantra.Reassembly.Place.{try_complete_lem}
use i_tantra.Reassembly.Pieces.{pieces, sort_by_index-pieces, byte_sum-concat, concat-pieces_all}
use i_tantra.Reassembly.InOrder.{
  Progress, header_of, nat_beq_ne, store_fragment-Progress, add_to_group-next,
}

-- The fragments arrive one after the other, number `i` at time `clock i`; the last result counts.
abbrev pub receive_all :
    Groups × ReassemblyResult → Text → List FragmentChunk → ℕ → (ℕ → ℕ) → Groups × ReassemblyResult
receive_all (m, r) s [] i clock = (m, r)
receive_all (m, r) s (c ∷ cs) i clock =
    receive_all (add_fragment m s c.header (drop 9 c.payload) (clock i)) s cs (i + 1) clock

-- The last fragment completes the packet.
pub try_complete-Progress :
    (t size : ℕ) (p : Bytes) (st : FragmentState) (key : Text) (m : Groups)
    → length p ≤ t * size
    → Progress t t size p st
    → try_complete st key m ≡ (Dict.remove key m, complete p)
try_complete-Progress t size p st key m h (a, b, c, d) =
    let whole = concat-pieces_all t size p h in
    let sum : byte_sum (pieces t 0 size p) ≡ length p =
      byte_sum-concat (pieces t 0 size p) ∙ ap length whole in
    try_complete_lem st key m
    ∙ rw (d, b, sum, nat_beq_self (length p), sort_by_index-pieces t 0 size p, whole) refl

pub header_lem : (size t g i : ℕ) (p : Bytes) → (make_chunk size t g i p).header ≡ header_of i t g p
header_lem size t g i p = make_chunk-header size t g i p

receive_step :
    (size t g i : ℕ) (p : Bytes) (m : Groups) (last : ReassemblyResult) (s : Text)
    (cs : List FragmentChunk) (clock : ℕ → ℕ)
    → receive_all (m, last) s (make_chunk size t g i p ∷ cs) i clock
      ≡ receive_all
          (add_fragment m s (header_of i t g p) (chunk_of size i p) (clock i))
          s
          cs
          (i + 1)
          clock
receive_step size t g i p m last s cs clock =
    rw (header_lem size t g i p, make_chunk-data size t g i p) refl

-- The header of a fragment of a packet passes the checks.
pub add_fragment-checked :
    (k t g : ℕ) (p chunk : Bytes) (m : Groups) (s : Text) (now : ℕ)
    → k < t
    → t ≤ 128
    → 0 < length p
    → length p ≤ max_v6a_length
    → add_fragment m s (header_of k t g p) chunk now
      ≡ add_to_group
          (open_group
            (Dict.lookup (make_group_key s g) m)
            s
            (header_of k t g p)
            (make_group_key s g)
            now
            m)
          (make_group_key s g)
          (header_of k t g p)
          chunk
          now
unfolding add_fragment
add_fragment-checked k t g p chunk m s now hk ht h0 hl =
    let e1 : (ltb t 1 || ltb 128 t) ≡ false = ground arith in
    let e2 : leb t k ≡ false = ground arith in
    let e3 : (nat_beq (length p) 0 || ltb max_v6a_length (length p)) ≡ false = ground arith in
    rw (e1, e2, e3) refl

module _ (t size g : ℕ) (p : Bytes) (s : Text) (clock : ℕ → ℕ) (ht : t ≤ 128) (h0 : 0 < length p)
    (hl : length p ≤ max_v6a_length) (enough' : length p ≤ t * size) where
  from_group :
      (r k : ℕ) (m : Groups) (st : FragmentState)
      → k + suc r ≡ t
      → Progress k t size p st
      → (m' : Groups) × (receive_all
            (add_to_group
              (m, st)
              (make_group_key s g)
              (header_of k t g p)
              (chunk_of size k p)
              (clock k))
            s
            (split_loop r (k + 1) size t g p)
            (k + 1)
            clock
          ≡ (m', complete p))
  unfolding split_loop open_group
  from_group zero k m st hk pr =
      let last : k + 1 ≡ t = omega arith in
      let stored = store_fragment st (header_of k t g p) (chunk_of size k p) (clock k) in
      let pr' : Progress t t size p stored =
        rw last at (store_fragment-Progress k t size g p st (clock k) pr) in
      let key = make_group_key s g in
      (
        Dict.remove key (Dict.insert key stored m),
        rw (add_to_group-next k t size g p m key st (clock k) pr) (
            rw (last, nat_beq_self t)
              (rw (try_complete-Progress t size p stored key (Dict.insert key stored m) enough' pr')
                refl)),
      )
  from_group (suc r) k m st hk pr =
      let stored = store_fragment st (header_of k t g p) (chunk_of size k p) (clock k) in
      let key = make_group_key s g in
      let m1 = Dict.insert key stored m in
      let (m', rest) =
        from_group r (k + 1) m1 stored (omega arith)
          (store_fragment-Progress k t size g p st (clock k) pr) in
      (
        m',
        rw
            (
              add_to_group-next k t size g p m key st (clock k) pr,
              nat_beq_ne (k + 1) t (omega arith),
            )
            (rw
              (
                header_lem size t g (k + 1) p,
                make_chunk-data size t g (k + 1) p,
                add_fragment-checked (k + 1) t g p (chunk_of size (k + 1) p) m1 s (clock (k + 1))
                    (omega arith) ht h0 hl,
                lookup-insert_self key stored m,
              )
              rest),
      )

  first_fragment :
      (r : ℕ) (m : Groups) (last : ReassemblyResult)
      → suc r ≡ t
      → Dict.lookup (make_group_key s g) m ≡ none
      → (m' : Groups) × (receive_all (m, last) s (split_loop t 0 size t g p) 0 clock
          ≡ (m', complete p))
  unfolding split_loop open_group
  first_fragment r m last hr new =
      let key = make_group_key s g in
      let room = if leb max_concurrent_groups (length m) then abort_oldest_group m else m in
      let fresh : FragmentState = record {
        source_id = s;
        group_id = g;
        total_fragments = t;
        v6a_length = length p;
        fragments = [];
        received_count = 0;
        created_at = clock 0;
        last_activity_at = clock 0;
      } in
      let (m', rest) =
        from_group r 0 (Dict.insert key fresh room) fresh (omega arith) (refl, refl, refl, refl) in
      let unroll : split_loop t 0 size t g p ≡ make_chunk size t g 0 p ∷ split_loop r 1 size t g p =
        ap (λ (n : ℕ). split_loop n 0 size t g p) (sym hr) in
      (
        m',
        ap (λ (cs : List FragmentChunk). receive_all (m, last) s cs 0 clock) unroll
            ∙ receive_step size t g 0 p m last s (split_loop r 1 size t g p) clock
            ∙ rw
                (
                  add_fragment-checked 0 t g p (chunk_of size 0 p) m s (clock 0) (omega arith) ht h0
                      hl,
                  new,
                )
                rest,
      )

predecessor : (t : ℕ) → 0 < t → (r : ℕ) × (suc r ≡ t)
predecessor zero h = absurd (omega arith)
predecessor (suc r) h = (r, refl)

some_fragment : (n t : ℕ) → 0 < n → n ≤ t * 490 → 0 < t
some_fragment n zero h k = absurd (omega arith)
some_fragment n (suc t) h k = omega arith

-- A packet of more than 499 bytes that is split is delivered whole: when its fragments, and nothing
-- else, arrive in order, the last one completes the packet, at whatever times they arrive, whatever
-- other groups are open, and whether or not the oldest of them has to give way, provided the sender
-- has no group open under the packet's group number.
pub receive_all-split_v6a :
    (counter next : ℕ) (p : Bytes) (cs : List FragmentChunk) (s : Text) (m : Groups)
    (last : ReassemblyResult) (clock : ℕ → ℕ)
    → split_v6a counter p ≡ ok (cs, next)
    → 499 < length p
    → Dict.lookup (make_group_key s (counter % 2 ^ 32)) m ≡ none
    → (m' : Groups) × (receive_all (m, last) s cs 0 clock ≡ (m', complete p))
unfolding split_v6a split_sized
receive_all-split_v6a counter next p cs s m last clock e long new =
    let t = (length p + (490 - 1)) / 490 in
    let e0 : split_sized counter 490 p ≡ ok (cs, next) =
      unfold split_sized in rw (leb_gt (length p) 499 long) at e in
    let (e1, r1) = throw_if-eq-ok (ltb max_v6a_length (length p)) _ _ _ e0 in
    let (e2, r2) = throw_if-eq-ok (ltb 128 t) _ _ _ r1 in
    let same : split_loop t 0 490 t (counter % 2 ^ 32) p ≡ cs =
      ap (λ (x : List FragmentChunk × ℕ). x.0) (ok-injective r2) in
    let whole = enough (length p) 490 (omega arith) in
    let (r, hr) = predecessor t (some_fragment (length p) t (omega arith) whole) in
    rw (← same) (
      first_fragment t 490 (counter % 2 ^ 32) p s clock (le_of_ltb 128 t e2) (omega arith)
        (le_of_ltb max_v6a_length (length p) e1) whole r m last hr new)
  where
    leb_gt : (a b : ℕ) → b < a → leb a b ≡ false
    leb_gt a b h = ground arith
