-- ===== src/Mesh/Discovery/Laws.antt =====
-- Laws of src/BITCHAT/mesh/MeshDiscoveryRegistry.ts.
use i_tantra.Base.{
  ◌⊎◌, ◌++◌, length-append, ℕ, ◌+◌, ◌≤◌, ◌<◌, ◌≡◌, ◌≢◌, refl, sym, ap, ◌∙◌, true, false, [], ◌∷◌,
  Option, none, some, ok, ltb, length, All, text_eq, text_beq_iff, ◌==◌, Bool-cases, Result-cases,
  ok-injective, inl, inr, le_of_ltb, arith,
}
use i_tantra.Base.Dict
use i_tantra.Base.Dict.{
  lookup-insert, lookup-insert_self, lookup-remove, lookup-remove_ne, lookup-remove_self,
  length-insert-le, length-insert_present, length-remove-has, insert_absent,
}
use i_tantra.NodeId.{NodeId, normalize_id}
use i_tantra.Mesh.Discovery.{
  DiscoveredNode, Nodes, Registry, oldest, evict_oldest, normalize_reporter, refreshed,
  within_capacity, record_found, record_node, is_expired, get_found, get,
}

-- The found key belongs to the map, unless the search started with it.
oldest-has :
    (k : NodeId) (t : ℕ) (best : Option (NodeId × ℕ)) (m : Nodes)
    → oldest best m ≡ some (k, t)
    → (best ≡ some (k, t)) ⊎ (Dict.has k m ≡ true)
unfolding oldest Dict.has
oldest-has k t best [] h = inl h
oldest-has k t none ((j, n) ∷ m) h =
    ground (arith, text_beq_iff j k, oldest-has k t (some (j, n.discovered_at)) m h)
oldest-has k t (some (b, s)) ((j, n) ∷ m) h = elim (Bool-cases (ltb n.discovered_at s)) [
  | inl c ↦
      ground (arith, text_beq_iff j k, oldest-has k t (some (j, n.discovered_at)) m (rw c at h))
  | inr c ↦ ground (arith, oldest-has k t (some (b, s)) m (rw c at h))
]

-- A search that starts with an entry ends with one.
oldest_found :
    (k : NodeId) (t : ℕ) (m : Nodes)
    → (j : NodeId) × (s : ℕ) × (oldest (some (k, t)) m ≡ some (j, s))
unfolding oldest
oldest_found k t [] = (k, t, refl)
oldest_found k t ((j, n) ∷ m) = elim (Bool-cases (ltb n.discovered_at t)) [
  | inl c ↦ rw c (oldest_found j n.discovered_at m)
  | inr c ↦ rw c (oldest_found k t m)
]

length-evict_oldest :
    (x : NodeId × DiscoveredNode) (m : Nodes) → length (evict_oldest (x ∷ m)) ≤ length m
unfolding evict_oldest
length-evict_oldest (i, n) m =
    let (k, t, e) = oldest_found i n.discovered_at m in
    elim (oldest-has k t none ((i, n) ∷ m) e) [
      | inl no_start ↦ cc
      | inr present ↦ rw e (omega (arith, length-remove-has k ((i, n) ∷ m) present))
    ]

length-within_capacity : (c : ℕ) (m : Nodes) → length m ≤ c + 1 → length (within_capacity c m) ≤ c
unfolding within_capacity
length-within_capacity c [] h = ground arith
length-within_capacity c (x ∷ m) h = ground (arith, length-evict_oldest x m)

record_found-IsBounded :
    (o : Option DiscoveredNode) (r r' : Registry) (id : NodeId) (hops : ℕ)
    (reporter : Option NodeId) (now : ℕ)
    → length r.nodes ≤ r.max_entries
    → Dict.lookup id r.nodes ≡ o
    → record_found o r id hops reporter now ≡ ok r'
    → (length r'.nodes ≤ r'.max_entries) × (r'.max_entries ≡ r.max_entries)
unfolding record_found
record_found-IsBounded none r r' id hops reporter now h q f =
    elim (Result-cases (normalize_reporter reporter)) [
      | inr (x, k) ↦ cc
      | inl (rep, k) ↦
          let entry : DiscoveredNode = record {
            node_id = id;
            discovered_at = now;
            hop_count = hops;
            reported_by = rep;
          } in
          rw (← ok-injective (rw k at f)) (
            length-within_capacity r.max_entries (Dict.insert id entry r.nodes)
                (omega (arith, length-insert-le id entry r.nodes)),
            refl,
          )
    ]
record_found-IsBounded (some n) r r' id hops reporter now h q f =
    rw (← ok-injective f)
      (omega (arith, length-insert_present id (refreshed n hops reporter now) n r.nodes q), refl)

-- If the registry holds at most `maxEntries` nodes, it still does after a node was recorded,
-- whatever node it is, and `maxEntries` is the same.
pub record_node-IsBounded :
    (r r' : Registry) (node_id : NodeId) (hops : ℕ) (reporter : Option NodeId) (now : ℕ)
    → length r.nodes ≤ r.max_entries
    → record_node r node_id hops reporter now ≡ ok r'
    → (length r'.nodes ≤ r'.max_entries) × (r'.max_entries ≡ r.max_entries)
unfolding record_node
record_node-IsBounded r r' node_id hops reporter now h e =
    elim (Result-cases (normalize_id node_id)) [
      | inr (x, k) ↦ cc
      | inl (id, k) ↦
          record_found-IsBounded (Dict.lookup id r.nodes) r r' id hops reporter now h refl
            (rw k at e)
    ]

-- The entry is at most as old as `now`.
abbrev pub Past : ℕ → NodeId × DiscoveredNode → Type 0
Past now p = p.1.discovered_at ≤ now

-- With an entry `now` behind older ones, the search finds one of the older ones.
oldest_passes_new :
    (id k : NodeId) (s t now : ℕ) (best : NodeId) (n : DiscoveredNode) (m : Nodes)
    → All (Past now) m
    → s ≤ now
    → n.discovered_at ≡ now
    → best ≢ id
    → Dict.lookup id m ≡ none
    → oldest (some (best, s)) (m ++ (id, n) ∷ []) ≡ some (k, t)
    → k ≢ id
unfolding oldest Dict.lookup
oldest_passes_new id k s t now best n [] a hs hn ne l e =
    let later : ltb n.discovered_at s ≡ false = ground arith in λ same. ne (cc (rw later at e))
oldest_passes_new id k s t now best n ((j, v) ∷ m) (a, as') hs hn ne l e =
    elim (Bool-cases (j == id)) [
      | inl c ↦ cc (rw c at l)
      | inr c ↦ elim (Bool-cases (ltb v.discovered_at s)) [
        | inl d ↦
            oldest_passes_new id k v.discovered_at t now j n m as' a hn
              (ground (arith, text_beq_iff j id)) (rw c at l) (rw (d, oldest) at e)
        | inr d ↦
            oldest_passes_new id k s t now best n m as' hs hn ne (rw c at l) (rw (d, oldest) at e)
      ]
    ]

evict_keeps_new :
    (id : NodeId) (now : ℕ) (n : DiscoveredNode) (m : Nodes)
    → All (Past now) m
    → n.discovered_at ≡ now
    → 0 < length m
    → Dict.lookup id m ≡ none
    → Dict.lookup id (evict_oldest (m ++ (id, n) ∷ [])) ≡ Dict.lookup id (m ++ (id, n) ∷ [])
unfolding evict_oldest oldest
evict_keeps_new id now n [] a hn h l = absurd (omega arith)
evict_keeps_new id now n ((j, v) ∷ m) (a, rest) hn h l =
    let (k, t, e) = oldest_found j v.discovered_at (m ++ (id, n) ∷ []) in
    let ne : j ≢ id = differs in
    let passed = oldest_passes_new id k v.discovered_at t now j n m rest a hn ne tail_none e in
    rw e (lookup-remove_ne k id _ passed)
  where
    differs : j ≢ id
    differs = λ same. unfold Dict.lookup in cc (rw ((text_beq_iff j id).1 same) at l)

    tail_none : Dict.lookup id m ≡ none
    tail_none = unfold Dict.lookup in ground (arith, l)

within_capacity-present :
    (id : NodeId) (now c : ℕ) (n : DiscoveredNode) (m : Nodes)
    → 0 < c
    → All (Past now) m
    → n.discovered_at ≡ now
    → Dict.lookup id m ≡ none
    → Dict.lookup id (within_capacity c (Dict.insert id n m)) ≡ some n
unfolding within_capacity
within_capacity-present id now c n m h0 a hn l =
    let there : Dict.lookup id (m ++ (id, n) ∷ []) ≡ some n =
      rw (insert_absent id n m l) at (lookup-insert_self id n m) in
    rw (insert_absent id n m l) (elim (Bool-cases (ltb c (length (m ++ (id, n) ∷ [])))) [
      | inl over ↦
          rw over
            (evict_keeps_new id now n m a hn (room over (length-append m ((id, n) ∷ []))) l ∙ there)
      | inr fits ↦ rw fits there
    ])
  where
    room :
        ltb c (length (m ++ (id, n) ∷ [])) ≡ true
        → length (m ++ (id, n) ∷ []) ≡ length m + 1
        → 0 < length m
    room o len = ground arith

refreshed-discovered_at :
    (n : DiscoveredNode) (hops : ℕ) (reporter : Option NodeId) (now : ℕ)
    → (refreshed n hops reporter now).discovered_at ≡ now
unfolding refreshed
refreshed-discovered_at n hops reporter now = ground arith

record_found-present :
    (o : Option DiscoveredNode) (r r' : Registry) (id : NodeId) (hops : ℕ)
    (reporter : Option NodeId) (now : ℕ)
    → 0 < r.max_entries
    → All (Past now) r.nodes
    → Dict.lookup id r.nodes ≡ o
    → record_found o r id hops reporter now ≡ ok r'
    → (n : DiscoveredNode) × (Dict.lookup id r'.nodes ≡ some n) × (n.discovered_at ≡ now)
unfolding record_found
record_found-present none r r' id hops reporter now h0 a q f =
    elim (Result-cases (normalize_reporter reporter)) [
      | inr (x, k) ↦ cc
      | inl (rep, k) ↦
          let entry : DiscoveredNode = record {
            node_id = id;
            discovered_at = now;
            hop_count = hops;
            reported_by = rep;
          } in
          rw (← ok-injective (rw k at f))
            (entry, within_capacity-present id now r.max_entries entry r.nodes h0 a refl q, refl)
    ]
record_found-present (some n) r r' id hops reporter now h0 a q f = rw (← ok-injective f) (
  refreshed n hops reporter now,
  lookup-insert_self id _ r.nodes,
  refreshed-discovered_at n hops reporter now,
)

-- The node just recorded can be looked up, with the time of this sighting, even if the registry was
-- full: provided the registry may hold a node at all, and none of its sightings lies in the future.
pub record_node-present :
    (r r' : Registry) (node_id id : NodeId) (hops : ℕ) (reporter : Option NodeId) (now : ℕ)
    → 0 < r.max_entries
    → All (Past now) r.nodes
    → normalize_id node_id ≡ ok id
    → record_node r node_id hops reporter now ≡ ok r'
    → (n : DiscoveredNode) × (Dict.lookup id r'.nodes ≡ some n) × (n.discovered_at ≡ now)
unfolding record_node
record_node-present r r' node_id id hops reporter now h0 a k e =
    record_found-present (Dict.lookup id r.nodes) r r' id hops reporter now h0 a refl (rw k at e)

get_found-fresh :
    (o : Option DiscoveredNode) (r r' : Registry) (id : NodeId) (now : ℕ) (n : DiscoveredNode)
    → ◌≡◌ {A = Registry × Option DiscoveredNode} (get_found o r id now) (r', some n)
    → (o ≡ some n) × (now ≤ n.discovered_at + r.retention_ms) × (r' ≡ r)
unfolding get_found is_expired
get_found-fresh none r r' id now n f = cc (ap (λ (x : Registry × Option DiscoveredNode). x.1) f)
get_found-fresh (some v) r r' id now n f = elim (Bool-cases (is_expired r.retention_ms now v)) [
  | inl t ↦ cc (ap (λ (x : Registry × Option DiscoveredNode). x.1) (rw t at f))
  | inr t ↦
      let kept : some v ≡ some n = ap (λ (x : Registry × Option DiscoveredNode). x.1) (rw t at f) in
      let same : v ≡ n = cc in
      (
        kept,
        rw (← same) (le_of_ltb (v.discovered_at + r.retention_ms) now t),
        sym (ap (λ (x : Registry × Option DiscoveredNode). x.0) (rw t at f)),
      )
]

-- What `get` returns is in the registry and not expired, and the registry is then left as it was.
pub get-fresh :
    (r r' : Registry) (node_id id : NodeId) (now : ℕ) (n : DiscoveredNode)
    → normalize_id node_id ≡ ok id
    → get r node_id now ≡ ok (r', some n)
    → (Dict.lookup id r.nodes ≡ some n) × (now ≤ n.discovered_at + r.retention_ms) × (r' ≡ r)
unfolding get
get-fresh r r' node_id id now n k e =
    get_found-fresh (Dict.lookup id r.nodes) r r' id now n (ok-injective (rw k at e))
