-- ===== src/Mesh/Router/Laws.antt =====
-- Laws of src/BITCHAT/mesh/MeshRouter.ts.
use i_tantra.Base.{
  ℕ, ◌≡◌, refl, ap, ◌∙◌, Bool, true, false, not, ◌&&◌, ◌||◌, List, [], ◌∷◌, none, some, ok, filter,
  any, map, Text, text_eq, text_beq, text_beq_iff, ◌==◌, Bool-cases, ok-injective, inl, inr, arith,
}
use i_tantra.NodeId.{NodeId, normalize_id}
use i_tantra.Mesh.Peers.{PeerInfo}
use i_tantra.Mesh.Router.{
  MeshRouter, text_leb, insert_sorted, sort, is_connected, excluded_peers, is_member, eligible,
  get_relay_peers,
}

is_member-insert_sorted :
    (x y : Text) (ys : List Text) → is_member x (insert_sorted y ys) ≡ (y == x || is_member x ys)
unfolding is_member insert_sorted
is_member-insert_sorted x y [] = refl
is_member-insert_sorted x y (z ∷ ys) = elim (Bool-cases (text_leb y z)) [
  | inl t ↦ rw t
  | inr f ↦ rw (f, is_member-insert_sorted x y ys) (ground arith)
]

is_member-sort : (x : Text) (xs : List Text) → is_member x (sort xs) ≡ is_member x xs
unfolding is_member sort
is_member-sort x [] = refl
is_member-sort x (y ∷ ys) = rw (is_member-insert_sorted x y (sort ys), is_member-sort x ys)

-- A connected peer of that identifier is registered.
abbrev pub connected_as : NodeId → List PeerInfo → Bool
connected_as id peers = any (λ p. p.peer_id == id && is_connected p.state) peers

-- A peer of the same identifier is excluded alike.
same_member :
    (p : PeerInfo) (id : NodeId) (excluded : List NodeId)
    → text_beq p.peer_id id ≡ true
    → is_member p.peer_id excluded ≡ is_member id excluded
same_member p id excluded h =
    ap (λ (t : Text). is_member t excluded) ((text_beq_iff p.peer_id id).0 h)

is_member-eligible :
    (id : NodeId) (excluded : List NodeId) (ps : List PeerInfo)
    → is_member id (map (λ (p : PeerInfo). p.peer_id) (filter (eligible excluded) ps))
      ≡ (connected_as id ps && not (is_member id excluded))
unfolding is_member filter any eligible
is_member-eligible id excluded [] = refl
is_member-eligible id excluded (p ∷ ps) = elim (Bool-cases (eligible excluded p)) [
  | inl t ↦ rw t (ground (arith, t, is_member-eligible id excluded ps, same_member p id excluded))
  | inr f ↦ rw f (ground (arith, f, is_member-eligible id excluded ps, same_member p id excluded))
]

text_leb_total : (s t : Text) → text_leb s t ≡ false → text_leb t s ≡ true
unfolding text_leb
text_leb_total [] t h = cc
text_leb_total (a ∷ s) [] h = refl
text_leb_total (a ∷ s) (b ∷ t) h = ground (arith, text_leb_total s t)

-- Each text is at most the next.
abbrev pub IsSorted : List Text → Type 0
IsSorted [] = Unit
IsSorted (x ∷ []) = Unit
IsSorted (x ∷ y ∷ ys) = (text_leb x y ≡ true) × IsSorted (y ∷ ys)

insert_sorted-IsSorted : (x : Text) (ys : List Text) → IsSorted ys → IsSorted (insert_sorted x ys)
unfolding insert_sorted
insert_sorted-IsSorted x [] h = tt
insert_sorted-IsSorted x (y ∷ []) h = elim (Bool-cases (text_leb x y)) [
  | inl t ↦ rw t (t, tt)
  | inr f ↦ rw f (text_leb_total x y f, tt)
]
insert_sorted-IsSorted x (y ∷ z ∷ ys) h = elim (Bool-cases (text_leb x y)) [
  | inl t ↦ rw t (t, h)
  | inr f ↦ rw f (elim (Bool-cases (text_leb x z)) [
    | inl t ↦ rw t (text_leb_total x y f, (t, h.1))
    | inr g ↦ rw g (h.0, rw g at (insert_sorted-IsSorted x (z ∷ ys) h.1))
  ])
]

sort-IsSorted : (xs : List Text) → IsSorted (sort xs)
unfolding sort
sort-IsSorted [] = tt
sort-IsSorted (x ∷ xs) = insert_sorted-IsSorted x (sort xs) (sort-IsSorted xs)

-- For a packet that came from a known peer: the relay peers are in the order of their identifiers, and
-- an identifier is among them exactly if a connected peer has it and it is neither the local node's
-- nor, after normalisation, the incoming peer's.
pub get_relay_peers_lem :
    (router : MeshRouter) (peers : List PeerInfo) (c : ℕ) (cs : Text) (incoming : NodeId)
    (relay : List NodeId) (id : NodeId)
    → normalize_id (c ∷ cs) ≡ ok incoming
    → get_relay_peers router peers (some (c ∷ cs)) ≡ ok relay
    → IsSorted relay
      × (is_member id relay
          ≡ (connected_as id peers && not (router.local_node_id == id || incoming == id)))
unfolding get_relay_peers excluded_peers
get_relay_peers_lem router peers c cs incoming relay id n e =
    let excluded = router.local_node_id ∷ incoming ∷ [] in
    let ids = map (λ (p : PeerInfo). p.peer_id) (filter (eligible excluded) peers) in
    let same : sort ids ≡ relay = ok-injective (rw n at e) in
    rw (← same) (
      sort-IsSorted ids,
      is_member-sort id ids
          ∙ is_member-eligible id excluded peers
          ∙ unfold is_member in ground arith,
    )

-- For a packet of the node's own: the relay peers are in the order of their identifiers, and an
-- identifier is among them exactly if a connected peer has it and it is not the local node's.
pub get_relay_peers_own :
    (router : MeshRouter) (peers : List PeerInfo) (id : NodeId)
    → (relay : List NodeId) × (get_relay_peers router peers none ≡ ok relay)
      × IsSorted relay
      × (is_member id relay ≡ (connected_as id peers && not (router.local_node_id == id)))
unfolding get_relay_peers excluded_peers
get_relay_peers_own router peers id =
    let excluded = router.local_node_id ∷ [] in
    let ids = map (λ (p : PeerInfo). p.peer_id) (filter (eligible excluded) peers) in
    (
      sort ids,
      refl,
      sort-IsSorted ids,
      is_member-sort id ids
          ∙ is_member-eligible id excluded peers
          ∙ unfold is_member in ground arith,
    )
