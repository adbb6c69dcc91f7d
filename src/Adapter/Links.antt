-- ===== src/Adapter/Links.antt =====
-- Registering and unregistering links in src/BITCHAT/BitChatBLEAdapter.ts.
use i_tantra.Base.{
  ℕ, ◌≡◌, ◌≢◌, refl, ◌∙◌, true, false, Option, none, some, ok, Text, text_eq, text_beq_iff, ◌==◌,
  Bool-cases, Result-cases, ok-injective, inl, inr, arith,
}
use i_tantra.Base.Dict
use i_tantra.Base.Dict.{
  lookup-insert, lookup-remove, lookup-insert_self, lookup-insert_ne, lookup-remove_ne,
  lookup-remove_self,
}
use i_tantra.NodeId.{NodeId, normalize_id}
use i_tantra.Mesh.Peers.{mark_connected, mark_disconnected}
use i_tantra.Adapter.{
  PeerMapping, Adapter, release_node, release_link, connect, register_peer, unregister_mapping,
  unregister_peer, points_at,
}
use i_tantra.Adapter.Bijective.{
  Index, IsBijective, IsReleased, IsFree, lookup-remove-some, IsReleased-absent, IsReleased-same,
  IsReleased-other, IsFree-absent, IsFree-same, IsFree-other, connected_IsBijective,
}

abbrev pub AreInverse : Adapter → Type 0
AreInverse a = IsBijective a.peer_mappings a.reverse_mappings

release_node-IsReleased :
    (o : Option PeerMapping) (ble id : Text) (now : ℕ) (a b : Adapter)
    → Dict.lookup ble a.peer_mappings ≡ o
    → AreInverse a
    → release_node o id now a ≡ ok b
    → IsReleased ble id b.peer_mappings b.reverse_mappings
unfolding release_node
release_node-IsReleased none ble id now a b e v h =
    let same : a ≡ b = ok-injective h in
    rw (← same) (IsReleased-absent ble id a.peer_mappings a.reverse_mappings v e)
release_node-IsReleased (some p) ble id now a b e v h =
    elim (Bool-cases (p.bitchat_node_id == id)) [
      | inl t ↦
          let same : a ≡ b = ok-injective (rw t at h) in
          rw (← same) (
            IsReleased-same ble id a.peer_mappings a.reverse_mappings v p e
              ((text_beq_iff p.bitchat_node_id id).0 t))
      | inr f ↦ elim (Result-cases (mark_disconnected a.peer_registry p.bitchat_node_id now)) [
        | inr (x, k) ↦ cc (rw (f, k) at h)
        | inl (r, k) ↦
            let same = ok-injective (rw (f, k) at h) in
            rw (← same) (
              IsReleased-other ble id a.peer_mappings a.reverse_mappings v p e
                (λ s. absurd (ground (arith, f, s, text_beq_iff p.bitchat_node_id id))))
      ]
    ]

release_link-IsFree :
    (o : Option PeerMapping) (ble id : Text) (now : ℕ) (a b : Adapter)
    → Dict.lookup id a.reverse_mappings ≡ o
    → IsReleased ble id a.peer_mappings a.reverse_mappings
    → release_link o ble id now a ≡ ok b
    → IsFree ble id b.peer_mappings b.reverse_mappings
unfolding release_link
release_link-IsFree none ble id now a b e v h =
    let same : a ≡ b = ok-injective h in
    rw (← same) (IsFree-absent ble id a.peer_mappings a.reverse_mappings v e)
release_link-IsFree (some q) ble id now a b e v h = elim (Bool-cases (q.ble_peer_id == ble)) [
  | inl t ↦
      let same : a ≡ b = ok-injective (rw t at h) in
      rw (← same) (
        IsFree-same ble id a.peer_mappings a.reverse_mappings v q e
          ((text_beq_iff q.ble_peer_id ble).0 t))
  | inr f ↦ elim (Result-cases (mark_disconnected a.peer_registry id now)) [
    | inr (x, k) ↦ cc (rw (f, k) at h)
    | inl (r, k) ↦
        let same = ok-injective (rw (f, k) at h) in
        rw (← same) (
          IsFree-other ble id a.peer_mappings a.reverse_mappings v q e
            (λ s. absurd (ground (arith, f, s, text_beq_iff q.ble_peer_id ble))))
  ]
]

-- Registering keeps the two indexes inverse to each other, whatever link and node were known before.
pub register_peer-AreInverse :
    (ble node_id : Text) (now : ℕ) (a b : Adapter)
    → AreInverse a
    → register_peer ble node_id now a ≡ ok b
    → AreInverse b
unfolding register_peer connect
register_peer-AreInverse ble node_id now a b v h = elim (Result-cases (normalize_id node_id)) [
  | inr (x, k) ↦ cc (rw k at h)
  | inl (id, k) ↦ elim (Result-cases (release_node (Dict.lookup ble a.peer_mappings) id now a)) [
    | inr (x, k1) ↦ cc (rw (k, k1) at h)
    | inl (c, k1) ↦
        elim (Result-cases (release_link (Dict.lookup id c.reverse_mappings) ble id now c)) [
          | inr (x, k2) ↦ cc (rw (k, k1, k2) at h)
          | inl (d, k2) ↦ elim (Result-cases (mark_connected d.peer_registry id now)) [
            | inr (x, k3) ↦ cc (rw (k, k1, k2, k3) at h)
            | inl (r, k3) ↦
                let same = ok-injective (rw (k, k1, k2, k3) at h) in
                rw (← same) (
                  connected_IsBijective ble id d.peer_mappings d.reverse_mappings (
                    release_link-IsFree _ ble id now c d refl
                      (release_node-IsReleased _ ble id now a c refl v k1) k2))
          ]
        ]
  ]
]

-- Removing an entry from both indexes.
removed_IsBijective :
    (ble : Text) (links nodes : Index) (p : PeerMapping)
    → IsBijective links nodes
    → Dict.lookup ble links ≡ some p
    → IsBijective (Dict.remove ble links) (Dict.remove p.bitchat_node_id nodes)
removed_IsBijective ble links nodes p v e = record {
  link_key = λ b m h. v.link_key b m (lookup-remove-some ble b links m h).1;
  link_node = λ b m h.
      let (apart, before) = lookup-remove-some ble b links m h in
      let there = v.link_node b m before in
      let own = v.link_node ble p e in
      let other : p.bitchat_node_id ≢ m.bitchat_node_id =
        λ same. let bk = v.link_key b m before in let pk = v.link_key ble p e in apart (cc) in
      lookup-remove_ne p.bitchat_node_id m.bitchat_node_id nodes other ∙ there;
  node_key = λ n m h. v.node_key n m (lookup-remove-some p.bitchat_node_id n nodes m h).1;
  node_link = λ n m h.
      let (apart, before) = lookup-remove-some p.bitchat_node_id n nodes m h in
      let there = v.node_link n m before in
      let other : ble ≢ m.ble_peer_id = λ same. let nk = v.node_key n m before in apart (cc) in
      lookup-remove_ne ble m.ble_peer_id links other ∙ there;
}

unregister_mapping-AreInverse :
    (o : Option PeerMapping) (ble : Text) (now : ℕ) (a b : Adapter)
    → Dict.lookup ble a.peer_mappings ≡ o
    → AreInverse a
    → unregister_mapping o ble now a ≡ ok b
    → AreInverse b × (Dict.lookup ble b.peer_mappings ≡ none)
unfolding unregister_mapping
unregister_mapping-AreInverse none ble now a b e v h =
    let same : a ≡ b = ok-injective h in rw (← same) (v, e)
unregister_mapping-AreInverse (some p) ble now a b e v h =
    elim (Result-cases (mark_disconnected a.peer_registry p.bitchat_node_id now)) [
      | inr (x, k) ↦ cc (rw k at h)
      | inl (r, k) ↦
          let own = v.link_node ble p e in
          let points : points_at ble (Dict.lookup p.bitchat_node_id a.reverse_mappings) ≡ true =
            rw own ((text_beq_iff p.ble_peer_id ble).1 (v.link_key ble p e)) in
          let same = ok-injective (rw (k, points) at h) in
          rw (← same) (
            removed_IsBijective ble a.peer_mappings a.reverse_mappings p v e,
            lookup-remove_self ble a.peer_mappings,
          )
    ]

-- Unregistering keeps the two indexes inverse to each other, and afterwards neither of them knows the
-- link.
pub unregister_peer-AreInverse :
    (ble : Text) (now : ℕ) (a b : Adapter)
    → AreInverse a
    → unregister_peer ble now a ≡ ok b
    → AreInverse b
      × (Dict.lookup ble b.peer_mappings ≡ none)
      × ((n : NodeId) → points_at ble (Dict.lookup n b.reverse_mappings) ≡ false)
unfolding unregister_peer
unregister_peer-AreInverse ble now a b v h =
    let (w, gone) = unregister_mapping-AreInverse _ ble now a b refl v h in
    (w, gone, λ n. no_pointer n (Dict.lookup n b.reverse_mappings) refl w gone)
  where
    no_pointer :
        (n : NodeId) (o : Option PeerMapping)
        → Dict.lookup n b.reverse_mappings ≡ o
        → AreInverse b
        → Dict.lookup ble b.peer_mappings ≡ none
        → points_at ble o ≡ false
    no_pointer n none e w gone = refl
    no_pointer n (some m) e w gone = elim (Bool-cases (m.ble_peer_id == ble)) [
      | inr f ↦ f
      | inl t ↦
          absurd
            (let same = (text_beq_iff m.ble_peer_id ble).0 t in let there = w.node_link n m e in cc)
    ]
