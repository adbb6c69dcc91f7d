-- ===== src/Adapter/Bijective.antt =====
-- The two indexes of src/BITCHAT/BitChatBLEAdapter.ts are inverse to each other.
use i_tantra.Base.{
  ◌≡◌, ◌≢◌, ◌⊎◌, sym, ◌∙◌, List, none, some, Text, text_eq, text_beq_iff, ◌==◌, Bool-cases, inl,
  inr, arith,
}
use i_tantra.Base.Dict
use i_tantra.Base.Dict.{
  lookup-insert, lookup-remove, lookup-insert_self, lookup-insert_ne, lookup-remove_ne,
  lookup-remove_self,
}
use i_tantra.NodeId.{NodeId}
use i_tantra.Adapter.{PeerMapping}

abbrev pub Index : Type 0
Index = List (Text × PeerMapping)

-- Each entry stands under its own key, and the other index has it too.
pub record IsBijective (links nodes : Index) : Type 0 where
  pub link_key : (b : Text) (m : PeerMapping) → Dict.lookup b links ≡ some m → m.ble_peer_id ≡ b
  pub link_node :
      (b : Text) (m : PeerMapping)
      → Dict.lookup b links ≡ some m
      → Dict.lookup m.bitchat_node_id nodes ≡ some m
  pub node_key :
      (n : NodeId) (m : PeerMapping) → Dict.lookup n nodes ≡ some m → m.bitchat_node_id ≡ n
  pub node_link :
      (n : NodeId) (m : PeerMapping)
      → Dict.lookup n nodes ≡ some m
      → Dict.lookup m.ble_peer_id links ≡ some m

-- The same, but for the entry of one link, whose node is `id` if it is still there.
pub record IsReleased (ble id : Text) (links nodes : Index) : Type 0 where
  pub link_key :
      (b : Text) (m : PeerMapping) → b ≢ ble → Dict.lookup b links ≡ some m → m.ble_peer_id ≡ b
  pub link_node :
      (b : Text) (m : PeerMapping)
      → b ≢ ble
      → Dict.lookup b links ≡ some m
      → Dict.lookup m.bitchat_node_id nodes ≡ some m
  pub node_key :
      (n : NodeId) (m : PeerMapping) → Dict.lookup n nodes ≡ some m → m.bitchat_node_id ≡ n
  pub node_link :
      (n : NodeId) (m : PeerMapping)
      → Dict.lookup n nodes ≡ some m
      → Dict.lookup m.ble_peer_id links ≡ some m
  pub other_link :
      (n : NodeId) (m : PeerMapping) → n ≢ id → Dict.lookup n nodes ≡ some m → m.ble_peer_id ≢ ble

-- The same, but for the entries of one link and one node.
pub record IsFree (ble id : Text) (links nodes : Index) : Type 0 where
  pub link_key :
      (b : Text) (m : PeerMapping) → b ≢ ble → Dict.lookup b links ≡ some m → m.ble_peer_id ≡ b
  pub link_node :
      (b : Text) (m : PeerMapping)
      → b ≢ ble
      → Dict.lookup b links ≡ some m
      → Dict.lookup m.bitchat_node_id nodes ≡ some m
  pub other_node :
      (b : Text) (m : PeerMapping) → b ≢ ble → Dict.lookup b links ≡ some m → m.bitchat_node_id ≢ id
  pub node_key :
      (n : NodeId) (m : PeerMapping) → n ≢ id → Dict.lookup n nodes ≡ some m → m.bitchat_node_id ≡ n
  pub node_link :
      (n : NodeId) (m : PeerMapping)
      → n ≢ id
      → Dict.lookup n nodes ≡ some m
      → Dict.lookup m.ble_peer_id links ≡ some m
  pub other_link :
      (n : NodeId) (m : PeerMapping) → n ≢ id → Dict.lookup n nodes ≡ some m → m.ble_peer_id ≢ ble

-- An entry found after a removal was there before, under another key.
pub lookup-remove-some :
    (k j : Text) (links : Index) (m : PeerMapping)
    → Dict.lookup j (Dict.remove k links) ≡ some m
    → (k ≢ j) × (Dict.lookup j links ≡ some m)
lookup-remove-some k j links m h =
    let before = lookup-remove k j links in
    elim (Bool-cases (k == j)) [
      | inl t ↦ absurd (let removed = rw t at before in cc)
      | inr f ↦
          (λ same. absurd (ground (arith, f, same, text_beq_iff k j)), sym (rw f at before) ∙ h)
    ]

-- The entry of a link and that of its node are one.
module _ (ble id : Text) (links nodes : Index) (v : IsBijective links nodes) where
  pub IsReleased-absent : Dict.lookup ble links ≡ none → IsReleased ble id links nodes
  IsReleased-absent e = record {
    link_key = λ b m ne h. v.link_key b m h;
    link_node = λ b m ne h. v.link_node b m h;
    node_key = v.node_key;
    node_link = v.node_link;
    other_link = λ n m ne h same. let there = v.node_link n m h in cc;
  }

  pub IsReleased-same :
      (p : PeerMapping)
      → Dict.lookup ble links ≡ some p
      → p.bitchat_node_id ≡ id
      → IsReleased ble id links nodes
  IsReleased-same p e i = record {
    link_key = λ b m ne h. v.link_key b m h;
    link_node = λ b m ne h. v.link_node b m h;
    node_key = v.node_key;
    node_link = v.node_link;
    other_link =
        λ n m ne h same. let there = v.node_link n m h in let key = v.node_key n m h in ne (cc);
  }

  pub IsReleased-other :
      (p : PeerMapping)
      → Dict.lookup ble links ≡ some p
      → p.bitchat_node_id ≢ id
      → IsReleased ble id links (Dict.remove p.bitchat_node_id nodes)
  IsReleased-other p e i = record {
    link_key = λ b m ne h. v.link_key b m h;
    link_node = λ b m ne h.
        let there = v.link_node b m h in
        let own = v.link_node ble p e in
        let other : p.bitchat_node_id ≢ m.bitchat_node_id =
          λ same. let bk = v.link_key b m h in let pk = v.link_key ble p e in ne (cc) in
        lookup-remove_ne p.bitchat_node_id m.bitchat_node_id nodes other ∙ there;
    node_key = λ n m h. v.node_key n m (lookup-remove-some p.bitchat_node_id n nodes m h).1;
    node_link = λ n m h. v.node_link n m (lookup-remove-some p.bitchat_node_id n nodes m h).1;
    other_link = λ n m ne h same.
        let (apart, before) = lookup-remove-some p.bitchat_node_id n nodes m h in
        let there = v.node_link n m before in let key = v.node_key n m before in apart (cc);
  }

-- The link that the node had before.
module _ (ble id : Text) (links nodes : Index) (v : IsReleased ble id links nodes) where
  pub IsFree-absent : Dict.lookup id nodes ≡ none → IsFree ble id links nodes
  IsFree-absent e = record {
    link_key = v.link_key;
    link_node = v.link_node;
    other_node = λ b m ne h same. let there = v.link_node b m ne h in cc;
    node_key = λ n m ne h. v.node_key n m h;
    node_link = λ n m ne h. v.node_link n m h;
    other_link = v.other_link;
  }

  pub IsFree-same :
      (q : PeerMapping)
      → Dict.lookup id nodes ≡ some q
      → q.ble_peer_id ≡ ble
      → IsFree ble id links nodes
  IsFree-same q e i = record {
    link_key = v.link_key;
    link_node = v.link_node;
    other_node = λ b m ne h same.
        let there = v.link_node b m ne h in let key = v.link_key b m ne h in ne (cc);
    node_key = λ n m ne h. v.node_key n m h;
    node_link = λ n m ne h. v.node_link n m h;
    other_link = v.other_link;
  }

  pub IsFree-other :
      (q : PeerMapping)
      → Dict.lookup id nodes ≡ some q
      → q.ble_peer_id ≢ ble
      → IsFree ble id (Dict.remove q.ble_peer_id links) nodes
  IsFree-other q e i = record {
    link_key = λ b m ne h. v.link_key b m ne (lookup-remove-some q.ble_peer_id b links m h).1;
    link_node = λ b m ne h. v.link_node b m ne (lookup-remove-some q.ble_peer_id b links m h).1;
    other_node = λ b m ne h same.
        let (apart, before) = lookup-remove-some q.ble_peer_id b links m h in
        let there = v.link_node b m ne before in let key = v.link_key b m ne before in apart (cc);
    node_key = λ n m ne h. v.node_key n m h;
    node_link = λ n m ne h.
        let there = v.node_link n m h in
        let own = v.node_link id q e in
        let other : q.ble_peer_id ≢ m.ble_peer_id =
          λ same. let nk = v.node_key n m h in let qk = v.node_key id q e in ne (cc) in
        lookup-remove_ne q.ble_peer_id m.ble_peer_id links other ∙ there;
    other_link = v.other_link;
  }

-- Writing the new entry into both indexes.
pub connected_IsBijective :
    (ble id : Text) (links nodes : Index)
    → IsFree ble id links nodes
    → IsBijective
        (Dict.insert ble (record { ble_peer_id = ble; bitchat_node_id = id }) links)
        (Dict.insert id (record { ble_peer_id = ble; bitchat_node_id = id }) nodes)
connected_IsBijective ble id links nodes v =
    let new : PeerMapping = record { ble_peer_id = ble; bitchat_node_id = id } in
    record {
      link_key = λ b m h. elim (lookup-insert_some ble b new links m h) [
        | inl (k, e) ↦ cc
        | inr (ne, e) ↦ v.link_key b m (λ s. ne (sym s)) e
      ];
      link_node = λ b m h. elim (lookup-insert_some ble b new links m h) [
        | inl (k, e) ↦ rw (← e) (lookup-insert_self id new nodes)
        | inr (ne, e) ↦
            let b_ne : b ≢ ble = λ s. ne (sym s) in
            lookup-insert_ne id m.bitchat_node_id new nodes (λ s. v.other_node b m b_ne e (sym s))
            ∙ v.link_node b m b_ne e
      ];
      node_key = λ n m h. elim (lookup-insert_some id n new nodes m h) [
        | inl (k, e) ↦ cc
        | inr (ne, e) ↦ v.node_key n m (λ s. ne (sym s)) e
      ];
      node_link = λ n m h. elim (lookup-insert_some id n new nodes m h) [
        | inl (k, e) ↦ rw (← e) (lookup-insert_self ble new links)
        | inr (ne, e) ↦
            let n_ne : n ≢ id = λ s. ne (sym s) in
            lookup-insert_ne ble m.ble_peer_id new links (λ s. v.other_link n m n_ne e (sym s))
            ∙ v.node_link n m n_ne e
      ];
    }
  where
    lookup-insert_some :
        (k j : Text) (w : PeerMapping) (xs : Index) (m : PeerMapping)
        → Dict.lookup j (Dict.insert k w xs) ≡ some m
        → ((k ≡ j) × (w ≡ m)) ⊎ ((k ≢ j) × (Dict.lookup j xs ≡ some m))
    lookup-insert_some k j w xs m h =
        let after = lookup-insert k j w xs in
        elim (Bool-cases (k == j)) [
          | inl t ↦ let found = rw t at after in inl ((text_beq_iff k j).0 t, cc)
          | inr f ↦
              inr (
                λ same. absurd (ground (arith, f, same, text_beq_iff k j)),
                sym (rw f at after) ∙ h,
              )
        ]
