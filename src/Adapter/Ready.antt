-- ===== src/Adapter/Ready.antt =====
-- Registering and unregistering succeed: src/BITCHAT/BitChatBLEAdapter.ts.
use i_tantra.Base.{
  Result, err, ap, Result-cases, ok-injective, ℕ, ◌≡◌, refl, sym, ◌∙◌, true, false, Option, none,
  some, ok, Text, text_eq, text_beq_iff, ◌==◌, if◌then◌else◌, Bool-cases, inl, inr,
}
use i_tantra.Base.Dict
use i_tantra.Base.Dict.{lookup-insert, lookup-insert_self}
use i_tantra.NodeId.{IdError, NodeId, normalize_id}
use i_tantra.NodeId.Normal.{normalize_id_idem}
use i_tantra.Packet.RoundTrip.{IsNormal}
use i_tantra.Mesh.Peers.{get_peer}
use i_tantra.Mesh.Peers.Laws.{mark_connected_lem, mark_disconnected-total}
use i_tantra.Adapter.{
  AdapterError, PeerMapping, Adapter, release_node, release_link, connect, register_peer,
  unregister_mapping, unregister_peer, points_at, mapping_ready, is_direct_peer_ready,
}
use i_tantra.Adapter.Bijective.{Index, lookup-remove-some}
use i_tantra.Adapter.Links.{AreInverse, register_peer-AreInverse, unregister_peer-AreInverse}

-- The nodes of the links have normal identifiers.
abbrev pub AreNormal : Index → Type 0
AreNormal links =
    (b : Text) (m : PeerMapping) → Dict.lookup b links ≡ some m → IsNormal m.bitchat_node_id

release_node-total :
    (o : Option PeerMapping) (ble id : Text) (now : ℕ) (a : Adapter)
    → Dict.lookup ble a.peer_mappings ≡ o
    → AreNormal a.peer_mappings
    → (b : Adapter) × (release_node o id now a ≡ ok b) × AreNormal b.peer_mappings
unfolding release_node
release_node-total none ble id now a e n = (a, refl, n)
release_node-total (some p) ble id now a e n = elim (Bool-cases (p.bitchat_node_id == id)) [
  | inl t ↦ (a, rw t refl, n)
  | inr f ↦
      let (r, k) = mark_disconnected-total a.peer_registry p.bitchat_node_id _ now (n ble p e) in
      (
        record a {
          reverse_mappings = Dict.remove p.bitchat_node_id a.reverse_mappings;
          peer_registry = r;
        },
        rw (f, k) refl,
        n,
      )
]

release_link-total :
    (o : Option PeerMapping) (ble id : Text) (now : ℕ) (a : Adapter)
    → normalize_id id ≡ ok id
    → AreNormal a.peer_mappings
    → (b : Adapter) × (release_link o ble id now a ≡ ok b) × AreNormal b.peer_mappings
unfolding release_link
release_link-total none ble id now a i n = (a, refl, n)
release_link-total (some q) ble id now a i n = elim (Bool-cases (q.ble_peer_id == ble)) [
  | inl t ↦ (a, rw t refl, n)
  | inr f ↦
      let (r, k) = mark_disconnected-total a.peer_registry id id now i in
      (
        record a { peer_mappings = Dict.remove q.ble_peer_id a.peer_mappings; peer_registry = r },
        rw (f, k) refl,
        λ b m h. n b m (lookup-remove-some q.ble_peer_id b a.peer_mappings m h).1,
      )
]

connect-total :
    (ble id : Text) (now : ℕ) (a : Adapter)
    → normalize_id id ≡ ok id
    → AreNormal a.peer_mappings
    → (b : Adapter) × (connect ble id now a ≡ ok b)
      × AreNormal b.peer_mappings
      × (is_direct_peer_ready ble b ≡ ok true)
unfolding connect is_direct_peer_ready mapping_ready get_peer
connect-total ble id now a i n =
    let (r, info, k, found, state, _) = mark_connected_lem a.peer_registry id id id now i in
    let new : PeerMapping = record { ble_peer_id = ble; bitchat_node_id = id } in
    let here : Dict.lookup id r.peers ≡ some info = found ∙ rw ((text_beq_iff id id).1 refl) refl in
    (
      record a {
        peer_mappings = Dict.insert ble new a.peer_mappings;
        reverse_mappings = Dict.insert id new a.reverse_mappings;
        peer_registry = r;
      },
      rw k refl,
      λ b m h. normal_insert b m (lookup-insert ble b new a.peer_mappings) h,
      rw (lookup-insert_self ble new a.peer_mappings, lookup-insert_self id new a.reverse_mappings)
          (rw ((text_beq_iff ble ble).1 refl, i, here, state) refl),
    )
  where
    normal_insert :
        (b : Text) (m : PeerMapping)
        → Dict.lookup b
            (Dict.insert ble (record { ble_peer_id = ble; bitchat_node_id = id }) a.peer_mappings)
          ≡ (if ble == b
              then some (record { ble_peer_id = ble; bitchat_node_id = id })
              else Dict.lookup b a.peer_mappings)
        → Dict.lookup b
            (Dict.insert ble (record { ble_peer_id = ble; bitchat_node_id = id }) a.peer_mappings)
          ≡ some m
        → IsNormal m.bitchat_node_id
    normal_insert b m e h = elim (Bool-cases (ble == b)) [
      | inl t ↦ let now_there = rw t at e in let same : id ≡ m.bitchat_node_id = cc in rw (← same) i
      | inr f ↦ n b m (sym (rw f at e) ∙ h)
    ]

-- Registering a link for a node whose identifier can be normalised always succeeds, if the nodes known
-- before have normal identifiers and the two indexes are inverse; the same holds afterwards, and the
-- link is ready.
pub register_peer-ready :
    (ble node_id id : Text) (now : ℕ) (a : Adapter)
    → AreInverse a
    → AreNormal a.peer_mappings
    → normalize_id node_id ≡ ok id
    → (b : Adapter) × (register_peer ble node_id now a ≡ ok b)
      × AreInverse b
      × AreNormal b.peer_mappings
      × (is_direct_peer_ready ble b ≡ ok true)
unfolding register_peer
register_peer-ready ble node_id id now a v n e =
    let (valid, i) = normalize_id_idem node_id id e in
    let (c, k1, n1) = release_node-total _ ble id now a refl n in
    let (d, k2, n2) = release_link-total (Dict.lookup id c.reverse_mappings) ble id now c i n1 in
    let (b, k3, n3, ready) = connect-total ble id now d i n2 in
    let done : register_peer ble node_id now a ≡ ok b = rw (e, k1, k2) k3 in
    (b, done, register_peer-AreInverse ble node_id now a b v done, n3, ready)

-- Registering keeps the identifiers of the nodes normal.
pub register_peer-AreNormal :
    (ble node_id : Text) (now : ℕ) (a b : Adapter)
    → AreInverse a
    → AreNormal a.peer_mappings
    → register_peer ble node_id now a ≡ ok b
    → AreNormal b.peer_mappings
unfolding register_peer
register_peer-AreNormal ble node_id now a b v n h = elim (Result-cases (normalize_id node_id)) [
  | inr (x, k) ↦ cc (rw k at h)
  | inl (id, k) ↦
      let (c, done, inverse, normal, ready) = register_peer-ready ble node_id id now a v n k in
      let same : c ≡ b = ok-injective (sym done ∙ h) in rw (← same) normal
]

-- Registering throws only on an identifier that is refused, and then the adapter is as it was.
pub register_peer-err :
    (ble node_id : Text) (now : ℕ) (a b : Adapter) (e : IdError)
    → AreInverse a
    → AreNormal a.peer_mappings
    → register_peer ble node_id now a ≡ err (e, b)
    → a ≡ b
unfolding register_peer
register_peer-err ble node_id now a b e v n h = elim (Result-cases (normalize_id node_id)) [
  | inr (x, k) ↦ ap (λ (y : AdapterError). y.1) (err-injective (rw k at h))
  | inl (id, k) ↦
      let (c, done, inverse, normal, ready) = register_peer-ready ble node_id id now a v n k in
      cc (sym done ∙ h)
]
  where
    err-injective :
        {x y : AdapterError} → ◌≡◌ {A = Result AdapterError Adapter} (err x) (err y) → x ≡ y
    err-injective h = cc

unregister_mapping-total :
    (o : Option PeerMapping) (ble : Text) (now : ℕ) (a : Adapter)
    → Dict.lookup ble a.peer_mappings ≡ o
    → AreNormal a.peer_mappings
    → (b : Adapter) × (unregister_mapping o ble now a ≡ ok b)
unfolding unregister_mapping
unregister_mapping-total none ble now a e n = (a, refl)
unregister_mapping-total (some p) ble now a e n =
    let (r, k) = mark_disconnected-total a.peer_registry p.bitchat_node_id _ now (n ble p e) in
    let node = p.bitchat_node_id in
    let reverse = a.reverse_mappings in
    (
      record a {
        peer_registry = r;
        peer_mappings = Dict.remove ble a.peer_mappings;
        reverse_mappings =
            if points_at ble (Dict.lookup node reverse) then Dict.remove node reverse else reverse;
      },
      rw k refl,
    )

-- Unregistering a link always succeeds, if the nodes known before have normal identifiers and the two
-- indexes are inverse; they are inverse afterwards, and neither of them knows the link.
pub unregister_peer-gone :
    (ble : Text) (now : ℕ) (a : Adapter)
    → AreInverse a
    → AreNormal a.peer_mappings
    → (b : Adapter) × (unregister_peer ble now a ≡ ok b)
      × AreInverse b
      × (Dict.lookup ble b.peer_mappings ≡ none)
      × ((n : NodeId) → points_at ble (Dict.lookup n b.reverse_mappings) ≡ false)
unfolding unregister_peer
unregister_peer-gone ble now a v n =
    let (b, k) = unregister_mapping-total (Dict.lookup ble a.peer_mappings) ble now a refl n in
    let done : unregister_peer ble now a ≡ ok b = k in
    let (inverse, gone, no_pointer) = unregister_peer-AreInverse ble now a b v done in
    (b, done, inverse, gone, no_pointer)
