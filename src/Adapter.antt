-- ===== src/Adapter.antt =====
-- The bridge from Bluetooth links to the mesh: src/BITCHAT/BitChatBLEAdapter.ts.
-- This file has the state and the directory of direct links, Adapter/Traffic what is received and sent.
pub mod Traffic
pub mod Bijective
pub mod Links
pub mod Ready
use i_tantra.Base.{
  ℕ, Bool, true, false, not, ◌&&◌, List, [], ◌∷◌, Option, none, some, Result, ok, err, ◌>>=◌, map,
  filter, Text, text_eq, ◌==◌, if◌then◌else◌,
}
use i_tantra.Base.Dict
use i_tantra.NodeId.{NodeId, PacketId, IdError, normalize_id}
use i_tantra.Mesh.Peers.{
  PeerInfo, PeerRegistry, PeerState, get_peer, get_peers, mark_connected, mark_disconnected,
}
use i_tantra.Mesh.Dedup.{DedupCache}
use i_tantra.Mesh.Discovery.{Registry}
use i_tantra.Mesh.Router.{is_connected}

pub record PeerMapping : Type 0 where
  pub ble_peer_id : Text
  pub bitchat_node_id : NodeId

-- `has_announce_callback` says whether `onAnnounceReceived` is given.
pub record Adapter : Type 0 where
  pub local_node_id : NodeId
  pub has_announce_callback : Bool
  pub peer_registry : PeerRegistry
  pub dedup_cache : DedupCache
  pub discovery_registry : Registry
  pub peer_mappings : List (Text × PeerMapping)
  pub reverse_mappings : List (NodeId × PeerMapping)
  pub originated_packet_id : Option PacketId

-- An exception, with the state in which it leaves the adapter.
abbrev pub AdapterError : Type 0
AdapterError = IdError × Adapter

abbrev pub leaving : {A : Type 0} → Adapter → Result IdError A → Result AdapterError A
leaving a (err e) = err (e, a)
leaving a (ok x) = ok x

-- The node that the link stood for before, if it is another one, loses its link.
unfoldable pub release_node :
    Option PeerMapping → NodeId → ℕ → Adapter → Result AdapterError Adapter
release_node none id now a = ok a
release_node (some previous) id now a =
    let cleared = record a {
      reverse_mappings = Dict.remove previous.bitchat_node_id a.reverse_mappings;
    } in
    let released =
      leaving cleared (mark_disconnected a.peer_registry previous.bitchat_node_id now)
      >>= λ registry. ok (record cleared { peer_registry = registry }) in
    if previous.bitchat_node_id == id then ok a else released

-- The link that the node had before, if it is another one, is forgotten.
unfoldable pub release_link :
    Option PeerMapping → Text → NodeId → ℕ → Adapter → Result AdapterError Adapter
release_link none ble id now a = ok a
release_link (some previous) ble id now a =
    let cleared = record a { peer_mappings = Dict.remove previous.ble_peer_id a.peer_mappings } in
    let released = leaving cleared (mark_disconnected a.peer_registry id now) >>= λ registry.
    ok (record cleared { peer_registry = registry }) in
    if previous.ble_peer_id == ble then ok a else released

unfoldable pub connect : Text → NodeId → ℕ → Adapter → Result AdapterError Adapter
connect ble id now a = do
  let mapping : PeerMapping = record { ble_peer_id = ble; bitchat_node_id = id }
  let mapped = record a {
    peer_mappings = Dict.insert ble mapping a.peer_mappings;
    reverse_mappings = Dict.insert id mapping a.reverse_mappings;
  }
  registry ← leaving mapped (mark_connected a.peer_registry id now)
  ok (record mapped { peer_registry = registry })

unfoldable pub register_peer : Text → NodeId → ℕ → Adapter → Result AdapterError Adapter
unfolding release_node release_link connect
register_peer ble node_id now a = do
  id ← leaving a (normalize_id node_id)
  b ← release_node (Dict.lookup ble a.peer_mappings) id now a
  c ← release_link (Dict.lookup id b.reverse_mappings) ble id now b
  connect ble id now c

-- Whether an entry of the reverse map is there and points at the link.
abbrev pub points_at : Text → Option PeerMapping → Bool
points_at ble none = false
points_at ble (some mapping) = mapping.ble_peer_id == ble

unfoldable pub unregister_mapping : Option PeerMapping → Text → ℕ → Adapter → Result IdError Adapter
unregister_mapping none ble now a = ok a
unregister_mapping (some mapping) ble now a = do
  registry ← mark_disconnected a.peer_registry mapping.bitchat_node_id now
  let node = mapping.bitchat_node_id
  let reverse = a.reverse_mappings
  ok (record a {
    peer_registry = registry;
    peer_mappings = Dict.remove ble a.peer_mappings;
    reverse_mappings =
        if points_at ble (Dict.lookup node reverse) then Dict.remove node reverse else reverse;
  })

unfoldable pub unregister_peer : Text → ℕ → Adapter → Result IdError Adapter
unfolding unregister_mapping
unregister_peer ble now a = unregister_mapping (Dict.lookup ble a.peer_mappings) ble now a

-- mapping?.bitchatNodeId and mapping?.blePeerId
abbrev pub node_of : Option PeerMapping → Option NodeId
node_of none = none
node_of (some mapping) = some mapping.bitchat_node_id

abbrev pub link_of : Option PeerMapping → Option Text
link_of none = none
link_of (some mapping) = some mapping.ble_peer_id

unfoldable pub get_node_id_for_ble_peer : Text → Adapter → Option NodeId
get_node_id_for_ble_peer ble a = node_of (Dict.lookup ble a.peer_mappings)

unfoldable pub get_ble_peer_for_node_id : NodeId → Adapter → Result IdError (Option Text)
get_ble_peer_for_node_id node_id a = do
  id ← normalize_id node_id
  ok (link_of (Dict.lookup id a.reverse_mappings))

unfoldable pub get_direct_ble_peer_ids : Adapter → List Text
get_direct_ble_peer_ids a = map (λ (p : Text × PeerMapping). p.0) a.peer_mappings

abbrev pub is_connected_peer : Option PeerInfo → Bool
is_connected_peer none = false
is_connected_peer (some peer) = is_connected peer.state

unfoldable pub mapping_ready : Option PeerMapping → Text → Adapter → Result IdError Bool
mapping_ready none ble a = ok false
mapping_ready (some mapping) ble a =
    let connected =
      get_peer a.peer_registry mapping.bitchat_node_id >>= λ peer. ok (is_connected_peer peer) in
    if points_at ble (Dict.lookup mapping.bitchat_node_id a.reverse_mappings)
    then connected
    else ok false

unfoldable pub is_direct_peer_ready : Text → Adapter → Result IdError Bool
unfolding mapping_ready
is_direct_peer_ready ble a = mapping_ready (Dict.lookup ble a.peer_mappings) ble a

unfoldable pub is_direct_peer : NodeId → Adapter → Result IdError Bool
is_direct_peer node_id a = do id ← normalize_id node_id; ok (Dict.has id a.reverse_mappings)

unfoldable pub get_connected_peers : Adapter → List NodeId
get_connected_peers a =
    map (λ (p : PeerInfo). p.peer_id)
      (filter (λ (p : PeerInfo). is_connected p.state) (get_peers a.peer_registry))
