-- ===== src/Tests/Linking.antt =====
-- The adapter between links and the mesh at concrete inputs.
use i_tantra.Base.{◌≡◌, ◌≢◌, true, false, [], ◌∷◌, none, some, ok, All, codes, text_eq, arith}
use i_tantra.Base.Dict
use i_tantra.Bytes.{Bytes}
use i_tantra.Frame.{contains}
use i_tantra.NodeId.{NodeId, format, normalize_id}
use i_tantra.NodeId.Normal.{normalize_id-format}
use i_tantra.Packet
use i_tantra.Mesh.Peers
use i_tantra.Mesh.Dedup
use i_tantra.Mesh.Discovery
use i_tantra.Adapter.{
  Adapter, register_peer, unregister_peer, is_direct_peer_ready, get_node_id_for_ble_peer,
  points_at,
}
use i_tantra.Adapter.{PeerMapping}
use i_tantra.Adapter.Bijective.{connected_IsBijective}
use i_tantra.Adapter.Links.{AreInverse}
use i_tantra.Adapter.Ready.{AreNormal, register_peer-ready, unregister_peer-gone}
use i_tantra.Adapter.Traffic.{receive, receive_packet, saw, relay, announce}
use i_tantra.Adapter.Traffic.Laws.{HasLinksOf, IsLinked}
use i_tantra.Adapter.Traffic.Safety.{receive-AreInverse, receive-HasLinksOf}

-- A node without links.
abbrev node_a : NodeId
node_a = format 10

abbrev node_b : NodeId
node_b = format 11

abbrev fresh_adapter : Adapter
fresh_adapter = record {
  local_node_id = node_a;
  has_announce_callback = true;
  peer_registry = Peers.new_registry 60000;
  dedup_cache = Dedup.new_cache 256 60000;
  discovery_registry = Discovery.new_registry 128 120000;
  peer_mappings = [];
  reverse_mappings = [];
  originated_packet_id = none;
}

fresh-AreInverse : AreInverse fresh_adapter
unfolding Dict.lookup
fresh-AreInverse = record {
  link_key = λ b m h. cc;
  link_node = λ b m h. cc;
  node_key = λ n m h. cc;
  node_link = λ n m h. cc;
}

fresh-AreNormal : AreNormal []
unfolding Dict.lookup
fresh-AreNormal b m h = cc

node_b_normal : normalize_id node_b ≡ ok node_b
node_b_normal = normalize_id-format 11 (omega arith)

register_peer-ready_example :
    (b : Adapter) × (register_peer (codes "x") node_b 5 fresh_adapter ≡ ok b)
    × AreInverse b
    × AreNormal b.peer_mappings
    × (is_direct_peer_ready (codes "x") b ≡ ok true)
register_peer-ready_example =
    register_peer-ready (codes "x") node_b node_b 5 fresh_adapter fresh-AreInverse fresh-AreNormal
      node_b_normal

abbrev mapping_b : PeerMapping
mapping_b = record { ble_peer_id = codes "x"; bitchat_node_id = node_b }

-- The adapter with one link.
abbrev linked_adapter : Adapter
linked_adapter = record fresh_adapter {
  peer_mappings = (codes "x", mapping_b) ∷ [];
  reverse_mappings = (node_b, mapping_b) ∷ [];
}

linked-AreInverse : AreInverse linked_adapter
unfolding Dict.lookup Dict.insert
linked-AreInverse = connected_IsBijective (codes "x") node_b [] [] (record {
  link_key = λ b m ne h. cc;
  link_node = λ b m ne h. cc;
  other_node = λ b m ne h. cc;
  node_key = λ n m ne h. cc;
  node_link = λ n m ne h. cc;
  other_link = λ n m ne h. cc;
})

linked-AreNormal : AreNormal ((codes "x", mapping_b) ∷ [])
unfolding Dict.lookup
linked-AreNormal b m h = ground (arith, node_b_normal)

unregister_peer-gone_example :
    (b : Adapter) × (unregister_peer (codes "x") 9 linked_adapter ≡ ok b)
    × AreInverse b
    × (Dict.lookup (codes "x") b.peer_mappings ≡ none)
    × ((n : NodeId) → points_at (codes "x") (Dict.lookup n b.reverse_mappings) ≡ false)
unregister_peer-gone_example =
    unregister_peer-gone (codes "x") 9 linked_adapter linked-AreInverse linked-AreNormal

-- A DATA packet for all nodes, from the node 11, with the identifier 12.
abbrev data_bytes : Bytes
data_bytes =
    1 ∷ 1 ∷ 5 ∷ 0 ∷ 0 ∷ 0 ∷ 0 ∷ 0 ∷ 0 ∷ 0 ∷ 11 ∷ 0 ∷ 0 ∷ 0 ∷ 0 ∷ 0 ∷ 0 ∷ 0 ∷ 0 ∷ 0 ∷ 0 ∷ 0 ∷ 0 ∷ 0
    ∷ 0 ∷ 0 ∷ 12 ∷ 0 ∷ 104 ∷ 105 ∷ []

receive-AreInverse_example :
    AreInverse (receive data_bytes (codes "x") 7 linked_adapter).adapter
    × AreNormal (receive data_bytes (codes "x") 7 linked_adapter).adapter.peer_mappings
    × All (IsLinked linked_adapter) (receive data_bytes (codes "x") 7 linked_adapter).effects
receive-AreInverse_example =
    receive-AreInverse data_bytes (codes "x") 7 linked_adapter linked-AreInverse linked-AreNormal

data_kind : (receive data_bytes (codes "y") 7 fresh_adapter).kind ≢ some announce
unfolding receive receive_packet Packet.safe_decode Packet.decode contains get_node_id_for_ble_peer
    Dict.lookup saw relay
data_kind e = cc

receive-HasLinksOf_example :
    HasLinksOf fresh_adapter (receive data_bytes (codes "y") 7 fresh_adapter).adapter
receive-HasLinksOf_example =
    receive-HasLinksOf data_bytes (codes "y") 7 fresh_adapter fresh-AreInverse fresh-AreNormal
      data_kind
