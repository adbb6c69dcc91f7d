-- ===== src/Tests/Relaying.antt =====
-- Deduplication, peers, routing, discovery and the relay engine at concrete inputs.
use i_tantra.Base.{
  ◌≡◌, refl, true, false, not, ◌&&◌, ◌||◌, [], ◌∷◌, ◌++◌, none, some, ok, tail, filter, any, All,
  Text, codes, text_eq, ◌==◌, arith,
}
use i_tantra.Base.Dict
use i_tantra.Mesh.Dedup.{DedupCache, build_key, has_key, push_entry, check_key, check_and_mark}
use i_tantra.Mesh.Peers.{PeerInfo, PeerRegistry, connected}
use i_tantra.Mesh.Router.{
  MeshRouter, get_relay_peers, is_member, excluded_peers, sort, insert_sorted, eligible,
}
use i_tantra.Mesh.Router.Laws.{connected_as}
use i_tantra.Mesh.Discovery
use i_tantra.Mesh.Discovery.{DiscoveredNode, Registry}
use i_tantra.Mesh.Relay.{RelayEngine, receive, is_addressed_to}
use i_tantra.Mesh.Relay.Laws.{receive_twice}
use i_tantra.Mesh.Relay.Flooding.{Allowed, receive-Allowed, receive_floods, sends_to, deliveries}
use i_tantra.Tests.Nodes.{node_a, node_b, normal_a, normal_b, short_a, packet_ab}

abbrev empty_cache : DedupCache
empty_cache = record { entries = []; max_entries = 4; retention_ms = 1000 }

abbrev key_aa : Text
key_aa = node_a ++ 58 ∷ node_a

-- The cache that saw packet a of node a at time 3.
abbrev marked_cache : DedupCache
marked_cache = record {
  entries = record { key = key_aa; seen_at = 3 } ∷ [];
  max_entries = 4;
  retention_ms = 1000;
}

key_of_a : build_key node_a node_a ≡ ok key_aa
unfolding build_key
key_of_a = rw normal_a refl

key_of_short : build_key (codes " 10 ") node_a ≡ ok key_aa
unfolding build_key
key_of_short = rw (short_a, normal_a) refl

marked_a : check_and_mark empty_cache node_a node_a 3 ≡ ok (marked_cache, false)
unfolding check_and_mark check_key has_key any push_entry
marked_a = rw key_of_a refl

-- Node b, connected.
abbrev peer_b : PeerInfo
peer_b = record { peer_id = node_b; last_seen = 2; rssi = none; state = connected }

abbrev router_a : MeshRouter
router_a = record { local_node_id = node_a }

relay_b : get_relay_peers router_a (peer_b ∷ []) (some node_a) ≡ ok (node_b ∷ [])
unfolding get_relay_peers excluded_peers sort insert_sorted eligible is_member filter
relay_b = rw normal_a refl

abbrev no_peers : PeerRegistry
no_peers = record { peers = []; stale_threshold_ms = 100 }

abbrev one_peer : PeerRegistry
one_peer = record { peers = (node_b, peer_b) ∷ []; stale_threshold_ms = 100 }

abbrev small_registry : Registry
small_registry = record { nodes = []; max_entries = 1; retention_ms = 1000 }

abbrev found_a : DiscoveredNode
found_a = record { node_id = node_a; discovered_at = 5; hop_count = 2; reported_by = none }

abbrev with_a : Registry
with_a = record { nodes = (node_a, found_a) ∷ []; max_entries = 1; retention_ms = 1000 }

recorded_a : Discovery.record_node small_registry node_a 2 none 5 ≡ ok with_a
unfolding Discovery.record_node Discovery.record_found Discovery.normalize_reporter
    Discovery.within_capacity Dict.lookup Dict.insert
recorded_a = rw normal_a refl

got_a : Discovery.get with_a node_a 9 ≡ ok (with_a, some found_a)
unfolding Discovery.get Discovery.get_found Discovery.is_expired Dict.lookup
got_a = rw normal_a refl

-- The engine of node b.
abbrev engine_b : RelayEngine
engine_b = record { local_node_id = node_b; router = record { local_node_id = node_b } }

receive_twice_example :
    (receive engine_b []
      (receive engine_b [] empty_cache packet_ab none 3).cache
      (record packet_ab { ttl = 2 })
      (some node_a)
      4).outputs
    ≡ []
receive_twice_example =
    receive_twice engine_b [] [] empty_cache packet_ab (record packet_ab { ttl = 2 }) none
      (some node_a) 3 4 (omega arith) refl refl

receive-Allowed_example :
    All
      (Allowed engine_b packet_ab)
      (receive engine_b (peer_b ∷ []) empty_cache packet_ab none 3).outputs
receive-Allowed_example = receive-Allowed engine_b (peer_b ∷ []) packet_ab none empty_cache 3

addressed_b : is_addressed_to engine_b packet_ab ≡ ok true
unfolding is_addressed_to
addressed_b = rw normal_b refl

receive_floods_example :
    (sends_to node_a (receive engine_b (peer_b ∷ []) empty_cache packet_ab (some node_a) 3).outputs
      ≡ (connected_as node_a (peer_b ∷ []) && not (node_b == node_a || node_a == node_a)))
    × (deliveries (receive engine_b (peer_b ∷ []) empty_cache packet_ab (some node_a) 3).outputs
        ≡ 1)
receive_floods_example =
    receive_floods engine_b (peer_b ∷ []) empty_cache marked_cache packet_ab 48 (tail node_a) node_a
      node_a 3 true refl marked_a addressed_b refl refl normal_a
