-- ===== src/Mesh/Peers.antt =====
-- The peer registry: src/BITCHAT/peer/PeerTypes.ts and PeerRegistry.ts.
pub mod Laws
use i_tantra.Base.{
  ℕ, ◌+◌, Bool, true, false, not, ◌&&◌, List, [], ◌∷◌, Option, none, some, Result, ok, err, ◌>>=◌,
  ltb, length, map, Text, text_eq, if◌then◌else◌,
}
use i_tantra.Base.Int.{ℤ}
use i_tantra.Base.Dict
use i_tantra.NodeId.{NodeId, IdError, normalize_id}

pub data PeerState : Type 0 where
  discovered connected stale : PeerState

pub record PeerInfo : Type 0 where
  pub peer_id : NodeId
  pub last_seen : ℕ
  pub rssi : Option ℤ
  pub state : PeerState

pub record PeerRegistry : Type 0 where
  pub peers : List (NodeId × PeerInfo)
  pub stale_threshold_ms : ℕ

unfoldable pub new_registry : ℕ → PeerRegistry
new_registry threshold = record { peers = []; stale_threshold_ms = threshold }

-- A present peer is refreshed, an absent one is new.
unfoldable pub upserted : Option PeerInfo → NodeId → Option ℤ → ℕ → PeerInfo
upserted none id rssi now = record {
  peer_id = id;
  last_seen = now;
  rssi = rssi;
  state = discovered;
}
upserted (some existing) id none now = record existing { last_seen = now }
upserted (some existing) id (some rssi) now = record existing { last_seen = now; rssi = some rssi }

-- The registry with the peer stored under its normalised identifier, and the stored record.
unfoldable pub upsert_peer :
    PeerRegistry → NodeId → Option ℤ → ℕ → Result IdError (PeerRegistry × PeerInfo)
upsert_peer r peer_id rssi now = do
  id ← normalize_id peer_id
  let info = upserted (Dict.lookup id r.peers) id rssi now
  ok (record r { peers = Dict.insert id info r.peers }, info)

unfoldable pub get_peer : PeerRegistry → NodeId → Result IdError (Option PeerInfo)
get_peer r peer_id = do id ← normalize_id peer_id; ok (Dict.lookup id r.peers)

unfoldable pub get_peers : PeerRegistry → List PeerInfo
get_peers r = map (λ (p : NodeId × PeerInfo). p.1) r.peers

unfoldable pub mark_seen : PeerRegistry → NodeId → Option ℤ → ℕ → Result IdError PeerRegistry
mark_seen r peer_id rssi now = do (r', info) ← upsert_peer r peer_id rssi now; ok r'

-- `upsertPeer` returns the stored object, whose state is then set.
unfoldable pub set_state : PeerRegistry → NodeId → PeerState → ℕ → Result IdError PeerRegistry
set_state r peer_id state now = do
  id ← normalize_id peer_id
  (r', info) ← upsert_peer r peer_id none now
  ok (record r' { peers = Dict.insert id (record info { state = state }) r'.peers })

unfoldable pub mark_connected : PeerRegistry → NodeId → ℕ → Result IdError PeerRegistry
unfolding set_state
mark_connected r peer_id now = set_state r peer_id connected now

unfoldable pub mark_disconnected : PeerRegistry → NodeId → ℕ → Result IdError PeerRegistry
unfolding set_state
mark_disconnected r peer_id now = set_state r peer_id discovered now

abbrev pub is_stale_state : PeerState → Bool
is_stale_state stale = true
is_stale_state connected = false
is_stale_state discovered = false

-- `lastSeen < now - threshold` and not yet stale
unfoldable pub goes_stale : ℕ → ℕ → PeerInfo → Bool
goes_stale threshold now p = ltb (p.last_seen + threshold) now && not (is_stale_state p.state)

unfoldable pub prune_loop : ℕ → ℕ → List (NodeId × PeerInfo) → List (NodeId × PeerInfo) × ℕ
prune_loop threshold now [] = ([], 0)
prune_loop threshold now ((id, p) ∷ rest) =
    let (pruned, count) = prune_loop threshold now rest in
    if goes_stale threshold now p
    then ((id, record p { state = stale }) ∷ pruned, count + 1)
    else ((id, p) ∷ pruned, count)

-- The registry, and how many peers were marked.
unfoldable pub prune_stale : PeerRegistry → ℕ → PeerRegistry × ℕ
prune_stale r now =
    let (pruned, count) = prune_loop r.stale_threshold_ms now r.peers in
    (record r { peers = pruned }, count)

unfoldable pub remove_peer : PeerRegistry → NodeId → Result IdError (PeerRegistry × Bool)
remove_peer r peer_id = do
  id ← normalize_id peer_id
  ok (record r { peers = Dict.remove id r.peers }, Dict.has id r.peers)

unfoldable pub clear : PeerRegistry → PeerRegistry
clear r = record r { peers = [] }
