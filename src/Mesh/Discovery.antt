-- ===== src/Mesh/Discovery.antt =====
-- The registry of nodes discovered through the mesh: src/BITCHAT/mesh/MeshDiscoveryRegistry.ts.
pub mod Laws
use i_tantra.Base.{
  ℕ, zero, ◌+◌, ◌-◌, Bool, true, false, not, List, [], ◌∷◌, Option, none, some, Result, ok, err,
  ◌>>=◌, ltb, leb, length, filter, map, Text, text_eq, if◌then◌else◌,
}
use i_tantra.Base.Dict
use i_tantra.NodeId.{NodeId, IdError, normalize_id}

pub record DiscoveredNode : Type 0 where
  pub node_id : NodeId
  pub discovered_at : ℕ
  pub hop_count : ℕ
  pub reported_by : Option NodeId

abbrev pub Nodes : Type 0
Nodes = List (NodeId × DiscoveredNode)

pub record Registry : Type 0 where
  pub nodes : Nodes
  pub max_entries : ℕ
  pub retention_ms : ℕ

unfoldable pub new_registry : ℕ → ℕ → Registry
new_registry max_entries retention_ms = record {
  nodes = [];
  max_entries = max_entries;
  retention_ms = retention_ms;
}

-- The key and time of the entry that is found so far, `none` for `oldestTime = Infinity`.
unfoldable pub oldest : Option (NodeId × ℕ) → Nodes → Option (NodeId × ℕ)
oldest best [] = best
oldest none ((key, entry) ∷ rest) = oldest (some (key, entry.discovered_at)) rest
oldest (some (best_key, best_time)) ((key, entry) ∷ rest) =
    oldest
      (if ltb entry.discovered_at best_time
        then some (key, entry.discovered_at)
        else some (best_key, best_time))
      rest

unfoldable pub delete_found : Option (NodeId × ℕ) → Nodes → Nodes
delete_found none nodes = nodes
delete_found (some (key, time)) nodes = Dict.remove key nodes

unfoldable pub evict_oldest : Nodes → Nodes
unfolding delete_found oldest
evict_oldest nodes = delete_found (oldest none nodes) nodes

-- `reportedBy ? normalizeNodeId(reportedBy) : undefined`
unfoldable pub normalize_reporter : Option NodeId → Result IdError (Option NodeId)
normalize_reporter none = ok none
normalize_reporter (some []) = ok none
normalize_reporter (some (c ∷ cs)) = do id ← normalize_id (c ∷ cs); ok (some id)

-- A known node: a later sighting, and the reporter as it was given if the way is shorter.
unfoldable pub refreshed : DiscoveredNode → ℕ → Option NodeId → ℕ → DiscoveredNode
refreshed existing hop_count reported_by now =
    if ltb hop_count existing.hop_count
    then record existing { discovered_at = now; hop_count = hop_count; reported_by = reported_by }
    else record existing { discovered_at = now }

-- An evicted map if the new one is over capacity.
unfoldable pub within_capacity : ℕ → Nodes → Nodes
unfolding evict_oldest
within_capacity max_entries nodes =
    if ltb max_entries (length nodes) then evict_oldest nodes else nodes

unfoldable pub record_found :
    Option DiscoveredNode → Registry → NodeId → ℕ → Option NodeId → ℕ → Result IdError Registry
unfolding refreshed within_capacity
record_found (some existing) r id hop_count reported_by now =
    ok (record r { nodes = Dict.insert id (refreshed existing hop_count reported_by now) r.nodes })
record_found none r id hop_count reported_by now = do
  reporter ← normalize_reporter reported_by
  let entry : DiscoveredNode = record {
    node_id = id;
    discovered_at = now;
    hop_count = hop_count;
    reported_by = reporter;
  }
  ok (record r { nodes = within_capacity r.max_entries (Dict.insert id entry r.nodes) })

unfoldable pub record_node : Registry → NodeId → ℕ → Option NodeId → ℕ → Result IdError Registry
unfolding record_found
record_node r node_id hop_count reported_by now = do
  id ← normalize_id node_id
  record_found (Dict.lookup id r.nodes) r id hop_count reported_by now

-- `now - discoveredAt > retentionMs`
unfoldable pub is_expired : ℕ → ℕ → DiscoveredNode → Bool
is_expired retention_ms now entry = ltb (entry.discovered_at + retention_ms) now

-- An expired entry is deleted when it is looked at.
unfoldable pub get_found :
    Option DiscoveredNode → Registry → NodeId → ℕ → Registry × Option DiscoveredNode
unfolding is_expired
get_found none r id now = (r, none)
get_found (some entry) r id now =
    if is_expired r.retention_ms now entry
    then (record r { nodes = Dict.remove id r.nodes }, none)
    else (r, some entry)

unfoldable pub get : Registry → NodeId → ℕ → Result IdError (Registry × Option DiscoveredNode)
unfolding get_found
get r node_id now = do id ← normalize_id node_id; ok (get_found (Dict.lookup id r.nodes) r id now)

abbrev pub is_some : Option DiscoveredNode → Bool
is_some none = false
is_some (some entry) = true

unfoldable pub has : Registry → NodeId → ℕ → Result IdError (Registry × Bool)
unfolding get_found
has r node_id now = do
  id ← normalize_id node_id
  let found = get_found (Dict.lookup id r.nodes) r id now
  ok (found.0, is_some found.1)

-- Entries with `discoveredAt < now - retentionMs` are deleted and counted.
unfoldable pub prune_expired : Registry → ℕ → Registry × ℕ
unfolding is_expired
prune_expired r now =
    let kept =
      filter (λ (p : NodeId × DiscoveredNode). not (is_expired r.retention_ms now p.1)) r.nodes in
    (record r { nodes = kept }, length r.nodes - length kept)

unfoldable pub get_all : Registry → ℕ → Registry × List DiscoveredNode
unfolding prune_expired
get_all r now =
    let (r', removed) = prune_expired r now in
    (r', map (λ (p : NodeId × DiscoveredNode). p.1) r'.nodes)

unfoldable pub clear : Registry → Registry
clear r = record r { nodes = [] }

unfoldable pub get_count : Registry → ℕ
get_count r = length r.nodes
