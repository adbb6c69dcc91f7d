-- ===== src/Mesh/Dedup.antt =====
-- The deduplication cache: src/BITCHAT/mesh/DedupCache.ts.
pub mod Laws
use i_tantra.Base.{
  ℕ, ◌+◌, ◌-◌, Bool, true, false, not, List, [], ◌∷◌, ◌++◌, Result, ok, err, ◌>>=◌, ltb, leb,
  length, filter, any, tail, Text, text_eq, ◌==◌, if◌then◌else◌,
}
use i_tantra.NodeId.{NodeId, PacketId, IdError, normalize_id}

pub record Entry : Type 0 where
  pub key : Text
  pub seen_at : ℕ

pub record DedupCache : Type 0 where
  pub entries : List Entry
  pub max_entries : ℕ
  pub retention_ms : ℕ

unfoldable pub new_cache : ℕ → ℕ → DedupCache
new_cache max_entries retention_ms = record {
  entries = [];
  max_entries = max_entries;
  retention_ms = retention_ms;
}

-- "sourceNodeId:packetId", both normalised
unfoldable pub build_key : NodeId → PacketId → Result IdError Text
build_key source packet_id = do
  s ← normalize_id source
  p ← normalize_id packet_id
  ok (s ++ 58 ∷ p)

unfoldable pub has_key : Text → List Entry → Bool
has_key key entries = any (λ e. e.key == key) entries

-- push, then shift if over capacity
unfoldable pub push_entry : ℕ → Entry → List Entry → List Entry
push_entry max_entries entry entries =
    let longer = entries ++ entry ∷ [] in
    if ltb max_entries (length longer) then tail longer else longer

unfoldable pub has : DedupCache → NodeId → PacketId → Result IdError Bool
has c source packet_id = do key ← build_key source packet_id; ok (has_key key c.entries)

unfoldable pub mark_seen : DedupCache → NodeId → PacketId → ℕ → Result IdError DedupCache
mark_seen c source packet_id now = do
  key ← build_key source packet_id
  let others = filter (λ e. not (e.key == key)) c.entries
  ok (record c { entries = push_entry c.max_entries (record { key = key; seen_at = now }) others })

unfoldable pub check_key : DedupCache → Text → ℕ → DedupCache × Bool
check_key c key now = if has_key key c.entries then (c, true) else (
  record c { entries = push_entry c.max_entries (record { key = key; seen_at = now }) c.entries },
  false,
)

-- The cache and whether the packet is a duplicate.
unfoldable pub check_and_mark :
    DedupCache → NodeId → PacketId → ℕ → Result IdError (DedupCache × Bool)
check_and_mark c source packet_id now = do
  key ← build_key source packet_id
  ok (check_key c key now)

-- Entries with `seenAt >= now - retentionMs` stay; the count of the others is returned.
unfoldable pub prune_expired : DedupCache → ℕ → DedupCache × ℕ
prune_expired c now =
    let kept = filter (λ e. leb now (e.seen_at + c.retention_ms)) c.entries in
    (record c { entries = kept }, length c.entries - length kept)

unfoldable pub clear : DedupCache → DedupCache
clear c = record c { entries = [] }

unfoldable pub get_count : DedupCache → ℕ
get_count c = length c.entries
