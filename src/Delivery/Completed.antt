-- ===== src/Delivery/Completed.antt =====
-- Completed reassembly groups per peer: src/protocol/CompletedGroupCache.ts.
pub mod Stored
use i_tantra.Base.{
  ℕ, ◌+◌, ◌-◌, Bool, true, false, List, [], ◌∷◌, ◌++◌, Option, none, some, leb, length, filter,
  tail, Text, text_eq, nat_beq, nat_eq, if◌then◌else◌,
}
use i_tantra.Base.Dict

abbrev pub completed_cache_max : ℕ
completed_cache_max = 64

abbrev pub completed_cache_retention_ms : ℕ
completed_cache_retention_ms = 60000

pub record CompletedGroupEntry : Type 0 where
  pub group_id : ℕ
  pub message_id : Text
  pub completed_at : ℕ

abbrev pub Caches : Type 0
Caches = List (Text × List CompletedGroupEntry)

-- The entries of a peer, none if it has no array yet.
unfoldable pub entries_of : Option (List CompletedGroupEntry) → List CompletedGroupEntry
entries_of none = []
entries_of (some entries) = entries

-- What a later entry gave, or this one.
unfoldable pub later : Option Text → ℕ → CompletedGroupEntry → Option Text
later (some m) group_id e = some m
later none group_id e = if nat_beq e.group_id group_id then some e.message_id else none

-- From the most recent entry, at the end of the array.
unfoldable pub find_last : ℕ → List CompletedGroupEntry → Option Text
unfolding later
find_last group_id [] = none
find_last group_id (e ∷ rest) = later (find_last group_id rest) group_id e

unfoldable pub get_completed_message_id : Caches → Text → ℕ → Option Text
unfolding entries_of find_last
get_completed_message_id caches source_id group_id =
    find_last group_id (entries_of (Dict.lookup source_id caches))

unfoldable pub is_completed : Caches → Text → ℕ → Bool
unfolding get_completed_message_id
is_completed caches source_id group_id = elim (get_completed_message_id caches source_id group_id) [
  | none ↦ false
  | some m ↦ true
]

unfoldable pub with_room : List CompletedGroupEntry → List CompletedGroupEntry
with_room entries = if leb completed_cache_max (length entries) then tail entries else entries

unfoldable pub store : Caches → Text → ℕ → Text → ℕ → Caches
unfolding entries_of with_room
store caches source_id group_id message_id now =
    let entries = entries_of (Dict.lookup source_id caches) in
    let entry : CompletedGroupEntry = record {
      group_id = group_id;
      message_id = message_id;
      completed_at = now;
    } in
    Dict.insert source_id (with_room entries ++ entry ∷ []) caches

-- `now - completedAt > COMPLETED_CACHE_RETENTION_MS` removes an entry.
unfoldable pub unexpired : ℕ → List CompletedGroupEntry → List CompletedGroupEntry
unexpired now entries =
    filter (λ e. leb now (e.completed_at + completed_cache_retention_ms)) entries

unfoldable pub cleanup_found : Option (List CompletedGroupEntry) → Caches → Text → ℕ → Caches × ℕ
unfolding unexpired
cleanup_found none caches source_id now = (caches, 0)
cleanup_found (some entries) caches source_id now =
    let kept = unexpired now entries in
    (Dict.insert source_id kept caches, length entries - length kept)

unfoldable pub cleanup : Caches → Text → ℕ → Caches × ℕ
unfolding cleanup_found
cleanup caches source_id now = cleanup_found (Dict.lookup source_id caches) caches source_id now

unfoldable pub reset_peer : Caches → Text → Caches
reset_peer caches source_id = Dict.remove source_id caches

unfoldable pub get_count : Caches → Text → ℕ
unfolding entries_of
get_count caches source_id = length (entries_of (Dict.lookup source_id caches))
