-- ===== src/Delivery/Delivered.antt =====
-- Delivered message ids per peer: src/protocol/DeliveredMessageCache.ts.
pub mod Laws
use i_tantra.Base.{
  ℕ, ◌+◌, ◌-◌, Bool, true, false, List, [], ◌∷◌, ◌++◌, Option, none, some, leb, length, filter, any,
  tail, Text, text_eq, text_beq, if◌then◌else◌,
}
use i_tantra.Base.Dict

abbrev pub delivered_cache_max : ℕ
delivered_cache_max = 64

abbrev pub delivered_cache_retention_ms : ℕ
delivered_cache_retention_ms = 60000

pub record DeliveredEntry : Type 0 where
  pub message_id : Text
  pub delivered_at : ℕ

abbrev pub Caches : Type 0
Caches = List (Text × List DeliveredEntry)

-- The entries of a peer, none if it has no array yet.
unfoldable pub entries_of : Option (List DeliveredEntry) → List DeliveredEntry
entries_of none = []
entries_of (some entries) = entries

-- The order of the search does not change whether an entry is found.
unfoldable pub is_delivered : Caches → Text → Text → Bool
unfolding entries_of
is_delivered caches source_id message_id =
    any (λ e. text_beq e.message_id message_id) (entries_of (Dict.lookup source_id caches))

unfoldable pub with_room : List DeliveredEntry → List DeliveredEntry
with_room entries = if leb delivered_cache_max (length entries) then tail entries else entries

unfoldable pub mark_delivered : Caches → Text → Text → ℕ → Caches
unfolding entries_of with_room
mark_delivered caches source_id message_id now =
    let entries = entries_of (Dict.lookup source_id caches) in
    let entry : DeliveredEntry = record { message_id = message_id; delivered_at = now } in
    Dict.insert source_id (with_room entries ++ entry ∷ []) caches

-- `now - deliveredAt > DELIVERED_CACHE_RETENTION_MS` removes an entry.
unfoldable pub unexpired : ℕ → List DeliveredEntry → List DeliveredEntry
unexpired now entries =
    filter (λ e. leb now (e.delivered_at + delivered_cache_retention_ms)) entries

unfoldable pub cleanup_found : Option (List DeliveredEntry) → Caches → Text → ℕ → Caches × ℕ
unfolding unexpired
cleanup_found none caches source_id now = (caches, 0)
cleanup_found (some entries) caches source_id now =
    let kept = unexpired now entries in
    (Dict.insert source_id kept caches, length entries - length kept)

unfoldable pub cleanup : Caches → Text → ℕ → Caches × ℕ
unfolding cleanup_found
cleanup caches source_id now = cleanup_found (Dict.lookup source_id caches) caches source_id now

unfoldable pub reset_peer : Caches → Text → Caches
reset_peer caches source_id = Dict.remove source_id caches

unfoldable pub get_count : Caches → Text → ℕ
unfolding entries_of
get_count caches source_id = length (entries_of (Dict.lookup source_id caches))
