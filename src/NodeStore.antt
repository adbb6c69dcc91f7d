-- ===== src/NodeStore.antt =====
-- The identity of an installation: src/BITCHAT/NodeIdStore.ts. `storage` is what the backend holds under
-- the store's key, and the backend answers with it; the eight random bytes are an argument. A promise of
-- the backend is taken to be settled before the next call.
pub mod Identity
use i_tantra.Base.{
  ℕ, ◌+◌, ◌*◌, Bool, List, [], ◌∷◌, Option, none, some, Result, ok, err, nat_beq, Text,
  if◌then◌else◌,
}
use i_tantra.Base.Int.{pos}
use i_tantra.Bytes.{Bytes}
use i_tantra.NodeId.{NodeId, IdError, normalize_id, normalize_uint64, big}
use i_tantra.Semantic.{is_blank}

pub record NodeIdStore : Type 0 where
  pub cached_node_id : Option NodeId
  pub storage : Option Text

-- for (let i = 0; i < 8; i++) value = (value << 8) | randomBytes[i]
unfoldable pub join_bytes : ℕ → Bytes → ℕ
join_bytes value [] = value
join_bytes value (b ∷ bs) = join_bytes (value * 256 + b) bs

unfoldable pub generate_random_node_id : Bytes → Result IdError NodeId
unfolding join_bytes
generate_random_node_id random_bytes =
    let value = join_bytes 0 random_bytes in
    normalize_uint64 (big (pos (if nat_beq value 0 then 1 else value)))

-- A new identity, written to the storage.
unfoldable pub generate_identity : NodeIdStore → Bytes → NodeIdStore × Result IdError NodeId
unfolding generate_random_node_id
generate_identity store random_bytes = elim (generate_random_node_id random_bytes) [
  | err e ↦ (store, err e)
  | ok id ↦ (record { cached_node_id = some id; storage = some id }, ok id)
]

-- A stored text that is no identifier is replaced.
unfoldable pub load_identity : NodeIdStore → Text → Bytes → NodeIdStore × Result IdError NodeId
unfolding generate_identity
load_identity store stored random_bytes =
    if is_blank stored then generate_identity store random_bytes else elim (normalize_id stored) [
      | err e ↦ generate_identity store random_bytes
      | ok id ↦ (record store { cached_node_id = some id }, ok id)
    ]

unfoldable pub read_identity :
    NodeIdStore → Option Text → Bytes → NodeIdStore × Result IdError NodeId
unfolding load_identity generate_identity
read_identity store none random_bytes = generate_identity store random_bytes
read_identity store (some stored) random_bytes = load_identity store stored random_bytes

-- An empty text in the cache counts as none.
unfoldable pub cached_identity :
    NodeIdStore → Option NodeId → Bytes → NodeIdStore × Result IdError NodeId
unfolding read_identity
cached_identity store none random_bytes = read_identity store store.storage random_bytes
cached_identity store (some id) random_bytes =
    if is_blank id then read_identity store store.storage random_bytes else (store, ok id)

unfoldable pub get_local_node_id : NodeIdStore → Bytes → NodeIdStore × Result IdError NodeId
unfolding cached_identity
get_local_node_id store random_bytes = cached_identity store store.cached_node_id random_bytes

unfoldable pub set_node_id : NodeIdStore → Text → NodeIdStore × Result IdError (Unit {0})
set_node_id store node_id = elim (normalize_id node_id) [
  | err e ↦ (store, err e)
  | ok id ↦ (record { cached_node_id = some id; storage = some id }, ok tt)
]

unfoldable pub clear : NodeIdStore → NodeIdStore
clear store = record { cached_node_id = none; storage = some [] }

-- The store of a new run of the application, over the same storage.
abbrev pub restarted : NodeIdStore → NodeIdStore
restarted store = record store { cached_node_id = none }
