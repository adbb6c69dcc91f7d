-- ===== src/Mesh/Router.antt =====
-- Which peers get a relayed packet: src/BITCHAT/mesh/MeshRouter.ts.
-- `Array.prototype.sort` on texts orders by code units; it is written as an insertion sort.
pub mod Laws
use i_tantra.Base.{
  ℕ, Bool, true, false, not, ◌&&◌, ◌||◌, List, [], ◌∷◌, Option, none, some, Result, ok, err, ◌>>=◌,
  ltb, nat_beq, filter, map, Text, text_eq, ◌==◌, if◌then◌else◌,
}
use i_tantra.NodeId.{NodeId, IdError, normalize_id}
use i_tantra.Mesh.Peers.{PeerState, connected, discovered, stale, PeerInfo}

pub record MeshRouter : Type 0 where
  pub local_node_id : NodeId

unfoldable pub new_router : NodeId → Result IdError MeshRouter
new_router local = do id ← normalize_id local; ok (record { local_node_id = id })

-- The order of JavaScript texts.
unfoldable pub text_leb : Text → Text → Bool
text_leb [] t = true
text_leb (a ∷ s) [] = false
text_leb (a ∷ s) (b ∷ t) = ltb a b || (nat_beq a b && text_leb s t)

unfoldable pub insert_sorted : Text → List Text → List Text
insert_sorted x [] = x ∷ []
insert_sorted x (y ∷ ys) = if text_leb x y then x ∷ y ∷ ys else y ∷ insert_sorted x ys

unfoldable pub sort : List Text → List Text
sort [] = []
sort (x ∷ xs) = insert_sorted x (sort xs)

abbrev pub is_connected : PeerState → Bool
is_connected connected = true
is_connected discovered = false
is_connected stale = false

-- `if (incomingPeerId)`: an absent or empty identifier excludes nothing.
unfoldable pub excluded_peers : NodeId → Option NodeId → Result IdError (List NodeId)
excluded_peers local none = ok (local ∷ [])
excluded_peers local (some []) = ok (local ∷ [])
excluded_peers local (some (c ∷ cs)) = do id ← normalize_id (c ∷ cs); ok (local ∷ id ∷ [])

-- set.has(x)
unfoldable pub is_member : Text → List Text → Bool
is_member x [] = false
is_member x (y ∷ ys) = y == x || is_member x ys

unfoldable pub eligible : List NodeId → PeerInfo → Bool
eligible excluded p = is_connected p.state && not (is_member p.peer_id excluded)

unfoldable pub get_relay_peers :
    MeshRouter → List PeerInfo → Option NodeId → Result IdError (List NodeId)
get_relay_peers router peers incoming = do
  excluded ← excluded_peers router.local_node_id incoming
  ok (sort (map (λ (p : PeerInfo). p.peer_id) (filter (eligible excluded) peers)))
