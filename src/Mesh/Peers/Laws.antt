-- ===== src/Mesh/Peers/Laws.antt =====
-- Laws of src/BITCHAT/peer/PeerRegistry.ts.
use i_tantra.Base.{
  ℕ, ◌≡◌, refl, ap, List, [], ◌∷◌, Option, none, some, ok, text_eq, ◌==◌, if◌then◌else◌, Bool-cases,
  inl, inr, arith,
}
use i_tantra.Base.Int.{ℤ}
use mathlib.Core.Option
use i_tantra.Base.Dict
use i_tantra.Base.Dict.{lookup-insert_self, lookup-insert}
use i_tantra.NodeId.{NodeId, normalize_id}
use i_tantra.Mesh.Peers.{
  PeerState, connected, discovered, mark_disconnected, stale, PeerInfo, PeerRegistry, upserted,
  upsert_peer, set_state, mark_connected, goes_stale, prune_loop, prune_stale,
}

upserted-last_seen :
    (o : Option PeerInfo) (id : NodeId) (rssi : Option ℤ) (now : ℕ)
    → (upserted o id rssi now).last_seen ≡ now
unfolding upserted
upserted-last_seen none id rssi now = refl
upserted-last_seen (some p) id none now = refl
upserted-last_seen (some p) id (some x) now = refl

-- Setting a peer's state stores it under the normalised identifier with that state, seen now, and
-- changes no other entry.
set_state_lem :
    (r : PeerRegistry) (peer_id id j : NodeId) (st : PeerState) (now : ℕ)
    → normalize_id peer_id ≡ ok id
    → (r' : PeerRegistry) × (info : PeerInfo) × (set_state r peer_id st now ≡ ok r')
      × (Dict.lookup j r'.peers ≡ (if id == j then some info else Dict.lookup j r.peers))
      × (info.state ≡ st)
      × (info.last_seen ≡ now)
unfolding set_state upsert_peer
set_state_lem r peer_id id j st now e =
    let found = upserted (Dict.lookup id r.peers) id none now in
    let info : PeerInfo = record found { state = st } in
    let inner = Dict.insert id found r.peers in
    (
      record r { peers = Dict.insert id info inner },
      info,
      rw e,
      ground (arith, lookup-insert id j info inner, lookup-insert id j found r.peers),
      refl,
      upserted-last_seen (Dict.lookup id r.peers) id none now,
    )

-- A peer whose identifier can be normalised and that is marked connected is found under its
-- normalised identifier, connected and seen now; every other entry is as it was.
pub mark_connected_lem :
    (r : PeerRegistry) (peer_id id j : NodeId) (now : ℕ)
    → normalize_id peer_id ≡ ok id
    → (r' : PeerRegistry) × (info : PeerInfo) × (mark_connected r peer_id now ≡ ok r')
      × (Dict.lookup j r'.peers ≡ (if id == j then some info else Dict.lookup j r.peers))
      × (info.state ≡ connected)
      × (info.last_seen ≡ now)
unfolding mark_connected
mark_connected_lem r peer_id id j now e = set_state_lem r peer_id id j connected now e

-- Marking a peer disconnected succeeds if its identifier can be normalised.
pub mark_disconnected-total :
    (r : PeerRegistry) (peer_id id : NodeId) (now : ℕ)
    → normalize_id peer_id ≡ ok id
    → (r' : PeerRegistry) × (mark_disconnected r peer_id now ≡ ok r')
unfolding mark_disconnected
mark_disconnected-total r peer_id id now e =
    let (r', info, k, _, _, _) = set_state_lem r peer_id id id discovered now e in (r', k)

-- What pruning does to one peer.
abbrev pub pruned_peer : ℕ → ℕ → PeerInfo → PeerInfo
pruned_peer threshold now p = if goes_stale threshold now p then record p { state = stale } else p

prune_loop-lookup :
    (t now : ℕ) (j : NodeId) (ps : List (NodeId × PeerInfo))
    → Dict.lookup j (prune_loop t now ps).0 ≡ Option.map (pruned_peer t now) (Dict.lookup j ps)
unfolding prune_loop Dict.lookup
prune_loop-lookup t now j [] = refl
prune_loop-lookup t now j ((i, p) ∷ ps) = elim (Bool-cases (goes_stale t now p)) [
  | inl g ↦ rw g (elim (Bool-cases (i == j)) [
    | inl same ↦ rw (same) (ap some (rw g))
    | inr other ↦ rw (other) (prune_loop-lookup t now j ps)
  ])
  | inr g ↦ rw g (elim (Bool-cases (i == j)) [
    | inl same ↦ rw (same) (ap some (rw g))
    | inr other ↦ rw (other) (prune_loop-lookup t now j ps)
  ])
]

-- Pruning deletes no peer: each is still found under its identifier, marked stale if it was last seen
-- more than the threshold ago, and otherwise unchanged.
pub prune_stale-lookup :
    (r : PeerRegistry) (now : ℕ) (j : NodeId)
    → Dict.lookup j (prune_stale r now).0.peers
      ≡ Option.map (pruned_peer r.stale_threshold_ms now) (Dict.lookup j r.peers)
unfolding prune_stale
prune_stale-lookup r now j = prune_loop-lookup r.stale_threshold_ms now j r.peers
