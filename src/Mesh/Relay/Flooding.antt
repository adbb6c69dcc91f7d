-- ===== src/Mesh/Relay/Flooding.antt =====
-- What `receive` of src/BITCHAT/mesh/RelayEngine.ts puts out, and to whom.
use i_tantra.Base.{
  ℕ, suc, ◌+◌, ◌<◌, ◌≡◌, ◌≢◌, refl, ◌∙◌, Bool, true, false, not, ◌&&◌, ◌||◌, List, [], ◌∷◌, ◌++◌,
  Option, some, Result, ok, err, leb, nat_beq, map, Text, text_eq, ◌==◌, if◌then◌else◌, All,
  All-append, Bool-cases, Result-cases, inl, inr, arith,
}
use native.Mathlib.Nat.{add-zero}
use i_tantra.NodeId.{NodeId, IdError, normalize_id}
use i_tantra.Packet.{Packet, packet_type_announce}
use i_tantra.Mesh.Peers.{PeerInfo}
use i_tantra.Mesh.Router.{get_relay_peers, is_member, excluded_peers}
use i_tantra.Mesh.Router.Laws.{connected_as, get_relay_peers_lem}
use i_tantra.Mesh.Dedup.{DedupCache, check_and_mark}
use i_tantra.Mesh.Relay.{
  RelayEngine, Output, deliver, send, is_addressed_to, is_empty, forwarded, forward_to, first_seen,
  receive_checked, receive,
}

-- Some output is a send to this peer.
abbrev pub sends_to : NodeId → List Output → Bool
sends_to id [] = false
sends_to id (deliver p from ∷ os) = sends_to id os
sends_to id (send j p ∷ os) = if j == id then true else sends_to id os

-- How many outputs are deliveries to the application.
abbrev pub deliveries : List Output → ℕ
deliveries [] = 0
deliveries (deliver p from ∷ os) = suc (deliveries os)
deliveries (send j p ∷ os) = deliveries os

-- A delivery is of the packet itself, to a node that it is addressed to; a send is of the copy with one
-- hop less, of a packet that had a hop left and is no announcement.
abbrev pub Allowed : RelayEngine → Packet → Output → Type 0
Allowed e p (deliver q from) = (q ≡ p) × (is_addressed_to e p ≡ ok true)
Allowed e p (send id q) =
    (q ≡ forwarded p) × (suc q.ttl ≡ p.ttl) × (p.packet_type ≢ packet_type_announce)

sends_to-map :
    (id : NodeId) (p : Packet) (l : List NodeId)
    → sends_to id (map (λ j. send j p) l) ≡ is_member id l
unfolding is_member
sends_to-map id p [] = refl
sends_to-map id p (j ∷ l) = ground (arith, sends_to-map id p l)

deliveries-map : (p : Packet) (l : List NodeId) → deliveries (map (λ j. send j p) l) ≡ 0
deliveries-map p [] = refl
deliveries-map p (j ∷ l) = deliveries-map p l

Allowed-map :
    (e : RelayEngine) (p : Packet) (l : List NodeId)
    → 0 < p.ttl
    → p.packet_type ≢ packet_type_announce
    → All (Allowed e p) (map (λ j. send j (forwarded p)) l)
Allowed-map e p [] h ne = tt
Allowed-map e p (j ∷ l) h ne = ((refl, omega arith, ne), Allowed-map e p l h ne)

module _ (e : RelayEngine) (peers : List PeerInfo) (p : Packet) (from : Option NodeId) where
  Allowed-delivered :
      (a : Bool)
      → is_addressed_to e p ≡ ok a
      → All (Allowed e p) (if a then deliver p from ∷ [] else [])
  Allowed-delivered true h = ((refl, h), tt)
  Allowed-delivered false h = tt

  Allowed-forward_to :
      (r : Result IdError (List NodeId)) (c : DedupCache) (os : List Output)
      → All (Allowed e p) os
      → 0 < p.ttl
      → p.packet_type ≢ packet_type_announce
      → All (Allowed e p) (forward_to r c os p).outputs
  unfolding forward_to
  Allowed-forward_to (err x) c os h t ne = h
  Allowed-forward_to (ok l) c os h t ne = All-append (Allowed e p) os _ h (Allowed-map e p l t ne)

  Allowed-first_seen :
      (r : Result IdError Bool) (c : DedupCache)
      → is_addressed_to e p ≡ r
      → All (Allowed e p) (first_seen r e peers c p from).outputs
  unfolding first_seen
  Allowed-first_seen (err x) c h = tt
  Allowed-first_seen (ok a) c h = elim (Bool-cases (nat_beq p.packet_type packet_type_announce)) [
    | inl t ↦ rw t (Allowed-delivered a h)
    | inr f ↦ rw f (elim (Bool-cases (leb p.ttl 0)) [
      | inl t ↦ rw t (Allowed-delivered a h)
      | inr g ↦
          rw g (Allowed-forward_to _ c _ (Allowed-delivered a h) (ground arith) (ground arith))
    ])
  ]

  Allowed-receive_checked :
      (r : Result IdError (DedupCache × Bool)) (c : DedupCache)
      → All (Allowed e p) (receive_checked r e peers c p from).outputs
  unfolding receive_checked
  Allowed-receive_checked (err x) c = tt
  Allowed-receive_checked (ok (d, true)) c = tt
  Allowed-receive_checked (ok (d, false)) c = Allowed-first_seen (is_addressed_to e p) d refl

  -- Whatever is received, every output is one that is allowed: a delivery only of the packet as it
  -- came and only if it is addressed to this node or to all; a send only of the copy with exactly one
  -- hop less, so never of a packet without hops and never of an announcement.
  pub receive-Allowed :
      (c : DedupCache) (now : ℕ) → All (Allowed e p) (receive e peers c p from now).outputs
  unfolding receive
  receive-Allowed c now = elim (Bool-cases (is_empty p.source_node_id || is_empty p.packet_id)) [
    | inl t ↦ rw t tt
    | inr f ↦ rw f (Allowed-receive_checked _ c)
  ]

sends_to-append :
    (id : NodeId) (os : List Output) (a : Bool) (p : Packet) (from : Option NodeId)
    → sends_to id ((if a then deliver p from ∷ [] else []) ++ os) ≡ sends_to id os
sends_to-append id os true p from = refl
sends_to-append id os false p from = refl

deliveries-append :
    (os : List Output) (a : Bool) (p : Packet) (from : Option NodeId)
    → deliveries ((if a then deliver p from ∷ [] else []) ++ os)
      ≡ (if a then 1 else 0) + deliveries os
deliveries-append os true p from = omega arith
deliveries-append os false p from = omega arith

relay_error :
    (e : RelayEngine) (peers : List PeerInfo) (x : ℕ) (xs : Text) (incoming : NodeId) (y : IdError)
    → normalize_id (x ∷ xs) ≡ ok incoming
    → get_relay_peers e.router peers (some (x ∷ xs)) ≢ err y
unfolding get_relay_peers excluded_peers
relay_error e peers x xs incoming y h k = cc

-- A packet that is no duplicate, whose identifiers are present and whose destination is an
-- identifier, that has a hop left, is no announcement and came from a peer whose identifier can be
-- normalised, is delivered once if it is addressed to this node or to all and otherwise not at all,
-- and is sent to a peer exactly if the peer is connected and is neither this node, as the router
-- knows it, nor the peer that the packet came from.
pub receive_floods :
    (e : RelayEngine) (peers : List PeerInfo) (c d : DedupCache) (p : Packet) (x : ℕ) (xs : Text)
    (incoming id : NodeId) (now : ℕ) (addressed : Bool)
    → (is_empty p.source_node_id || is_empty p.packet_id) ≡ false
    → check_and_mark c p.source_node_id p.packet_id now ≡ ok (d, false)
    → is_addressed_to e p ≡ ok addressed
    → nat_beq p.packet_type packet_type_announce ≡ false
    → leb p.ttl 0 ≡ false
    → normalize_id (x ∷ xs) ≡ ok incoming
    → (sends_to id (receive e peers c p (some (x ∷ xs)) now).outputs
        ≡ (connected_as id peers && not (e.router.local_node_id == id || incoming == id)))
      × (deliveries (receive e peers c p (some (x ∷ xs)) now).outputs
          ≡ (if addressed then 1 else 0))
unfolding receive
receive_floods e peers c d p x xs incoming id now a h0 h1 h2 h3 h4 h5 =
    let from : Option NodeId = some (x ∷ xs) in
    elim (Result-cases (get_relay_peers e.router peers from)) [
      | inr (y, k) ↦ absurd (relay_error e peers x xs incoming y h5 k)
      | inl (l, k) ↦
          rw (h0, h1, h2, h3, h4, k)
            (
              sends_to-append id _ a p from
                  ∙ sends_to-map id (forwarded p) l
                  ∙ (get_relay_peers_lem e.router peers x xs incoming l id h5 k).1,
              deliveries-append _ a p from ∙ rw (deliveries-map (forwarded p) l) (add-zero _),
            )
    ]
