-- ===== src/Mesh/Relay/Laws.antt =====
-- `receive` of src/BITCHAT/mesh/RelayEngine.ts, called again for the same packet.
use i_tantra.Base.{
  ℕ, ◌<◌, ◌≡◌, refl, Bool, true, false, ◌||◌, List, [], Option, Result, ok, err, leb, nat_beq,
  text_eq, Bool-cases, Result-cases, inl, inr,
}
use i_tantra.NodeId.{NodeId, IdError}
use i_tantra.Packet.{Packet, packet_type_announce}
use i_tantra.Mesh.Peers.{PeerInfo}
use i_tantra.Mesh.Router.{get_relay_peers}
use i_tantra.Mesh.Dedup.{DedupCache, check_and_mark}
use i_tantra.Mesh.Dedup.Laws.{check_and_mark_twice, check_and_mark_error}
use i_tantra.Mesh.Relay.{
  RelayEngine, Output, is_empty, forward_to, deliver_or_relay, first_seen, receive_checked, receive,
}

forward_to-cache :
    (r : Result IdError (List NodeId)) (c : DedupCache) (os : List Output) (p : Packet)
    → (forward_to r c os p).cache ≡ c
unfolding forward_to
forward_to-cache (err x) c os p = refl
forward_to-cache (ok l) c os p = refl

deliver_or_relay-cache :
    (a : Bool) (e : RelayEngine) (peers : List PeerInfo) (c : DedupCache) (p : Packet)
    (from : Option NodeId)
    → (deliver_or_relay a e peers c p from).cache ≡ c
unfolding deliver_or_relay
deliver_or_relay-cache a e peers c p from =
    elim (Bool-cases (nat_beq p.packet_type packet_type_announce)) [
      | inl t ↦ rw t
      | inr f ↦ rw f (elim (Bool-cases (leb p.ttl 0)) [
        | inl t ↦ rw t
        | inr g ↦ rw g (forward_to-cache (get_relay_peers e.router peers from) c _ p)
      ])
    ]

first_seen-cache :
    (r : Result IdError Bool) (e : RelayEngine) (peers : List PeerInfo) (c : DedupCache)
    (p : Packet) (from : Option NodeId)
    → (first_seen r e peers c p from).cache ≡ c
unfolding first_seen
first_seen-cache (err x) e peers c p from = refl
first_seen-cache (ok a) e peers c p from = deliver_or_relay-cache a e peers c p from

receive_checked-cache :
    (d : DedupCache) (b : Bool) (e : RelayEngine) (peers : List PeerInfo) (c : DedupCache)
    (p : Packet) (from : Option NodeId)
    → (receive_checked (ok (d, b)) e peers c p from).cache ≡ d
unfolding receive_checked
receive_checked-cache d true e peers c p from = refl
receive_checked-cache d false e peers c p from = first_seen-cache _ e peers d p from

-- After a receipt the cache takes the packet for a duplicate, or its key cannot be built.
silent_after :
    (e : RelayEngine) (peers : List PeerInfo) (c d : DedupCache) (q : Packet) (from : Option NodeId)
    (later : ℕ)
    → check_and_mark c q.source_node_id q.packet_id later ≡ ok (d, true)
    → (receive e peers c q from later).outputs ≡ []
unfolding receive
silent_after e peers c d q from later h =
    elim (Bool-cases (is_empty q.source_node_id || is_empty q.packet_id)) [
      | inl t ↦ rw t
      | inr f ↦ rw (f, h)
    ]

silent_on_error :
    (e : RelayEngine) (peers : List PeerInfo) (c : DedupCache) (q : Packet) (from : Option NodeId)
    (later : ℕ) (x : IdError)
    → check_and_mark c q.source_node_id q.packet_id later ≡ err x
    → (receive e peers c q from later).outputs ≡ []
unfolding receive
silent_on_error e peers c q from later x h =
    elim (Bool-cases (is_empty q.source_node_id || is_empty q.packet_id)) [
      | inl t ↦ rw t
      | inr f ↦ rw (f, h)
    ]

-- With a cache of positive capacity, a packet that the engine has just taken in produces nothing
-- when the next packet has the same source and packet identifier, from whichever peer, with
-- whatever other fields and at whatever time: that packet is neither delivered nor relayed.
pub receive_twice :
    (e : RelayEngine) (peers later_peers : List PeerInfo) (c : DedupCache) (p q : Packet)
    (from later_from : Option NodeId) (now later : ℕ)
    → 0 < c.max_entries
    → q.source_node_id ≡ p.source_node_id
    → q.packet_id ≡ p.packet_id
    → (receive e later_peers (receive e peers c p from now).cache q later_from later).outputs ≡ []
receive_twice e peers later_peers c p q from later_from now later h es ei =
    elim (Bool-cases (is_empty p.source_node_id || is_empty p.packet_id)) [
      | inl t ↦ unfold receive in rw (es, ei, t)
      | inr f ↦ elim (Result-cases (check_and_mark c p.source_node_id p.packet_id now)) [
        | inr (x, k) ↦
            silent_on_error e later_peers _ q later_from later x
              (rw (es, ei) (check_and_mark_error c _ _ _ now later x k))
        | inl ((d, b), k) ↦
            let kept : (receive e peers c p from now).cache ≡ d =
              unfold receive in rw (f, k) (receive_checked-cache d b e peers c p from) in
            rw kept (
              silent_after e later_peers d d q later_from later
                (rw (es, ei) (check_and_mark_twice c d _ _ now later b h k)))
      ]
    ]
