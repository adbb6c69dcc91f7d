-- ===== src/Adapter/Traffic/Laws.antt =====
-- What receiving does to the links of src/BITCHAT/BitChatBLEAdapter.ts, and over which links it sends.
use i_tantra.Base.{
  ℕ, ◌≡◌, refl, sym, ap, ◌∙◌, false, not, List, [], ◌∷◌, Option, none, some, Result, ok, err,
  nat_beq, All, All-append, Text, text_eq, if-split, Option-cases, Result-cases, ok-injective, inl,
  inr,
}
use i_tantra.Base.Dict
use i_tantra.Bytes.{Bytes}
use i_tantra.NodeId.{NodeId, IdError}
use i_tantra.Packet.{
  Packet, PacketError, packet_type_data, packet_type_announce, packet_type_discovery, header_size,
  protocol_version, safe_decode_announce, safe_decode_discovery,
}
use i_tantra.Packet
use i_tantra.Mesh.Peers.{get_peers, mark_seen}
use i_tantra.Mesh.Relay.{Output, deliver, send}
use i_tantra.Mesh.Relay
use i_tantra.Mesh.Discovery.{record_node}
use i_tantra.Adapter.{PeerMapping, Adapter, get_node_id_for_ble_peer}
use i_tantra.Adapter.Links.{AreInverse}
use i_tantra.Adapter.Traffic.{
  Effect, ble_send, local_deliver, announce_received, send_mapped, send_to_peer, is_own,
  deliver_packet, run_outputs, Kind, discovery, data_packet, Received, hop_count_of,
  process_discovery, relay, saw, after_discovery, after_saw, receive_packet, engine_of,
}

-- The same links, in both indexes.
abbrev pub HasLinksOf : Adapter → Adapter → Type 0
HasLinksOf a b = (b.peer_mappings ≡ a.peer_mappings) × (b.reverse_mappings ≡ a.reverse_mappings)

-- A send goes over a registered link.
abbrev pub IsLinked : Adapter → Effect → Type 0
IsLinked a (ble_send link bytes id) =
    (m : PeerMapping) × (Dict.lookup link a.peer_mappings ≡ some m)
IsLinked a (local_deliver payload link id source destination) = Unit {0}
IsLinked a (announce_received link node) = Unit {0}

IsLinked-moved :
    (a b : Adapter) (e : Effect) → b.peer_mappings ≡ a.peer_mappings → IsLinked b e → IsLinked a e
IsLinked-moved a b (ble_send link bytes id) l (m, h) = (m, rw l at h)
IsLinked-moved a b (local_deliver payload link id source destination) l h = tt
IsLinked-moved a b (announce_received link node) l h = tt

All-moved :
    (a b : Adapter) (es : List Effect)
    → b.peer_mappings ≡ a.peer_mappings
    → All (IsLinked b) es
    → All (IsLinked a) es
All-moved a b [] l h = tt
All-moved a b (e ∷ es) l (h, hs) = (IsLinked-moved a b e l h, All-moved a b es l hs)

deliver_packet-HasLinksOf :
    (packet : Packet) (from : Option NodeId) (a : Adapter)
    → HasLinksOf a (deliver_packet packet from a).0
      × All (IsLinked a) (deliver_packet packet from a).1
unfolding deliver_packet
deliver_packet-HasLinksOf packet from a =
    let P : Adapter × List Effect → Type 0 = λ r. HasLinksOf a r.0 × All (IsLinked a) r.1 in
    if-split P (not (nat_beq packet.packet_type packet_type_data)) (λ _. ((refl, refl), tt))
      (λ _.
        if-split P (is_own a.originated_packet_id packet.packet_id) (λ _. ((refl, refl), tt))
          (λ _. ((refl, refl), (tt, tt))))

send_mapped-IsLinked :
    (o : Option PeerMapping) (x : Result PacketError Bytes) (peer : NodeId) (packet : Packet)
    (a : Adapter)
    → Dict.lookup peer a.reverse_mappings ≡ o
    → AreInverse a
    → All (IsLinked a) (send_mapped o x packet)
unfolding send_mapped
send_mapped-IsLinked none x peer packet a e v = tt
send_mapped-IsLinked (some m) (err x) peer packet a e v = tt
send_mapped-IsLinked (some m) (ok b) peer packet a e v = ((m, v.node_link peer m e), tt)

-- What the engine does leaves the links as they are and sends over links only.
pub run_outputs-HasLinksOf :
    (os : List Output) (a : Adapter)
    → AreInverse a
    → HasLinksOf a (run_outputs os a).0 × All (IsLinked a) (run_outputs os a).1
unfolding run_outputs send_to_peer
run_outputs-HasLinksOf [] a v = ((refl, refl), tt)
run_outputs-HasLinksOf (deliver packet from ∷ os) a v =
    let ((l, n), first) = deliver_packet-HasLinksOf packet from a in
    let b = (deliver_packet packet from a).0 in
    let w : AreInverse b = rw (l, n) v in
    let ((l', n'), others) = run_outputs-HasLinksOf os b w in
    let moved : All (IsLinked a) (run_outputs os b).1 =
      All-moved a b (run_outputs os b).1 l others in
    ((l' ∙ l, n' ∙ n), All-append (IsLinked a) _ _ first moved)
run_outputs-HasLinksOf (send peer packet ∷ os) a v =
    let (same, others) = run_outputs-HasLinksOf os a v in
    (
      same,
      All-append (IsLinked a) _ _
          (send_mapped-IsLinked (Dict.lookup peer a.reverse_mappings) (Packet.encode packet) peer
            packet a refl v)
          others,
    )

-- What a call that is no registration does.
abbrev pub IsQuiet : Adapter → Received → Type 0
IsQuiet a r = HasLinksOf a r.adapter × All (IsLinked a) r.effects

relay-IsQuiet :
    (packet : Packet) (from : Option NodeId) (now : ℕ) (kind : Kind) (a : Adapter)
    → AreInverse a
    → IsQuiet a (relay packet from now kind a)
unfolding relay
relay-IsQuiet packet from now kind a v =
    let outcome =
      Relay.receive (engine_of a) (get_peers a.peer_registry) a.dedup_cache packet from now in
    let (same, linked) =
      run_outputs-HasLinksOf outcome.outputs (record a { dedup_cache = outcome.cache }) v in
    (same, All-moved a (record a { dedup_cache = outcome.cache }) _ refl linked)

-- Quiet after a state with the same links.
IsQuiet-after : (a b : Adapter) (r : Received) → HasLinksOf a b → IsQuiet b r → IsQuiet a r
IsQuiet-after a b r (l, n) ((l', n'), h) = ((l' ∙ l, n' ∙ n), All-moved a b r.effects l h)

process_discovery-HasLinksOf :
    (payload : Bytes) (from : Option NodeId) (now : ℕ) (a b : Adapter) (id : Option NodeId)
    → process_discovery payload from now a ≡ ok (b, id)
    → HasLinksOf a b
unfolding process_discovery
process_discovery-HasLinksOf payload from now a b id h =
    elim (Option-cases (safe_decode_discovery payload)) [
      | inl e ↦
          let same : a ≡ b = ap (λ (x : Adapter × Option NodeId). x.0) (ok-injective (rw e at h)) in
          (ap (λ x. x.peer_mappings) (sym same), ap (λ x. x.reverse_mappings) (sym same))
      | inr (node, e) ↦
          elim (Result-cases
            (record_node a.discovery_registry node (hop_count_of from a) from now)) [
              | inr (x, k) ↦ cc (rw (e, k) at h)
              | inl (g, k) ↦
                  let same =
                    ap (λ (x : Adapter × Option NodeId). x.0) (ok-injective (rw (e, k) at h)) in
                  (ap (λ x. x.peer_mappings) (sym same), ap (λ x. x.reverse_mappings) (sym same))
            ]
    ]

saw-HasLinksOf :
    (from : Option NodeId) (now : ℕ) (a b : Adapter) → saw from now a ≡ ok b → HasLinksOf a b
unfolding saw
saw-HasLinksOf none now a b h =
    let same : a ≡ b = ok-injective h in
    (ap (λ x. x.peer_mappings) (sym same), ap (λ x. x.reverse_mappings) (sym same))
saw-HasLinksOf (some []) now a b h =
    let same : a ≡ b = ok-injective h in
    (ap (λ x. x.peer_mappings) (sym same), ap (λ x. x.reverse_mappings) (sym same))
saw-HasLinksOf (some (c ∷ cs)) now a b h =
    elim (Result-cases (mark_seen a.peer_registry (c ∷ cs) none now)) [
      | inr (x, k) ↦ cc (rw k at h)
      | inl (g, k) ↦
          let same = ok-injective (rw k at h) in
          (ap (λ x. x.peer_mappings) (sym same), ap (λ x. x.reverse_mappings) (sym same))
    ]

-- A packet that is no ANNOUNCE leaves the links as they are.
pub IsQuiet-packet :
    (packet : Packet) (ble : Text) (now : ℕ) (a : Adapter)
    → nat_beq packet.packet_type packet_type_announce ≡ false
    → AreInverse a
    → IsQuiet a (receive_packet (some packet) ble now a)
unfolding receive_packet
IsQuiet-packet packet ble now a f v =
    let from = get_node_id_for_ble_peer ble a in
    let discovered = process_discovery packet.payload from now a in
    rw f (
      if-split (IsQuiet a) (nat_beq packet.packet_type packet_type_discovery)
        (λ _. after_discovery-IsQuiet from discovered refl)
        (λ _. after_saw-IsQuiet from (saw from now a) refl))
  where
    after_discovery-IsQuiet :
        (from : Option NodeId) (o : Result IdError (Adapter × Option NodeId))
        → process_discovery packet.payload from now a ≡ o
        → IsQuiet a (after_discovery packet from now a o)
    after_discovery-IsQuiet from (err x) e = ((refl, refl), tt)
    after_discovery-IsQuiet from (ok (b, id)) e =
        let (l, n) = process_discovery-HasLinksOf packet.payload from now a b id e in
        IsQuiet-after a b (relay packet from now discovery b) (l, n)
          (relay-IsQuiet packet from now discovery b (rw (l, n) v))

    after_saw-IsQuiet :
        (from : Option NodeId) (o : Result IdError Adapter)
        → saw from now a ≡ o
        → IsQuiet a (after_saw packet from now a o)
    after_saw-IsQuiet from (err x) e = ((refl, refl), tt)
    after_saw-IsQuiet from (ok b) e =
        let (l, n) = saw-HasLinksOf from now a b e in
        IsQuiet-after a b (relay packet from now data_packet b) (l, n)
          (relay-IsQuiet packet from now data_packet b (rw (l, n) v))
