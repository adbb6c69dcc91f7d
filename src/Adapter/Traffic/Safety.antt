-- ===== src/Adapter/Traffic/Safety.antt =====
-- `receive` of src/BITCHAT/BitChatBLEAdapter.ts as a whole.
use i_tantra.Base.{
  ℕ, ◌≡◌, ◌≢◌, refl, not, ◌&&◌, ◌||◌, Option, none, some, ltb, nat_beq, length, All, Text, text_eq,
  if-split, Bool-cases, Option-cases, Result-cases, inl, inr,
}
use i_tantra.Base.Dict
use i_tantra.Bytes.{Bytes, byte_at}
use i_tantra.Packet.{
  Packet, PacketError, packet_type_data, packet_type_announce, packet_type_discovery, header_size,
  protocol_version, safe_decode_announce, safe_decode_discovery,
}
use i_tantra.Packet
use i_tantra.Adapter.{Adapter, register_peer}
use i_tantra.Adapter.Links.{AreInverse, register_peer-AreInverse}
use i_tantra.Adapter.Ready.{AreNormal, register_peer-err, register_peer-AreNormal}
use i_tantra.Adapter.Traffic.{
  announce, Received, process_announce, after_announce, receive_packet, receive,
}
use i_tantra.Adapter.Traffic.Laws.{HasLinksOf, IsLinked, IsQuiet, IsQuiet-packet}

-- What receiving keeps.
record IsGood (a : Adapter) (r : Received) : Type 0 where
  inverse : AreInverse r.adapter
  normal : AreNormal r.adapter.peer_mappings
  linked : All (IsLinked a) r.effects
  kept : r.kind ≢ some announce → HasLinksOf a r.adapter

IsQuiet-IsGood :
    (a : Adapter) (r : Received)
    → AreInverse a
    → AreNormal a.peer_mappings
    → IsQuiet a r
    → IsGood a r
IsQuiet-IsGood a r v w ((l, n), h) = record {
  inverse = rw (l, n) v;
  normal = rw l w;
  linked = h;
  kept = λ _. (l, n);
}

announced-IsGood :
    (payload : Bytes) (ble : Text) (now : ℕ) (a : Adapter)
    → AreInverse a
    → AreNormal a.peer_mappings
    → IsGood a (after_announce (process_announce payload ble now a))
unfolding process_announce
announced-IsGood payload ble now a v w = elim (Option-cases (safe_decode_announce payload)) [
  | inl e ↦ rw e (IsQuiet-IsGood a _ v w ((refl, refl), tt))
  | inr (node, e) ↦ elim (Result-cases (register_peer ble node now a)) [
    | inr ((x, left), k) ↦
        let same : a ≡ left = register_peer-err ble node now a left x v w k in
        rw (e, k) (rw (← same) (IsQuiet-IsGood a _ v w ((refl, refl), tt)))
    | inl (b, k) ↦
        rw (e, k)
          (record {
            inverse = register_peer-AreInverse ble node now a b v k;
            normal = register_peer-AreNormal ble node now a b v w k;
            linked =
                if-split (All (IsLinked a))
                  (not (Dict.has ble a.peer_mappings) && a.has_announce_callback) (λ _. (tt, tt))
                  (λ _. tt);
            kept = λ other. absurd (other refl);
          })
  ]
]

receive_packet-IsGood :
    (o : Option Packet) (ble : Text) (now : ℕ) (a : Adapter)
    → AreInverse a
    → AreNormal a.peer_mappings
    → IsGood a (receive_packet o ble now a)
receive_packet-IsGood none ble now a v w =
    unfold receive_packet in IsQuiet-IsGood a _ v w ((refl, refl), tt)
receive_packet-IsGood (some packet) ble now a v w =
    elim (Bool-cases (nat_beq packet.packet_type packet_type_announce)) [
      | inl t ↦ unfold receive_packet in rw t (announced-IsGood packet.payload ble now a v w)
      | inr f ↦ IsQuiet-IsGood a _ v w (IsQuiet-packet packet ble now a f v)
    ]

receive-IsGood :
    (raw : Bytes) (ble : Text) (now : ℕ) (a : Adapter)
    → AreInverse a
    → AreNormal a.peer_mappings
    → IsGood a (receive raw ble now a)
unfolding receive
receive-IsGood raw ble now a v w =
    if-split (IsGood a)
      (ltb (length raw) header_size || not (nat_beq (byte_at raw 0) protocol_version))
      (λ _. IsQuiet-IsGood a _ v w ((refl, refl), tt))
      (λ _. receive_packet-IsGood (Packet.safe_decode raw) ble now a v w)

-- If the two indexes are inverse to each other, and the nodes of the links have normal identifiers,
-- both is so again whatever bytes arrive, even if the call throws, and every send that follows goes
-- over a link that was registered before.
pub receive-AreInverse :
    (raw : Bytes) (ble : Text) (now : ℕ) (a : Adapter)
    → AreInverse a
    → AreNormal a.peer_mappings
    → AreInverse (receive raw ble now a).adapter
      × AreNormal (receive raw ble now a).adapter.peer_mappings
      × All (IsLinked a) (receive raw ble now a).effects
receive-AreInverse raw ble now a v w =
    let good = receive-IsGood raw ble now a v w in (good.inverse, good.normal, good.linked)

-- If the two indexes are inverse to each other, and the nodes of the links have normal identifiers,
-- bytes that are not taken for an ANNOUNCE leave both indexes as they were.
pub receive-HasLinksOf :
    (raw : Bytes) (ble : Text) (now : ℕ) (a : Adapter)
    → AreInverse a
    → AreNormal a.peer_mappings
    → (receive raw ble now a).kind ≢ some announce
    → HasLinksOf a (receive raw ble now a).adapter
receive-HasLinksOf raw ble now a v w other = (receive-IsGood raw ble now a v w).kept other
