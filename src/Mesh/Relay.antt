-- ===== src/Mesh/Relay.antt =====
-- The relay engine: src/BITCHAT/mesh/RelayEngine.ts. What the engine does to the outside is a list of
-- outputs: `deliver` is the application callback, `send` a call of `sendToPeer`. A rejected send is
-- only logged by `receive`; `originate` counts the sends that the transport accepts.
pub mod Laws
pub mod Flooding
use i_tantra.Base.{
  ℕ, ◌+◌, ◌-◌, Bool, true, false, not, ◌&&◌, ◌||◌, List, [], ◌∷◌, ◌++◌, Option, none, some, Result,
  ok, err, ◌>>=◌, ltb, leb, nat_beq, length, filter, map, Text, text_eq, ◌==◌, if◌then◌else◌,
}
use i_tantra.NodeId.{NodeId, IdError, normalize_id}
use i_tantra.Packet.{Packet, packet_type_announce, node_id_broadcast}
use i_tantra.Mesh.Peers.{PeerInfo}
use i_tantra.Mesh.Router.{MeshRouter, get_relay_peers}
use i_tantra.Mesh.Dedup.{DedupCache, check_and_mark}

pub record RelayEngine : Type 0 where
  pub local_node_id : NodeId
  pub router : MeshRouter

pub data Output : Type 0 where
  deliver : Packet → Option NodeId → Output
  send : NodeId → Packet → Output

-- `thrown` says that the call ended by an exception after these outputs.
pub record Outcome : Type 0 where
  pub cache : DedupCache
  pub outputs : List Output
  pub thrown : Bool

unfoldable pub is_addressed_to : RelayEngine → Packet → Result IdError Bool
is_addressed_to engine packet = do
  dest ← normalize_id packet.destination_node_id
  ok (dest == engine.local_node_id || dest == node_id_broadcast)

-- if (!text)
abbrev pub is_empty : Text → Bool
is_empty [] = true
is_empty (c ∷ cs) = false

-- The forwarded copy: the same packet with one hop less.
abbrev pub forwarded : Packet → Packet
forwarded packet = record packet { ttl = packet.ttl - 1 }

-- Steps 7 to 9: to every eligible peer, after what was already delivered.
unfoldable pub forward_to :
    Result IdError (List NodeId) → DedupCache → List Output → Packet → Outcome
forward_to (err x) cache delivered packet = record {
  cache = cache;
  outputs = delivered;
  thrown = true;
}
forward_to (ok relay) cache delivered packet = record {
  cache = cache;
  outputs = delivered ++ map (λ id. send id (forwarded packet)) relay;
  thrown = false;
}

unfoldable pub forward :
    RelayEngine → List PeerInfo → DedupCache → List Output → Packet → Option NodeId → Outcome
unfolding forward_to
forward engine peers cache delivered packet from =
    forward_to (get_relay_peers engine.router peers from) cache delivered packet

-- Steps 3 to 6, once it is known whether the packet is addressed to this node.
unfoldable pub deliver_or_relay :
    Bool → RelayEngine → List PeerInfo → DedupCache → Packet → Option NodeId → Outcome
unfolding forward
deliver_or_relay addressed engine peers cache packet from =
    let delivered : List Output = if addressed then deliver packet from ∷ [] else [] in
    if nat_beq packet.packet_type packet_type_announce
    then record { cache = cache; outputs = delivered; thrown = false }
    else if leb packet.ttl 0
    then record { cache = cache; outputs = delivered; thrown = false }
    else forward engine peers cache delivered packet from

unfoldable pub first_seen :
    Result IdError Bool
    → RelayEngine
    → List PeerInfo
    → DedupCache
    → Packet
    → Option NodeId
    → Outcome
unfolding deliver_or_relay
first_seen (err x) engine peers cache packet from = record {
  cache = cache;
  outputs = [];
  thrown = true;
}
first_seen (ok addressed) engine peers cache packet from =
    deliver_or_relay addressed engine peers cache packet from

-- After the deduplication check.
unfoldable pub receive_checked :
    Result IdError (DedupCache × Bool)
    → RelayEngine
    → List PeerInfo
    → DedupCache
    → Packet
    → Option NodeId
    → Outcome
unfolding first_seen
receive_checked (err x) engine peers cache packet from = record {
  cache = cache;
  outputs = [];
  thrown = true;
}
receive_checked (ok (marked, true)) engine peers cache packet from = record {
  cache = marked;
  outputs = [];
  thrown = false;
}
receive_checked (ok (marked, false)) engine peers cache packet from =
    first_seen (is_addressed_to engine packet) engine peers marked packet from

unfoldable pub receive :
    RelayEngine → List PeerInfo → DedupCache → Packet → Option NodeId → ℕ → Outcome
unfolding receive_checked
receive engine peers cache packet from now =
    if is_empty packet.source_node_id || is_empty packet.packet_id
    then record { cache = cache; outputs = []; thrown = false }
    else receive_checked (check_and_mark cache packet.source_node_id packet.packet_id now) engine
        peers cache packet from

-- How many of the outputs are sends that the transport accepts.
unfoldable pub count_accepted : (NodeId → Packet → Bool) → List Output → ℕ
count_accepted accepts [] = 0
count_accepted accepts (deliver p from ∷ rest) = count_accepted accepts rest
count_accepted accepts (send id p ∷ rest) =
    let n = count_accepted accepts rest in if accepts id p then n + 1 else n

originate_marked :
    Result IdError (DedupCache × Bool) → RelayEngine → List PeerInfo → DedupCache → Packet → Outcome
unfolding forward
originate_marked (err x) engine peers cache packet = record {
  cache = cache;
  outputs = [];
  thrown = true;
}
originate_marked (ok (marked, duplicate)) engine peers cache packet =
    if leb packet.ttl 0
    then record { cache = marked; outputs = []; thrown = false }
    else forward engine peers marked [] packet none

-- The outcome and the number of transmissions that the transport accepted.
unfoldable pub originate :
    (NodeId → Packet → Bool) → RelayEngine → List PeerInfo → DedupCache → Packet → ℕ → Outcome × ℕ
unfolding originate_marked count_accepted
originate accepts engine peers cache packet now =
    let outcome : Outcome =
      if is_empty packet.source_node_id || is_empty packet.packet_id
      then record { cache = cache; outputs = []; thrown = false }
      else originate_marked (check_and_mark cache packet.source_node_id packet.packet_id now) engine
          peers cache packet in
    (outcome, count_accepted accepts outcome.outputs)
