-- ===== src/Adapter/Traffic.antt =====
-- What src/BITCHAT/BitChatBLEAdapter.ts receives, sends and delivers. A call returns the new state, its
-- outputs and its result, or the exception that it ended by. `Date.now()` is read once per call. The
-- native transport is a function that says which sends it accepts.
pub mod Laws
pub mod Safety
use i_tantra.Base.{
  ℕ, ◌+◌, Bool, true, false, not, ◌&&◌, ◌||◌, List, [], ◌∷◌, ◌++◌, Option, none, some, Result, ok,
  err, ◌>>=◌, ltb, nat_beq, length, map, drop, Text, text_eq, ◌==◌, if◌then◌else◌,
}
use i_tantra.Base.Int.{pos}
use i_tantra.Base.Dict
use Prim.Native.Nat.{bit_xor}
use i_tantra.Bytes.{Bytes, byte_at}
use i_tantra.NodeId.{NodeId, PacketId, IdError, IdInput, normalize_id, normalize_uint64, value}
use i_tantra.Packet.{
  Packet, PacketError, header_size, protocol_version, packet_type_data, packet_type_announce,
  packet_type_discovery, default_ttl, flags_none, node_id_broadcast, safe_decode_announce,
  encode_announce, encode_discovery, safe_decode_discovery,
}
use i_tantra.Packet
use i_tantra.Mesh.Peers.{PeerRegistry, get_peers, mark_seen}
use i_tantra.Mesh.Router.{MeshRouter}
use i_tantra.Mesh.Relay.{RelayEngine, Output, deliver, send}
use i_tantra.Mesh.Relay
use i_tantra.Mesh.Discovery.{record_node}
use i_tantra.Adapter.{
  AdapterError, PeerMapping, Adapter, register_peer, get_node_id_for_ble_peer, link_of,
}

-- bleSend, onLocalDeliver and onAnnounceReceived, with their arguments
pub data Effect : Type 0 where
  ble_send : Text → Bytes → PacketId → Effect
  local_deliver : Bytes → Option Text → PacketId → NodeId → NodeId → Effect
  announce_received : Text → NodeId → Effect

-- The engine of the adapter: its router has the same identity.
abbrev pub engine_of : Adapter → RelayEngine
engine_of a = record {
  local_node_id = a.local_node_id;
  router = record { local_node_id = a.local_node_id };
}

send_mapped : Option PeerMapping → Result PacketError Bytes → Packet → List Effect
send_mapped none encoded packet = []
send_mapped (some mapping) (err x) packet = []
send_mapped (some mapping) (ok encoded) packet =
    ble_send mapping.ble_peer_id encoded packet.packet_id ∷ []

-- sendToPeer: a missing mapping and a packet that the codec refuses throw before anything is sent.
unfoldable pub send_to_peer : NodeId → Packet → Adapter → List Effect
unfolding send_mapped
send_to_peer peer packet a =
    send_mapped (Dict.lookup peer a.reverse_mappings) (Packet.encode packet) packet

-- Whether the send to a peer is accepted, by the adapter and by the transport.
accepts_mapped : (Text → Bytes → Bool) → Option PeerMapping → Result PacketError Bytes → Bool
accepts_mapped accepts none encoded = false
accepts_mapped accepts (some mapping) (err x) = false
accepts_mapped accepts (some mapping) (ok encoded) = accepts mapping.ble_peer_id encoded

unfoldable pub accepts_peer : (Text → Bytes → Bool) → Adapter → NodeId → Packet → Bool
unfolding accepts_mapped
accepts_peer accepts a peer packet =
    accepts_mapped accepts (Dict.lookup peer a.reverse_mappings) (Packet.encode packet)

-- packet.packetId === this.originatedPacketId
abbrev pub is_own : Option PacketId → PacketId → Bool
is_own none id = false
is_own (some own) id = id == own

-- fromPeerId ? reverseMappings.get(fromPeerId)?.blePeerId : undefined
abbrev pub link_of_sender : Option NodeId → Adapter → Option Text
link_of_sender none a = none
link_of_sender (some []) a = none
link_of_sender (some (c ∷ cs)) a = link_of (Dict.lookup (c ∷ cs) a.reverse_mappings)

-- The callback of the relay engine for a packet addressed to this node.
unfoldable pub deliver_packet : Packet → Option NodeId → Adapter → Adapter × List Effect
deliver_packet packet from a =
    if not (nat_beq packet.packet_type packet_type_data)
    then (a, [])
    else if is_own a.originated_packet_id packet.packet_id
    then (record a { originated_packet_id = none }, [])
    else (
      a,
      local_deliver packet.payload (link_of_sender from a) packet.packet_id packet.source_node_id
            packet.destination_node_id
          ∷ [],
    )

-- What the engine does, in its order.
unfoldable pub run_outputs : List Output → Adapter → Adapter × List Effect
unfolding deliver_packet send_to_peer
run_outputs [] a = (a, [])
run_outputs (deliver packet from ∷ rest) a =
    let (b, first) = deliver_packet packet from a in
    let (c, others) = run_outputs rest b in (c, first ++ others)
run_outputs (send peer packet ∷ rest) a =
    let first = send_to_peer peer packet a in
    let (c, others) = run_outputs rest a in (c, first ++ others)

pub data Kind : Type 0 where
  announce discovery data_packet : Kind

-- `thrown` says that the call ended by an exception after these effects.
pub record Received : Type 0 where
  pub adapter : Adapter
  pub effects : List Effect
  pub kind : Option Kind
  pub thrown : Bool

unfoldable pub process_announce :
    Bytes → Text → ℕ → Adapter → Result AdapterError (Adapter × List Effect × Option NodeId)
process_announce payload ble now a = announce_node (safe_decode_announce payload)
  where
    announce_node : Option NodeId → Result AdapterError (Adapter × List Effect × Option NodeId)
    announce_node none = ok (a, [], none)
    announce_node (some node_id) = do
      b ← register_peer ble node_id now a
      let answered : List Effect =
          if not (Dict.has ble a.peer_mappings) && a.has_announce_callback
          then announce_received ble node_id ∷ []
          else []
      ok (b, answered, some node_id)

-- `fromPeerId && reverseMappings.has(fromPeerId) ? 1 : 0`
unfoldable pub hop_count_of : Option NodeId → Adapter → ℕ
hop_count_of none a = 0
hop_count_of (some []) a = 0
hop_count_of (some (c ∷ cs)) a = if Dict.has (c ∷ cs) a.reverse_mappings then 1 else 0

unfoldable pub process_discovery :
    Bytes → Option NodeId → ℕ → Adapter → Result IdError (Adapter × Option NodeId)
unfolding hop_count_of
process_discovery payload from now a = discovered_node (safe_decode_discovery payload)
  where
    discovered_node : Option NodeId → Result IdError (Adapter × Option NodeId)
    discovered_node none = ok (a, none)
    discovered_node (some node_id) = do
      registry ← record_node a.discovery_registry node_id (hop_count_of from a) from now
      ok (record a { discovery_registry = registry }, some node_id)

-- relayEngine.receive(packet, fromNodeId)
unfoldable pub relay : Packet → Option NodeId → ℕ → Kind → Adapter → Received
relay packet from now kind a =
    let outcome =
      Relay.receive (engine_of a) (get_peers a.peer_registry) a.dedup_cache packet from now in
    let (b, effects) = run_outputs outcome.outputs (record a { dedup_cache = outcome.cache }) in
    record { adapter = b; effects = effects; kind = some kind; thrown = outcome.thrown }

-- `if (fromNodeId) peerRegistry.markSeen(fromNodeId)`
unfoldable pub saw : Option NodeId → ℕ → Adapter → Result IdError Adapter
saw none now a = ok a
saw (some []) now a = ok a
saw (some (c ∷ cs)) now a = do
  registry ← mark_seen a.peer_registry (c ∷ cs) none now
  ok (record a { peer_registry = registry })

abbrev pub failed : Adapter → Received
failed a = record { adapter = a; effects = []; kind = none; thrown = true }

abbrev pub after_announce : Result AdapterError (Adapter × List Effect × Option NodeId) → Received
after_announce (err (x, left)) = failed left
after_announce (ok (b, effects, id)) = record {
  adapter = b;
  effects = effects;
  kind = some announce;
  thrown = false;
}

abbrev pub after_discovery :
    Packet → Option NodeId → ℕ → Adapter → Result IdError (Adapter × Option NodeId) → Received
after_discovery packet from now a (err x) = failed a
after_discovery packet from now a (ok (b, id)) = relay packet from now discovery b

abbrev pub after_saw : Packet → Option NodeId → ℕ → Adapter → Result IdError Adapter → Received
after_saw packet from now a (err x) = failed a
after_saw packet from now a (ok b) = relay packet from now data_packet b

unfoldable pub receive_packet : Option Packet → Text → ℕ → Adapter → Received
unfolding relay process_announce process_discovery saw get_node_id_for_ble_peer
receive_packet none ble now a = record { adapter = a; effects = []; kind = none; thrown = false }
receive_packet (some packet) ble now a =
    let from = get_node_id_for_ble_peer ble a in
    if nat_beq packet.packet_type packet_type_announce
    then after_announce (process_announce packet.payload ble now a)
    else if nat_beq packet.packet_type packet_type_discovery
    then after_discovery packet from now a (process_discovery packet.payload from now a)
    else after_saw packet from now a (saw from now a)

unfoldable pub receive : Bytes → Text → ℕ → Adapter → Received
unfolding receive_packet
receive raw ble now a =
    if ltb (length raw) header_size || not (nat_beq (byte_at raw 0) protocol_version)
    then record { adapter = a; effects = []; kind = none; thrown = false }
    else receive_packet (Packet.safe_decode raw) ble now a

unfoldable pub originate :
    (Text → Bytes → Bool) → Bytes → PacketId → NodeId → ℕ → ℕ → Adapter → Received × ℕ
unfolding run_outputs accepts_peer
originate accepts payload packet_id destination ttl now a =
    let packet : Packet = record {
      version = protocol_version;
      packet_type = packet_type_data;
      ttl = ttl;
      source_node_id = a.local_node_id;
      destination_node_id = destination;
      packet_id = packet_id;
      flags = flags_none;
      payload = payload;
    } in
    let marked = record a { originated_packet_id = some packet_id } in
    let (outcome, count) =
      Relay.originate (accepts_peer accepts marked) (engine_of marked)
        (get_peers marked.peer_registry) marked.dedup_cache packet now in
    let (b, effects) =
      run_outputs outcome.outputs (record marked { dedup_cache = outcome.cache }) in
    (record { adapter = b; effects = effects; kind = none; thrown = outcome.thrown }, count)

-- The identifier of an ANNOUNCE is the time combined with the local identity; a DISCOVERY adds `0xD`.
-- An exception of `normalizeNodeId` stands as invalid_packet_id here.
unfoldable pub control_packet_id : ℕ → ℕ → Adapter → Result PacketError PacketId
control_packet_id mark now a = packet_id (
    normalize_uint64
      (IdInput.big (pos (bit_xor (bit_xor now (value 16 0 (drop 2 a.local_node_id))) mark))))
  where
    packet_id : Result IdError PacketId → Result PacketError PacketId
    packet_id (ok id) = ok id
    packet_id (err x) = err Packet.invalid_packet_id

abbrev pub control_packet : ℕ → ℕ → PacketId → Bytes → Adapter → Packet
control_packet packet_type ttl packet_id payload a = record {
  version = protocol_version;
  packet_type = packet_type;
  ttl = ttl;
  source_node_id = a.local_node_id;
  destination_node_id = node_id_broadcast;
  packet_id = packet_id;
  flags = flags_none;
  payload = payload;
}

unfoldable pub create_announce_packet : ℕ → Adapter → Result PacketError Bytes
unfolding control_packet_id
create_announce_packet now a = do
  payload ← encode_announce a.local_node_id
  packet_id ← control_packet_id 0 now a
  Packet.encode (control_packet packet_type_announce default_ttl packet_id payload a)

unfoldable pub create_discovery_packet : ℕ → Adapter → Result PacketError Bytes
unfolding control_packet_id
create_discovery_packet now a = do
  payload ← encode_discovery a.local_node_id
  packet_id ← control_packet_id 0xd now a
  Packet.encode (control_packet packet_type_discovery default_ttl packet_id payload a)

unfoldable pub originate_discovery :
    (Text → Bytes → Bool) → ℕ → ℕ → Adapter → Result PacketError Received
unfolding control_packet_id run_outputs accepts_peer
originate_discovery accepts ttl now a = do
  payload ← encode_discovery a.local_node_id
  packet_id ← control_packet_id 0xd now a
  let packet = control_packet packet_type_discovery ttl packet_id payload a
  let outcome =
      (Relay.originate (accepts_peer accepts a) (engine_of a) (get_peers a.peer_registry)
        a.dedup_cache packet now).0
  let (b, effects) = run_outputs outcome.outputs (record a { dedup_cache = outcome.cache })
  ok (record { adapter = b; effects = effects; kind = none; thrown = outcome.thrown })
