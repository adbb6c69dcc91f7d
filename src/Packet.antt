-- ===== src/Packet.antt =====
-- The BITCHAT mesh envelope and the ANNOUNCE and DISCOVERY payloads:
-- src/BITCHAT/core/BitChatConstants.ts, BitChatTypes.ts, BitChatPacketCodec.ts,
-- src/BITCHAT/AnnounceCodec.ts and DiscoveryPacketCodec.ts.
pub mod RoundTrip
pub mod Payloads
use i_tantra.Base.{
  ℕ, ◌+◌, ◌≡◌, Bool, true, false, not, List, [], ◌∷◌, Option, Result, ok, err, ◌>>=◌, ◌>>◌,
  throw_if, to_option, ltb, nat_beq, length, drop, set_from, Text, codes,
}
use i_tantra.Bytes.{Bytes, zeros, set_byte, byte_at}
use i_tantra.Frame.{contains}
use i_tantra.NodeId.{NodeId, PacketId, is_valid_id, write_id_be, read_id_be}

abbrev pub header_size : ℕ
header_size = 28

abbrev pub protocol_version : ℕ
protocol_version = 0x01

abbrev pub packet_type_data : ℕ
packet_type_data = 0x01

abbrev pub packet_type_announce : ℕ
packet_type_announce = 0x02

abbrev pub packet_type_discovery : ℕ
packet_type_discovery = 0x03

abbrev pub valid_packet_types : List ℕ
valid_packet_types = packet_type_data ∷ packet_type_announce ∷ packet_type_discovery ∷ []

abbrev pub flags_none : ℕ
flags_none = 0x00

-- "0x0000000000000000"
abbrev pub node_id_broadcast : NodeId
node_id_broadcast = codes "0x0000000000000000"

abbrev pub default_ttl : ℕ
default_ttl = 5

abbrev pub announce_payload_size : ℕ
announce_payload_size = 9

abbrev pub announce_protocol_version : ℕ
announce_protocol_version = 0x01

abbrev pub discovery_payload_size : ℕ
discovery_payload_size = 9

abbrev pub discovery_protocol_version : ℕ
discovery_protocol_version = 0x01

pub record Packet : Type 0 where
  pub version : ℕ
  pub packet_type : ℕ
  pub ttl : ℕ
  pub source_node_id : NodeId
  pub destination_node_id : NodeId
  pub packet_id : PacketId
  pub flags : ℕ
  pub payload : Bytes

pub data PacketError : Type 0 where
  too_short invalid_version invalid_packet_type invalid_ttl : PacketError
  invalid_source invalid_destination invalid_packet_id invalid_flags : PacketError
  invalid_node_id wrong_length : PacketError

unfoldable pub encode : Packet → Result PacketError Bytes
encode packet = do
  throw_if (not (nat_beq packet.version protocol_version)) invalid_version
  throw_if (not (contains valid_packet_types packet.packet_type)) invalid_packet_type
  throw_if (ltb 255 packet.ttl) invalid_ttl
  throw_if (not (is_valid_id packet.source_node_id)) invalid_source
  throw_if (not (is_valid_id packet.destination_node_id)) invalid_destination
  throw_if (not (is_valid_id packet.packet_id)) invalid_packet_id
  throw_if (ltb 255 packet.flags) invalid_flags
  let buf0 = zeros (header_size + length packet.payload)
  let buf1 = set_byte buf0 0 packet.version
  let buf2 = set_byte buf1 1 packet.packet_type
  let buf3 = set_byte buf2 2 packet.ttl
  let buf4 = write_id_be buf3 3 packet.source_node_id
  let buf5 = write_id_be buf4 11 packet.destination_node_id
  let buf6 = write_id_be buf5 19 packet.packet_id
  let buf7 = set_byte buf6 27 packet.flags
  ok (set_from buf7 header_size packet.payload)

unfoldable pub decode : Bytes → Result PacketError Packet
decode bytes = do
  throw_if (ltb (length bytes) header_size) too_short
  let version = byte_at bytes 0
  throw_if (not (nat_beq version protocol_version)) invalid_version
  let packet_type = byte_at bytes 1
  throw_if (not (contains valid_packet_types packet_type)) invalid_packet_type
  let ttl = byte_at bytes 2
  throw_if (ltb 255 ttl) invalid_ttl
  ok (record {
    version = version;
    packet_type = packet_type;
    ttl = ttl;
    source_node_id = read_id_be bytes 3;
    destination_node_id = read_id_be bytes 11;
    packet_id = read_id_be bytes 19;
    flags = byte_at bytes 27;
    payload = drop header_size bytes;
  })

unfoldable pub safe_decode : Bytes → Option Packet
unfolding decode
safe_decode bytes = to_option (decode bytes)

unfoldable pub encode_announce : NodeId → Result PacketError Bytes
encode_announce node_id = do
  throw_if (not (is_valid_id node_id)) invalid_node_id
  let buf = write_id_be (zeros announce_payload_size) 0 node_id
  ok (set_byte buf 8 announce_protocol_version)

unfoldable pub decode_announce : Bytes → Result PacketError NodeId
decode_announce payload = do
  throw_if (not (nat_beq (length payload) announce_payload_size)) wrong_length
  throw_if (not (nat_beq (byte_at payload 8) announce_protocol_version)) invalid_version
  let node_id = read_id_be payload 0
  throw_if (not (is_valid_id node_id)) invalid_node_id
  ok node_id

unfoldable pub safe_decode_announce : Bytes → Option NodeId
unfolding decode_announce
safe_decode_announce payload = to_option (decode_announce payload)

unfoldable pub encode_discovery : NodeId → Result PacketError Bytes
encode_discovery node_id = do
  throw_if (not (is_valid_id node_id)) invalid_node_id
  let buf = write_id_be (zeros discovery_payload_size) 0 node_id
  ok (set_byte buf 8 discovery_protocol_version)

unfoldable pub decode_discovery : Bytes → Result PacketError NodeId
decode_discovery payload = do
  throw_if (not (nat_beq (length payload) discovery_payload_size)) wrong_length
  throw_if (not (nat_beq (byte_at payload 8) discovery_protocol_version)) invalid_version
  let node_id = read_id_be payload 0
  throw_if (not (is_valid_id node_id)) invalid_node_id
  ok node_id

unfoldable pub safe_decode_discovery : Bytes → Option NodeId
unfolding decode_discovery
safe_decode_discovery payload = to_option (decode_discovery payload)
