-- ===== src/Tests/Nodes.antt =====
-- Identifiers and envelopes at concrete inputs.
use i_tantra.NodeStore.{NodeIdStore, get_local_node_id, restarted}
use i_tantra.NodeStore.Identity.{get_local_node_id-lasting}
use i_tantra.Base.{
  none, Result, ℕ, ◌+◌, ◌≡◌, refl, true, [], ◌∷◌, ok, length, Text, codes, text_eq, arith,
}
use i_tantra.Bytes.{Bytes, IsBytes, read_uint64_be}
use i_tantra.NodeId.{
  NodeId, IdError, format, is_valid_id, normalize_id, normalize_uint64, parse_input, parse_trimmed,
  trim, trim_start, is_space, matches_hex, matches_decimal, all, is_hex, is_lower_hex, is_decimal,
  value, digit_value, to_hex_loop, pad_start, hex_digit, read_id_be,
}
use i_tantra.NodeId.Normal.{normalize_id_idem}
use i_tantra.Packet
use i_tantra.Packet.{
  Packet, valid_packet_types, packet_type_announce, decode_announce, encode_announce,
  decode_discovery, encode_discovery,
}
use i_tantra.Packet.RoundTrip.{IsSendable, decode-encode_packet}
use i_tantra.Packet.Payloads.{decode-IsSendable}
use i_tantra.Frame.{contains}

-- Two identifiers as the user may write them and as they are stored.
abbrev pub node_a : Text
node_a = codes "0x000000000000000a"

abbrev pub node_b : Text
node_b = codes "0x000000000000000b"

pub normal_a : normalize_id node_a ≡ ok node_a
unfolding normalize_id normalize_uint64 parse_input parse_trimmed trim trim_start is_space
    matches_hex all is_hex is_lower_hex value digit_value format to_hex_loop pad_start hex_digit
normal_a = refl

pub normal_b : normalize_id node_b ≡ ok node_b
unfolding normalize_id normalize_uint64 parse_input parse_trimmed trim trim_start is_space
    matches_hex all is_hex is_lower_hex value digit_value format to_hex_loop pad_start hex_digit
normal_b = refl

pub short_a : normalize_id (codes " 10 ") ≡ ok node_a
unfolding normalize_id normalize_uint64 parse_input parse_trimmed trim trim_start is_space
    matches_hex matches_decimal all is_hex is_lower_hex is_decimal value digit_value format
    to_hex_loop pad_start hex_digit
short_a = refl

normalize_id_idem_example : (is_valid_id node_a ≡ true) × (normalize_id node_a ≡ ok node_a)
normalize_id_idem_example = normalize_id_idem (codes " 10 ") node_a short_a

-- A data packet from a to b.
abbrev pub packet_ab : Packet
packet_ab = record {
  version = 1;
  packet_type = 1;
  ttl = 5;
  source_node_id = node_a;
  destination_node_id = node_b;
  packet_id = node_a;
  flags = 0;
  payload = 104 ∷ 105 ∷ [];
}

packet_ab-IsSendable : IsSendable packet_ab
packet_ab-IsSendable = record {
  version_is = refl;
  type_is = unfold contains in refl;
  ttl_le = omega arith;
  flags_le = omega arith;
  source_is = normal_a;
  destination_is = normal_b;
  id_is = normal_a;
}

decode-encode_packet_example :
    (b : Bytes) × (Packet.encode packet_ab ≡ ok b)
    × (length b ≡ 28 + length packet_ab.payload)
    × (Packet.decode b ≡ ok packet_ab)
decode-encode_packet_example = decode-encode_packet packet_ab packet_ab-IsSendable

-- A payload that announces node 10.
abbrev announcement : Bytes
announcement = 0 ∷ 0 ∷ 0 ∷ 0 ∷ 0 ∷ 0 ∷ 0 ∷ 10 ∷ 1 ∷ []

-- That packet in bytes.
abbrev bytes_ab : Bytes
bytes_ab =
    1 ∷ 1 ∷ 5 ∷ 0 ∷ 0 ∷ 0 ∷ 0 ∷ 0 ∷ 0 ∷ 0 ∷ 10 ∷ 0 ∷ 0 ∷ 0 ∷ 0 ∷ 0 ∷ 0 ∷ 0 ∷ 11 ∷ 0 ∷ 0 ∷ 0 ∷ 0 ∷ 0
    ∷ 0 ∷ 0 ∷ 10 ∷ 0 ∷ 104 ∷ 105 ∷ []

decode-bytes_ab : Packet.decode bytes_ab ≡ ok packet_ab
unfolding Packet.decode contains read_id_be read_uint64_be format to_hex_loop pad_start hex_digit
decode-bytes_ab = refl

bytes_ab-IsBytes : (i : ℕ) → IsBytes bytes_ab
bytes_ab-IsBytes i = ground arith

decode-IsSendable_example : IsSendable packet_ab
decode-IsSendable_example =
    decode-IsSendable bytes_ab packet_ab (bytes_ab-IsBytes 0) decode-bytes_ab

-- A new installation, and the bytes it draws.
abbrev installed : NodeIdStore
installed = record { cached_node_id = none; storage = none }

abbrev drawn : Bytes
drawn = 1 ∷ 2 ∷ 3 ∷ 4 ∷ 5 ∷ 6 ∷ 7 ∷ 8 ∷ []

abbrev first_call : NodeIdStore × Result IdError NodeId
first_call = get_local_node_id installed drawn

get_local_node_id-lasting_example :
    (id : NodeId) × (is_valid_id id ≡ true)
    × (first_call.1 ≡ ok id)
    × (get_local_node_id first_call.0 [] ≡ (first_call.0, ok id))
    × ((get_local_node_id (restarted first_call.0) []).1 ≡ ok id)
get_local_node_id-lasting_example = get_local_node_id-lasting installed drawn [] refl refl (
  omega arith,
  (
    omega arith,
    (omega arith, (omega arith, (omega arith, (omega arith, (omega arith, (omega arith, tt)))))),
  ),
)
