-- ===== src/Packet/RoundTrip.antt =====
-- Round trip of the envelope of src/BITCHAT/core/BitChatPacketCodec.ts.
use i_tantra.Base.{
  ℕ, ◌+◌, ◌/◌, ◌%◌, ◌^◌, ◌≤◌, ◌<◌, ◌≡◌, sym, ap, ◌∙◌, true, ◌∷◌, ok, Text, ltb-false, length,
  overwrite_all, arith,
}
use i_tantra.Bytes.{Bytes}
use i_tantra.Bytes.Laws.{zeros-add, uint64_bytes}
use i_tantra.Frame.{contains}
use i_tantra.NodeId.{format, normalize_id, write_id_be, read_id_be}
use i_tantra.NodeId.Hex.{value-format, is_valid_id-format}
use i_tantra.NodeId.Normal.{normalize_id-eq-ok}
use i_tantra.Packet.{Packet, valid_packet_types, encode, decode}

-- The eight bytes of a 64-bit number before `rest`.
abbrev bytes8 : ℕ → Bytes → Bytes
bytes8 v rest =
    (v / 2 ^ 56 % 256 % 256)
    ∷ (v / 2 ^ 48 % 256 % 256)
    ∷ (v / 2 ^ 40 % 256 % 256)
    ∷ (v / 2 ^ 32 % 256 % 256)
    ∷ (v / 2 ^ 24 % 256 % 256)
    ∷ (v / 2 ^ 16 % 256 % 256)
    ∷ (v / 2 ^ 8 % 256 % 256)
    ∷ (v / 2 ^ 0 % 256 % 256)
    ∷ rest

-- An envelope laid out byte by byte, for identifiers given as numbers.
abbrev layout : ℕ → ℕ → ℕ → ℕ → ℕ → ℕ → Bytes → Bytes
layout t ttl s d i flags p =
    1 ∷ t % 256 ∷ ttl % 256 ∷ bytes8 s (bytes8 d (bytes8 i (flags % 256 ∷ p)))

abbrev packet_of : ℕ → ℕ → ℕ → ℕ → ℕ → ℕ → Bytes → Packet
packet_of t ttl s d i flags p = record {
  version = 1;
  packet_type = t;
  ttl = ttl;
  source_node_id = format s;
  destination_node_id = format d;
  packet_id = format i;
  flags = flags;
  payload = p;
}

valid_type_lt : (t : ℕ) → contains valid_packet_types t ≡ true → t < 256
unfolding contains
valid_type_lt t h = ground arith

module _ (t ttl s d i flags : ℕ) (p : Bytes) (ht : contains valid_packet_types t ≡ true)
    (hl : ttl ≤ 255) (hs : s < 2 ^ 64) (hd : d < 2 ^ 64) (hi : i < 2 ^ 64) (hf : flags ≤ 255) where
  encode-layout : encode (packet_of t ttl s d i flags p) ≡ ok (layout t ttl s d i flags p)
  unfolding encode write_id_be
  encode-layout =
      rw (ht, ltb-false 255 ttl hl, is_valid_id-format s hs, is_valid_id-format d hd)
        (rw (is_valid_id-format i hi, ltb-false 255 flags hf)
          (rw (value-format s hs, value-format d hd, value-format i hi)
            (rw (zeros-add 28 (length p), overwrite_all p 0))))

  decode-layout : decode (layout t ttl s d i flags p) ≡ ok (packet_of t ttl s d i flags p)
  unfolding decode read_id_be
  decode-layout =
      let same_type : t % 256 ≡ t = omega (arith, valid_type_lt t ht) in
      let same_ttl : ttl % 256 ≡ ttl = omega arith in
      let same_flags : flags % 256 ≡ flags = omega arith in
      rw (ltb-false (length (layout t ttl s d i flags p)) 28 (omega arith), same_type, ht, same_ttl)
        (rw (
          ltb-false 255 ttl hl,
          same_flags,
          uint64_bytes s hs,
          uint64_bytes d hd,
          uint64_bytes i hi,
        ))

-- An identifier in normal form: `normalizeNodeId` leaves it as it is.
abbrev pub IsNormal : Text → Type 0
IsNormal id = normalize_id id ≡ ok id

-- A packet that `encode` takes: its fields in their ranges, its identifiers in normal form.
pub record IsSendable (p : Packet) : Type 0 where
  pub version_is : p.version ≡ 1
  pub type_is : contains valid_packet_types p.packet_type ≡ true
  pub ttl_le : p.ttl ≤ 255
  pub flags_le : p.flags ≤ 255
  pub source_is : IsNormal p.source_node_id
  pub destination_is : IsNormal p.destination_node_id
  pub id_is : IsNormal p.packet_id

-- A sendable packet is its own layout over the numbers of its identifiers.
sendable_of :
    (p : Packet) (s d i : ℕ)
    → p.version ≡ 1
    → p.source_node_id ≡ format s
    → p.destination_node_id ≡ format d
    → p.packet_id ≡ format i
    → p ≡ packet_of p.packet_type p.ttl s d i p.flags p.payload
sendable_of p s d i ev es ed ei k = record {
  version = ev k;
  packet_type = p.packet_type;
  ttl = p.ttl;
  source_node_id = es k;
  destination_node_id = ed k;
  packet_id = ei k;
  flags = p.flags;
  payload = p.payload;
}

-- Every packet whose fields are in their ranges and whose identifiers are in normal form is
-- encoded, to 28 bytes more than its payload, and decoding gives the packet back.
pub decode-encode_packet :
    (p : Packet)
    → IsSendable p
    → (b : Bytes) × (encode p ≡ ok b) × (length b ≡ 28 + length p.payload) × (decode b ≡ ok p)
decode-encode_packet p v =
    let (s, hs, es) = normalize_id-eq-ok _ _ v.source_is in
    let (d, hd, ed) = normalize_id-eq-ok _ _ v.destination_is in
    let (i, hi, ei) = normalize_id-eq-ok _ _ v.id_is in
    let b = layout p.packet_type p.ttl s d i p.flags p.payload in
    let same = sendable_of p s d i v.version_is es ed ei in
    (
      b,
      ap encode same
          ∙ encode-layout p.packet_type p.ttl s d i p.flags p.payload v.type_is v.ttl_le hs hd hi
              v.flags_le,
      omega arith,
      decode-layout p.packet_type p.ttl s d i p.flags p.payload v.type_is v.ttl_le hs hd hi
            v.flags_le
          ∙ ap ok (sym same),
    )
