-- ===== src/Packet/Payloads.antt =====
-- The decoders of src/BITCHAT/core/BitChatPacketCodec.ts, AnnounceCodec.ts and DiscoveryPacketCodec.ts.
use i_tantra.Base.{
  ℕ, ◌/◌, ◌%◌, ◌^◌, ◌≡◌, ◌↔◌, refl, sym, ap, true, not, [], ◌∷◌, ok, throw_if-eq-ok, ok-injective,
  ltb, le_of_ltb, nat_beq, length, arith,
}
use i_tantra.Bytes.{Bytes, IsBytes, byte_at, read_uint64_be}
use i_tantra.Bytes.Laws.{uint64_bytes, byte_at-lt, read_uint64_be-lt}
use i_tantra.Frame.{contains}
use i_tantra.NodeId.{NodeId, is_valid_id, write_id_be, read_id_be}
use i_tantra.NodeId.Hex.{value-format, is_valid_id-format}
use i_tantra.NodeId.Normal.{normalize_id-eq-ok, normalize_id-format}
use i_tantra.Packet.{
  Packet, valid_packet_types, decode, encode_announce, decode_announce, encode_discovery,
  decode_discovery,
}
use i_tantra.Packet.RoundTrip.{IsNormal, IsSendable}

-- An identifier read from a buffer is in normal form, whatever the bytes are.
pub read_id_be-IsNormal : (b : Bytes) (o : ℕ) → IsNormal (read_id_be b o)
unfolding read_id_be
read_id_be-IsNormal b o = normalize_id-format (read_uint64_be b o) (read_uint64_be-lt b o)

read_id_be-is_valid : (b : Bytes) (o : ℕ) → is_valid_id (read_id_be b o) ≡ true
unfolding read_id_be
read_id_be-is_valid b o = is_valid_id-format (read_uint64_be b o) (read_uint64_be-lt b o)

-- Every packet that `decode` returns from a byte buffer can be encoded again: its fields are in
-- their ranges and its three identifiers in normal form.
pub decode-IsSendable : (b : Bytes) (p : Packet) → IsBytes b → decode b ≡ ok p → IsSendable p
unfolding decode
decode-IsSendable b p h e =
    let (e1, r1) = throw_if-eq-ok (ltb (length b) 28) _ _ _ e in
    let (e2, r2) = throw_if-eq-ok (not (nat_beq (byte_at b 0) 1)) _ _ _ r1 in
    let (e3, r3) = throw_if-eq-ok (not (contains valid_packet_types (byte_at b 1))) _ _ _ r2 in
    let (e4, r4) = throw_if-eq-ok (ltb 255 (byte_at b 2)) _ _ _ r3 in
    rw (← ok-injective r4) (record {
      version_is = ground (arith, e2);
      type_is = ground (arith, e3);
      ttl_le = le_of_ltb 255 (byte_at b 2) e4;
      flags_le = omega (arith, byte_at-lt b 27 h);
      source_is = read_id_be-IsNormal b 3;
      destination_is = read_id_be-IsNormal b 11;
      id_is = read_id_be-IsNormal b 19;
    })

-- The nine bytes of a payload.
abbrev nine : ℕ → Bytes
nine v =
    (v / 2 ^ 56 % 256 % 256)
    ∷ (v / 2 ^ 48 % 256 % 256)
    ∷ (v / 2 ^ 40 % 256 % 256)
    ∷ (v / 2 ^ 32 % 256 % 256)
    ∷ (v / 2 ^ 24 % 256 % 256)
    ∷ (v / 2 ^ 16 % 256 % 256)
    ∷ (v / 2 ^ 8 % 256 % 256)
    ∷ (v / 2 ^ 0 % 256 % 256)
    ∷ 1
    ∷ []

-- A node announces itself: its identifier, in normal form, is encoded in nine bytes that decode to it.
pub decode_announce-encode_announce :
    (id : NodeId)
    → IsNormal id
    → (b : Bytes) × (encode_announce id ≡ ok b) × (length b ≡ 9) × (decode_announce b ≡ ok id)
unfolding encode_announce decode_announce write_id_be read_id_be
decode_announce-encode_announce id h =
    let (v, hv, e) = normalize_id-eq-ok id id h in
    (
      nine v,
      rw (e, is_valid_id-format v hv, value-format v hv),
      refl,
      rw (e, uint64_bytes v hv, is_valid_id-format v hv),
    )

-- `decode_announce` accepts exactly the payloads of nine bytes whose last byte is 1, and the
-- identifier that it returns is then that of the first eight bytes: its check of the identifier never
-- fails.
pub decode_announce_iff :
    (b : Bytes) (id : NodeId)
    → (decode_announce b ≡ ok id) ↔ ((length b ≡ 9) × (byte_at b 8 ≡ 1) × (id ≡ read_id_be b 0))
unfolding decode_announce
decode_announce_iff b id = (
  λ e.
      let (e1, r1) = throw_if-eq-ok (not (nat_beq (length b) 9)) _ _ _ e in
      let (e2, r2) = throw_if-eq-ok (not (nat_beq (byte_at b 8) 1)) _ _ _ r1 in
      let (e3, r3) = throw_if-eq-ok (not (is_valid_id (read_id_be b 0))) _ _ _ r2 in
      (ground (arith, e1), ground (arith, e2), cc),
  λ (e1, e2, e3). rw (e1, e2, read_id_be-is_valid b 0) (ap ok (sym e3)),
)

-- A node's identifier, in normal form, is encoded for a DISCOVERY packet in nine bytes that decode to
-- it.
pub decode_discovery-encode_discovery :
    (id : NodeId)
    → IsNormal id
    → (b : Bytes) × (encode_discovery id ≡ ok b) × (length b ≡ 9) × (decode_discovery b ≡ ok id)
unfolding encode_discovery decode_discovery write_id_be read_id_be
decode_discovery-encode_discovery id h =
    let (v, hv, e) = normalize_id-eq-ok id id h in
    (
      nine v,
      rw (e, is_valid_id-format v hv, value-format v hv),
      refl,
      rw (e, uint64_bytes v hv, is_valid_id-format v hv),
    )
