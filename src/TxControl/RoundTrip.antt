-- ===== src/TxControl/RoundTrip.antt =====
-- Round trip of the control messages of src/protocol/TxControlCodec.ts.
use i_tantra.Base.{ℕ, ◌/◌, ◌%◌, ◌^◌, ◌<◌, ◌≡◌, refl, true, [], ◌∷◌, some, ok, ltb-false, arith}
use i_tantra.Bytes.{Bytes}
use i_tantra.Bytes.Laws.{mod-mod_byte, uint32_bytes}
use i_tantra.Frame
use i_tantra.Frame.RoundTrip.{layout, encode-layout, decode-layout}
use i_tantra.TxControl.{
  TxControlPayload, encode_tx_control_payload, decode_tx_control_payload, is_known_op,
  build_tx_control_frame,
}

-- The nine bytes of a control payload.
abbrev pub payload_bytes : ℕ → ℕ → ℕ → Bytes
payload_bytes op t r =
    op
    ∷ (t / 2 ^ 24 % 256)
    ∷ (t / 2 ^ 16 % 256)
    ∷ (t / 2 ^ 8 % 256)
    ∷ (t % 256)
    ∷ (r / 2 ^ 24 % 256)
    ∷ (r / 2 ^ 16 % 256)
    ∷ (r / 2 ^ 8 % 256)
    ∷ (r % 256)
    ∷ []

known_op_lt : (op : ℕ) → is_known_op op ≡ true → op < 256
unfolding is_known_op
known_op_lt op h = ground arith

encode_payload :
    (p : TxControlPayload)
    → p.op < 256
    → p.tx_id < 2 ^ 32
    → p.request_id < 2 ^ 32
    → encode_tx_control_payload p ≡ ok (payload_bytes p.op p.tx_id p.request_id)
unfolding encode_tx_control_payload
encode_payload p ho ht hr =
    let small : p.op % 256 ≡ p.op = omega (arith, ho) in
    rw
      (
        ltb-false 0xff p.op (omega (arith, ho)),
        ltb-false 0xffffffff p.tx_id (omega (arith, ht)),
        ltb-false 0xffffffff p.request_id (omega (arith, hr)),
      )
      (rw small (simp mod-mod_byte))

decode_payload :
    (p : TxControlPayload)
    → is_known_op p.op ≡ true
    → p.tx_id < 2 ^ 32
    → p.request_id < 2 ^ 32
    → decode_tx_control_payload (payload_bytes p.op p.tx_id p.request_id) ≡ some p
unfolding decode_tx_control_payload
decode_payload p ho ht hr = rw (ho, uint32_bytes p.tx_id ht, uint32_bytes p.request_id hr) refl

-- A control message of a known operation with 32-bit identifiers survives the whole way: it is
-- framed under any 32-bit sequence number, the frame decodes as a TX control frame, and the frame's
-- payload decodes to the message.
pub build_tx_control_frame-decoded :
    (seq : ℕ) (p : TxControlPayload)
    → seq < 2 ^ 32
    → is_known_op p.op ≡ true
    → p.tx_id < 2 ^ 32
    → p.request_id < 2 ^ 32
    → (b : Bytes) × (f : Frame.DecodedFrame) × (build_tx_control_frame seq p ≡ ok b)
      × (Frame.decode b ≡ ok f)
      × (f.frame_type ≡ Frame.v6b_frame_tx_control)
      × (decode_tx_control_payload f.payload ≡ some p)
unfolding build_tx_control_frame
build_tx_control_frame-decoded seq p hs ho ht hr =
    let q = payload_bytes p.op p.tx_id p.request_id in
    let known : Frame.contains Frame.v6b_valid_frame_types 0x12 ≡ true =
      unfold Frame.contains in refl in
    (
      layout 0x12 seq 9 q,
      _,
      rw (encode_payload p (known_op_lt p.op ho) ht hr)
          (rw (encode-layout seq 0x12 q hs known (omega arith)) refl),
      decode-layout seq 0x12 q hs known (omega arith),
      refl,
      decode_payload p ho ht hr,
    )
