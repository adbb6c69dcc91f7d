-- ===== src/TxControl.antt =====
-- Half-duplex transmission ownership: src/protocol/TxControlCodec.ts.
pub mod RoundTrip
use i_tantra.Base.{
  ℕ, ◌^◌, Bool, not, ltb, throw_if, ◌>>◌, ◌&&◌, ◌||◌, Option, none, some, Result, ok, err, ◌>>=◌,
  leb, nat_beq, length, set, if◌then◌else◌,
}
use i_tantra.Bytes.{Bytes, zeros, set_byte, byte_at, write_uint32_be, read_uint32_be}
use i_tantra.Frame

abbrev pub tx_op_request : ℕ
tx_op_request = 1

abbrev pub tx_op_grant : ℕ
tx_op_grant = 2

abbrev pub tx_op_release : ℕ
tx_op_release = 3

abbrev pub tx_control_payload_size : ℕ
tx_control_payload_size = 9

pub record TxControlPayload : Type 0 where
  pub op : ℕ
  pub tx_id : ℕ
  pub request_id : ℕ

pub data TxError : Type 0 where
  invalid_op invalid_tx_id invalid_request_id : TxError
  frame_error : Frame.FrameError → TxError

unfoldable pub encode_tx_control_payload : TxControlPayload → Result TxError Bytes
encode_tx_control_payload p = do
  throw_if (ltb 0xff p.op) invalid_op
  throw_if (ltb 0xffffffff p.tx_id) invalid_tx_id
  throw_if (ltb 0xffffffff p.request_id) invalid_request_id
  let out0 = zeros tx_control_payload_size
  let out1 = set_byte out0 0 p.op
  let out2 = write_uint32_be out1 1 p.tx_id
  ok (write_uint32_be out2 5 p.request_id)

-- The three operations.
unfoldable pub is_known_op : ℕ → Bool
is_known_op op = not (
    not (nat_beq op tx_op_request)
    && not (nat_beq op tx_op_grant)
    && not (nat_beq op tx_op_release))

unfoldable pub decode_tx_control_payload : Bytes → Option TxControlPayload
unfolding is_known_op
decode_tx_control_payload data' =
    if not (nat_beq (length data') tx_control_payload_size)
    then none
    else if not (is_known_op (byte_at data' 0))
    then none
    else some (record {
      op = byte_at data' 0;
      tx_id = read_uint32_be data' 1;
      request_id = read_uint32_be data' 5;
    })

-- An error of the frame codec passes through.
unfoldable pub from_frame : Result Frame.FrameError Bytes → Result TxError Bytes
from_frame (ok b) = ok b
from_frame (err e) = err (frame_error e)

unfoldable pub build_tx_control_frame : ℕ → TxControlPayload → Result TxError Bytes
unfolding from_frame
build_tx_control_frame seq p = do
  payload ← encode_tx_control_payload p
  from_frame (Frame.encode seq Frame.v6b_frame_tx_control payload)

unfoldable pub is_grant_accepted : TxControlPayload → Bool
is_grant_accepted p = nat_beq p.op tx_op_grant && not (nat_beq p.tx_id 0)
