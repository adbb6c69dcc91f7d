-- ===== src/Tests/Links.antt =====
-- The frame codec, sequence numbers, control messages, caches, chat store and app states at concrete inputs.
use i_tantra.Base.{
  ◌-◌, ◌^◌, ◌≡◌, ◌≢◌, refl, true, false, List, [], ◌∷◌, none, some, ok, ◌>>=◌, Text, arith, codes,
  text_eq, ap, sym, get_or,
}
use i_tantra.Base.Int.{pos, negsuc, signed32}
use i_tantra.Bytes.{Bytes, read_uint32_be}
use i_tantra.Frame
use i_tantra.Frame.{DecodedFrame, contains, v6b_valid_frame_types}
use i_tantra.Frame.RoundTrip
use i_tantra.Frame.Decode
use i_tantra.Sequence.{compare_with_last, validate}
use i_tantra.Sequence.Serial.{ahead, serial_verdict, compare_with_last-serial, validate_twice}
use i_tantra.TxControl.{
  TxControlPayload, is_known_op, build_tx_control_frame, decode_tx_control_payload,
}
use i_tantra.TxControl.RoundTrip.{build_tx_control_frame-decoded}
use i_tantra.Delivery.Delivered
use i_tantra.Delivery.Delivered.Laws
use i_tantra.Delivery.Completed
use i_tantra.Delivery.Completed.Stored
use i_tantra.AppState
use i_tantra.Chat.{
  ChatMessage, ChatStore, incoming, received, sent, add_incoming_chat_message,
  set_outgoing_chat_message_status,
}
use i_tantra.Chat.Laws.{add_incoming_chat_message_twice}
use i_tantra.AppState.{AppAction, start_listening, raise, tts_started, stop_listening}

-- Two bytes to send.
abbrev two_bytes : Bytes
two_bytes = 104 ∷ 105 ∷ []

a_ne_b : codes "a" ≢ codes "b"
a_ne_b e = omega (arith, ap (λ (t : Text). get_or t 0 0) e)

message_type_valid : contains v6b_valid_frame_types 1 ≡ true
unfolding contains
message_type_valid = refl

decode-encode_example :
    (Frame.encode 7 1 two_bytes >>= Frame.decode) ≡ ok (RoundTrip.decoded 1 7 two_bytes)
decode-encode_example =
    RoundTrip.decode-encode 7 1 two_bytes (omega arith) message_type_valid (omega arith)

-- A header that declares 2 ^ 32 - 1 bytes, without any.
abbrev huge_header : Bytes
huge_header = 3 ∷ 1 ∷ 0 ∷ 0 ∷ 0 ∷ 7 ∷ 255 ∷ 255 ∷ 255 ∷ 255 ∷ []

decode_top_bit_example :
    (f : DecodedFrame) × (Frame.decode huge_header ≡ ok f)
    × (f.payload_length ≡ negsuc (2 ^ 32 - read_uint32_be huge_header 6 - 1))
decode_top_bit_example =
    Decode.decode_top_bit huge_header (omega arith) refl message_type_valid (omega arith)

compare_with_last-serial_example :
    compare_with_last (signed32 4294967295) (signed32 0) ≡ serial_verdict (ahead 4294967295 0)
compare_with_last-serial_example = compare_with_last-serial 4294967295 0 (omega arith) (omega arith)

validate_twice_example :
    ((validate (codes "a") (pos 4) (validate (codes "a") (pos 4) []).0).1).valid ≡ false
validate_twice_example = validate_twice (codes "a") (pos 4) []

-- A request for the turn.
abbrev request : TxControlPayload
request = record { op = 1; tx_id = 0; request_id = 4294967295 }

build_tx_control_frame-decoded_example :
    (b : Bytes) × (f : DecodedFrame) × (build_tx_control_frame 9 request ≡ ok b)
    × (Frame.decode b ≡ ok f)
    × (f.frame_type ≡ Frame.v6b_frame_tx_control)
    × (decode_tx_control_payload f.payload ≡ some request)
build_tx_control_frame-decoded_example =
    build_tx_control_frame-decoded 9 request (omega arith) (unfold is_known_op in refl)
      (omega arith) (omega arith)

mark_delivered-remembered_example :
    Delivered.is_delivered
      (Laws.mark_all
        (Delivered.mark_delivered [] (codes "a") (codes "m") 1)
        ((codes "a", codes "n", 2) ∷ (codes "b", codes "m", 3) ∷ []))
      (codes "a")
      (codes "m")
    ≡ true
mark_delivered-remembered_example =
    Laws.mark_delivered-remembered [] (codes "a") (codes "m") 1
      ((codes "a", codes "n", 2) ∷ (codes "b", codes "m", 3) ∷ []) (omega arith)

store-get_completed_example :
    (Completed.get_completed_message_id
        (Completed.store [] (codes "a") 5 (codes "m") 1)
        (codes "a")
        5
      ≡ some (codes "m"))
    × (Completed.get_completed_message_id
          (Completed.store [] (codes "a") 5 (codes "m") 1)
          (codes "b")
          5
        ≡ Completed.get_completed_message_id [] (codes "b") 5)
store-get_completed_example =
    Stored.store-get_completed [] (codes "a") (codes "b") (codes "m") 5 5 1 (λ e. a_ne_b (sym e))

-- A message from a.
abbrev hello : ChatMessage
hello = record {
  id = codes "m";
  conversation_node_id = codes "a";
  sender_node_id = codes "a";
  recipient_node_id = codes "b";
  text = codes "hello";
  direction = incoming;
  status = received;
  time = 1;
}

abbrev one_listener : ChatStore
one_listener = record { messages = []; listeners = 1 ∷ [] }

add_incoming_chat_message_twice_example :
    add_incoming_chat_message
      (set_outgoing_chat_message_status
        (add_incoming_chat_message one_listener hello).0.0
        (codes "m")
        sent).0
      hello
    ≡ (
      (
        (set_outgoing_chat_message_status
            (add_incoming_chat_message one_listener hello).0.0
            (codes "m")
            sent).0,
        [],
      ),
      false,
    )
add_incoming_chat_message_twice_example =
    add_incoming_chat_message_twice one_listener hello (codes "m") sent refl

-- Something goes wrong while the app listens.
abbrev failing : List AppAction
failing = start_listening ∷ stop_listening ∷ raise (codes "x") ∷ []

run_error_example : (AppState.run AppState.initial failing).message ≢ none
run_error_example = AppState.run_error failing reached
  where
    reached : (AppState.run AppState.initial failing).state ≡ AppState.error
    reached = unfold AppState.run AppState.app_reducer AppState.stop_from in refl
