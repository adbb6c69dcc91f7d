-- ===== src/Tests/Talking.antt =====
-- Typed chat at concrete inputs.
use i_tantra.Base.{
  ◌⊎◌, ◌≢◌, any, ℕ, ◌≡◌, refl, true, false, [], ◌∷◌, Option, some, none, ok, Text, codes, text_eq,
  arith,
}
use i_tantra.Base.Dict
use i_tantra.Bytes.{write_uint64_be}
use i_tantra.NodeId.{all, is_decimal, parse_input, format, trim, is_space}
use i_tantra.Semantic.{Parsed, object, SemanticMessage, is_blank, create_semantic_message}
use i_tantra.Message.{hash_message_id, encode_unrestricted, validate_semantic_message, build_packet}
use i_tantra.Message.Registry.{is_in}
use i_tantra.Message.Utf8.{utf8_encode, utf8_decode}
use i_tantra.Semantic
use i_tantra.Semantic.RoundTrip.{fields_of}
use i_tantra.Fragment.{split_v6a_for_budget}
use i_tantra.Reassembly.{Groups}
use i_tantra.Chat.{ChatMessage, sent}
use i_tantra.Chat.Service.{
  Service, ChatDeliveryMeta, not_chat, handled, thrown, receive_chat_application_payload,
  encode_chat_application_payload, compact_message_id,
}
use i_tantra.Chat.Service.Integers.{big_int}
use i_tantra.Chat.Service.Sending.{
  Originate, outgoing_message, send_chat_message, no_overrides, SendResult,
}
use i_tantra.Chat.Service.Sent.{payloads, Transmitted, send_chat_message-ok}
use i_tantra.Chat.Service.Receiving.{receive_each, incoming_of, with_incoming}
use i_tantra.Chat.Service.EndToEnd.{receive_each-send_chat_message}
use i_tantra.Chat.Service.Refused.{IsUnreadable, receive-thrown_or}
use i_tantra.Chat.Service.Voice.{IsChat, receive-not_chat_or}

abbrev node : Text
node = codes "n"

abbrev idle : Service
idle = record {
  transport = some (record { local_node_id = node; can_route_to = λ d. true });
  groups = [];
  store = record { messages = []; listeners = [] };
  counter = 7;
}

abbrev from_node : ChatDeliveryMeta
from_node = record { source_node_id = some node; destination_node_id = none; from_peer_id = none }

abbrev one_peer : Originate
one_peer k call = some 1

abbrev sent_hi : SendResult
sent_hi = send_chat_message one_peer (λ s. s) idle (codes "m1") (codes "d") (codes " hi ") 5

abbrev hi : ChatMessage
hi =
    record (outgoing_message idle.transport (format (hash_message_id (codes "m1"))) (codes "d")
      (codes "hi") 5) { status = sent }

hi_sent : sent_hi.outcome ≡ ok hi
unfolding send_chat_message trim is_space compact_message_id parse_input hash_message_id utf8_encode
    encode_unrestricted validate_semantic_message is_in Dict.has split_v6a_for_budget build_packet
    write_uint64_be
hi_sent = refl

-- What `JSON.parse` is taken to return in the runs.
abbrev note : SemanticMessage
note = create_semantic_message (codes "m1") (codes "hi") no_overrides

abbrev parse : Text → Option Parsed
parse s = some (object (fields_of note))

send_chat_message-ok_example :
    (is_blank (trim (codes " hi ")) ≡ false)
    × (hi ≡ hi)
    × Transmitted one_peer 7
        (create_semantic_message (codes "m1") (trim (codes " hi ")) no_overrides)
        sent_hi.calls
unfolding trim is_space
send_chat_message-ok_example =
    send_chat_message-ok one_peer (λ s. s) idle (codes "m1") (codes "d") (codes " hi ") 5 hi hi_sent

receive_each-send_chat_message_example :
    (groups : Groups) × (n : ℕ) × (receive_each parse idle from_node
        (λ i. i)
        0
        (payloads sent_hi.calls)
      ≡ with_incoming
          (record idle { groups = groups })
          (incoming_of idle from_node n (format (hash_message_id (codes "m1"))) (codes "hi")))
unfolding trim is_space
receive_each-send_chat_message_example =
    receive_each-send_chat_message one_peer (λ s. s) idle idle (codes "m1") (codes "d")
      (codes " hi ") 5 hi parse from_node (λ i. i) hi_sent (omega arith, (omega arith, tt))
      (unfold Dict.lookup in refl)

-- A V6A packet begins with 2.
receive-not_chat_or_example :
    (IsChat (2 ∷ 1 ∷ [])
      × ((receive_chat_application_payload parse idle (2 ∷ 1 ∷ []) from_node 3).1 ≢ not_chat))
    ⊎ ((¬ IsChat (2 ∷ 1 ∷ []))
        × (receive_chat_application_payload parse idle (2 ∷ 1 ∷ []) from_node 3
            ≡ ((idle, []), not_chat)))
receive-not_chat_or_example = receive-not_chat_or parse from_node 3 idle (2 ∷ 1 ∷ [])

receive-thrown_or_example :
    (IsUnreadable parse (0x7b ∷ [])
      × (receive_chat_application_payload parse idle
            (encode_chat_application_payload (0x7b ∷ []))
            from_node
            3
          ≡ ((idle, []), thrown)))
    ⊎ ((¬ IsUnreadable parse (0x7b ∷ []))
        × ((receive_chat_application_payload parse idle
              (encode_chat_application_payload (0x7b ∷ []))
              from_node
              3).1
            ≡ handled))
receive-thrown_or_example = receive-thrown_or parse idle from_node 3 (0x7b ∷ []) (omega arith) refl

-- The first case is the one that holds, for the identifier "m1".
note-IsUnreadable : IsUnreadable parse (0x7b ∷ [])
unfolding utf8_decode Semantic.safe_decode Semantic.decode Semantic.validate Dict.lookup
    create_semantic_message trim is_space any big_int all is_decimal
note-IsUnreadable = (0x7b ∷ [], note, refl, refl, refl, λ v h e. cc)
