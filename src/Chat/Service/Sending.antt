-- ===== src/Chat/Service/Sending.antt =====
-- `sendChatMessage` of src/messages/ChatMessageService.ts. `originate k call` answers the k-th packet
-- of a message; `meanwhile` is what the rest of the program does to the service while it is awaited.
use i_tantra.Base.{
  ℕ, zero, suc, ◌+◌, ◌-◌, ◌%◌, ◌^◌, not, List, [], ◌∷◌, ◌++◌, Option, none, some, Result, ok, err,
  length, Text, if◌then◌else◌,
}
use i_tantra.Base.Int.{pos}
use i_tantra.Bytes.{Bytes}
use i_tantra.Frame.{v6b_max_payload_size}
use i_tantra.Packet
use i_tantra.NodeId.{trim, IdError, normalize_uint64, big}
use i_tantra.Semantic.{SemanticMessage, Overrides, create_semantic_message, is_blank}
use i_tantra.Message.{MessageError, hash_message_id, encode_unrestricted}
use i_tantra.Fragment.{FragmentChunk, FragmentError, split_v6a_for_budget}
use i_tantra.Chat.{
  ChatMessage, sending, sent, failed, outgoing, add_outgoing_chat_message,
  set_outgoing_chat_message_status,
}
use i_tantra.Chat.Service.{
  Service, ChatTransport, chat_header_size, can_reach, local_or_unknown, compact_message_id,
  encode_chat_application_payload,
}

-- The arguments of `transport.originate`.
pub record Call : Type 0 where
  pub payload : Bytes
  pub packet_id : Text
  pub destination : Text
  pub fragment_count : ℕ

pub data SendError : Type 0 where
  empty_message no_route rejected message_not_accepted fragment_not_accepted : SendError
  invalid_id : IdError → SendError
  invalid_message : MessageError → SendError
  invalid_split : FragmentError → SendError

abbrev pub Originate : Type 0
Originate = ℕ → Call → Option ℕ

-- What a loop has sent, and how it ended.
abbrev pub Sending : Type 0
Sending = List Call × Result SendError (Unit {0})

-- The call and the ones after it, which a refusal stops.
unfoldable pub accept : Option ℕ → SendError → Call → Sending → Sending
accept none error call (calls, result) = (call ∷ [], err rejected)
accept (some zero) error call (calls, result) = (call ∷ [], err error)
accept (some (suc n)) error call (calls, result) = (call ∷ calls, result)

abbrev pub chunk_budget : ℕ
chunk_budget = v6b_max_payload_size - Packet.header_size - chat_header_size

unfoldable pub fragment_packet_id : Text → ℕ → Result IdError Text
unfolding normalize_uint64
fragment_packet_id message_id fragment_index =
    normalize_uint64 (big (pos ((hash_message_id message_id + fragment_index) % 2 ^ 64)))

-- for (const fragment of fragments), with `k` calls behind it
unfoldable pub originate_fragments : Originate → ℕ → Text → Text → ℕ → List FragmentChunk → Sending
unfolding fragment_packet_id accept
originate_fragments originate k message_id destination total [] = ([], ok tt)
originate_fragments originate k message_id destination total (fragment ∷ fragments) =
    let rest = originate_fragments originate (k + 1) message_id destination total fragments in
    elim (fragment_packet_id message_id fragment.header.fragment_index) [
      | err e ↦ ([], err (invalid_id e))
      | ok packet_id ↦
          let call : Call = record {
            payload = encode_chat_application_payload fragment.payload;
            packet_id = packet_id;
            destination = destination;
            fragment_count = total;
          } in
          accept (originate k call) fragment_not_accepted call rest
    ]

unfoldable pub originate_all : Originate → Text → Text → Text → Bytes → List FragmentChunk → Sending
unfolding originate_fragments accept
originate_all originate message_id compact_id destination v6a [] =
    let call : Call = record {
      payload = encode_chat_application_payload v6a;
      packet_id = compact_id;
      destination = destination;
      fragment_count = 1;
    } in
    accept (originate 0 call) message_not_accepted call ([], ok tt)
originate_all originate message_id compact_id destination v6a (fragment ∷ fragments) =
    originate_fragments originate 0 message_id destination (length (fragment ∷ fragments))
      (fragment ∷ fragments)

-- The body of the `try`, with the group counter.
unfoldable pub transmit : Originate → ℕ → SemanticMessage → Text → Text → Sending × ℕ
unfolding originate_all
transmit originate counter semantic compact_id destination = elim (encode_unrestricted semantic) [
  | err e ↦ (([], err (invalid_message e)), counter)
  | ok v6a ↦ elim (split_v6a_for_budget counter v6a chunk_budget) [
    | err e ↦ (([], err (invalid_split e)), counter)
    | ok (fragments, counter') ↦
        (originate_all originate semantic.message_id compact_id destination v6a fragments, counter')
  ]
]

pub record SendResult : Type 0 where
  pub service : Service
  pub called : List ℕ
  pub calls : List Call
  pub outcome : Result SendError ChatMessage

unfoldable pub finish :
    Service → List ℕ → ChatMessage → List Call → Result SendError (Unit {0}) → SendResult
finish service called message calls (err e) =
    let (store, called') = set_outgoing_chat_message_status service.store message.id failed in
    record {
      service = record service { store = store };
      called = called ++ called';
      calls = calls;
      outcome = err e;
    }
finish service called message calls (ok u) =
    let (store, called') = set_outgoing_chat_message_status service.store message.id sent in
    record {
      service = record service { store = store };
      called = called ++ called';
      calls = calls;
      outcome = ok (record message { status = sent });
    }

abbrev pub no_overrides : Overrides
no_overrides = record {
  language = none;
  emotion = none;
  emotion_confidence = none;
  voice_profile = none;
}

abbrev pub outgoing_message : Option ChatTransport → Text → Text → Text → ℕ → ChatMessage
outgoing_message transport compact_id destination text now = record {
  id = compact_id;
  conversation_node_id = destination;
  sender_node_id = local_or_unknown transport;
  recipient_node_id = destination;
  text = text;
  direction = outgoing;
  status = sending;
  time = now;
}

-- From `addOutgoingChatMessage` on.
unfoldable pub send_from :
    Originate → (Service → Service) → Service → SemanticMessage → ChatMessage → SendResult
unfolding transmit finish
send_from originate meanwhile service semantic message =
    let (store, called) = add_outgoing_chat_message service.store message in
    let added = record service { store = store } in
    if not (can_reach service.transport message.recipient_node_id)
    then finish added called message [] (err no_route)
    else let ((calls, result), counter) =
        transmit originate service.counter semantic message.id message.recipient_node_id in
      finish (meanwhile (record added { counter = counter })) called message calls result

-- `message_id` is the one that `createSemanticMessage` generates.
unfoldable pub send_chat_message :
    Originate → (Service → Service) → Service → Text → Text → Text → ℕ → SendResult
unfolding send_from create_semantic_message
send_chat_message originate meanwhile service message_id destination text now =
    let normalized = trim text in
    if is_blank normalized
    then record { service = service; called = []; calls = []; outcome = err empty_message }
    else elim (compact_message_id message_id) [
      | err e ↦ record { service = service; called = []; calls = []; outcome = err (invalid_id e) }
      | ok compact_id ↦
          send_from originate meanwhile service
            (create_semantic_message message_id normalized no_overrides)
            (outgoing_message service.transport compact_id destination normalized now)
    ]
