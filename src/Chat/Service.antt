-- ===== src/Chat/Service.antt =====
-- Typed chat on top of the mesh: src/messages/ChatMessageService.ts. The transport is the caller's:
-- its node id and its `canRouteTo` are fields, its `originate` is an argument of the sender, which
-- answers the k-th call with the number of peers that took the packet, or with `none` for a rejection.
-- `JSON.parse` is a parameter, and one clock reading `now` serves a call.
pub mod Integers
pub mod Sending
pub mod Laws
pub mod Receiving
pub mod Sent
pub mod EndToEnd
pub mod Refused
pub mod Voice
use i_tantra.Base.{
  ℕ, zero, suc, ◌+◌, ◌-◌, ◌%◌, ◌^◌, Bool, true, false, not, List, [], ◌∷◌, ◌++◌, Option, none, some,
  Result, ok, err, ltb, leb, nat_beq, length, drop, set_from, Text, codes, if◌then◌else◌, text_eq,
}
use i_tantra.Base.Int.{ℤ, pos}
use i_tantra.Bytes.{Bytes, zeros, byte_at}
use i_tantra.Frame.{v6b_max_payload_size}
use i_tantra.Packet
use i_tantra.NodeId.{trim, IdError, normalize_uint64, big}
use i_tantra.Semantic.{SemanticMessage, Parsed, is_blank, given_or}
use i_tantra.Message.{hash_message_id, encode_unrestricted, decode_with_fallback, bytes}
use i_tantra.Fragment.{FragmentChunk, parse_header, split_v6a_for_budget, v7_marker, v7_header_size}
use i_tantra.Reassembly.{Groups, ReassemblyResult, incomplete, complete, error, add_fragment}
use i_tantra.Chat.{
  ChatMessage, ChatStore, sending, sent, failed, received, outgoing, incoming,
  add_outgoing_chat_message, set_outgoing_chat_message_status, add_incoming_chat_message,
}
use i_tantra.Chat.Service.Integers.{big_int}

abbrev pub chat_magic : Bytes
chat_magic = 0x49 ∷ 0x54 ∷ 0x43 ∷ 0x01 ∷ []

abbrev pub chat_header_size : ℕ
chat_header_size = length chat_magic

pub record ChatTransport : Type 0 where
  pub local_node_id : Text
  pub can_route_to : Text → Bool

pub record ChatDeliveryMeta : Type 0 where
  pub source_node_id : Option Text
  pub destination_node_id : Option Text
  pub from_peer_id : Option Text

-- The module's variables, with those of ChatMessageStore and the group counter of FragmentCodec.
pub record Service : Type 0 where
  pub transport : Option ChatTransport
  pub groups : Groups
  pub store : ChatStore
  pub counter : ℕ

unfoldable pub register_chat_transport : Service → Option ChatTransport → Service
register_chat_transport service transport = record service { transport = transport }

abbrev pub can_reach : Option ChatTransport → Text → Bool
can_reach none destination = false
can_reach (some transport) destination = transport.can_route_to destination

-- No destination, or an empty one, asks for a transport only.
unfoldable pub is_chat_transport_ready : Service → Text → Bool
is_chat_transport_ready service destination = elim service.transport [
  | none ↦ false
  | some transport ↦ if is_blank destination then true else transport.can_route_to destination
]

unfoldable pub encode_chat_application_payload : Bytes → Bytes
encode_chat_application_payload payload =
    let wrapped = zeros (chat_header_size + length payload) in
    set_from (set_from wrapped 0 chat_magic) chat_header_size payload

-- for (let index = 0; index < CHAT_HEADER_SIZE; index++), with the bytes to find first
unfoldable pub has_magic : Bytes → ℕ → Bytes → Bool
has_magic [] index payload = true
has_magic (b ∷ bs) index payload =
    let rest = has_magic bs (index + 1) payload in
    if not (nat_beq (byte_at payload index) b) then false else rest

unfoldable pub decode_chat_application_payload : Bytes → Option Bytes
unfolding has_magic
decode_chat_application_payload payload =
    if leb (length payload) chat_header_size
    then none
    else if has_magic chat_magic 0 payload
    then some (drop chat_header_size payload)
    else none

unfoldable pub compact_message_id : Text → Result IdError Text
unfolding normalize_uint64
compact_message_id message_id = normalize_uint64 (big (pos (hash_message_id message_id)))

abbrev pub unknown : Text
unknown = codes "unknown"

abbrev pub local_or_unknown : Option ChatTransport → Text
local_or_unknown none = unknown
local_or_unknown (some transport) = transport.local_node_id

abbrev pub sender_of : ChatDeliveryMeta → Text
sender_of meta = given_or meta.source_node_id (given_or meta.from_peer_id unknown)

-- `none` is an exception of `BigInt` or of `normalizePacketId`.
unfoldable pub to_incoming_message :
    Option ChatTransport → SemanticMessage → ChatDeliveryMeta → ℕ → Option ChatMessage
to_incoming_message transport semantic meta now = elim (big_int semantic.message_id) [
  | none ↦ none
  | some value ↦ elim (normalize_uint64 (big value)) [
    | err e ↦ none
    | ok id ↦ some (record {
      id = id;
      conversation_node_id = sender_of meta;
      sender_node_id = sender_of meta;
      recipient_node_id = given_or meta.destination_node_id (local_or_unknown transport);
      text = semantic.text;
      direction = incoming;
      status = received;
      time = now;
    })
  ]
]

-- The value returned, or an exception.
pub data Handling : Type 0 where
  not_chat handled thrown : Handling

-- The service after a call, the listeners called, and what the call returned.
unfoldable pub deliver_incoming : Service → Option ChatMessage → (Service × List ℕ) × Handling
deliver_incoming service none = ((service, []), thrown)
deliver_incoming service (some message) =
    let ((store, called), added) = add_incoming_chat_message service.store message in
    ((record service { store = store }, called), handled)

unfoldable pub deliver_semantic :
    Service → Option SemanticMessage → ChatDeliveryMeta → ℕ → (Service × List ℕ) × Handling
unfolding deliver_incoming to_incoming_message
deliver_semantic service none meta now = ((service, []), handled)
deliver_semantic service (some semantic) meta now =
    deliver_incoming service (to_incoming_message service.transport semantic meta now)

unfoldable pub receive_whole :
    (Text → Option Parsed) → Service → Bytes → ChatDeliveryMeta → ℕ → (Service × List ℕ) × Handling
unfolding deliver_semantic
receive_whole parse service payload meta now =
    deliver_semantic service (decode_with_fallback parse (bytes payload)) meta now

-- What follows `addFragment`; the reassembler keeps its groups in any case.
unfoldable pub receive_result :
    (Text → Option Parsed)
    → Service
    → Groups × ReassemblyResult
    → ChatDeliveryMeta
    → ℕ
    → (Service × List ℕ) × Handling
unfolding receive_whole
receive_result parse service (groups, incomplete) meta now =
    ((record service { groups = groups }, []), handled)
receive_result parse service (groups, error reason) meta now =
    ((record service { groups = groups }, []), handled)
receive_result parse service (groups, complete packet) meta now =
    receive_whole parse (record service { groups = groups }) packet meta now

unfoldable pub receive_fragment :
    (Text → Option Parsed) → Service → Bytes → ChatDeliveryMeta → ℕ → (Service × List ℕ) × Handling
unfolding receive_result
receive_fragment parse service payload meta now = elim (parse_header payload) [
  | err e ↦ ((service, []), handled)
  | ok header ↦
      let payload' = drop v7_header_size payload in
      receive_result parse service
        (add_fragment service.groups (sender_of meta) header payload' now) meta now
]

unfoldable pub receive_chat_application_payload :
    (Text → Option Parsed) → Service → Bytes → ChatDeliveryMeta → ℕ → (Service × List ℕ) × Handling
unfolding decode_chat_application_payload receive_fragment receive_whole
receive_chat_application_payload parse service payload meta now =
    elim (decode_chat_application_payload payload) [
      | none ↦ ((service, []), not_chat)
      | some application_payload ↦
          if nat_beq (byte_at application_payload 0) v7_marker
          then receive_fragment parse service application_payload meta now
          else receive_whole parse service application_payload meta now
    ]

unfoldable pub reset_chat_message_service : Service → Service
reset_chat_message_service service = record service { transport = none; groups = [] }
