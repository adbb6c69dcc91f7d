-- ===== src/Chat.antt =====
-- The session's chat messages: src/messages/ChatMessageStore.ts. A listener is a number that stands for
-- the function object; an operation returns the store and the listeners that it calls, in their order.
pub mod Laws
pub mod Service
use i_tantra.Base.{
  ℕ, Bool, true, false, not, ◌&&◌, List, [], ◌∷◌, ◌++◌, map, filter, any, nat_beq, Text, text_eq,
  ◌==◌, if◌then◌else◌,
}

pub data ChatMessageStatus : Type 0 where
  sending sent failed received : ChatMessageStatus

pub data ChatMessageDirection : Type 0 where
  outgoing incoming : ChatMessageDirection

pub record ChatMessage : Type 0 where
  pub id : Text
  pub conversation_node_id : Text
  pub sender_node_id : Text
  pub recipient_node_id : Text
  pub text : Text
  pub direction : ChatMessageDirection
  pub status : ChatMessageStatus
  pub time : ℕ

pub record ChatStore : Type 0 where
  pub messages : List ChatMessage
  pub listeners : List ℕ

unfoldable pub publish : ChatStore → List ChatMessage → ChatStore × List ℕ
publish store messages = (record store { messages = messages }, store.listeners)

-- A Set keeps a listener once, in the order in which it was first added.
unfoldable pub subscribe_chat_messages : ChatStore → ℕ → ChatStore
subscribe_chat_messages store listener =
    if any (λ l. nat_beq l listener) store.listeners
    then store
    else record store { listeners = store.listeners ++ listener ∷ [] }

-- The function that a subscription returns.
unfoldable pub unsubscribe : ChatStore → ℕ → ChatStore
unsubscribe store listener = record store {
  listeners = filter (λ l. not (nat_beq l listener)) store.listeners;
}

unfoldable pub get_conversation : ChatStore → Text → List ChatMessage
get_conversation store node_id = filter (λ m. m.conversation_node_id == node_id) store.messages

unfoldable pub add_outgoing_chat_message : ChatStore → ChatMessage → ChatStore × List ℕ
unfolding publish
add_outgoing_chat_message store message = publish store (store.messages ++ message ∷ [])

abbrev pub is_outgoing : ChatMessageDirection → Bool
is_outgoing outgoing = true
is_outgoing incoming = false

unfoldable pub with_status : Text → ChatMessageStatus → ChatMessage → ChatMessage
with_status id status m =
    if m.id == id && is_outgoing m.direction then record m { status = status } else m

-- The caller passes SENT or FAILED.
unfoldable pub set_outgoing_chat_message_status :
    ChatStore → Text → ChatMessageStatus → ChatStore × List ℕ
unfolding publish with_status
set_outgoing_chat_message_status store id status =
    publish store (map (with_status id status) store.messages)

unfoldable pub is_same_incoming : ChatMessage → ChatMessage → Bool
is_same_incoming message existing =
    not (is_outgoing existing.direction)
    && existing.sender_node_id == message.sender_node_id
    && existing.id == message.id

-- The store, the listeners called, and whether the message was added.
unfoldable pub add_incoming_chat_message : ChatStore → ChatMessage → (ChatStore × List ℕ) × Bool
unfolding is_same_incoming publish
add_incoming_chat_message store message =
    if any (is_same_incoming message) store.messages
    then ((store, []), false)
    else (publish store (store.messages ++ message ∷ []), true)

unfoldable pub reset_chat_message_store : ChatStore
reset_chat_message_store = record { messages = []; listeners = [] }
