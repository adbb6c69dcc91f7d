-- ===== src/Chat/Laws.antt =====
-- Laws of src/messages/ChatMessageStore.ts.
use i_tantra.Base.{
  ◌≡◌, refl, ◌∙◌, Bool, true, false, ◌&&◌, List, [], ◌∷◌, ◌++◌, map, any, Text, text_eq,
  text_beq_iff, ◌==◌, Bool-cases, inl, inr, arith,
}
use i_tantra.Chat.{
  ChatMessage, ChatMessageStatus, ChatStore, is_outgoing, is_same_incoming, publish, with_status,
  set_outgoing_chat_message_status, add_incoming_chat_message,
}

any-append-last :
    (q : ChatMessage → Bool) (ms : List ChatMessage) (m : ChatMessage)
    → q m ≡ true
    → any q (ms ++ m ∷ []) ≡ true
unfolding any
any-append-last q [] m h = rw h refl
any-append-last q (x ∷ ms) m h = elim (Bool-cases (q x)) [
  | inl t ↦ rw t refl
  | inr f ↦ rw f (any-append-last q ms m h)
]

-- An incoming message of the same sender and id.
abbrev pub holds_incoming : ChatStore → ChatMessage → Bool
holds_incoming store message = any (is_same_incoming message) store.messages

any-with_status :
    (message : ChatMessage) (id : Text) (status : ChatMessageStatus) (ms : List ChatMessage)
    → any (is_same_incoming message) (map (with_status id status) ms)
      ≡ any (is_same_incoming message) ms
unfolding any with_status is_same_incoming
any-with_status message id status [] = refl
any-with_status message id status (m ∷ ms) =
    elim (Bool-cases (m.id == id && is_outgoing m.direction)) [
      | inl t ↦ rw t (ground (arith, any-with_status message id status ms))
      | inr f ↦ rw f (ground (arith, any-with_status message id status ms))
    ]

same_incoming_self :
    (m : ChatMessage) → is_outgoing m.direction ≡ false → is_same_incoming m m ≡ true
unfolding is_same_incoming
same_incoming_self m h =
    rw (h, (text_beq_iff m.sender_node_id m.sender_node_id).1 refl, (text_beq_iff m.id m.id).1 refl)
      refl

added_present :
    (store : ChatStore) (m : ChatMessage)
    → is_outgoing m.direction ≡ false
    → holds_incoming (add_incoming_chat_message store m).0.0 m ≡ true
unfolding add_incoming_chat_message publish
added_present store m h = elim (Bool-cases (any (is_same_incoming m) store.messages)) [
  | inl t ↦ rw t t
  | inr f ↦ rw f (any-append-last (is_same_incoming m) store.messages m (same_incoming_self m h))
]

refused :
    (store : ChatStore) (m : ChatMessage)
    → holds_incoming store m ≡ true
    → add_incoming_chat_message store m ≡ ((store, []), false)
unfolding add_incoming_chat_message
refused store m h = rw h refl

-- An incoming message that was added is refused when it comes again, even if the status of some sent
-- message was changed in between: nothing is published, no listener is called.
pub add_incoming_chat_message_twice :
    (store : ChatStore) (m : ChatMessage) (id : Text) (status : ChatMessageStatus)
    → is_outgoing m.direction ≡ false
    → add_incoming_chat_message
        (set_outgoing_chat_message_status (add_incoming_chat_message store m).0.0 id status).0
        m
      ≡ (
        (
          (set_outgoing_chat_message_status (add_incoming_chat_message store m).0.0 id status).0,
          [],
        ),
        false,
      )
add_incoming_chat_message_twice store m id status h =
    let once = (add_incoming_chat_message store m).0.0 in
    refused (set_outgoing_chat_message_status once id status).0 m (
      unfold set_outgoing_chat_message_status publish in
      any-with_status m id status once.messages ∙ added_present store m h)
