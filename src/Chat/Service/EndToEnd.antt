-- ===== src/Chat/Service/EndToEnd.antt =====
-- A chat message of src/messages/ChatMessageService.ts, from its sender to a receiver.
use i_tantra.Base.{
  ℕ, ◌%◌, ◌^◌, ◌<◌, ◌≡◌, refl, ap, ◌∙◌, false, List, [], ◌∷◌, map, none, ok, Option, length,
  nat_beq, Text, text_eq, arith, inl, inr,
}
use i_tantra.Base.Dict
use i_tantra.Bytes.{Bytes, byte_at}
use i_tantra.NodeId.{format, trim}
use i_tantra.Semantic.{SemanticMessage, Parsed, is_blank, create_semantic_message}
use i_tantra.Message.{hash_message_id, build_packet, get_encoded_byte_length}
use i_tantra.Message.Utf8.RoundTrip.{IsUnits}
use i_tantra.Message.RoundTrip.{build_packet-layout, validated, length-build_packet}
use i_tantra.Fragment.{v7_marker, FragmentChunk, split_v6a_for_budget, data_bytes_per_fragment}
use i_tantra.Fragment.Split.{split_v6a_for_budget-data}
use i_tantra.Reassembly.{Groups, make_group_key}
use i_tantra.Reassembly.Deliveries.{
  Completes, split_v6a_for_budget-Completes, length-split_v6a_for_budget,
}
use i_tantra.Chat.{ChatMessage}
use i_tantra.Chat.Service.{
  Service, ChatDeliveryMeta, Handling, sender_of, encode_chat_application_payload, deliver_incoming,
  receive_chat_application_payload, receive_whole,
}
use i_tantra.Chat.Service.Laws.{decode-encode_chat_application_payload}
use i_tantra.Chat.Service.Receiving.{
  receive_each, incoming_of, with_incoming, receive_each-Completes, receive_whole-build_packet,
}
use i_tantra.Chat.Service.Sending.{Originate, send_chat_message, chunk_budget, no_overrides}
use i_tantra.Chat.Service.Sent.{payloads, wrapped, send_chat_message-ok}

build_packet-first : (m : SemanticMessage) → nat_beq (byte_at (build_packet m) 0) v7_marker ≡ false
build_packet-first m = rw (build_packet-layout m) refl

length-build_packet-pos : (m : SemanticMessage) → 0 < length (build_packet m)
length-build_packet-pos m = rw (build_packet-layout m) (omega arith)

-- A packet that is sent whole goes to the decoder.
receive-whole :
    (parse : Text → Option Parsed) (meta : ChatDeliveryMeta) (m : SemanticMessage)
    (service : Service) (now : ℕ)
    → receive_chat_application_payload parse service
        (encode_chat_application_payload (build_packet m))
        meta
        now
      ≡ receive_whole parse service (build_packet m) meta now
unfolding receive_chat_application_payload
receive-whole parse meta m service now =
    rw
      (
        receive_chat_application_payload,
        decode-encode_chat_application_payload (build_packet m) (length-build_packet-pos m),
        build_packet-first m,
      )
      refl

wrapped-Completes :
    (s : Text) (clock : ℕ → ℕ) (p : Bytes) (k : ℕ) (g : Groups) (cs : List FragmentChunk)
    (g' : Groups)
    → Completes s clock p k g cs g'
    → wrapped p cs ≡ map (λ c. encode_chat_application_payload c.payload) cs
wrapped-Completes s clock p k g [] g' done = elim done [ ]
wrapped-Completes s clock p k g (c ∷ cs) g' done = refl

-- The parts of a packet, in order, make the receiver store its message.
receive_each-wrapped :
    (parse : Text → Option Parsed) (meta : ChatDeliveryMeta) (clock : ℕ → ℕ) (receiver : Service)
    (m : SemanticMessage) (counter next : ℕ) (cs : List FragmentChunk)
    → is_blank (trim m.text) ≡ false
    → IsUnits m.text
    → split_v6a_for_budget counter (build_packet m) chunk_budget ≡ ok (cs, next)
    → Dict.lookup (make_group_key (sender_of meta) (counter % 2 ^ 32)) receiver.groups ≡ none
    → (groups : Groups) × (n : ℕ) × (receive_each parse receiver meta clock 0
          (wrapped (build_packet m) cs)
        ≡ with_incoming
            (record receiver { groups = groups })
            (incoming_of receiver meta (clock n) (format (hash_message_id m.message_id)) m.text))
unfolding deliver_incoming
receive_each-wrapped parse meta clock receiver m counter next cs given u e new =
    let p = build_packet m in
    let short : get_encoded_byte_length m < 2 ^ 31 = omega (
      arith,
      length-build_packet m,
      length-split_v6a_for_budget counter next chunk_budget p cs e,
    ) in
    let stored = receive_whole-build_packet parse meta m given u short in
    let whole : cs ≡ [] → _ = λ none_left. (
      receiver.groups,
      0,
      rw none_left (
          ap (λ (x : (Service × List ℕ) × Handling). x.0.0)
            (receive-whole parse meta m receiver (clock 0) ∙ stored receiver (clock 0))),
    ) in
    elim (split_v6a_for_budget-data counter chunk_budget p cs next e).3 [
      | inl (fits, none_left) ↦ whole none_left
      | inr (pieces, few, fit) ↦
          elim (split_v6a_for_budget-Completes counter next chunk_budget p cs (sender_of meta) clock
            receiver.groups e (length-build_packet-pos m) new) [
              | inl none_left ↦ whole none_left
              | inr (groups, done) ↦
                  let (n, h) =
                    receive_each-Completes parse meta (data_bytes_per_fragment chunk_budget) 0 p
                      groups clock cs receiver fit done in
                  (
                    groups,
                    n,
                    rw (wrapped-Completes (sender_of meta) clock p 0 receiver.groups cs groups done)
                        (h
                          ∙ ap (λ (x : (Service × List ℕ) × Handling). x.0.0)
                              (stored (record receiver { groups = groups }) (clock n))),
                  )
            ]
    ]

-- A chat message whose text is made of code units, and whose send ends well, is stored by a receiver
-- to which its payloads come in order, under the sender's identifier and with the sender's text,
-- unless it has it already; the receiver is one with no group open for the sender's group number.
-- This is so whether the message was sent whole or in fragments, at whatever times they come, and
-- whatever happens to the sender's service while it waits.
pub receive_each-send_chat_message :
    (originate : Originate) (meanwhile : Service → Service) (sender receiver : Service)
    (message_id destination text : Text) (now : ℕ) (message : ChatMessage)
    (parse : Text → Option Parsed) (meta : ChatDeliveryMeta) (clock : ℕ → ℕ)
    → (send_chat_message originate meanwhile sender message_id destination text now).outcome
      ≡ ok message
    → IsUnits (trim text)
    → Dict.lookup (make_group_key (sender_of meta) (sender.counter % 2 ^ 32)) receiver.groups ≡ none
    → (groups : Groups) × (n : ℕ) × (receive_each parse receiver meta clock 0 (
          payloads
            (send_chat_message originate meanwhile sender message_id destination text now).calls)
        ≡ with_incoming
            (record receiver { groups = groups })
            (incoming_of receiver meta (clock n) message.id message.text))
unfolding create_semantic_message
receive_each-send_chat_message originate meanwhile sender receiver message_id destination text now
      message parse meta clock e u new =
    let (given, same, (cs, next, valid, split, taken, sent_payloads)) =
      send_chat_message-ok originate meanwhile sender message_id destination text now message e in
    let m = create_semantic_message message_id (trim text) no_overrides in
    let (groups, n, h) =
      receive_each-wrapped parse meta clock receiver m sender.counter next cs (validated m valid) u
        split new in
    (
      groups,
      n,
      rw (sent_payloads, ap (λ (x : ChatMessage). x.id) same, ap (λ (x : ChatMessage). x.text) same)
          h,
    )
