-- ===== src/Chat/Service/Sent.antt =====
-- What a `sendChatMessage` of src/messages/ChatMessageService.ts that ends well has done.
use i_tantra.Base.{
  ℕ, zero, suc, ◌+◌, ◌%◌, ◌^◌, ◌≡◌, refl, sym, ap, ◌∙◌, true, false, List, [], ◌∷◌, map, some, none,
  ok, err, Result, Option, length, Text, text_eq, arith, Result-cases, Bool-cases, ok-injective,
  inl, inr,
}
use i_tantra.Bytes.{Bytes}
use i_tantra.NodeId.Normal.{normalize_uint64-lt}
use i_tantra.NodeId.{format, trim}
use i_tantra.Semantic.{SemanticMessage, is_blank, create_semantic_message}
use i_tantra.Message.{hash_message_id, build_packet, encode_unrestricted, validate_semantic_message}
use i_tantra.Fragment.{FragmentChunk, split_v6a_for_budget}
use i_tantra.Chat.{ChatMessage, sent, add_outgoing_chat_message}
use i_tantra.Chat.Service.{Service, can_reach, encode_chat_application_payload}
use i_tantra.Chat.Service.Laws.{compact_message_id-hash}
use i_tantra.Chat.Service.Sending.{
  Call, Originate, Sending, SendError, SendResult, accept, originate_fragments, originate_all,
  transmit, fragment_not_accepted, message_not_accepted, no_route, finish, send_from,
  send_chat_message, chunk_budget, no_overrides, fragment_packet_id, outgoing_message,
}

-- `originate` took every call, number `k` first.
abbrev pub Accepted : Originate → ℕ → List Call → Type 0
Accepted originate k [] = Unit {0}
Accepted originate k (call ∷ calls) =
    ((n : ℕ) × (originate k call ≡ some (suc n))) × Accepted originate (k + 1) calls

abbrev pub payloads : List Call → List Bytes
payloads calls = map (λ call. call.payload) calls

-- A loop that ends well has had its call taken, and goes on.
accept-ok :
    (o : Option ℕ) (error : SendError) (call : Call) (rest : Sending) (calls : List Call)
    → accept o error call rest ≡ (calls, ok tt)
    → ((n : ℕ) × (o ≡ some (suc n))) × (calls ≡ call ∷ rest.0) × (rest.1 ≡ ok tt)
unfolding accept
accept-ok none error call (cs, r) calls e = cc
accept-ok (some zero) error call (cs, r) calls e = cc
accept-ok (some (suc n)) error call (cs, r) calls e =
    ((n, refl), sym (ap (λ (s : Sending). s.0) e), ap (λ (s : Sending). s.1) e)

fragment_packet_id-format :
    (message_id : Text) (i : ℕ)
    → fragment_packet_id message_id i ≡ ok (format ((hash_message_id message_id + i) % 2 ^ 64))
unfolding fragment_packet_id
fragment_packet_id-format message_id i =
    normalize_uint64-lt ((hash_message_id message_id + i) % 2 ^ 64) (omega arith)

originate_fragments-ok :
    (originate : Originate) (k : ℕ) (message_id destination : Text) (total : ℕ)
    (fragments : List FragmentChunk) (calls : List Call)
    → originate_fragments originate k message_id destination total fragments ≡ (calls, ok tt)
    → Accepted originate k calls
      × (payloads calls ≡ map (λ c. encode_chat_application_payload c.payload) fragments)
unfolding originate_fragments
originate_fragments-ok originate k message_id destination total [] calls e =
    let same : [] ≡ calls = ap (λ (s : Sending). s.0) e in rw (← same) (tt, refl)
originate_fragments-ok originate k message_id destination total (c ∷ cs) calls e =
    let id = format ((hash_message_id message_id + c.header.fragment_index) % 2 ^ 64) in
    let call : Call = record {
      payload = encode_chat_application_payload c.payload;
      packet_id = id;
      destination = destination;
      fragment_count = total;
    } in
    let rest = originate_fragments originate (k + 1) message_id destination total cs in
    let (taken, same, well) = accept-ok (originate k call) fragment_not_accepted call rest calls (
      rw (originate_fragments, fragment_packet_id-format message_id c.header.fragment_index) at
        e) in
    let (all_taken, same_payloads) =
      originate_fragments-ok originate (k + 1) message_id destination total cs rest.0
        (ap (λ (r : Result SendError (Unit {0})). (rest.0, r)) well) in
    rw same
      ((taken, all_taken), ap (λ l. encode_chat_application_payload c.payload ∷ l) same_payloads)

-- The payloads of a packet that is sent whole, or in fragments.
abbrev pub wrapped : Bytes → List FragmentChunk → List Bytes
wrapped p [] = encode_chat_application_payload p ∷ []
wrapped p (c ∷ cs) = map (λ c'. encode_chat_application_payload c'.payload) (c ∷ cs)

originate_all-ok :
    (originate : Originate) (message_id compact_id destination : Text) (p : Bytes)
    (cs : List FragmentChunk) (calls : List Call)
    → originate_all originate message_id compact_id destination p cs ≡ (calls, ok tt)
    → Accepted originate 0 calls × (payloads calls ≡ wrapped p cs)
unfolding originate_all
originate_all-ok originate message_id compact_id destination p [] calls e =
    let call : Call = record {
      payload = encode_chat_application_payload p;
      packet_id = compact_id;
      destination = destination;
      fragment_count = 1;
    } in
    let (taken, same, well) =
      accept-ok (originate 0 call) message_not_accepted call ([], ok tt) calls e in
    rw same ((taken, tt), refl)
originate_all-ok originate message_id compact_id destination p (c ∷ cs) calls e =
    originate_fragments-ok originate 0 message_id destination (length (c ∷ cs)) (c ∷ cs) calls e

-- A message was transmitted: it is valid, and its packet was split into these fragments, all taken.
abbrev pub Transmitted : Originate → ℕ → SemanticMessage → List Call → Type 0
Transmitted originate counter m calls =
    (cs : List FragmentChunk) × (next : ℕ) × (validate_semantic_message m ≡ ok tt)
    × (split_v6a_for_budget counter (build_packet m) chunk_budget ≡ ok (cs, next))
    × Accepted originate 0 calls
    × (payloads calls ≡ wrapped (build_packet m) cs)

encode_unrestricted-ok :
    (m : SemanticMessage) (p : Bytes)
    → encode_unrestricted m ≡ ok p
    → (validate_semantic_message m ≡ ok tt) × (p ≡ build_packet m)
unfolding encode_unrestricted
encode_unrestricted-ok m p e = elim (Result-cases (validate_semantic_message m)) [
  | inl (u, h) ↦ (h, sym (ok-injective (rw h at e)))
  | inr (x, h) ↦ cc (rw h at e)
]

transmit-ok :
    (originate : Originate) (counter next : ℕ) (m : SemanticMessage) (id destination : Text)
    (calls : List Call)
    → transmit originate counter m id destination ≡ ((calls, ok tt), next)
    → Transmitted originate counter m calls
unfolding transmit
transmit-ok originate counter next m id destination calls e =
    elim (Result-cases (encode_unrestricted m)) [
      | inr (x, h) ↦ cc (rw (transmit, h) at e)
      | inl (p, h) ↦
          let (valid, same) = encode_unrestricted-ok m p h in
          elim (Result-cases (split_v6a_for_budget counter p chunk_budget)) [
            | inr (x, k) ↦ cc (rw (transmit, h, k) at e)
            | inl ((cs, after), k) ↦
                let (taken, given) =
                  originate_all-ok originate m.message_id id destination p cs calls
                    (ap (λ (x : Sending × ℕ). x.0) (rw (transmit, h, k) at e)) in
                (cs, after, valid, rw same at k, taken, rw same at given)
          ]
    ]

finish-ok :
    (service : Service) (called : List ℕ) (message m : ChatMessage) (calls : List Call)
    (r : Result SendError (Unit {0}))
    → (finish service called message calls r).outcome ≡ ok m
    → (r ≡ ok tt)
      × (m ≡ record message { status = sent })
      × ((finish service called message calls r).calls ≡ calls)
unfolding finish
finish-ok service called message m calls (ok u) e = (refl, sym (ok-injective e), refl)
finish-ok service called message m calls (err x) e = cc

abbrev pub transmission : Originate → Service → SemanticMessage → ChatMessage → Sending × ℕ
transmission originate service semantic message =
    transmit originate service.counter semantic message.id message.recipient_node_id

-- With a route, the send ends the way the transmission does.
send_from-routed :
    (originate : Originate) (meanwhile : Service → Service) (service : Service)
    (semantic : SemanticMessage) (message : ChatMessage)
    → can_reach service.transport message.recipient_node_id ≡ true
    → send_from originate meanwhile service semantic message ≡ (
        let (store, called) = add_outgoing_chat_message service.store message in
        let r = transmission originate service semantic message in
        finish
          (meanwhile (record service { store = store; counter = r.1 }))
          called
          message
          r.0.0
          r.0.1)
unfolding send_from
send_from-routed originate meanwhile service semantic message h = rw (send_from, h) refl

send_from-unrouted :
    (originate : Originate) (meanwhile : Service → Service) (service : Service)
    (semantic : SemanticMessage) (message : ChatMessage)
    → can_reach service.transport message.recipient_node_id ≡ false
    → (send_from originate meanwhile service semantic message).outcome ≡ err no_route
unfolding send_from finish
send_from-unrouted originate meanwhile service semantic message h = rw (send_from, h) refl

send_from-ok :
    (originate : Originate) (meanwhile : Service → Service) (service : Service)
    (semantic : SemanticMessage) (message m : ChatMessage)
    → (send_from originate meanwhile service semantic message).outcome ≡ ok m
    → (m ≡ record message { status = sent })
      × Transmitted originate service.counter semantic
          (send_from originate meanwhile service semantic message).calls
send_from-ok originate meanwhile service semantic message m e =
    elim (Bool-cases (can_reach service.transport message.recipient_node_id)) [
      | inr f ↦ cc (sym (send_from-unrouted originate meanwhile service semantic message f) ∙ e)
      | inl t ↦
          let routed = send_from-routed originate meanwhile service semantic message t in
          let r = transmission originate service semantic message in
          let (well, same, same_calls) =
            finish-ok _ _ message m r.0.0 r.0.1
              (sym (ap (λ (x : SendResult). x.outcome) routed) ∙ e) in
          (
            same,
            rw (ap (λ (x : SendResult). x.calls) routed ∙ same_calls) (
                transmit-ok originate service.counter r.1 semantic message.id
                  message.recipient_node_id r.0.0
                  (ap (λ (x : Result SendError (Unit {0})). ((r.0.0, x), r.1)) well)),
          )
    ]

-- A send that ends well had a text that is not blank; its message carries the trimmed text under the
-- hash of the generated identifier, and every packet of the message was taken by some peer.
pub send_chat_message-ok :
    (originate : Originate) (meanwhile : Service → Service) (service : Service)
    (message_id destination text : Text) (now : ℕ) (m : ChatMessage)
    → (send_chat_message originate meanwhile service message_id destination text now).outcome ≡ ok m
    → (is_blank (trim text) ≡ false)
      × (m
          ≡ record (outgoing_message service.transport
              (format (hash_message_id message_id))
              destination
              (trim text)
              now) { status = sent })
      × Transmitted originate service.counter
          (create_semantic_message message_id (trim text) no_overrides)
          (send_chat_message originate meanwhile service message_id destination text now).calls
unfolding send_chat_message
send_chat_message-ok originate meanwhile service message_id destination text now m e =
    elim (Bool-cases (is_blank (trim text))) [
      | inl t ↦ cc (rw (send_chat_message, t) at e)
      | inr f ↦
          let (same, done) =
            send_from-ok originate meanwhile service
              (create_semantic_message message_id (trim text) no_overrides)
              (outgoing_message service.transport (format (hash_message_id message_id)) destination
                (trim text) now)
              m (rw (send_chat_message, f, compact_message_id-hash message_id) at e) in
          (f, same, rw (send_chat_message, f, compact_message_id-hash message_id) done)
    ]
