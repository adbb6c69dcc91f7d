-- ===== src/Chat/Service/Receiving.antt =====
-- What `receiveChatApplicationPayload` of src/messages/ChatMessageService.ts makes of a message whose
-- payloads arrive in order.
use i_tantra.Base.{
  ℕ, ◌+◌, ◌^◌, ◌<◌, ◌≤◌, ◌≡◌, refl, ap, ◌∙◌, Bool, true, false, not, List, [], ◌∷◌, map, some, ok,
  Option, length, drop, ltb, nat_beq, All, Text, arith, throw_if-eq-ok, le_of_ltb,
}
use i_tantra.Bytes.{Bytes, byte_at}
use i_tantra.NodeId.Normal.{normalize_uint64-lt}
use i_tantra.NodeId.{format, trim}
use i_tantra.Semantic.{SemanticMessage, Parsed, is_blank, given_or}
use i_tantra.Message
use i_tantra.Message.{
  hash_message_id, build_packet, decode_with_fallback, bytes, get_encoded_byte_length,
}
use i_tantra.Message.Bounds.{hash_message_id-lt}
use i_tantra.Message.Utf8.RoundTrip.{IsUnits}
use i_tantra.Message.RoundTrip.{decode-build_packet, received_of}
use i_tantra.Fragment.{FragmentHeader, FragmentChunk, parse_header, v7_marker}
use i_tantra.Fragment.Split.{Fits}
use i_tantra.Reassembly.{Groups, add_fragment, incomplete, complete}
use i_tantra.Reassembly.Deliveries.{Completes, last, more}
use i_tantra.Chat.{ChatMessage, incoming, received, add_incoming_chat_message}
use i_tantra.Chat.Service.{
  Service, ChatDeliveryMeta, Handling, handled, sender_of, local_or_unknown, to_incoming_message,
  deliver_incoming, deliver_semantic, receive_whole, receive_fragment, receive_result,
  receive_chat_application_payload, encode_chat_application_payload,
}
use i_tantra.Chat.Service.Integers.{big_int}
use i_tantra.Chat.Service.Laws.{decode-encode_chat_application_payload, big_int-format}

-- The service after the payloads have arrived, number `k` at time `clock k`.
abbrev pub receive_each :
    (Text → Option Parsed) → Service → ChatDeliveryMeta → (ℕ → ℕ) → ℕ → List Bytes → Service
receive_each parse service meta clock k [] = service
receive_each parse service meta clock k (b ∷ bs) =
    receive_each parse (receive_chat_application_payload parse service b meta (clock k)).0.0 meta
      clock (k + 1) bs

-- The message that a receiver stores.
abbrev pub incoming_of : Service → ChatDeliveryMeta → ℕ → Text → Text → ChatMessage
incoming_of service meta now id text = record {
  id = id;
  conversation_node_id = sender_of meta;
  sender_node_id = sender_of meta;
  recipient_node_id = given_or meta.destination_node_id (local_or_unknown service.transport);
  text = text;
  direction = incoming;
  status = received;
  time = now;
}

-- The service with the message added.
abbrev pub with_incoming : Service → ChatMessage → Service
with_incoming service message = record service {
  store = (add_incoming_chat_message service.store message).0.0;
}

parse_header-eq-ok :
    (b : Bytes) (h : FragmentHeader)
    → parse_header b ≡ ok h
    → (9 ≤ length b) × (nat_beq (byte_at b 0) v7_marker ≡ true)
unfolding parse_header
parse_header-eq-ok b h e =
    let (e1, r1) = throw_if-eq-ok (ltb (length b) 9) _ _ _ e in
    let (e2, r2) = throw_if-eq-ok (not (nat_beq (byte_at b 0) v7_marker)) _ _ _ r1 in
    (le_of_ltb (length b) 9 e1, of_not (nat_beq (byte_at b 0) v7_marker) e2)
  where
    of_not : (x : Bool) → not x ≡ false → x ≡ true
    of_not x k = ground arith

to_incoming_message-format :
    (service : Service) (m : SemanticMessage) (meta : ChatDeliveryMeta) (now v : ℕ)
    → v < 2 ^ 64
    → m.message_id ≡ format v
    → to_incoming_message service.transport m meta now
      ≡ some (incoming_of service meta now (format v) m.text)
unfolding to_incoming_message
to_incoming_message-format service m meta now v h e =
    rw (to_incoming_message, ap big_int e ∙ big_int-format v h, normalize_uint64-lt v h) refl

decode-first :
    (b : ℕ) (bs : Bytes) (m : SemanticMessage) → Message.decode (b ∷ bs) ≡ ok m → nat_beq b 2 ≡ true
unfolding Message.decode
decode-first b bs m e =
    let (e1, r1) = throw_if-eq-ok (ltb (length (b ∷ bs)) 18) _ _ _ e in
    let (e2, r2) = throw_if-eq-ok (not (nat_beq b 2)) _ _ _ r1 in ground arith

pub decode_with_fallback-decode :
    (parse : Text → Option Parsed) (b : Bytes) (m : SemanticMessage)
    → Message.decode b ≡ ok m
    → decode_with_fallback parse (bytes b) ≡ some m
unfolding decode_with_fallback Message.safe_decode
decode_with_fallback-decode parse [] m e = unfold Message.decode in cc
decode_with_fallback-decode parse (b ∷ bs) m e = rw (decode-first b bs m e) (rw e refl)

module _ (parse : Text → Option Parsed) (meta : ChatDeliveryMeta) where
  -- A wrapped fragment goes to the reassembler.
  receive-fragment :
      (service : Service) (b : Bytes) (h : FragmentHeader) (now : ℕ)
      → parse_header b ≡ ok h
      → receive_chat_application_payload parse service (encode_chat_application_payload b) meta now
        ≡ receive_fragment parse service b meta now
  unfolding receive_chat_application_payload
  receive-fragment service b h now e =
      let (long, marked) = parse_header-eq-ok b h e in
      rw
        (
          receive_chat_application_payload,
          decode-encode_chat_application_payload b (omega arith),
          marked,
        )
        refl

  receive-incomplete :
      (service : Service) (c : FragmentChunk) (m1 : Groups) (now : ℕ)
      → parse_header c.payload ≡ ok c.header
      → add_fragment service.groups (sender_of meta) c.header (drop 9 c.payload) now
        ≡ (m1, incomplete)
      → receive_chat_application_payload parse service
          (encode_chat_application_payload c.payload)
          meta
          now
        ≡ ((record service { groups = m1 }, []), handled)
  unfolding receive_fragment
  receive-incomplete service c m1 now e a =
      receive-fragment service c.payload c.header now e
      ∙ rw (receive_fragment, e, a) (unfold receive_result in refl)

  receive-complete :
      (service : Service) (c : FragmentChunk) (m1 : Groups) (p : Bytes) (now : ℕ)
      → parse_header c.payload ≡ ok c.header
      → add_fragment service.groups (sender_of meta) c.header (drop 9 c.payload) now
        ≡ (m1, complete p)
      → receive_chat_application_payload parse service
          (encode_chat_application_payload c.payload)
          meta
          now
        ≡ receive_whole parse (record service { groups = m1 }) p meta now
  unfolding receive_fragment
  receive-complete service c m1 p now e a =
      receive-fragment service c.payload c.header now e
      ∙ rw (receive_fragment, e, a) (unfold receive_result in refl)

  pub receive_each-Completes :
      (size k : ℕ) (p : Bytes) (m' : Groups) (clock : ℕ → ℕ) (cs : List FragmentChunk)
      (service : Service)
      → All (Fits size) cs
      → Completes (sender_of meta) clock p k service.groups cs m'
      → (n : ℕ) × (receive_each parse service meta clock k
            (map (λ c. encode_chat_application_payload c.payload) cs)
          ≡ (receive_whole parse (record service { groups = m' }) p meta (clock n)).0.0)
  receive_each-Completes size k p m' clock [] service fit done = elim done [ ]
  receive_each-Completes size k p m' clock (c ∷ []) service ((long, e), rest) (last a) =
      (k, ap (λ x. x.0.0) (receive-complete service c m' p (clock k) e a))
  receive_each-Completes size k p m' clock (c ∷ cs) service ((long, e), rest)
        (more {m1 = m1} a done) =
      let (n, h) =
        receive_each-Completes size (k + 1) p m' clock cs (record service { groups = m1 }) rest
          done in
      (
        n,
        ap
              (λ (r : (Service × List ℕ) × Handling).
                receive_each parse r.0.0 meta clock (k + 1)
                  (map (λ c'. encode_chat_application_payload c'.payload) cs))
              (receive-incomplete service c m1 (clock k) e a)
            ∙ h,
      )

  module _ (m : SemanticMessage) (text_given : is_blank (trim m.text) ≡ false) (u : IsUnits m.text)
      (short : get_encoded_byte_length m < 2 ^ 31) where
    -- The packet of a message is stored under the hash of the message's identifier.
    pub receive_whole-build_packet :
        (service : Service) (now : ℕ)
        → receive_whole parse service (build_packet m) meta now
          ≡ deliver_incoming service
              (some (incoming_of service meta now (format (hash_message_id m.message_id)) m.text))
    unfolding receive_whole deliver_semantic
    receive_whole-build_packet service now =
        rw
          (
            receive_whole,
            decode_with_fallback-decode parse (build_packet m) (received_of m)
                (decode-build_packet m text_given u short),
            deliver_semantic,
            to_incoming_message-format service (received_of m) meta now
                (hash_message_id m.message_id) (hash_message_id-lt m.message_id) refl,
          )
          refl
