-- ===== src/Chat/Service/Refused.antt =====
-- When `receiveChatApplicationPayload` of src/messages/ChatMessageService.ts throws.
use i_tantra.Base.{
  ℕ, ◌^◌, ◌<◌, ◌≡◌, ◌≢◌, ◌⊎◌, refl, sym, ap, ◌∙◌, true, false, [], ◌∷◌, some, none, ok, Option,
  nat_beq, ltb, length, Text, arith, Option-cases, Result-cases, Bool-cases, inl, inr,
}
use i_tantra.Base.Int.{pos, negsuc}
use i_tantra.Bytes.{Bytes, byte_at, read_uint64_be}
use i_tantra.Bytes.Laws.{read_uint64_be-lt}
use i_tantra.NodeId.{normalize_uint64, parse_input}
use i_tantra.Semantic.{SemanticMessage, Parsed}
use i_tantra.Semantic
use i_tantra.Message
use i_tantra.Message.{decode_with_fallback, bytes}
use i_tantra.Message.Decode.{decode-id}
use i_tantra.Message.Utf8.{utf8_decode}
use i_tantra.Fragment.{v7_marker}
use i_tantra.Chat.{ChatMessage}
use i_tantra.Chat.Service.{
  Service, ChatDeliveryMeta, ChatTransport, handled, thrown, receive_chat_application_payload,
  encode_chat_application_payload, receive_whole, deliver_semantic, deliver_incoming,
  to_incoming_message,
}
use i_tantra.Chat.Service.Integers.{big_int}
use i_tantra.Chat.Service.Laws.{decode-encode_chat_application_payload, big_int-format}

-- The identifier is no unsigned 64-bit integer, as `BigInt` reads it.
abbrev pub IsRefused : Text → Type 0
IsRefused id = (v : ℕ) → v < 2 ^ 64 → big_int id ≢ some (pos v)

-- `toIncomingMessage` takes the message exactly if its identifier is one.
taken_or_IsRefused :
    (transport : Option ChatTransport) (m : SemanticMessage) (meta : ChatDeliveryMeta) (now : ℕ)
    → ((message : ChatMessage) × (v : ℕ) × (v < 2 ^ 64)
        × (big_int m.message_id ≡ some (pos v))
        × (to_incoming_message transport m meta now ≡ some message))
      ⊎ (IsRefused m.message_id × (to_incoming_message transport m meta now ≡ none))
unfolding to_incoming_message normalize_uint64 parse_input
taken_or_IsRefused transport m meta now = elim (Option-cases (big_int m.message_id)) [
  | inl k ↦ inr (λ v h e. cc, rw (to_incoming_message, k) refl)
  | inr (negsuc n, k) ↦ inr (λ v h e. cc, rw (to_incoming_message, k) refl)
  | inr (pos n, k) ↦ elim (Bool-cases (ltb 18446744073709551615 n)) [
    | inl t ↦ inr (
      λ v h e. let same : n ≡ v = cc in absurd (ground (arith, t, h, same)),
      rw (to_incoming_message, k, t) refl,
    )
    | inr f ↦ elim (Option-cases (to_incoming_message transport m meta now)) [
      | inr (message, h) ↦ inl (message, n, ground (arith, f), k, h)
      | inl h ↦ cc (rw (to_incoming_message, k, f) at h)
    ]
  ]
]

-- What the decoder returns is a V6A message, or one in JSON.
decoded-cases :
    (parse : Text → Option Parsed) (p : Bytes) (m : SemanticMessage)
    → decode_with_fallback parse (bytes p) ≡ some m
    → (Message.decode p ≡ ok m)
      ⊎ ((byte_at p 0 ≡ 0x7b)
          × (s : Text) × (utf8_decode p ≡ ok s)
          × (Semantic.safe_decode parse s ≡ some m))
unfolding decode_with_fallback Message.safe_decode
decoded-cases parse [] m e = cc
decoded-cases parse (b ∷ bs) m e = elim (Bool-cases (nat_beq b 2)) [
  | inl t ↦ elim (Result-cases (Message.decode (b ∷ bs))) [
    | inl (n, k) ↦ inl (k ∙ ap ok (some-injective (rw (t, k) at e)))
    | inr (x, k) ↦ cc (rw (t, k) at e)
  ]
  | inr f ↦ elim (Bool-cases (nat_beq b 0x7b)) [
    | inr g ↦ cc (rw (f, g) at e)
    | inl g ↦ elim (Result-cases (utf8_decode (b ∷ bs))) [
      | inl (s, k) ↦ inr (ground (arith, g), s, k, rw (decode_with_fallback, f, g, k) at e)
      | inr (x, k) ↦ cc (rw (decode_with_fallback, f, g, k) at e)
    ]
  ]
]
  where
    some-injective :
        {x y : SemanticMessage} → ◌≡◌ {A = Option SemanticMessage} (some x) (some y) → x ≡ y
    some-injective h = cc

decoded-json :
    (parse : Text → Option Parsed) (p : Bytes) (m : SemanticMessage) (s : Text)
    → 0 < length p
    → byte_at p 0 ≡ 0x7b
    → utf8_decode p ≡ ok s
    → Semantic.safe_decode parse s ≡ some m
    → decode_with_fallback parse (bytes p) ≡ some m
unfolding decode_with_fallback
decoded-json parse [] m s n h k e = absurd (omega arith)
decoded-json parse (b ∷ bs) m s n h k e =
    let not_v6a : nat_beq b 2 ≡ false = ground (arith, h) in
    let json : nat_beq b 0x7b ≡ true = ground (arith, h) in
    rw (decode_with_fallback, not_v6a, json, k) e

-- A chat payload in JSON, with a message whose identifier is no unsigned 64-bit integer.
abbrev pub IsUnreadable : (Text → Option Parsed) → Bytes → Type 0
IsUnreadable parse p =
    (s : Text) × (m : SemanticMessage) × (byte_at p 0 ≡ 0x7b)
    × (utf8_decode p ≡ ok s)
    × (Semantic.safe_decode parse s ≡ some m)
    × IsRefused m.message_id

module _ (parse : Text → Option Parsed) (service : Service) (meta : ChatDeliveryMeta)
    (now : ℕ) where
  receive_whole-none :
      (p : Bytes)
      → decode_with_fallback parse (bytes p) ≡ none
      → receive_whole parse service p meta now ≡ ((service, []), handled)
  unfolding receive_whole deliver_semantic
  receive_whole-none p d = rw (receive_whole, d) refl

  receive_whole-some :
      (p : Bytes) (m : SemanticMessage) (o : Option ChatMessage)
      → decode_with_fallback parse (bytes p) ≡ some m
      → to_incoming_message service.transport m meta now ≡ o
      → receive_whole parse service p meta now ≡ deliver_incoming service o
  unfolding receive_whole deliver_semantic
  receive_whole-some p m o d h = rw (receive_whole, d) (ap (deliver_incoming service) h)

  receive_whole-unreadable :
      (p : Bytes)
      → 0 < length p
      → IsUnreadable parse p
      → receive_whole parse service p meta now ≡ ((service, []), thrown)
  unfolding deliver_incoming
  receive_whole-unreadable p n (s, m, first, k, j, refused) =
      let d = decoded-json parse p m s n first k j in
      elim (taken_or_IsRefused service.transport m meta now) [
        | inl (message, v, h, e, i) ↦ absurd (refused v h e)
        | inr (r, i) ↦ receive_whole-some p m none d i
      ]

  receive_whole-or :
      (p : Bytes) → (IsUnreadable parse p) ⊎ ((receive_whole parse service p meta now).1 ≡ handled)
  unfolding deliver_incoming
  receive_whole-or p = elim (Option-cases (decode_with_fallback parse (bytes p))) [
    | inl d ↦ inr (ap (λ x. x.1) (receive_whole-none p d))
    | inr (m, d) ↦ elim (taken_or_IsRefused service.transport m meta now) [
      | inl (message, v, h, e, i) ↦ inr (ap (λ x. x.1) (receive_whole-some p m (some message) d i))
      | inr (refused, i) ↦ elim (decoded-cases parse p m d) [
        | inr (first, s, k, j) ↦ inl (s, m, first, k, j, refused)
        | inl k ↦ absurd (
            refused (read_uint64_be p 6) (read_uint64_be-lt p 6) (
              ap big_int (decode-id p m k)
              ∙ big_int-format (read_uint64_be p 6) (read_uint64_be-lt p 6)))
      ]
    ]
  ]

  -- A chat payload that is no fragment is a JSON text with a message whose identifier is no unsigned
  -- 64-bit integer, and the receiver throws, with the service as it was and no listener called; or it
  -- is anything else, a V6A packet for one, and the receiver returns true.
  pub receive-thrown_or :
      (p : Bytes)
      → 0 < length p
      → nat_beq (byte_at p 0) v7_marker ≡ false
      → (IsUnreadable parse p
          × (receive_chat_application_payload parse service
                (encode_chat_application_payload p)
                meta
                now
              ≡ ((service, []), thrown)))
        ⊎ ((¬ IsUnreadable parse p)
            × ((receive_chat_application_payload parse service
                  (encode_chat_application_payload p)
                  meta
                  now).1
                ≡ handled))
  unfolding receive_chat_application_payload
  receive-thrown_or p n f =
      let whole : receive_chat_application_payload parse service (encode_chat_application_payload p)
            meta now
          ≡ receive_whole parse service p meta now =
        rw (receive_chat_application_payload, decode-encode_chat_application_payload p n, f) refl in
      elim (receive_whole-or p) [
        | inl unreadable ↦ inl (unreadable, whole ∙ receive_whole-unreadable p n unreadable)
        | inr returned ↦ inr (
          λ unreadable.
              cc (sym (ap (λ x. x.1) (receive_whole-unreadable p n unreadable)) ∙ returned),
          ap (λ x. x.1) whole ∙ returned,
        )
      ]
