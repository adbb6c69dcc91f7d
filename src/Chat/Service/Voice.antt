-- ===== src/Chat/Service/Voice.antt =====
-- What `receiveChatApplicationPayload` of src/messages/ChatMessageService.ts leaves to the voice
-- pipeline.
use i_tantra.Base.{
  ℕ, ◌<◌, ◌≡◌, ◌≢◌, ◌⊎◌, refl, sym, ap, ◌∙◌, [], ◌∷◌, some, none, Option, nat_beq, length, Text,
  arith, Option-cases, Result-cases, Bool-cases, inl, inr,
}
use i_tantra.Bytes.{Bytes, byte_at}
use i_tantra.Semantic.{SemanticMessage, Parsed}
use i_tantra.Fragment.{v7_marker, parse_header}
use i_tantra.Reassembly.{Groups, ReassemblyResult, incomplete, complete, error}
use i_tantra.Chat.{ChatMessage}
use i_tantra.Chat.Service.{
  Service, ChatDeliveryMeta, not_chat, decode_chat_application_payload, has_magic,
  receive_chat_application_payload, receive_whole, receive_result, receive_fragment,
  deliver_semantic, deliver_incoming,
}
use i_tantra.Chat.Service.Laws.{
  decode-encode_chat_application_payload, encode_chat_application_payload-layout,
}

-- The payload is the discriminator and something behind it.
abbrev pub IsChat : Bytes → Type 0
IsChat payload = (p : Bytes) × (0 < length p) × (payload ≡ 0x49 ∷ 0x54 ∷ 0x43 ∷ 0x01 ∷ p)

unwrapped : (payload p : Bytes) → decode_chat_application_payload payload ≡ some p → IsChat payload
unfolding decode_chat_application_payload has_magic
unwrapped [] p e = absurd (ground (arith, e))
unwrapped (a ∷ []) p e = absurd (ground (arith, e))
unwrapped (a ∷ b ∷ []) p e = absurd (ground (arith, e))
unwrapped (a ∷ b ∷ c ∷ []) p e = absurd (ground (arith, e))
unwrapped (a ∷ b ∷ c ∷ d ∷ []) p e = absurd (ground (arith, e))
unwrapped (a ∷ b ∷ c ∷ d ∷ x ∷ xs) p e =
    let first : a ≡ 0x49 = ground (arith, e) in
    let second : b ≡ 0x54 = ground (arith, e) in
    let third : c ≡ 0x43 = ground (arith, e) in
    let fourth : d ≡ 0x01 = ground (arith, e) in
    (x ∷ xs, omega arith, rw (first, second, third, fourth) refl)

IsChat-unwrapped :
    (payload : Bytes)
    → IsChat payload
    → (p : Bytes) × (decode_chat_application_payload payload ≡ some p)
IsChat-unwrapped payload (p, h, e) = (
  p,
  ap decode_chat_application_payload (e ∙ sym (encode_chat_application_payload-layout p))
      ∙ decode-encode_chat_application_payload p h,
)

deliver_incoming-chat :
    (service : Service) (o : Option ChatMessage) → (deliver_incoming service o).1 ≢ not_chat
unfolding deliver_incoming
deliver_incoming-chat service none e = cc
deliver_incoming-chat service (some m) e = cc

deliver_semantic-chat :
    (service : Service) (o : Option SemanticMessage) (meta : ChatDeliveryMeta) (now : ℕ)
    → (deliver_semantic service o meta now).1 ≢ not_chat
unfolding deliver_semantic
deliver_semantic-chat service none meta now e = cc
deliver_semantic-chat service (some m) meta now e = deliver_incoming-chat service _ e

module _ (parse : Text → Option Parsed) (meta : ChatDeliveryMeta) (now : ℕ) where
  receive_whole-chat :
      (service : Service) (p : Bytes) → (receive_whole parse service p meta now).1 ≢ not_chat
  unfolding receive_whole
  receive_whole-chat service p e = deliver_semantic-chat service _ meta now e

  receive_result-chat :
      (service : Service) (r : Groups × ReassemblyResult)
      → (receive_result parse service r meta now).1 ≢ not_chat
  unfolding receive_result
  receive_result-chat service (groups, incomplete) e = cc
  receive_result-chat service (groups, error reason) e = cc
  receive_result-chat service (groups, complete p) e = receive_whole-chat _ p e

  receive_fragment-chat :
      (service : Service) (p : Bytes) → (receive_fragment parse service p meta now).1 ≢ not_chat
  unfolding receive_fragment
  receive_fragment-chat service p e = elim (Result-cases (parse_header p)) [
    | inl (h, k) ↦ receive_result-chat service _ (rw (receive_fragment, k) at e)
    | inr (x, k) ↦ cc (rw (receive_fragment, k) at e)
  ]

  unwrapped-chat :
      (service : Service) (payload p : Bytes)
      → decode_chat_application_payload payload ≡ some p
      → (receive_chat_application_payload parse service payload meta now).1 ≢ not_chat
  unfolding receive_chat_application_payload
  unwrapped-chat service payload p k e = elim (Bool-cases (nat_beq (byte_at p 0) v7_marker)) [
    | inl t ↦ receive_fragment-chat service p (rw (receive_chat_application_payload, k, t) at e)
    | inr f ↦ receive_whole-chat service p (rw (receive_chat_application_payload, k, f) at e)
  ]

  -- A payload is the four bytes of the discriminator with something behind them, and it is handled as
  -- chat; or it is anything else, and it is left to the voice pipeline, with the service as it was and
  -- no listener called.
  pub receive-not_chat_or :
      (service : Service) (payload : Bytes)
      → (IsChat payload
          × ((receive_chat_application_payload parse service payload meta now).1 ≢ not_chat))
        ⊎ ((¬ IsChat payload)
            × (receive_chat_application_payload parse service payload meta now
                ≡ ((service, []), not_chat)))
  unfolding receive_chat_application_payload
  receive-not_chat_or service payload =
      elim (Option-cases (decode_chat_application_payload payload)) [
        | inr (p, k) ↦ inl (unwrapped payload p k, unwrapped-chat service payload p k)
        | inl k ↦ inr (
          λ chat. let (p, h) = IsChat-unwrapped payload chat in cc,
          rw (receive_chat_application_payload, k) refl,
        )
      ]
