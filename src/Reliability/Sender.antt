-- ===== src/Reliability/Sender.antt =====
-- Sending, acknowledgement and cancellation of src/protocol/ReliabilityManager.ts.
use i_tantra.Base.{
  ℕ, suc, ◌+◌, Bool, true, false, List, [], ◌∷◌, Option, none, some, ltb, Text, text_eq, nat_eq,
  ◌==◌, if◌then◌else◌,
}
use i_tantra.Base.Dict
use i_tantra.Bytes.{Bytes}
use i_tantra.Reliability.State.{
  pending_expiry_ms, PendingMessage, ack_received, cancelled, Manager, Output, event, promoted,
  Outcome, write, forget, event_of,
}

unfoldable pub promote : Option ℕ → ℕ → Manager → Outcome
promote none now m = (m, [])
promote (some q) now m = (
  record m {
    active = some q;
    queued = none;
    objects = write q (record (m.objects q) { retry_count = 0; last_send_at = now }) m.objects;
  },
  promoted q ∷ [],
)

unfoldable pub promote_queued : ℕ → Manager → Outcome
unfolding promote
promote_queued now m = promote m.queued now m

pub record SendParams : Type 0 where
  pub message_id : Text
  pub v6a_packet : Bytes
  pub group_id : ℕ
  pub fragments : List Bytes
  pub payloads : List Bytes

abbrev pub new_message : ℕ → SendParams → PendingMessage
new_message now params = record {
  message_id = params.message_id;
  group_id = params.group_id;
  v6a_packet = params.v6a_packet;
  fragments = params.fragments;
  payloads = params.payloads;
  acked = false;
  retry_count = 0;
  last_send_at = now;
  created_at = now;
}

unfoldable pub send_to : Option ℕ → ℕ → Manager → Manager × Bool
send_to none r m = (record m { active = some r }, true)
send_to (some a) r m = (record m { queued = some r }, false)

-- The new state, and whether the message became active. A message already queued is replaced.
unfoldable pub send : ℕ → SendParams → Manager → Manager × Bool
unfolding send_to
send now params m = send_to m.active m.next_ref (record m {
  objects = write m.next_ref (new_message now params) m.objects;
  next_ref = suc m.next_ref;
})

unfoldable pub frame_sent : Option ℕ → ℕ → Manager → Manager
frame_sent none now m = m
frame_sent (some r) now m = record m {
  objects = write r (record (m.objects r) { last_send_at = now }) m.objects;
  retry_timer = true;
}

unfoldable pub on_frame_sent : ℕ → Manager → Manager
unfolding frame_sent
on_frame_sent now m = frame_sent m.active now m

-- Whether the object of a reference has the given identifier.
abbrev pub is_message : Text → Option ℕ → (ℕ → PendingMessage) → Bool
is_message id none objects = false
is_message id (some r) objects = (objects r).message_id == id

unfoldable pub ack_active : ℕ → ℕ → Manager → Outcome
ack_active now r m =
    let message = m.objects r in
    let acked = record m {
      retry_timer = false;
      objects = write r (record message { acked = true }) m.objects;
      group_messages = forget message.group_id m.group_messages;
    } in
    let (next, outputs) = promote_queued now (record acked { active = none }) in
    if m.retransmitting
    then (acked, event_of ack_received message ∷ [])
    else (next, event_of ack_received message ∷ outputs)

unfoldable pub ack_queued : ℕ → Manager → Manager
ack_queued q m = record m {
  objects = write q (record (m.objects q) { acked = true }) m.objects;
  group_messages = forget (m.objects q).group_id m.group_messages;
  queued = none;
}

unfoldable pub ack_either : Option ℕ → Option ℕ → ℕ → Text → Manager → Outcome
unfolding ack_active ack_queued
ack_either none none now id m = (m, [])
ack_either none (some q) now id m =
    let acked = ack_queued q m in if (m.objects q).message_id == id then (acked, []) else (m, [])
ack_either (some r) none now id m =
    let acked = ack_active now r m in if (m.objects r).message_id == id then acked else (m, [])
ack_either (some r) (some q) now id m =
    let first = ack_active now r m in
    let second = ack_queued q m in
    if (m.objects r).message_id == id
    then first
    else if (m.objects q).message_id == id
    then (second, [])
    else (m, [])

unfoldable pub handle_ack : ℕ → Text → Manager → Outcome
unfolding ack_either
handle_ack now id m = ack_either m.active m.queued now id m

-- if (message?.groupId) groupIdToMessageId.delete(message.groupId)
abbrev pub forget_message : Option ℕ → (ℕ → PendingMessage) → List (ℕ × Text) → List (ℕ × Text)
forget_message none objects groups = groups
forget_message (some r) objects groups = forget (objects r).group_id groups

abbrev pub cancel_event : Option ℕ → (ℕ → PendingMessage) → List Output
cancel_event none objects = []
cancel_event (some r) objects =
    event (record {
      event_type = cancelled;
      message_id = (objects r).message_id;
      group_id = none;
      reason = none;
    })
    ∷ []

unfoldable pub cancel : Manager → Outcome
cancel m = (
  record m {
    retry_timer = false;
    retransmit_generation = suc m.retransmit_generation;
    retransmitting = false;
    group_messages =
        forget_message m.queued m.objects (forget_message m.active m.objects m.group_messages);
    active = none;
    queued = none;
  },
  cancel_event m.active m.objects,
)

unfoldable pub register_group_id : ℕ → Text → Manager → Manager
register_group_id group id m = record m { group_messages = Dict.insert group id m.group_messages }

unfoldable pub is_expired : Option ℕ → ℕ → (ℕ → PendingMessage) → Bool
is_expired none now objects = false
is_expired (some r) now objects = ltb ((objects r).created_at + pending_expiry_ms) now

unfoldable pub cleanup : ℕ → Manager → Outcome
unfolding is_expired
cleanup now m =
    let cancelled_state = cancel m in
    if is_expired m.active now m.objects then cancelled_state else (m, [])
