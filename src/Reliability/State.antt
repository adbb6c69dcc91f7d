-- ===== src/Reliability/State.antt =====
-- Reliable delivery to one peer: src/protocol/ReliabilityTypes.ts and ReliabilityManager.ts.
-- Message objects are shared by the manager and by the retransmissions under way, so they stand in a
-- store and are held by reference. A retransmission that awaits a send is an entry of `loops`. Events
-- and callbacks are outputs: a callback calls the manager again after the method has returned.
use i_tantra.Base.{ℕ, Bool, List, Option, none, some, nat_beq, Text, text_eq, nat_eq, if◌then◌else◌}
use i_tantra.Base.Dict
use i_tantra.Bytes.{Bytes}
use i_tantra.Sequence.{SequenceManager}

abbrev pub max_retries : ℕ
max_retries = 3

abbrev pub pending_expiry_ms : ℕ
pending_expiry_ms = 40000

pub record PendingMessage : Type 0 where
  pub message_id : Text
  pub group_id : ℕ
  pub v6a_packet : Bytes
  pub fragments : List Bytes
  pub payloads : List Bytes
  pub acked : Bool
  pub retry_count : ℕ
  pub last_send_at : ℕ
  pub created_at : ℕ

pub data EventType : Type 0 where
  ack_received nack_received max_retries_reached timeout_retry cancelled : EventType

-- `groupId` and `reason` are optional.
pub record ReliabilityEvent : Type 0 where
  pub event_type : EventType
  pub message_id : Text
  pub group_id : Option ℕ
  pub reason : Option ℕ

-- A retransmission awaiting a send: its message, the generation it was started in, and the payloads
-- still to be sent.
pub record Loop : Type 0 where
  pub message : ℕ
  pub generation : ℕ
  pub rest : List Bytes

-- `objects` is the store, allocated below `next_ref`; `retry_timer` says whether a timeout is pending.
pub record Manager : Type 0 where
  pub objects : ℕ → PendingMessage
  pub next_ref : ℕ
  pub sequences : SequenceManager
  pub active : Option ℕ
  pub queued : Option ℕ
  pub retry_timer : Bool
  pub has_send_fn : Bool
  pub group_messages : List (ℕ × Text)
  pub nack_timestamps : List ℕ
  pub retransmitting : Bool
  pub retransmit_generation : ℕ
  pub loops : List Loop

pub data Output : Type 0 where
  event : ReliabilityEvent → Output
  promoted : ℕ → Output
  sent : Bytes → Output

abbrev pub Outcome : Type 0
Outcome = Manager × List Output

-- Assigning to the object of a reference.
abbrev pub write : ℕ → PendingMessage → (ℕ → PendingMessage) → ℕ → PendingMessage
write r message objects q = if nat_beq r q then message else objects q

-- groupId || undefined
abbrev pub optional_group : ℕ → Option ℕ
optional_group g = if nat_beq g 0 then none else some g

-- if (groupId !== 0) groupIdToMessageId.delete(groupId)
abbrev pub forget : ℕ → List (ℕ × Text) → List (ℕ × Text)
forget g groups = if nat_beq g 0 then groups else Dict.remove g groups

abbrev pub event_of : EventType → PendingMessage → Output
event_of t message = event (record {
  event_type = t;
  message_id = message.message_id;
  group_id = optional_group message.group_id;
  reason = none;
})
