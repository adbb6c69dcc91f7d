-- ===== src/Reliability/System.antt =====
-- The manager of src/protocol/ReliabilityManager.ts with its timer and its awaited sends, step by step.
use i_tantra.Base.{
  ℕ, zero, suc, Bool, true, false, List, [], ◌∷◌, Option, none, some, get_elem?, Text,
  if◌then◌else◌,
}
use i_tantra.Sequence.{SequenceManager, next_sequence}
use i_tantra.Reliability.State.{PendingMessage, Loop, Manager, Outcome}
use i_tantra.Reliability.Sender.{
  SendParams, send, on_frame_sent, handle_ack, cancel, cleanup, register_group_id,
}
use i_tantra.Reliability.Retransmit.{handle_nack, handle_timeout, run_loop, finish}

abbrev pub no_message : PendingMessage
no_message = record {
  message_id = [];
  group_id = 0;
  v6a_packet = [];
  fragments = [];
  payloads = [];
  acked = false;
  retry_count = 0;
  last_send_at = 0;
  created_at = 0;
}

-- A new manager over a sequence manager, with or without a function that sends.
abbrev pub new_reliability_manager : Bool → SequenceManager → Manager
new_reliability_manager has_send_fn sequences = record {
  objects = λ r. no_message;
  next_ref = 0;
  sequences = sequences;
  active = none;
  queued = none;
  retry_timer = false;
  has_send_fn = has_send_fn;
  group_messages = [];
  nack_timestamps = [];
  retransmitting = false;
  retransmit_generation = 0;
  loops = [];
}

-- The list without its element at the index.
abbrev pub remove_at : List Loop → ℕ → List Loop
remove_at [] i = []
remove_at (x ∷ xs) zero = xs
remove_at (x ∷ xs) (suc i) = x ∷ remove_at xs i

unfoldable pub resume_loop : Option Loop → Bool → ℕ → ℕ → Manager → Outcome
resume_loop none delivered i now m = (m, [])
resume_loop (some l) true i now m =
    run_loop now l.message l.generation l.rest (record m { loops = remove_at m.loops i })
resume_loop (some l) false i now m =
    finish now l.message l.generation (record m { loops = remove_at m.loops i })

-- The send that a loop awaits is done, or has failed: the loop goes on.
unfoldable pub resume : ℕ → Bool → ℕ → Manager → Outcome
unfolding resume_loop
resume now delivered i m = resume_loop (get_elem? m.loops i) delivered i now m

-- What can happen to a manager. The sequence numbers are shared with other senders.
pub data Action : Type 0 where
  send_message : SendParams → Action
  frames_sent : Action
  ack_arrives : Text → Action
  nack_arrives : ℕ → ℕ → Action
  timer_fires : Action
  send_ends : Bool → ℕ → Action
  cancel_all : Action
  clean_up : Action
  register_group : ℕ → Text → Action
  sequence_drawn : Action

unfoldable pub perform : ℕ → Action → Manager → Outcome
perform now (send_message params) m = ((send now params m).0, [])
perform now frames_sent m = (on_frame_sent now m, [])
perform now (ack_arrives id) m = handle_ack now id m
perform now (nack_arrives group reason) m = handle_nack now group reason m
perform now timer_fires m =
    let fired = handle_timeout now (record m { retry_timer = false }) in
    if m.retry_timer then fired else (m, [])
perform now (send_ends delivered i) m = resume now delivered i m
perform now cancel_all m = cancel m
perform now clean_up m = cleanup now m
perform now (register_group group id) m = (register_group_id group id m, [])
perform now sequence_drawn m = (record m { sequences = (next_sequence m.sequences).0 }, [])

pub data Step (m : Manager) : Manager → Type 0 where
  step : (now : ℕ) (a : Action) → Step m (perform now a m).0

pub data Reach (has_send_fn : Bool) : Manager → Type 0 where
  start :
      (sequences : SequenceManager)
      → Reach has_send_fn (new_reliability_manager has_send_fn sequences)
  later : {m n : Manager} → Reach has_send_fn m → Step m n → Reach has_send_fn n
