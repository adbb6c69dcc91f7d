-- ===== src/Tests/Reliable.antt =====
-- The reliability manager at concrete inputs.
use i_tantra.Base.{
  ◌*◌, ◌+◌, ℕ, ◌≤◌, ◌<◌, ◌≡◌, ◌≢◌, refl, true, false, ◌||◌, List, [], ◌∷◌, some, ok, get_elem?,
  codes, text_eq, arith,
}
use i_tantra.Bytes.{Bytes}
use i_tantra.Frame
use i_tantra.Frame.{contains, v6b_frame_v6a_message}
use i_tantra.Sequence.{next_sequence}
use i_tantra.Reliability.State.{Loop, Manager, sent, Outcome}
use i_tantra.Reliability.Sender.{SendParams, send, on_frame_sent}
use i_tantra.Reliability.Retransmit.{handle_timeout, retry, retransmit, count_retry, run_loop}
use i_tantra.Reliability.System.{
  new_reliability_manager, perform, send_message, frames_sent, timer_fires, Reach, start, later,
  step, resume,
}
use i_tantra.Reliability.Invariant.Loops.{bit, current}
use i_tantra.Reliability.Waiting.Calls.{Reach-current, Reach-queued, Reach-bounded, Reach-waits}
use i_tantra.Reliability.Rounds.{rounds}
use i_tantra.Reliability.Frames.{resume-sends}

-- A message in two fragments, and one in a single frame.
abbrev long_message : SendParams
long_message = record {
  message_id = codes "a";
  v6a_packet = 1 ∷ 2 ∷ [];
  group_id = 7;
  fragments = (1 ∷ []) ∷ (2 ∷ []) ∷ [];
  payloads = (1 ∷ []) ∷ (2 ∷ []) ∷ [];
}

abbrev short_message : SendParams
short_message = record {
  message_id = codes "b";
  v6a_packet = 3 ∷ [];
  group_id = 0;
  fragments = [];
  payloads = [];
}

abbrev fresh_manager : Manager
fresh_manager = new_reliability_manager true (record { counter = 0 })

abbrev after_send : Manager
after_send = (perform 0 (send_message long_message) fresh_manager).0

abbrev after_frames : Manager
after_frames = (perform 1 frames_sent after_send).0

-- The first timeout: the first fragment is sent again.
abbrev after_timeout : Manager
after_timeout = (perform 2001 timer_fires after_frames).0

abbrev with_queued : Manager
with_queued = (perform 2002 (send_message short_message) after_timeout).0

reached : Reach true with_queued
reached =
    later
      (later
        (later (later (start (record { counter = 0 })) (step 0 (send_message long_message)))
          (step 1 frames_sent))
        (step 2001 timer_fires))
      (step 2002 (send_message short_message))

active_is : with_queued.active ≡ some 0
unfolding perform send on_frame_sent handle_timeout retry retransmit count_retry run_loop
    next_sequence Frame.encode contains
active_is = refl

queued_is : with_queued.queued ≡ some 1
unfolding perform send on_frame_sent handle_timeout retry retransmit count_retry run_loop
    next_sequence Frame.encode contains
queued_is = refl

retried_once : 0 < (with_queued.objects 0).retry_count
unfolding perform send on_frame_sent handle_timeout retry retransmit count_retry run_loop
    next_sequence Frame.encode contains
retried_once = omega arith

can_send : with_queued.has_send_fn ≡ true
unfolding perform send on_frame_sent handle_timeout retry retransmit count_retry run_loop
    next_sequence Frame.encode contains
can_send = refl

Reach-current_example :
    current with_queued.retransmit_generation with_queued.loops ≡ bit with_queued.retransmitting
Reach-current_example = Reach-current reached

Reach-queued_example :
    (r : ℕ) × (with_queued.active ≡ some r) × (r ≢ 1) × ((with_queued.objects 1).acked ≡ false)
Reach-queued_example = Reach-queued reached queued_is

Reach-bounded_example : (with_queued.objects 0).retry_count ≤ 3
Reach-bounded_example = Reach-bounded reached active_is

Reach-waits_example : (with_queued.retry_timer || with_queued.retransmitting) ≡ true
Reach-waits_example = Reach-waits reached active_is retried_once can_send

-- The frame of the second fragment, under the sequence number 1.
abbrev second_frame : Bytes
second_frame = 3 ∷ 1 ∷ 0 ∷ 0 ∷ 0 ∷ 1 ∷ 0 ∷ 0 ∷ 0 ∷ 1 ∷ 2 ∷ []

second_sent : (resume 2003 true 0 with_queued).1 ≡ sent second_frame ∷ []
unfolding resume perform send on_frame_sent handle_timeout retry retransmit count_retry run_loop
    next_sequence Frame.encode contains
second_sent = refl

resume-sends_example :
    (l : Loop) × (p : Bytes) × (ps : List Bytes) × (get_elem? with_queued.loops 0 ≡ some l)
    × (l.rest ≡ p ∷ ps)
    × (with_queued.active ≡ some l.message)
    × ((with_queued.objects l.message).acked ≡ false)
    × (Frame.encode (next_sequence with_queued.sequences).1 v6b_frame_v6a_message p
        ≡ ok second_frame)
resume-sends_example = resume-sends 2003 0 true second_frame reached second_sent

-- The short message, sent and on its way.
abbrev on_its_way : Manager
on_its_way =
    (perform 2 frames_sent
      (perform 1 (send_message short_message)
        (new_reliability_manager true (record { counter = 0 }))).0).0

abbrev every_second : ℕ → ℕ → ℕ
every_second j k = 1000 * j + k

abbrev three_rounds : Outcome
three_rounds = rounds every_second ((3 ∷ []) ∷ []) 3 on_its_way

-- Six calls within a second.
abbrev six_calls : List ℕ
six_calls = 0 ∷ 1 ∷ 2 ∷ 3 ∷ 4 ∷ 900 ∷ []
