-- ===== src/Reliability/Retransmit.antt =====
-- Retransmission on a NACK or a timeout: src/protocol/ReliabilityManager.ts.
use i_tantra.Base.{
  ℕ, suc, true, false, not, ◌||◌, List, [], ◌∷◌, ◌++◌, Option, none, some, Result, ok, err, ltb,
  nat_beq, Text, text_eq, nat_eq, ◌==◌, if◌then◌else◌,
}
use i_tantra.Base.Dict
use i_tantra.Bytes.{Bytes}
use i_tantra.Frame.{v6b_frame_v6a_message}
use i_tantra.Frame
use i_tantra.Semantic.{is_blank}
use i_tantra.Sequence.{next_sequence}
use i_tantra.Reliability.State.{
  max_retries, PendingMessage, nack_received, max_retries_reached, timeout_retry, Manager, Output,
  event, sent, Outcome, write, forget, event_of,
}
use i_tantra.Reliability.Sender.{promote_queued, is_message}

-- this.active.retryCount++; this.active.lastSendAt = now
unfoldable pub count_retry : ℕ → ℕ → Manager → Manager
count_retry now r m =
    let message = m.objects r in
    record m {
      objects =
          write r (record message { retry_count = suc message.retry_count; last_send_at = now })
            m.objects;
    }

-- The retries of the active message are used up.
unfoldable pub give_up : ℕ → ℕ → Manager → Outcome
give_up now r m =
    let message = m.objects r in
    let (next, outputs) = promote_queued now (record m {
      retransmit_generation = suc m.retransmit_generation;
      retransmitting = false;
      group_messages = forget message.group_id m.group_messages;
      active = none;
    }) in
    (next, event_of max_retries_reached message ∷ outputs)

-- The end of a retransmission, which does nothing for a stale one.
unfoldable pub finish : ℕ → ℕ → ℕ → Manager → Outcome
finish now r generation m =
    let ended = record m { retransmitting = false } in
    let next = promote_queued now (record ended { active = none }) in
    if not (nat_beq m.retransmit_generation generation)
    then (m, [])
    else if (m.objects r).acked
    then next
    else if is_message (m.objects r).message_id m.active m.objects
    then (record ended { retry_timer = true }, [])
    else (ended, [])

-- A frame that is refused by the codec throws, and the loop ends.
unfoldable pub send_frame :
    Result Frame.FrameError Bytes → ℕ → ℕ → ℕ → List Bytes → Manager → Outcome
send_frame (err e) now r generation ps m = finish now r generation m
send_frame (ok frame) now r generation ps m = (
  record m { loops = m.loops ++ record { message = r; generation = generation; rest = ps } ∷ [] },
  sent frame ∷ [],
)

-- The loop up to its next send.
unfoldable pub run_loop : ℕ → ℕ → ℕ → List Bytes → Manager → Outcome
unfolding send_frame
run_loop now r generation [] m = finish now r generation m
run_loop now r generation (p ∷ ps) m =
    let (sequences, sequence) = next_sequence m.sequences in
    let ended = finish now r generation m in
    let next =
      send_frame (Frame.encode sequence v6b_frame_v6a_message p) now r generation ps
        (record m { sequences = sequences }) in
    if not (nat_beq m.retransmit_generation generation) || (m.objects r).acked then ended else next

-- The payloads of the frames: the packet itself when there are no fragments.
abbrev pub to_send : PendingMessage → List Bytes
to_send message = elim message.fragments [
  | [] ↦ message.v6a_packet ∷ []
  | f ∷ fs ↦ message.payloads
]

unfoldable pub retransmit_active : Option ℕ → ℕ → Manager → Outcome
retransmit_active none now m = (m, [])
retransmit_active (some r) now m =
    let generation = suc m.retransmit_generation in
    let started =
      run_loop now r generation (to_send (m.objects r))
        (record m { retransmitting = true; retransmit_generation = generation }) in
    if not m.has_send_fn || m.retransmitting then (m, []) else started

unfoldable pub retransmit : ℕ → Manager → Outcome
unfolding retransmit_active
retransmit now m = retransmit_active m.active now m

-- After a retry is counted: give up, or emit `notice` and retransmit.
unfoldable pub retry : ℕ → ℕ → (PendingMessage → Output) → Manager → Outcome
retry now r notice m =
    let counted = count_retry now r m in
    let failed = give_up now r counted in
    let (next, outputs) = retransmit now counted in
    if ltb max_retries (counted.objects r).retry_count
    then failed
    else (next, notice (counted.objects r) ∷ outputs)

abbrev pub nack_event : ℕ → ℕ → PendingMessage → Output
nack_event group reason message = event (record {
  event_type = nack_received;
  message_id = message.message_id;
  group_id = some group;
  reason = some reason;
})

unfoldable pub nack_message : Option Text → Option ℕ → ℕ → ℕ → ℕ → Manager → Outcome
nack_message none a now group reason m = (m, [])
nack_message (some id) none now group reason m = (m, [])
nack_message (some id) (some r) now group reason m =
    let retried = retry now r (nack_event group reason) (record m { retry_timer = false }) in
    if is_blank id || not ((m.objects r).message_id == id) then (m, []) else retried

unfoldable pub handle_nack : ℕ → ℕ → ℕ → Manager → Outcome
unfolding nack_message
handle_nack now group reason m =
    nack_message (Dict.lookup group m.group_messages) m.active now group reason m

unfoldable pub timeout_active : Option ℕ → ℕ → Manager → Outcome
timeout_active none now m = (m, [])
timeout_active (some r) now m = retry now r (event_of timeout_retry) m

unfoldable pub handle_timeout : ℕ → Manager → Outcome
unfolding timeout_active
handle_timeout now m = timeout_active m.active now m
