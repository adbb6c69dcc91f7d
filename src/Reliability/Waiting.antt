-- ===== src/Reliability/Waiting.antt =====
-- The retries of the active message in src/protocol/ReliabilityManager.ts: their number, and what a
-- message that was retried waits for.
pub mod Calls
use i_tantra.Base.{
  ℕ, zero, suc, ◌+◌, ◌≤◌, ◌<◌, ◌≡◌, ◌≢◌, refl, sym, ap, ◌∙◌, Bool, true, false, not, ◌||◌, List, [],
  ◌∷◌, ◌++◌, Option, none, some, Result, ok, err, ltb, nat_beq, nat_beq_iff, get_elem?, Text,
  text_eq, ◌==◌, if◌then◌else◌, Bool-cases, inl, inr, arith,
}
use i_tantra.Base.Dict
use i_tantra.Bytes.{Bytes}
use i_tantra.Frame
use i_tantra.Semantic.{is_blank}
use i_tantra.Sequence.{SequenceManager, next_sequence}
use i_tantra.Reliability.State.{
  PendingMessage, Loop, Manager, Output, Outcome, write, forget, max_retries, event_of,
  timeout_retry,
}
use i_tantra.Reliability.Sender.{
  SendParams, new_message, send_to, send, frame_sent, on_frame_sent, ack_active, ack_queued,
  ack_either, handle_ack, cancel, is_expired, cleanup, register_group_id, promote, promote_queued,
  is_message,
}
use i_tantra.Reliability.Retransmit.{
  finish, send_frame, run_loop, to_send, retransmit_active, retransmit, count_retry, give_up, retry,
  nack_event, nack_message, handle_nack, timeout_active, handle_timeout,
}
use i_tantra.Reliability.System.{
  new_reliability_manager, remove_at, resume_loop, resume, Action, send_message, frames_sent,
  ack_arrives, nack_arrives, timer_fires, send_ends, cancel_all, clean_up, register_group,
  sequence_drawn, perform, Step, step, Reach, start, later,
}
use i_tantra.Reliability.Invariant.Loops.{bit}
use i_tantra.Reliability.Invariant.{Inv, Held}
use i_tantra.Reliability.Invariant.Retry.{started-Held, write-Inv, sequences-Held}
use i_tantra.Reliability.Invariant.Calls.{resumed-Held, Reach-Inv}

-- The active message has been retried three times at most, and if it was retried, a timeout or a
-- retransmission is under way.
pub record Waiting (m : Manager) : Type 0 where
  pub bounded : (r : ℕ) → m.active ≡ some r → (m.objects r).retry_count ≤ 3
  pub waits :
      (r : ℕ)
      → m.active ≡ some r
      → 0 < (m.objects r).retry_count
      → m.has_send_fn ≡ true
      → (m.retry_timer || m.retransmitting) ≡ true

-- Both outcomes of a test are such states.
pub if-Waiting :
    (b : Bool) (x y : Outcome)
    → (b ≡ true → Waiting x.0)
    → (b ≡ false → Waiting y.0)
    → Waiting (if b then x else y).0
if-Waiting true x y h k = h refl
if-Waiting false x y h k = k refl

-- Without an active message there is nothing to wait for.
pub idle-Waiting : (m : Manager) → m.active ≡ none → Waiting m
idle-Waiting m e = record { bounded = λ r k. cc; waits = λ r k. cc }

promote-Waiting :
    (o : Option ℕ) (now : ℕ) (m : Manager) → m.active ≡ none → Waiting (promote o now m).0
unfolding promote
promote-Waiting none now m e = idle-Waiting m e
promote-Waiting (some q) now m e = record {
  bounded = λ r k. let same : q ≡ r = cc in ground (arith, same);
  waits = λ r k l. let same : q ≡ r = cc in absurd (ground (arith, same, l));
}

pub promote_queued-Waiting :
    (now : ℕ) (m : Manager) → m.active ≡ none → Waiting (promote_queued now m).0
unfolding promote_queued
promote_queued-Waiting now m e = promote-Waiting m.queued now m e

pub finish-Waiting :
    (now r g : ℕ) (m : Manager) → Held r g m → Waiting m → Waiting (finish now r g m).0
unfolding finish
finish-Waiting now r g m h w =
    if-Waiting (not (nat_beq m.retransmit_generation g)) _ _ (λ stale. w)
      (λ live.
        let e = h.about (ground (arith, live, nat_beq_iff m.retransmit_generation g)) in
        if-Waiting (m.objects r).acked _ _ (λ a. promote_queued-Waiting now _ refl)
          (λ f.
            if-Waiting (is_message (m.objects r).message_id m.active m.objects) _ _
              (λ t. record { bounded = w.bounded; waits = λ q k l s. refl })
              (λ n. absurd (itself r m e n))))
  where
    itself :
        (r : ℕ) (m : Manager)
        → m.active ≡ some r
        → is_message (m.objects r).message_id m.active m.objects ≢ false
    itself r m e n =
        ground
          (arith, rw e at n, text_eq.equals_iff (m.objects r).message_id (m.objects r).message_id)

send_frame-Waiting :
    (f : Result Frame.FrameError Bytes) (now r g : ℕ) (ps : List Bytes) (m : Manager)
    → Held r g m
    → Waiting m
    → Waiting (send_frame f now r g ps m).0
unfolding send_frame
send_frame-Waiting (err e) now r g ps m h w = finish-Waiting now r g m h w
send_frame-Waiting (ok f) now r g ps m h w = record { bounded = w.bounded; waits = w.waits }

pub run_loop-Waiting :
    (now r g : ℕ) (ps : List Bytes) (m : Manager)
    → Held r g m
    → Waiting m
    → Waiting (run_loop now r g ps m).0
unfolding run_loop
run_loop-Waiting now r g [] m h w = finish-Waiting now r g m h w
run_loop-Waiting now r g (p ∷ ps) m h w =
    if-Waiting (not (nat_beq m.retransmit_generation g) || (m.objects r).acked) _ _
      (λ t. finish-Waiting now r g m h w)
      (λ f.
        send_frame-Waiting _ now r g ps _ (sequences-Held r g _ m h)
          (record { bounded = w.bounded; waits = w.waits }))

-- After a counted retry of the active message, within the bound.
retransmit_active-Waiting :
    (o : Option ℕ) (now : ℕ) (m : Manager)
    → m.active ≡ o
    → ((r : ℕ) → m.active ≡ some r → (m.objects r).retry_count ≤ 3)
    → Inv m
    → Waiting (retransmit_active o now m).0
unfolding retransmit_active
retransmit_active-Waiting none now m e b h = idle-Waiting m e
retransmit_active-Waiting (some r) now m e b h =
    if-Waiting (not m.has_send_fn || m.retransmitting) _ _
      (λ t. record { bounded = b; waits = λ q k l s. ground (arith, t, s) })
      (λ f.
        run_loop-Waiting now r (suc m.retransmit_generation) (to_send (m.objects r)) _
          (started-Held m r e (ground (arith, f)) h)
          (record { bounded = b; waits = λ q k l s. ground arith }))

pub retry-Waiting :
    (now r : ℕ) (notice : PendingMessage → Output) (m : Manager)
    → m.active ≡ some r
    → Inv m
    → Waiting (retry now r notice m).0
unfolding retry retransmit count_retry give_up
retry-Waiting now r notice m e h =
    if-Waiting (ltb max_retries ((count_retry now r m).objects r).retry_count) _ _
      (λ t. promote_queued-Waiting now _ refl)
      (λ f.
        retransmit_active-Waiting m.active now (count_retry now r m) refl
          (λ q k. let same : r ≡ q = cc in rw (← same) (ground (arith, f)))
          (write-Inv m r _ refl h))
