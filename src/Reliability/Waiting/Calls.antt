-- ===== src/Reliability/Waiting/Calls.antt =====
-- Every call of src/protocol/ReliabilityManager.ts keeps the bound on the retries.
use i_tantra.Base.{
  ℕ, suc, ◌≤◌, ◌<◌, ◌≡◌, ◌≢◌, refl, Bool, true, false, not, ◌||◌, Option, none, some, nat_beq_iff,
  get_elem?, Text, text_eq, ◌==◌, Option-cases, inl, inr, arith,
}
use i_tantra.Semantic.{is_blank}
use i_tantra.Reliability.State.{Loop, Manager, write, event_of, timeout_retry}
use i_tantra.Reliability.Sender.{
  SendParams, new_message, send_to, send, frame_sent, on_frame_sent, ack_active, ack_queued,
  ack_either, handle_ack, cancel, is_expired, cleanup, register_group_id,
}
use i_tantra.Reliability.Retransmit.{
  nack_event, nack_message, handle_nack, timeout_active, handle_timeout,
}
use i_tantra.Reliability.System.{
  resume_loop, resume, Action, send_message, frames_sent, ack_arrives, nack_arrives, timer_fires,
  send_ends, cancel_all, clean_up, register_group, sequence_drawn, perform, step, Reach, start,
  later,
}
use i_tantra.Reliability.Invariant.Loops.{bit}
use i_tantra.Reliability.Invariant.{Inv, timer-Inv}
use i_tantra.Reliability.Invariant.Calls.{resumed-Held, Reach-Inv}
use i_tantra.Reliability.Invariant.Loops.{current}
use i_tantra.Reliability.Waiting.{
  Waiting, if-Waiting, idle-Waiting, promote_queued-Waiting, finish-Waiting, run_loop-Waiting,
  retry-Waiting,
}

send_to-Waiting :
    (o : Option ℕ) (r : ℕ) (m : Manager)
    → m.active ≡ o
    → (m.objects r).retry_count ≡ 0
    → Waiting m
    → Waiting (send_to o r m).0
unfolding send_to
send_to-Waiting none r m e fresh w = record {
  bounded = λ q k. let same : r ≡ q = cc in rw (← same) (omega (arith, fresh));
  waits = λ q k l. let same : r ≡ q = cc in absurd (omega (arith, rw (← same) at l, fresh));
}
send_to-Waiting (some a) r m e fresh w = record { bounded = w.bounded; waits = w.waits }

send-Waiting :
    (now : ℕ) (params : SendParams) (m : Manager)
    → Inv m
    → Waiting m
    → Waiting (send now params m).0
unfolding send
send-Waiting now params m h w =
    send_to-Waiting m.active m.next_ref
      (record m {
        objects = write m.next_ref (new_message now params) m.objects;
        next_ref = suc m.next_ref;
      })
      refl (ground arith)
      (record {
        bounded = λ r k. ground (arith, w.bounded r k);
        waits = λ r k l s. w.waits r k (ground (arith, l)) s;
      })

frame_sent-Waiting :
    (o : Option ℕ) (now : ℕ) (m : Manager) → Waiting m → Waiting (frame_sent o now m)
unfolding frame_sent
frame_sent-Waiting none now m w = w
frame_sent-Waiting (some r) now m w = record {
  bounded = λ q k. ground (arith, w.bounded q k);
  waits = λ q k l s. refl;
}

-- Writing down an acknowledgement changes no count.
acked_count :
    (m : Manager) (r q : ℕ)
    → (write r (record (m.objects r) { acked = true }) m.objects q).retry_count
      ≡ (m.objects q).retry_count
acked_count m r q = ground (arith, nat_beq_iff r q)

ack_active-Waiting : (now r : ℕ) (m : Manager) → Waiting m → Waiting (ack_active now r m).0
unfolding ack_active
ack_active-Waiting now r m w =
    if-Waiting m.retransmitting _ _
      (λ t. record {
        bounded = λ q k. rw (acked_count m r q) (w.bounded q k);
        waits = λ q k l s. t;
      })
      (λ f. promote_queued-Waiting now _ refl)

ack_queued-Waiting : (q : ℕ) (m : Manager) → Waiting m → Waiting (ack_queued q m)
unfolding ack_queued
ack_queued-Waiting q m w = record {
  bounded = λ r k. rw (acked_count m q r) (w.bounded r k);
  waits = λ r k l s. w.waits r k (rw (acked_count m q r) at l) s;
}

ack_either-Waiting :
    (a q : Option ℕ) (now : ℕ) (id : Text) (m : Manager)
    → Waiting m
    → Waiting (ack_either a q now id m).0
unfolding ack_either
ack_either-Waiting none none now id m w = w
ack_either-Waiting none (some q) now id m w =
    if-Waiting ((m.objects q).message_id == id) _ _ (λ t. ack_queued-Waiting q m w) (λ n. w)
ack_either-Waiting (some r) none now id m w =
    if-Waiting ((m.objects r).message_id == id) _ _ (λ t. ack_active-Waiting now r m w) (λ n. w)
ack_either-Waiting (some r) (some q) now id m w =
    if-Waiting ((m.objects r).message_id == id) _ _ (λ t. ack_active-Waiting now r m w)
      (λ n.
        if-Waiting ((m.objects q).message_id == id) _ _ (λ t. ack_queued-Waiting q m w) (λ l. w))

nack_message-Waiting :
    (o : Option Text) (a : Option ℕ) (now group reason : ℕ) (m : Manager)
    → m.active ≡ a
    → Inv m
    → Waiting m
    → Waiting (nack_message o a now group reason m).0
unfolding nack_message
nack_message-Waiting none a now group reason m e h w = w
nack_message-Waiting (some id) none now group reason m e h w = w
nack_message-Waiting (some id) (some r) now group reason m e h w =
    if-Waiting (is_blank id || not ((m.objects r).message_id == id)) _ _ (λ t. w)
      (λ f. retry-Waiting now r (nack_event group reason) _ e (timer-Inv false m h))

timeout_active-Waiting :
    (o : Option ℕ) (now : ℕ) (m : Manager)
    → m.active ≡ o
    → Inv m
    → Waiting (timeout_active o now m).0
unfolding timeout_active
timeout_active-Waiting none now m e h = idle-Waiting m e
timeout_active-Waiting (some r) now m e h = retry-Waiting now r (event_of timeout_retry) m e h

resume_loop-Waiting :
    (o : Option Loop) (delivered : Bool) (i now : ℕ) (m : Manager)
    → get_elem? m.loops i ≡ o
    → Inv m
    → Waiting m
    → Waiting (resume_loop o delivered i now m).0
unfolding resume_loop
resume_loop-Waiting none delivered i now m e h w = w
resume_loop-Waiting (some l) true i now m e h w =
    run_loop-Waiting now l.message l.generation l.rest _ (resumed-Held i l m e h)
      (record { bounded = w.bounded; waits = w.waits })
resume_loop-Waiting (some l) false i now m e h w =
    finish-Waiting now l.message l.generation _ (resumed-Held i l m e h)
      (record { bounded = w.bounded; waits = w.waits })

perform-Waiting :
    (now : ℕ) (a : Action) (m : Manager) → Inv m → Waiting m → Waiting (perform now a m).0
unfolding perform on_frame_sent handle_ack handle_nack handle_timeout resume register_group_id
    cancel cleanup
perform-Waiting now (send_message params) m h w = send-Waiting now params m h w
perform-Waiting now frames_sent m h w = frame_sent-Waiting m.active now m w
perform-Waiting now (ack_arrives id) m h w = ack_either-Waiting m.active m.queued now id m w
perform-Waiting now (nack_arrives group reason) m h w =
    nack_message-Waiting _ m.active now group reason m refl h w
perform-Waiting now timer_fires m h w =
    if-Waiting m.retry_timer _ _
      (λ t.
        timeout_active-Waiting m.active now (record m { retry_timer = false }) refl
          (timer-Inv false m h))
      (λ f. w)
perform-Waiting now (send_ends delivered i) m h w = resume_loop-Waiting _ delivered i now m refl h w
perform-Waiting now cancel_all m h w = idle-Waiting _ refl
perform-Waiting now clean_up m h w =
    if-Waiting (is_expired m.active now m.objects) _ _ (λ t. idle-Waiting _ refl) (λ f. w)
perform-Waiting now (register_group group id) m h w = record {
  bounded = w.bounded;
  waits = w.waits;
}
perform-Waiting now sequence_drawn m h w = record { bounded = w.bounded; waits = w.waits }

Reach-Waiting : {b : Bool} {m : Manager} → Reach b m → Waiting m
Reach-Waiting {b} (start q) = idle-Waiting _ refl
Reach-Waiting (later r (step now a)) = perform-Waiting now a _ (Reach-Inv r) (Reach-Waiting r)

-- In every reachable state the active message has been retried three times at most.
pub Reach-bounded :
    {b : Bool} {m : Manager} {r : ℕ} → Reach b m → m.active ≡ some r → (m.objects r).retry_count ≤ 3
Reach-bounded {r = r} h e = (Reach-Waiting h).bounded r e

-- In every reachable state of a manager that can send, if the active message has been retried, a
-- timeout is pending or a retransmission is under way.
pub Reach-waits :
    {b : Bool} {m : Manager} {r : ℕ}
    → Reach b m
    → m.active ≡ some r
    → 0 < (m.objects r).retry_count
    → m.has_send_fn ≡ true
    → (m.retry_timer || m.retransmitting) ≡ true
Reach-waits {r = r} h e l s = (Reach-Waiting h).waits r e l s

-- In every reachable state an acknowledged message is active only while it is being retransmitted.
pub Reach-acked :
    {b : Bool} {m : Manager} {r : ℕ}
    → Reach b m
    → m.active ≡ some r
    → (m.objects r).acked ≡ true
    → m.retransmitting ≡ true
Reach-acked {r = r} h e l = (Reach-Inv h).0.active_ack r e l

-- In every reachable state one retransmission of the current generation is under way if the manager says
-- that it is retransmitting, and none otherwise.
pub Reach-current :
    {b : Bool} {m : Manager}
    → Reach b m
    → current m.retransmit_generation m.loops ≡ bit m.retransmitting
Reach-current h = let (s, w) = Reach-Inv h in omega (arith, s.counted)

-- In every reachable state a queued message waits behind an active one, which is another object, and is
-- not acknowledged.
pub Reach-queued :
    {b : Bool} {m : Manager} {q : ℕ}
    → Reach b m
    → m.queued ≡ some q
    → (r : ℕ) × (m.active ≡ some r) × (r ≢ q) × ((m.objects q).acked ≡ false)
Reach-queued {m = m} {q = q} h e =
    let (s, w) = Reach-Inv h in
    elim (Option-cases m.active) [
      | inl none_active ↦ absurd (let none_queued = w none_active in cc)
      | inr (r, k) ↦ (r, k, λ same. s.apart q e (cc), s.queued_ack q e)
    ]
