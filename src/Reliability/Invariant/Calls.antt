-- ===== src/Reliability/Invariant/Calls.antt =====
-- Every call of src/protocol/ReliabilityManager.ts keeps the invariant.
use i_tantra.Base.{
  ℕ, suc, ◌<◌, ◌≡◌, ◌≢◌, refl, sym, Bool, true, false, not, ◌||◌, List, Option, none, some,
  get_elem?, All, Text, text_eq, ◌==◌, Bool-cases, inl, inr, arith,
}
use i_tantra.Semantic.{is_blank}
use i_tantra.Sequence.{SequenceManager}
use i_tantra.Reliability.State.{
  PendingMessage, Loop, Manager, write, forget, event_of, timeout_retry,
}
use i_tantra.Reliability.Sender.{
  SendParams, new_message, send_to, send, frame_sent, on_frame_sent, ack_active, ack_queued,
  ack_either, handle_ack, cancel, is_expired, cleanup, register_group_id,
}
use i_tantra.Reliability.Retransmit.{
  nack_event, nack_message, handle_nack, timeout_active, handle_timeout,
}
use i_tantra.Reliability.System.{
  new_reliability_manager, remove_at, resume_loop, resume, Action, send_message, frames_sent,
  ack_arrives, nack_arrives, timer_fires, send_ends, cancel_all, clean_up, register_group,
  sequence_drawn, perform, step, Reach, start, later,
}
use i_tantra.Reliability.Invariant.Loops.{
  current, IsKnown, IsKnown-none, IsKnown-later, current_idle, current-remove_at, All-remove_at,
  All-get_elem?,
}
use i_tantra.Reliability.Invariant.{
  Sound, Inv, promote_queued-Inv, timer-Inv, Held, finish-Inv, if-Inv,
}
use i_tantra.Reliability.Invariant.Retry.{sequences-Inv, run_loop-Inv, write-Inv, retry-Inv}

-- A new object takes the next reference.
allocated-Inv :
    (m : Manager) (message : PendingMessage)
    → message.acked ≡ false
    → Inv m
    → Inv (record m { objects = write m.next_ref message m.objects; next_ref = suc m.next_ref })
allocated-Inv m message fresh (s, w) = (
  record {
    counted = s.counted;
    known = s.known;
    active_ref = λ r k. omega (arith, s.active_ref r k);
    active_ack = λ r k l. s.active_ack r k (ground (arith, l, s.active_ref r k));
    queued_ref = λ q k. omega (arith, s.queued_ref q k);
    queued_ack = λ q k. ground (arith, s.queued_ack q k, s.queued_ref q k);
    apart = s.apart;
  },
  w,
)

idle : (m : Manager) → m.active ≡ none → Sound 0 m → current m.retransmit_generation m.loops ≡ 0
idle m e s =
    let k : All (IsKnown m.retransmit_generation m.active) m.loops = s.known in
    current_idle m.retransmit_generation m.loops (rw e at k)

send_to-Inv :
    (o : Option ℕ) (r : ℕ) (m : Manager)
    → m.active ≡ o
    → r < m.next_ref
    → (m.objects r).acked ≡ false
    → m.active ≢ some r
    → Inv m
    → Inv (send_to o r m).0
unfolding send_to
send_to-Inv none r m e lt fresh new (s, w) = (
  record {
    counted = s.counted;
    known = IsKnown-none m.retransmit_generation m.active (some r) m.loops (idle m e s) s.known;
    active_ref = λ q k. let same : r ≡ q = cc in omega (arith, same);
    active_ack = λ q k l. let same : r ≡ q = cc in absurd (ground (arith, same, fresh, l));
    queued_ref = s.queued_ref;
    queued_ack = s.queued_ack;
    apart = λ q k l. absurd (let n = w e in cc);
  },
  λ k. cc,
)
send_to-Inv (some a) r m e lt fresh new (s, w) = (
  record {
    counted = s.counted;
    known = s.known;
    active_ref = s.active_ref;
    active_ack = s.active_ack;
    queued_ref = λ q k. let same : r ≡ q = cc in omega (arith, same);
    queued_ack = λ q k. let same : r ≡ q = cc in rw (← same) fresh;
    apart = λ q k l. let same : r ≡ q = cc in new (rw (← same) at l);
  },
  λ k. cc,
)

pub send-Inv : (now : ℕ) (params : SendParams) (m : Manager) → Inv m → Inv (send now params m).0
unfolding send
send-Inv now params m h =
    send_to-Inv m.active m.next_ref
      (record m {
        objects = write m.next_ref (new_message now params) m.objects;
        next_ref = suc m.next_ref;
      })
      refl (omega arith) (ground arith) (λ k. omega (arith, h.0.active_ref m.next_ref k))
      (allocated-Inv m (new_message now params) refl h)

frame_sent-Inv : (o : Option ℕ) (now : ℕ) (m : Manager) → Inv m → Inv (frame_sent o now m)
unfolding frame_sent
frame_sent-Inv none now m h = h
frame_sent-Inv (some r) now m h = timer-Inv true _ (write-Inv m r _ refl h)

-- The map of the groups is no part of the invariant.
groups-Inv : (g : List (ℕ × Text)) (m : Manager) → Inv m → Inv (record m { group_messages = g })
groups-Inv g m (s, w) = (
  record {
    counted = s.counted;
    known = s.known;
    active_ref = s.active_ref;
    active_ack = s.active_ack;
    queued_ref = s.queued_ref;
    queued_ack = s.queued_ack;
    apart = s.apart;
  },
  w,
)

pub cancel-Inv : (m : Manager) → Inv m → Inv (cancel m).0
unfolding cancel
cancel-Inv m (s, w) =
    let (old, none_left) = IsKnown-later m.retransmit_generation m.active none m.loops s.known in
    (
      record {
        counted = omega (arith, none_left);
        known = old;
        active_ref = λ r k. cc;
        active_ack = λ r k l. cc;
        queued_ref = λ q k. cc;
        queued_ack = λ q k. cc;
        apart = λ q k l. cc;
      },
      λ k. refl,
    )

pub cleanup-Inv : (now : ℕ) (m : Manager) → Inv m → Inv (cleanup now m).0
unfolding cleanup
cleanup-Inv now m h = elim (Bool-cases (is_expired m.active now m.objects)) [
  | inl t ↦ rw t (cancel-Inv m h)
  | inr f ↦ rw f h
]

-- A loop whose send has ended is running.
pub resumed-Held :
    (i : ℕ) (l : Loop) (m : Manager)
    → get_elem? m.loops i ≡ some l
    → Inv m
    → Held l.message l.generation (record m { loops = remove_at m.loops i })
resumed-Held i l m e (s, w) =
    let g = m.retransmit_generation in
    record {
      sound = record {
        counted = ground (arith, s.counted, current-remove_at g m.loops i l e);
        known = All-remove_at (IsKnown g m.active) m.loops i s.known;
        active_ref = s.active_ref;
        active_ack = s.active_ack;
        queued_ref = s.queued_ref;
        queued_ack = s.queued_ack;
        apart = s.apart;
      };
      behind = w;
      about = λ live. (All-get_elem? (IsKnown g m.active) m.loops i l e s.known).1 (sym live);
    }

resume_loop-Inv :
    (o : Option Loop) (delivered : Bool) (i now : ℕ) (m : Manager)
    → get_elem? m.loops i ≡ o
    → Inv m
    → Inv (resume_loop o delivered i now m).0
unfolding resume_loop
resume_loop-Inv none delivered i now m e h = h
resume_loop-Inv (some l) true i now m e h =
    run_loop-Inv now l.message l.generation l.rest _ (resumed-Held i l m e h)
resume_loop-Inv (some l) false i now m e h =
    finish-Inv now l.message l.generation _ (resumed-Held i l m e h)

ack_active-Inv : (now r : ℕ) (m : Manager) → m.active ≡ some r → Inv m → Inv (ack_active now r m).0
unfolding ack_active
ack_active-Inv now r m e (s, w) =
    if-Inv m.retransmitting _ _
      (λ t. (
        record {
          counted = s.counted;
          known = s.known;
          active_ref = s.active_ref;
          active_ack = λ q k l. t;
          queued_ref = s.queued_ref;
          queued_ack = λ q k. other_acked q k;
          apart = s.apart;
        },
        w,
      ))
      (λ f.
        promote_queued-Inv now
          (record m {
            retry_timer = false;
            objects = write r (record (m.objects r) { acked = true }) m.objects;
            group_messages = forget (m.objects r).group_id m.group_messages;
            active = none;
          })
          refl f
          (record {
            counted = s.counted;
            known =
                IsKnown-none m.retransmit_generation m.active none m.loops
                  (ground (arith, f, s.counted)) s.known;
            active_ref = λ q k. cc;
            active_ack = λ q k. cc;
            queued_ref = s.queued_ref;
            queued_ack = λ q k. other_acked q k;
            apart = λ q k l. cc;
          }))
  where
    other_acked :
        (q : ℕ)
        → m.queued ≡ some q
        → (write r (record (m.objects r) { acked = true }) m.objects q).acked ≡ false
    other_acked q k =
        let ne : r ≢ q = λ same. s.apart q k (cc) in ground (arith, ne, s.queued_ack q k)

ack_queued-Inv : (q : ℕ) (m : Manager) → m.queued ≡ some q → Inv m → Inv (ack_queued q m)
unfolding ack_queued
ack_queued-Inv q m e (s, w) = (
  record {
    counted = s.counted;
    known = s.known;
    active_ref = s.active_ref;
    active_ack = λ r k l.
        let ne : q ≢ r = λ same. s.apart q e (cc) in s.active_ack r k (ground (arith, ne, l));
    queued_ref = λ r k. cc;
    queued_ack = λ r k. cc;
    apart = λ r k l. cc;
  },
  λ k. refl,
)

ack_either-Inv :
    (a q : Option ℕ) (now : ℕ) (id : Text) (m : Manager)
    → m.active ≡ a
    → m.queued ≡ q
    → Inv m
    → Inv (ack_either a q now id m).0
unfolding ack_either
ack_either-Inv none none now id m e f h = h
ack_either-Inv none (some q) now id m e f h = elim (Bool-cases ((m.objects q).message_id == id)) [
  | inl t ↦ rw t (ack_queued-Inv q m f h)
  | inr n ↦ rw n h
]
ack_either-Inv (some r) none now id m e f h = elim (Bool-cases ((m.objects r).message_id == id)) [
  | inl t ↦ rw t (ack_active-Inv now r m e h)
  | inr n ↦ rw n h
]
ack_either-Inv (some r) (some q) now id m e f h =
    elim (Bool-cases ((m.objects r).message_id == id)) [
      | inl t ↦ rw t (ack_active-Inv now r m e h)
      | inr n ↦ elim (Bool-cases ((m.objects q).message_id == id)) [
        | inl t ↦ rw (n, t) (ack_queued-Inv q m f h)
        | inr l ↦ rw (n, l) h
      ]
    ]

nack_message-Inv :
    (o : Option Text) (a : Option ℕ) (now group reason : ℕ) (m : Manager)
    → Inv m
    → Inv (nack_message o a now group reason m).0
unfolding nack_message
nack_message-Inv none a now group reason m h = h
nack_message-Inv (some id) none now group reason m h = h
nack_message-Inv (some id) (some r) now group reason m h =
    elim (Bool-cases (is_blank id || not ((m.objects r).message_id == id))) [
      | inl t ↦ rw t h
      | inr f ↦ rw f (retry-Inv now r (nack_event group reason) _ (timer-Inv false m h))
    ]

pub timeout_active-Inv :
    (o : Option ℕ) (now : ℕ) (m : Manager) → Inv m → Inv (timeout_active o now m).0
unfolding timeout_active
timeout_active-Inv none now m h = h
timeout_active-Inv (some r) now m h = retry-Inv now r (event_of timeout_retry) m h

perform-Inv : (now : ℕ) (a : Action) (m : Manager) → Inv m → Inv (perform now a m).0
unfolding perform on_frame_sent handle_ack handle_nack handle_timeout resume register_group_id
perform-Inv now (send_message params) m h = send-Inv now params m h
perform-Inv now frames_sent m h = frame_sent-Inv m.active now m h
perform-Inv now (ack_arrives id) m h = ack_either-Inv m.active m.queued now id m refl refl h
perform-Inv now (nack_arrives group reason) m h = nack_message-Inv _ m.active now group reason m h
perform-Inv now timer_fires m h =
    if-Inv m.retry_timer _ _
      (λ t.
        timeout_active-Inv m.active now (record m { retry_timer = false }) (timer-Inv false m h))
      (λ f. h)
perform-Inv now (send_ends delivered i) m h = resume_loop-Inv _ delivered i now m refl h
perform-Inv now cancel_all m h = cancel-Inv m h
perform-Inv now clean_up m h = cleanup-Inv now m h
perform-Inv now (register_group group id) m h = groups-Inv _ m h
perform-Inv now sequence_drawn m h = sequences-Inv _ m h

new-Inv : (b : Bool) (q : SequenceManager) → Inv (new_reliability_manager b q)
new-Inv b q = (
  record {
    counted = refl;
    known = tt;
    active_ref = λ r k. cc;
    active_ack = λ r k. cc;
    queued_ref = λ r k. cc;
    queued_ack = λ r k. cc;
    apart = λ r k l. cc;
  },
  λ k. refl,
)

-- In every state that a new manager reaches: exactly one retransmission of the current generation is
-- under way if the manager says so and none otherwise, it is about the active message, a message waits
-- only behind an active one, the two are different objects, and an acknowledged message stays active
-- only while it is being retransmitted.
pub Reach-Inv : {b : Bool} {m : Manager} → Reach b m → Inv m
Reach-Inv {b} (start q) = new-Inv b q
Reach-Inv (later r (step now a)) = perform-Inv now a _ (Reach-Inv r)
