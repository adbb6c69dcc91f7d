-- ===== src/Reliability/Invariant/Retry.antt =====
-- Retransmission in src/protocol/ReliabilityManager.ts keeps the invariant.
use i_tantra.Base.{
  ℕ, suc, ◌≡◌, refl, ap, true, false, not, ◌||◌, List, [], ◌∷◌, ◌++◌, Option, none, some, Result,
  ok, err, ltb, nat_beq, nat_beq_iff, nat_beq_self, All-append, Bool-cases, inl, inr, arith,
}
use i_tantra.Bytes.{Bytes}
use i_tantra.Frame
use i_tantra.Frame.{v6b_frame_v6a_message}
use i_tantra.Sequence.{SequenceManager, next_sequence}
use i_tantra.Reliability.State.{PendingMessage, Loop, Manager, Output, write, forget, max_retries}
use i_tantra.Reliability.Retransmit.{
  send_frame, run_loop, to_send, retransmit_active, retransmit, count_retry, give_up, retry,
}
use i_tantra.Reliability.Invariant.Loops.{bit, IsKnown, IsKnown-later, current-append}
use i_tantra.Reliability.Invariant.{Sound, Inv, promote_queued-Inv, Held, finish-Inv}

-- The sequence numbers are no part of it.
sequences-Sound :
    (k : ℕ) (q : SequenceManager) (m : Manager) → Sound k m → Sound k (record m { sequences = q })
sequences-Sound k q m s = record {
  counted = s.counted;
  known = s.known;
  active_ref = s.active_ref;
  active_ack = s.active_ack;
  queued_ref = s.queued_ref;
  queued_ack = s.queued_ack;
  apart = s.apart;
}

pub sequences-Inv : (q : SequenceManager) (m : Manager) → Inv m → Inv (record m { sequences = q })
sequences-Inv q m (s, w) = (sequences-Sound 0 q m s, w)

pub sequences-Held :
    (r g : ℕ) (q : SequenceManager) (m : Manager)
    → Held r g m
    → Held r g (record m { sequences = q })
sequences-Held r g q m h = record {
  sound = sequences-Sound _ q m h.sound;
  behind = h.behind;
  about = h.about;
}

-- The running loop starts to await a send.
await-Sound :
    (m : Manager) (r : ℕ) (ps : List Bytes)
    → m.active ≡ some r
    → Sound 1 m
    → Sound 0 (record m {
      loops =
          m.loops ++ record { message = r; generation = m.retransmit_generation; rest = ps } ∷ [];
    })
await-Sound m r ps e s =
    let l : Loop = record { message = r; generation = m.retransmit_generation; rest = ps } in
    record {
      counted = omega (
        arith,
        s.counted,
        current-append m.retransmit_generation m.loops l,
        ap bit (nat_beq_self m.retransmit_generation),
      );
      known =
          All-append (IsKnown m.retransmit_generation m.active) m.loops (l ∷ []) s.known
            ((omega arith, λ _. e), tt);
      active_ref = s.active_ref;
      active_ack = s.active_ack;
      queued_ref = s.queued_ref;
      queued_ack = s.queued_ack;
      apart = s.apart;
    }

send_frame-Inv :
    (f : Result Frame.FrameError Bytes) (now r : ℕ) (ps : List Bytes) (m : Manager)
    → Held r m.retransmit_generation m
    → Inv (send_frame f now r m.retransmit_generation ps m).0
unfolding send_frame
send_frame-Inv (err e) now r ps m h = finish-Inv now r m.retransmit_generation m h
send_frame-Inv (ok f) now r ps m h =
    let s : Sound (bit (nat_beq m.retransmit_generation m.retransmit_generation)) m = h.sound in
    (await-Sound m r ps (h.about refl) (rw (nat_beq_self m.retransmit_generation) at s), h.behind)

pub run_loop-Inv :
    (now r g : ℕ) (ps : List Bytes) (m : Manager) → Held r g m → Inv (run_loop now r g ps m).0
unfolding run_loop
run_loop-Inv now r g [] m h = finish-Inv now r g m h
run_loop-Inv now r g (p ∷ ps) m h =
    elim (Bool-cases (not (nat_beq m.retransmit_generation g) || (m.objects r).acked)) [
      | inl t ↦ rw t (finish-Inv now r g m h)
      | inr f ↦
          let live : m.retransmit_generation ≡ g =
            ground (arith, f, nat_beq_iff m.retransmit_generation g) in
          let q = (next_sequence m.sequences).0 in
          let held : Held r m.retransmit_generation (record m { sequences = q }) = record {
            sound = sequences-Sound _ q m (rw (← live) at h.sound);
            behind = h.behind;
            about = λ _. h.about live;
          } in
          rw (f, ← live)
            (send_frame-Inv (Frame.encode (next_sequence m.sequences).1 v6b_frame_v6a_message p) now
              r ps (record m { sequences = q }) held)
    ]

-- A new loop starts when none is under way.
pub started-Held :
    (m : Manager) (r : ℕ)
    → m.active ≡ some r
    → m.retransmitting ≡ false
    → Inv m
    → Held r
        (suc m.retransmit_generation)
        (record m { retransmitting = true; retransmit_generation = suc m.retransmit_generation })
started-Held m r e f (s, w) =
    let g = m.retransmit_generation in
    let (old, none_left) = IsKnown-later g m.active m.active m.loops s.known in
    record {
      sound = rw (nat_beq_self (suc g)) (record {
        counted = omega (arith, none_left);
        known = old;
        active_ref = s.active_ref;
        active_ack = λ _ _ _. refl;
        queued_ref = s.queued_ref;
        queued_ack = s.queued_ack;
        apart = s.apart;
      });
      behind = w;
      about = λ _. e;
    }

retransmit_active-Inv :
    (o : Option ℕ) (now : ℕ) (m : Manager)
    → m.active ≡ o
    → Inv m
    → Inv (retransmit_active o now m).0
unfolding retransmit_active
retransmit_active-Inv none now m e h = h
retransmit_active-Inv (some r) now m e h =
    elim (Bool-cases (not m.has_send_fn || m.retransmitting)) [
      | inl t ↦ rw t h
      | inr f ↦ rw f (
          run_loop-Inv now r (suc m.retransmit_generation) (to_send (m.objects r)) _
            (started-Held m r e (ground (arith, f)) h))
    ]

pub retransmit-Inv : (now : ℕ) (m : Manager) → Inv m → Inv (retransmit now m).0
unfolding retransmit
retransmit-Inv now m h = retransmit_active-Inv m.active now m refl h

-- An object changes, but not whether it is acknowledged.
pub write-Inv :
    (m : Manager) (r : ℕ) (message : PendingMessage)
    → message.acked ≡ (m.objects r).acked
    → Inv m
    → Inv (record m { objects = write r message m.objects })
write-Inv m r message same (s, w) = (
  record {
    counted = s.counted;
    known = s.known;
    active_ref = s.active_ref;
    active_ack = λ q k l. s.active_ack q k (ground (arith, same, l));
    queued_ref = s.queued_ref;
    queued_ack = λ q k. ground (arith, same, s.queued_ack q k);
    apart = s.apart;
  },
  w,
)

give_up-Inv : (now r : ℕ) (m : Manager) → Inv m → Inv (give_up now r m).0
unfolding give_up
give_up-Inv now r m (s, w) =
    let g = m.retransmit_generation in
    let (old, none_left) = IsKnown-later g m.active none m.loops s.known in
    promote_queued-Inv now
      (record m {
        retransmit_generation = suc g;
        retransmitting = false;
        group_messages = forget (m.objects r).group_id m.group_messages;
        active = none;
      })
      refl refl
      (record {
        counted = omega (arith, none_left);
        known = old;
        active_ref = λ r k. cc;
        active_ack = λ r k. cc;
        queued_ref = s.queued_ref;
        queued_ack = s.queued_ack;
        apart = λ q k l. cc;
      })

pub retry-Inv :
    (now r : ℕ) (notice : PendingMessage → Output) (m : Manager)
    → Inv m
    → Inv (retry now r notice m).0
unfolding retry count_retry
retry-Inv now r notice m h =
    let counted = count_retry now r m in
    let kept : Inv counted = write-Inv m r _ refl h in
    elim (Bool-cases (ltb max_retries (counted.objects r).retry_count)) [
      | inl t ↦ rw t (give_up-Inv now r counted kept)
      | inr f ↦ rw f (retransmit-Inv now counted kept)
    ]
