-- ===== src/Reliability/Invariant.antt =====
-- What holds between the calls of src/protocol/ReliabilityManager.ts: the bookkeeping of its references
-- and of the retransmissions under way.
pub mod Loops
pub mod Retry
pub mod Calls
use i_tantra.Base.{
  ℕ, zero, suc, ◌+◌, ◌≤◌, ◌<◌, ◌≡◌, ◌≢◌, refl, sym, ap, ◌∙◌, Bool, true, false, not, ◌||◌, List, [],
  ◌∷◌, ◌++◌, Option, none, some, nat_beq, nat_beq_iff, get_elem?, All, Text, if◌then◌else◌,
  Bool-cases, inl, inr, arith,
}
use i_tantra.Reliability.State.{PendingMessage, Loop, Manager, Outcome, write}
use i_tantra.Reliability.Sender.{promote, promote_queued, is_message}
use i_tantra.Reliability.Retransmit.{finish}
use i_tantra.Reliability.Invariant.Loops.{bit, current, IsKnown, IsKnown-none, IsKnown-later}

-- `k` current loops are running; the others await a send.
pub record Sound (k : ℕ) (m : Manager) : Type 0 where
  pub counted : current m.retransmit_generation m.loops + k ≡ bit m.retransmitting
  pub known : All (IsKnown m.retransmit_generation m.active) m.loops
  pub active_ref : (r : ℕ) → m.active ≡ some r → r < m.next_ref
  pub active_ack :
      (r : ℕ) → m.active ≡ some r → (m.objects r).acked ≡ true → m.retransmitting ≡ true
  pub queued_ref : (q : ℕ) → m.queued ≡ some q → q < m.next_ref
  pub queued_ack : (q : ℕ) → m.queued ≡ some q → (m.objects q).acked ≡ false
  pub apart : (q : ℕ) → m.queued ≡ some q → m.active ≢ some q

-- A message waits only behind an active one.
abbrev pub IsBehind : Manager → Type 0
IsBehind m = m.active ≡ none → m.queued ≡ none

promote-Sound :
    (o : Option ℕ) (now : ℕ) (m : Manager)
    → m.queued ≡ o
    → m.active ≡ none
    → m.retransmitting ≡ false
    → Sound 0 m
    → Sound 0 (promote o now m).0 × IsBehind (promote o now m).0
unfolding promote
promote-Sound none now m e a h s = (s, λ _. e)
promote-Sound (some q) now m e a h s = (
  record {
    counted = s.counted;
    known =
        IsKnown-none m.retransmit_generation m.active (some q) m.loops
          (ground (arith, h, s.counted)) s.known;
    active_ref = λ r k. let same : q ≡ r = cc in rw (← same) (s.queued_ref q e);
    active_ack = λ r k l. let same : q ≡ r = cc in ground (arith, same, l, s.queued_ack q e);
    queued_ref = λ r k. cc;
    queued_ack = λ r k. cc;
    apart = λ r k. cc;
  },
  λ k. cc,
)

-- Sound between calls: no loop is running, all of them await a send.
abbrev pub Inv : Manager → Type 0
Inv m = Sound 0 m × IsBehind m

pub promote_queued-Inv :
    (now : ℕ) (m : Manager)
    → m.active ≡ none
    → m.retransmitting ≡ false
    → Sound 0 m
    → Inv (promote_queued now m).0
unfolding promote_queued
promote_queued-Inv now m a h s = promote-Sound m.queued now m refl a h s

-- The timer is no part of it.
pub timer-Inv : (b : Bool) (m : Manager) → Inv m → Inv (record m { retry_timer = b })
timer-Inv b m (s, w) = (
  record {
    counted = s.counted;
    known = s.known;
    active_ref = s.active_ref;
    active_ack = s.active_ack;
    queued_ref = s.queued_ref;
    queued_ack = s.queued_ack;
    apart = s.apart;
  },
  w,
)

-- The running loop ends, and its message is done.
drop-Sound :
    (m : Manager) → Sound 1 m → Sound 0 (record m { retransmitting = false; active = none })
drop-Sound m s = record {
  counted = ground (arith, s.counted);
  known =
      IsKnown-none m.retransmit_generation m.active none m.loops (ground (arith, s.counted))
        s.known;
  active_ref = λ r k. cc;
  active_ack = λ r k. cc;
  queued_ref = s.queued_ref;
  queued_ack = s.queued_ack;
  apart = λ q k l. cc;
}

-- The running loop ends, and its message still waits for an acknowledgement.
stop-Sound :
    (m : Manager) (r : ℕ)
    → m.active ≡ some r
    → (m.objects r).acked ≡ false
    → Sound 1 m
    → Sound 0 (record m { retransmitting = false })
stop-Sound m r e f s = record {
  counted = ground (arith, s.counted);
  known = s.known;
  active_ref = s.active_ref;
  active_ack = λ q k l. let same : r ≡ q = cc in absurd (ground (arith, same, f, l));
  queued_ref = s.queued_ref;
  queued_ack = s.queued_ack;
  apart = s.apart;
}

-- A loop of generation `g` about `r` is running.
pub record Held (r g : ℕ) (m : Manager) : Type 0 where
  pub sound : Sound (bit (nat_beq m.retransmit_generation g)) m
  pub behind : IsBehind m
  pub about : m.retransmit_generation ≡ g → m.active ≡ some r

pub finish-Inv : (now r g : ℕ) (m : Manager) → Held r g m → Inv (finish now r g m).0
unfolding finish
finish-Inv now r g m h = elim (Bool-cases (nat_beq m.retransmit_generation g)) [
  | inr stale ↦
      let s : Sound (bit (nat_beq m.retransmit_generation g)) m = h.sound in
      rw stale ((rw stale at s), h.behind)
  | inl live ↦
      let s : Sound (bit (nat_beq m.retransmit_generation g)) m = h.sound in
      let s1 : Sound 1 m = rw live at s in
      let e = h.about ((nat_beq_iff m.retransmit_generation g).0 live) in
      elim (Bool-cases (m.objects r).acked) [
        | inl a ↦
            rw (live, a)
              (promote_queued-Inv now (record m { retransmitting = false; active = none }) refl refl
                (drop-Sound m s1))
        | inr f ↦
            let ended : Inv (record m { retransmitting = false }) =
              (stop-Sound m r e f s1, h.behind) in
            elim (Bool-cases (is_message (m.objects r).message_id m.active m.objects)) [
              | inl t ↦ rw (live, f, t) (timer-Inv true (record m { retransmitting = false }) ended)
              | inr n ↦ rw (live, f, n) ended
            ]
      ]
]

-- Both outcomes of a test keep the invariant.
pub if-Inv :
    (b : Bool) (x y : Outcome)
    → (b ≡ true → Inv x.0)
    → (b ≡ false → Inv y.0)
    → Inv (if b then x else y).0
if-Inv true x y h k = h refl
if-Inv false x y h k = k refl
