-- ===== src/Reliability/Drain.antt =====
-- A retransmission of src/protocol/ReliabilityManager.ts from its start to its end, step by step.
use i_tantra.Base.{
  ℕ, ◌+◌, ◌≤◌, ◌≡◌, refl, ap, ◌∙◌, true, false, List, [], ◌∷◌, ◌++◌, Option, some, ok, nat_beq_self,
  get_elem?, All, length, text_eq, arith,
}
use i_tantra.Bytes.{Bytes}
use i_tantra.Frame
use i_tantra.Frame.{v6b_frame_v6a_message, v6b_max_payload_size}
use i_tantra.Frame.RoundTrip.{encode_iff}
use i_tantra.Sequence.{SequenceManager, next_sequence}
use i_tantra.Reliability.State.{Manager, Loop, Output, Outcome, sent}
use i_tantra.Reliability.Sender.{is_message}
use i_tantra.Reliability.Retransmit.{finish, send_frame, run_loop}
use i_tantra.Reliability.System.{Action, send_ends, perform, resume, resume_loop, remove_at}

-- Actions one after the other, number `k` at time `clock k`, with all that they put out.
unfoldable pub run_actions : (ℕ → ℕ) → ℕ → List Action → Manager → Outcome
run_actions clock k [] m = (m, [])
run_actions clock k (a ∷ actions) m =
    let (m1, first) = perform (clock k) a m in
    let (m2, others) = run_actions clock (k + 1) actions m1 in (m2, first ++ others)

-- The ends of the sends that a retransmission awaits, for every payload.
abbrev pub sends_end : List Bytes → List Action
sends_end [] = []
sends_end (p ∷ ps) = send_ends true 0 ∷ sends_end ps

-- The frames of the payloads, each under some sequence number.
abbrev pub AreFrames : List Bytes → List Output → Type 0
AreFrames [] [] = Unit {0}
AreFrames [] (o ∷ os) = ⊥
AreFrames (p ∷ ps) [] = ⊥
AreFrames (p ∷ ps) (o ∷ os) =
    ((s : ℕ) × (f : Bytes) × (Frame.encode s v6b_frame_v6a_message p ≡ ok f) × (o ≡ sent f))
    × AreFrames ps os

frame_encoded :
    (q : SequenceManager) (p : Bytes)
    → length p ≤ v6b_max_payload_size
    → (f : Bytes) × (Frame.encode (next_sequence q).1 v6b_frame_v6a_message p ≡ ok f)
unfolding next_sequence Frame.contains
frame_encoded q p h = (encode_iff _ _ p).1 (omega arith, refl, h)

-- The state at the end of a retransmission: the timer runs, and nothing is awaited.
pub record IsEnded (m n : Manager) : Type 0 where
  pub loops : n.loops ≡ []
  pub active : n.active ≡ m.active
  pub queued : n.queued ≡ m.queued
  pub objects : n.objects ≡ m.objects
  pub timer : n.retry_timer ≡ true
  pub idle : n.retransmitting ≡ false
  pub can_send : n.has_send_fn ≡ m.has_send_fn

-- The end of a live retransmission of the active message.
finish-live :
    (now r : ℕ) (m : Manager)
    → (m.objects r).acked ≡ false
    → m.active ≡ some r
    → finish now r m.retransmit_generation m
      ≡ (record m { retransmitting = false; retry_timer = true }, [])
unfolding finish
finish-live now r m f e =
    let itself : is_message (m.objects r).message_id m.active m.objects ≡ true =
      ap (λ (o : Option ℕ). is_message (m.objects r).message_id o m.objects) e
      ∙ (text_eq.equals_iff (m.objects r).message_id (m.objects r).message_id).1 refl in
    rw (finish, nat_beq_self m.retransmit_generation, f, itself) refl

run_loop-next :
    (now r : ℕ) (p : Bytes) (ps : List Bytes) (m : Manager)
    → (m.objects r).acked ≡ false
    → m.loops ≡ []
    → length p ≤ v6b_max_payload_size
    → (f : Bytes) × (Frame.encode (next_sequence m.sequences).1 v6b_frame_v6a_message p ≡ ok f)
      × (run_loop now r m.retransmit_generation (p ∷ ps) m ≡ (
        record m {
          sequences = (next_sequence m.sequences).0;
          loops = record { message = r; generation = m.retransmit_generation; rest = ps } ∷ [];
        },
        sent f ∷ [],
      ))
unfolding run_loop send_frame
run_loop-next now r p ps m f none_awaited h =
    let (frame, e) = frame_encoded m.sequences p h in
    (
      frame,
      e,
      rw (nat_beq_self m.retransmit_generation, f, e)
          (ap
            (λ (ls : List Loop). (
              record m {
                sequences = (next_sequence m.sequences).0;
                loops =
                    ls
                    ++ record { message = r; generation = m.retransmit_generation; rest = ps } ∷ [];
              },
              sent frame ∷ [],
            ))
            none_awaited),
    )

resume-only :
    (now : ℕ) (l : Loop) (m : Manager)
    → m.loops ≡ l ∷ []
    → resume now true 0 m ≡ run_loop now l.message l.generation l.rest (record m { loops = [] })
unfolding resume resume_loop
resume-only now l m e =
    ap (λ (ls : List Loop). resume_loop (get_elem? ls 0) true 0 now m) e
    ∙ ap
        (λ (ls : List Loop).
          run_loop now l.message l.generation l.rest (record m { loops = remove_at ls 0 }))
        e

IsEnded-moved : (m n n' : Manager) → n ≡ n' → IsEnded m n' → IsEnded m n
IsEnded-moved m n n' e h = rw e h

IsEnded-same :
    (m m' n : Manager)
    → m'.active ≡ m.active
    → m'.queued ≡ m.queued
    → m'.objects ≡ m.objects
    → m'.has_send_fn ≡ m.has_send_fn
    → IsEnded m' n
    → IsEnded m n
IsEnded-same m m' n a q o s h = record {
  loops = h.loops;
  active = h.active ∙ a;
  queued = h.queued ∙ q;
  objects = h.objects ∙ o;
  timer = h.timer;
  idle = h.idle;
  can_send = h.can_send ∙ s;
}

-- A state and its outputs, and those of the ends of the sends that follow.
abbrev IsRun : (ℕ → ℕ) → ℕ → List Bytes → List Action → Manager → Outcome → Type 0
IsRun clock k ps actions m a =
    IsEnded m (run_actions clock k actions a.0).0
    × AreFrames ps (a.1 ++ (run_actions clock k actions a.0).1)

-- A live retransmission sends all its payloads, one after the other, and ends.
pub loop_runs :
    (ps : List Bytes) (clock : ℕ → ℕ) (k now r : ℕ) (m : Manager)
    → (m.objects r).acked ≡ false
    → m.active ≡ some r
    → m.loops ≡ []
    → All (λ p. length p ≤ v6b_max_payload_size) ps
    → IsRun clock k ps (sends_end ps) m (run_loop now r m.retransmit_generation ps m)
unfolding run_actions
loop_runs [] clock k now r m f e l fit =
    let ends : run_loop now r m.retransmit_generation [] m
        ≡ (record m { retransmitting = false; retry_timer = true }, []) =
      (unfold run_loop in finish-live now r m f e) in
    rw ends (
      record {
        loops = l;
        active = refl;
        queued = refl;
        objects = refl;
        timer = refl;
        idle = refl;
        can_send = refl;
      },
      tt,
    )
loop_runs (p ∷ ps) clock k now r m f e l (h, fit) =
    let (frame, encoded, next) = run_loop-next now r p ps m f l h in
    let m1 = record m {
      sequences = (next_sequence m.sequences).0;
      loops = record { message = r; generation = m.retransmit_generation; rest = ps } ∷ [];
    } in
    let m2 : Manager = record m1 { loops = [] } in
    let resumed : perform (clock k) (send_ends true 0) m1
        ≡ run_loop (clock k) r m.retransmit_generation ps m2 =
      (unfold perform in resume-only (clock k) _ m1 refl) in
    let (ended, frames) = loop_runs ps clock (k + 1) (clock k) r m2 f e refl fit in
    let same : (run_actions clock k (sends_end (p ∷ ps)) m1).0
        ≡ (run_actions clock (k + 1) (sends_end ps)
            (run_loop (clock k) r m.retransmit_generation ps m2).0).0 =
      ap (λ (x : Outcome). (run_actions clock (k + 1) (sends_end ps) x.0).0) resumed in
    rw next (
      IsEnded-moved m _ _ same (IsEnded-same m m2 _ refl refl refl refl ended),
      rw resumed (((next_sequence m.sequences).1, frame, encoded, refl), frames),
    )
