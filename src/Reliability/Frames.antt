-- ===== src/Reliability/Frames.antt =====
-- The frames that src/protocol/ReliabilityManager.ts sends again.
use i_tantra.Base.{
  ℕ, ◌≡◌, ◌≢◌, refl, Bool, true, false, not, ◌||◌, List, [], ◌∷◌, Option, none, some, Result, ok,
  err, nat_beq, nat_beq_iff, get_elem?, text_eq, Bool-cases, if-split, inl, inr, arith,
}
use i_tantra.Bytes.{Bytes}
use i_tantra.Frame
use i_tantra.Frame.{v6b_frame_v6a_message}
use i_tantra.Sequence.{next_sequence}
use i_tantra.Reliability.State.{Loop, Manager, Outcome, sent}
use i_tantra.Reliability.Sender.{promote, promote_queued, is_message}
use i_tantra.Reliability.Retransmit.{finish, send_frame, run_loop}
use i_tantra.Reliability.System.{resume_loop, resume, Reach}
use i_tantra.Reliability.Invariant.{Inv}
use i_tantra.Reliability.Invariant.Calls.{resumed-Held, Reach-Inv}

promote-silent :
    (o : Option ℕ) (now : ℕ) (m : Manager) (f : Bytes) → (promote o now m).1 ≢ sent f ∷ []
unfolding promote
promote-silent none now m f e = cc
promote-silent (some q) now m f e = cc

-- The end of a retransmission sends nothing.
finish-silent : (now r g : ℕ) (m : Manager) (f : Bytes) → (finish now r g m).1 ≢ sent f ∷ []
unfolding finish promote_queued
finish-silent now r g m f =
    let P : Outcome → Type 0 = λ n. n.1 ≢ sent f ∷ [] in
    if-split P (not (nat_beq m.retransmit_generation g)) (λ _ e. cc)
      (λ _.
        if-split P (m.objects r).acked (λ _. promote-silent m.queued now _ f)
          (λ _.
            if-split P (is_message (m.objects r).message_id m.active m.objects) (λ _ e. cc)
              (λ _ e. cc)))

send_frame-sends :
    (x : Result Frame.FrameError Bytes) (now r g : ℕ) (ps : List Bytes) (m : Manager) (f : Bytes)
    → (send_frame x now r g ps m).1 ≡ sent f ∷ []
    → x ≡ ok f
unfolding send_frame
send_frame-sends (ok x) now r g ps m f e = cc
send_frame-sends (err x) now r g ps m f e = absurd (finish-silent now r g m f e)

-- What a loop sends is a frame of its next payload, while it is current and its message not acknowledged.
run_loop-sends :
    (now r g : ℕ) (qs : List Bytes) (m : Manager) (f : Bytes)
    → (run_loop now r g qs m).1 ≡ sent f ∷ []
    → (p : Bytes) × (ps : List Bytes) × (qs ≡ p ∷ ps)
      × (m.retransmit_generation ≡ g)
      × ((m.objects r).acked ≡ false)
      × (Frame.encode (next_sequence m.sequences).1 v6b_frame_v6a_message p ≡ ok f)
unfolding run_loop
run_loop-sends now r g [] m f e = absurd (finish-silent now r g m f e)
run_loop-sends now r g (p ∷ ps) m f e =
    elim (Bool-cases (not (nat_beq m.retransmit_generation g) || (m.objects r).acked)) [
      | inl t ↦ absurd (finish-silent now r g m f (rw t at e))
      | inr n ↦ (
        p,
        ps,
        refl,
        ground (arith, n, nat_beq_iff m.retransmit_generation g),
        ground (arith, n),
        send_frame-sends _ now r g ps _ f (rw n at e),
      )
    ]

resume_loop-sends :
    (o : Option Loop) (now i : ℕ) (delivered : Bool) (f : Bytes) (m : Manager)
    → get_elem? m.loops i ≡ o
    → Inv m
    → (resume_loop o delivered i now m).1 ≡ sent f ∷ []
    → (l : Loop) × (p : Bytes) × (ps : List Bytes) × (get_elem? m.loops i ≡ some l)
      × (l.rest ≡ p ∷ ps)
      × (m.active ≡ some l.message)
      × ((m.objects l.message).acked ≡ false)
      × (Frame.encode (next_sequence m.sequences).1 v6b_frame_v6a_message p ≡ ok f)
unfolding resume_loop
resume_loop-sends none now i delivered f m k h e = cc
resume_loop-sends (some l) now i false f m k h e =
    absurd (finish-silent now l.message l.generation _ f e)
resume_loop-sends (some l) now i true f m k h e =
    let (p, ps, rest, live, fresh, frame) =
      run_loop-sends now l.message l.generation l.rest _ f e in
    (l, p, ps, k, rest, (resumed-Held i l m k h).about live, fresh, frame)

-- In a reachable state, when an awaited send ends and the retransmission goes on to send a frame, the
-- retransmission is one of the active message, which is not acknowledged, and the frame is the encoding
-- of its next payload under the next sequence number.
pub resume-sends :
    {b : Bool} {m : Manager} (now i : ℕ) (delivered : Bool) (f : Bytes)
    → Reach b m
    → (resume now delivered i m).1 ≡ sent f ∷ []
    → (l : Loop) × (p : Bytes) × (ps : List Bytes) × (get_elem? m.loops i ≡ some l)
      × (l.rest ≡ p ∷ ps)
      × (m.active ≡ some l.message)
      × ((m.objects l.message).acked ≡ false)
      × (Frame.encode (next_sequence m.sequences).1 v6b_frame_v6a_message p ≡ ok f)
unfolding resume
resume-sends {m = m} now i delivered f h e =
    resume_loop-sends (get_elem? m.loops i) now i delivered f m refl (Reach-Inv h) e
