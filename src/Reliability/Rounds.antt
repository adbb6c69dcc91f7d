-- ===== src/Reliability/Rounds.antt =====
-- The timeouts of src/protocol/ReliabilityManager.ts, each with the retransmission that follows it.
use i_tantra.Base.{
  ℕ, zero, suc, ◌≤◌, ◌≡◌, true, false, List, [], ◌∷◌, ◌++◌, some, All, length, text_eq,
}
use i_tantra.Bytes.{Bytes}
use i_tantra.Frame.{v6b_max_payload_size}
use i_tantra.Reliability.State.{Manager, Output, Outcome}
use i_tantra.Reliability.Retransmit.{count_retry}
use i_tantra.Reliability.System.{Action, timer_fires}
use i_tantra.Reliability.Drain.{run_actions, sends_end, AreFrames}

-- Between a timeout and the retransmission of the message: the retry is counted.
abbrev counted : ℕ → ℕ → Manager → Manager
counted now r m = count_retry now r (record m { retry_timer = false })

-- A timeout and the retransmission that it starts.
abbrev pub a_round : List Bytes → List Action
a_round ps = timer_fires ∷ sends_end ps

-- The message at rest: it is active and not acknowledged, the timer runs, and no send is awaited.
pub record IsResting (r : ℕ) (m : Manager) : Type 0 where
  pub active : m.active ≡ some r
  pub fresh : (m.objects r).acked ≡ false
  pub timer : m.retry_timer ≡ true
  pub can_send : m.has_send_fn ≡ true
  pub idle : m.retransmitting ≡ false
  pub none_awaited : m.loops ≡ []

abbrev Fit : List Bytes → Type 0
Fit = All (λ p. length p ≤ v6b_max_payload_size)

-- What a round leaves: the message at rest, with one more retry counted.
abbrev IsRetried : ℕ → ℕ → Manager → Manager → Type 0
IsRetried now r m n =
    IsResting r n × (n.queued ≡ m.queued) × (n.objects ≡ (count_retry now r m).objects)

-- Where the retransmission of a counted retry starts.
abbrev started : ℕ → ℕ → Manager → Manager
started now r m = record (counted now r m) {
  retransmitting = true;
  retransmit_generation = suc m.retransmit_generation;
}

-- Rounds one after the other, with a clock for each.
unfoldable pub rounds : (ℕ → ℕ → ℕ) → List Bytes → ℕ → Manager → Outcome
unfolding run_actions
rounds clock ps zero m = (m, [])
rounds clock ps (suc j) m =
    let (m1, first) = run_actions (clock j) 0 (a_round ps) m in
    let (m2, others) = rounds clock ps j m1 in (m2, first ++ others)

-- In every round the notice, and then the frames of all payloads.
abbrev pub AreRounds : Output → List Bytes → ℕ → List Output → Type 0
AreRounds notice ps zero os = os ≡ []
AreRounds notice ps (suc j) os =
    (frames : List Output) × (others : List Output) × (os ≡ (notice ∷ frames) ++ others)
    × AreFrames ps frames
    × AreRounds notice ps j others
