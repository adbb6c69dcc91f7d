-- ===== src/Reliability/Timeouts.antt =====
-- The counted retries of src/protocol/ReliabilityManager.ts, and the last timeout.
use i_tantra.Base.{
  ℕ, suc, ◌≡◌, refl, ap, ◌∙◌, true, List, ◌∷◌, Option, none, some, ltb, nat_beq_self, text_eq,
  arith,
}
use i_tantra.Reliability.State.{
  EventType, Manager, Output, Outcome, max_retries, event_of, max_retries_reached,
}
use i_tantra.Reliability.Sender.{promote, promote_queued}
use i_tantra.Reliability.Retransmit.{count_retry, give_up, retry, timeout_active}

pub counted_event :
    (t : EventType) (now r : ℕ) (m : Manager)
    → event_of t ((count_retry now r m).objects r) ≡ event_of t (m.objects r)
unfolding count_retry
counted_event t now r m = rw (nat_beq_self r) refl

pub counted_acked :
    (now r : ℕ) (m : Manager) → ((count_retry now r m).objects r).acked ≡ (m.objects r).acked
unfolding count_retry
counted_acked now r m = rw (nat_beq_self r) refl

pub counted_count :
    (now r : ℕ) (m : Manager)
    → ((count_retry now r m).objects r).retry_count ≡ suc (m.objects r).retry_count
unfolding count_retry
counted_count now r m = rw (nat_beq_self r) refl

-- A message is given up: the queued one takes its place.
abbrev pub IsGivenUp : ℕ → Manager → Outcome → Type 0
IsGivenUp r m n =
    (n.0.active ≡ m.queued)
    × (n.0.queued ≡ none)
    × ((rest : List Output) × (n.1 ≡ event_of max_retries_reached (m.objects r) ∷ rest))

headed : (a b : Output) (xs : List Output) → a ≡ b → (rest : List Output) × (a ∷ xs ≡ b ∷ rest)
headed a b xs e = (xs, ap (λ x. x ∷ xs) e)

promoted_active :
    (o : Option ℕ) (now : ℕ) (m : Manager)
    → m.active ≡ none
    → m.queued ≡ o
    → ((promote o now m).0.active ≡ o) × ((promote o now m).0.queued ≡ none)
unfolding promote
promoted_active none now m e q = (e, q)
promoted_active (some r) now m e q = (refl, refl)

pub timeout_active-IsGivenUp :
    (o : Option ℕ) (r now : ℕ) (m : Manager)
    → o ≡ some r
    → (m.objects r).retry_count ≡ 3
    → IsGivenUp r m (timeout_active o now m)
unfolding timeout_active retry give_up promote_queued
timeout_active-IsGivenUp none r now m o l = cc
timeout_active-IsGivenUp (some q) r now m o l =
    let same : q ≡ r = cc in
    let last : ltb max_retries ((count_retry now r m).objects r).retry_count ≡ true =
      unfold count_retry in ground (arith, l) in
    rw (same, last)
      (
        (promoted_active (count_retry now r m).queued now _ refl refl).0
            ∙ (unfold count_retry in refl),
        (promoted_active (count_retry now r m).queued now _ refl refl).1,
        headed _ _ _ (counted_event max_retries_reached now r m),
      )
