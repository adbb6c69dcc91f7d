-- ===== src/Sequence/Counter.antt =====
-- The counter of src/protocol/SequenceManager.ts over many calls.
use i_tantra.Base.{ℕ, zero, suc, ◌+◌, ◌%◌, ◌^◌, ◌<◌, ◌≡◌, refl, ◌∙◌, arith, ◌≢◌}
use i_tantra.Sequence.{SequenceManager, new_manager, next_sequence, peek}

-- The manager after `n` calls of `nextSequence`.
unfoldable pub after_calls : ℕ → SequenceManager → SequenceManager
after_calls zero m = m
after_calls (suc n) m = after_calls n (next_sequence m).0

after_calls-counter :
    (n c : ℕ) → c < 2 ^ 32 → (after_calls n (record { counter = c })).counter ≡ (c + n) % 2 ^ 32
unfolding after_calls next_sequence
after_calls-counter zero c h = omega arith
after_calls-counter (suc n) c h =
    after_calls-counter n ((c + 1) % 2 ^ 32) (omega arith) ∙ omega arith

-- The (n + 1)-th number that a new manager gives out is its initial number plus n, modulo 2 ^ 32, and
-- it is the number that `peek` announced.
pub next_sequence-after_calls :
    (n initial : ℕ)
    → ((next_sequence (after_calls n (new_manager initial))).1 ≡ (initial + n) % 2 ^ 32)
      × (peek (after_calls n (new_manager initial))
          ≡ (next_sequence (after_calls n (new_manager initial))).1)
unfolding next_sequence peek new_manager
next_sequence-after_calls n initial =
    (omega (arith, after_calls-counter n (initial % 2 ^ 32) (omega arith)), refl)

-- Fewer than 2 ^ 32 calls apart, a manager never gives out the same number twice.
pub next_sequence-distinct :
    (i j initial : ℕ)
    → i < j
    → j < i + 2 ^ 32
    → (next_sequence (after_calls i (new_manager initial))).1
      ≢ (next_sequence (after_calls j (new_manager initial))).1
next_sequence-distinct i j initial h k e =
    omega
      (arith, e, (next_sequence-after_calls i initial).0, (next_sequence-after_calls j initial).0)
