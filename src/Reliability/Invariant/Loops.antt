-- ===== src/Reliability/Invariant/Loops.antt =====
-- The retransmissions under way in src/protocol/ReliabilityManager.ts, by their generation.
use i_tantra.Base.{
  ℕ, zero, suc, ◌+◌, ◌≤◌, ◌≡◌, refl, Bool, true, false, List, [], ◌∷◌, ◌++◌, Option, none, some,
  nat_beq, nat_beq_iff, Bool-cases, inl, inr, get_elem?, All, arith,
}
use i_tantra.Reliability.State.{Loop}
use i_tantra.Reliability.System.{remove_at}

abbrev pub bit : Bool → ℕ
bit true = 1
bit false = 0

-- The number of loops of a generation.
abbrev pub current : ℕ → List Loop → ℕ
current g [] = 0
current g (l ∷ ls) = bit (nat_beq l.generation g) + current g ls

-- A loop is of a past generation, or of the current one and about the active message.
abbrev pub IsKnown : ℕ → Option ℕ → Loop → Type 0
IsKnown g a l = (l.generation ≤ g) × (l.generation ≡ g → a ≡ some l.message)

-- Without a current loop any message may become active.
pub IsKnown-none :
    (g : ℕ) (a b : Option ℕ) (ls : List Loop)
    → current g ls ≡ 0
    → All (IsKnown g a) ls
    → All (IsKnown g b) ls
IsKnown-none g a b [] h k = k
IsKnown-none g a b (l ∷ ls) h ((le, _), k) =
    ((le, λ e. absurd (ground (arith, e, h))), IsKnown-none g a b ls (omega (arith, h)) k)

-- In the next generation every loop is of a past one.
pub IsKnown-later :
    (g : ℕ) (a b : Option ℕ) (ls : List Loop)
    → All (IsKnown g a) ls
    → All (IsKnown (suc g) b) ls × (current (suc g) ls ≡ 0)
IsKnown-later g a b [] k = (k, refl)
IsKnown-later g a b (l ∷ ls) ((le, _), k) =
    let (old, zero_left) = IsKnown-later g a b ls k in
    (((omega (arith, le), λ e. absurd (omega (arith, le, e))), old), ground (arith, le, zero_left))

pub current-append :
    (g : ℕ) (ls : List Loop) (l : Loop)
    → current g (ls ++ l ∷ []) ≡ current g ls + bit (nat_beq l.generation g)
current-append g [] l = omega arith
current-append g (x ∷ ls) l = omega (arith, current-append g ls l)

pub current-remove_at :
    (g : ℕ) (ls : List Loop) (i : ℕ) (l : Loop)
    → get_elem? ls i ≡ some l
    → current g (remove_at ls i) + bit (nat_beq l.generation g) ≡ current g ls
current-remove_at g [] i l h = cc
current-remove_at g (x ∷ ls) zero l h = let same : x ≡ l = cc in rw (← same) (omega arith)
current-remove_at g (x ∷ ls) (suc i) l h = omega (arith, current-remove_at g ls i l h)

pub All-remove_at {κ} :
    (P : Loop → Type κ) (ls : List Loop) (i : ℕ) → All P ls → All P (remove_at ls i)
All-remove_at P [] i h = h
All-remove_at P (x ∷ ls) zero h = h.1
All-remove_at P (x ∷ ls) (suc i) (h, hs) = (h, All-remove_at P ls i hs)

pub All-get_elem? {κ} :
    (P : Loop → Type κ) (ls : List Loop) (i : ℕ) (l : Loop)
    → get_elem? ls i ≡ some l
    → All P ls
    → P l
All-get_elem? P [] i l h k = cc
All-get_elem? P (x ∷ ls) zero l h k = let same : x ≡ l = cc in rw (← same) k.0
All-get_elem? P (x ∷ ls) (suc i) l h (k, ks) = All-get_elem? P ls i l h ks

-- Without an active message no loop is current.
pub current_idle : (g : ℕ) (ls : List Loop) → All (IsKnown g none) ls → current g ls ≡ 0
current_idle g [] k = refl
current_idle g (l ∷ ls) ((_, about), k) = elim (Bool-cases (nat_beq l.generation g)) [
  | inl t ↦ absurd (let same = about ((nat_beq_iff l.generation g).0 t) in cc)
  | inr f ↦ rw f (omega (arith, current_idle g ls k))
]
