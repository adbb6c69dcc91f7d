-- ===== src/Sequence/Serial.antt =====
-- `validate` of src/protocol/SequenceValidator.ts and serial-number arithmetic.
use i_tantra.Base.{
  ℕ, ◌+◌, ◌-◌, ◌%◌, ◌^◌, ◌<◌, ◌≡◌, ◌≢◌, refl, true, false, some, leb, nat_beq, Bool-cases,
  Option-cases, inl, inr, Text, text_eq, ap, if◌then◌else◌, arith,
}
use i_tantra.Base.Int.{ℤ, ltb_ℤ-pos, pos, ◌+ℤ◌, ◌-ℤ◌, beq_ℤ, rem_ℤ, signed32, unsigned32}
use i_tantra.Base.Dict
use i_tantra.Base.Dict.{lookup-insert_ne, lookup-insert_self}
use native.Mathlib.Decide.{ℕ_discrete}
use i_tantra.Sequence.{
  ValidationResult, SourceState, Sources, accepted, after_gap, rejected, expected_after,
  forward_distance, compare_with_last, validate,
}

-- How far `b` lies ahead of `a` on the circle of 32-bit numbers.
abbrev pub ahead : ℕ → ℕ → ℕ
ahead a b = (b + 2 ^ 32 - a) % 2 ^ 32

-- The verdict that serial-number arithmetic gives.
abbrev pub serial_verdict : ℕ → ValidationResult
serial_verdict d =
    if nat_beq d 0
    then rejected
    else if nat_beq d 1
    then accepted
    else if leb d (2 ^ 31)
    then after_gap
    else rejected

expected_signed : (a : ℕ) → a < 2 ^ 32 → expected_after (signed32 a) ≡ signed32 ((a + 1) % 2 ^ 32)
unfolding expected_after signed32 unsigned32 ◌+ℤ◌
expected_signed a h = ground arith

distance_signed :
    (a b : ℕ)
    → a < 2 ^ 32
    → b < 2 ^ 32
    → b ≢ a
    → forward_distance (signed32 a) (signed32 b) ≡ pos (ahead a b - 1)
unfolding forward_distance signed32 rem_ℤ ◌+ℤ◌ ◌-ℤ◌
distance_signed a b ha hb ne = ground arith

beq_signed : (a b : ℕ) → a < 2 ^ 32 → b < 2 ^ 32 → beq_ℤ (signed32 a) (signed32 b) ≡ nat_beq a b
unfolding beq_ℤ signed32
beq_signed a b ha hb = ground arith

-- On sequence numbers as `decode` returns them the validator decides by the distance `d` from the
-- last number to the new one, modulo 2 ^ 32: none for d = 0, the next one for d = 1, ahead with a gap
-- for d up to 2 ^ 31, behind for a larger d.
pub compare_with_last-serial :
    (a b : ℕ)
    → a < 2 ^ 32
    → b < 2 ^ 32
    → compare_with_last (signed32 a) (signed32 b) ≡ serial_verdict (ahead a b)
unfolding compare_with_last
compare_with_last-serial a b ha hb =
    rw
      (beq_signed b a hb ha, expected_signed a ha, beq_signed b ((a + 1) % 2 ^ 32) hb (omega arith))
      (elim (ℕ_discrete b a) [
        | yes e ↦ ground arith
        | no ne ↦ rw (distance_signed a b ha hb ne, ltb_ℤ-pos) (ground arith)
      ])

compare_same : (s : ℤ) → compare_with_last s s ≡ rejected
unfolding compare_with_last beq_ℤ
compare_same s = ground arith

-- Once `s` is a source's last number, it is rejected.
reject_last :
    (i : Text) (s : ℤ) (st : SourceState) (m : Sources)
    → st.initialized ≡ true
    → st.last_received ≡ s
    → (validate i s (Dict.insert i st m)).1 ≡ rejected
unfolding validate
reject_last i s st m h k = rw (lookup-insert_self i st m, h, k, compare_same s)

-- What `validate` does for a known source whose number is rejected.
reject_again :
    (i : Text) (s : ℤ) (st : SourceState) (m : Sources)
    → Dict.lookup i m ≡ some st
    → st.initialized ≡ true
    → (compare_with_last st.last_received s).valid ≡ false
    → (validate i s (validate i s m).0).1 ≡ compare_with_last st.last_received s
unfolding validate
reject_again i s st m e h k = rw (e, h, k, e, h, k)

-- A sequence number offered twice in a row by one source is rejected the second time, whatever the
-- validator knew before.
pub validate_twice :
    (i : Text) (s : ℤ) (m : Sources) → ((validate i s (validate i s m).0).1).valid ≡ false
unfolding validate
validate_twice i s m = elim (Option-cases (Dict.lookup i m)) [
  | inl e ↦ rw (e) (ap (λ (r : ValidationResult). r.valid) (reject_last i s _ m refl refl))
  | inr (st, e) ↦ elim (Bool-cases st.initialized) [
    | inr f ↦ rw (e, f) (ap (λ (r : ValidationResult). r.valid) (reject_last i s _ m refl refl))
    | inl t ↦ elim (Bool-cases (compare_with_last st.last_received s).valid) [
      | inl v ↦
          rw (e, t, v) (ap (λ (r : ValidationResult). r.valid) (reject_last i s _ m refl refl))
      | inr v ↦ rw (reject_again i s st m e t v) v
    ]
  ]
]

-- A verdict on one source leaves what is known of every other source as it was.
pub validate_other :
    (i j : Text) (s : ℤ) (m : Sources) → i ≢ j → Dict.lookup j (validate i s m).0 ≡ Dict.lookup j m
unfolding validate
validate_other i j s m ne = elim (Option-cases (Dict.lookup i m)) [
  | inl e ↦ rw e (lookup-insert_ne i j _ m ne)
  | inr (st, e) ↦ elim (Bool-cases st.initialized) [
    | inr f ↦ rw (e, f) (lookup-insert_ne i j _ m ne)
    | inl t ↦ elim (Bool-cases (compare_with_last st.last_received s).valid) [
      | inl v ↦ rw (e, t, v) (lookup-insert_ne i j _ m ne)
      | inr v ↦ rw (e, t, v)
    ]
  ]
]
