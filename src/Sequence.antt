-- ===== src/Sequence.antt =====
-- Outbound sequence numbers (src/protocol/SequenceManager.ts) and the check of inbound ones
-- (src/protocol/SequenceValidator.ts).
pub mod Counter
pub mod Serial
use i_tantra.Base.{
  ℕ, ◌+◌, ◌%◌, ◌^◌, Bool, true, false, List, Option, none, some, ltb, leb, Text, text_eq,
  if◌then◌else◌,
}
use i_tantra.Base.Int.{ℤ, pos, ◌+ℤ◌, ◌-ℤ◌, ltb_ℤ, beq_ℤ, rem_ℤ, signed32, unsigned32}
use i_tantra.Base.Dict

abbrev pub uint32_max : ℕ
uint32_max = 0xffffffff

pub record SequenceManager : Type 0 where
  pub counter : ℕ

-- (initialSequence & UINT32_MAX) >>> 0
unfoldable pub new_manager : ℕ → SequenceManager
new_manager initial_sequence = record { counter = initial_sequence % 2 ^ 32 }

-- The number given out, and the manager with its counter moved on.
unfoldable pub next_sequence : SequenceManager → SequenceManager × ℕ
next_sequence m = (record { counter = (m.counter + 1) % 2 ^ 32 }, m.counter % 2 ^ 32)

unfoldable pub peek : SequenceManager → ℕ
peek m = m.counter % 2 ^ 32

pub record ValidationResult : Type 0 where
  pub valid : Bool
  pub gap : Bool
  pub duplicate : Bool

pub record SourceState : Type 0 where
  pub initialized : Bool
  pub last_received : ℤ

abbrev pub Sources : Type 0
Sources = List (Text × SourceState)

abbrev pub accepted : ValidationResult
accepted = record { valid = true; gap = false; duplicate = false }

abbrev pub after_gap : ValidationResult
after_gap = record { valid = true; gap = true; duplicate = false }

abbrev pub rejected : ValidationResult
rejected = record { valid = false; gap = false; duplicate = true }

-- (last + 1) & UINT32_MAX, which JavaScript gives as an int32
unfoldable pub expected_after : ℤ → ℤ
expected_after last = signed32 (unsigned32 (last +ℤ pos 1))

-- (sequence - last - 1 + 2 ^ 32) % 2 ^ 32
unfoldable pub forward_distance : ℤ → ℤ → ℤ
forward_distance last sequence =
    rem_ℤ (sequence -ℤ last -ℤ pos 1 +ℤ pos (uint32_max + 1)) (uint32_max + 1)

-- The verdict on a sequence number after `last`. `forwardDistance < UINT32_MAX / 2` compares a whole
-- number with 2147483647.5.
unfoldable pub compare_with_last : ℤ → ℤ → ValidationResult
compare_with_last last sequence =
    if beq_ℤ sequence last
    then rejected
    else if beq_ℤ sequence (expected_after last)
    then accepted
    else if ltb_ℤ (forward_distance last sequence) (pos 2147483648)
    then after_gap
    else rejected

-- A source that is known: an accepted sequence number becomes its last one.
validate_known : Text → SourceState → ℤ → Sources → Sources × ValidationResult
validate_known source_id state sequence sources =
    let result = compare_with_last state.last_received sequence in
    if result.valid
    then (Dict.insert source_id (record state { last_received = sequence }) sources, result)
    else (sources, result)

validate_fresh : Text → ℤ → Sources → Sources × ValidationResult
validate_fresh source_id sequence sources = (
  Dict.insert source_id (record { initialized = true; last_received = sequence }) sources,
  accepted,
)

validate_state : Option SourceState → Text → ℤ → Sources → Sources × ValidationResult
unfolding validate_known validate_fresh
validate_state none source_id sequence sources = validate_fresh source_id sequence sources
validate_state (some state) source_id sequence sources =
    if state.initialized
    then validate_known source_id state sequence sources
    else validate_fresh source_id sequence sources

unfoldable pub validate : Text → ℤ → Sources → Sources × ValidationResult
unfolding validate_state
validate source_id sequence sources =
    validate_state (Dict.lookup source_id sources) source_id sequence sources

unfoldable pub reset : Text → Sources → Sources
reset source_id sources = Dict.remove source_id sources
