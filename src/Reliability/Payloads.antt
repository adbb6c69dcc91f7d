-- ===== src/Reliability/Payloads.antt =====
-- The ACK and NACK payloads and the NACK limit of src/protocol/ReliabilityManager.ts.
use i_tantra.Base.{
  ℕ, ◌+◌, ◌%◌, ◌^◌, ◌≤◌, ◌<◌, ◌≡◌, refl, sym, ap, ◌∙◌, Bool, true, false, List, [], ◌∷◌, ◌++◌,
  Option, none, some, ltb, leb, ltb-false, lt_of_leb, length, length-append, length-filter-le,
  filter, Text, if◌then◌else◌, Bool-cases, inl, inr, arith,
}
use i_tantra.Bytes.{Bytes, zeros, set_byte, byte_at, write_uint32_be, read_uint32_be}
use i_tantra.Bytes.Laws.{uint64_bytes}
use i_tantra.NodeId.{write_id_be, read_id_be}
use i_tantra.NodeId.Hex.{value-format}
use i_tantra.NodeId.Normal.{normalize_id-eq-ok}
use i_tantra.Packet.RoundTrip.{IsNormal}
use i_tantra.Reliability.State.{Manager}

abbrev pub ack_payload_size : ℕ
ack_payload_size = 8

abbrev pub nack_payload_size : ℕ
nack_payload_size = 10

abbrev pub max_nacks_per_second : ℕ
max_nacks_per_second = 4

-- The identifier is a number in hex, as `decode` of a message gives it.
unfoldable pub build_ack_payload : Text → Bytes
build_ack_payload message_id = write_id_be (zeros ack_payload_size) 0 message_id

unfoldable pub parse_ack_payload : Bytes → Option Text
parse_ack_payload payload =
    let id = read_id_be payload 0 in if ltb (length payload) ack_payload_size then none else some id

unfoldable pub build_nack_payload : ℕ → ℕ → Bytes
build_nack_payload group_id reason =
    set_byte (write_uint32_be (zeros nack_payload_size) 0 group_id) 4 reason

-- The group and the reason.
unfoldable pub parse_nack_payload : Bytes → Option (ℕ × ℕ)
parse_nack_payload payload =
    if ltb (length payload) nack_payload_size
    then none
    else some (read_uint32_be payload 0, byte_at payload 4)

-- The new state, and whether a NACK may be sent.
unfoldable pub can_nack : ℕ → Manager → Manager × Bool
can_nack now m =
    let recent = filter (λ t. ltb now (t + 1000)) m.nack_timestamps in
    if leb max_nacks_per_second (length recent)
    then (record m { nack_timestamps = recent }, false)
    else (record m { nack_timestamps = recent ++ now ∷ [] }, true)

-- The identifier of a message in normal form is read back from its acknowledgement, which has eight
-- bytes, whatever follows them.
pub parse_ack_payload-build_ack_payload :
    (id : Text) (rest : Bytes)
    → IsNormal id
    → (length (build_ack_payload id) ≡ 8)
      × (parse_ack_payload (build_ack_payload id ++ rest) ≡ some id)
unfolding build_ack_payload parse_ack_payload write_id_be read_id_be
parse_ack_payload-build_ack_payload id rest n =
    let (v, h, e) = normalize_id-eq-ok _ _ n in
    let long : ltb (length (build_ack_payload id ++ rest)) ack_payload_size ≡ false =
      ltb-false (length (build_ack_payload id ++ rest)) 8 (omega arith) in
    rw long (rw (e, value-format v h) (refl, rw (uint64_bytes v h) refl))

-- The group and the reason of a refusal are read back, for a 32-bit group and a reason of one byte.
pub parse_nack_payload-build_nack_payload :
    (group reason : ℕ)
    → group < 2 ^ 32
    → reason < 256
    → parse_nack_payload (build_nack_payload group reason) ≡ some (group, reason)
unfolding parse_nack_payload build_nack_payload
parse_nack_payload-build_nack_payload group reason h k =
    let same_reason : reason % 256 ≡ reason = omega arith in
    let same_group : read_uint32_be (build_nack_payload group reason) 0 ≡ group = omega arith in
    rw (same_reason, same_group) refl

-- t is less than a second before `now`.
abbrev pub is_recent : ℕ → ℕ → Bool
is_recent now t = ltb now (t + 1000)

-- Calls of `can_nack` one after the other, and the times at which a NACK was allowed.
unfoldable pub nacks : List ℕ → Manager → List ℕ → Manager × List ℕ
nacks [] m log = (m, log)
nacks (now ∷ times) m log =
    let (next, allowed) = can_nack now m in
    let granted = nacks times next (log ++ now ∷ []) in
    let refused = nacks times next log in if allowed then granted else refused

abbrev pub IsAscending : ℕ → List ℕ → Type 0
IsAscending t [] = Unit {0}
IsAscending t (u ∷ us) = (t ≤ u) × IsAscending u us

abbrev pub last : ℕ → List ℕ → ℕ
last t [] = t
last t (u ∷ us) = last u us

filter-filter :
    (t u : ℕ) (xs : List ℕ)
    → t ≤ u
    → filter (is_recent u) (filter (is_recent t) xs) ≡ filter (is_recent u) xs
unfolding filter
filter-filter t u [] h = refl
filter-filter t u (x ∷ xs) h = ground (arith, h, filter-filter t u xs h)

filter-append_self :
    (t : ℕ) (xs : List ℕ) → filter (is_recent t) (xs ++ t ∷ []) ≡ filter (is_recent t) xs ++ t ∷ []
unfolding filter
filter-append_self t [] = ground arith
filter-append_self t (x ∷ xs) = ground (arith, filter-append_self t xs)

-- Within any second up to the last of a run of calls at ascending times, four NACKs at most are allowed.
pub nacks-limit :
    (t : ℕ) (times : List ℕ) (m : Manager) (log : List ℕ)
    → IsAscending t times
    → m.nack_timestamps ≡ filter (is_recent t) log
    → length m.nack_timestamps ≤ 4
    → length (filter (is_recent (last t times)) (nacks times m log).1) ≤ 4
unfolding nacks can_nack
nacks-limit t [] m log h e l = rw (← e) l
nacks-limit t (now ∷ times) m log (le, h) e l =
    let recent = filter (is_recent now) m.nack_timestamps in
    let same : recent ≡ filter (is_recent now) log =
      ap (filter (is_recent now)) e ∙ filter-filter t now log le in
    elim (Bool-cases (leb max_nacks_per_second (length recent))) [
      | inl full ↦ rw full (
          nacks-limit now times (record m { nack_timestamps = recent }) log h same
            (omega (arith, l, length-filter-le (is_recent now) m.nack_timestamps)))
      | inr free ↦ rw free (
          nacks-limit now times (record m { nack_timestamps = recent ++ now ∷ [] })
            (log ++ now ∷ []) h (ap (λ x. x ++ now ∷ []) same ∙ sym (filter-append_self now log))
            (omega (arith, length-append recent (now ∷ []), lt_of_leb 4 (length recent) free)))
    ]
