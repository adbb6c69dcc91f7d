-- ===== src/Reassembly.antt =====
-- Fragments put together again: src/protocol/Reassembler.ts. One clock reading `now` serves a call.
pub mod Place
pub mod Ordered
pub mod Bounded
pub mod Pieces
pub mod InOrder
pub mod Arrive
pub mod Deliveries
use i_tantra.Base.{
  ℕ, zero, suc, ◌+◌, ◌-◌, ◌*◌, ◌/◌, ◌%◌, Bool, true, false, not, ◌||◌, List, [], ◌∷◌, ◌++◌, Option,
  none, some, ltb, leb, nat_beq, nat_eq, length, filter, map, take, set_from, Text, text_eq,
  text_beq, if◌then◌else◌,
}
use i_tantra.Base.Dict
use i_tantra.Bytes.{Bytes, zeros}
use i_tantra.Fragment.{FragmentHeader, max_fragments, max_v6a_length}

abbrev pub max_concurrent_groups : ℕ
max_concurrent_groups = 8

abbrev pub group_expiry_ms : ℕ
group_expiry_ms = 30000

abbrev pub max_group_key_length : ℕ
max_group_key_length = 128

pub record FragmentState : Type 0 where
  pub source_id : Text
  pub group_id : ℕ
  pub total_fragments : ℕ
  pub v6a_length : ℕ
  pub fragments : List (ℕ × Bytes)
  pub received_count : ℕ
  pub created_at : ℕ
  pub last_activity_at : ℕ

abbrev pub Groups : Type 0
Groups = List (Text × FragmentState)

-- The errors, in the order in which the code reports them.
pub data Reason : Type 0 where
  invalid_total_fragments invalid_fragment_index invalid_v6a_length : Reason
  conflicting_total_fragments conflicting_v6a_length bytes_exceed_length : Reason
  byte_sum_mismatch offset_mismatch : Reason

pub data ReassemblyResult : Type 0 where
  incomplete : ReassemblyResult
  complete : Bytes → ReassemblyResult
  error : Reason → ReassemblyResult

-- `${n}`: ten digits are enough for a 32-bit number.
unfoldable pub to_decimal_loop : ℕ → ℕ → Text → Text
to_decimal_loop zero n acc = acc
to_decimal_loop (suc fuel) n acc =
    let acc' = (48 + n % 10) ∷ acc in
    let rest = to_decimal_loop fuel (n / 10) acc' in if nat_beq (n / 10) 0 then acc' else rest

unfoldable pub make_group_key : Text → ℕ → Text
unfolding to_decimal_loop
make_group_key source_id group_id =
    let safe_source =
      if ltb max_group_key_length (length source_id)
      then take max_group_key_length source_id
      else source_id in
    safe_source ++ 58 ∷ to_decimal_loop 10 group_id []

-- The sum of the fragments' lengths.
unfoldable pub byte_sum : List (ℕ × Bytes) → ℕ
byte_sum [] = 0
byte_sum ((i, f) ∷ rest) = length f + byte_sum rest

-- fragments.keys(), sorted by number
unfoldable pub insert_index : ℕ × Bytes → List (ℕ × Bytes) → List (ℕ × Bytes)
insert_index (i, f) [] = (i, f) ∷ []
insert_index (i, f) ((j, g) ∷ rest) =
    if leb i j then (i, f) ∷ (j, g) ∷ rest else (j, g) ∷ insert_index (i, f) rest

unfoldable pub sort_by_index : List (ℕ × Bytes) → List (ℕ × Bytes)
unfolding insert_index
sort_by_index [] = []
sort_by_index (x ∷ xs) = insert_index x (sort_by_index xs)

-- The buffer and the offset behind the last fragment that was copied.
unfoldable pub place : List (ℕ × Bytes) → Bytes → ℕ → Bytes × ℕ
place [] buf offset = (buf, offset)
place ((i, f) ∷ rest) buf offset = place rest (set_from buf offset f) (offset + length f)

unfoldable pub try_complete : FragmentState → Text → Groups → Groups × ReassemblyResult
unfolding byte_sum sort_by_index place
try_complete state key groups =
    let (packet, offset) = place (sort_by_index state.fragments) (zeros state.v6a_length) 0 in
    if not (nat_beq (byte_sum state.fragments) state.v6a_length)
    then (Dict.remove key groups, error byte_sum_mismatch)
    else if not (nat_beq offset state.v6a_length)
    then (Dict.remove key groups, error offset_mismatch)
    else (Dict.remove key groups, complete packet)

-- The key and time of the oldest group so far, `none` for `oldestTime = Infinity`.
unfoldable pub oldest : Option (Text × ℕ) → Groups → Option (Text × ℕ)
oldest best [] = best
oldest none ((key, state) ∷ rest) = oldest (some (key, state.created_at)) rest
oldest (some (best_key, best_time)) ((key, state) ∷ rest) =
    oldest
      (if ltb state.created_at best_time
        then some (key, state.created_at)
        else some (best_key, best_time))
      rest

unfoldable pub delete_found : Option (Text × ℕ) → Groups → Groups
delete_found none groups = groups
delete_found (some (key, time)) groups = Dict.remove key groups

unfoldable pub abort_oldest_group : Groups → Groups
unfolding oldest delete_found
abort_oldest_group groups = delete_found (oldest none groups) groups

-- The groups with a state for this key, and the state.
unfoldable pub open_group :
    Option FragmentState → Text → FragmentHeader → Text → ℕ → Groups → Groups × FragmentState
unfolding abort_oldest_group
open_group (some state) source_id header key now groups = (groups, state)
open_group none source_id header key now groups =
    let room =
      if leb max_concurrent_groups (length groups) then abort_oldest_group groups else groups in
    let state : FragmentState = record {
      source_id = source_id;
      group_id = header.group_id;
      total_fragments = header.total_fragments;
      v6a_length = header.v6a_length;
      fragments = [];
      received_count = 0;
      created_at = now;
      last_activity_at = now;
    } in
    (Dict.insert key state room, state)

-- The fragment goes into the group's state; the object in the map is the same one.
unfoldable pub store_fragment : FragmentState → FragmentHeader → Bytes → ℕ → FragmentState
store_fragment state header payload now = record state {
  fragments = Dict.insert header.fragment_index payload state.fragments;
  received_count = state.received_count + 1;
  last_activity_at = now;
}

unfoldable pub add_to_group :
    Groups × FragmentState → Text → FragmentHeader → Bytes → ℕ → Groups × ReassemblyResult
unfolding store_fragment try_complete
add_to_group (groups, state) key header payload now =
    if not (nat_beq state.total_fragments header.total_fragments)
    then (Dict.remove key groups, error conflicting_total_fragments)
    else if not (nat_beq state.v6a_length header.v6a_length)
    then (Dict.remove key groups, error conflicting_v6a_length)
    else if Dict.has header.fragment_index state.fragments
    then (Dict.insert key (record state { last_activity_at = now }) groups, incomplete)
    else if ltb state.v6a_length (byte_sum state.fragments + length payload)
    then (Dict.remove key groups, error bytes_exceed_length)
    else let stored = store_fragment state header payload now in
      let groups' = Dict.insert key stored groups in
      if nat_beq stored.received_count stored.total_fragments
      then try_complete stored key groups'
      else (groups', incomplete)

unfoldable pub add_fragment : Groups → Text → FragmentHeader → Bytes → ℕ → Groups × ReassemblyResult
unfolding open_group add_to_group
add_fragment groups source_id header payload now =
    if ltb header.total_fragments 1 || ltb max_fragments header.total_fragments
    then (groups, error invalid_total_fragments)
    else if leb header.total_fragments header.fragment_index
    then (groups, error invalid_fragment_index)
    else if nat_beq header.v6a_length 0 || ltb max_v6a_length header.v6a_length
    then (groups, error invalid_v6a_length)
    else let key = make_group_key source_id header.group_id in
      add_to_group (open_group (Dict.lookup key groups) source_id header key now groups) key header
        payload now

-- `now - createdAt > GROUP_EXPIRY_MS`; the count of removed groups is returned.
unfoldable pub cleanup : Groups → ℕ → Groups × ℕ
cleanup groups now =
    let kept =
      filter (λ (p : Text × FragmentState). leb now (p.1.created_at + group_expiry_ms)) groups in
    (kept, length groups - length kept)

unfoldable pub reset_source : Groups → Text → Groups
reset_source groups source_id =
    filter (λ (p : Text × FragmentState). not (text_beq p.1.source_id source_id)) groups
