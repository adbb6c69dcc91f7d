-- ===== src/Tests/Parts.antt =====
-- Fragments and their reassembly at concrete inputs.
use i_tantra.Base.{
  ℕ, ◌≤◌, ◌<◌, ◌≡◌, ◌⊎◌, refl, List, [], ◌∷◌, ok, length, All, codes, text_eq, nat_beq,
  if◌then◌else◌, arith,
}
use i_tantra.Base.Dict
use i_tantra.Bytes.{Bytes, zeros}
use i_tantra.Fragment.{
  FragmentHeader, FragmentChunk, split_loop, split_sized, split_v6a, split_v6a_for_budget,
  data_bytes_per_fragment, next_group_id,
}
use i_tantra.Fragment.Split.{Fits, data_of, split_v6a-data}
use i_tantra.Reassembly.{
  FragmentState, Groups, incomplete, complete, error, byte_sum_mismatch, byte_sum, try_complete,
  add_fragment,
}
use i_tantra.Reassembly.Place.{concat}
use i_tantra.Reassembly.Ordered.{IsAscending, try_complete-IsAscending}
use mathlib.Core.List.{Perm}
use i_tantra.Reassembly.Bounded.{add_fragment-IsBounded}
use i_tantra.Reassembly.Arrive.{receive_all, receive_all-split_v6a}

-- A packet too long for one frame.
abbrev long_packet : Bytes
long_packet = zeros 500

abbrev two_chunks : List FragmentChunk
two_chunks = split_loop 2 0 490 2 7 long_packet

split_long : split_v6a 7 long_packet ≡ ok (two_chunks, 8)
unfolding split_v6a split_sized next_group_id
split_long = refl

receive_all-split_v6a_example :
    (m : Groups) × (receive_all ([], incomplete) (codes "a") two_chunks 0 (λ i. i)
      ≡ (m, complete long_packet))
receive_all-split_v6a_example =
    receive_all-split_v6a 7 8 long_packet two_chunks (codes "a") [] incomplete (λ i. i) split_long
      (omega arith) (unfold Dict.lookup in refl)

split_v6a-data_example :
    ((length long_packet ≤ 499) × (two_chunks ≡ []) × (◌≡◌ {A = ℕ} 8 7))
    ⊎ ((499 < length long_packet)
        × (data_of two_chunks ≡ long_packet)
        × (length two_chunks ≤ 128)
        × All (Fits 490) two_chunks)
split_v6a-data_example = split_v6a-data 7 long_packet two_chunks 8 split_long

-- The same packet under a budget of 462 bytes for a fragment.
abbrev small_chunks : List FragmentChunk
small_chunks = split_loop 2 0 453 2 7 long_packet

split_budget : split_v6a_for_budget 7 long_packet 462 ≡ ok (small_chunks, 8)
unfolding split_v6a_for_budget split_sized next_group_id data_bytes_per_fragment
split_budget = refl

-- The header of the second of two fragments.
abbrev second_header : FragmentHeader
second_header = record {
  marker = 0xf7;
  group_id = 7;
  fragment_index = 1;
  total_fragments = 2;
  v6a_length = 500;
}

abbrev second_bytes : Bytes
second_bytes = 0xf7 ∷ 0 ∷ 0 ∷ 0 ∷ 7 ∷ 1 ∷ 2 ∷ 1 ∷ 244 ∷ []

-- Two fragments that came in the wrong order.
abbrev two_stored : FragmentState
two_stored = record {
  source_id = codes "a";
  group_id = 7;
  total_fragments = 2;
  v6a_length = 3;
  fragments = (1, 3 ∷ []) ∷ (0, 1 ∷ 2 ∷ []) ∷ [];
  received_count = 2;
  created_at = 0;
  last_activity_at = 1;
}

try_complete-IsAscending_example :
    (sorted : List (ℕ × Bytes)) × IsAscending sorted
    × Perm sorted two_stored.fragments
    × (try_complete two_stored (codes "a:7") [] ≡ (
      Dict.remove (codes "a:7") [],
      if nat_beq (byte_sum two_stored.fragments) two_stored.v6a_length
          then complete (concat sorted)
          else error byte_sum_mismatch,
    ))
try_complete-IsAscending_example = try_complete-IsAscending two_stored (codes "a:7") []

add_fragment-IsBounded_example : length (add_fragment [] (codes "a") second_header (9 ∷ []) 5).0 ≤ 8
add_fragment-IsBounded_example =
    add_fragment-IsBounded [] (codes "a") second_header (9 ∷ []) 5 (omega arith)
