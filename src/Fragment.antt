-- ===== src/Fragment.antt =====
-- V7 fragmentation: src/protocol/V7FragmentTypes.ts and FragmentCodec.ts. The module's group counter
-- is an argument and a result; its random start value is any number.
pub mod Header
pub mod Split
use i_tantra.Base.{
  ℕ, zero, suc, ◌+◌, ◌-◌, ◌*◌, ◌/◌, ◌%◌, ◌^◌, min, Bool, true, false, not, ◌||◌, List, [], ◌∷◌,
  ◌++◌, Result, ok, err, ◌>>=◌, ◌>>◌, throw_if, ltb, leb, nat_beq, length, slice, set_from,
  if◌then◌else◌,
}
use i_tantra.Bytes.{
  Bytes, zeros, set_byte, byte_at, write_uint16_be, read_uint16_be, write_uint32_be, read_uint32_be,
}

abbrev pub v7_marker : ℕ
v7_marker = 0xf7

abbrev pub v7_header_size : ℕ
v7_header_size = 9

abbrev pub max_fragments : ℕ
max_fragments = 128

abbrev pub max_chunk_size : ℕ
max_chunk_size = 490

abbrev pub max_v6a_length : ℕ
max_v6a_length = max_fragments * max_chunk_size

pub record FragmentHeader : Type 0 where
  pub marker : ℕ
  pub group_id : ℕ
  pub fragment_index : ℕ
  pub total_fragments : ℕ
  pub v6a_length : ℕ

pub record FragmentChunk : Type 0 where
  pub payload : Bytes
  pub header : FragmentHeader

pub data FragmentError : Type 0 where
  v6a_too_large too_many_fragments budget_too_small header_too_short : FragmentError
  invalid_marker invalid_total_fragments invalid_fragment_index invalid_v6a_length invalid_seed :
      FragmentError

unfoldable pub write_header : Bytes → FragmentHeader → Bytes
write_header buf header =
    let buf0 = set_byte buf 0 v7_marker in
    let buf1 = write_uint32_be buf0 1 header.group_id in
    let buf2 = set_byte buf1 5 header.fragment_index in
    let buf3 = set_byte buf2 6 header.total_fragments in write_uint16_be buf3 7 header.v6a_length

unfoldable pub parse_header : Bytes → Result FragmentError FragmentHeader
parse_header payload = do
  throw_if (ltb (length payload) v7_header_size) header_too_short
  let marker = byte_at payload 0
  throw_if (not (nat_beq marker v7_marker)) invalid_marker
  let group_id = read_uint32_be payload 1
  let fragment_index = byte_at payload 5
  let total_fragments = byte_at payload 6
  let v6a_length = read_uint16_be payload 7
  throw_if (ltb total_fragments 1 || ltb max_fragments total_fragments) invalid_total_fragments
  throw_if (leb total_fragments fragment_index) invalid_fragment_index
  throw_if (nat_beq v6a_length 0 || ltb max_v6a_length v6a_length) invalid_v6a_length
  ok (record {
    marker = marker;
    group_id = group_id;
    fragment_index = fragment_index;
    total_fragments = total_fragments;
    v6a_length = v6a_length;
  })

-- One round of the splitting loop, for `size` data bytes in a fragment.
unfoldable pub make_chunk : ℕ → ℕ → ℕ → ℕ → Bytes → FragmentChunk
unfolding write_header
make_chunk size total group_id i packet =
    let offset = i * size in
    let chunk_size = min size (length packet - offset) in
    let chunk = slice offset (offset + chunk_size) packet in
    let header : FragmentHeader = record {
      marker = v7_marker;
      group_id = group_id;
      fragment_index = i;
      total_fragments = total;
      v6a_length = length packet;
    } in
    let payload = write_header (zeros (v7_header_size + chunk_size)) header in
    record { payload = set_from payload v7_header_size chunk; header = header }

-- for (let i = 0; i < totalFragments; i++), with the rounds left first
unfoldable pub split_loop : ℕ → ℕ → ℕ → ℕ → ℕ → Bytes → List FragmentChunk
split_loop zero i size total group_id packet = []
split_loop (suc rounds) i size total group_id packet =
    make_chunk size total group_id i packet ∷ split_loop rounds (i + 1) size total group_id packet

-- (groupIdCounter + 1) & UINT32_MAX
unfoldable pub next_group_id : ℕ → ℕ
next_group_id counter = (counter + 1) % 2 ^ 32

unfoldable pub reset_group_id_counter : ℕ
reset_group_id_counter = 0

-- A seed beyond 32 bits is refused.
unfoldable pub restart_group_id_counter_for_tests : ℕ → Result FragmentError ℕ
restart_group_id_counter_for_tests seed = do throw_if (ltb 0xffffffff seed) invalid_seed; ok seed

unfoldable pub get_group_id_counter : ℕ → ℕ
get_group_id_counter counter = counter % 2 ^ 32

-- Math.ceil(length / size) fragments; the counter moves only if the packet is split.
unfoldable pub split_sized : ℕ → ℕ → Bytes → Result FragmentError (List FragmentChunk × ℕ)
unfolding split_loop make_chunk next_group_id
split_sized counter size packet = do
  throw_if (ltb max_v6a_length (length packet)) v6a_too_large
  let total = (length packet + (size - 1)) / size
  throw_if (ltb max_fragments total) too_many_fragments
  ok (split_loop total 0 size total (counter % 2 ^ 32) packet, next_group_id counter)

-- A packet of at most 499 bytes is not split.
unfoldable pub split_v6a : ℕ → Bytes → Result FragmentError (List FragmentChunk × ℕ)
unfolding split_sized
split_v6a counter packet =
    if leb (length packet) 499 then ok ([], counter) else split_sized counter max_chunk_size packet

-- The data bytes in a fragment for a budget that includes the header, clamped to 490.
unfoldable pub data_bytes_per_fragment : ℕ → ℕ
data_bytes_per_fragment max_chunk_bytes =
    min max_chunk_bytes (v7_header_size + max_chunk_size) - v7_header_size

unfoldable pub split_v6a_for_budget : ℕ → Bytes → ℕ → Result FragmentError (List FragmentChunk × ℕ)
unfolding split_sized data_bytes_per_fragment
split_v6a_for_budget counter packet max_chunk_bytes = do
  throw_if (ltb max_chunk_bytes (v7_header_size + 1)) budget_too_small
  let size = data_bytes_per_fragment max_chunk_bytes
  if leb (length packet) size then ok ([], counter) else split_sized counter size packet
