-- ===== src/Reassembly/InOrder.antt =====
-- `addFragment` of src/protocol/Reassembler.ts for the next fragment of a packet.
use i_tantra.Base.{
  nat_beq_self, ℕ, suc, ◌+◌, ◌≤◌, ◌<◌, ◌≡◌, refl, sym, ap, ◌∙◌, false, ltb, length, nat_beq, nat_eq,
  Text, text_eq, if◌then◌else◌, arith,
}
use i_tantra.Base.Dict
use i_tantra.Base.Dict.{insert_absent, lookup-insert_self}
use i_tantra.Bytes.{Bytes}
use i_tantra.Fragment.{FragmentHeader}
use i_tantra.Fragment.Header.{chunk_of}
use i_tantra.Reassembly.{
  FragmentState, Groups, incomplete, add_to_group, store_fragment, try_complete, byte_sum,
}
use i_tantra.Reassembly.Pieces.{
  pieces, pieces_snoc, pieces_absent, byte_sum-pieces-le, byte_sum-append,
}

-- The first `k` of `t` fragments are stored.
abbrev pub Progress : ℕ → ℕ → ℕ → Bytes → FragmentState → Type 0
Progress k t size p st =
    (st.total_fragments ≡ t)
    × (st.v6a_length ≡ length p)
    × (st.received_count ≡ k)
    × (st.fragments ≡ pieces k 0 size p)

-- The header of fragment `i` of `t`.
abbrev pub header_of : ℕ → ℕ → ℕ → Bytes → FragmentHeader
header_of i t g p = record {
  marker = 0xf7;
  group_id = g;
  fragment_index = i;
  total_fragments = t;
  v6a_length = length p;
}

pub nat_beq_ne : (m n : ℕ) → m < n → nat_beq m n ≡ false
nat_beq_ne m n h = ground arith

pub ltb_le : (m n : ℕ) → n ≤ m → ltb m n ≡ false
ltb_le m n h = ground arith

insert-pieces :
    (k size : ℕ) (p : Bytes)
    → Dict.insert k (chunk_of size k p) (pieces k 0 size p) ≡ pieces (suc k) 0 size p
insert-pieces k size p =
    let z : 0 + k ≡ k = omega arith in
    insert_absent k (chunk_of size k p) (pieces k 0 size p)
      (pieces_absent k 0 k size p (omega arith)).0
    ∙ sym (rw z at (pieces_snoc k 0 size p))

within_length :
    (k size : ℕ) (p : Bytes) → byte_sum (pieces k 0 size p) + length (chunk_of size k p) ≤ length p
within_length k size p =
    let z : 0 + k ≡ k = omega arith in
    let snoc = ap byte_sum (rw z at (pieces_snoc k 0 size p)) in
    omega (
      arith,
      snoc,
      byte_sum-append (pieces k 0 size p) k (chunk_of size k p),
      byte_sum-pieces-le (suc k) 0 size p,
    )

pub store_fragment-Progress :
    (k t size g : ℕ) (p : Bytes) (st : FragmentState) (now : ℕ)
    → Progress k t size p st
    → Progress (k + 1) t size p (store_fragment st (header_of k t g p) (chunk_of size k p) now)
unfolding store_fragment
store_fragment-Progress k t size g p st now (a, b, c, d) =
    let s : suc k ≡ k + 1 = omega arith in (a, b, rw c refl, rw (d, ← s) (insert-pieces k size p))

-- What a fragment does to a group that has all before it.
pub add_to_group-next :
    (k t size g : ℕ) (p : Bytes) (m : Groups) (key : Text) (st : FragmentState) (now : ℕ)
    → Progress k t size p st
    → add_to_group (m, st) key (header_of k t g p) (chunk_of size k p) now ≡ (
        if nat_beq (k + 1) t
        then try_complete
            (store_fragment st (header_of k t g p) (chunk_of size k p) now)
            key
            (Dict.insert key (store_fragment st (header_of k t g p) (chunk_of size k p) now) m)
        else (
          Dict.insert key (store_fragment st (header_of k t g p) (chunk_of size k p) now) m,
          incomplete,
        ))
unfolding add_to_group
add_to_group-next k t size g p m key st now (a, b, c, d) =
    rw (a, b, nat_beq_self t, nat_beq_self (length p))
      (rw
        (
          d,
          (pieces_absent k 0 k size p (omega arith)).1,
          ltb_le (length p) (byte_sum (pieces k 0 size p) + length (chunk_of size k p))
              (within_length k size p),
        )
        (unfold store_fragment in rw c refl))
