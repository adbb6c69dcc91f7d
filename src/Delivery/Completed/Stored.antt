-- ===== src/Delivery/Completed/Stored.antt =====
-- `store` of src/protocol/CompletedGroupCache.ts.
use i_tantra.Base.{nat_beq_self, ℕ, ◌≡◌, ◌≢◌, refl, List, [], ◌∷◌, ◌++◌, some, Text, text_eq}
use i_tantra.Base.Dict
use i_tantra.Base.Dict.{lookup-insert_self, lookup-insert_ne}
use i_tantra.Delivery.Completed.{
  CompletedGroupEntry, Caches, entries_of, find_last, get_completed_message_id, store, with_room,
}

-- The last entry decides.
find_last-append :
    (g : ℕ) (es : List CompletedGroupEntry) (e : CompletedGroupEntry)
    → e.group_id ≡ g
    → find_last g (es ++ e ∷ []) ≡ some e.message_id
unfolding find_last
find_last-append g [] e h = rw (h, nat_beq_self) refl
find_last-append g (x ∷ es) e h = rw (find_last-append g es e h) refl

-- After a group is stored its own message id is the one a retransmission is acknowledged with, even
-- if the array was full or knew another message under the group's number, and the groups of every
-- other peer are left as they were.
pub store-get_completed :
    (c : Caches) (s t m : Text) (g h now : ℕ)
    → t ≢ s
    → (get_completed_message_id (store c s g m now) s g ≡ some m)
      × (get_completed_message_id (store c s g m now) t h ≡ get_completed_message_id c t h)
unfolding store get_completed_message_id
store-get_completed c s t m g h now ne = (
  rw lookup-insert_self (
      unfold entries_of in
      find_last-append g (with_room (entries_of (Dict.lookup s c)))
        (record { group_id = g; message_id = m; completed_at = now }) refl),
  rw (lookup-insert_ne s t _ c (λ e. ne (cc))) refl,
)
