-- ===== src/Delivery/Delivered/Laws.antt =====
-- Laws of src/protocol/DeliveredMessageCache.ts.
use i_tantra.Base.{
  append_assoc, ℕ, ◌+◌, ◌≤◌, ◌<◌, ◌≡◌, refl, true, List, [], ◌∷◌, ◌++◌, leb, length, length-append,
  any, Text, text_eq, text_beq, text_beq_iff, ◌==◌, Bool-cases, inl, inr, arith,
}
use i_tantra.Base.Dict
use i_tantra.Base.Dict.{lookup-insert_self, lookup-insert_ne}
use i_tantra.Delivery.Delivered.{
  DeliveredEntry, Caches, entries_of, is_delivered, with_room, mark_delivered, get_count,
  delivered_cache_max,
}

length-with_room : (es : List DeliveredEntry) → length es ≤ 64 → length (with_room es) ≤ 63
unfolding with_room
length-with_room [] h = ground arith
length-with_room (e ∷ es) h = ground arith

-- If the array of the peer whose message is recorded and that of another peer, or of the same, hold
-- at most 64 entries, the latter still does after the message is recorded.
pub mark_delivered-IsBounded :
    (c : Caches) (s t m : Text) (now : ℕ)
    → get_count c s ≤ delivered_cache_max
    → get_count c t ≤ delivered_cache_max
    → get_count (mark_delivered c s m now) t ≤ delivered_cache_max
unfolding mark_delivered get_count
mark_delivered-IsBounded c s t m now hs ht = elim (Bool-cases (s == t)) [
  | inl same ↦
      let e : s ≡ t = (text_beq_iff s t).0 same in
      rw (← e, lookup-insert_self)
        (unfold entries_of in
          let old = entries_of (Dict.lookup s c) in
          let shorter = length-with_room old hs in
          omega (
            arith,
            length-append (with_room old) (record { message_id = m; delivered_at = now } ∷ []),
            shorter,
          ))
  | inr other ↦ rw (lookup-insert_ne s t _ c (ground (arith, text_beq_iff s t))) ht
]

-- The entry stands in the array with `post` behind it.
abbrev pub Holds : Caches → Text → Text → ℕ → Type 0
Holds c s m k =
    (pre post : List DeliveredEntry) × (e : DeliveredEntry) × (entries_of (Dict.lookup s c)
      ≡ pre ++ e ∷ post)
    × (e.message_id ≡ m)
    × (length post ≤ k)

any-append :
    (m : Text) (pre post : List DeliveredEntry) (e : DeliveredEntry)
    → e.message_id ≡ m
    → any (λ x. text_beq x.message_id m) (pre ++ e ∷ post) ≡ true
unfolding any
any-append m [] post e h = rw (h, (text_beq_iff m m).1 refl) refl
any-append m (x ∷ pre) post e h = ground (arith, any-append m pre post e h)

Holds-is_delivered : (c : Caches) (s m : Text) (k : ℕ) → Holds c s m k → is_delivered c s m ≡ true
unfolding is_delivered
Holds-is_delivered c s m k (pre, post, e, h, i, l) = rw h (any-append m pre post e i)

-- An entry in an array of at most 64 with fewer than 63 entries behind it is not the one dropped.
with_room-keeps :
    (pre post : List DeliveredEntry) (e : DeliveredEntry)
    → length post < 63
    → (pre' : List DeliveredEntry) × (with_room (pre ++ e ∷ post) ≡ pre' ++ e ∷ post)
unfolding with_room
with_room-keeps [] post e h = ([], ground arith)
with_room-keeps (x ∷ pre) post e h =
    elim (Bool-cases (leb delivered_cache_max (length (x ∷ pre ++ e ∷ post)))) [
      | inl full ↦ (pre, rw full refl)
      | inr room ↦ (x ∷ pre, rw room refl)
    ]

Holds-mark_delivered :
    (c : Caches) (s t m i : Text) (now k : ℕ)
    → k < 63
    → Holds c s m k
    → Holds (mark_delivered c t i now) s m (k + 1)
unfolding mark_delivered
Holds-mark_delivered c s t m i now k hk (pre, post, e, h, em, l) = elim (Bool-cases (t == s)) [
  | inl same ↦
      let new : DeliveredEntry = record { message_id = i; delivered_at = now } in
      let eq : t ≡ s = (text_beq_iff t s).0 same in
      let (pre', kept) = with_room-keeps pre post e (omega arith) in
      (
        pre',
        post ++ new ∷ [],
        e,
        rw (eq, lookup-insert_self)
            (unfold entries_of in rw (h, kept) (append_assoc pre' (e ∷ post) (new ∷ []))),
        em,
        omega (arith, length-append post (new ∷ [])),
      )
  | inr other ↦ (
    pre,
    post,
    e,
    rw (lookup-insert_ne t s _ c (ground (arith, text_beq_iff t s))) h,
    em,
    omega arith,
  )
]

-- Deliveries that follow, each of a peer, a message id and a time.
abbrev pub mark_all : Caches → List (Text × Text × ℕ) → Caches
mark_all c [] = c
mark_all c ((s, m, now) ∷ rest) = mark_all (mark_delivered c s m now) rest

Holds-mark_all :
    (ds : List (Text × Text × ℕ)) (c : Caches) (s m : Text) (k : ℕ)
    → k + length ds ≤ 63
    → Holds c s m k
    → is_delivered (mark_all c ds) s m ≡ true
Holds-mark_all [] c s m k h held = Holds-is_delivered c s m k held
Holds-mark_all ((t, i, now) ∷ ds) c s m k h held =
    Holds-mark_all ds (mark_delivered c t i now) s m (k + 1) (omega arith)
      (Holds-mark_delivered c s t m i now k (omega arith) held)

Holds-marked : (c : Caches) (s m : Text) (now : ℕ) → Holds (mark_delivered c s m now) s m 0
unfolding mark_delivered
Holds-marked c s m now = (
  with_room (entries_of (Dict.lookup s c)),
  [],
  record { message_id = m; delivered_at = now },
  rw lookup-insert_self (unfold entries_of in refl),
  refl,
  omega arith,
)

-- A message marked as delivered is still known as such after up to 63 further deliveries, of this
-- peer or of others, whatever the cache held before.
pub mark_delivered-remembered :
    (c : Caches) (s m : Text) (now : ℕ) (ds : List (Text × Text × ℕ))
    → length ds ≤ 63
    → is_delivered (mark_all (mark_delivered c s m now) ds) s m ≡ true
mark_delivered-remembered c s m now ds h =
    Holds-mark_all ds (mark_delivered c s m now) s m 0 (omega arith) (Holds-marked c s m now)
