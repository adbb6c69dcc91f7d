-- ===== src/Mesh/Dedup/Laws.antt =====
-- Laws of src/BITCHAT/mesh/DedupCache.ts.
use i_tantra.Base.{
  ℕ, ◌+◌, ◌≤◌, ◌<◌, ◌^◌, ◌≡◌, refl, sym, ap, ◌∙◌, Bool, true, not, List, [], ◌∷◌, ◌++◌, Result, ok,
  err, ◌>>=◌, ltb, leb, length, length-append, length-filter-le, filter, any, Text, text_eq,
  text_beq, text_beq_iff, ◌==◌, if◌then◌else◌, Bool-cases, Result-cases, ok-injective, inl, inr,
  ltb-false, take-append_self, drop-append_self, arith,
}
use i_tantra.NodeId.{IdError, normalize_id, format}
use i_tantra.NodeId.Hex.{length-format}
use i_tantra.NodeId.Normal.{normalize_id-eq-ok}
use i_tantra.Mesh.Dedup.{
  Entry, DedupCache, build_key, has_key, push_entry, mark_seen, check_key, check_and_mark,
  prune_expired,
}

any-append :
    (p : Entry → Bool) (xs ys : List Entry)
    → any p (xs ++ ys) ≡ (if any p xs then true else any p ys)
unfolding any
any-append p [] ys = refl
any-append p (x ∷ xs) ys = ground (arith, any-append p xs ys)

text_beq_refl : (t : Text) → text_beq t t ≡ true
text_beq_refl t = (text_beq_iff t t).1 refl

length-push_entry :
    (n : ℕ) (e : Entry) (es : List Entry) → length es ≤ n → length (push_entry n e es) ≤ n
unfolding push_entry
length-push_entry n e [] h = ground arith
length-push_entry n e (x ∷ es) h = ground (arith, length-append es (e ∷ []))

-- The pushed entry is there, if there is room for one entry at all.
has_key-push_entry :
    (n : ℕ) (e : Entry) (es : List Entry) → 0 < n → has_key e.key (push_entry n e es) ≡ true
unfolding push_entry has_key
has_key-push_entry n e [] h = rw (ltb-false n 1 h) (unfold any in rw (text_beq_refl e.key))
has_key-push_entry n e (x ∷ es) h = elim (Bool-cases (ltb n (length (x ∷ es ++ e ∷ [])))) [
  | inl t ↦ rw t (present es)
  | inr f ↦ rw f (present (x ∷ es))
]
  where
    present : (ys : List Entry) → any (λ a. a.key == e.key) (ys ++ e ∷ []) ≡ true
    present ys =
        any-append (λ a. a.key == e.key) ys (e ∷ [])
        ∙ unfold any in rw (text_beq_refl e.key) (ground arith)

-- The cache never holds more than `maxEntries` entries.
abbrev pub IsBounded : DedupCache → Type 0
IsBounded c = length c.entries ≤ c.max_entries

-- The key of a packet whose key can be built at all.
keyed :
    {A : Type 0} (source packet_id : Text) (f : Text → A) (a : A)
    → (build_key source packet_id >>= λ k. ok (f k)) ≡ ok a
    → (k : Text) × (build_key source packet_id ≡ ok k) × (f k ≡ a)
keyed s p f a e = elim (Result-cases (build_key s p)) [
  | inl (k, q) ↦ (k, q, ok-injective (rw q at e))
  | inr (x, q) ↦ cc
]

check_key-IsBounded :
    (c : DedupCache) (k : Text) (now : ℕ)
    → IsBounded c
    → IsBounded (check_key c k now).0 × ((check_key c k now).0.max_entries ≡ c.max_entries)
unfolding check_key
check_key-IsBounded c k now h = elim (Bool-cases (has_key k c.entries)) [
  | inl t ↦ rw t (h, refl)
  | inr f ↦ rw f (length-push_entry c.max_entries _ c.entries h, refl)
]

-- Checking a packet keeps a cache that is within its capacity within it, and keeps the capacity.
pub check_and_mark-IsBounded :
    (c d : DedupCache) (source packet_id : Text) (now : ℕ) (duplicate : Bool)
    → IsBounded c
    → check_and_mark c source packet_id now ≡ ok (d, duplicate)
    → IsBounded d × (d.max_entries ≡ c.max_entries)
unfolding check_and_mark
check_and_mark-IsBounded c d s p now b h e =
    let (k, q, r) = keyed s p (λ k. check_key c k now) (d, b) e in
    let same : (check_key c k now).0 ≡ d = ap (λ (x : DedupCache × Bool). x.0) r in
    rw (← same) (check_key-IsBounded c k now h)

-- Marking a packet and pruning keep the cache within its capacity.
pub mark_seen-IsBounded :
    (c d : DedupCache) (source packet_id : Text) (now : ℕ)
    → IsBounded c
    → mark_seen c source packet_id now ≡ ok d
    → IsBounded d × IsBounded (prune_expired d now).0
unfolding mark_seen prune_expired
mark_seen-IsBounded c d s p now h e =
    let others = λ (k : Text). filter (λ e. not (e.key == k)) c.entries in
    let (k, q, r) =
      keyed s p
        (λ k. record c {
          entries = push_entry c.max_entries (record { key = k; seen_at = now }) (others k);
        })
        d e in
    let small : length (others k) ≤ c.max_entries =
      omega (arith, length-filter-le (λ e. not (e.key == k)) c.entries) in
    let bound =
      length-push_entry c.max_entries (record { key = k; seen_at = now }) (others k) small in
    let kept = λ (x : Entry). leb now (x.seen_at + c.retention_ms) in
    rw (← r) (
      bound,
      omega (
        arith,
        bound,
        length-filter-le kept
            (push_entry c.max_entries (record { key = k; seen_at = now }) (others k)),
      ),
    )

check_key_again :
    (c : DedupCache) (k : Text) (now : ℕ)
    → 0 < c.max_entries
    → has_key k (check_key c k now).0.entries ≡ true
unfolding check_key
check_key_again c k now h = elim (Bool-cases (has_key k c.entries)) [
  | inl t ↦ rw t t
  | inr f ↦ rw f (has_key-push_entry c.max_entries (record { key = k; seen_at = now }) c.entries h)
]

-- With a positive capacity, a packet that was checked is a duplicate at the next check: if that is
-- of the same packet, at any time, it says so and leaves the cache as it is.
pub check_and_mark_twice :
    (c d : DedupCache) (source packet_id : Text) (now later : ℕ) (duplicate : Bool)
    → 0 < c.max_entries
    → check_and_mark c source packet_id now ≡ ok (d, duplicate)
    → check_and_mark d source packet_id later ≡ ok (d, true)
unfolding check_and_mark
check_and_mark_twice c d s p now later b h e =
    let (k, q, r) = keyed s p (λ k. check_key c k now) (d, b) e in
    let same : (check_key c k now).0 ≡ d = ap (λ (x : DedupCache × Bool). x.0) r in
    let seen : has_key k d.entries ≡ true = rw same at (check_key_again c k now h) in
    rw q (unfold check_key in rw seen)

-- A packet whose key cannot be built is refused by every cache at any time.
pub check_and_mark_error :
    (c d : DedupCache) (source packet_id : Text) (now later : ℕ) (x : IdError)
    → check_and_mark c source packet_id now ≡ err x
    → check_and_mark d source packet_id later ≡ err x
unfolding check_and_mark
check_and_mark_error c d s p now later x e = elim (Result-cases (build_key s p)) [
  | inl (k, q) ↦ cc
  | inr (y, q) ↦ rw q (rw q at e)
]

build_key-eq-ok :
    (s p k : Text)
    → build_key s p ≡ ok k
    → (a b : ℕ) × (a < 2 ^ 64)
      × (normalize_id s ≡ ok (format a))
      × (normalize_id p ≡ ok (format b))
      × (k ≡ format a ++ 58 ∷ format b)
unfolding build_key
build_key-eq-ok s p k e = elim (Result-cases (normalize_id s)) [
  | inr (x, q) ↦ cc
  | inl (t, q) ↦ elim (Result-cases (normalize_id p)) [
    | inr (x, r) ↦ absurd (no_key t x (rw (q, r) at e))
    | inl (u, r) ↦
        let (a, ha, ea) = normalize_id-eq-ok s t q in
        let (b, hb, eb) = normalize_id-eq-ok p u r in
        let key : t ++ 58 ∷ u ≡ k = ok-injective (rw (q, r) at e) in
        (a, b, ha, rw (← ea) q, rw (← eb) r, rw (ea, eb) at (sym key))
  ]
]
  where
    no_key : (t : Text) (x : IdError) → ◌≡◌ {A = Result IdError Text} (err x) (ok k) → ⊥
    no_key t x h = cc

append_injective : (x y u w : Text) → length x ≡ length y → x ++ u ≡ y ++ w → (x ≡ y) × (u ≡ w)
append_injective x y u w l e = (
  sym (take-append_self x u) ∙ rw (l, e) (take-append_self y w),
  sym (drop-append_self x u) ∙ rw (l, e) (drop-append_self y w),
)

-- Two packets share a key only if their sources and their packet identifiers are the same after
-- normalisation: the cache does not take one packet for another.
pub build_key_injective :
    (s1 p1 s2 p2 k : Text)
    → build_key s1 p1 ≡ ok k
    → build_key s2 p2 ≡ ok k
    → (normalize_id s1 ≡ normalize_id s2) × (normalize_id p1 ≡ normalize_id p2)
build_key_injective s1 p1 s2 p2 k e1 e2 =
    let (a1, b1, h1, n1, m1, k1) = build_key-eq-ok s1 p1 k e1 in
    let (a2, b2, h2, n2, m2, k2) = build_key-eq-ok s2 p2 k e2 in
    let long : length (format a1) ≡ length (format a2) =
      length-format a1 h1 ∙ sym (length-format a2 h2) in
    let (x, y) = append_injective (format a1) (format a2) _ _ long (sym k1 ∙ k2) in
    (n1 ∙ ap ok x ∙ sym n2, m1 ∙ cc y ∙ sym m2)
