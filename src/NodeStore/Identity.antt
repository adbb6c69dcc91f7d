-- ===== src/NodeStore/Identity.antt =====
-- The identity that src/BITCHAT/NodeIdStore.ts gives, from call to call and from run to run.
use i_tantra.Base.{
  ℕ, zero, suc, ◌+◌, ◌*◌, ◌^◌, ◌<◌, ◌≤◌, ◌≡◌, refl, ap, ◌∙◌, true, false, [], ◌∷◌, none, some,
  Option, ok, Result, nat_beq, length, All, Text, arith, Bool-cases, Result-cases, inl, inr,
}
use i_tantra.Bytes.{Bytes}
use i_tantra.NodeId.{NodeId, IdError, format, normalize_id, is_valid_id}
use i_tantra.NodeId.Hex.{is_valid_id-format}
use i_tantra.NodeId.Normal.{normalize_uint64-lt, normalize_id-format, normalize_id-eq-ok}
use i_tantra.Semantic.{is_blank}
use i_tantra.NodeStore.{
  NodeIdStore, join_bytes, generate_random_node_id, generate_identity, load_identity, read_identity,
  cached_identity, get_local_node_id, restarted,
}

abbrev pub IsByte : ℕ → Type 0
IsByte b = b < 256

-- v * 256 ^ n
abbrev limit : ℕ → ℕ → ℕ
limit v zero = v
limit v (suc n) = limit (v * 256) n

limit_mono : (n u v : ℕ) → u ≤ v → limit u n ≤ limit v n
limit_mono zero u v h = h
limit_mono (suc n) u v h = limit_mono n (u * 256) (v * 256) (omega arith)

join_bytes-limit :
    (v : ℕ) (bs : Bytes) → All IsByte bs → join_bytes v bs < limit (v + 1) (length bs)
unfolding join_bytes
join_bytes-limit v [] a = omega arith
join_bytes-limit v (b ∷ bs) (hb, a) =
    let below = join_bytes-limit (v * 256 + b) bs a in
    let mono = limit_mono (length bs) (v * 256 + b + 1) ((v + 1) * 256) (omega arith) in omega arith

generate_random_node_id-lem :
    (bs : Bytes)
    → length bs ≡ 8
    → All IsByte bs
    → (v : ℕ) × (v < 2 ^ 64) × (generate_random_node_id bs ≡ ok (format v))
unfolding generate_random_node_id
generate_random_node_id-lem bs n a =
    let value = join_bytes 0 bs in
    let below : value < limit 1 (length bs) = join_bytes-limit 0 bs a in
    let small : value < 2 ^ 64 = rw n at below in
    elim (Bool-cases (nat_beq value 0)) [
      | inl t ↦ (1, omega arith, rw t (normalize_uint64-lt 1 (omega arith)))
      | inr f ↦ (value, small, rw f (normalize_uint64-lt value small))
    ]

-- A store that has given an identity: it is cached, and stored in a form that is read back as it.
abbrev pub Has : NodeIdStore → NodeId → Type 0
Has store id =
    (v : ℕ) × (v < 2 ^ 64)
    × (id ≡ format v)
    × (store.cached_node_id ≡ some id)
    × ((stored : Text) × (store.storage ≡ some stored)
        × (is_blank stored ≡ false)
        × (normalize_id stored ≡ ok id))

is_blank-format : (v : ℕ) → is_blank (format v) ≡ false
unfolding format
is_blank-format v = refl

-- A call that gives an identity, and leaves a store that has it.
abbrev pub Gives : NodeIdStore × Result IdError NodeId → Type 0
Gives r = (id : NodeId) × (r.1 ≡ ok id) × Has r.0 id

generate_identity-Gives :
    (store : NodeIdStore) (bs : Bytes)
    → length bs ≡ 8
    → All IsByte bs
    → Gives (generate_identity store bs)
unfolding generate_identity
generate_identity-Gives store bs n a =
    let (v, h, e) = generate_random_node_id-lem bs n a in
    rw (generate_identity, e)
      (
        format v,
        refl,
        (v, h, refl, refl, (format v, refl, is_blank-format v, normalize_id-format v h)),
      )

load_identity-Gives :
    (store : NodeIdStore) (stored : Text) (bs : Bytes)
    → length bs ≡ 8
    → All IsByte bs
    → store.storage ≡ some stored
    → Gives (load_identity store stored bs)
unfolding load_identity
load_identity-Gives store stored bs n a e = elim (Bool-cases (is_blank stored)) [
  | inl t ↦ rw (load_identity, t) (generate_identity-Gives store bs n a)
  | inr f ↦ elim (Result-cases (normalize_id stored)) [
    | inr (x, h) ↦ rw (load_identity, f, h) (generate_identity-Gives store bs n a)
    | inl (id, h) ↦
        let (v, small, same) = normalize_id-eq-ok stored id h in
        rw (load_identity, f, h) (id, refl, (v, small, same, refl, (stored, e, f, h)))
  ]
]

read_identity-Gives :
    (store : NodeIdStore) (o : Option Text) (bs : Bytes)
    → length bs ≡ 8
    → All IsByte bs
    → store.storage ≡ o
    → Gives (read_identity store o bs)
unfolding read_identity
read_identity-Gives store none bs n a e = generate_identity-Gives store bs n a
read_identity-Gives store (some stored) bs n a e = load_identity-Gives store stored bs n a e

cached_identity-Gives :
    (store : NodeIdStore) (bs : Bytes)
    → store.cached_node_id ≡ none
    → length bs ≡ 8
    → All IsByte bs
    → Gives (get_local_node_id store bs)
unfolding get_local_node_id cached_identity
cached_identity-Gives store bs e n a =
    let read = read_identity-Gives store store.storage bs n a refl in
    let same = ap (λ (c : Option NodeId). cached_identity store c bs) e in rw (← same) at read

-- A store that has an identity gives it.
again :
    (store : NodeIdStore) (id : NodeId) (later : Bytes)
    → Has store id
    → get_local_node_id store later ≡ (store, ok id)
unfolding get_local_node_id cached_identity
again store id later (v, small, same, cached, stored) =
    let given : is_blank id ≡ false = ap is_blank same ∙ is_blank-format v in
    ap (λ (c : Option NodeId). cached_identity store c later) cached ∙ rw given refl

after_restart :
    (store : NodeIdStore) (id : NodeId) (later : Bytes)
    → Has store id
    → (get_local_node_id (restarted store) later).1 ≡ ok id
unfolding get_local_node_id cached_identity read_identity load_identity
after_restart store id later (v, small, same, cached, (stored, there, given, h)) =
    ap (λ (o : Option Text). (read_identity (restarted store) o later).1) there
    ∙ rw (load_identity, given, h) refl

-- On a store that has no identity cached, whatever its storage holds, and with eight random bytes,
-- `get_local_node_id` gives an identity in its normal form; the next call gives the same one, and so
-- does the first call of another run over the same storage, whatever bytes these calls draw.
pub get_local_node_id-lasting :
    (store : NodeIdStore) (bs later : Bytes)
    → store.cached_node_id ≡ none
    → length bs ≡ 8
    → All IsByte bs
    → (id : NodeId) × (is_valid_id id ≡ true)
      × ((get_local_node_id store bs).1 ≡ ok id)
      × (get_local_node_id (get_local_node_id store bs).0 later
          ≡ ((get_local_node_id store bs).0, ok id))
      × ((get_local_node_id (restarted (get_local_node_id store bs).0) later).1 ≡ ok id)
get_local_node_id-lasting store bs later e n a =
    let (id, given, has) = cached_identity-Gives store bs e n a in
    let (v, small, same, cached, stored) = has in
    (
      id,
      rw same (is_valid_id-format v small),
      given,
      again (get_local_node_id store bs).0 id later has,
      after_restart (get_local_node_id store bs).0 id later has,
    )
