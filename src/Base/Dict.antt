-- ===== src/Base/Dict.antt =====
-- JavaScript's Map: entries in the order in which their keys were first set.
use i_tantra.Base.Tests.{if◌then◌else◌, Bool-cases}
use i_tantra.Base.Keys.{Eq, ◌==◌}
use i_tantra.Base.Lists.{length}
use Prim.Native.Nat.{◌+◌, ◌≤◌, ◌<◌}
use mathlib.Core.Path.{◌≡◌, refl}
use mathlib.Core.Logic.{inl, inr, inl, inr, ◌≢◌}
use mathlib.Core.Bool.{Bool, true, false}
use mathlib.Core.Option.{Option, none, some}
use mathlib.Core.List.{List, [], ◌∷◌, ◌++◌}
use native.Mathlib.Omega.{arith}

module _ {ℓ} {K : Type 0} {V : Type ℓ} ⦃keys : Eq K⦄ where
  -- map.get(k)
  unfoldable pub lookup : K → List (K × V) → Option V
  lookup k [] = none
  lookup k ((i, u) ∷ rest) = if i == k then some u else lookup k rest

  -- map.has(k)
  unfoldable pub has : K → List (K × V) → Bool
  has k [] = false
  has k ((j, v) ∷ m) = if j == k then true else has k m

  -- map.set(k, v)
  unfoldable pub insert : K → V → List (K × V) → List (K × V)
  insert k v [] = (k, v) ∷ []
  insert k v ((i, u) ∷ rest) = if i == k then (i, v) ∷ rest else (i, u) ∷ insert k v rest

  -- map.delete(k)
  unfoldable pub remove : K → List (K × V) → List (K × V)
  remove k [] = []
  remove k ((j, w) ∷ m) = let rest = remove k m in if j == k then rest else (j, w) ∷ rest

  -- A set entry is found under its key, the others as before.
  pub lookup-insert :
      (set_key k : K) (v : V) (m : List (K × V))
      → lookup k (insert set_key v m) ≡ (if set_key == k then some v else lookup k m)
  unfolding lookup insert
  lookup-insert set_key k v [] = refl
  lookup-insert set_key k v ((i, u) ∷ rest) =
      let tail_lem = lookup-insert set_key k v rest in
      ground
        (arith, keys.equals_iff i set_key, keys.equals_iff set_key k, keys.equals_iff i k, tail_lem)

  pub lookup-remove :
      (k j : K) (m : List (K × V)) → lookup j (remove k m) ≡ (if k == j then none else lookup j m)
  unfolding lookup remove
  lookup-remove k j [] = ground arith
  lookup-remove k j ((i, w) ∷ m) =
      ground
        (arith, keys.equals_iff k j, keys.equals_iff i k, keys.equals_iff i j, lookup-remove k j m)

  pub lookup-insert_self : (k : K) (v : V) (m : List (K × V)) → lookup k (insert k v m) ≡ some v
  lookup-insert_self k v m = rw (lookup-insert, (keys.equals_iff k k).1 refl)

  pub lookup-remove_self : (k : K) (m : List (K × V)) → lookup k (remove k m) ≡ none
  lookup-remove_self k m = rw (lookup-remove, (keys.equals_iff k k).1 refl)

  pub length-remove-le : (k : K) (m : List (K × V)) → length (remove k m) ≤ length m
  unfolding remove
  length-remove-le k [] = omega arith
  length-remove-le k ((j, w) ∷ m) = ground (arith, length-remove-le k m)

  -- Removing a present key makes the map shorter.
  pub length-remove-lt :
      (k : K) (v : V) (m : List (K × V)) → lookup k m ≡ some v → length (remove k m) < length m
  unfolding remove lookup
  length-remove-lt k v [] h = cc
  length-remove-lt k v ((j, w) ∷ m) h = ground (arith, length-remove-le k m, length-remove-lt k v m)

  pub length-insert-le : (k : K) (v : V) (m : List (K × V)) → length (insert k v m) ≤ length m + 1
  unfolding insert
  length-insert-le k v [] = omega arith
  length-insert-le k v ((j, w) ∷ m) = ground (arith, length-insert-le k v m)

  -- Setting a present key does not make the map longer.
  pub length-insert_present :
      (k : K) (v w : V) (m : List (K × V)) → lookup k m ≡ some w → length (insert k v m) ≡ length m
  unfolding insert lookup
  length-insert_present k v w [] h = cc
  length-insert_present k v w ((j, u) ∷ m) h = ground (arith, length-insert_present k v w m)

  pub lookup-insert_ne :
      (k j : K) (v : V) (m : List (K × V)) → k ≢ j → lookup j (insert k v m) ≡ lookup j m
  lookup-insert_ne k j v m ne = ground (arith, lookup-insert k j v m, keys.equals_iff k j)

  pub lookup-remove_ne : (k j : K) (m : List (K × V)) → k ≢ j → lookup j (remove k m) ≡ lookup j m
  lookup-remove_ne k j m ne = ground (arith, lookup-remove k j m, keys.equals_iff k j)

  -- A new key goes to the end.
  pub insert_absent :
      (k : K) (v : V) (m : List (K × V)) → lookup k m ≡ none → insert k v m ≡ m ++ (k, v) ∷ []
  unfolding lookup insert
  insert_absent k v [] h = refl
  insert_absent k v ((j, w) ∷ m) h = elim (Bool-cases (j == k)) [
    | inl t ↦ rw t (cc (rw t at h))
    | inr f ↦ rw (f, insert_absent k v m (rw f at h))
  ]

  pub length-remove-has :
      (k : K) (m : List (K × V)) → has k m ≡ true → length (remove k m) < length m
  unfolding remove has
  length-remove-has k [] h = cc
  length-remove-has k ((j, w) ∷ m) h = ground (arith, length-remove-le k m, length-remove-has k m)
