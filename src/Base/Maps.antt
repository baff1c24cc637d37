-- ===== src/Base/Maps.antt =====
-- Go maps with string keys. The representation keeps the order of insertion; what a `range` over
-- the map sees is an order of its own, a parameter of the model.
use mathlib.Core.Path.{◌≡◌, refl}
use mathlib.Core.Option.{Option, none, some}
use mathlib.Core.List.{List, [], ◌∷◌, Perm}
use native.Mathlib.Omega.{arith}
use weaver_kube.Base.Tests.{if◌then◌else◌}
use weaver_kube.Base.Lists.{All}
use weaver_kube.Base.Text.{Bytes, bytes_eq, bytes_eq_iff, bytes_eq_refl}

abbrev pub Map {ℓ} : Type ℓ → Type ℓ
Map V = List (Bytes × V)

module _ {ℓ} {V : Type ℓ} where
  -- `v, ok := m[k]`
  unfoldable pub lookup : Bytes → Map V → Option V
  lookup k [] = none
  lookup k ((j, v) ∷ m) = if bytes_eq k j then some v else lookup k m

  -- `m[k] = v`
  unfoldable pub insert : Bytes → V → Map V → Map V
  insert k v [] = (k, v) ∷ []
  insert k v ((j, w) ∷ m) = if bytes_eq k j then (k, v) ∷ m else (j, w) ∷ insert k v m

  -- `delete(m, k)`
  unfoldable pub erase : Bytes → Map V → Map V
  erase k [] = []
  erase k ((j, w) ∷ m) = let rest = erase k m in if bytes_eq k j then rest else (j, w) ∷ rest

  -- Every key has one entry.
  abbrev pub NodupKeys : Map V → Type ℓ
  NodupKeys [] = Unit
  NodupKeys ((k, _) ∷ m) = (lookup k m ≡ none) × NodupKeys m

  pub lookup-insert :
      (j k : Bytes) (v : V) (m : Map V)
      → lookup j (insert k v m) ≡ (if bytes_eq j k then some v else lookup j m)
  unfolding lookup insert
  lookup-insert j k v [] = refl
  lookup-insert j k v ((i, w) ∷ m) =
      ground (arith, lookup-insert j k v m, bytes_eq_iff j k, bytes_eq_iff k i, bytes_eq_iff j i)

  pub lookup-erase :
      (j k : Bytes) (m : Map V) → lookup j (erase k m) ≡ (if bytes_eq j k then none else lookup j m)
  unfolding lookup erase
  lookup-erase j k [] = ground arith
  lookup-erase j k ((i, w) ∷ m) =
      ground (arith, lookup-erase j k m, bytes_eq_iff j k, bytes_eq_iff k i, bytes_eq_iff j i)

  pub insert-NodupKeys : (k : Bytes) (v : V) (m : Map V) → NodupKeys m → NodupKeys (insert k v m)
  unfolding insert lookup
  insert-NodupKeys k v [] _ = (refl, tt)
  insert-NodupKeys k v ((j, w) ∷ m) (fresh, u) =
      ground
        (arith, insert-NodupKeys k v m u, lookup-insert j k v m, bytes_eq_iff j k, bytes_eq_iff k j)

  pub erase-NodupKeys : (k : Bytes) (m : Map V) → NodupKeys m → NodupKeys (erase k m)
  unfolding erase
  erase-NodupKeys k [] _ = tt
  erase-NodupKeys k ((j, w) ∷ m) (fresh, u) =
      ground (arith, erase-NodupKeys k m u, lookup-erase j k m)

module _ {ℓ κ} {V : Type ℓ} (P : Bytes → V → Type κ) where
  -- What holds of all that a read finds holds of all entries, if no key has two.
  pub All-lookup :
      (m : Map V)
      → NodupKeys m
      → ((k : Bytes) (v : V) → lookup k m ≡ some v → P k v)
      → All (λ e. P e.0 e.1) m
  unfolding lookup
  All-lookup [] u h = tt
  All-lookup ((j, w) ∷ m) (fresh, u) h = (
    h j w (ground (arith, bytes_eq_refl j)),
    All-lookup m u (λ k v e. h k v (ground (arith, bytes_eq_iff k j))),
  )

-- The order in which `range` and `maps.Values` go through a map: some rearrangement.
pub record MapOrder : Type 1 where
  pub iterate : (V : Type 0) → Map V → Map V

pub record IsMapOrder (o : MapOrder) : Type 1 where
  pub iterate_perm : (V : Type 0) (m : Map V) → Perm (o.iterate V m) m
