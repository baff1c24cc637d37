-- ===== src/Base/Counts.antt =====
-- Counting in lists and maps, and what a rearrangement keeps.
use Prim.Native.Nat.{ℕ, zero, suc, ◌+◌, ◌≤◌}
use mathlib.Core.Path.{◌≡◌, refl, ap, ◌∙◌}
use mathlib.Core.Logic.{∥∥₁_elim}
use mathlib.Core.Bool.{Bool}
use mathlib.Core.HLevel.{×_prop}
use mathlib.Core.Option.{Option, none, some}
use mathlib.Core.List.Memᴰ
use mathlib.Core.List.{Memᴰ, List, [], ◌∷◌, ◌++◌, Perm, Permᴰ}
use native.Mathlib.Nat.{ℕ_set}
use native.Mathlib.Omega.{arith}
use weaver_kube.Base.Tests.{if◌then◌else◌}
use weaver_kube.Base.Lists.{sum_by, All}
use weaver_kube.Base.Text.{Bytes, bytes_eq, bytes_eq_iff, bytes_eq_refl}
use weaver_kube.Base.Maps.{Map, lookup, insert, NodupKeys}

abbrev pub one_if : Bool → ℕ
one_if b = if b then 1 else 0

-- How often a string occurs in a list.
abbrev pub count : Bytes → List Bytes → ℕ
count x = sum_by (λ y. one_if (bytes_eq x y))

module _ {ℓ} {A : Type ℓ} where
  sum_by-permᴰ : (f : A → ℕ) {xs ys : List A} → Permᴰ xs ys → sum_by f xs ≡ sum_by f ys
  sum_by-permᴰ f Permᴰ.nil = refl
  sum_by-permᴰ f (Permᴰ.cons e p) = omega (arith, ap f e, sum_by-permᴰ f p)
  sum_by-permᴰ f (Permᴰ.swap e e') = omega (arith, ap f e, ap f e')
  sum_by-permᴰ f (Permᴰ.trans p q) = sum_by-permᴰ f p ∙ sum_by-permᴰ f q

  pub sum_by-perm : (f : A → ℕ) {xs ys : List A} → Perm xs ys → sum_by f xs ≡ sum_by f ys
  sum_by-perm f p = ∥∥₁_elim p (ℕ_set _ _) (sum_by-permᴰ f)

  pub sum_by-append : (f : A → ℕ) (xs ys : List A) → sum_by f (xs ++ ys) ≡ sum_by f xs + sum_by f ys
  sum_by-append f [] ys = omega arith
  sum_by-append f (x ∷ xs) ys = omega (arith, sum_by-append f xs ys)

module _ {ℓ κ} {A : Type ℓ} (P : A → Type κ) (prop : (a : A) → IsProp (P a)) where
  All-prop : (xs : List A) → IsProp (All P xs)
  All-prop [] = hlevel
  All-prop (x ∷ xs) = ×_prop (prop x) (All-prop xs)

  All-permᴰ : {xs ys : List A} → Permᴰ xs ys → All P xs → All P ys
  All-permᴰ Permᴰ.nil h = h
  All-permᴰ (Permᴰ.cons e p) (h, hs) = (rw e at h, All-permᴰ p hs)
  All-permᴰ (Permᴰ.swap e e') (h, (h', hs)) = (rw e' at h', (rw e at h, hs))
  All-permᴰ (Permᴰ.trans p q) h = All-permᴰ q (All-permᴰ p h)

  pub All-perm : {xs ys : List A} → Perm xs ys → All P xs → All P ys
  All-perm {ys} p h = ∥∥₁_elim p (All-prop ys) (λ d. All-permᴰ d h)

module _ {ℓ} {V : Type ℓ} where
  -- The sum of a number over the values of a map.
  abbrev pub total : (V → ℕ) → Map V → ℕ
  total f = sum_by (λ e. f e.1)

  abbrev pub value_or_zero : (V → ℕ) → Option V → ℕ
  value_or_zero f none = 0
  value_or_zero f (some v) = f v

  -- A write replaces the value that a read finds.
  pub total-insert :
      (f : V → ℕ) (k : Bytes) (v : V) (m : Map V)
      → total f (insert k v m) + value_or_zero f (lookup k m) ≡ total f m + f v
  unfolding insert lookup
  total-insert f k v [] = omega arith
  total-insert f k v ((j, w) ∷ m) = ground (arith, total-insert f k v m)

  -- How many entries a key has.
  abbrev pub occurrences : Bytes → Map V → ℕ
  occurrences k = sum_by (λ e. one_if (bytes_eq k e.0))

  pub occurrences_of_NodupKeys :
      (k : Bytes) (m : Map V) → NodupKeys m → occurrences k m ≡ value_or_zero (λ v. 1) (lookup k m)
  unfolding lookup
  occurrences_of_NodupKeys k [] u = refl
  occurrences_of_NodupKeys k ((j, w) ∷ m) (fresh, u) =
      ground (arith, occurrences_of_NodupKeys k m u, bytes_eq_iff k j)

  absent_of_occurrences : (k : Bytes) (m : Map V) → occurrences k m ≡ 0 → lookup k m ≡ none
  unfolding lookup
  absent_of_occurrences k [] h = refl
  absent_of_occurrences k ((j, w) ∷ m) h = ground (arith, absent_of_occurrences k m)

  NodupKeys-of_occurrences : (m : Map V) → ((k : Bytes) → occurrences k m ≤ 1) → NodupKeys m
  NodupKeys-of_occurrences [] h = tt
  NodupKeys-of_occurrences ((j, w) ∷ m) h = (
    absent_of_occurrences j m (ground (arith, h j, bytes_eq_iff j j)),
    NodupKeys-of_occurrences m (λ k. ground (arith, h k)),
  )

  pub NodupKeys-perm : {m m' : Map V} → Perm m' m → NodupKeys m → NodupKeys m'
  NodupKeys-perm {m} {m'} p u = NodupKeys-of_occurrences m' λ k.
      ground (arith, sum_by-perm (λ e. one_if (bytes_eq k e.0)) p, occurrences_of_NodupKeys k m u)

module _ {ℓ} {A : Type ℓ} (f : A → ℕ) where
  pub sum_by-some : (xs : List A) → 1 ≤ sum_by f xs → (x : A) × Memᴰ x xs × (1 ≤ f x)
  sum_by-some [] h = absurd (omega (arith, h))
  sum_by-some (x ∷ xs) h = at (f x) refl (sum_by-some xs)
    where
      at :
          (n : ℕ)
          → f x ≡ n
          → (1 ≤ sum_by f xs → (y : A) × Memᴰ y xs × (1 ≤ f y))
          → (y : A) × Memᴰ y (x ∷ xs) × (1 ≤ f y)
      at zero e later = let (y, m, p) = later (omega (arith, h, e)) in (y, Memᴰ.tail m, p)
      at (suc n) e later = (x, Memᴰ.head refl, omega (arith, e))

  pub sum_by-mem : (x : A) (xs : List A) → Memᴰ x xs → f x ≤ sum_by f xs
  sum_by-mem x [] m = absurd (Memᴰ.not-nil m)
  sum_by-mem x (y ∷ xs) (Memᴰ.head e) = omega (arith, ap f e)
  sum_by-mem x (y ∷ xs) (Memᴰ.tail m) = omega (arith, sum_by-mem x xs m)

-- What holds of all texts that a list counts holds of its elements.
pub All-count {κ} :
    (P : Bytes → Type κ) (xs : List Bytes) → ((x : Bytes) → 1 ≤ count x xs → P x) → All P xs
All-count P [] h = tt
All-count P (x ∷ xs) h = (
  h x (rw (bytes_eq_refl x) (omega arith)),
  All-count P xs (λ y counted. h y (omega (arith, counted))),
)
