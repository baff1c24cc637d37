-- ===== src/Groups/Sorted.antt =====
-- Sorting the groups by name (`sort.Slice` in `newDeployment` of internal/impl/kube.go).
use weaver_kube.Base.{
  ℕ, ◌+◌, true, List, [], ◌∷◌, bytes_lt, bytes_lt_trans, bytes_lt_total, ◌≡◌, ◌≢◌, refl, arith, All,
  sum_by, Bool-cases, inl, inr,
}
use weaver_kube.Config.{Api, Group}
use weaver_kube.Groups.{sort_groups, place}

module _ {K : Api} where
  -- Each name comes before all later ones, so the names differ.
  abbrev pub Ascending : List (Group K) → Type 0
  Ascending [] = Unit
  Ascending (g ∷ gs) = All (λ h. bytes_lt g.name h.name ≡ true) gs × Ascending gs

  -- No two groups have one name.
  abbrev pub Distinct : List (Group K) → Type 0
  Distinct [] = Unit
  Distinct (g ∷ gs) = All (λ h. g.name ≢ h.name) gs × Distinct gs

  module _ {κ} (P : Group K → Type κ) where
    All-place : (g : Group K) (gs : List (Group K)) → P g → All P gs → All P (place g gs)
    unfolding place
    All-place g [] pg _ = (pg, tt)
    All-place g (h ∷ hs) pg (ph, ps) = elim (Bool-cases (bytes_lt h.name g.name)) [
      | inl e ↦ rw e (ph, All-place g hs pg ps)
      | inr e ↦ rw e (pg, (ph, ps))
    ]

    pub All-sort_groups : (gs : List (Group K)) → All P gs → All P (sort_groups gs)
    unfolding sort_groups
    All-sort_groups [] h = tt
    All-sort_groups (g ∷ gs) (h, hs) = All-place g (sort_groups gs) h (All-sort_groups gs hs)

  below_trans :
      (a b : Group K) (gs : List (Group K))
      → bytes_lt a.name b.name ≡ true
      → All (λ h. bytes_lt b.name h.name ≡ true) gs
      → All (λ h. bytes_lt a.name h.name ≡ true) gs
  below_trans a b [] p h = tt
  below_trans a b (g ∷ gs) p (h, hs) =
      (bytes_lt_trans a.name b.name g.name p h, below_trans a b gs p hs)

  place-Ascending :
      (g : Group K) (gs : List (Group K))
      → All (λ h. g.name ≢ h.name) gs
      → Ascending gs
      → Ascending (place g gs)
  unfolding place
  place-Ascending g [] d a = (tt, tt)
  place-Ascending g (h ∷ hs) (d, ds) (a, as') = elim (Bool-cases (bytes_lt h.name g.name)) [
    | inl e ↦
        rw e (All-place (λ x. bytes_lt h.name x.name ≡ true) g hs e a, place-Ascending g hs ds as')
    | inr e ↦
        let before : bytes_lt g.name h.name ≡ true = ground (arith, bytes_lt_total g.name h.name) in
        rw e ((before, below_trans g h hs before a), (a, as'))
  ]

  -- Sorting groups of different names puts them into strictly ascending order.
  pub sort_groups-Ascending : (gs : List (Group K)) → Distinct gs → Ascending (sort_groups gs)
  unfolding sort_groups
  sort_groups-Ascending [] d = tt
  sort_groups-Ascending (g ∷ gs) (d, ds) =
      place-Ascending g (sort_groups gs) (All-sort_groups (λ h. g.name ≢ h.name) gs d)
        (sort_groups-Ascending gs ds)

  sum_by-place :
      (f : Group K → ℕ) (g : Group K) (gs : List (Group K))
      → sum_by f (place g gs) ≡ f g + sum_by f gs
  unfolding place
  sum_by-place f g [] = refl
  sum_by-place f g (h ∷ hs) = ground (arith, sum_by-place f g hs)

  -- Sorting loses and adds nothing.
  pub sum_by-sort_groups :
      (f : Group K → ℕ) (gs : List (Group K)) → sum_by f (sort_groups gs) ≡ sum_by f gs
  unfolding sort_groups
  sum_by-sort_groups f [] = refl
  sum_by-sort_groups f (g ∷ gs) =
      omega (arith, sum_by-place f g (sort_groups gs), sum_by-sort_groups f gs)
