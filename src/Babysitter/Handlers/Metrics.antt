-- ===== src/Babysitter/Handlers/Metrics.antt =====
-- Which metrics reach the plugin (`readMetrics`, `filterMetrics` of internal/impl/babysitter.go).
use weaver_kube.Base.{
  ℕ, ◌+◌, true, false, List, [], ◌∷◌, ◌++◌, Map, Bytes, ok, ◌≡◌, refl, arith, All, sum_by,
  sum_by-append, Bool-cases, inl, inr,
}
use weaver_kube.Babysitter.Handlers.{is_generated, filter_loop, filter_metrics, read_metrics}

module _ {A : Type 0} (labels : A → Map Bytes) where
  -- The snapshot is not of a metric that the framework generates.
  abbrev pub IsOwn : A → Type 0
  IsOwn snap = is_generated labels snap ≡ false

  filter_loop-IsOwn : (snaps : List A) → All IsOwn (filter_loop labels snaps)
  unfolding filter_loop
  filter_loop-IsOwn [] = tt
  filter_loop-IsOwn (x ∷ xs) = elim (Bool-cases (is_generated labels x)) [
    | inl e ↦ rw e (filter_loop-IsOwn xs)
    | inr e ↦ rw e (e, filter_loop-IsOwn xs)
  ]

  sum_by-filter_loop :
      (f : A → ℕ)
      → ((a : A) → is_generated labels a ≡ true → f a ≡ 0)
      → (snaps : List A) → sum_by f (filter_loop labels snaps) ≡ sum_by f snaps
  unfolding filter_loop
  sum_by-filter_loop f zero_at [] = refl
  sum_by-filter_loop f zero_at (x ∷ xs) = ground (arith, sum_by-filter_loop f zero_at xs, zero_at x)

  -- With the export of generated metrics off, if the weavelet's metrics can be read, the plugin
  -- gets no generated metric. Of the others it gets all, as often as they are there: every sum
  -- to which the generated metrics contribute nothing stays the same.
  pub read_metrics_off :
      (own ms : List A) (f : A → ℕ)
      → ((a : A) → is_generated labels a ≡ true → f a ≡ 0)
      → (r : List A) × (read_metrics labels own (ok ms) false ≡ ok r)
        × All IsOwn r
        × (sum_by f r ≡ sum_by f own + sum_by f ms)
  unfolding read_metrics filter_metrics
  read_metrics_off own ms f zero_at = (
    filter_loop labels (own ++ ms),
    refl,
    filter_loop-IsOwn (own ++ ms),
    omega (arith, sum_by-filter_loop f zero_at (own ++ ms), sum_by-append f own ms),
  )

  pub filter_metrics-IsOwn : (snaps : List A) → All IsOwn (filter_metrics labels snaps false)
  unfolding filter_metrics
  filter_metrics-IsOwn snaps = filter_loop-IsOwn snaps
