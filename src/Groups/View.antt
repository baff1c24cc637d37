-- ===== src/Groups/View.antt =====
-- The groups of a deployment without the orders that Go's maps leave open: which names they have,
-- which components each holds and which listeners it serves (`newDeployment` of
-- internal/impl/kube.go).
pub mod Runs
use mathlib.Core.Quot
use mathlib.Core.Quot.{Quot}
use weaver_kube.Base.{
  ◌≤◌, occurrences, ok-injective, All-lookup, ℕ, ltb, true, List, [], ◌∷◌, Option, none, some,
  if◌then◌else◌, Bytes, bytes_eq, bytes_eq_iff, Map, lookup, NodupKeys, ok, ◌≡◌, ◌≢◌, refl, sym, ap,
  ◌∙◌, arith, All, count, length, one_if, sum_by, sum_by-append, sum_by-perm, total, value_or_zero,
  MapOrder, IsMapOrder,
}
use weaver_kube.Config.{Api, Group, Deployment, KubeConfig, AppConfig}
use weaver_kube.Listeners.Options.{listener_names}
use weaver_kube.Groups.{Binaries, read_components_and_listeners, configured_groups, new_deployment}
use weaver_kube.Groups.Members.{
  name_of_group, members, member_listeners, components_at, listeners_at, form_groups_at,
}
use weaver_kube.Groups.Specs.{Specs, specs_of, specs_or_none, IsGiven, steps-AllGiven}
use weaver_kube.Groups.Assigned.{
  last_listing, lookup-configured_groups, name_given, name_of_group-configured_groups,
}
use weaver_kube.Groups.Partition.{IsFormed-map}
use weaver_kube.Groups.Steps.{steps, sum_by-values}

module _ {K : Api} where
  abbrev pub at_name : Bytes → (Group K → ℕ) → Group K → ℕ
  at_name n f g = if bytes_eq n g.name then f g else 0

  -- How many groups have a name, how often a component stands in them, and how often a listener.
  abbrev pub name_count : Bytes → List (Group K) → ℕ
  name_count n = sum_by (at_name n (λ g. 1))

  abbrev pub placed : Bytes → Bytes → List (Group K) → ℕ
  placed n x = sum_by (at_name n (λ g. count x g.components))

  abbrev pub served : Bytes → Bytes → List (Group K) → ℕ
  served n x = sum_by (at_name n (λ g. count x (listener_names g.listeners)))

zero-length : (xs : List Bytes) → xs ≢ [] → ltb 0 (length xs) ≡ true
zero-length [] full = ground (arith, full refl)
zero-length (x ∷ xs) full = ground arith

-- The specification, from the components of the binary, their listeners and the name that the
-- configuration gives to each component: a component belongs to its name, with its listeners, and
-- there is one group for each name to which a component belongs.
module _ (name : Bytes → Bytes) where
  abbrev pub belongs : Bytes → Bytes → ℕ
  belongs n c = one_if (bytes_eq n (name c))

  abbrev pub should_name : Bytes → Map (List Bytes) → ℕ
  should_name n cs = one_if (ltb 0 (sum_by (λ e. belongs n e.0) cs))

  abbrev pub should_place : Bytes → Bytes → Map (List Bytes) → ℕ
  should_place n x = sum_by (λ e. if bytes_eq n (name e.0) then one_if (bytes_eq x e.0) else 0)

  abbrev pub should_serve : Bytes → Bytes → Map (List Bytes) → ℕ
  should_serve n x = sum_by (λ e. if bytes_eq n (name e.0) then count x e.1 else 0)

module _ {K : Api} where
  module _ (configured : Map (Group K)) (name : Bytes → Bytes)
      (agree : (c : Bytes) → name_of_group configured c ≡ name c) where
    length-members :
        (n : Bytes) (cs : Map (List Bytes))
        → length (members configured n cs) ≡ sum_by (λ e. belongs name n e.0) cs
    length-members n [] = refl
    length-members n ((c, names) ∷ cs) = ground (arith, length-members n cs, agree c)

    count-members :
        (n x : Bytes) (cs : Map (List Bytes))
        → count x (members configured n cs) ≡ should_place name n x cs
    count-members n x [] = refl
    count-members n x ((c, names) ∷ cs) = ground (arith, count-members n x cs, agree c)

    count-member_listeners :
        (n x : Bytes) (cs : Map (List Bytes))
        → count x (member_listeners configured n cs) ≡ should_serve name n x cs
    count-member_listeners n x [] = refl
    count-member_listeners n x ((c, names) ∷ cs) = ground (
      arith,
      count-member_listeners n x cs,
      agree c,
      sum_by-append (λ (y : Bytes). one_if (bytes_eq x y)) names (member_listeners configured n cs),
    )

  -- In a map that has every group under its name, the groups of a name are the one that a read
  -- finds.
  total-at_name :
      (n : Bytes) (f : Group K → ℕ) (m : Map (Group K))
      → NodupKeys m
      → All (λ e. e.1.name ≡ e.0) m
      → total (at_name n f) m ≡ value_or_zero f (lookup n m)
  unfolding lookup
  total-at_name n f [] u h = refl
  total-at_name n f ((k, g) ∷ m) (fresh, u) (here, h) =
      ground (arith, total-at_name n f m u h, bytes_eq_iff n k, bytes_eq_iff n g.name)

  value-count :
      (x : Bytes) (h : Option (Group K))
      → (value_or_zero (λ g. count x g.components) h ≡ count x (components_at h))
        × (value_or_zero (λ g. count x (listener_names g.listeners)) h ≡ count x (listeners_at h))
  value-count x none = (refl, refl)
  value-count x (some g) = (refl, refl)

  value-one :
      (h : Option (Group K))
      → ((g : Group K) → h ≡ some g → g.components ≢ [])
      → value_or_zero (λ g. 1) h ≡ one_if (ltb 0 (length (components_at h)))
  value-one none full = refl
  value-one (some g) full = ground (arith, full g refl, zero-length g.components)

  module _ (bin : Binaries) (o : MapOrder) (lawful : IsMapOrder o) (app : AppConfig)
      (cfg : KubeConfig K) (id image : Bytes) (port : ℕ) (r : Deployment K × ℕ)
      (returned : new_deployment bin o app cfg id image port ≡ ok r) where
    pub sum_by-at_name :
        (n : Bytes) (f : Group K → ℕ)
        → sum_by (at_name n f) r.0.groups
          ≡ value_or_zero f (lookup n (steps bin o app cfg id image port r returned).by_name)
    sum_by-at_name n f =
        let s = steps bin o app cfg id image port r returned in
        let formed = IsFormed-map bin o lawful app cfg id image port r returned in
        ap (sum_by (at_name n f)) s.groups
        ∙ sum_by-values o lawful (at_name n f) s.by_name
        ∙ total-at_name n f s.by_name formed.keys
            (All-lookup (λ k g. g.name ≡ k) s.by_name formed.keys formed.named)

    -- In a deployment that `newDeployment` returned, whatever order the maps are gone through in,
    -- where a component of the binary belongs to the last configured group that lists it, or else to
    -- a group of its own name: there is one group for each name to which a component belongs and
    -- none for another name, the group of a name holds each component that belongs to it once for
    -- each time that the binary has it, and it serves each listener once for each time that these
    -- components declare it.
    pub new_deployment_refines :
        (components : Map (List Bytes))
        → read_components_and_listeners bin app.binary ≡ ok components
        → (n x : Bytes)
        → (name_count n r.0.groups ≡ should_name (name_given cfg.groups) n components)
          × (placed n x r.0.groups ≡ should_place (name_given cfg.groups) n x components)
          × (served n x r.0.groups ≡ should_serve (name_given cfg.groups) n x components)
    unfolding lookup
    new_deployment_refines components read n x =
        let s = steps bin o app cfg id image port r returned in
        let formed = IsFormed-map bin o lawful app cfg id image port r returned in
        let all = configured_groups cfg.groups in
        let name = name_given cfg.groups in
        let agree = name_of_group-configured_groups cfg.groups in
        let same : s.components ≡ components = ground (arith, s.read) in
        let group = lookup n s.by_name in
        let there = o.iterate (List Bytes) s.components in
        let at = form_groups_at id cfg.listeners all _ ([], port) _ s.formed n in
        let order = lawful.iterate_perm (List Bytes) s.components in
        let counts = value-count x group in
        (
          sum_by-at_name n (λ g. 1)
              ∙ value-one group (formed.inhabited n)
              ∙ ap (λ cs. one_if (ltb 0 (length cs))) at.0
              ∙ ap (λ k. one_if (ltb 0 k))
                  (length-members all name agree n there
                    ∙ sum_by-perm (λ e. belongs name n e.0) order)
              ∙ ap (should_name name n) same,
          sum_by-at_name n (λ g. count x g.components)
              ∙ counts.0
              ∙ ap (count x) at.0
              ∙ count-members all name agree n x there
              ∙ sum_by-perm _ order
              ∙ ap (should_place name n x) same,
          sum_by-at_name n (λ g. count x (listener_names g.listeners))
              ∙ counts.1
              ∙ ap (count x) at.1
              ∙ count-member_listeners all name agree n x there
              ∙ sum_by-perm _ order
              ∙ ap (should_serve name n x) same,
        )
