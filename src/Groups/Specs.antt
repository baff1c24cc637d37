-- ===== src/Groups/Specs.antt =====
-- Which specs `newDeployment` of internal/impl/kube.go gives to a group.
use weaver_kube.Base.{
  sum_by-perm, MapOrder, IsMapOrder, ℕ, ◌≤◌, List, [], ◌∷◌, ◌++◌, Option, none, some, Bytes,
  bytes_eq, bytes_eq_iff, bytes_eq_refl, Map, lookup, insert, lookup-insert, ok, >>=-eq-ok,
  Bool-cases, inl, inr, All, occurrences, one_if, ◌≡◌, refl, ap, ◌∙◌, arith,
}
use weaver_kube.Config.{Deployment, KubeConfig, AppConfig, Api, ListenerSpec, Group, VolumeSpecs}
use weaver_kube.Listeners.{new_listeners}
use weaver_kube.Groups.Steps.{steps}
use weaver_kube.Groups.{
  Binaries, new_deployment, configured_groups, add_component, form_groups, group_name, fresh_group,
  group_so_far,
}
use weaver_kube.Groups.Members.{name_of_group}

pub record Specs (K : Api) : Type 0 where
  pub storage : VolumeSpecs K
  pub resource : Option K.Resources
  pub scaling : Option K.Scaling

module _ {K : Api} where
  abbrev pub specs_of : Group K → Specs K
  specs_of g = record {
    storage = g.storage_spec;
    resource = g.resource_spec;
    scaling = g.scaling_spec;
  }

  -- The specs of a configured group, or none.
  abbrev pub specs_or_none : Option (Group K) → Specs K
  specs_or_none none = record {
    storage = record { volumes = []; volume_mounts = [] };
    resource = none;
    scaling = none;
  }
  specs_or_none (some g) = specs_of g

  specs-fresh_group :
      (n : Bytes) (cgroup : Option (Group K))
      → specs_of (fresh_group n cgroup) ≡ specs_or_none cgroup
  unfolding fresh_group
  specs-fresh_group n none = refl
  specs-fresh_group n (some g) = refl

  module _ (configured : Map (Group K)) (all : Map (List Bytes)) where
    -- A group of this name with these specs: they are those of the configured group of one of the
    -- components that belong to the name.
    abbrev pub IsGiven : Bytes → Specs K → Type 0
    IsGiven n specs =
        (c : Bytes) × (1 ≤ occurrences c all)
        × (name_of_group configured c ≡ n)
        × (specs ≡ specs_or_none (lookup c configured))

    abbrev pub AllGiven : Map (Group K) → Type 0
    AllGiven m = (n : Bytes) (g : Group K) → lookup n m ≡ some g → IsGiven n (specs_of g)

    group_so_far-IsGiven :
        (c : Bytes) (o : Option (Group K))
        → 1 ≤ occurrences c all
        → ((g : Group K) → o ≡ some g → IsGiven (name_of_group configured c) (specs_of g))
        → IsGiven
            (name_of_group configured c)
            (specs_of (group_so_far (name_of_group configured c) (lookup c configured) o))
    unfolding group_so_far
    group_so_far-IsGiven c none there h =
        (c, there, refl, specs-fresh_group (name_of_group configured c) (lookup c configured))
    group_so_far-IsGiven c (some g) there h = h g refl

    module _ (id : Bytes) (specs : List ListenerSpec) where
      add_component-AllGiven :
          (c : Bytes) (names : List Bytes) (s s' : Map (Group K) × ℕ)
          → add_component id specs configured (c, names) s ≡ ok s'
          → 1 ≤ occurrences c all
          → AllGiven s.0
          → AllGiven s'.0
      unfolding add_component
      add_component-AllGiven c names (m, port) s' e there given n h found =
          let cgroup = lookup c configured in
          let gname = group_name cgroup c in
          let g = group_so_far gname cgroup (lookup gname m) in
          let (r, made, rest) = >>=-eq-ok (new_listeners id specs names g.listeners port) _ e in
          let grown : Group K = record g { components = g.components ++ c ∷ []; listeners = r.0 } in
          let moved : insert gname grown m ≡ s'.0 = ground (arith, rest) in
          let at = lookup-insert n gname grown m in
          let found' : lookup n (insert gname grown m) ≡ some h = ap (lookup n) moved ∙ found in
          elim (Bool-cases (bytes_eq n gname)) [
            | inl hit ↦
                let same : grown ≡ h = ground (arith, at, found', hit) in
                rw (← same, (bytes_eq_iff n gname).0 hit)
                  (group_so_far-IsGiven c (lookup gname m) there (given gname))
            | inr miss ↦
                let before : lookup n m ≡ some h = ground (arith, at, found', miss) in
                given n h before
          ]

      pub form_groups-AllGiven :
          (cs : Map (List Bytes)) (s s' : Map (Group K) × ℕ)
          → form_groups id specs configured cs s ≡ ok s'
          → All (λ e. 1 ≤ occurrences e.0 all) cs
          → AllGiven s.0
          → AllGiven s'.0
      unfolding form_groups
      form_groups-AllGiven [] s s' e there given =
          let same : s.0 ≡ s'.0 = ground arith in rw same at given
      form_groups-AllGiven ((c, names) ∷ cs) s s' e (there, theres) given =
          let (t, one, rest) = >>=-eq-ok (add_component id specs configured (c, names) s) _ e in
          form_groups-AllGiven cs t s' rest theres
            (add_component-AllGiven c names s t one there given)

-- What a map has, another map has that has no key less often.
occur_in :
    (cs all : Map (List Bytes))
    → ((k : Bytes) → occurrences k cs ≤ occurrences k all)
    → All (λ e. 1 ≤ occurrences e.0 all) cs
occur_in [] all h = tt
occur_in ((j, w) ∷ cs) all h = (
  let once : one_if (bytes_eq j j) ≡ 1 = ap one_if (bytes_eq_refl j) in omega (arith, h j, once),
  occur_in cs all (λ k. omega (arith, h k)),
)

module _ {K : Api} (bin : Binaries) (o : MapOrder) (lawful : IsMapOrder o) (app : AppConfig)
    (cfg : KubeConfig K) (id image : Bytes) (port : ℕ) (r : Deployment K × ℕ)
    (returned : new_deployment bin o app cfg id image port ≡ ok r) where
  pub steps-AllGiven :
      let s = steps bin o app cfg id image port r returned in
      AllGiven (configured_groups cfg.groups) s.components s.by_name
  unfolding lookup
  steps-AllGiven =
      let s = steps bin o app cfg id image port r returned in
      form_groups-AllGiven (configured_groups cfg.groups) s.components id cfg.listeners _ ([], port)
        _ s.formed
        (occur_in _ s.components (λ k. omega (
          arith,
          sum_by-perm (λ e. one_if (bytes_eq k e.0))
              (lawful.iterate_perm (List Bytes) s.components),
        )))
        (λ n g h. cc)
