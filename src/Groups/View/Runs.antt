-- ===== src/Groups/View/Runs.antt =====
-- What two runs of `newDeployment` of internal/impl/kube.go on one binary and one configuration have
-- in common.
use mathlib.Core.Quot
use mathlib.Core.Quot.{Quot}
use weaver_kube.Base.{
  ◌≤◌, occurrences, ok-injective, ℕ, List, Option, none, some, Bytes, Map, lookup, ok, ◌≡◌, refl,
  sym, ap, ◌∙◌, arith, sum_by, value_or_zero, MapOrder, IsMapOrder,
}
use weaver_kube.Config.{Api, Group, Deployment, KubeConfig, AppConfig}
use weaver_kube.Groups.{Binaries, read_components_and_listeners, configured_groups, new_deployment}
use weaver_kube.Groups.Specs.{Specs, specs_of, specs_or_none, IsGiven, steps-AllGiven}
use weaver_kube.Groups.Assigned.{
  last_listing, lookup-configured_groups, name_given, name_of_group-configured_groups,
}
use weaver_kube.Groups.Steps.{steps}
use weaver_kube.Groups.View.{
  at_name, name_count, placed, served, new_deployment_refines, sum_by-at_name,
}

-- Two lists that have, under each name, as many groups, with the same components, names of
-- listeners and specs, whatever is counted of these. Left out are the orders, and the ports, Service
-- names and visibility of listeners: a port depends on the order, a Service name on the version.
abbrev pub SameGroups : (K : Api) → List (Group K) → List (Group K) → Type 0
SameGroups K gs gs' =
    (n x : Bytes) (f : Specs K → ℕ)
    → (name_count n gs ≡ name_count n gs')
      × (placed n x gs ≡ placed n x gs')
      × (served n x gs ≡ served n x gs')
      × (sum_by (at_name n (λ g. f (specs_of g))) gs ≡ sum_by (at_name n (λ g. f (specs_of g))) gs')

-- The groups without what `SameGroups` leaves out.
abbrev pub View : Api → Type 0
View K = Quot (SameGroups K)

module _ {K : Api} where
  abbrev pub view : Deployment K → View K
  view d = Quot.mk d.groups

  -- All components of the binary that belong to one group have the specs of one configured group.
  abbrev pub IsConsistent : List (Group K) → Map (List Bytes) → Type 0
  IsConsistent groups components =
      (c c' : Bytes)
      → 1 ≤ occurrences c components
      → 1 ≤ occurrences c' components
      → name_given groups c ≡ name_given groups c'
      → specs_or_none (last_listing groups c) ≡ specs_or_none (last_listing groups c')

  -- One value of the specs of the group of a name in two runs.
  same_specs :
      (groups : List (Group K)) (components : Map (List Bytes)) (n : Bytes) (f : Specs K → ℕ)
      (h h' : Option (Group K))
      → IsConsistent groups components
      → ((g : Group K) → h ≡ some g → IsGiven (configured_groups groups) components n (specs_of g))
      → ((g : Group K) → h' ≡ some g → IsGiven (configured_groups groups) components n (specs_of g))
      → value_or_zero (λ (g : Group K). 1) h ≡ value_or_zero (λ (g : Group K). 1) h'
      → value_or_zero (λ (g : Group K). f (specs_of g)) h
        ≡ value_or_zero (λ (g : Group K). f (specs_of g)) h'
  same_specs groups components n f none none agree one two e = refl
  same_specs groups components n f (some g) none agree one two e = absurd (omega (arith, e))
  same_specs groups components n f none (some g) agree one two e = absurd (omega (arith, e))
  same_specs groups components n f (some g) (some g') agree one two e =
      let (c, there, named, specs) = one g refl in
      let (c', there', named', specs') = two g' refl in
      let same = agree c c' there there' (
        sym (name_of_group-configured_groups groups c)
        ∙ named
        ∙ sym named'
        ∙ name_of_group-configured_groups groups c') in
      ap f (
        specs
        ∙ ap specs_or_none (lookup-configured_groups groups c)
        ∙ same
        ∙ sym (ap specs_or_none (lookup-configured_groups groups c'))
        ∙ sym specs')

  -- Let all components of the binary that belong to one group have the specs of one configured
  -- group. Two runs of `newDeployment` on this binary and one configuration that both return, each
  -- with its own order of the maps, image, deployment id and first port, give the same groups up to
  -- the orders of groups, components and listeners and to the ports, the names of Services and the
  -- visibility of listeners: the same names, components, listener names and specs.
  pub view-new_deployment :
      (bin : Binaries) (o o' : MapOrder)
      → IsMapOrder o
      → IsMapOrder o'
      → (app : AppConfig) (cfg : KubeConfig K) (id id' image image' : Bytes) (port port' : ℕ)
        (r r' : Deployment K × ℕ) (components : Map (List Bytes))
      → read_components_and_listeners bin app.binary ≡ ok components
      → IsConsistent cfg.groups components
      → new_deployment bin o app cfg id image port ≡ ok r
      → new_deployment bin o' app cfg id' image' port' ≡ ok r'
      → view r.0 ≡ view r'.0
  view-new_deployment bin o o' lawful lawful' app cfg id id' image image' port port' r r' components
        read agree one two =
      let s = steps bin o app cfg id image port r one in
      let s' = steps bin o' app cfg id' image' port' r' two in
      let same : s.components ≡ components = ok-injective (sym s.read ∙ read) in
      let same' : s'.components ≡ components = ok-injective (sym s'.read ∙ read) in
      Quot.sound (λ n x f.
        let a =
          new_deployment_refines bin o lawful app cfg id image port r one components read n x in
        let b =
          new_deployment_refines bin o' lawful' app cfg id' image' port' r' two components read n
            x in
        let at = sum_by-at_name bin o lawful app cfg id image port r one n in
        let at' = sum_by-at_name bin o' lawful' app cfg id' image' port' r' two n in
        let names = a.0 ∙ sym b.0 in
        let given = rw same at (steps-AllGiven bin o lawful app cfg id image port r one n) in
        let given' =
          rw same' at (steps-AllGiven bin o' lawful' app cfg id' image' port' r' two n) in
        (
          names,
          a.1 ∙ sym b.1,
          a.2 ∙ sym b.2,
          at (λ g. f (specs_of g))
              ∙ same_specs cfg.groups components n f (lookup n s.by_name) (lookup n s'.by_name)
                  agree given given' (sym (at (λ g. 1)) ∙ names ∙ at' (λ g. 1))
              ∙ sym (at' (λ g. f (specs_of g))),
        ))
