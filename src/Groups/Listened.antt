-- ===== src/Groups/Listened.antt =====
-- The listeners of an application's binary in the groups that `newDeployment` of
-- internal/impl/kube.go forms.
use mathlib.Core.List.{Memᴰ}
use weaver_kube.Base.{
  bytes_eq_refl, sum_by-mem, Bool-cases, inl, inr, ℕ, ◌+◌, ◌≤◌, List, [], ◌∷◌, ◌++◌, Option, none,
  some, Bytes, bytes_eq, Map, lookup, insert, ok, >>=-eq-ok, ◌≡◌, refl, sym, ap, ◌∙◌, arith, total,
  total-insert, value_or_zero, one_if, count, sum_by, sum_by-append, sum_by-perm, MapOrder,
  IsMapOrder,
}
use weaver_kube.Config.{Api, ListenerSpec, Listener, Group, Deployment, KubeConfig, AppConfig}
use weaver_kube.Listeners.{new_listeners}
use weaver_kube.Listeners.Options.{listener_names, names-new_listeners}
use weaver_kube.Groups.{
  Binaries, read_components_and_listeners, add_component, form_groups, group_name, fresh_group,
  group_so_far, configured_groups, new_deployment,
}
use weaver_kube.Groups.Steps.{steps, sum_by-values}
use weaver_kube.Manifests.Lookups.{named, times_named}

-- A value that a read finds counts in a sum over the map.
sum_by-lookup {ℓ} :
    {V : Type ℓ} (f : V → ℕ) (k : Bytes) (v : V) (m : Map V)
    → lookup k m ≡ some v
    → f v ≤ sum_by (λ e. f e.1) m
unfolding lookup
sum_by-lookup f k v [] e = cc
sum_by-lookup f k v ((j, w) ∷ m) e = elim (Bool-cases (bytes_eq k j)) [
  | inl hit ↦ let same : w ≡ v = ground (arith, e, hit) in omega (arith, ap f same)
  | inr miss ↦
      let later : lookup k m ≡ some v = ground (arith, e, miss) in
      omega (arith, sum_by-lookup f k v m later)
]

named-count : (x : Bytes) (ls : List Listener) → named x ls ≡ count x (listener_names ls)
named-count x [] = refl
named-count x (l ∷ ls) = ap (λ n. one_if (bytes_eq x l.name) + n) (named-count x ls)

pub count-listener_names :
    (x : Bytes) (l : Listener) (ls : List Listener)
    → Memᴰ l ls
    → x ≡ l.name
    → 1 ≤ count x (listener_names ls)
count-listener_names x l ls there called =
    let once : one_if (bytes_eq x l.name) ≡ 1 =
      ap (λ y. one_if (bytes_eq x y)) (sym called) ∙ ap one_if (bytes_eq_refl x) in
    omega (arith, named-count x ls, sum_by-mem (λ k. one_if (bytes_eq x k.name)) l ls there, once)

module _ {K : Api} (x : Bytes) where
  abbrev listens : Group K → ℕ
  listens g = named x g.listeners

  listens-group_so_far :
      (n : Bytes) (cgroup o : Option (Group K))
      → listens (group_so_far n cgroup o) ≡ value_or_zero listens o
  unfolding group_so_far fresh_group
  listens-group_so_far n none none = refl
  listens-group_so_far n (some g) none = refl
  listens-group_so_far n cgroup (some g) = refl

  module _ (id : Bytes) (specs : List ListenerSpec) (configured : Map (Group K)) where
    add_component-listens :
        (c : Bytes) (names : List Bytes) (s s' : Map (Group K) × ℕ)
        → add_component id specs configured (c, names) s ≡ ok s'
        → total listens s'.0 ≡ total listens s.0 + count x names
    unfolding add_component
    add_component-listens c names (m, port) s' e =
        let cgroup = lookup c configured in
        let gname = group_name cgroup c in
        let g = group_so_far gname cgroup (lookup gname m) in
        let (r, made, rest) = >>=-eq-ok (new_listeners id specs names g.listeners port) _ e in
        let grown : Group K = record g { components = g.components ++ c ∷ []; listeners = r.0 } in
        let moved : insert gname grown m ≡ s'.0 = ground (arith, rest) in
        let all : named x r.0 ≡ named x g.listeners + count x names =
          named-count x r.0
          ∙ ap (count x) (names-new_listeners id specs names g.listeners port r made)
          ∙ sum_by-append (λ (y : Bytes). one_if (bytes_eq x y)) (listener_names g.listeners) names
          ∙ ap (λ n. n + count x names) (sym (named-count x g.listeners)) in
        rw (← moved) (
          omega (
            arith,
            total-insert listens gname grown m,
            listens-group_so_far gname cgroup (lookup gname m),
            all,
          ))

    form_groups-listens :
        (cs : Map (List Bytes)) (s s' : Map (Group K) × ℕ)
        → form_groups id specs configured cs s ≡ ok s'
        → total listens s'.0 ≡ total listens s.0 + sum_by (λ e. count x e.1) cs
    unfolding form_groups
    form_groups-listens [] s s' e =
        let same : s.0 ≡ s'.0 = ground arith in rw (← same) (omega arith)
    form_groups-listens ((c, names) ∷ cs) s s' e =
        let (t, one, rest) = >>=-eq-ok (add_component id specs configured (c, names) s) _ e in
        omega (arith, form_groups-listens cs t s' rest, add_component-listens c names s t one)

module _ {K : Api} (bin : Binaries) (o : MapOrder) (lawful : IsMapOrder o) (app : AppConfig)
    (cfg : KubeConfig K) (id image : Bytes) (port : ℕ) (r : Deployment K × ℕ)
    (returned : new_deployment bin o app cfg id image port ≡ ok r) where
  -- In a deployment that `newDeployment` returned, whatever order the maps are gone through in, the
  -- groups have listeners of any name exactly as often as the components of the binary have them.
  pub new_deployment-listens :
      (components : Map (List Bytes))
      → read_components_and_listeners bin app.binary ≡ ok components
      → (x : Bytes) → times_named x r.0.groups ≡ sum_by (λ e. count x e.1) components
  new_deployment-listens components read x =
      let s = steps bin o app cfg id image port r returned in
      let same : s.components ≡ components = ground (arith, s.read) in
      let once : total (listens x) s.by_name
          ≡ sum_by (λ e. count x e.1) (o.iterate (List Bytes) s.components) =
        form_groups-listens x id cfg.listeners (configured_groups cfg.groups) _ ([], port) _
          s.formed
        ∙ omega arith in
      ap (sum_by (listens x)) s.groups
      ∙ sum_by-values o lawful (listens x) s.by_name
      ∙ once
      ∙ sum_by-perm (λ e. count x e.1) (lawful.iterate_perm (List Bytes) s.components)
      ∙ ap (sum_by (λ e. count x e.1)) same

  -- Every listener of a component is in some group.
  pub listener-listens :
      (components : Map (List Bytes)) (c : Bytes) (names : List Bytes) (x : Bytes)
      → read_components_and_listeners bin app.binary ≡ ok components
      → lookup c components ≡ some names
      → 1 ≤ count x names
      → 1 ≤ times_named x r.0.groups
  listener-listens components c names x read has listed = omega (
    arith,
    new_deployment-listens components read x,
    sum_by-lookup (count x) c names components has,
  )
