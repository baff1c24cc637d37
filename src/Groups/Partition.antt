-- ===== src/Groups/Partition.antt =====
-- What `newDeployment` of internal/impl/kube.go guarantees of its groups.
use mathlib.Core.List.Perm
use weaver_kube.Base.{
  All-lookup, ℕ, ◌+◌, List, [], ◌∷◌, ◌++◌, Option, none, some, Bytes, bytes_eq, Map, lookup, insert,
  ok, >>=-eq-ok, ◌≡◌, ◌≢◌, refl, sym, ap, ◌∙◌, arith, All, All-perm, NodupKeys-perm, occurrences,
  occurrences_of_NodupKeys, total, total-insert, value_or_zero, one_if, count, sum_by,
  sum_by-append, sum_by-perm, MapOrder, IsMapOrder,
}
use weaver_kube.Config.{Api, ListenerSpec, Group, Deployment, KubeConfig, AppConfig}
use weaver_kube.Listeners.{new_listeners}
use weaver_kube.Listeners.Options.{listener_names}
use weaver_kube.Groups.{
  Binaries, read_components_and_listeners, add_component, form_groups, group_name, fresh_group,
  group_so_far, configured_groups, new_deployment, values,
}
use weaver_kube.Groups.Members.{
  members, member_listeners, components_at, listeners_at, form_groups_at,
}
use weaver_kube.Groups.Formed.{IsFormed, IsFormed-nil, form_groups-IsFormed}
use weaver_kube.Groups.Sorted.{Ascending, sort_groups-Ascending}
use weaver_kube.Groups.Steps.{steps, read-NodupKeys, sum_by-values, All-values, values-Distinct}

module _ {K : Api} where
  module _ (x : Bytes) where
    abbrev occurs : Group K → ℕ
    occurs g = count x g.components

    occurs-group_so_far :
        (n : Bytes) (cgroup o : Option (Group K))
        → occurs (group_so_far n cgroup o) ≡ value_or_zero occurs o
    unfolding group_so_far fresh_group
    occurs-group_so_far n none none = refl
    occurs-group_so_far n (some g) none = refl
    occurs-group_so_far n cgroup (some g) = refl

    module _ (id : Bytes) (specs : List ListenerSpec) (configured : Map (Group K)) where
      add_component-occurs :
          (c : Bytes) (names : List Bytes) (s s' : Map (Group K) × ℕ)
          → add_component id specs configured (c, names) s ≡ ok s'
          → total occurs s'.0 ≡ total occurs s.0 + one_if (bytes_eq x c)
      unfolding add_component
      add_component-occurs c names (m, port) s' e =
          let cgroup = lookup c configured in
          let gname = group_name cgroup c in
          let g = group_so_far gname cgroup (lookup gname m) in
          let (r, made, rest) = >>=-eq-ok (new_listeners id specs names g.listeners port) _ e in
          let grown : Group K = record g { components = g.components ++ c ∷ []; listeners = r.0 } in
          let moved : insert gname grown m ≡ s'.0 = ground (arith, rest) in
          rw (← moved) (
            omega (
              arith,
              total-insert occurs gname grown m,
              occurs-group_so_far gname cgroup (lookup gname m),
              sum_by-append (λ (y : Bytes). one_if (bytes_eq x y)) g.components (c ∷ []),
            ))

      form_groups-occurs :
          (cs : Map (List Bytes)) (s s' : Map (Group K) × ℕ)
          → form_groups id specs configured cs s ≡ ok s'
          → total occurs s'.0 ≡ total occurs s.0 + occurrences x cs
      unfolding form_groups
      form_groups-occurs [] s s' e =
          let same : s.0 ≡ s'.0 = ground arith in rw (← same) (omega arith)
      form_groups-occurs ((c, names) ∷ cs) s s' e =
          let (t, one, rest) = >>=-eq-ok (add_component id specs configured (c, names) s) _ e in
          omega (arith, form_groups-occurs cs t s' rest, add_component-occurs c names s t one)

  module _ (bin : Binaries) (o : MapOrder) (lawful : IsMapOrder o) (app : AppConfig)
      (cfg : KubeConfig K) (id image : Bytes) (port : ℕ) (r : Deployment K × ℕ)
      (returned : new_deployment bin o app cfg id image port ≡ ok r) where
    -- In a deployment that `newDeployment` returned, whatever order the maps are gone through in,
    -- a component that the binary has stands in the component lists of the groups exactly once,
    -- and nothing else stands there.
    pub new_deployment_partition :
        (components : Map (List Bytes))
        → read_components_and_listeners bin app.binary ≡ ok components
        → (x : Bytes)
        → sum_by (λ g. count x g.components) r.0.groups
          ≡ value_or_zero (λ names. 1) (lookup x components)
    new_deployment_partition components read x =
        let s = steps bin o app cfg id image port r returned in
        let same : s.components ≡ components = ground (arith, s.read) in
        let once : total (occurs x) s.by_name
            ≡ occurrences x (o.iterate (List Bytes) s.components) =
          form_groups-occurs x id cfg.listeners (configured_groups cfg.groups) _ ([], port) _
            s.formed
          ∙ omega arith in
        ap (sum_by (occurs x)) s.groups
        ∙ sum_by-values o lawful (occurs x) s.by_name
        ∙ once
        ∙ sum_by-perm (λ e. one_if (bytes_eq x e.0)) (lawful.iterate_perm (List Bytes) s.components)
        ∙ rw same
            (occurrences_of_NodupKeys x components (read-NodupKeys bin app.binary components read))

    pub IsFormed-map : IsFormed (steps bin o app cfg id image port r returned).by_name
    IsFormed-map =
        form_groups-IsFormed id cfg.listeners (configured_groups cfg.groups) _ _ _
          (steps bin o app cfg id image port r returned).formed IsFormed-nil

    -- In a deployment that `newDeployment` returned, the groups stand in strictly ascending order
    -- of their names.
    pub new_deployment-Ascending : Ascending r.0.groups
    unfolding values
    new_deployment-Ascending =
        let s = steps bin o app cfg id image port r returned in
        let entries : All (λ e. e.1.name ≡ e.0) (o.iterate (Group K) s.by_name) =
          All-perm (λ e. e.1.name ≡ e.0) (λ e. hlevel)
            (Perm.symm (lawful.iterate_perm (Group K) s.by_name))
            (All-lookup (λ k g. g.name ≡ k) s.by_name IsFormed-map.keys IsFormed-map.named) in
        let keys = NodupKeys-perm (lawful.iterate_perm (Group K) s.by_name) IsFormed-map.keys in
        rw s.groups (sort_groups-Ascending _ (values-Distinct _ keys entries))

    -- In a deployment that `newDeployment` returned, every group holds, in the order of the loop,
    -- the components that belong to its name and their listeners, and it has a component.
    pub new_deployment_members :
        (components : Map (List Bytes))
        → read_components_and_listeners bin app.binary ≡ ok components
        → All
            (λ g.
              (g.components
                ≡ members (configured_groups cfg.groups) g.name (o.iterate (List Bytes) components))
              × (listener_names g.listeners
                  ≡ member_listeners
                      (configured_groups cfg.groups)
                      g.name
                      (o.iterate (List Bytes) components))
              × (g.components ≢ []))
            r.0.groups
    unfolding lookup
    new_deployment_members components read =
        let s = steps bin o app cfg id image port r returned in
        let same : s.components ≡ components = ground (arith, s.read) in
        rw s.groups (
          All-values o lawful _ (λ g. hlevel) s.by_name
            (All-lookup _ s.by_name IsFormed-map.keys (λ n g found.
              let at =
                form_groups_at id cfg.listeners (configured_groups cfg.groups) _ ([], port) _
                  s.formed n in
              let all = configured_groups cfg.groups in
              rw (IsFormed-map.named n g found) (
                sym (ap components_at found)
                    ∙ at.0
                    ∙ ap (λ cs. members all n (o.iterate (List Bytes) cs)) same,
                sym (ap listeners_at found)
                    ∙ at.1
                    ∙ ap (λ cs. member_listeners all n (o.iterate (List Bytes) cs)) same,
                IsFormed-map.inhabited n g found,
              ))))
