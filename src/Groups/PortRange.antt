-- ===== src/Groups/PortRange.antt =====
-- The ports of a whole deployment (`newDeployment` and `newListener` of internal/impl/kube.go).
use weaver_kube.Base.{
  ℕ, ◌+◌, ◌^◌, ◌<◌, List, [], ◌∷◌, ◌++◌, Option, none, some, Bytes, Map, lookup, insert, ok,
  >>=-eq-ok, ◌≡◌, refl, ap, ◌∙◌, arith, total, total-insert, value_or_zero, sum_by, sum_by-perm,
  length, MapOrder, IsMapOrder,
}
use weaver_kube.Config.{Api, ListenerSpec, Group, Deployment, KubeConfig, AppConfig}
use weaver_kube.Listeners.{new_listeners}
use weaver_kube.Listeners.Ports.{count_port, handed_out, SetsNoPort, ports-new_listeners}
use weaver_kube.Groups.{
  Binaries, read_components_and_listeners, add_component, form_groups, group_name, fresh_group,
  group_so_far, configured_groups, new_deployment,
}
use weaver_kube.Groups.Steps.{steps, sum_by-values}

-- How many listeners the components have.
abbrev pub listener_count : Map (List Bytes) → ℕ
listener_count = total length

module _ {K : Api} where
  abbrev pub ports_at : ℕ → Group K → ℕ
  ports_at q g = count_port q g.listeners

  ports-group_so_far :
      (q : ℕ) (n : Bytes) (cgroup o : Option (Group K))
      → ports_at q (group_so_far n cgroup o) ≡ value_or_zero (ports_at q) o
  unfolding group_so_far fresh_group
  ports-group_so_far q n none none = refl
  ports-group_so_far q n (some g) none = refl
  ports-group_so_far q n cgroup (some g) = refl

  module _ (id : Bytes) (specs : List ListenerSpec) (unset : SetsNoPort specs)
      (configured : Map (Group K)) where
    add_component_ports :
        (c : Bytes) (names : List Bytes) (s s' : Map (Group K) × ℕ)
        → add_component id specs configured (c, names) s ≡ ok s'
        → s.1 + length names < 2 ^ 32
        → (s'.1 ≡ s.1 + length names)
          × ((q : ℕ) → total (ports_at q) s'.0 ≡ total (ports_at q) s.0 + handed_out s.1 s'.1 q)
    unfolding add_component
    add_component_ports c names (m, port) s' e room =
        let cgroup = lookup c configured in
        let gname = group_name cgroup c in
        let g = group_so_far gname cgroup (lookup gname m) in
        let (r, made, rest) = >>=-eq-ok (new_listeners id specs names g.listeners port) _ e in
        let (end, counts) = ports-new_listeners id specs unset names g.listeners port r made room in
        let grown : Group K = record g { components = g.components ++ c ∷ []; listeners = r.0 } in
        let moved : insert gname grown m ≡ s'.0 = ground (arith, rest) in
        let counter : r.1 ≡ s'.1 = ground (arith, rest) in
        (
          omega (arith, counter, end),
          λ q.
              rw (← moved, ← counter)
                (omega (
                  arith,
                  total-insert (ports_at q) gname grown m,
                  ports-group_so_far q gname cgroup (lookup gname m),
                  counts q,
                )),
        )

    form_groups_ports :
        (cs : Map (List Bytes)) (s s' : Map (Group K) × ℕ)
        → form_groups id specs configured cs s ≡ ok s'
        → s.1 + listener_count cs < 2 ^ 32
        → (s'.1 ≡ s.1 + listener_count cs)
          × ((q : ℕ) → total (ports_at q) s'.0 ≡ total (ports_at q) s.0 + handed_out s.1 s'.1 q)
    unfolding form_groups
    form_groups_ports [] s s' e room =
        let same : s ≡ s' = ground arith in rw (← same) (omega arith, λ q. ground arith)
    form_groups_ports ((c, names) ∷ cs) s s' e room =
        let (t, one, rest) = >>=-eq-ok (add_component id specs configured (c, names) s) _ e in
        let (here, counts) = add_component_ports c names s t one (omega arith) in
        let (there, counts') = form_groups_ports cs t s' rest (omega (arith, here)) in
        (omega (arith, here, there), λ q. ground (arith, here, there, counts q, counts' q))

  -- If the configuration sets no port and the counter does not wrap, the listeners of a deployment
  -- that `newDeployment` returned take the next ports of the counter, one listener each, whatever
  -- the order of the maps.
  pub new_deployment_ports :
      (bin : Binaries) (o : MapOrder) (app : AppConfig) (cfg : KubeConfig K) (id image : Bytes)
      (port : ℕ) (r : Deployment K × ℕ) (components : Map (List Bytes))
      → IsMapOrder o
      → new_deployment bin o app cfg id image port ≡ ok r
      → read_components_and_listeners bin app.binary ≡ ok components
      → SetsNoPort cfg.listeners
      → port + listener_count components < 2 ^ 32
      → (r.1 ≡ port + listener_count components)
        × ((q : ℕ) → sum_by (ports_at q) r.0.groups ≡ handed_out port r.1 q)
  new_deployment_ports bin o app cfg id image port r components lawful returned read unset room =
      let s = steps bin o app cfg id image port r returned in
      let same : s.components ≡ components = ground (arith, s.read) in
      let order : listener_count (o.iterate (List Bytes) s.components) ≡ listener_count components =
        sum_by-perm (λ e. length e.1) (lawful.iterate_perm (List Bytes) s.components)
        ∙ ap listener_count same in
      let (end, counts) =
        form_groups_ports id cfg.listeners unset (configured_groups cfg.groups) _ ([], port) _
          s.formed (omega (arith, order)) in
      (
        omega (arith, end, order),
        λ q.
            ap (sum_by (ports_at q)) s.groups
            ∙ sum_by-values o lawful (ports_at q) s.by_name
            ∙ omega (arith, counts q),
      )
