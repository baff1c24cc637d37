-- ===== src/Manifests/Discovery.antt =====
-- How the babysitters find one another: the configuration that `generateConfigMap` writes, read by
-- `watchPods` and `GetListenerAddress`, against the objects that `generateCoreYAMLs` writes
-- (internal/impl/kube.go, internal/impl/babysitter.go).
use mathlib.Core.List.{Memᴰ}
use weaver_kube.Base.{
  ℕ, ◌≤◌, List, [], ◌∷◌, some, Bytes, int32_text, bytes_eq, Map, lookup, count, length, ok,
  ok-injective, ◌≡◌, refl, sym, ◌∙◌, arith, inl, inr, MapOrder, IsMapOrder,
}
use weaver_kube.Names.{Extern, IsExtern}
use weaver_kube.Config.{Api, Listener, Group, KubeConfig, AppConfig, Deployment}
use weaver_kube.Groups.{Binaries, read_components_and_listeners, new_deployment}
use weaver_kube.Groups.Partition.{new_deployment_partition}
use weaver_kube.Resources.{KubeDeployment, KubeService}
use weaver_kube.Resources.Builders.{
  name_label, deployment_object, build_deployment, build_listener_service, service_object,
}
use weaver_kube.Resources.Agreement.{
  deployment-eq-ok, service-eq-ok, service_builds, deployment_builds,
}
use weaver_kube.Babysitter.Claim.{label_selector, pod_selector}
use weaver_kube.Babysitter.Handlers.{get_listener_address}
use weaver_kube.Manifests.{babysitter_config}
use weaver_kube.Manifests.Lookups.{times, times_named, group_names_cases, listener_ports_cases}

module _ {K : Api} (c : Extern) where
  -- If the groups of a deployment have a component, there is a group that has it such that
  -- the babysitter that is to route to the component selects pods by the name of the group's
  -- Deployment, and the pods of this Deployment carry this name.
  pub selects_group :
      (d : Deployment K) (interval : ℕ) (x : Bytes)
      → 1 ≤ times x d.groups
      → (g : Group K) × Memᴰ g d.groups
        × (1 ≤ count x g.components)
        × ((dep : KubeDeployment K)
            → build_deployment c d g ≡ ok dep
            → (pod_selector c d.app (babysitter_config d interval) x
                ≡ ok (label_selector dep.meta.name))
              × (lookup name_label dep.pod_labels ≡ some dep.meta.name))
  unfolding babysitter_config pod_selector deployment_object lookup bytes_eq
  selects_group d interval x present = elim (group_names_cases x d.groups []) [
    | inl (g, among, held, found) ↦ (
      g,
      among,
      held,
      λ dep e.
          let (name, version, config_map, named, _, same) = deployment-eq-ok c d g dep e in
          (rw (found, named, ← same) refl, rw (← same) refl),
    )
    | inr (never, same) ↦ ground (arith, never, present)
  ]

  -- If the groups of a deployment have a listener of some name, and the deployment id has eight
  -- bytes, there is a listener of this name in a group such that its Service and the group's
  -- Deployment are built, a babysitter answers `:<port>` for the name with the port to which the
  -- Service forwards, and the Service selects by what the Deployment selects by.
  pub listens_where_served :
      (lawful : IsExtern c) (d : Deployment K) (interval : ℕ) (x : Bytes)
      → 8 ≤ length d.deployment_id
      → 1 ≤ times_named x d.groups
      → (g : Group K) × (l : Listener) × (svc : KubeService) × (dep : KubeDeployment K) × Memᴰ g
          d.groups
        × Memᴰ l g.listeners
        × (x ≡ l.name)
        × (build_listener_service c d g l ≡ ok svc)
        × (build_deployment c d g ≡ ok dep)
        × (get_listener_address (babysitter_config d interval) x
            ≡ ok (58 ∷ int32_text svc.target_port))
        × (svc.selector ≡ dep.match_labels)
  unfolding babysitter_config deployment_object service_object get_listener_address
  listens_where_served lawful d interval x long present =
      elim (listener_ports_cases x d.groups []) [
        | inl (g, l, among, in_group, called, found) ↦
            let (svc, e) = service_builds c d g l lawful long in
            let (dep, e') = deployment_builds c d g lawful long in
            let (version, name, named, same) = service-eq-ok c d g l svc e in
            let (name', version', config_map, named', _, same') = deployment-eq-ok c d g dep e' in
            let agree : name ≡ name' = ok-injective (sym named ∙ named') in
            (
              g,
              l,
              svc,
              dep,
              among,
              in_group,
              called,
              e,
              e',
              rw (found, ← same) refl,
              rw (← same, ← same', agree) refl,
            )
        | inr (never, same) ↦ ground (arith, never, present)
      ]

  -- In a deployment that `newDeployment` returned, with eight bytes of deployment id, every
  -- component of the binary is in a group whose Deployment is built, and the babysitters that
  -- route to the component select pods by the label that the pods of this Deployment carry.
  pub every_component_found :
      (lawful : IsExtern c) (bin : Binaries) (o : MapOrder) (app : AppConfig) (cfg : KubeConfig K)
      (id image : Bytes) (port : ℕ) (r : Deployment K × ℕ) (components : Map (List Bytes))
      (interval : ℕ) (x : Bytes) (names : List Bytes)
      → IsMapOrder o
      → new_deployment bin o app cfg id image port ≡ ok r
      → read_components_and_listeners bin app.binary ≡ ok components
      → 8 ≤ length r.0.deployment_id
      → lookup x components ≡ some names
      → (g : Group K) × (dep : KubeDeployment K) × Memᴰ g r.0.groups
        × (1 ≤ count x g.components)
        × (build_deployment c r.0 g ≡ ok dep)
        × (pod_selector c r.0.app (babysitter_config r.0 interval) x
            ≡ ok (label_selector dep.meta.name))
        × (lookup name_label dep.pod_labels ≡ some dep.meta.name)
  every_component_found lawful bin o app cfg id image port r components interval x names order
        returned read long has =
      let once =
        new_deployment_partition bin o order app cfg id image port r returned components read x in
      let one : times x r.0.groups ≡ 1 = once ∙ rw has refl in
      let (g, among, held, selects) = selects_group r.0 interval x (omega (arith, one)) in
      let (dep, built) = deployment_builds c r.0 g lawful long in
      let (selected, labelled) = selects dep built in
      (g, dep, among, held, built, selected, labelled)
