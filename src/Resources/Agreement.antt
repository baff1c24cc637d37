-- ===== src/Resources/Agreement.antt =====
-- The objects of one group refer to one another (internal/impl/kube.go).
use weaver_kube.Base.{
  ◌≤◌, [], ◌∷◌, ◌++◌, some, Bytes, codes, bytes_eq, lookup, Outcome, ok, ◌>>=◌, >>=-eq-ok,
  ok-injective, ◌≡◌, refl, sym, ap, ◌∙◌, length,
}
use weaver_kube.Names.{Extern, IsExtern, first8, deployment_name, config_map_name}
use weaver_kube.Names.Total.{first8_ok, deployment_name_total}
use weaver_kube.Config.{Api, Listener, Group, Deployment}
use weaver_kube.Resources.{KubeDeployment, KubeService, KubeAutoscaler}
use weaver_kube.Resources.Builders.{
  name_label, deployment_object, service_object, autoscaler_object, build_deployment,
  build_listener_service, build_autoscaler,
}

module _ {K : Api} (c : Extern) (d : Deployment K) (g : Group K) where
  -- The name of the group's objects.
  abbrev pub object_name : Outcome Bytes
  object_name = deployment_name c d.app.name g.name d.deployment_id

  -- What a Deployment, a Service and an autoscaler that were built were built from.
  pub deployment-eq-ok :
      (dep : KubeDeployment K)
      → build_deployment c d g ≡ ok dep
      → (name version config_map : Bytes) × (object_name ≡ ok name)
        × (config_map_name d.deployment_id ≡ ok config_map)
        × (deployment_object d g name version config_map ≡ dep)
  unfolding build_deployment
  deployment-eq-ok dep e =
      let (name, named, e₁) = >>=-eq-ok object_name _ e in
      let (version, _, e₂) = >>=-eq-ok (first8 d.deployment_id) _ e₁ in
      let (config_map, mapped, e₃) = >>=-eq-ok (config_map_name d.deployment_id) _ e₂ in
      (name, version, config_map, named, mapped, ok-injective e₃)

  pub service-eq-ok :
      (lis : Listener) (svc : KubeService)
      → build_listener_service c d g lis ≡ ok svc
      → (version name : Bytes) × (object_name ≡ ok name)
        × (service_object c d lis version name ≡ svc)
  unfolding build_listener_service
  service-eq-ok lis svc e =
      let (version, _, e₁) = >>=-eq-ok (first8 d.deployment_id) _ e in
      let (name, named, e₂) = >>=-eq-ok object_name _ e₁ in (version, name, named, ok-injective e₂)

  pub autoscaler-eq-ok :
      (hpa : KubeAutoscaler K)
      → build_autoscaler c d g ≡ ok hpa
      → (name version : Bytes) × (object_name ≡ ok name)
        × (autoscaler_object c d g name version ≡ hpa)
  unfolding build_autoscaler
  autoscaler-eq-ok hpa e =
      let (name, named, e₁) = >>=-eq-ok object_name _ e in
      let (version, _, e₂) = >>=-eq-ok (first8 d.deployment_id) _ e₁ in
      (name, version, named, ok-injective e₂)

  -- When the Deployment, the Service of a listener and the autoscaler of a group are built, the
  -- pods of the Deployment carry the label by which it and the Service select, which is the
  -- Deployment's name, the autoscaler has this name and scales this Deployment, and the Service
  -- forwards to the listener's port.
  pub group_agreement :
      (lis : Listener) (dep : KubeDeployment K) (svc : KubeService) (hpa : KubeAutoscaler K)
      → build_deployment c d g ≡ ok dep
      → build_listener_service c d g lis ≡ ok svc
      → build_autoscaler c d g ≡ ok hpa
      → (dep.match_labels ≡ svc.selector)
        × (svc.selector ≡ (name_label, dep.meta.name) ∷ [])
        × (lookup name_label dep.pod_labels ≡ some dep.meta.name)
        × (hpa.scale_target_ref.name ≡ dep.meta.name)
        × (hpa.meta.name ≡ dep.meta.name)
        × (svc.target_port ≡ lis.port)
  unfolding deployment_object service_object autoscaler_object lookup bytes_eq
  group_agreement lis dep svc hpa e e' e'' =
      let (name, version, config_map, named, _, same) = deployment-eq-ok dep e in
      let (version', name', named', same') = service-eq-ok lis svc e' in
      let (name'', version'', named'', same'') = autoscaler-eq-ok hpa e'' in
      let n' : name' ≡ name = ok-injective (sym named' ∙ named) in
      let n'' : name'' ≡ name = ok-injective (sym named'' ∙ named) in
      rw (← same, ← same', ← same'') (rw (n', n'') (refl, refl, refl, refl, refl, refl))

  -- A bind of two outcomes that are values.
  bind₂ :
      {A B D : Type 0} {m : Outcome A} {n : Outcome B} {a : A} {b : B} (f : A → B → D)
      → m ≡ ok a
      → n ≡ ok b
      → (m >>= λ x. n >>= λ y. ok (f x y)) ≡ ok (f a b)
  bind₂ f e e' = rw (e, e') refl

  bind₃ :
      {A B D E : Type 0} {m : Outcome A} {n : Outcome B} {o : Outcome D} {a : A} {b : B} {d' : D}
      (f : A → B → D → E)
      → m ≡ ok a
      → n ≡ ok b
      → o ≡ ok d'
      → (m >>= λ x. n >>= λ y. o >>= λ z. ok (f x y z)) ≡ ok (f a b d')
  bind₃ f e e' e'' = rw (e, e', e'') refl

  pub deployment_builds :
      IsExtern c
      → 8 ≤ length d.deployment_id
      → (dep : KubeDeployment K) × (build_deployment c d g ≡ ok dep)
  unfolding build_deployment config_map_name
  deployment_builds lawful long =
      let (short, hash, _, _, named) =
        deployment_name_total c lawful d.app.name g.name d.deployment_id long in
      let cut = first8_ok d.deployment_id long in
      (
        _,
        bind₃ (deployment_object d g) named cut
            (ap (λ v. v >>= λ version. ok (codes "config-" ++ version)) cut),
      )

  pub service_builds :
      (lis : Listener)
      → IsExtern c
      → 8 ≤ length d.deployment_id
      → (svc : KubeService) × (build_listener_service c d g lis ≡ ok svc)
  unfolding build_listener_service
  service_builds lis lawful long =
      let (short, hash, _, _, named) =
        deployment_name_total c lawful d.app.name g.name d.deployment_id long in
      (_, bind₂ (service_object c d lis) (first8_ok d.deployment_id long) named)

  pub autoscaler_builds :
      IsExtern c
      → 8 ≤ length d.deployment_id
      → (hpa : KubeAutoscaler K) × (build_autoscaler c d g ≡ ok hpa)
  unfolding build_autoscaler
  autoscaler_builds lawful long =
      let (short, hash, _, _, named) =
        deployment_name_total c lawful d.app.name g.name d.deployment_id long in
      (_, bind₂ (autoscaler_object c d g) named (first8_ok d.deployment_id long))
