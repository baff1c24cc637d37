-- ===== src/Manifests/Documents/Total.antt =====
-- When `generateYAMLs` returns a file (internal/impl/kube.go).
use weaver_kube.Base.{
  ℕ, ◌≤◌, List, [], ◌∷◌, ◌++◌, some, Bytes, codes, length, Map, Outcome, Error, ok, wrap, ◌>>=◌,
  >>=-eq-ok, ok-injective, ◌≡◌, refl, sym, ap, MapOrder,
}
use weaver_kube.Names.{Extern, IsExtern, config_map_name}
use weaver_kube.Names.Total.{first8_ok}
use weaver_kube.Config.{Api, Listener, Group, Deployment, KubeConfig, AppConfig}
use weaver_kube.Groups.{
  Binaries, read_components_and_listeners, new_deployment, form_groups, configured_groups,
}
use weaver_kube.Groups.Total.{Returns, Returns-bind, new_deployment_total}
use weaver_kube.Resources.Agreement.{deployment_builds, service_builds, autoscaler_builds}
use weaver_kube.Babysitter.{BabysitterConfig}
use weaver_kube.Manifests.{
  Resource, HeaderContent, service, deployment, autoscaler, Tools, marshal_resource,
  generate_services, generate_group, generate_groups, generate_core_yamls, generate_config_map,
  generate_roles_and_bindings, header, pods_getter_role, pods_getter_binding, config_map_object,
  babysitter_config, generate_yamls, tool_version,
}

pub kept :
    {K : Api} (bin : Binaries) (o : MapOrder) (app : AppConfig) (cfg : KubeConfig K)
    (id image : Bytes) (port : ℕ) (r : Deployment K × ℕ)
    → new_deployment bin o app cfg id image port ≡ ok r
    → (r.0.deployment_id ≡ id) × (r.0.config ≡ cfg) × (r.0.app ≡ app)
unfolding new_deployment
kept bin o app cfg id image port r e =
    let (components, read, e₁) = >>=-eq-ok (read_components_and_listeners bin app.binary) _ e in
    let (s, formed, e₂) =
      >>=-eq-ok
        (form_groups id cfg.listeners (configured_groups cfg.groups)
          (o.iterate (List Bytes) components) ([], port))
        _ e₁ in
    let same = ok-injective e₂ in
    (
      ap (λ p. p.0.deployment_id) (sym same),
      ap (λ p. p.0.config) (sym same),
      ap (λ p. p.0.app) (sym same),
    )

module _ {K : Api} (t : Tools K) where
  -- The calls of other packages that the file needs return values.
  pub record Works (config_filename interval_text : Bytes) : Type 0 where
    pub yaml : (r : Resource K) → Returns (t.yaml r)
    pub textpb : (b : BabysitterConfig) → Returns (t.textpb b)
    pub duration : Returns (t.parse_duration interval_text)
    pub config_file : Returns (t.read_file config_filename)
    pub version : (v : Bytes) × (t.build_info ≡ some v)
    pub executes : (h : HeaderContent) → Returns (t.execute_header h)
    pub opens : (f : Bytes) → Returns (t.open_file f)
    pub writes : (f w : Bytes) → Returns (t.write_file f w)

  wrap-Returns {ℓ} :
      {A : Type ℓ} (f : Error → Error) (m : Outcome A) → Returns m → Returns (wrap f m)
  wrap-Returns f m (a, e) = rw e (a, refl)

  module _ (yaml : (r : Resource K) → Returns (t.yaml r)) where
    marshal_resource-Returns :
        (w : Bytes) (r : Resource K) (comment : Bytes) → Returns (marshal_resource t w r comment)
    unfolding marshal_resource
    marshal_resource-Returns w r comment = Returns-bind (t.yaml r) _ (yaml r) (λ text. (_, refl))

    roles-Returns : (w n s : Bytes) → Returns (generate_roles_and_bindings t w n s)
    unfolding generate_roles_and_bindings
    roles-Returns w n s =
        Returns-bind _ _ (marshal_resource-Returns w (pods_getter_role n) (codes "Roles."))
          (λ w'. marshal_resource-Returns w' (pods_getter_binding n s) (codes "Role Bindings."))

    module _ (c : Extern) (lawful : IsExtern c) (d : Deployment K)
        (long : 8 ≤ length d.deployment_id) where
      generate_services-Returns :
          (g : Group K) (ls : List Listener) (w : Bytes) → Returns (generate_services t c d g ls w)
      unfolding generate_services
      generate_services-Returns g [] w = (w, refl)
      generate_services-Returns g (l ∷ ls) w =
          Returns-bind _ _ (wrap-Returns _ _ (service_builds c d g l lawful long)) (λ s.
            Returns-bind _ _
              (marshal_resource-Returns w (service s)
                (codes "Listener Service for group " ++ g.name))
              (λ w'. generate_services-Returns g ls w'))

      generate_group-Returns : (g : Group K) (w : Bytes) → Returns (generate_group t c d g w)
      unfolding generate_group
      generate_group-Returns g w =
          Returns-bind _ _ (generate_services-Returns g g.listeners w) (λ w₁.
            Returns-bind _ _ (wrap-Returns _ _ (deployment_builds c d g lawful long)) (λ dep.
              Returns-bind _ _
                (marshal_resource-Returns w₁ (deployment dep)
                  (codes "Deployment for group " ++ g.name))
                (λ w₂.
                  Returns-bind _ _ (wrap-Returns _ _ (autoscaler_builds c d g lawful long)) (λ hpa.
                    marshal_resource-Returns w₂ (autoscaler hpa)
                      (codes "Autoscaler for group " ++ g.name)))))

      generate_groups-Returns :
          (gs : List (Group K)) (w : Bytes) → Returns (generate_groups t c d gs w)
      unfolding generate_groups
      generate_groups-Returns [] w = (w, refl)
      generate_groups-Returns (g ∷ gs) w =
          Returns-bind _ _ (generate_group-Returns g w) (λ w'. generate_groups-Returns gs w')

      generate_core_yamls-Returns : (w : Bytes) → Returns (generate_core_yamls t c w d)
      unfolding generate_core_yamls
      generate_core_yamls-Returns w = generate_groups-Returns d.groups w

  module _ (c : Extern) (lawful : IsExtern c) (d : Deployment K) (long : 8 ≤ length d.deployment_id)
      (config_filename : Bytes)
      (works : Works config_filename d.config.telemetry.metrics.export_interval) where
    pub generate_config_map-Returns :
        (w : Bytes) → Returns (generate_config_map t c w config_filename d)
    unfolding generate_config_map config_map_name
    generate_config_map-Returns w = Returns-bind _ _ works.config_file (λ weaver_toml.
        Returns-bind _ _ (wrap-Returns _ _ works.duration) (λ interval.
          Returns-bind _ _ (works.textpb (babysitter_config d interval)) (λ config_textpb.
            Returns-bind _ _
              (Returns-bind _ _ (_, first8_ok d.deployment_id long) (λ version. (_, refl)))
              (λ name.
                Returns-bind _ _ (_, first8_ok d.deployment_id long)
                  (λ version.
                    marshal_resource-Returns works.yaml w
                      (config_map_object c d name version weaver_toml config_textpb)
                      (codes "Configuration"))))))

    header-Returns : (filename : Bytes) → Returns (header t d filename)
    unfolding header tool_version
    header-Returns filename =
        let (v, built) = works.version in
        Returns-bind _ _ (rw built (_, refl)) (λ tool.
          Returns-bind _ _ (_, first8_ok d.deployment_id long) (λ version. works.executes _))

  Returns-bind-at {ℓ κ} :
      {A : Type ℓ} {B : Type κ} (m : Outcome A) (f : A → Outcome B) (a : A)
      → m ≡ ok a
      → Returns (f a)
      → Returns (m >>= f)
  Returns-bind-at m f a e h = rw e h

  -- If the binary can be read, the deployment id has eight bytes and the calls of other packages
  -- return values, then a file is written, whatever the configuration and the orders of the maps.
  pub generate_yamls_total :
      (c : Extern) (bin : Binaries) (o : MapOrder) (app : AppConfig) (cfg : KubeConfig K)
      (id image : Bytes) (port : ℕ) (components : Map (List Bytes))
      → IsExtern c
      → read_components_and_listeners bin app.binary ≡ ok components
      → 8 ≤ length id
      → Works cfg.app_config cfg.telemetry.metrics.export_interval
      → (r : (Bytes × Bytes) × ℕ) × (generate_yamls t c bin o app cfg id image port ≡ ok r)
  unfolding generate_yamls
  generate_yamls_total c bin o app cfg id image port components lawful read long works =
      let (r, made) = new_deployment_total bin o app cfg id image port components read long in
      let (same_id, same_cfg, _) = kept bin o app cfg id image port r made in
      let long' : 8 ≤ length r.0.deployment_id = rw same_id long in
      let works' : Works cfg.app_config r.0.config.telemetry.metrics.export_interval =
        rw same_cfg works in
      Returns-bind-at _ _ r made (
        Returns-bind _ _ (_, first8_ok id long)
          (λ version.
            Returns-bind _ _ (header-Returns c lawful r.0 long' cfg.app_config works' _) (λ head.
              Returns-bind _ _ (wrap-Returns _ _ (roles-Returns works.yaml head _ _)) (λ w₁.
                Returns-bind _ _
                  (wrap-Returns _ _
                    (generate_config_map-Returns c lawful r.0 long' cfg.app_config works' w₁))
                  (λ w₂.
                    Returns-bind _ _
                      (wrap-Returns _ _
                        (generate_core_yamls-Returns works.yaml c lawful r.0 long' w₂))
                      (λ w₃. Returns-bind _ _ (works.opens _) (λ opened.
                        Returns-bind _ _ (wrap-Returns _ _ (works.writes _ w₃))
                          (λ written. (_, refl)))))))))
