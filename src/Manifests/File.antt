-- ===== src/Manifests/File.antt =====
-- What stands in a file that `generateYAMLs` of internal/impl/kube.go wrote, document by document.
use mathlib.Core.Path.{subst}
use weaver_kube.Base.{
  wrap-eq-ok, ℕ, List, [], ◌∷◌, ◌++◌, Bytes, codes, ok, wrap, >>=-eq-ok, ok-injective, ◌≡◌, refl,
  sym, ap, ◌∙◌, MapOrder,
}
use weaver_kube.Names.{Extern, first8, config_map_name}
use weaver_kube.Config.{Api, Deployment, KubeConfig, AppConfig}
use weaver_kube.Groups.{Binaries, new_deployment}
use weaver_kube.Manifests.{
  Resource, Tools, marshal_resource, generate_core_yamls, generate_config_map,
  generate_roles_and_bindings, header, pods_getter_role, pods_getter_binding, config_map_object,
  babysitter_config, generate_yamls,
}
use weaver_kube.Manifests.Documents.Total.{kept}
use weaver_kube.Manifests.Documents.{Job, run, run-append, core_jobs, generate_core_yamls_lem}
use weaver_kube.Manifests.Contents.{Document, Built, Prints, run-Prints}

module _ {K : Api} (t : Tools K) where
  -- The file of a deployment: the header, the role and its binding, the ConfigMap with the two
  -- configurations, and the resources of the groups, in this order, and nothing else.
  pub record IsFile (c : Extern) (d : Deployment K) (filename text : Bytes) : Type 0 where
    pub head : Bytes
    pub weaver_toml : Bytes
    pub interval : ℕ
    pub config_textpb : Bytes
    pub config_map_named : Bytes
    pub version : Bytes
    pub documents : List (Document K)
    pub body : Bytes
    pub headed : header t d filename ≡ ok head
    pub toml_read : t.read_file d.config.app_config ≡ ok weaver_toml
    pub interval_parsed : t.parse_duration d.config.telemetry.metrics.export_interval ≡ ok interval
    pub config_written : t.textpb (babysitter_config d interval) ≡ ok config_textpb
    pub mapped : config_map_name d.deployment_id ≡ ok config_map_named
    pub versioned : first8 d.deployment_id ≡ ok version
    pub built : Built (core_jobs c d d.groups) documents
    pub prints :
        Prints t
          ((codes "Roles.", pods_getter_role d.config.namespace)
            ∷ (
              codes "Role Bindings.",
              pods_getter_binding d.config.namespace d.config.service_account,
            )
            ∷ (
              codes "Configuration",
              config_map_object c d config_map_named version weaver_toml config_textpb,
            )
            ∷ documents)
          body
    pub whole : text ≡ head ++ body

  roles-eq-ok :
      (w n s w' : Bytes)
      → generate_roles_and_bindings t w n s ≡ ok w'
      → run t
          ((codes "Roles.", ok (pods_getter_role n))
            ∷ (codes "Role Bindings.", ok (pods_getter_binding n s))
            ∷ [])
          w
        ≡ ok w'
  unfolding generate_roles_and_bindings
  roles-eq-ok w n s w' e =
      let (v, one, e₁) =
        >>=-eq-ok (marshal_resource t w (pods_getter_role n) (codes "Roles.")) _ e in
      rw (one, e₁) refl

  config_map-eq-ok :
      (c : Extern) (w filename w' : Bytes) (d : Deployment K)
      → generate_config_map t c w filename d ≡ ok w'
      → (toml : Bytes) × (interval : ℕ) × (textpb name version : Bytes) × (t.read_file filename
          ≡ ok toml)
        × (t.parse_duration d.config.telemetry.metrics.export_interval ≡ ok interval)
        × (t.textpb (babysitter_config d interval) ≡ ok textpb)
        × (config_map_name d.deployment_id ≡ ok name)
        × (first8 d.deployment_id ≡ ok version)
        × (run t
              ((codes "Configuration", ok (config_map_object c d name version toml textpb)) ∷ [])
              w
            ≡ ok w')
  unfolding generate_config_map
  config_map-eq-ok c w filename w' d e =
      let (toml, read, e₁) = >>=-eq-ok (t.read_file filename) _ e in
      let (interval, parsed, e₂) = >>=-eq-ok (wrap _ (t.parse_duration _)) _ e₁ in
      let (textpb, written, e₃) = >>=-eq-ok (t.textpb (babysitter_config d interval)) _ e₂ in
      let (name, named, e₄) = >>=-eq-ok (config_map_name d.deployment_id) _ e₃ in
      let (version, versioned, e₅) = >>=-eq-ok (first8 d.deployment_id) _ e₄ in
      (
        toml,
        interval,
        textpb,
        name,
        version,
        read,
        wrap-eq-ok _ _ parsed,
        written,
        named,
        versioned,
        rw e₅ refl,
      )

  -- The first document is the one of a job that is there already.
  Built-given :
      (comment : Bytes) (r : Resource K) (js : List (Job K)) (ds : List (Document K))
      → Built ((comment, ok r) ∷ js) ds
      → (es : List (Document K)) × (ds ≡ (comment, r) ∷ es) × Built js es
  Built-given comment r js [] h = absurd h
  Built-given comment r js ((comment', r') ∷ es) (same, made, rest) = (
    es,
    ap (λ x. (x, r') ∷ es) (sym same) ∙ ap (λ x. (comment, x) ∷ es) (sym (ok-injective made)),
    rest,
  )

  Built-three :
      (a b e : Document K) (js : List (Job K)) (ds : List (Document K))
      → Built ((a.0, ok a.1) ∷ (b.0, ok b.1) ∷ (e.0, ok e.1) ∷ js) ds
      → (es : List (Document K)) × (ds ≡ a ∷ b ∷ e ∷ es) × Built js es
  Built-three a b e js ds h =
      let (ds₁, same, h₁) = Built-given a.0 a.1 ((b.0, ok b.1) ∷ (e.0, ok e.1) ∷ js) ds h in
      let (ds₂, same', h₂) = Built-given b.0 b.1 ((e.0, ok e.1) ∷ js) ds₁ h₁ in
      let (ds₃, same'', h₃) = Built-given e.0 e.1 js ds₂ h₂ in
      (ds₃, same ∙ ap (λ l. a ∷ l) same' ∙ ap (λ l. a ∷ b ∷ l) same'', h₃)

  run_three :
      (a b e : Document K) (js : List (Job K)) (w v v' w' : Bytes)
      → run t ((a.0, ok a.1) ∷ (b.0, ok b.1) ∷ []) w ≡ ok v
      → run t ((e.0, ok e.1) ∷ []) v ≡ ok v'
      → run t js v' ≡ ok w'
      → run t ((a.0, ok a.1) ∷ (b.0, ok b.1) ∷ (e.0, ok e.1) ∷ js) w ≡ ok w'
  run_three a b e js w v v' w' first second third =
      run-append t ((a.0, ok a.1) ∷ (b.0, ok b.1) ∷ []) ((e.0, ok e.1) ∷ js) w
      ∙ rw first (run-append t ((e.0, ok e.1) ∷ []) js v ∙ rw second third)

  IsFile_lem :
      (c : Extern) (d : Deployment K) (filename head w₁ w₂ w₃ : Bytes)
      → header t d filename ≡ ok head
      → generate_roles_and_bindings t head d.config.namespace d.config.service_account ≡ ok w₁
      → generate_config_map t c w₁ d.config.app_config d ≡ ok w₂
      → generate_core_yamls t c w₂ d ≡ ok w₃
      → IsFile c d filename w₃
  IsFile_lem c d filename head w₁ w₂ w₃ headed roles mapped core =
      let role : Document K = (codes "Roles.", pods_getter_role d.config.namespace) in
      let binding : Document K =
        (codes "Role Bindings.", pods_getter_binding d.config.namespace d.config.service_account) in
      let (toml, interval, textpb, name, version, read, parsed, printed, named, versioned, ran) =
        config_map-eq-ok c w₁ d.config.app_config w₂ d mapped in
      let config : Document K =
        (codes "Configuration", config_map_object c d name version toml textpb) in
      let all =
        run_three role binding config (core_jobs c d d.groups) head w₁ w₂ w₃
          (roles-eq-ok head d.config.namespace d.config.service_account w₁ roles) ran
          (sym (generate_core_yamls_lem t c d w₂) ∙ core) in
      let jobs : List (Job K) =
        (role.0, ok role.1)
        ∷ (binding.0, ok binding.1)
        ∷ (config.0, ok config.1)
        ∷ core_jobs c d d.groups in
      let (ds, body, built, prints, end) = run-Prints t jobs head w₃ all in
      let (es, same, rest) = Built-three role binding config (core_jobs c d d.groups) ds built in
      record {
        head = head;
        weaver_toml = toml;
        interval = interval;
        config_textpb = textpb;
        config_map_named = name;
        version = version;
        documents = es;
        body = body;
        headed = headed;
        toml_read = read;
        interval_parsed = parsed;
        config_written = printed;
        mapped = named;
        versioned = versioned;
        built = rest;
        prints = subst (λ (l : List (Document K)). Prints t l body) same prints;
        whole = end;
      }

  -- If a file is written, its name is that of the version in the directory for temporary files,
  -- and its text is that of a deployment which `newDeployment` returned: the header, the role and
  -- its binding, the ConfigMap with the application's and the babysitter's configuration, and
  -- behind them the Services, the Deployment and the autoscaler of each group, in the order of
  -- the groups, with nothing left out and nothing added.
  pub generate_yamls-IsFile :
      (c : Extern) (bin : Binaries) (o : MapOrder) (app : AppConfig) (cfg : KubeConfig K)
      (id image : Bytes) (port : ℕ) (filename text : Bytes) (port' : ℕ)
      → generate_yamls t c bin o app cfg id image port ≡ ok ((filename, text), port')
      → (d : Deployment K) × (new_deployment bin o app cfg id image port ≡ ok (d, port'))
        × (version : Bytes) × (first8 id ≡ ok version)
        × (filename ≡ t.temp_file (codes "kube_" ++ (version ++ codes ".yaml")))
        × IsFile c d filename text
  unfolding generate_yamls
  generate_yamls-IsFile c bin o app cfg id image port filename text port' e =
      let (r, made, e₁) = >>=-eq-ok (new_deployment bin o app cfg id image port) _ e in
      let (version, versioned, e₂) = >>=-eq-ok (first8 id) _ e₁ in
      let file : Bytes = t.temp_file (codes "kube_" ++ (version ++ codes ".yaml")) in
      let (head, headed, e₃) = >>=-eq-ok (header t r.0 file) _ e₂ in
      let (w₁, roles, e₄) =
        >>=-eq-ok (wrap _ (generate_roles_and_bindings t head cfg.namespace cfg.service_account)) _
          e₃ in
      let (w₂, mapped, e₅) =
        >>=-eq-ok (wrap _ (generate_config_map t c w₁ cfg.app_config r.0)) _ e₄ in
      let (w₃, core, e₆) = >>=-eq-ok (wrap _ (generate_core_yamls t c w₂ r.0)) _ e₅ in
      let (_, opened, e₇) = >>=-eq-ok (t.open_file file) _ e₆ in
      let (_, written, e₈) = >>=-eq-ok (wrap _ (t.write_file file w₃)) _ e₇ in
      let (same_id, same_cfg, _) = kept bin o app cfg id image port r made in
      let end = ok-injective e₈ in
      let whole =
        IsFile_lem c r.0 file head w₁ w₂ w₃ headed
          (subst
            (λ (x : KubeConfig K).
              generate_roles_and_bindings t head x.namespace x.service_account ≡ ok w₁)
            (sym same_cfg) (wrap-eq-ok _ _ roles))
          (subst (λ (x : KubeConfig K). generate_config_map t c w₁ x.app_config r.0 ≡ ok w₂)
            (sym same_cfg) (wrap-eq-ok _ _ mapped))
          (wrap-eq-ok _ _ core) in
      (
        r.0,
        made ∙ ap (λ x. ok (r.0, x)) (ap (λ x. x.1) end),
        version,
        versioned,
        sym (ap (λ x. x.0.0) end),
        subst (λ (x : Bytes × Bytes). IsFile c r.0 x.0 x.1) (ap (λ x. x.0) end) whole,
      )
