-- ===== src/Tool/Pods.antt =====
-- What runs in a pod of a group's Deployment: the container's arguments that `buildContainer` of
-- internal/impl/kube.go writes, read by the `babysitter` command of internal/tool/babysitter.go with
-- the files of the ConfigMap that `generateConfigMap` writes.
use weaver_kube.Base.{
  ap, sym, is_none, ℕ, true, false, List, [], ◌∷◌, ◌++◌, map, none, some, Bytes, codes, bytes_eq,
  lookup, Error, Outcome, ok, wrap, ◌>>=◌, ◌≡◌, ◌≢◌, ◌⊎◌, refl,
}
use weaver_kube.Names.{Extern, config_map_name}
use weaver_kube.Config.{Api, Group, Deployment, AppConfig}
use weaver_kube.Resources.{KubeDeployment}
use weaver_kube.Resources.Builders.{build_deployment}
use weaver_kube.Babysitter.{BabysitterConfig}
use weaver_kube.Babysitter.Start.{
  BabysitterOptions, Surroundings, WeaveletArgs, Babysitter, contains, weavelet_args,
  new_babysitter,
}
use weaver_kube.Babysitter.Serve.Ends.{serve_starts}
use weaver_kube.Babysitter.Serve.{ServeState, is_positive, serve_start}
use weaver_kube.Babysitter.Watch.{replica_url}
use weaver_kube.Manifests.{Tools, babysitter_config, config_map_object}
use weaver_kube.Tool.{
  PodHost, in_container, if_present, parse_weaver_config, parse_babysitter_config,
  babysitter_command, babysitter_entry, commands,
}
use weaver_kube.Groups.Total.{Returns}
use weaver_kube.Tool.Mounts.{IsPodOf, config_files}

-- The calls of other packages by which a babysitter is made return values.
pub record Starts (w : Surroundings) : Type 0 where
  pub envelope : (a : WeaveletArgs) (app : AppConfig) → Returns (w.new_envelope a app)
  pub cluster : Returns w.in_cluster_config
  pub clientset : (x : Bytes) → Returns (w.new_clientset x)
  pub update : (l : List Bytes) → Returns (w.update_components l)

bind_returned {ℓ κ} :
    {A : Type ℓ} {B : Type κ} {b : B} (m : Outcome A) (f : A → Outcome B)
    → Returns m
    → ((a : A) → f a ≡ ok b)
    → (m >>= f) ≡ ok b
bind_returned m f (a, e) h = rw e (h a)

wrap_returned {ℓ} :
    {A : Type ℓ} (f : Error → Error) (m : Outcome A) → Returns m → Returns (wrap f m)
wrap_returned f m (a, e) = (a, rw e refl)

module _ (h : PodHost) where
  weaver_config_parsed :
      (filename toml : Bytes) (app : AppConfig)
      → h.read_file filename ≡ ok toml
      → h.parse_config filename toml ≡ ok app
      → h.missing (codes "/weaver/" ++ h.base_name app.binary) ≡ false
      → parse_weaver_config h filename ≡ ok (in_container h app)
  unfolding parse_weaver_config in_container if_present
  weaver_config_parsed filename toml app read parsed present = rw (read, parsed, present)

  babysitter_config_parsed :
      (filename text : Bytes) (cfg : BabysitterConfig)
      → h.read_file filename ≡ ok text
      → h.unmarshal_textpb text ≡ ok cfg
      → parse_babysitter_config h filename ≡ ok cfg
  unfolding parse_babysitter_config
  babysitter_config_parsed filename text cfg read parsed = rw (read, parsed)

module _ {S Entry Span Snap : Type 0} (w : Surroundings) where
  made :
      BabysitterOptions S Entry Span Snap
      → AppConfig
      → BabysitterConfig
      → List Bytes
      → Babysitter S Entry Span Snap
  made opts app cfg components = record {
    cfg = cfg;
    opts = opts;
    app = app;
    weavelet = weavelet_args w app cfg components;
    hosted = components;
    has_printer = is_none opts.handle_log_entry;
    watching = [];
  }

  made_lem :
      (opts : BabysitterOptions S Entry Span Snap) (app : AppConfig) (cfg : BabysitterConfig)
      (components : List Bytes)
      → Starts w
      → new_babysitter w app cfg components opts ≡ ok (made opts app cfg components)
  unfolding new_babysitter made
  made_lem opts app cfg components starts =
      bind_returned _ _ (wrap_returned _ _ (starts.envelope _ app)) (λ _.
        bind_returned _ _ (wrap_returned _ _ starts.cluster) (λ cluster.
          bind_returned _ _ (wrap_returned _ _ (starts.clientset cluster))
            (λ _. bind_returned _ _ (wrap_returned _ _ (starts.update components)) (λ _. refl))))

  -- The command, given what its two files parse to.
  command_lem :
      (h : PodHost) (opts : BabysitterOptions S Entry Span Snap) (world : S) (a b : Bytes)
      (components : List Bytes) (app : AppConfig) (cfg : BabysitterConfig) (s : ServeState S Snap)
      → parse_weaver_config h a ≡ ok app
      → parse_babysitter_config h b ≡ ok cfg
      → components ≢ []
      → Starts w
      → serve_start opts cfg world ≡ ok s
      → babysitter_command h w opts world (a ∷ b ∷ components)
        ≡ ok (made opts app cfg components, s)
  unfolding babysitter_command
  command_lem h opts world a b [] app cfg s pa pb inhabited starts serving = absurd (inhabited refl)
  command_lem h opts world a b (x ∷ xs) app cfg s pa pb inhabited starts serving =
      rw (pa, pb, made_lem opts app cfg (x ∷ xs) starts) (unfold made in rw serving)

  -- The command in a container with the two configurations.
  pub babysitter_command-Starts :
      (h : PodHost) (opts : BabysitterOptions S Entry Span Snap) (world : S)
      (components : List Bytes) (toml text : Bytes) (app : AppConfig) (cfg : BabysitterConfig)
      → h.read_file (codes "/weaver/weaver.toml") ≡ ok toml
      → h.read_file (codes "/weaver/config.textpb") ≡ ok text
      → h.parse_config (codes "/weaver/weaver.toml") toml ≡ ok app
      → h.missing (codes "/weaver/" ++ h.base_name app.binary) ≡ false
      → h.unmarshal_textpb text ≡ ok cfg
      → components ≢ []
      → Starts w
      → (opts.handle_metrics ≡ none) ⊎ (is_positive cfg.telemetry.metrics.export_interval ≡ true)
      → (b : Babysitter S Entry Span Snap) × (s : ServeState S Snap) × (babysitter_command h w opts
            world
            (codes "/weaver/weaver.toml" ∷ codes "/weaver/config.textpb" ∷ components)
          ≡ ok (b, s))
        × (b.cfg ≡ cfg)
        × (b.app.name ≡ app.name)
        × (b.hosted ≡ components)
        × (b.watching ≡ [])
        × (b.weavelet.run_main ≡ contains components w.main_component)
        × (b.weavelet.internal_address ≡ codes ":10000")
  unfolding made weavelet_args in_container
  babysitter_command-Starts h opts world components toml text app cfg toml_read text_read parsed
        present back inhabited starts fits =
      let (s, serving) = serve_starts opts cfg world fits in
      (
        made opts (in_container h app) cfg components,
        s,
        command_lem h opts world (codes "/weaver/weaver.toml") (codes "/weaver/config.textpb")
            components (in_container h app) cfg s
            (weaver_config_parsed h _ toml app toml_read parsed present)
            (babysitter_config_parsed h _ text cfg text_read back) inhabited starts serving,
        refl,
        refl,
        refl,
        refl,
        refl,
        refl,
      )

  fits_config :
      {K : Api} (d : Deployment K) (interval : ℕ) (opts : BabysitterOptions S Entry Span Snap)
      → (opts.handle_metrics ≡ none) ⊎ (is_positive interval ≡ true)
      → (opts.handle_metrics ≡ none)
        ⊎ (is_positive (babysitter_config d interval).telemetry.metrics.export_interval ≡ true)
  unfolding babysitter_config
  fits_config d interval opts fits = fits

  -- In a pod of the Deployment of a group of components, whose files of the ConfigMap are mounted
  -- as Kubernetes documents it, the container's first argument names the `babysitter` command. With
  -- the arguments behind it, if the text of the babysitter's configuration is read back as what was
  -- written, the application's configuration parses and its binary is in the container, the calls
  -- of other packages by which a babysitter is made return values, and there is no plugin for
  -- metrics or the export interval is positive, the command starts a babysitter for the
  -- application, with exactly the configuration that the deployment wrote. Its weavelet hosts
  -- exactly the components of the group, runs `main` if it is among them, and listens on the port
  -- to which other babysitters' routing sends calls.
  pub pod_runs_group :
      {K : Api} (t : Tools K) (c : Extern) (d : Deployment K) (g : Group K) (dep : KubeDeployment K)
      (h : PodHost) (opts : BabysitterOptions S Entry Span Snap) (world : S)
      (name label toml text : Bytes) (app : AppConfig) (interval : ℕ)
      → build_deployment c d g ≡ ok dep
      → g.components ≢ []
      → config_map_name d.deployment_id ≡ ok name
      → t.textpb (babysitter_config d interval) ≡ ok text
      → ((x : Bytes)
          → t.textpb (babysitter_config d interval) ≡ ok x
          → h.unmarshal_textpb x ≡ ok (babysitter_config d interval))
      → IsPodOf h dep (config_map_object c d name label toml text)
      → h.parse_config (codes "/weaver/weaver.toml") toml ≡ ok app
      → h.missing (codes "/weaver/" ++ h.base_name app.binary) ≡ false
      → Starts w
      → (opts.handle_metrics ≡ none) ⊎ (is_positive interval ≡ true)
      → (args : List Bytes) × (b : Babysitter S Entry Span Snap) × (s : ServeState S Snap) × (map
            (λ k. k.args)
            dep.containers
          ≡ (codes "babysitter" ∷ args) ∷ [])
        × (lookup (codes "babysitter") (commands opts) ≡ some (babysitter_entry opts))
        × (babysitter_command h w opts world args ≡ ok (b, s))
        × (b.cfg ≡ babysitter_config d interval)
        × (b.app.name ≡ app.name)
        × (b.hosted ≡ g.components)
        × (b.weavelet.run_main ≡ contains g.components w.main_component)
        × ((ip : Bytes) → replica_url ip ≡ codes "tcp://" ++ (ip ++ b.weavelet.internal_address))
  unfolding commands lookup bytes_eq
  pod_runs_group t c d g dep h opts world name label toml text app interval built inhabited named
        written back pod parsed present starts fits =
      let (toml_read, text_read, args) =
        config_files h c d g dep name label toml text built named pod in
      let (b, s, run, cfg, named_app, hosted, _, main, address) =
        babysitter_command-Starts h opts world g.components toml text app
          (babysitter_config d interval) toml_read text_read parsed present (back text written)
          inhabited starts (fits_config d interval opts fits) in
      (
        codes "/weaver/weaver.toml" ∷ codes "/weaver/config.textpb" ∷ g.components,
        b,
        s,
        args,
        refl,
        run,
        cfg,
        named_app,
        hosted,
        main,
        λ ip. ap (λ a. codes "tcp://" ++ (ip ++ a)) (sym address),
      )
