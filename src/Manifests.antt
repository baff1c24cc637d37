-- ===== src/Manifests.antt =====
-- How internal/impl/kube.go writes the YAML file of a deployment: `marshalResource`,
-- `generateRolesAndBindings`, `generateConfigMap`, `generateCoreYAMLs`, `header` and
-- `generateYAMLs`, with `ToolVersion` of internal/impl/version.go. A buffer that a function writes
-- to is an argument and part of the result; on an error the program drops it.
pub mod Lookups
pub mod Discovery
pub mod Documents
pub mod Intervals
pub mod Contents
pub mod File
use weaver_kube.Base.{
  ℕ, Bool, true, false, List, [], ◌∷◌, ◌++◌, map, Option, none, some, Bytes, codes, bytes_eq, Map,
  lookup, insert, Error, plain, wrapped, wrapped_at, plain_at, Outcome, ok, err, panic, wrap, ◌>>=◌,
}
use weaver_kube.Names.{Extern, quote, first8, config_map_name}
use weaver_kube.Config.{
  Api, Listener, Group, KubeConfig, Deployment, AppConfig, TelemetrySpec, MetricOpts,
}
use weaver_kube.Resources.{Meta, KubeDeployment, KubeService, KubeAutoscaler}
use weaver_kube.Resources.Builders.{
  app_label, version_label, build_deployment, build_listener_service, build_autoscaler,
}
use weaver_kube.Babysitter.{BabysitterConfig, Telemetry, MetricOptions}
use weaver_kube.Groups.{Binaries, new_deployment}
use weaver_kube.Base.{MapOrder}

pub record PolicyRule : Type 0 where
  pub api_groups : List Bytes
  pub resources : List Bytes
  pub verbs : List Bytes

pub record Subject : Type 0 where
  pub kind : Bytes
  pub name : Bytes
  pub namespace : Bytes

-- A resource of the file. The constructor stands for the `TypeMeta` that the source sets.
pub data Resource (K : Api) : Type 0 where
  role : (name namespace : Bytes) → List PolicyRule → Resource K
  role_binding : (name namespace : Bytes) → (role_name : Bytes) → List Subject → Resource K
  config_map : Meta → (data_of : Map Bytes) → Resource K
  service : KubeService → Resource K
  deployment : KubeDeployment K → Resource K
  autoscaler : KubeAutoscaler K → Resource K

-- The values that `header` fills its template with.
pub record HeaderContent : Type 0 where
  pub tool_version : Bytes
  pub app : Bytes
  pub version : Bytes
  pub groups : List (List Bytes)
  pub listeners : List Bytes
  pub filename : Bytes

-- What the program calls in other packages: `yaml.Marshal`, `prototext.Marshal`,
-- `time.ParseDuration`, `debug.ReadBuildInfo` (the version of the main module), the execution of
-- the header's template, `os.ReadFile`, and the opening of a file for appending. `temp_file` is
-- `filepath.Join(os.TempDir(), name)`.
pub record Tools (K : Api) : Type 0 where
  pub yaml : Resource K → Outcome Bytes
  pub textpb : BabysitterConfig → Outcome Bytes
  pub parse_duration : Bytes → Outcome ℕ
  pub build_info : Option Bytes
  pub execute_header : HeaderContent → Outcome Bytes
  pub read_file : Bytes → Outcome Bytes
  pub open_file : Bytes → Outcome (Unit {0})
  pub write_file : Bytes → Bytes → Outcome (Unit {0})
  pub temp_file : Bytes → Bytes

abbrev newline : Bytes
newline = 10 ∷ []

unfoldable pub document : Bytes → Bytes → Bytes
document comment text =
    (newline ++ (codes "# " ++ (comment ++ newline)))
    ++ (text ++ (newline ++ (codes "---" ++ newline)))

-- The version of the tool, and whether it is a development build.
unfoldable pub tool_version : Option Bytes → Outcome (Bytes × Bool)
tool_version none = err (plain (codes "tool binary must be built from a module"))
tool_version (some version) = ok (version, bytes_eq version (codes "(devel)"))

-- The loops of `generateConfigMap` that fill its maps `listeners` and `groups`.
add_ports : List Listener → Map ℕ → Map ℕ
add_ports [] m = m
add_ports (l ∷ ls) m = add_ports ls (insert l.name l.port m)

add_members : Bytes → List Bytes → Map Bytes → Map Bytes
add_members name [] m = m
add_members name (c ∷ cs) m = add_members name cs (insert c name m)

module _ {K : Api} where
  unfoldable pub listener_ports : List (Group K) → Map ℕ → Map ℕ
  unfolding add_ports
  listener_ports [] m = m
  listener_ports (g ∷ gs) m = listener_ports gs (add_ports g.listeners m)

  unfoldable pub group_names : List (Group K) → Map Bytes → Map Bytes
  unfolding add_members
  group_names [] m = m
  group_names (g ∷ gs) m = group_names gs (add_members g.name g.components m)

  unfoldable pub babysitter_config : Deployment K → ℕ → BabysitterConfig
  babysitter_config d interval = record {
    namespace = d.config.namespace;
    deployment_id = d.deployment_id;
    listeners = listener_ports d.groups [];
    groups = group_names d.groups [];
    telemetry = record {
      metrics = record {
        auto_generate_metrics = d.config.telemetry.metrics.generated;
        export_interval = interval;
      };
    };
  }

  unfoldable pub pods_getter_role : Bytes → Resource K
  pods_getter_role namespace = role (codes "serviceweaver-pods-getter") namespace (
      record {
        api_groups = [] ∷ [];
        resources = codes "pods" ∷ [];
        verbs = codes "get" ∷ codes "list" ∷ codes "watch" ∷ [];
      }
      ∷ [])

  unfoldable pub pods_getter_binding : Bytes → Bytes → Resource K
  pods_getter_binding namespace service_account =
      role_binding (codes "serviceweaver-default-pods-getter") namespace
        (codes "serviceweaver-pods-getter")
        (record { kind = codes "ServiceAccount"; name = service_account; namespace = namespace }
          ∷ [])

  unfoldable pub config_map_object :
      Extern → Deployment K → Bytes → Bytes → Bytes → Bytes → Resource K
  config_map_object c d name version weaver_toml config_textpb =
      config_map
        (record {
          name = name;
          namespace = d.config.namespace;
          labels = (app_label, d.app.name) ∷ (version_label, version) ∷ [];
          annotations =
              (
                codes "description",
                codes "This ConfigMap contains config files for app "
                    ++ (quote c d.app.name
                        ++ (codes " version " ++ (quote c version ++ codes "."))),
              )
              ∷ [];
        })
        ((codes "weaver.toml", weaver_toml) ∷ (codes "config.textpb", config_textpb) ∷ [])

  listener_lines : List (Group K) → List Bytes
  listener_lines [] = []
  listener_lines (g ∷ gs) = map (λ l. l.name) g.listeners ++ listener_lines gs

module _ {K : Api} (t : Tools K) where
  -- `marshalResource`. Writing to a buffer does not fail.
  unfoldable pub marshal_resource : Bytes → Resource K → Bytes → Outcome Bytes
  unfolding document
  marshal_resource w resource comment = do text ← t.yaml resource; ok (w ++ document comment text)

  unfoldable pub generate_roles_and_bindings : Bytes → Bytes → Bytes → Outcome Bytes
  unfolding marshal_resource pods_getter_role pods_getter_binding
  generate_roles_and_bindings w namespace service_account = do
    w' ← marshal_resource w (pods_getter_role namespace) (codes "Roles.")
    marshal_resource w' (pods_getter_binding namespace service_account) (codes "Role Bindings.")

  -- `fmt.Errorf("...: %v", err)` keeps the text of the error, as `%w` does.
  unfoldable pub generate_config_map : Extern → Bytes → Bytes → Deployment K → Outcome Bytes
  unfolding config_map_object marshal_resource
  generate_config_map c w config_filename d = do
    weaver_toml ← t.read_file config_filename
    interval ←
        wrap (wrapped (codes "unable to parse metrics export interval"))
          (t.parse_duration d.config.telemetry.metrics.export_interval)
    config_textpb ← t.textpb (babysitter_config d interval)
    name ← config_map_name d.deployment_id
    version ← first8 d.deployment_id
    marshal_resource w (config_map_object c d name version weaver_toml config_textpb)
        (codes "Configuration")

  -- The loop over the listeners of a group.
  unfoldable pub generate_services :
      Extern → Deployment K → Group K → List Listener → Bytes → Outcome Bytes
  unfolding marshal_resource
  generate_services c d g [] w = ok w
  generate_services c d g (l ∷ ls) w = do
    s ←
        wrap (wrapped_at (codes "unable to create kube listener service for") l.name)
          (build_listener_service c d g l)
    w' ← marshal_resource w (service s) (codes "Listener Service for group " ++ g.name)
    generate_services c d g ls w'

  unfoldable pub generate_group : Extern → Deployment K → Group K → Bytes → Outcome Bytes
  unfolding marshal_resource generate_services
  generate_group c d g w = do
    w₁ ← generate_services c d g g.listeners w
    dep ←
        wrap (wrapped_at (codes "unable to create kube deployment for group") g.name)
          (build_deployment c d g)
    w₂ ← marshal_resource w₁ (deployment dep) (codes "Deployment for group " ++ g.name)
    hpa ←
        wrap (wrapped_at (codes "unable to create kube autoscaler for group") g.name)
          (build_autoscaler c d g)
    marshal_resource w₂ (autoscaler hpa) (codes "Autoscaler for group " ++ g.name)

  generate_groups : Extern → Deployment K → List (Group K) → Bytes → Outcome Bytes
  generate_groups c d [] w = ok w
  generate_groups c d (g ∷ gs) w = do w' ← generate_group c d g w; generate_groups c d gs w'

  unfoldable pub generate_core_yamls : Extern → Bytes → Deployment K → Outcome Bytes
  unfolding generate_groups generate_group
  generate_core_yamls c w d = generate_groups c d d.groups w

  unfoldable pub header : Deployment K → Bytes → Outcome Bytes
  unfolding listener_lines tool_version
  header d filename = do
    (version_of_tool, _) ← tool_version t.build_info
    version ← first8 d.deployment_id
    t.execute_header (record {
      tool_version = version_of_tool;
      app = d.app.name;
      version = version;
      groups = map (λ g. g.components) d.groups;
      listeners = listener_lines d.groups;
      filename = filename;
    })

  -- The file that is appended to, with the text, and `externalPort` afterwards.
  unfoldable pub generate_yamls :
      Extern
      → Binaries
      → MapOrder
      → AppConfig
      → KubeConfig K
      → Bytes
      → Bytes
      → ℕ
      → Outcome ((Bytes × Bytes) × ℕ)
  unfolding header generate_roles_and_bindings generate_config_map generate_core_yamls
  generate_yamls c bin o app cfg deployment_id image port = do
    (d, port') ← new_deployment bin o app cfg deployment_id image port
    version ← first8 deployment_id
    let yaml_file : Bytes = t.temp_file (codes "kube_" ++ (version ++ codes ".yaml"))
    head ← header d yaml_file
    w₁ ←
        wrap (wrapped (codes "unable to generate roles and bindings"))
          (generate_roles_and_bindings head cfg.namespace cfg.service_account)
    w₂ ←
        wrap (wrapped (codes "unable to generate configuration ConfigMap"))
          (generate_config_map c w₁ cfg.app_config d)
    w₃ ← wrap (wrapped (codes "unable to create kube app deployment")) (generate_core_yamls c w₂ d)
    _ ← t.open_file yaml_file
    _ ←
        wrap (wrapped (codes "unable to write the kube deployment info"))
          (t.write_file yaml_file w₃)
    ok ((yaml_file, w₃), port')
