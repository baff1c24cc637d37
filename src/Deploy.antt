-- ===== src/Deploy.antt =====
-- `Deploy` of internal/impl/deploy.go up to the building of the image: it reads the two
-- configuration files, checks them against the application's binary and fills in defaults.
-- `checkVersionCompatibility` of the same file. Deploy.Whole goes on to the image and the file.
pub mod Ready
pub mod Versions
pub mod Whole
use weaver_kube.Base.{
  Bool, true, false, ◌||◌, List, [], ◌∷◌, ◌++◌, Option, none, some, if◌then◌else◌, Bytes, codes,
  bytes_eq, Map, lookup, insert, Error, wrapped, wrapped_at, plain, plain_at, plain_with, Outcome,
  ok, err, wrap, ◌>>=◌,
}
use weaver_kube.Config.{Api, KubeConfig, ListenerSpec, AppConfig}
use weaver_kube.Groups.{Binaries, ComponentListeners}
use weaver_kube.Manifests.{tool_version}

-- What `bin.ReadVersions` reads from a binary.
pub record BinaryVersions (V : Type 0) : Type 0 where
  pub module_version : Bytes
  pub deployer_version : V

-- What `Deploy` calls in other packages: files, the parsers of the two configurations, paths, and
-- the versions, whose type is `V`. `missing` says that `os.Stat` fails with `ErrNotExist`.
pub record Host (K : Api) (V : Type 0) : Type 0 where
  pub read_file : Bytes → Outcome Bytes
  pub unmarshal : Bytes → Outcome (KubeConfig K)
  pub parse_config : Bytes → Bytes → Outcome AppConfig
  pub missing : Bytes → Bool
  pub dir : Bytes → Bytes
  pub join_path : Bytes → Bytes → Bytes
  pub is_abs : Bytes → Bool
  pub abs_path : Bytes → Outcome Bytes
  pub working_directory : Option Bytes
  pub relative_path : Bytes → Bytes → Option Bytes
  pub executable : Outcome Bytes
  pub build_info : Option Bytes
  pub read_versions : Bytes → Outcome (BinaryVersions V)
  pub deployer_version : V
  pub same_version : V → V → Bool
  pub version_text : V → Bytes

-- The path of the application's configuration, relative to the directory of the deployment's.
unfoldable pub app_config_path : {K : Api} {V : Type 0} → Host K V → Bytes → Bytes → Outcome Bytes
app_config_path h config_filename path =
    if bytes_eq path []
    then err (plain (codes "app config file not specified"))
    else if h.is_abs path
    then ok path
    else h.abs_path (h.join_path (h.dir config_filename) path)

unfoldable pub choose_build_tool : Bytes → Outcome Bytes
choose_build_tool tool =
    if bytes_eq tool (codes "docker") || bytes_eq tool (codes "podman")
    then ok tool
    else if bytes_eq tool []
    then ok (codes "docker")
    else err (plain_at (codes "unsupported build tool") tool)

-- A text of the configuration, or the default if it is empty.
unfoldable pub or_default : Bytes → Bytes → Bytes
or_default text default = if bytes_eq text [] then default else text

unfoldable pub fill_defaults : {K : Api} → KubeConfig K → KubeConfig K
fill_defaults cfg = record cfg {
  namespace = or_default cfg.namespace (codes "default");
  service_account = or_default cfg.service_account (codes "default");
  base_image = or_default cfg.base_image (codes "ubuntu:rolling");
  telemetry = record {
    metrics = record {
      generated = cfg.telemetry.metrics.generated;
      export_interval = or_default cfg.telemetry.metrics.export_interval (codes "30s");
    };
  };
}

-- `allListeners`
add_all : List Bytes → Map (Unit {0}) → Map (Unit {0})
add_all [] m = m
add_all (l ∷ ls) m = add_all ls (insert l tt m)

unfoldable pub all_listeners : List ComponentListeners → Map (Unit {0}) → Map (Unit {0})
unfolding add_all
all_listeners [] m = m
all_listeners (c ∷ cs) m = all_listeners cs (add_all c.listeners m)

abbrev known_or_error : Bytes → Option (Unit {0}) → Outcome (Unit {0})
known_or_error name (some _) = ok tt
known_or_error name none =
    err (plain_at (codes "listener specified in the config not found in the binary") name)

unfoldable pub check_listeners : Map (Unit {0}) → List ListenerSpec → Outcome (Unit {0})
check_listeners known [] = ok tt
check_listeners known (l ∷ ls) = do
  _ ← known_or_error l.name (lookup l.name known)
  check_listeners known ls

module _ {K : Api} {V : Type 0} (h : Host K V) where
  relative_to : Bytes → Option Bytes → Bytes
  relative_to binary none = binary
  relative_to binary (some path) = path

  relativize_in : Bytes → Option Bytes → Bytes
  relativize_in binary none = binary
  relativize_in binary (some cwd) = relative_to binary (h.relative_path cwd binary)

  unfoldable pub relativize : Bytes → Bytes
  unfolding relativize_in relative_to
  relativize binary = relativize_in binary h.working_directory

  unfoldable pub check_version_compatibility : Bytes → Outcome (Unit {0})
  check_version_compatibility app_binary = do
    app_versions ← wrap (wrapped (codes "read versions")) (h.read_versions app_binary)
    tool ← h.executable
    kube_versions ← wrap (wrapped (codes "read versions")) (h.read_versions tool)
    (self_version, _) ←
        wrap (wrapped (codes "read weaver-kube version")) (tool_version h.build_info)
    if h.same_version app_versions.deployer_version h.deployer_version
        then ok tt
        else err (
            plain_with (codes "incompatible versions") (
              relativize app_binary
              ∷ app_versions.module_version
              ∷ h.version_text app_versions.deployer_version
              ∷ self_version
              ∷ kube_versions.module_version
              ∷ h.version_text h.deployer_version
              ∷ []))

  check_exists : AppConfig → Outcome (Unit {0})
  check_exists app =
      if h.missing app.binary
      then err (plain_at (codes "binary doesn't exist") app.binary)
      else ok tt

  -- The deployment's configuration, the path of the application's and the application.
  load : Bytes → Outcome (KubeConfig K × Bytes × AppConfig)
  load config_filename = do
    contents ←
        wrap (wrapped_at (codes "read deployment config file") config_filename)
          (h.read_file config_filename)
    given ←
        wrap (wrapped_at (codes "parse deployment config file") config_filename)
          (h.unmarshal contents)
    path ← app_config_path h config_filename given.app_config
    app_contents ← wrap (wrapped_at (codes "read app config file") path) (h.read_file path)
    app ← wrap (wrapped_at (codes "parse app config file") path) (h.parse_config path app_contents)
    ok (given, path, app)

  -- The checks, and the configuration with its defaults.
  check : Binaries → KubeConfig K × Bytes × AppConfig → Outcome (AppConfig × KubeConfig K)
  unfolding check_exists
  check bin (given, path, app) = do
    _ ← check_exists app
    _ ← check_version_compatibility app.binary
    tool ← choose_build_tool given.build_tool
    listeners ←
        wrap (wrapped_at (codes "cannot read listeners from binary") app.binary)
          (bin.read_listeners app.binary)
    _ ← check_listeners (all_listeners listeners []) given.listeners
    ok (app, fill_defaults (record given { app_config = path; build_tool = tool }))

  -- The application and the configuration with which `Deploy` goes on to build the image.
  unfoldable pub prepare : Binaries → Bytes → Outcome (AppConfig × KubeConfig K)
  unfolding load check
  prepare bin config_filename = do loaded ← load config_filename; check bin loaded
