-- ===== src/Tool.antt =====
-- The commands of internal/tool: `version`, `deploy` and the hidden `babysitter`.
pub mod Mounts
pub mod Pods
use weaver_kube.Base.{
  ℕ, Bool, true, false, List, [], ◌∷◌, ◌++◌, Option, none, some, if◌then◌else◌, Bytes, codes,
  decimal, length, Map, MapOrder, wrapped_at, plain, plain_at, Outcome, ok, err, wrap, ◌>>=◌,
}
use weaver_kube.Config.{Api, AppConfig}
use weaver_kube.Names.{Extern}
use weaver_kube.Groups.{Binaries}
use weaver_kube.Manifests.{Tools, tool_version}
use weaver_kube.Images.{Machine}
use weaver_kube.Deploy.{Host}
use weaver_kube.Deploy.Whole.{Result, deploy}
use weaver_kube.Babysitter.{BabysitterConfig}
use weaver_kube.Babysitter.Handlers.{Handler}
use weaver_kube.Babysitter.Start.{BabysitterOptions, Surroundings, Babysitter, new_babysitter}
use weaver_kube.Babysitter.Serve.{ServeState, serve_start}

-- What the `babysitter` command calls in other packages: files, the parsers of the two
-- configurations, `filepath.Base`, and whether `os.Stat` fails with `ErrNotExist`.
pub record PodHost : Type 0 where
  pub read_file : Bytes → Outcome Bytes
  pub parse_config : Bytes → Bytes → Outcome AppConfig
  pub unmarshal_textpb : Bytes → Outcome BabysitterConfig
  pub base_name : Bytes → Bytes
  pub missing : Bytes → Bool

module _ (h : PodHost) where
  -- The application, whose binary is the one in the container.
  in_container : AppConfig → AppConfig
  in_container app = record app { binary = codes "/weaver/" ++ h.base_name app.binary }

  if_present : AppConfig → Outcome AppConfig
  if_present app =
      if h.missing app.binary
      then err (plain_at (codes "binary doesn't exist") app.binary)
      else ok app

  unfoldable pub parse_weaver_config : Bytes → Outcome AppConfig
  unfolding in_container if_present
  parse_weaver_config filename = do
    contents ← wrap (wrapped_at (codes "read config file") filename) (h.read_file filename)
    app ← wrap (wrapped_at (codes "parse config file") filename) (h.parse_config filename contents)
    if_present (in_container app)

  unfoldable pub parse_babysitter_config : Bytes → Outcome BabysitterConfig
  parse_babysitter_config filename = do
    contents ← wrap (wrapped_at (codes "read config file") filename) (h.read_file filename)
    h.unmarshal_textpb contents

-- `len(args) < n`
abbrev too_few {ℓ} : {A : Type ℓ} → List Bytes → Outcome A
too_few args = err (plain_at (codes "want >= 3 arguments, got") (decimal (length args)))

module _ {S Entry Span Snap : Type 0} (h : PodHost) (w : Surroundings)
    (opts : BabysitterOptions S Entry Span Snap) (world : S) where
  -- The babysitter of the command, and the state in which it begins to serve.
  unfoldable pub babysitter_command :
      List Bytes → Outcome (Babysitter S Entry Span Snap × ServeState S Snap)
  unfolding parse_weaver_config parse_babysitter_config
  babysitter_command [] = too_few []
  babysitter_command (a ∷ []) = too_few (a ∷ [])
  babysitter_command (a ∷ b ∷ []) = too_few (a ∷ b ∷ [])
  babysitter_command (a ∷ b ∷ c ∷ cs) = do
    app ← parse_weaver_config h a
    config ← parse_babysitter_config h b
    babysitter ← new_babysitter w app config (c ∷ cs) opts
    serving ← serve_start babysitter.opts babysitter.cfg world
    ok (babysitter, serving)

-- The line that the `version` command prints for the tool's version and its platform.
unfoldable pub version_command : Option Bytes → Bytes → Bytes → Outcome Bytes
version_command build_info os arch = do
  (version, _) ← tool_version build_info
  ok (codes "weaver kube " ++ (version ++ (codes " " ++ (os ++ (codes "/" ++ (arch ++ 10 ∷ []))))))

module _ {K : Api} {V : Type 0} (h : Host K V) (m : Machine) (t : Tools K) (c : Extern)
    (bin : Binaries) (o : MapOrder) where
  -- The `deploy` command, with the text of the new deployment id and the counter of ports.
  unfoldable pub deploy_command : Bytes → ℕ → List Bytes → Result h m t c bin o
  deploy_command id port (config_filename ∷ []) = deploy h m t c bin o config_filename id port
  deploy_command id port _ = ([], err (plain (codes "usage: weaver kube deploy <config file>")))

-- `Plugins` of tool/tool.go.
pub record Plugins (S Entry Span Snap : Type 0) : Type 0 where
  pub handle_log_entry : Option (Handler S Entry)
  pub handle_trace_spans : Option (Handler S (List Span))
  pub handle_metrics : Option (Handler S (List Snap))

-- `Commands`: the entries of the map, by the name of the command.
pub data Command (S Entry Span Snap : Type 0) : Type 0 where
  version_entry deploy_entry : Command S Entry Span Snap
  babysitter_entry : BabysitterOptions S Entry Span Snap → Command S Entry Span Snap

module _ {S Entry Span Snap : Type 0} where
  unfoldable pub commands : BabysitterOptions S Entry Span Snap → Map (Command S Entry Span Snap)
  commands opts =
      (codes "version", version_entry)
      ∷ (codes "deploy", deploy_entry)
      ∷ (codes "babysitter", babysitter_entry opts)
      ∷ []

  -- `impl.BabysitterOptions(plugins)`
  options_of : Plugins S Entry Span Snap → BabysitterOptions S Entry Span Snap
  options_of plugins = record {
    handle_log_entry = plugins.handle_log_entry;
    handle_trace_spans = plugins.handle_trace_spans;
    handle_metrics = plugins.handle_metrics;
  }

  -- The commands with which `Run` of tool/tool.go calls `swtool.Run`.
  unfoldable pub run : Plugins S Entry Span Snap → Map (Command S Entry Span Snap)
  unfolding commands options_of
  run plugins = commands (options_of plugins)
