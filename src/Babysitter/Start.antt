-- ===== src/Babysitter/Start.antt =====
-- `NewBabysitter` of internal/impl/babysitter.go.
use weaver_kube.Base.{
  Bool, false, ◌||◌, is_none, List, [], ◌∷◌, Option, Bytes, codes, bytes_eq, wrapped, Outcome, ok,
  wrap, ◌>>=◌,
}
use weaver_kube.Config.{AppConfig}
use weaver_kube.Babysitter.{BabysitterConfig}
use weaver_kube.Babysitter.Claim.{Watching}
use weaver_kube.Babysitter.Handlers.{Handler}

-- `BabysitterOptions`: the plugins, which act on a state `S`.
pub record BabysitterOptions (S Entry Span Snap : Type 0) : Type 0 where
  pub handle_log_entry : Option (Handler S Entry)
  pub handle_trace_spans : Option (Handler S (List Span))
  pub handle_metrics : Option (Handler S (List Snap))

-- `protos.WeaveletArgs`
pub record WeaveletArgs : Type 0 where
  pub app : Bytes
  pub deployment_id : Bytes
  pub id : Bytes
  pub run_main : Bool
  pub internal_address : Bytes

-- What `NewBabysitter` calls in other packages: the text of a new UUID, `runtime.Main`, the
-- creation of the envelope and of a client for the cluster's API, and `UpdateComponents`.
pub record Surroundings : Type 0 where
  pub new_id : Bytes
  pub main_component : Bytes
  pub new_envelope : WeaveletArgs → AppConfig → Outcome (Unit {0})
  pub in_cluster_config : Outcome Bytes
  pub new_clientset : Bytes → Outcome (Unit {0})
  pub update_components : List Bytes → Outcome (Unit {0})

-- `babysitter`, with the arguments of its weavelet and the components that the weavelet was told
-- to host.
pub record Babysitter (S Entry Span Snap : Type 0) : Type 0 where
  pub cfg : BabysitterConfig
  pub opts : BabysitterOptions S Entry Span Snap
  pub app : AppConfig
  pub weavelet : WeaveletArgs
  pub hosted : List Bytes
  pub has_printer : Bool
  pub watching : Watching

-- `slices.Contains`
abbrev pub contains : List Bytes → Bytes → Bool
contains [] name = false
contains (x ∷ xs) name = bytes_eq x name || contains xs name

unfoldable pub weavelet_args :
    Surroundings → AppConfig → BabysitterConfig → List Bytes → WeaveletArgs
weavelet_args w app cfg components = record {
  app = app.name;
  deployment_id = cfg.deployment_id;
  id = w.new_id;
  run_main = contains components w.main_component;
  internal_address = codes ":10000";
}

module _ {S Entry Span Snap : Type 0} (w : Surroundings) where
  unfoldable pub new_babysitter :
      AppConfig
      → BabysitterConfig
      → List Bytes
      → BabysitterOptions S Entry Span Snap
      → Outcome (Babysitter S Entry Span Snap)
  unfolding weavelet_args
  new_babysitter app cfg components opts = do
    let weavelet : WeaveletArgs = weavelet_args w app cfg components
    _ ← wrap (wrapped (codes "NewBabysitter: create envelope")) (w.new_envelope weavelet app)
    cluster ← wrap (wrapped (codes "NewBabysitter: get kube config")) w.in_cluster_config
    _ ← wrap (wrapped (codes "NewBabysitter: get kube client set")) (w.new_clientset cluster)
    _ ← wrap (wrapped (codes "NewBabysitter: update components")) (w.update_components components)
    ok (record {
      cfg = cfg;
      opts = opts;
      app = app;
      weavelet = weavelet;
      hosted = components;
      has_printer = is_none opts.handle_log_entry;
      watching = [];
    })
