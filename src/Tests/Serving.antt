-- ===== src/Tests/Serving.antt =====
-- A babysitter that serves: its exporter of metrics and its envelope.
use mathlib.Core.Logic.{inl}
use weaver_kube.Base.{
  false, All, ◌↔◌, join, bytes_eq, lookup, ℕ, ◌+◌, true, List, [], ◌∷◌, ◌++◌, none, some, Bytes,
  codes, Map, external, ok, panic, refl, ◌≡◌, arith,
}
use weaver_kube.Babysitter.{BabysitterConfig}
use weaver_kube.Babysitter.Handlers.{Handler, read_metrics, filter_metrics}
use weaver_kube.Babysitter.Start.{BabysitterOptions}
use weaver_kube.Babysitter.Serve.{
  Signal, got, failed, tick, parent_ends, done, envelope_ends, ServeState, looping, wait_result,
  serve_start, is_positive, step, serve, return_from, canceled,
}
use weaver_kube.Babysitter.Serve.Leaks.{IsClean, serve_leaks}
use weaver_kube.Babysitter.Handlers.Metrics.{IsOwn}
use weaver_kube.Babysitter.Serve.Ends.{serve_returns}
use weaver_kube.Babysitter.Serve.Exports.{serve_exports, reads}
use weaver_kube.Manifests.{Tools, babysitter_config, generate_config_map}
use weaver_kube.Manifests.Documents.Total.{Works}
use weaver_kube.Manifests.Intervals.{interval_unchecked}
use weaver_kube.Tool.{Plugins, babysitter_entry, run}
use weaver_kube.Telemetry.{PrometheusExporter, Network, handle_metrics, serve_page, main}
use weaver_kube.Telemetry.Page.{latest, page_shows_latest}
use weaver_kube.Tests.{
  plain_api, fixed_extern, fixed_extern-IsExtern, front, shop, deployment_id, deployed, config,
}
use weaver_kube.Tests.Deploying.{tools, tools-Works}

-- A plugin that counts its calls.
abbrev pub counting : Handler ℕ (List Bytes)
counting snaps calls = (none, calls + 1)

abbrev pub counts : BabysitterOptions ℕ Bytes Bytes Bytes
counts = record {
  handle_log_entry = none;
  handle_trace_spans = none;
  handle_metrics = some counting;
}

abbrev babysitter : BabysitterConfig
babysitter = record {
  namespace = codes "default";
  deployment_id = deployment_id;
  listeners = [];
  groups = (front, shop) ∷ [];
  telemetry = record { metrics = record { auto_generate_metrics = true; export_interval = 30 } };
}

abbrev labels : Bytes → Map Bytes
labels snap = []

abbrev serving : ServeState ℕ Bytes
serving = record {
  world = 0;
  exporter = looping;
  envelope_running = true;
  cancelled = none;
  first_error = none;
  exported = [];
}

started : serve_start counts babysitter 0 ≡ ok serving
unfolding serve_start is_positive
started = refl

abbrev signals : List (Signal Bytes)
signals =
    tick (codes "a" ∷ []) (got (codes "b" ∷ []))
    ∷ tick (codes "c" ∷ []) (failed (external (codes "gone")))
    ∷ []

looping_still : (serve labels counts babysitter serving signals).exporter ≡ looping
unfolding serve step read_metrics filter_metrics return_from
looping_still = refl

serve_exports_example :
    (serve labels counts babysitter serving signals).exported
    ≡ reads labels counts babysitter signals
serve_exports_example =
    serve_exports labels counts babysitter counting refl 0 serving signals started looping_still

abbrev ending : List (Signal Bytes)
ending = tick (codes "a" ∷ []) (got []) ∷ parent_ends canceled ∷ []

ended_context : (serve labels counts babysitter serving ending).cancelled ≡ some canceled
unfolding serve step read_metrics filter_metrics return_from
ended_context = refl

serve_returns_example :
    wait_result
      (serve labels counts babysitter serving (ending ++ (done ∷ envelope_ends none ∷ [])))
    ≡ some (some canceled)
unfolding serve step read_metrics filter_metrics return_from
serve_returns_example =
    serve_returns labels counts babysitter 0 serving ending none started
      (inl (ground (arith, ended_context)))

-- The weavelet's metrics cannot be fetched, and the babysitter has a generated one of its own.
abbrev failing : List (Signal Bytes)
failing = tick (codes "a" ∷ []) (failed (external (codes "broken"))) ∷ []

-- The babysitter of a deployment that does not export generated metrics, all of which are.
abbrev quiet : BabysitterConfig
quiet = record babysitter {
  telemetry = record { metrics = record { auto_generate_metrics = false; export_interval = 30 } };
}

abbrev generated : Bytes → Map Bytes
generated snap = (codes "serviceweaver_generated", codes "true") ∷ []

failing_still : (serve generated counts quiet serving failing).exporter ≡ looping
unfolding serve step read_metrics filter_metrics return_from
failing_still = refl

quiet_started : serve_start counts quiet 0 ≡ ok serving
unfolding serve_start is_positive
quiet_started = refl

serve_leaks_example :
    All (All (IsOwn generated)) (serve generated counts quiet serving failing).exported
    ↔ All (IsClean generated counts quiet) failing
serve_leaks_example =
    serve_leaks generated counts quiet counting 0 serving failing refl refl quiet_started
      failing_still

-- The other packages, with a parser to which every interval is "0s".
abbrev zero_tools : Tools plain_api
zero_tools = record tools { parse_duration = λ text. ok 0 }

zero_tools-Works : Works zero_tools config.app_config config.telemetry.metrics.export_interval
zero_tools-Works = record {
  yaml = tools-Works.yaml;
  textpb = tools-Works.textpb;
  duration = (_, refl);
  config_file = tools-Works.config_file;
  version = tools-Works.version;
  executes = tools-Works.executes;
  opens = tools-Works.opens;
  writes = tools-Works.writes;
}

interval_unchecked_example :
    ((w : Bytes) × (generate_config_map zero_tools fixed_extern [] config.app_config deployed.0
        ≡ ok w))
    × (serve_start counts (babysitter_config deployed.0 0) 0
        ≡ panic (codes "non-positive interval for NewTicker"))
unfolding is_positive
interval_unchecked_example =
    interval_unchecked zero_tools fixed_extern deployed.0 config.app_config [] 0 counts counting 0
      fixed_extern-IsExtern (omega arith) zero_tools-Works refl refl refl

abbrev network : Network Bytes
network = record {
  new_jaeger = λ url. ok (λ spans. none);
  listen = λ address. ok tt;
  panic_text = λ e. codes "panic";
}

abbrev plugins : Plugins (PrometheusExporter Bytes) Bytes Bytes Bytes
plugins = record {
  handle_log_entry = none;
  handle_trace_spans = some (λ spans p. (none, p));
  handle_metrics = some handle_metrics;
}

abbrev plugged : BabysitterOptions (PrometheusExporter Bytes) Bytes Bytes Bytes
plugged = record {
  handle_log_entry = none;
  handle_trace_spans = some (λ spans p. (none, p));
  handle_metrics = some handle_metrics;
}

entry : lookup (codes "babysitter") (run plugins) ≡ some (babysitter_entry plugged)
unfolding run lookup bytes_eq
entry = refl

abbrev text_page : List Bytes → Bytes → Bytes → Bytes
text_page metrics host path = join metrics (10 ∷ [])

made : main network ≡ ok (plugins, record { metrics = [] })
unfolding main
made = refl

abbrev first_state : ServeState (PrometheusExporter Bytes) Bytes
first_state = record {
  world = record { metrics = [] };
  exporter = looping;
  envelope_running = true;
  cancelled = none;
  first_error = none;
  exported = [];
}

plugins_started : serve_start plugged babysitter (record { metrics = [] }) ≡ ok first_state
unfolding serve_start is_positive
plugins_started = refl

page_shows_latest_example :
    serve_page text_page
      (codes "localhost")
      (serve labels plugged babysitter first_state signals).world
    ≡ text_page
        (latest [] (reads labels plugged babysitter signals))
        (codes "localhost")
        (codes "/metrics")
page_shows_latest_example =
    page_shows_latest labels babysitter network plugins plugged (record { metrics = [] })
      first_state signals text_page (codes "localhost") made entry plugins_started
      (refl, (refl, tt))
