-- ===== src/Manifests/Intervals.antt =====
-- The export interval of metrics, from the configuration to the babysitter (`generateConfigMap` of
-- internal/impl/kube.go, `Serve` of internal/impl/babysitter.go).
use weaver_kube.Base.{ℕ, ◌≤◌, false, List, [], some, Bytes, codes, length, ok, panic, ◌≡◌}
use weaver_kube.Names.{Extern, IsExtern}
use weaver_kube.Config.{Api, Deployment}
use weaver_kube.Babysitter.Handlers.{Handler}
use weaver_kube.Babysitter.Start.{BabysitterOptions}
use weaver_kube.Babysitter.Serve.{is_positive, serve_start}
use weaver_kube.Babysitter.Serve.Exports.{serve_start_panic}
use weaver_kube.Manifests.{Tools, babysitter_config, generate_config_map}
use weaver_kube.Manifests.Documents.Total.{Works, generate_config_map-Returns}

module _ {K : Api} (t : Tools K) {S Snap Entry Span : Type 0} where
  -- If the export interval of the configuration parses to a duration that is not positive, such as
  -- "0s", the ConfigMap is generated all the same when the calls of other packages return values
  -- and the deployment id has eight bytes, and every babysitter of the deployment that has a
  -- plugin for metrics panics when it starts to serve.
  pub interval_unchecked :
      (c : Extern) (d : Deployment K) (config_filename w : Bytes) (interval : ℕ)
      (opts : BabysitterOptions S Entry Span Snap) (handle : Handler S (List Snap)) (world : S)
      → IsExtern c
      → 8 ≤ length d.deployment_id
      → Works t config_filename d.config.telemetry.metrics.export_interval
      → t.parse_duration d.config.telemetry.metrics.export_interval ≡ ok interval
      → is_positive interval ≡ false
      → opts.handle_metrics ≡ some handle
      → ((w' : Bytes) × (generate_config_map t c w config_filename d ≡ ok w'))
        × (serve_start opts (babysitter_config d interval) world
            ≡ panic (codes "non-positive interval for NewTicker"))
  unfolding babysitter_config
  interval_unchecked c d config_filename w interval opts handle world lawful long works parsed bad
        plugged =
      (
        generate_config_map-Returns t c lawful d long config_filename works w,
        serve_start_panic (λ s. []) opts (babysitter_config d interval) handle plugged world bad,
      )
