-- ===== src/Telemetry/Page.antt =====
-- What the page of metrics of examples/telemetry/main.go shows in a babysitter that serves
-- (internal/impl/babysitter.go).
use weaver_kube.Base.{
  false, List, [], ◌∷◌, ◌++◌, some, Bytes, codes, bytes_eq, lookup, decimal, Map, All, ok,
  >>=-eq-ok, ◌≡◌, refl, ◌∙◌, ap, sym, arith,
}
use weaver_kube.Babysitter.{BabysitterConfig}
use weaver_kube.Babysitter.Start.{BabysitterOptions}
use weaver_kube.Babysitter.Serve.{Signal, ServeState, serve_start, serve}
use weaver_kube.Babysitter.Serve.Exports.{reads, serve_exports, serve_start_looping}
use weaver_kube.Babysitter.Serve.Worlds.{after_calls, is_done, serve_world, serve_looping}
use weaver_kube.Tool.{Plugins, babysitter_entry, run}
use weaver_kube.Telemetry.{
  PrometheusExporter, Network, handle_metrics, serve_page, main, or_panic, jaeger_port,
  prometheus_port,
}

-- The last of the lists, or the first one given.
abbrev pub latest {ℓ} : {A : Type ℓ} → A → List A → A
latest a [] = a
latest a (x ∷ xs) = latest x xs

module _ {Snap : Type 0} where
  after_calls-handle_metrics :
      (p : PrometheusExporter Snap) (calls : List (List Snap))
      → (after_calls handle_metrics p calls).metrics ≡ latest p.metrics calls
  unfolding handle_metrics
  after_calls-handle_metrics p [] = refl
  after_calls-handle_metrics p (l ∷ calls) =
      after_calls-handle_metrics (record { metrics = l }) calls

module _ {Entry Span Snap : Type 0} where
  -- The plugins that `main` passes on, when it does.
  main-handle_metrics :
      (w : Network Span) (plugins : Plugins (PrometheusExporter Snap) Entry Span Snap)
      (p : PrometheusExporter Snap)
      → main w ≡ ok (plugins, p)
      → (plugins.handle_metrics ≡ some handle_metrics) × (p.metrics ≡ [])
  unfolding main
  main-handle_metrics w plugins p e =
      let (_, _, e₁) =
        >>=-eq-ok
          (or_panic w.panic_text
            (w.new_jaeger (codes "http://jaeger:" ++ (decimal jaeger_port ++ codes "/api/traces"))))
          _ e in
      let (_, _, e₂) =
        >>=-eq-ok (or_panic w.panic_text (w.listen (58 ∷ decimal prometheus_port))) _ e₁ in
      (ground (arith, e₂), ground (arith, e₂))

  run-handle_metrics :
      (plugins : Plugins (PrometheusExporter Snap) Entry Span Snap)
      (opts : BabysitterOptions (PrometheusExporter Snap) Entry Span Snap)
      → lookup (codes "babysitter") (run plugins) ≡ some (babysitter_entry opts)
      → plugins.handle_metrics ≡ opts.handle_metrics
  unfolding run lookup bytes_eq
  run-handle_metrics plugins opts e = cc

  -- In a babysitter that serves with the plugins of the example's `main` in the `babysitter`
  -- command, whatever happens as long as the loop of the exporter does not take notice of the end
  -- of its context, the page shows what was read at the latest tick: all metrics through the
  -- filter, or the babysitter's own where the weavelet's could not be fetched. Before the first
  -- tick it shows no metrics.
  pub page_shows_latest :
      (labels : Snap → Map Bytes) (cfg : BabysitterConfig) (w : Network Span)
      (plugins : Plugins (PrometheusExporter Snap) Entry Span Snap)
      (opts : BabysitterOptions (PrometheusExporter Snap) Entry Span Snap)
      (p : PrometheusExporter Snap) (s : ServeState (PrometheusExporter Snap) Snap)
      (xs : List (Signal Snap)) (translate : List Snap → Bytes → Bytes → Bytes) (host : Bytes)
      → main w ≡ ok (plugins, p)
      → lookup (codes "babysitter") (run plugins) ≡ some (babysitter_entry opts)
      → serve_start opts cfg p ≡ ok s
      → All (λ x. is_done x ≡ false) xs
      → serve_page translate host (serve labels opts cfg s xs).world
        ≡ translate (latest [] (reads labels opts cfg xs)) host (codes "/metrics")
  unfolding serve_page handle_metrics
  page_shows_latest labels cfg w plugins opts p s xs translate host made entry started runs =
      let (given, empty) = main-handle_metrics w plugins p made in
      let plugged = sym (run-handle_metrics plugins opts entry) ∙ given in
      let on =
        serve_looping labels opts cfg handle_metrics plugged (λ l world. refl) xs s runs
          (serve_start_looping labels opts cfg handle_metrics plugged p s started) in
      let world =
        ap (λ q. q.metrics) (serve_world labels opts cfg handle_metrics plugged p s xs started) in
      let exported = serve_exports labels opts cfg handle_metrics plugged p s xs started on in
      ap (λ l. translate l host (codes "/metrics"))
        (world
          ∙ after_calls-handle_metrics p (serve labels opts cfg s xs).exported
          ∙ rw (exported, empty) refl)
