-- ===== src/Babysitter/Serve/Leaks.antt =====
-- Which generated metrics reach the plugin although their export is off
-- (internal/impl/babysitter.go).
use weaver_kube.Base.{false, List, [], ◌∷◌, ◌++◌, some, Bytes, Map, ok, ◌≡◌, ◌↔◌, All}
use weaver_kube.Babysitter.{BabysitterConfig}
use weaver_kube.Babysitter.Handlers.{Handler}
use weaver_kube.Babysitter.Handlers.Metrics.{IsOwn, filter_metrics-IsOwn}
use weaver_kube.Babysitter.Start.{BabysitterOptions}
use weaver_kube.Babysitter.Serve.{
  got, failed, Signal, tick, parent_ends, done, envelope_ends, looping, ServeState, serve_start,
  serve,
}
use weaver_kube.Babysitter.Serve.Exports.{reads, serve_exports}

module _ {S Snap Entry Span : Type 0} (labels : Snap → Map Bytes)
    (opts : BabysitterOptions S Entry Span Snap) (cfg : BabysitterConfig) where
  -- If the weavelet's metrics cannot be fetched, the babysitter has no generated metric of its own.
  abbrev pub IsClean : Signal Snap → Type 0
  IsClean (tick own (failed e)) = All (IsOwn labels) own
  IsClean _ = Unit

  reads-IsClean :
      (xs : List (Signal Snap))
      → cfg.telemetry.metrics.auto_generate_metrics ≡ false
      → All (All (IsOwn labels)) (reads labels opts cfg xs) ↔ All IsClean xs
  reads-IsClean [] off = (λ h. tt, λ h. tt)
  reads-IsClean (tick own (got ms) ∷ xs) off =
      let (there, back) = reads-IsClean xs off in
      (
        λ (h, hs). (tt, there hs),
        λ (_, hs). (rw off (filter_metrics-IsOwn labels (own ++ ms)), back hs),
      )
  reads-IsClean (tick own (failed e) ∷ xs) off =
      let (there, back) = reads-IsClean xs off in
      (λ (h, hs). (h, there hs), λ (h, hs). (h, back hs))
  reads-IsClean (parent_ends e ∷ xs) off =
      let (there, back) = reads-IsClean xs off in (λ hs. (tt, there hs), λ (_, hs). back hs)
  reads-IsClean (done ∷ xs) off =
      let (there, back) = reads-IsClean xs off in (λ hs. (tt, there hs), λ (_, hs). back hs)
  reads-IsClean (envelope_ends r ∷ xs) off =
      let (there, back) = reads-IsClean xs off in (λ hs. (tt, there hs), λ (_, hs). back hs)

  -- With a plugin for metrics and the export of generated metrics off, from the start of `Serve` on,
  -- as long as the loop runs: the plugin has been given no generated metric if and only if, at every
  -- tick at which the weavelet's metrics could not be fetched, the babysitter had no generated metric
  -- of its own.
  pub serve_leaks :
      (handle : Handler S (List Snap)) (world : S) (s : ServeState S Snap) (xs : List (Signal Snap))
      → opts.handle_metrics ≡ some handle
      → cfg.telemetry.metrics.auto_generate_metrics ≡ false
      → serve_start opts cfg world ≡ ok s
      → (serve labels opts cfg s xs).exporter ≡ looping
      → All (All (IsOwn labels)) (serve labels opts cfg s xs).exported ↔ All IsClean xs
  serve_leaks handle world s xs plugged off started runs =
      rw (serve_exports labels opts cfg handle plugged world s xs started runs)
        (reads-IsClean xs off)
