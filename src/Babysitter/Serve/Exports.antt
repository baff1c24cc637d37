-- ===== src/Babysitter/Serve/Exports.antt =====
-- What `Serve` of internal/impl/babysitter.go passes to the plugin for metrics.
use weaver_kube.Base.{
  ℕ, Bool, false, List, [], ◌∷◌, ◌++◌, append_assoc, append-nil, Option, none, some, Bytes, Map,
  Error, ok, panic, ◌≡◌, refl, ◌∙◌, ap, sym, arith, codes,
}
use weaver_kube.Babysitter.{BabysitterConfig}
use weaver_kube.Babysitter.Handlers.{Handler, read_metrics, filter_metrics}
use weaver_kube.Babysitter.Start.{BabysitterOptions}
use weaver_kube.Babysitter.Serve.{
  got, failed, Signal, tick, parent_ends, done, envelope_ends, Exporter, absent, looping, ended,
  panicked, ServeState, return_from, call_plugin, is_positive, start_exporter, initial, serve_start,
  after_export, export, take_done, in_loop, end_envelope, exporting, step, serve,
}

module _ {S Snap Entry Span : Type 0} (labels : Snap → Map Bytes)
    (opts : BabysitterOptions S Entry Span Snap) (cfg : BabysitterConfig) where
  abbrev auto : Bool
  auto = cfg.telemetry.metrics.auto_generate_metrics

  -- The metrics at each tick, in order: all of them through the filter, or the babysitter's own
  -- where the weavelet's could not be fetched.
  abbrev pub read_at : Signal Snap → List (List Snap)
  read_at (tick own (got ms)) = filter_metrics labels (own ++ ms) auto ∷ []
  read_at (tick own (failed e)) = own ∷ []
  read_at _ = []

  abbrev pub reads : List (Signal Snap) → List (List Snap)
  reads [] = []
  reads (x ∷ xs) = read_at x ++ reads xs

  call_plugin_adds :
      (handle : Handler S (List Snap)) (snaps : List Snap) (s : ServeState S Snap)
      → (call_plugin (some handle) snaps s).exported ≡ s.exported ++ snaps ∷ []
  unfolding call_plugin after_export return_from
  call_plugin_adds handle snaps s = ground arith

  take_done_adds :
      (c : Option Error) (s : ServeState S Snap)
      → (take_done c s).exporter ≡ looping
      → (take_done c s).exported ≡ s.exported ++ []
  unfolding take_done return_from
  take_done_adds none s h = sym (append-nil s.exported)
  take_done_adds (some e) s h = cc

  end_envelope_adds :
      (r : Option Error) (s : ServeState S Snap) (b : Bool)
      → ((end_envelope r s b).exporter ≡ s.exporter) × ((end_envelope r s b).exported ≡ s.exported)
  unfolding end_envelope return_from
  end_envelope_adds r s b = (ground arith, ground arith)

  module _ (handle : Handler S (List Snap)) (plugged : opts.handle_metrics ≡ some handle) where
    -- If the loop runs after a signal, it ran before, and its reading was exported.
    in_loop_adds :
        (x : Signal Snap) (s : ServeState S Snap)
        → (in_loop labels opts cfg x s).exporter ≡ looping
        → (in_loop labels opts cfg x s).exported ≡ s.exported ++ read_at x
    unfolding in_loop export read_metrics
    in_loop_adds (tick own (got ms)) s h = rw plugged (call_plugin_adds handle _ s)
    in_loop_adds (tick own (failed e)) s h = rw plugged (call_plugin_adds handle own s)
    in_loop_adds done s h = take_done_adds s.cancelled s h
    in_loop_adds (parent_ends e) s h = sym (append-nil s.exported)
    in_loop_adds (envelope_ends r) s h = sym (append-nil s.exported)

    exporting_adds :
        (x : Signal Snap) (s : ServeState S Snap) (l : Exporter)
        → s.exporter ≡ l
        → (exporting labels opts cfg x s l).exporter ≡ looping
        → (s.exporter ≡ looping)
          × ((exporting labels opts cfg x s l).exported ≡ s.exported ++ read_at x)
    unfolding exporting
    exporting_adds x s looping e h = (e, in_loop_adds x s h)
    exporting_adds x s absent e h = cc
    exporting_adds x s ended e h = cc
    exporting_adds x s panicked e h = cc

    step_adds :
        (s : ServeState S Snap) (x : Signal Snap)
        → (step labels opts cfg s x).exporter ≡ looping
        → (s.exporter ≡ looping) × ((step labels opts cfg s x).exported ≡ s.exported ++ read_at x)
    unfolding step
    step_adds s (tick own m) h = exporting_adds (tick own m) s s.exporter refl h
    step_adds s done h = exporting_adds done s s.exporter refl h
    step_adds s (parent_ends e) h = (h, sym (append-nil s.exported))
    step_adds s (envelope_ends r) h =
        let (same, kept) = end_envelope_adds r s s.envelope_running in
        (sym same ∙ h, kept ∙ sym (append-nil s.exported))

    serve_adds :
        (xs : List (Signal Snap)) (s : ServeState S Snap)
        → (serve labels opts cfg s xs).exporter ≡ looping
        → (s.exporter ≡ looping) × ((serve labels opts cfg s xs).exported ≡ s.exported ++ reads xs)
    unfolding serve
    serve_adds [] s h = (h, sym (append-nil s.exported))
    serve_adds (x ∷ xs) s h =
        let (now, rest) = serve_adds xs (step labels opts cfg s x) h in
        let (before, adds) = step_adds s x now in (before, rest ∙ rw (adds, append_assoc) refl)

    start_exporter-empty :
        (plugin : Option (Handler S (List Snap))) (interval : ℕ) (world : S) (s : ServeState S Snap)
        → start_exporter plugin interval world ≡ ok s
        → s.exported ≡ []
    unfolding start_exporter initial
    start_exporter-empty plugin interval world s e = ground arith

    -- With a plugin for metrics, from the start of `Serve` on, as long as the loop runs, the plugin
    -- has been called exactly once for each tick, in order, with what was read then: all metrics
    -- through the filter, or the babysitter's own where the weavelet's could not be fetched.
    pub serve_exports :
        (world : S) (s : ServeState S Snap) (xs : List (Signal Snap))
        → serve_start opts cfg world ≡ ok s
        → (serve labels opts cfg s xs).exporter ≡ looping
        → (serve labels opts cfg s xs).exported ≡ reads xs
    unfolding serve_start
    serve_exports world s xs started runs =
        (serve_adds xs s runs).1
        ∙ ap (λ l. l ++ reads xs)
            (start_exporter-empty opts.handle_metrics cfg.telemetry.metrics.export_interval world s
              started)

    -- With a plugin, a start is the start of the loop.
    pub serve_start_looping :
        (world : S) (s : ServeState S Snap)
        → serve_start opts cfg world ≡ ok s
        → s.exporter ≡ looping
    unfolding serve_start start_exporter initial
    serve_start_looping world s e = ground (arith, plugged)

    -- With a plugin, `Serve` panics at an interval that is not positive.
    pub serve_start_panic :
        (world : S)
        → is_positive cfg.telemetry.metrics.export_interval ≡ false
        → serve_start opts cfg world ≡ panic (codes "non-positive interval for NewTicker")
    unfolding serve_start start_exporter
    serve_start_panic world h = rw (plugged, h)
