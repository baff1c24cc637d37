-- ===== src/Babysitter/Serve/Returned.antt =====
-- Which error a goroutine of `Serve` returns at a signal (internal/impl/babysitter.go).
use weaver_kube.Base.{
  ℕ, or_else, Bool, List, [], ◌∷◌, ◌++◌, Option, none, some, if◌then◌else◌, Bytes, Map, Error, ok,
  ◌≡◌, ◌∙◌, arith,
}
use weaver_kube.Babysitter.{BabysitterConfig}
use weaver_kube.Babysitter.Handlers.{Handler, read_metrics, filter_metrics}
use weaver_kube.Babysitter.Start.{BabysitterOptions}
use weaver_kube.Babysitter.Serve.{
  got, failed, Signal, tick, parent_ends, done, envelope_ends, Exporter, absent, looping, ended,
  panicked, ServeState, return_from, call_plugin, start_exporter, initial, serve_start,
  after_export, export, take_done, in_loop, end_envelope, exporting, step, serve,
}

module _ {S Snap : Type 0} where
  -- What a call of the plugin returns.
  abbrev plugin_error : Option (Handler S (List Snap)) → List Snap → S → Option Error
  plugin_error none snaps world = none
  plugin_error (some handle) snaps world = (handle snaps world).0

  module _ {Entry Span : Type 0} (labels : Snap → Map Bytes)
      (opts : BabysitterOptions S Entry Span Snap) (cfg : BabysitterConfig) where
    -- The error that the exporter returns at a signal that it takes in its loop.
    abbrev pub exporter_error : Signal Snap → ServeState S Snap → Option Error
    exporter_error (tick own (got ms)) s =
        plugin_error opts.handle_metrics
          (filter_metrics labels (own ++ ms) cfg.telemetry.metrics.auto_generate_metrics) s.world
    exporter_error (tick own (failed e)) s = plugin_error opts.handle_metrics own s.world
    exporter_error done s = s.cancelled
    exporter_error _ s = none

    abbrev pub if_looping : Exporter → Option Error → Option Error
    if_looping looping e = e
    if_looping _ e = none

    -- The error that a goroutine returns at a signal, if one does.
    abbrev pub returned : ServeState S Snap → Signal Snap → Option Error
    returned s (envelope_ends r) = if s.envelope_running then r else none
    returned s x = if_looping s.exporter (exporter_error x s)

    -- The first of them.
    abbrev pub first_returned : ServeState S Snap → List (Signal Snap) → Option Error
    first_returned s [] = none
    first_returned s (x ∷ xs) =
        or_else (returned s x) (first_returned (step labels opts cfg s x) xs)

    call_plugin-first :
        (plugin : Option (Handler S (List Snap))) (snaps : List Snap) (s : ServeState S Snap)
        → (call_plugin plugin snaps s).first_error
          ≡ or_else s.first_error (plugin_error plugin snaps s.world)
    unfolding call_plugin after_export return_from
    call_plugin-first none snaps s = ground arith
    call_plugin-first (some handle) snaps s = ground arith

    take_done-first :
        (c : Option Error) (s : ServeState S Snap)
        → (take_done c s).first_error ≡ or_else s.first_error c
    unfolding take_done return_from
    take_done-first c s = ground arith

    in_loop-first :
        (x : Signal Snap) (s : ServeState S Snap)
        → (in_loop labels opts cfg x s).first_error ≡ or_else s.first_error (exporter_error x s)
    unfolding in_loop export read_metrics
    in_loop-first (tick own (got ms)) s = call_plugin-first opts.handle_metrics _ s
    in_loop-first (tick own (failed e)) s = call_plugin-first opts.handle_metrics own s
    in_loop-first done s = take_done-first s.cancelled s
    in_loop-first (parent_ends e) s = ground arith
    in_loop-first (envelope_ends r) s = ground arith

    exporting-first :
        (x : Signal Snap) (s : ServeState S Snap) (l : Exporter)
        → (exporting labels opts cfg x s l).first_error
          ≡ or_else s.first_error (if_looping l (exporter_error x s))
    unfolding exporting
    exporting-first x s looping = in_loop-first x s
    exporting-first x s absent = ground arith
    exporting-first x s ended = ground arith
    exporting-first x s panicked = ground arith

    end_envelope-first :
        (r : Option Error) (s : ServeState S Snap) (b : Bool)
        → (end_envelope r s b).first_error ≡ or_else s.first_error (if b then r else none)
    unfolding end_envelope return_from
    end_envelope-first r s b = ground arith

    step-first :
        (s : ServeState S Snap) (x : Signal Snap)
        → (step labels opts cfg s x).first_error ≡ or_else s.first_error (returned s x)
    unfolding step
    step-first s (tick own m) = exporting-first (tick own m) s s.exporter
    step-first s done = exporting-first done s s.exporter
    step-first s (parent_ends e) = ground arith
    step-first s (envelope_ends r) = end_envelope-first r s s.envelope_running

    -- The first error of the group is the first one that a goroutine returned.
    pub serve_first :
        (s : ServeState S Snap) (xs : List (Signal Snap))
        → (serve labels opts cfg s xs).first_error ≡ or_else s.first_error (first_returned s xs)
    unfolding serve
    serve_first s [] = ground arith
    serve_first s (x ∷ xs) =
        serve_first (step labels opts cfg s x) xs ∙ ground (arith, step-first s x)

  start_exporter-fresh :
      (plugin : Option (Handler S (List Snap))) (interval : ℕ) (world : S) (s : ServeState S Snap)
      → start_exporter plugin interval world ≡ ok s
      → s.first_error ≡ none
  unfolding start_exporter initial
  start_exporter-fresh plugin interval world s e = ground arith

  pub serve_start-fresh :
      {Entry Span : Type 0} (opts : BabysitterOptions S Entry Span Snap) (cfg : BabysitterConfig)
      (world : S) (s : ServeState S Snap)
      → serve_start opts cfg world ≡ ok s
      → s.first_error ≡ none
  unfolding serve_start
  serve_start-fresh opts cfg world s e =
      start_exporter-fresh opts.handle_metrics cfg.telemetry.metrics.export_interval world s e
