-- ===== src/Babysitter/Serve/Sound.antt =====
-- No goroutine of `Serve` of internal/impl/babysitter.go panics once they have started, with plugins
-- that return, and an error of one cancels their context.
use weaver_kube.Base.{
  ℕ, Bool, true, false, List, [], ◌∷◌, Option, none, some, Bytes, Map, Error, ok, ok-injective,
  Bool-cases, ◌≡◌, ◌≢◌, inl, inr, refl, arith,
}
use weaver_kube.Babysitter.{BabysitterConfig}
use weaver_kube.Babysitter.Handlers.{Handler, read_metrics}
use weaver_kube.Babysitter.Start.{BabysitterOptions}
use weaver_kube.Babysitter.Serve.{
  Fetched, got, failed, Signal, tick, parent_ends, done, envelope_ends, Exporter, absent, looping,
  ended, panicked, ServeState, return_from, call_plugin, is_positive, start_exporter, initial,
  serve_start, after_export, export, fetched, take_done, in_loop, end_envelope, exporting, step,
  serve,
}

module _ {S Snap : Type 0} where
  -- The context is cancelled once a goroutine has returned an error, and the exporter is not in a
  -- panic.
  pub record IsSound (s : ServeState S Snap) : Type 0 where
    pub reported : s.first_error ≢ none → s.cancelled ≢ none
    pub calm : s.exporter ≢ panicked

  pub return_from-IsSound :
      (r : Option Error) (s : ServeState S Snap) → IsSound s → IsSound (return_from r s)
  unfolding return_from
  return_from-IsSound none s h = h
  return_from-IsSound (some e) s h = record { reported = ground arith; calm = h.calm }

  take_done-IsSound :
      (c : Option Error) (s : ServeState S Snap) → IsSound s → IsSound (take_done c s)
  unfolding take_done
  take_done-IsSound none s h = h
  take_done-IsSound (some e) s h =
      return_from-IsSound (some e) _ (record { reported = h.reported; calm = λ e. cc })

  pub end_envelope-IsSound :
      (r : Option Error) (s : ServeState S Snap) (b : Bool)
      → IsSound s
      → IsSound (end_envelope r s b)
  unfolding end_envelope
  end_envelope-IsSound r s true h =
      return_from-IsSound r _ (record { reported = h.reported; calm = h.calm })
  end_envelope-IsSound r s false h = h

  after_export-IsSound :
      (snaps : List Snap) (s : ServeState S Snap) (r : Option Error × S)
      → IsSound s
      → IsSound (after_export snaps s r)
  unfolding after_export
  after_export-IsSound snaps s (none, world) h = record { reported = h.reported; calm = h.calm }
  after_export-IsSound snaps s (some e, world) h =
      return_from-IsSound (some e) _ (record { reported = h.reported; calm = λ e. cc })

  call_plugin-IsSound :
      (plugin : Option (Handler S (List Snap))) (snaps : List Snap) (s : ServeState S Snap)
      → IsSound s
      → IsSound (call_plugin plugin snaps s)
  unfolding call_plugin
  call_plugin-IsSound none snaps s h = h
  call_plugin-IsSound (some handle) snaps s h = after_export-IsSound snaps s _ h

  start_exporter-IsSound :
      (plugin : Option (Handler S (List Snap))) (interval : ℕ) (world : S) (s : ServeState S Snap)
      → start_exporter plugin interval world ≡ ok s
      → IsSound s
  unfolding start_exporter initial
  start_exporter-IsSound none interval world s e =
      rw (← ok-injective e) (record { reported = λ h. absurd (h refl); calm = λ h. cc })
  start_exporter-IsSound (some handle) interval world s e =
      elim (Bool-cases (is_positive interval)) [
        | inl fits ↦
            rw (← ok-injective (rw fits at e))
              (record { reported = λ h. absurd (h refl); calm = λ h. cc })
        | inr bad ↦ let clash = (rw bad at e) in cc
      ]

  module _ {Entry Span : Type 0} (labels : Snap → Map Bytes)
      (opts : BabysitterOptions S Entry Span Snap) (cfg : BabysitterConfig) where
    export-IsSound :
        (own : List Snap) (m : Fetched Snap) (auto : Bool) (s : ServeState S Snap)
        → IsSound s
        → IsSound (export labels opts cfg (read_metrics labels own (fetched m) auto) s)
    unfolding export read_metrics
    export-IsSound own (got ms) auto s h = call_plugin-IsSound opts.handle_metrics _ s h
    export-IsSound own (failed e) auto s h = call_plugin-IsSound opts.handle_metrics own s h

    in_loop-IsSound :
        (x : Signal Snap) (s : ServeState S Snap)
        → IsSound s
        → IsSound (in_loop labels opts cfg x s)
    unfolding in_loop
    in_loop-IsSound (tick own m) s h =
        export-IsSound own m cfg.telemetry.metrics.auto_generate_metrics s h
    in_loop-IsSound done s h = take_done-IsSound s.cancelled s h
    in_loop-IsSound (parent_ends e) s h = h
    in_loop-IsSound (envelope_ends r) s h = h

    pub exporting-IsSound :
        (x : Signal Snap) (s : ServeState S Snap) (l : Exporter)
        → IsSound s
        → IsSound (exporting labels opts cfg x s l)
    unfolding exporting
    exporting-IsSound x s looping h = in_loop-IsSound x s h
    exporting-IsSound x s absent h = h
    exporting-IsSound x s ended h = h
    exporting-IsSound x s panicked h = h

    step-IsSound :
        (s : ServeState S Snap) (x : Signal Snap) → IsSound s → IsSound (step labels opts cfg s x)
    unfolding step
    step-IsSound s (tick own m) h = exporting-IsSound (tick own m) s s.exporter h
    step-IsSound s done h = exporting-IsSound done s s.exporter h
    step-IsSound s (parent_ends e) h = record { reported = ground arith; calm = h.calm }
    step-IsSound s (envelope_ends r) h = end_envelope-IsSound r s s.envelope_running h

    pub serve-IsSound :
        (s : ServeState S Snap) (xs : List (Signal Snap))
        → IsSound s
        → IsSound (serve labels opts cfg s xs)
    unfolding serve
    serve-IsSound s [] h = h
    serve-IsSound s (x ∷ xs) h = serve-IsSound (step labels opts cfg s x) xs (step-IsSound s x h)

    pub serve_start-IsSound :
        (world : S) (s : ServeState S Snap) → serve_start opts cfg world ≡ ok s → IsSound s
    unfolding serve_start
    serve_start-IsSound world s e =
        start_exporter-IsSound opts.handle_metrics cfg.telemetry.metrics.export_interval world s e
