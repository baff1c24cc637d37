-- ===== src/Babysitter/Serve.antt =====
-- `Serve` of internal/impl/babysitter.go: two goroutines of an `errgroup`, which documents that its
-- context is cancelled by the first goroutine that returns an error and that `Wait` returns this
-- error when all have returned. What happens is a list of signals, so every list is an
-- interleaving.
pub mod Sound
pub mod Returned
pub mod Ends
pub mod Exports
pub mod Leaks
pub mod Worlds
use weaver_kube.Base.{
  ℕ, ◌^◌, ◌==◌, leb, Bool, true, false, ◌||◌, List, [], ◌∷◌, ◌++◌, Option, none, some,
  if◌then◌else◌, Bytes, codes, Map, Error, external, Outcome, ok, err, panic,
}
use weaver_kube.Babysitter.{BabysitterConfig}
use weaver_kube.Babysitter.Handlers.{Handler, read_metrics}
use weaver_kube.Babysitter.Start.{BabysitterOptions}

-- What `envelope.GetMetrics` returns.
pub data Fetched (A : Type 0) : Type 0 where
  got : List A → Fetched A
  failed : Error → Fetched A

abbrev fetched : {A : Type 0} → Fetched A → Outcome (List A)
fetched (got snaps) = ok snaps
fetched (failed e) = err e

-- The ticker fires, with what `metrics.Snapshot` and `GetMetrics` then return; the context that
-- `Serve` was given ends; `select` takes the end of the group's context; the envelope returns.
pub data Signal (Snap : Type 0) : Type 0 where
  tick : (own : List Snap) → Fetched Snap → Signal Snap
  parent_ends : Error → Signal Snap
  done : Signal Snap
  envelope_ends : Option Error → Signal Snap

-- The goroutine that exports metrics: never started, in its loop, returned, or in a panic.
pub data Exporter : Type 0 where
  absent looping ended panicked : Exporter

pub record ServeState (S Snap : Type 0) : Type 0 where
  pub world : S
  pub exporter : Exporter
  pub envelope_running : Bool
  -- `ctx.Err()` of the group's context
  pub cancelled : Option Error
  pub first_error : Option Error
  -- the arguments of the calls of `HandleMetrics`, the last one at the end
  pub exported : List (List Snap)

-- `context.Canceled`
abbrev pub canceled : Error
canceled = external (codes "context canceled")

abbrev pub keep_first : Option Error → Error → Option Error
keep_first none e = some e
keep_first (some first) e = some first

-- `time.NewTicker` panics at a duration that is not positive.
unfoldable pub is_positive : ℕ → Bool
is_positive interval =
    if interval == 0 then false else if leb (2 ^ 63) interval then false else true

module _ {S Snap : Type 0} where
  -- A goroutine of the group returned `r`.
  unfoldable pub return_from : Option Error → ServeState S Snap → ServeState S Snap
  return_from none s = s
  return_from (some e) s = record s {
    cancelled = keep_first s.cancelled canceled;
    first_error = keep_first s.first_error e;
  }

  initial : Exporter → S → ServeState S Snap
  initial exporter world = record {
    world = world;
    exporter = exporter;
    envelope_running = true;
    cancelled = none;
    first_error = none;
    exported = [];
  }

  start_exporter : Option (Handler S (List Snap)) → ℕ → S → Outcome (ServeState S Snap)
  start_exporter none interval world = ok (initial absent world)
  start_exporter (some handle) interval world =
      if is_positive interval
      then ok (initial looping world)
      else panic (codes "non-positive interval for NewTicker")

  -- The start of the goroutines.
  unfoldable pub serve_start :
      {Entry Span : Type 0}
      → BabysitterOptions S Entry Span Snap
      → BabysitterConfig
      → S
      → Outcome (ServeState S Snap)
  unfolding start_exporter initial is_positive
  serve_start opts cfg world =
      start_exporter opts.handle_metrics cfg.telemetry.metrics.export_interval world

  -- `Wait` has returned, with this error or nil.
  unfoldable pub wait_result : ServeState S Snap → Option (Option Error)
  wait_result s =
      if s.envelope_running
      then none
      else elim s.exporter [ looping ↦ none | panicked ↦ none | _ ↦ some s.first_error ]

  -- `HandleMetrics` was called for these snapshots.
  after_export : List Snap → ServeState S Snap → Option Error × S → ServeState S Snap
  after_export snaps s (none, world) = record s {
    world = world;
    exported = s.exported ++ snaps ∷ [];
  }
  after_export snaps s (some e, world) =
      return_from (some e)
        (record s { world = world; exporter = ended; exported = s.exported ++ snaps ∷ [] })

  -- The exporter is only started with a plugin.
  call_plugin : Option (Handler S (List Snap)) → List Snap → ServeState S Snap → ServeState S Snap
  call_plugin none snaps s = s
  call_plugin (some handle) snaps s = after_export snaps s (handle snaps s.world)

  -- The loop takes the end of the context if it has ended.
  take_done : Option Error → ServeState S Snap → ServeState S Snap
  take_done none s = s
  take_done (some e) s = return_from (some e) (record s { exporter = ended })

  pub end_envelope : Option Error → ServeState S Snap → Bool → ServeState S Snap
  end_envelope r s true = return_from r (record s { envelope_running = false })
  end_envelope r s false = s

  module _ {Entry Span : Type 0} (labels : Snap → Map Bytes)
      (opts : BabysitterOptions S Entry Span Snap) (cfg : BabysitterConfig) where
    -- What `readMetrics` returned is exported. It returns no error.
    export : Outcome (List Snap) → ServeState S Snap → ServeState S Snap
    export (ok snaps) s = call_plugin opts.handle_metrics snaps s
    export (err e) s = s
    export (panic text) s = record s { exporter = panicked }

    in_loop : Signal Snap → ServeState S Snap → ServeState S Snap
    in_loop (tick own metrics) s =
        export
          (read_metrics labels own (fetched metrics) cfg.telemetry.metrics.auto_generate_metrics) s
    in_loop done s = take_done s.cancelled s
    in_loop _ s = s

    pub exporting : Signal Snap → ServeState S Snap → Exporter → ServeState S Snap
    exporting x s looping = in_loop x s
    exporting x s _ = s

    unfoldable pub step : ServeState S Snap → Signal Snap → ServeState S Snap
    unfolding export call_plugin after_export take_done in_loop end_envelope exporting return_from
    step s (tick own metrics) = exporting (tick own metrics) s s.exporter
    step s done = exporting done s s.exporter
    step s (parent_ends e) = record s { cancelled = keep_first s.cancelled e }
    step s (envelope_ends r) = end_envelope r s s.envelope_running

    unfoldable pub serve : ServeState S Snap → List (Signal Snap) → ServeState S Snap
    serve s [] = s
    serve s (x ∷ xs) = serve (step s x) xs
