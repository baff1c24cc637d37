-- ===== src/Babysitter/Serve/Worlds.antt =====
-- The state on which the plugin for metrics acts, as `Serve` of internal/impl/babysitter.go changes
-- it, and when the loop goes on.
use weaver_kube.Base.{
  ℕ, Error, Bool, true, false, List, [], ◌∷◌, ◌++◌, Option, none, some, Bytes, Map, All, Outcome,
  ok, err, panic, ◌≡◌, refl, ◌∙◌, ap, sym, arith,
}
use weaver_kube.Babysitter.{BabysitterConfig}
use weaver_kube.Babysitter.Handlers.{Handler, read_metrics}
use weaver_kube.Babysitter.Start.{BabysitterOptions}
use weaver_kube.Babysitter.Serve.{
  got, failed, Signal, tick, parent_ends, done, envelope_ends, Exporter, absent, looping, ended,
  panicked, ServeState, return_from, call_plugin, start_exporter, initial, serve_start,
  after_export, export, take_done, in_loop, end_envelope, exporting, step, serve,
}

-- The state after calls of a handler, one after the other.
abbrev pub after_calls : {S A : Type 0} → Handler S A → S → List A → S
after_calls handle world [] = world
after_calls handle world (a ∷ calls) = after_calls handle (handle a world).1 calls

after_calls-append :
    {S A : Type 0} (handle : Handler S A) (world : S) (calls : List A) (a : A)
    → after_calls handle world (calls ++ a ∷ []) ≡ (handle a (after_calls handle world calls)).1
after_calls-append handle world [] a = refl
after_calls-append handle world (x ∷ calls) a = after_calls-append handle (handle x world).1 calls a

-- The loop takes notice of the end of its context.
abbrev pub is_done : {Snap : Type 0} → Signal Snap → Bool
is_done done = true
is_done _ = false

module _ {S Snap Entry Span : Type 0} (labels : Snap → Map Bytes)
    (opts : BabysitterOptions S Entry Span Snap) (cfg : BabysitterConfig)
    (handle : Handler S (List Snap)) (plugged : opts.handle_metrics ≡ some handle) where
  module _ (first : S) where
    -- The state is what the calls so far have made of the first one.
    Follows : ServeState S Snap → Type 0
    Follows s = s.world ≡ after_calls handle first s.exported

    return_from-Follows :
        (r : Option Error) (s : ServeState S Snap) → Follows s → Follows (return_from r s)
    unfolding Follows return_from
    return_from-Follows none s h = h
    return_from-Follows (some e) s h = h

    after_export-Follows :
        (snaps : List Snap) (s : ServeState S Snap) (r : Option Error × S)
        → r ≡ handle snaps s.world
        → Follows s
        → Follows (after_export snaps s r)
    unfolding Follows after_export return_from
    after_export-Follows snaps s (none, world) e h =
        ap (λ x. x.1) e ∙ rw h (sym (after_calls-append handle first s.exported snaps))
    after_export-Follows snaps s (some x, world) e h =
        ap (λ x. x.1) e ∙ rw h (sym (after_calls-append handle first s.exported snaps))

    export-Follows :
        (o : Outcome (List Snap)) (s : ServeState S Snap)
        → Follows s
        → Follows (export labels opts cfg o s)
    unfolding export call_plugin Follows
    export-Follows (ok snaps) s h =
        rw plugged (after_export-Follows snaps s (handle snaps s.world) refl h)
    export-Follows (err e) s h = h
    export-Follows (panic e) s h = h

    take_done-Follows :
        (c : Option Error) (s : ServeState S Snap) → Follows s → Follows (take_done c s)
    unfolding take_done return_from Follows
    take_done-Follows none s h = h
    take_done-Follows (some e) s h = h

    end_envelope-Follows :
        (r : Option Error) (s : ServeState S Snap) (b : Bool)
        → Follows s
        → Follows (end_envelope r s b)
    unfolding end_envelope return_from Follows
    end_envelope-Follows r s true h = return_from-Follows r _ h
    end_envelope-Follows r s false h = h

    exporting-Follows :
        (x : Signal Snap) (s : ServeState S Snap) (l : Exporter)
        → Follows s
        → Follows (exporting labels opts cfg x s l)
    unfolding exporting in_loop
    exporting-Follows (tick own m) s looping h = export-Follows _ s h
    exporting-Follows done s looping h = take_done-Follows s.cancelled s h
    exporting-Follows (parent_ends e) s looping h = h
    exporting-Follows (envelope_ends e) s looping h = h
    exporting-Follows x s absent h = h
    exporting-Follows x s ended h = h
    exporting-Follows x s panicked h = h

    step-Follows :
        (s : ServeState S Snap) (x : Signal Snap) → Follows s → Follows (step labels opts cfg s x)
    unfolding step Follows
    step-Follows s (tick own m) h = exporting-Follows (tick own m) s s.exporter h
    step-Follows s done h = exporting-Follows done s s.exporter h
    step-Follows s (parent_ends e) h = h
    step-Follows s (envelope_ends r) h = end_envelope-Follows r s s.envelope_running h

    serve-Follows :
        (s : ServeState S Snap) (xs : List (Signal Snap))
        → Follows s
        → Follows (serve labels opts cfg s xs)
    unfolding serve
    serve-Follows s [] h = h
    serve-Follows s (x ∷ xs) h = serve-Follows (step labels opts cfg s x) xs (step-Follows s x h)

    start_exporter-Follows :
        (plugin : Option (Handler S (List Snap))) (interval : ℕ) (s : ServeState S Snap)
        → start_exporter plugin interval first ≡ ok s
        → Follows s
    unfolding start_exporter initial Follows
    start_exporter-Follows plugin interval s e = ground arith

  -- From the start of `Serve` on, the plugin's state is what its calls have made of the first one.
  pub serve_world :
      (first : S) (s : ServeState S Snap) (xs : List (Signal Snap))
      → serve_start opts cfg first ≡ ok s
      → (serve labels opts cfg s xs).world
        ≡ after_calls handle first (serve labels opts cfg s xs).exported
  unfolding serve_start Follows
  serve_world first s xs started =
      serve-Follows first s xs (start_exporter-Follows first opts.handle_metrics _ s started)

  module _ (faultless : (snaps : List Snap) (world : S) → (handle snaps world).0 ≡ none) where
    after_export_looping :
        (snaps : List Snap) (s : ServeState S Snap) (r : Option Error × S)
        → r.0 ≡ none
        → s.exporter ≡ looping
        → (after_export snaps s r).exporter ≡ looping
    unfolding after_export
    after_export_looping snaps s (none, world) e h = h
    after_export_looping snaps s (some x, world) e h = cc

    in_loop_looping :
        (x : Signal Snap) (s : ServeState S Snap)
        → is_done x ≡ false
        → s.exporter ≡ looping
        → (in_loop labels opts cfg x s).exporter ≡ looping
    unfolding in_loop export call_plugin read_metrics
    in_loop_looping (tick own (got ms)) s n h =
        rw plugged (after_export_looping _ s _ (faultless _ _) h)
    in_loop_looping (tick own (failed e)) s n h =
        rw plugged (after_export_looping _ s _ (faultless _ _) h)
    in_loop_looping done s n h = cc
    in_loop_looping (parent_ends e) s n h = h
    in_loop_looping (envelope_ends e) s n h = h

    exporting_looping :
        (x : Signal Snap) (s : ServeState S Snap) (l : Exporter)
        → is_done x ≡ false
        → s.exporter ≡ looping
        → l ≡ looping
        → (exporting labels opts cfg x s l).exporter ≡ looping
    unfolding exporting
    exporting_looping x s looping n h e = in_loop_looping x s n h
    exporting_looping x s _ n h e = h

    step_looping :
        (x : Signal Snap) (s : ServeState S Snap)
        → is_done x ≡ false
        → s.exporter ≡ looping
        → (step labels opts cfg s x).exporter ≡ looping
    unfolding step end_envelope return_from
    step_looping (tick own m) s n h = exporting_looping (tick own m) s s.exporter n h h
    step_looping done s n h = cc
    step_looping (parent_ends e) s n h = h
    step_looping (envelope_ends r) s n h = ground arith

    -- With a plugin that returns no error the loop goes on until it takes notice of the end.
    pub serve_looping :
        (xs : List (Signal Snap)) (s : ServeState S Snap)
        → All (λ x. is_done x ≡ false) xs
        → s.exporter ≡ looping
        → (serve labels opts cfg s xs).exporter ≡ looping
    unfolding serve
    serve_looping [] s n h = h
    serve_looping (x ∷ xs) s (n, ns) h =
        serve_looping xs (step labels opts cfg s x) ns (step_looping x s n h)
