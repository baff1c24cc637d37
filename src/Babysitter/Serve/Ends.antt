-- ===== src/Babysitter/Serve/Ends.antt =====
-- When `Serve` of internal/impl/babysitter.go returns, and with what error.
use weaver_kube.Base.{
  ap, Bool, true, false, List, [], ◌∷◌, ◌++◌, Option, none, some, Bytes, Map, Error, ok, ◌≡◌, ◌≢◌,
  ◌⊎◌, inl, inr, refl, ◌∙◌, sym, arith,
}
use weaver_kube.Babysitter.{BabysitterConfig}
use weaver_kube.Babysitter.Handlers.{Handler}
use weaver_kube.Babysitter.Start.{BabysitterOptions}
use weaver_kube.Babysitter.Serve.{
  Signal, done, envelope_ends, Exporter, absent, looping, panicked, ServeState, return_from,
  is_positive, start_exporter, initial, serve_start, wait_result, take_done, in_loop, end_envelope,
  exporting, step, serve,
}
use weaver_kube.Babysitter.Serve.Returned.{first_returned, serve_first, serve_start-fresh}
use weaver_kube.Babysitter.Serve.Sound.{
  IsSound, exporting-IsSound, serve-IsSound, serve_start-IsSound,
}

module _ {S Snap : Type 0} where
  ended_lem :
      (s : ServeState S Snap)
      → s.envelope_running ≡ false
      → s.exporter ≢ looping
      → s.exporter ≢ panicked
      → wait_result s ≡ some s.first_error
  unfolding wait_result
  ended_lem s stopped out calm = ground arith

  stopped-end_envelope :
      (r : Option Error) (s : ServeState S Snap) (b : Bool)
      → s.envelope_running ≡ b
      → (end_envelope r s b).envelope_running ≡ false
  unfolding end_envelope return_from
  stopped-end_envelope r s b e = ground arith

  kept-end_envelope :
      (r : Option Error) (s : ServeState S Snap) (b : Bool)
      → (end_envelope r s b).exporter ≡ s.exporter
  unfolding end_envelope return_from
  kept-end_envelope r s b = ground arith

  module _ {Entry Span : Type 0} (labels : Snap → Map Bytes)
      (opts : BabysitterOptions S Entry Span Snap) (cfg : BabysitterConfig) where
    pub serve-append :
        (s : ServeState S Snap) (xs ys : List (Signal Snap))
        → serve labels opts cfg s (xs ++ ys) ≡ serve labels opts cfg (serve labels opts cfg s xs) ys
    unfolding serve
    serve-append s [] ys = refl
    serve-append s (x ∷ xs) ys = serve-append (step labels opts cfg s x) xs ys

    -- The exporter takes the end of a cancelled context.
    stops_in_loop :
        (s : ServeState S Snap) (l : Exporter)
        → s.exporter ≡ l
        → s.cancelled ≢ none
        → (exporting labels opts cfg done s l).exporter ≢ looping
    unfolding exporting in_loop take_done return_from
    stops_in_loop s l e c = ground arith

    -- A cancelled state ends at the next two signals.
    finishes :
        (s : ServeState S Snap) (r : Option Error)
        → IsSound s
        → s.cancelled ≢ none
        → let after = serve labels opts cfg s (done ∷ envelope_ends r ∷ []) in
          wait_result after ≡ some after.first_error
    unfolding serve step
    finishes s r h c =
        let t = exporting labels opts cfg done s s.exporter in
        let sound = exporting-IsSound labels opts cfg done s s.exporter h in
        ended_lem (end_envelope r t t.envelope_running)
          (stopped-end_envelope r t t.envelope_running refl)
          (λ e.
            stops_in_loop s s.exporter refl c (sym (kept-end_envelope r t t.envelope_running) ∙ e))
          (λ e. sound.calm (sym (kept-end_envelope r t t.envelope_running) ∙ e))

    -- From the start of `Serve` on: once a goroutine has returned an error or the context is
    -- cancelled, then as soon as the exporter takes notice and the envelope returns, `Serve`
    -- returns the first error that a goroutine returned in all of this: the error of a call of the
    -- plugin, the context's error that the exporter took, or the envelope's.
    pub serve_returns :
        (world : S) (s : ServeState S Snap) (xs : List (Signal Snap)) (r : Option Error)
        → serve_start opts cfg world ≡ ok s
        → ((serve labels opts cfg s xs).cancelled ≢ none)
          ⊎ (first_returned labels opts cfg s xs ≢ none)
        → let all = xs ++ (done ∷ envelope_ends r ∷ []) in
          wait_result (serve labels opts cfg s all) ≡ some (first_returned labels opts cfg s all)
    serve_returns world s xs r started stopped =
        let now = serve labels opts cfg s xs in
        let all = xs ++ (done ∷ envelope_ends r ∷ []) in
        let fresh = serve_start-fresh opts cfg world s started in
        let sound =
          serve-IsSound labels opts cfg s xs
            (serve_start-IsSound labels opts cfg world s started) in
        let first_of = serve_first labels opts cfg s in
        let cut : now.cancelled ≢ none = elim stopped [
          | inl c ↦ c
          | inr f ↦ sound.reported (λ e. f (sym (first_of xs ∙ rw fresh refl) ∙ e))
        ] in
        let ends : wait_result (serve labels opts cfg s all)
            ≡ some (serve labels opts cfg s all).first_error =
          rw serve-append (finishes now r sound cut) in
        ends ∙ ap (λ e. some e) (first_of all ∙ rw fresh refl)

  -- Without a plugin for metrics or with a positive interval the goroutines start.
  pub serve_starts :
      {Entry Span : Type 0} (opts : BabysitterOptions S Entry Span Snap) (cfg : BabysitterConfig)
      (world : S)
      → (opts.handle_metrics ≡ none) ⊎ (is_positive cfg.telemetry.metrics.export_interval ≡ true)
      → (s : ServeState S Snap) × (serve_start opts cfg world ≡ ok s)
  unfolding serve_start start_exporter
  serve_starts opts cfg world fits = go opts.handle_metrics fits
    where
      go :
          (plugin : Option (Handler S (List Snap)))
          → (plugin ≡ none) ⊎ (is_positive cfg.telemetry.metrics.export_interval ≡ true)
          → (s : ServeState S Snap) × (start_exporter plugin cfg.telemetry.metrics.export_interval
                world
              ≡ ok s)
      go none h = (initial absent world, refl)
      go (some handle) (inl h) = cc
      go (some handle) (inr h) = (initial looping world, rw h refl)
