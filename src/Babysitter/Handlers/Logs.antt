-- ===== src/Babysitter/Handlers/Logs.antt =====
-- A batch of log entries (`LogBatch` of internal/impl/babysitter.go).
use weaver_kube.Base.{
  List, [], ◌∷◌, ◌++◌, Option, none, some, Error, ◌≡◌, refl, append-nil, append_assoc, ap, ◌∙◌,
}
use weaver_kube.Babysitter.Handlers.{
  Handler, handle_log_entry, log_loop, log_batch, collect, join_errors,
}

abbrev pub error_list : Option Error → List Error
error_list none = []
error_list (some e) = e ∷ []

collect-error_list : (o : Option Error) (errs : List Error) → collect o errs ≡ errs ++ error_list o
collect-error_list none errs = rw append-nil
collect-error_list (some e) errs = refl

module _ {S Entry : Type 0} where
  -- The state after the handler was called for every entry in order, whatever it returned.
  abbrev pub run_all : Handler S Entry → List Entry → S → S
  run_all handle [] s = s
  run_all handle (entry ∷ entries) s = run_all handle entries (handle entry s).1

  -- The errors of these calls in order.
  abbrev pub all_errors : Handler S Entry → List Entry → S → List Error
  all_errors handle [] s = []
  all_errors handle (entry ∷ entries) s =
      error_list (handle entry s).0 ++ all_errors handle entries (handle entry s).1

  log_loop_lem :
      (handle : Handler S Entry) (entries : List Entry) (errs : List Error) (s : S)
      → log_loop handle entries errs s
        ≡ (errs ++ all_errors handle entries s, run_all handle entries s)
  unfolding log_loop
  log_loop_lem handle [] errs s = rw append-nil
  log_loop_lem handle (entry ∷ entries) errs s =
      log_loop_lem handle entries (collect (handle entry s).0 errs) (handle entry s).1
      ∙ rw (collect-error_list, append_assoc)

  -- Every entry of a batch is handled, also those after an error, and the result has all errors in
  -- order, or is nil if there is none.
  pub log_batch_lem :
      (plugin : Option (Handler S Entry)) (print : Entry → S → S) (entries : List Entry) (s : S)
      → log_batch plugin print entries s ≡ (
        join_errors (all_errors (handle_log_entry plugin print) entries s),
        run_all (handle_log_entry plugin print) entries s,
      )
  unfolding log_batch
  log_batch_lem plugin print entries s =
      ap (λ (r : List Error × S). (join_errors r.0, r.1))
        (log_loop_lem (handle_log_entry plugin print) entries [] s)
