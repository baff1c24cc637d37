-- ===== src/Babysitter/Handlers.antt =====
-- The handlers of the weavelet's messages, and the metrics (internal/impl/babysitter.go).
pub mod Metrics
pub mod Logs
use weaver_kube.Base.{
  ℕ, Bool, true, false, not, List, [], ◌∷◌, ◌++◌, map, Option, none, some, if◌then◌else◌, Bytes,
  codes, bytes_eq, int32_text, Map, lookup, Error, plain_at, Outcome, ok, err, panic,
}
use weaver_kube.Babysitter.{BabysitterConfig}
use weaver_kube.Babysitter.Watch.{text_or_empty}

address_of : Bytes → Option ℕ → Outcome Bytes
address_of name none = err (plain_at (codes "listener not found") name)
address_of name (some port) = ok (b':' ∷ int32_text port)

-- `GetListenerAddress`: `:<port>`
unfoldable pub get_listener_address : BabysitterConfig → Bytes → Outcome Bytes
unfolding address_of
get_listener_address cfg name = address_of name (lookup name cfg.listeners)

-- `ExportListener`: the reply's `ProxyAddress`
unfoldable pub export_listener : Outcome Bytes
export_listener = ok []

-- The handlers that the tool never calls.
abbrev unused {ℓ} : {A : Type ℓ} → Outcome A
unused = panic (codes "unused")

unfoldable pub get_self_certificate : Outcome (Unit {0})
get_self_certificate = unused

unfoldable pub verify_client_certificate : Outcome (Unit {0})
verify_client_certificate = unused

unfoldable pub verify_server_certificate : Outcome (Unit {0})
verify_server_certificate = unused

-- A metric snapshot is any value with labels.
module _ {A : Type 0} (labels : A → Map Bytes) where
  unfoldable pub is_generated : A → Bool
  is_generated snap =
      bytes_eq (text_or_empty (lookup (codes "serviceweaver_generated") (labels snap)))
        (codes "true")

  filter_loop : List A → List A
  filter_loop [] = []
  filter_loop (snap ∷ snaps) =
      let rest = filter_loop snaps in if is_generated snap then rest else snap ∷ rest

  unfoldable pub filter_metrics : List A → Bool → List A
  unfolding filter_loop is_generated
  filter_metrics snaps export_generated = if export_generated then snaps else filter_loop snaps

  -- The arguments are what `metrics.Snapshot` and `envelope.GetMetrics` return.
  unfoldable pub read_metrics : List A → Outcome (List A) → Bool → Outcome (List A)
  read_metrics own (ok ms) auto_generate = ok (filter_metrics (own ++ ms) auto_generate)
  read_metrics own (err e) auto_generate = ok own
  read_metrics own (panic m) auto_generate = panic m

-- A plugin's handler acts on the state of the world and returns an error or nil. One that panics,
-- which ends the process, is not modelled.
abbrev pub Handler : Type 0 → Type 0 → Type 0
Handler S Entry = Entry → S → Option Error × S

abbrev collect : Option Error → List Error → List Error
collect none errs = errs
collect (some e) errs = errs ++ e ∷ []

-- `errors.Join` is nil if it is given no error.
abbrev pub join_errors : List Error → Option (List Error)
join_errors [] = none
join_errors (e ∷ es) = some (e ∷ es)

module _ {S Entry : Type 0} where
  -- Without a plugin the entry is printed, which succeeds.
  unfoldable pub handle_log_entry : Option (Handler S Entry) → (Entry → S → S) → Handler S Entry
  handle_log_entry (some handler) print entry s = handler entry s
  handle_log_entry none print entry s = (none, print entry s)

  log_loop : Handler S Entry → List Entry → List Error → S → List Error × S
  log_loop handle [] errs s = (errs, s)
  log_loop handle (entry ∷ entries) errs s =
      let (e, s') = handle entry s in log_loop handle entries (collect e errs) s'

  unfoldable pub log_batch :
      Option (Handler S Entry) → (Entry → S → S) → List Entry → S → Option (List Error) × S
  unfolding log_loop
  log_batch plugin print entries s =
      let (errs, s') = log_loop (handle_log_entry plugin print) entries [] s in
      (join_errors errs, s')

-- `HandleTraceSpans`: the plugin gets all spans, each behind the read-only interface.
module _ {S Span ReadOnly : Type 0} (read_span : Span → ReadOnly) where
  unfoldable pub handle_trace_spans :
      Option (List ReadOnly → S → Option Error × S) → List Span → S → Option Error × S
  handle_trace_spans none spans s = (none, s)
  handle_trace_spans (some handler) spans s = handler (map read_span spans) s
