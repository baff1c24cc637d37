-- ===== src/Telemetry.antt =====
-- The example of a custom deployer, examples/telemetry/main.go: a plugin that keeps the metrics of
-- the babysitter for Prometheus, and one that sends spans to Jaeger.
pub mod Page
use weaver_kube.Base.{
  ℕ, List, [], ◌∷◌, ◌++◌, Option, none, some, Bytes, codes, decimal, Error, Outcome, ok, err, panic,
  ◌>>=◌,
}
use weaver_kube.Babysitter.Handlers.{Handler}
use weaver_kube.Tool.{Plugins}

abbrev pub jaeger_port : ℕ
jaeger_port = 14268

abbrev pub prometheus_port : ℕ
prometheus_port = 9090

-- `prometheusExporter`. Its methods hold its lock from their beginning to their end, so each is one
-- step.
pub record PrometheusExporter (Snap : Type 0) : Type 0 where
  pub metrics : List Snap

-- What `main` calls in other packages: `jaeger.New` for a URL, whose exporter sends spans,
-- `net.Listen` at an address, and the text of a panic with an error.
pub record Network (Span : Type 0) : Type 0 where
  pub new_jaeger : Bytes → Outcome (List Span → Option Error)
  pub listen : Bytes → Outcome (Unit {0})
  pub panic_text : Error → Bytes

module _ {Snap : Type 0} where
  unfoldable pub handle_metrics : Handler (PrometheusExporter Snap) (List Snap)
  handle_metrics metrics p = (none, record p { metrics = metrics })

  -- The handler of requests for the page, given the request's host and
  -- `TranslateMetricsToPrometheusTextFormat`.
  unfoldable pub serve_page :
      (List Snap → Bytes → Bytes → Bytes) → Bytes → PrometheusExporter Snap → Bytes
  serve_page translate host p = translate p.metrics host (codes "/metrics")

or_panic {ℓ} : {A : Type ℓ} → (Error → Bytes) → Outcome A → Outcome A
or_panic text (err e) = panic (text e)
or_panic text (ok a) = ok a
or_panic text (panic m) = panic m

module _ {Span Snap : Type 0} where
  handle_trace_spans_with :
      (List Span → Option Error) → Handler (PrometheusExporter Snap) (List Span)
  handle_trace_spans_with export_spans spans p = (export_spans spans, p)

module _ {Entry Span Snap : Type 0} (w : Network Span) where
  -- The plugins that `main` passes to `tool.Run`, and the exporter then.
  unfoldable pub main :
      Outcome (Plugins (PrometheusExporter Snap) Entry Span Snap × PrometheusExporter Snap)
  unfolding or_panic handle_trace_spans_with
  main = do
    export_spans ←
        or_panic w.panic_text
          (w.new_jaeger (codes "http://jaeger:" ++ (decimal jaeger_port ++ codes "/api/traces")))
    _ ← or_panic w.panic_text (w.listen (58 ∷ decimal prometheus_port))
    ok (
      record {
        handle_log_entry = none;
        handle_trace_spans = some (handle_trace_spans_with export_spans);
        handle_metrics = some handle_metrics;
      },
      record { metrics = [] },
    )
