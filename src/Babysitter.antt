-- ===== src/Babysitter.antt =====
-- internal/impl/babysitter.go: the watch for pods, the handlers of the weavelet's messages, and the
-- configuration of internal/impl/kube.proto.
pub mod Watch
pub mod Claim
pub mod Handlers
pub mod Start
pub mod Serve
use weaver_kube.Base.{ℕ, Bool, Bytes, Map}

pub record MetricOptions : Type 0 where
  pub auto_generate_metrics : Bool
  -- the duration in nanoseconds, as a bit pattern
  pub export_interval : ℕ

pub record Telemetry : Type 0 where
  pub metrics : MetricOptions

pub record BabysitterConfig : Type 0 where
  pub namespace : Bytes
  pub deployment_id : Bytes
  pub listeners : Map ℕ
  pub groups : Map Bytes
  pub telemetry : Telemetry
