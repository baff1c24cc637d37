-- ===== src/Config.antt =====
-- The configuration types of internal/impl/config.go, and what the deployer passes on of the
-- Kubernetes API and of the application's configuration.
use weaver_kube.Base.{ℕ, Bool, List, Option, Bytes, Map}

-- The types of the Kubernetes API whose values the tool copies and never looks into. `Scaling`
-- holds the fields of a `HorizontalPodAutoscalerSpec` but for `ScaleTargetRef`.
pub record Api : Type 1 where
  pub Resources : Type 0
  pub Scaling : Type 0
  pub Volume : Type 0
  pub VolumeMount : Type 0
  pub Probe : Type 0
  pub NodeAffinity : Type 0
  pub PodAffinity : Type 0
  pub AffinityTerm : Type 0
  pub WeightedTerm : Type 0

-- A preferred pod anti-affinity term: from the configuration, or the one the deployer adds.
pub data Preferred (K : Api) : Type 0 where
  given : K.WeightedTerm → Preferred K
  spread : (weight : ℕ) → (match_labels : Map Bytes) → (topology_key : Bytes) → Preferred K

pub record PodAntiAffinity (K : Api) : Type 0 where
  pub required : List K.AffinityTerm
  pub preferred : List (Preferred K)

pub record Affinity (K : Api) : Type 0 where
  pub node_affinity : Option K.NodeAffinity
  pub pod_affinity : Option K.PodAffinity
  pub pod_anti_affinity : Option (PodAntiAffinity K)

pub record ListenerSpec : Type 0 where
  pub name : Bytes
  pub service_name : Bytes
  pub public : Bool
  pub port : ℕ

pub record Probes (K : Api) : Type 0 where
  pub readiness_probe : Option K.Probe
  pub liveness_probe : Option K.Probe
  pub startup_probe : Option K.Probe

pub record VolumeSpecs (K : Api) : Type 0 where
  pub volumes : List K.Volume
  pub volume_mounts : List K.VolumeMount

pub record Listener : Type 0 where
  pub name : Bytes
  pub service_name : Bytes
  pub port : ℕ
  pub public : Bool

pub record Group (K : Api) : Type 0 where
  pub name : Bytes
  pub components : List Bytes
  pub storage_spec : VolumeSpecs K
  pub resource_spec : Option K.Resources
  pub scaling_spec : Option K.Scaling
  pub listeners : List Listener

pub record MetricOpts : Type 0 where
  pub generated : Bool
  pub export_interval : Bytes

pub record TelemetrySpec : Type 0 where
  pub metrics : MetricOpts

pub record KubeConfig (K : Api) : Type 0 where
  pub app_config : Bytes
  pub base_image : Bytes
  pub image : Bytes
  pub build_tool : Bytes
  pub repo : Bytes
  pub namespace : Bytes
  pub service_account : Bytes
  pub use_host_network : Bool
  pub listeners : List ListenerSpec
  pub resource_spec : Option K.Resources
  pub scaling_spec : Option K.Scaling
  pub affinity_spec : Option (Affinity K)
  pub storage_spec : VolumeSpecs K
  pub probe_spec : Probes K
  pub groups : List (Group K)
  pub telemetry : TelemetrySpec

-- The two fields of the application's configuration that the tool reads.
pub record AppConfig : Type 0 where
  pub name : Bytes
  pub binary : Bytes

pub record Deployment (K : Api) : Type 0 where
  pub deployment_id : Bytes
  pub image : Bytes
  pub config : KubeConfig K
  pub app : AppConfig
  pub groups : List (Group K)
