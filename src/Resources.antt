-- ===== src/Resources.antt =====
-- The Kubernetes objects that internal/impl/kube.go builds for a group, field by field. A field
-- that the program does not set has no field here.
pub mod Builders
pub mod Agreement
pub mod Overrides
use weaver_kube.Base.{ℕ, Bool, List, Option, Bytes, Map}
use weaver_kube.Config.{Api, Affinity}

pub record Meta : Type 0 where
  pub name : Bytes
  pub namespace : Bytes
  pub labels : Map Bytes
  pub annotations : Map Bytes

pub record ContainerPort : Type 0 where
  pub name : Bytes
  pub container_port : ℕ

pub data Mount (K : Api) : Type 0 where
  given_mount : K.VolumeMount → Mount K
  mount : (name mount_path sub_path : Bytes) → Mount K

pub data PodVolume (K : Api) : Type 0 where
  given_volume : K.Volume → PodVolume K
  config_map_volume : (name config_map : Bytes) → PodVolume K

pub record Container (K : Api) : Type 0 where
  pub name : Bytes
  pub image : Bytes
  pub image_pull_policy : Bytes
  pub args : List Bytes
  pub ports : List ContainerPort
  pub volume_mounts : List (Mount K)
  pub resources : Option K.Resources
  pub readiness_probe : Option K.Probe
  pub liveness_probe : Option K.Probe
  pub startup_probe : Option K.Probe
  pub tty : Bool
  pub stdin : Bool

-- `appsv1.Deployment`
pub record KubeDeployment (K : Api) : Type 0 where
  pub meta : Meta
  pub match_labels : Map Bytes
  pub pod_labels : Map Bytes
  pub pod_namespace : Bytes
  pub pod_annotations : Map Bytes
  pub service_account_name : Bytes
  pub containers : List (Container K)
  pub dns_policy : Bytes
  pub host_network : Bool
  pub affinity : Affinity K
  pub volumes : List (PodVolume K)

-- `corev1.Service` with its one port.
pub record KubeService : Type 0 where
  pub meta : Meta
  pub type : Bytes
  pub selector : Map Bytes
  pub port : ℕ
  pub protocol : Bytes
  pub target_port : ℕ

-- The fields of a `HorizontalPodAutoscalerSpec` but for `ScaleTargetRef`: given in the
-- configuration, or the default of a scaling by the CPU's average utilization.
pub data ScalingFields (K : Api) : Type 0 where
  given_scaling : K.Scaling → ScalingFields K
  cpu_scaling : (min_replicas max_replicas average_utilization : ℕ) → ScalingFields K

-- `CrossVersionObjectReference`
pub record TargetRef : Type 0 where
  pub api_version : Bytes
  pub kind : Bytes
  pub name : Bytes

pub record KubeAutoscaler (K : Api) : Type 0 where
  pub meta : Meta
  pub scale_target_ref : TargetRef
  pub fields : ScalingFields K
