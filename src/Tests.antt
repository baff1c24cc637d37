-- ===== src/Tests.antt =====
-- A small application: two components, one of them in a configured group and with a listener.
pub mod Deploying
pub mod Watching
pub mod Preparing
pub mod Shipping
pub mod Running
pub mod Serving
pub mod Pods
pub mod Views
pub mod Echoing
pub mod Hosted
pub mod Calling
use mathlib.Core.List.Perm
use weaver_kube.Base.{
  ℕ, true, false, List, [], ◌∷◌, ◌++◌, Option, none, some, Bytes, codes, bytes_eq, bytes_lt, insert,
  lookup, Map, MapOrder, IsMapOrder, Outcome, ok, refl, ◌≡◌,
}
use weaver_kube.Names.{Extern, IsExtern, first8}
use weaver_kube.Config.{Api, Listener, Group, KubeConfig, AppConfig, Deployment}
use weaver_kube.Groups.{
  Binaries, read_components_and_listeners, new_deployment, form_groups, add_component, sort_groups,
  values, configured_groups,
}
use weaver_kube.Listeners.{new_listeners, new_listener}

abbrev pub plain_api : Api
plain_api = record {
  Resources = Bytes;
  Scaling = Bytes;
  Volume = Bytes;
  VolumeMount = Bytes;
  Probe = Bytes;
  NodeAffinity = Bytes;
  PodAffinity = Bytes;
  AffinityTerm = Bytes;
  WeightedTerm = Bytes;
}

abbrev pub fixed_extern : Extern
fixed_extern = record {
  sha256 = λ s. s;
  uuid_text = λ written text. codes "01234567-89ab-cdef-0123-456789abcdef";
  unicode_lower = λ s. s;
  unicode_quote = λ s. s;
}

pub fixed_extern-IsExtern : IsExtern fixed_extern
fixed_extern-IsExtern = record { length-uuid_text = λ written text. refl }

abbrev pub in_order : MapOrder
in_order = record { iterate = λ V m. m }

pub in_order-IsMapOrder : IsMapOrder in_order
in_order-IsMapOrder = record { iterate_perm = λ V m. Perm.refl m }

abbrev pub front : Bytes
front = codes "front"

abbrev pub store : Bytes
store = codes "store"

abbrev pub shop : Bytes
shop = codes "shop"

abbrev pub http : Bytes
http = codes "http"

abbrev pub binaries : Binaries
binaries = record {
  read_component_graph = λ file. ok (front ∷ store ∷ []);
  read_listeners = λ file. ok (record { component = front; listeners = http ∷ [] } ∷ []);
}

abbrev pub sample_components : Map (List Bytes)
sample_components = (front, http ∷ []) ∷ (store, []) ∷ []

abbrev pub app : AppConfig
app = record { name = codes "app"; binary = codes "bin" }

abbrev pub web_group : Group plain_api
web_group = record {
  name = shop;
  components = front ∷ [];
  storage_spec = record { volumes = []; volume_mounts = [] };
  resource_spec = none;
  scaling_spec = some (codes "two");
  listeners = [];
}

abbrev pub config : KubeConfig plain_api
config = record {
  app_config = codes "weaver.toml";
  base_image = codes "ubuntu";
  image = [];
  build_tool = codes "docker";
  repo = [];
  namespace = codes "default";
  service_account = codes "default";
  use_host_network = false;
  listeners = record { name = http; service_name = []; public = true; port = 0 } ∷ [];
  resource_spec = none;
  scaling_spec = none;
  affinity_spec = none;
  storage_spec = record { volumes = codes "disk" ∷ []; volume_mounts = [] };
  probe_spec = record { readiness_probe = none; liveness_probe = none; startup_probe = none };
  groups = web_group ∷ [];
  telemetry = record { metrics = record { generated = false; export_interval = codes "30s" } };
}

abbrev pub deployment_id : Bytes
deployment_id = codes "12345678-9abc"

abbrev pub listener : Listener
listener = record { name = http; service_name = codes "http-12345678"; port = 20000; public = true }

abbrev pub shop_group : Group plain_api
shop_group = record web_group { listeners = listener ∷ [] }

abbrev pub store_group : Group plain_api
store_group = record {
  name = store;
  components = store ∷ [];
  storage_spec = record { volumes = []; volume_mounts = [] };
  resource_spec = none;
  scaling_spec = none;
  listeners = [];
}

abbrev pub deployed : Deployment plain_api × ℕ
deployed = (
  record {
    deployment_id = deployment_id;
    image = codes "image";
    config = config;
    app = app;
    groups = shop_group ∷ store_group ∷ [];
  },
  20001,
)

pub components_read : read_components_and_listeners binaries app.binary ≡ ok sample_components
unfolding read_components_and_listeners insert bytes_eq
components_read = refl

pub deployed_lem :
    new_deployment binaries in_order app config deployment_id (codes "image") 20000 ≡ ok deployed
unfolding new_deployment read_components_and_listeners form_groups insert lookup bytes_eq
    add_component new_listeners new_listener first8 sort_groups values bytes_lt configured_groups
deployed_lem = refl
