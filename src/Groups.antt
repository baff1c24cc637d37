-- ===== src/Groups.antt =====
-- `readComponentsAndListeners` and `newDeployment` of internal/impl/kube.go: how the components
-- of a binary are put into groups.
pub mod Members
pub mod Assigned
pub mod Formed
pub mod Sorted
pub mod Steps
pub mod Partition
pub mod Listened
pub mod Owners
pub mod Specs
pub mod PortRange
pub mod Total
pub mod View
use weaver_kube.Base.{
  ℕ, Bool, true, false, List, [], ◌∷◌, ◌++◌, map, Option, none, some, if◌then◌else◌, Bytes,
  bytes_lt, Map, lookup, insert, MapOrder, Outcome, ok, ◌>>=◌,
}
use weaver_kube.Config.{
  Api, Listener, ListenerSpec, VolumeSpecs, Group, KubeConfig, AppConfig, Deployment,
}
use weaver_kube.Listeners.{new_listeners}

-- A component and the listeners that the binary declares for it.
pub record ComponentListeners : Type 0 where
  pub component : Bytes
  pub listeners : List Bytes

-- What `bin.ReadComponentGraph` and `bin.ReadListeners` read from a binary.
pub record Binaries : Type 0 where
  pub read_component_graph : Bytes → Outcome (List Bytes)
  pub read_listeners : Bytes → Outcome (List ComponentListeners)

add_names : List Bytes → Map (List Bytes) → Map (List Bytes)
add_names [] m = m
add_names (name ∷ names) m = add_names names (insert name [] m)

add_listeners : List ComponentListeners → Map (List Bytes) → Map (List Bytes)
add_listeners [] m = m
add_listeners (l ∷ ls) m = add_listeners ls (insert l.component l.listeners m)

unfoldable pub read_components_and_listeners : Binaries → Bytes → Outcome (Map (List Bytes))
unfolding add_names add_listeners
read_components_and_listeners bin binary = do
  names ← bin.read_component_graph binary
  ls ← bin.read_listeners binary
  ok (add_listeners ls (add_names names []))

module _ {K : Api} where
  -- The group of the configuration that each component is in: the last one that lists it.
  assign_components : Group K → List Bytes → Map (Group K) → Map (Group K)
  assign_components g [] m = m
  assign_components g (c ∷ cs) m = assign_components g cs (insert c g m)

  assign_groups : List (Group K) → Map (Group K) → Map (Group K)
  assign_groups [] m = m
  assign_groups (g ∷ gs) m = assign_groups gs (assign_components g g.components m)

  unfoldable pub configured_groups : List (Group K) → Map (Group K)
  unfolding assign_groups assign_components
  configured_groups gs = assign_groups gs []

  -- `gname`
  unfoldable pub group_name : Option (Group K) → Bytes → Bytes
  group_name none component = component
  group_name (some cgroup) component = cgroup.name

  -- A new group, with the specs of the configured one, which is the zero group if there is none.
  fresh_group : Bytes → Option (Group K) → Group K
  fresh_group name none = record {
    name = name;
    components = [];
    storage_spec = record { volumes = []; volume_mounts = [] };
    resource_spec = none;
    scaling_spec = none;
    listeners = [];
  }
  fresh_group name (some cgroup) = record {
    name = name;
    components = [];
    storage_spec = cgroup.storage_spec;
    resource_spec = cgroup.resource_spec;
    scaling_spec = cgroup.scaling_spec;
    listeners = [];
  }

  group_so_far : Bytes → Option (Group K) → Option (Group K) → Group K
  group_so_far name cgroup none = fresh_group name cgroup
  group_so_far name cgroup (some g) = g

  -- One round of the loop over the components: the group map and `externalPort` before and after.
  unfoldable pub add_component :
      Bytes
      → List ListenerSpec
      → Map (Group K)
      → Bytes × List Bytes
      → Map (Group K) × ℕ
      → Outcome (Map (Group K) × ℕ)
  unfolding group_name fresh_group group_so_far
  add_component deployment_id specs configured (component, names) (by_name, port) =
      let cgroup = lookup component configured in
      let gname = group_name cgroup component in
      let g = group_so_far gname cgroup (lookup gname by_name) in
      do
        (listeners, port') ← new_listeners deployment_id specs names g.listeners port
        let grown : Group K = record g {
          components = g.components ++ component ∷ [];
          listeners = listeners;
        }
        ok (insert gname grown by_name, port')

  unfoldable pub form_groups :
      Bytes
      → List ListenerSpec
      → Map (Group K)
      → Map (List Bytes)
      → Map (Group K) × ℕ
      → Outcome (Map (Group K) × ℕ)
  form_groups deployment_id specs configured [] s = ok s
  form_groups deployment_id specs configured (c ∷ cs) s = do
    s' ← add_component deployment_id specs configured c s
    form_groups deployment_id specs configured cs s'

  -- `sort.Slice` by name. The names differ, so every sorting algorithm gives this list.
  place : Group K → List (Group K) → List (Group K)
  place g [] = g ∷ []
  place g (h ∷ hs) = if bytes_lt h.name g.name then h ∷ place g hs else g ∷ h ∷ hs

  unfoldable pub sort_groups : List (Group K) → List (Group K)
  unfolding place
  sort_groups [] = []
  sort_groups (g ∷ gs) = place g (sort_groups gs)

  -- `maps.Values`
  unfoldable pub values : MapOrder → Map (Group K) → List (Group K)
  values o m = map (λ (name, g). g) (o.iterate (Group K) m)

  -- The deployment, and `externalPort` afterwards.
  unfoldable pub new_deployment :
      Binaries
      → MapOrder
      → AppConfig
      → KubeConfig K
      → Bytes
      → Bytes
      → ℕ
      → Outcome (Deployment K × ℕ)
  new_deployment bin o app cfg deployment_id image port = do
    components ← read_components_and_listeners bin app.binary
    (by_name, port') ←
        form_groups deployment_id cfg.listeners (configured_groups cfg.groups)
          (o.iterate (List Bytes) components) ([], port)
    let d : Deployment K = record {
      deployment_id = deployment_id;
      image = image;
      config = cfg;
      app = app;
      groups = sort_groups (values o by_name);
    }
    ok (d, port')
