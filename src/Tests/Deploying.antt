-- ===== src/Tests/Deploying.antt =====
-- The deployment of the sample application.
use weaver_kube.Base.{
  ◌⊎◌, ◌≢◌, ◌↔◌, ℕ, ◌+◌, [], ◌∷◌, ◌++◌, map, none, some, Bytes, codes, bytes_eq, lookup, ok, refl,
  ◌≡◌, arith, count, sum_by, length, take, split,
}
use weaver_kube.Names.{
  config_map_name, first8, shorten_component, deployment_name, dashed, to_lower, hash8,
}
use weaver_kube.Names.Total.{deployment_name_total}
use weaver_kube.Names.Distinct.{deployment_name_collision, deployment_name_version}
use weaver_kube.Config.{Deployment}
use weaver_kube.Listeners.{new_listener}
use weaver_kube.Listeners.Options.{new_listener_lem, given_name, first_spec}
use weaver_kube.Listeners.Versions.{service_name_version}
use weaver_kube.Listeners.Ports.{handed_out}
use weaver_kube.Groups.Sorted.{Ascending}
use weaver_kube.Groups.Partition.{new_deployment_partition, new_deployment-Ascending}
use weaver_kube.Groups.PortRange.{new_deployment_ports, listener_count, ports_at}
use weaver_kube.Resources.{
  KubeDeployment, KubeService, KubeAutoscaler, given_volume, config_map_volume, mount,
}
use weaver_kube.Resources.Builders.{name_label}
use weaver_kube.Resources.Agreement.{
  deployment_builds, service_builds, autoscaler_builds, group_agreement,
}
use weaver_kube.Resources.Overrides.{specs_of_group, scaling_or_default}
use weaver_kube.Manifests.{Tools, generate_core_yamls, generate_yamls}
use weaver_kube.Groups.Listened.{new_deployment-listens}
use weaver_kube.Manifests.Lookups.{times_named}
use weaver_kube.Manifests.Documents.{run, core_jobs, generate_core_yamls_lem}
use weaver_kube.Manifests.Documents.Total.{Works, generate_yamls_total}
use weaver_kube.Tests.{
  plain_api, fixed_extern, fixed_extern-IsExtern, in_order, in_order-IsMapOrder, front, http,
  binaries, sample_components, app, config, deployment_id, listener, shop_group, deployed,
  components_read, deployed_lem,
}

abbrev result : Deployment plain_api
result = deployed.0

new_deployment_partition_example : sum_by (λ g. count front g.components) result.groups ≡ 1
unfolding lookup bytes_eq
new_deployment_partition_example =
    new_deployment_partition binaries in_order in_order-IsMapOrder app config deployment_id
      (codes "image") 20000 deployed deployed_lem sample_components components_read front

new_deployment-Ascending_example : Ascending result.groups
new_deployment-Ascending_example =
    new_deployment-Ascending binaries in_order in_order-IsMapOrder app config deployment_id
      (codes "image") 20000 deployed deployed_lem

new_deployment_ports_example :
    (deployed.1 ≡ 20000 + listener_count sample_components)
    × ((q : ℕ) → sum_by (ports_at q) result.groups ≡ handed_out 20000 20001 q)
new_deployment_ports_example =
    new_deployment_ports binaries in_order app config deployment_id (codes "image") 20000 deployed
      sample_components in_order-IsMapOrder deployed_lem components_read (refl, tt) (omega arith)

abbrev shop_deployment : KubeDeployment plain_api
shop_deployment =
    (deployment_builds fixed_extern result shop_group fixed_extern-IsExtern (omega arith)).0

abbrev shop_service : KubeService
shop_service =
    (service_builds fixed_extern result shop_group listener fixed_extern-IsExtern (omega arith)).0

abbrev shop_autoscaler : KubeAutoscaler plain_api
shop_autoscaler =
    (autoscaler_builds fixed_extern result shop_group fixed_extern-IsExtern (omega arith)).0

group_agreement_example :
    (shop_deployment.match_labels ≡ shop_service.selector)
    × (shop_service.selector ≡ (name_label, shop_deployment.meta.name) ∷ [])
    × (lookup name_label shop_deployment.pod_labels ≡ some shop_deployment.meta.name)
    × (shop_autoscaler.scale_target_ref.name ≡ shop_deployment.meta.name)
    × (shop_autoscaler.meta.name ≡ shop_deployment.meta.name)
    × (shop_service.target_port ≡ 20000)
group_agreement_example =
    group_agreement fixed_extern result shop_group listener shop_deployment shop_service
      shop_autoscaler
      (deployment_builds fixed_extern result shop_group fixed_extern-IsExtern (omega arith)).1
      (service_builds fixed_extern result shop_group listener fixed_extern-IsExtern (omega arith)).1
      (autoscaler_builds fixed_extern result shop_group fixed_extern-IsExtern (omega arith)).1

specs_of_group_example :
    (shop_autoscaler.fields ≡ scaling_or_default (some (codes "two")))
    × (map (λ k. k.resources) shop_deployment.containers ≡ none ∷ [])
    × (source : Bytes) × (config_map_name deployment_id ≡ ok source)
    × (shop_deployment.volumes
        ≡ config_map_volume (codes "config") source ∷ map given_volume (codes "disk" ∷ []))
    × (map (λ k. k.volume_mounts) shop_deployment.containers
        ≡ (mount (codes "config") (codes "/weaver/weaver.toml") (codes "weaver.toml")
            ∷ mount (codes "config") (codes "/weaver/config.textpb") (codes "config.textpb")
            ∷ [])
          ∷ [])
specs_of_group_example =
    specs_of_group fixed_extern result shop_group shop_deployment shop_autoscaler
      (deployment_builds fixed_extern result shop_group fixed_extern-IsExtern (omega arith)).1
      (autoscaler_builds fixed_extern result shop_group fixed_extern-IsExtern (omega arith)).1

new_deployment-listens_example :
    times_named http result.groups ≡ sum_by (λ e. count http e.1) sample_components
new_deployment-listens_example =
    new_deployment-listens binaries in_order in_order-IsMapOrder app config deployment_id
      (codes "image") 20000 deployed deployed_lem sample_components components_read http

abbrev pub tools : Tools plain_api
tools = record {
  yaml = λ r. ok (codes "yaml");
  textpb = λ b. ok (codes "textpb");
  parse_duration = λ text. ok 30;
  build_info = some (codes "v1.0.0");
  execute_header = λ h. ok (codes "header");
  read_file = λ file. ok (codes "toml");
  open_file = λ file. ok tt;
  write_file = λ file text. ok tt;
  temp_file = λ name. codes "/tmp/" ++ name;
}

pub tools-Works : Works tools config.app_config config.telemetry.metrics.export_interval
tools-Works = record {
  yaml = λ r. (_, refl);
  textpb = λ b. (_, refl);
  duration = (_, refl);
  config_file = (_, refl);
  version = (_, refl);
  executes = λ h. (_, refl);
  opens = λ f. (_, refl);
  writes = λ f w. (_, refl);
}

generate_yamls_total_example :
    (r : (Bytes × Bytes) × ℕ) × (generate_yamls tools fixed_extern binaries in_order app config
        deployment_id
        (codes "image")
        20000
      ≡ ok r)
generate_yamls_total_example =
    generate_yamls_total tools fixed_extern binaries in_order app config deployment_id
      (codes "image") 20000 sample_components fixed_extern-IsExtern components_read (omega arith)
      tools-Works

generate_core_yamls_lem_example :
    generate_core_yamls tools fixed_extern [] result
    ≡ run tools (core_jobs fixed_extern result result.groups) []
generate_core_yamls_lem_example = generate_core_yamls_lem tools fixed_extern result []

cut : first8 deployment_id ≡ ok (codes "12345678")
unfolding first8
cut = refl

other_cut : first8 (codes "abcdefgh-1") ≡ ok (codes "abcdefgh")
unfolding first8
other_cut = refl

listened :
    (id : Bytes)
    → (version : Bytes) → first8 id ≡ ok version
    → new_listener id config.listeners http 20000
      ≡ ok (record listener { service_name = http ++ (b'-' ∷ version) }, 20001)
unfolding bytes_eq
listened id version h = new_listener_lem id version config.listeners http 20000 h

service_name_version_example :
    ((given_name (first_spec http config.listeners) ≢ [])
      × (codes "http-12345678" ≡ [])
      × (codes "http-abcdefgh" ≡ []))
    ⊎ ((given_name (first_spec http config.listeners) ≡ [])
        × ((codes "http-12345678" ≡ codes "http-abcdefgh") ↔ (codes "12345678" ≡ codes "abcdefgh")))
unfolding bytes_eq
service_name_version_example =
    service_name_version deployment_id (codes "abcdefgh-1") (codes "12345678") (codes "abcdefgh")
      config.listeners http 20000 20000 _ _ cut other_cut
      (listened deployment_id (codes "12345678") cut)
      (listened (codes "abcdefgh-1") (codes "abcdefgh") other_cut)

deployment_name_total_example :
    (short hash : Bytes) × (shorten_component front ≡ ok short)
    × (length hash ≡ 8)
    × (deployment_name fixed_extern (codes "app") front deployment_id
        ≡ ok (dashed (codes "app") (to_lower fixed_extern short) (codes "12345678") hash))
deployment_name_total_example =
    deployment_name_total fixed_extern fixed_extern-IsExtern (codes "app") front deployment_id
      (omega arith)

abbrev ambiguous_name : Bytes
ambiguous_name = codes "a-b-c-12345678-01234567"

named :
    (deployment_name fixed_extern (codes "a") (codes "b-c") deployment_id ≡ ok ambiguous_name)
    × (deployment_name fixed_extern (codes "a-b") (codes "c") deployment_id ≡ ok ambiguous_name)
    × (deployment_name fixed_extern (codes "a-b") (codes "c") (codes "12345678-def")
        ≡ ok ambiguous_name)
unfolding deployment_name hash8 first8 shorten_component to_lower split
named = (refl, refl, refl)

deployment_name_collision_example :
    hash8 fixed_extern (codes "a" ∷ codes "b-c" ∷ deployment_id ∷ [])
    ≡ hash8 fixed_extern (codes "a-b" ∷ codes "c" ∷ deployment_id ∷ [])
deployment_name_collision_example =
    deployment_name_collision fixed_extern (codes "a") (codes "a-b") (codes "b-c") (codes "c")
      deployment_id deployment_id ambiguous_name named.0 named.1

deployment_name_version_example : take 8 deployment_id ≡ take 8 (codes "12345678-def")
deployment_name_version_example =
    deployment_name_version fixed_extern (codes "a-b") (codes "c") deployment_id
      (codes "12345678-def") ambiguous_name named.1 named.2
