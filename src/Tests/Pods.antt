-- ===== src/Tests/Pods.antt =====
-- A pod of the sample application.
use weaver_kube.Base.{
  ℕ, false, List, [], ◌∷◌, ◌++◌, some, if◌then◌else◌, map, Bytes, codes, bytes_eq, lookup, split,
  ok, refl, ◌≡◌, inr,
}
use weaver_kube.Names.{deployment_name, hash8, first8, shorten_component, to_lower, config_map_name}
use weaver_kube.Resources.{KubeDeployment}
use weaver_kube.Resources.Builders.{build_container, deployment_object, build_deployment}
use weaver_kube.Babysitter.Start.{Surroundings, Babysitter, contains}
use weaver_kube.Babysitter.Serve.{ServeState, is_positive}
use weaver_kube.Babysitter.Watch.{replica_url}
use weaver_kube.Manifests.{babysitter_config, config_map_object}
use weaver_kube.Tool.{PodHost, babysitter_command, babysitter_entry, commands}
use weaver_kube.Tool.Pods.{Starts, pod_runs_group}
use weaver_kube.Tool.Mounts.{IsPodOf}
use weaver_kube.Tests.{plain_api, fixed_extern, front, app, shop_group, deployed}
use weaver_kube.Tests.Deploying.{tools}
use weaver_kube.Tests.Serving.{counts}

abbrev pub version_name : Bytes
version_name = codes "config-12345678"

abbrev shop_deployment : KubeDeployment plain_api
shop_deployment =
    deployment_object deployed.0 shop_group (codes "app-shop-12345678-01234567") (codes "12345678")
      version_name

built : build_deployment fixed_extern deployed.0 shop_group ≡ ok shop_deployment
unfolding build_deployment deployment_name hash8 first8 shorten_component to_lower config_map_name
    split
built = refl

abbrev pub pod_host : PodHost
pod_host = record {
  read_file = λ path.
      if bytes_eq path (codes "/weaver/weaver.toml")
      then ok (codes "toml")
      else ok (codes "textpb");
  parse_config = λ file text. ok app;
  unmarshal_textpb = λ text. ok (babysitter_config deployed.0 30);
  base_name = λ path. path;
  missing = λ path. false;
}

mounted : IsPodOf pod_host shop_deployment (
    config_map_object fixed_extern deployed.0 version_name
      (codes "label")
      (codes "toml")
      (codes "textpb"))
unfolding deployment_object build_container config_map_object lookup bytes_eq
mounted = ((refl, (refl, tt)), tt)

abbrev pub cluster : Surroundings
cluster = record {
  new_id = codes "76543210";
  main_component = codes "main";
  new_envelope = λ args app. ok tt;
  in_cluster_config = ok [];
  new_clientset = λ config. ok tt;
  update_components = λ components. ok tt;
}

pub cluster-Starts : Starts cluster
cluster-Starts = record {
  envelope = λ a app. (tt, refl);
  cluster = ([], refl);
  clientset = λ x. (tt, refl);
  update = λ l. (tt, refl);
}

pod_runs_group_example :
    (args : List Bytes) × (b : Babysitter ℕ Bytes Bytes Bytes) × (s : ServeState ℕ Bytes) × (map
        (λ k. k.args)
        shop_deployment.containers
      ≡ (codes "babysitter" ∷ args) ∷ [])
    × (lookup (codes "babysitter") (commands counts) ≡ some (babysitter_entry counts))
    × (babysitter_command pod_host cluster counts 0 args ≡ ok (b, s))
    × (b.cfg ≡ babysitter_config deployed.0 30)
    × (b.app.name ≡ app.name)
    × (b.hosted ≡ front ∷ [])
    × (b.weavelet.run_main ≡ contains (front ∷ []) (codes "main"))
    × ((ip : Bytes) → replica_url ip ≡ codes "tcp://" ++ (ip ++ b.weavelet.internal_address))
unfolding config_map_name first8 is_positive
pod_runs_group_example =
    pod_runs_group cluster tools fixed_extern deployed.0 shop_group shop_deployment pod_host counts
      0 version_name (codes "label") (codes "toml") (codes "textpb") app 30 built (λ e. cc) refl
      refl (λ x e. refl) mounted refl refl cluster-Starts (inr refl)
