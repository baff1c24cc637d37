-- ===== src/Resources/Builders.antt =====
-- `buildDeployment`, `buildListenerService`, `buildAutoscaler`, `buildContainer` and
-- `updateAffinitySpec` of internal/impl/kube.go.
use weaver_kube.Base.{
  or_else, ℕ, true, List, [], ◌∷◌, ◌++◌, map, Option, none, some, if◌then◌else◌, Bytes, codes, join,
  Map, Outcome, ok, ◌>>=◌,
}
use weaver_kube.Names.{Extern, first8, quote, deployment_name, config_map_name}
use weaver_kube.Config.{Api, Affinity, PodAntiAffinity, spread, Listener, Group, Deployment}
use weaver_kube.Resources.{
  ContainerPort, given_mount, mount, given_volume, config_map_volume, Container, KubeDeployment,
  KubeService, ScalingFields, given_scaling, cpu_scaling, KubeAutoscaler,
}

abbrev pub name_label : Bytes
name_label = codes "serviceweaver/name"

abbrev pub app_label : Bytes
app_label = codes "serviceweaver/app"

abbrev pub version_label : Bytes
version_label = codes "serviceweaver/version"

abbrev pub listener_label : Bytes
listener_label = codes "serviceweaver/listener"

abbrev service_port : ℕ
service_port = 80

container_ports : List Listener → List ContainerPort
container_ports = map (λ l. record { name = l.name; container_port = l.port })

module _ {K : Api} where
  -- The affinity of the configuration, if any, with the rule that spreads the replicas.
  add_affinity : PodAntiAffinity K → Option (PodAntiAffinity K) → PodAntiAffinity K
  add_affinity updated none = updated
  add_affinity updated (some anti) = record {
    required = anti.required;
    preferred = updated.preferred ++ anti.preferred;
  }

  unfoldable pub update_affinity_spec : Option (Affinity K) → Map Bytes → Affinity K
  unfolding add_affinity
  update_affinity_spec spec labels =
      let updated : PodAntiAffinity K = record {
        required = [];
        preferred = spread 100 labels (codes "kubernetes.io/hostname") ∷ [];
      } in
      elim spec [
        | none ↦ record {
          node_affinity = none;
          pod_affinity = none;
          pod_anti_affinity = some updated;
        }
        | some a ↦ record {
          node_affinity = a.node_affinity;
          pod_affinity = a.pod_affinity;
          pod_anti_affinity = some (add_affinity updated a.pod_anti_affinity);
        }
      ]

  unfoldable pub build_container : Deployment K → Group K → Container K
  unfolding container_ports
  build_container d g = record {
    name = codes "serviceweaver";
    image = d.image;
    image_pull_policy = codes "IfNotPresent";
    args =
        (codes "babysitter" ∷ codes "/weaver/weaver.toml" ∷ codes "/weaver/config.textpb" ∷ [])
        ++ g.components;
    ports = container_ports g.listeners;
    volume_mounts =
        ((mount (codes "config") (codes "/weaver/weaver.toml") (codes "weaver.toml")
            ∷ mount (codes "config") (codes "/weaver/config.textpb") (codes "config.textpb")
            ∷ [])
          ++ map given_mount d.config.storage_spec.volume_mounts)
        ++ map given_mount g.storage_spec.volume_mounts;
    resources = or_else g.resource_spec d.config.resource_spec;
    readiness_probe = d.config.probe_spec.readiness_probe;
    liveness_probe = d.config.probe_spec.liveness_probe;
    startup_probe = d.config.probe_spec.startup_probe;
    tty = true;
    stdin = true;
  }

  -- The Deployment for its name, the version and the name of the ConfigMap.
  unfoldable pub deployment_object :
      Deployment K → Group K → Bytes → Bytes → Bytes → KubeDeployment K
  deployment_object d g name version config_map =
      let match_labels : Map Bytes = (name_label, name) ∷ [] in
      let hosts = join g.components (codes ", ") ++ codes "." in
      record {
        meta = record {
          name = name;
          namespace = d.config.namespace;
          labels = (app_label, d.app.name) ∷ (version_label, version) ∷ [];
          annotations =
              (codes "description", codes "This Deployment hosts components " ++ hosts) ∷ [];
        };
        match_labels = match_labels;
        pod_labels = (name_label, name) ∷ (app_label, d.app.name) ∷ (version_label, version) ∷ [];
        pod_namespace = d.config.namespace;
        pod_annotations = (codes "description", codes "This Pod hosts components " ++ hosts) ∷ [];
        service_account_name = d.config.service_account;
        containers = build_container d g ∷ [];
        dns_policy =
            if d.config.use_host_network
            then codes "ClusterFirstWithHostNet"
            else codes "ClusterFirst";
        host_network = d.config.use_host_network;
        affinity = update_affinity_spec d.config.affinity_spec match_labels;
        volumes =
            ((config_map_volume (codes "config") config_map ∷ [])
              ++ map given_volume d.config.storage_spec.volumes)
            ++ map given_volume g.storage_spec.volumes;
      }

  unfoldable pub build_deployment : Extern → Deployment K → Group K → Outcome (KubeDeployment K)
  unfolding deployment_object
  build_deployment c d g = do
    name ← deployment_name c d.app.name g.name d.deployment_id
    version ← first8 d.deployment_id
    config_map ← config_map_name d.deployment_id
    ok (deployment_object d g name version config_map)

  unfoldable pub service_object : Extern → Deployment K → Listener → Bytes → Bytes → KubeService
  service_object c d lis version name = record {
    meta = record {
      name = lis.service_name;
      namespace = d.config.namespace;
      labels = (app_label, d.app.name) ∷ (listener_label, lis.name) ∷ (version_label, version) ∷ [];
      annotations =
          (
            codes "description",
            codes "This Service forwards traffic to the "
                ++ (quote c lis.name ++ codes " listener."),
          )
          ∷ [];
    };
    type = if lis.public then codes "LoadBalancer" else codes "ClusterIP";
    selector = (name_label, name) ∷ [];
    port = service_port;
    protocol = codes "TCP";
    target_port = lis.port;
  }

  unfoldable pub build_listener_service :
      Extern → Deployment K → Group K → Listener → Outcome KubeService
  unfolding service_object
  build_listener_service c d g lis = do
    version ← first8 d.deployment_id
    name ← deployment_name c d.app.name g.name d.deployment_id
    ok (service_object c d lis version name)

  unfoldable pub scaling_fields : Option K.Scaling → Option K.Scaling → ScalingFields K
  scaling_fields (some spec) o = given_scaling spec
  scaling_fields none (some spec) = given_scaling spec
  scaling_fields none none = cpu_scaling 1 10 80

  unfoldable pub autoscaler_object :
      Extern → Deployment K → Group K → Bytes → Bytes → KubeAutoscaler K
  unfolding scaling_fields
  autoscaler_object c d g name version = record {
    meta = record {
      name = name;
      namespace = d.config.namespace;
      labels = (app_label, d.app.name) ∷ (version_label, version) ∷ [];
      annotations =
          (
            codes "description",
            codes "This HorizontalPodAutoscaler scales the "
                ++ (quote c name ++ codes " Deployment."),
          )
          ∷ [];
    };
    scale_target_ref = record {
      api_version = codes "apps/v1";
      kind = codes "Deployment";
      name = name;
    };
    fields = scaling_fields g.scaling_spec d.config.scaling_spec;
  }

  unfoldable pub build_autoscaler : Extern → Deployment K → Group K → Outcome (KubeAutoscaler K)
  unfolding autoscaler_object
  build_autoscaler c d g = do
    name ← deployment_name c d.app.name g.name d.deployment_id
    version ← first8 d.deployment_id
    ok (autoscaler_object c d g name version)
