-- ===== src/Resources/Overrides.antt =====
-- How the configuration's specs end up in the objects (internal/impl/kube.go).
use weaver_kube.Base.{
  or_else, List, [], ◌∷◌, ◌++◌, map, map-append, Option, none, some, Bytes, codes, Map, ◌≡◌, refl,
  sym, ap, arith, ok,
}
use weaver_kube.Names.{Extern, config_map_name}
use weaver_kube.Config.{Api, Affinity, PodAntiAffinity, Preferred, spread, Group, Deployment}
use weaver_kube.Resources.{
  given_mount, given_volume, config_map_volume, mount, KubeDeployment, ScalingFields, given_scaling,
  cpu_scaling, KubeAutoscaler,
}
use weaver_kube.Resources.Builders.{
  update_affinity_spec, build_container, build_deployment, build_autoscaler, scaling_fields,
  deployment_object, autoscaler_object,
}
use weaver_kube.Resources.Agreement.{deployment-eq-ok, autoscaler-eq-ok}

module _ {K : Api} where
  abbrev pub anti_of : Option (Affinity K) → Option (PodAntiAffinity K)
  anti_of none = none
  anti_of (some a) = a.pod_anti_affinity

  abbrev pub required_of : Option (PodAntiAffinity K) → List K.AffinityTerm
  required_of none = []
  required_of (some a) = a.required

  abbrev pub preferred_of : Option (PodAntiAffinity K) → List (Preferred K)
  preferred_of none = []
  preferred_of (some a) = a.preferred

  abbrev pub node_of : Option (Affinity K) → Option K.NodeAffinity
  node_of none = none
  node_of (some a) = a.node_affinity

  abbrev pub pod_of : Option (Affinity K) → Option K.PodAffinity
  pod_of none = none
  pod_of (some a) = a.pod_affinity

  -- The updated affinity is the configured one, with the rule that spreads the pods of these
  -- labels over the nodes in front of the preferred anti-affinity terms, and nothing else changed.
  pub update_affinity_spec_lem :
      (spec : Option (Affinity K)) (labels : Map Bytes)
      → update_affinity_spec spec labels ≡ record {
        node_affinity = node_of spec;
        pod_affinity = pod_of spec;
        pod_anti_affinity = some (record {
          required = required_of (anti_of spec);
          preferred =
              spread 100 labels (codes "kubernetes.io/hostname") ∷ preferred_of (anti_of spec);
        });
      }
  unfolding update_affinity_spec
  update_affinity_spec_lem spec labels = ground arith

  -- The default scaling, between one and ten replicas at 80% of the CPU.
  abbrev pub scaling_or_default : Option K.Scaling → ScalingFields K
  scaling_or_default none = cpu_scaling 1 10 80
  scaling_or_default (some s) = given_scaling s

  scaling_fields_lem :
      (own shared : Option K.Scaling)
      → scaling_fields own shared ≡ scaling_or_default (or_else own shared)
  unfolding scaling_fields
  scaling_fields_lem (some s) shared = refl
  scaling_fields_lem none (some s) = refl
  scaling_fields_lem none none = refl

  -- When the Deployment and the autoscaler of a group are built, the group's own scaling and
  -- resource specs count before those of the application, and a default scaling counts if there is
  -- neither. The pods' volumes are the ConfigMap's, then those of the application, then the group's;
  -- the container mounts the two files of the ConfigMap, then what the application mounts, then
  -- what the group mounts.
  pub specs_of_group :
      (c : Extern) (d : Deployment K) (g : Group K) (dep : KubeDeployment K)
      (hpa : KubeAutoscaler K)
      → build_deployment c d g ≡ ok dep
      → build_autoscaler c d g ≡ ok hpa
      → (hpa.fields ≡ scaling_or_default (or_else g.scaling_spec d.config.scaling_spec))
        × (map (λ k. k.resources) dep.containers
            ≡ or_else g.resource_spec d.config.resource_spec ∷ [])
        × (source : Bytes) × (config_map_name d.deployment_id ≡ ok source)
        × (dep.volumes
            ≡ config_map_volume (codes "config") source
              ∷ map given_volume (d.config.storage_spec.volumes ++ g.storage_spec.volumes))
        × (map (λ k. k.volume_mounts) dep.containers
            ≡ (mount (codes "config") (codes "/weaver/weaver.toml") (codes "weaver.toml")
                ∷ mount (codes "config") (codes "/weaver/config.textpb") (codes "config.textpb")
                ∷ map given_mount
                    (d.config.storage_spec.volume_mounts ++ g.storage_spec.volume_mounts))
              ∷ [])
  unfolding deployment_object autoscaler_object build_container
  specs_of_group c d g dep hpa e e' =
      let (name, version, config_map, named, mapped, same) = deployment-eq-ok c d g dep e in
      let (name', version', named', same') = autoscaler-eq-ok c d g hpa e' in
      rw (← same, ← same')
        (
          scaling_fields_lem g.scaling_spec d.config.scaling_spec,
          refl,
          config_map,
          mapped,
          ap (λ l. config_map_volume (codes "config") config_map ∷ l)
              (sym (map-append given_volume d.config.storage_spec.volumes g.storage_spec.volumes)),
          ap
              (λ l.
                (mount (codes "config") (codes "/weaver/weaver.toml") (codes "weaver.toml")
                  ∷ mount (codes "config") (codes "/weaver/config.textpb") (codes "config.textpb")
                  ∷ l)
                ∷ [])
              (sym (
                map-append given_mount d.config.storage_spec.volume_mounts
                  g.storage_spec.volume_mounts)),
        )
