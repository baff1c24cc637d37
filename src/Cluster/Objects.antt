-- ===== src/Cluster/Objects.antt =====
-- The objects of a group and of the ConfigMap that internal/impl/kube.go builds, and where they
-- stand in the file of a deployment.
use mathlib.Core.List.{Memᴰ}
use weaver_kube.Base.{
  ℕ, [], ◌∷◌, true, bytes_eq, bytes_eq_refl, some, Bytes, codes, Map, lookup, ok, ok-injective,
  ◌>>=◌, ◌≡◌, refl, sym, ap, ◌∙◌, arith,
}
use weaver_kube.Names.{Extern, config_map_name}
use weaver_kube.Config.{Listener, Api, Group, Deployment}
use weaver_kube.Resources.{KubeService, KubeDeployment, Meta, Container, mount}
use weaver_kube.Tool.Mounts.{has_volume}
use weaver_kube.Resources.Builders.{
  build_listener_service, name_label, build_deployment, deployment_object, build_container,
}
use weaver_kube.Resources.Agreement.{deployment-eq-ok}
use weaver_kube.Manifests.{
  service, Tools, Resource, config_map, deployment, pods_getter_role, pods_getter_binding,
  config_map_object, babysitter_config,
}
use weaver_kube.Manifests.Documents.{
  service_comment, service_of, deployment_comment, deployment_of, core_jobs,
}
use weaver_kube.Manifests.Contents.{
  service-mem-core_jobs, HasDocument, Prints-HasDocument, Built-mem, deployment-mem-core_jobs,
}
use weaver_kube.Manifests.File.{IsFile}
use weaver_kube.Cluster.{MayWatch, Settings, IsConfigured}

pub pods_getter-MayWatch :
    (K : Api) (namespace account : Bytes)
    → MayWatch {K = K}
        (pods_getter_role namespace)
        (pods_getter_binding namespace account)
        namespace
        account
unfolding pods_getter_role pods_getter_binding bytes_eq
pods_getter-MayWatch K namespace account =
    (refl, refl, refl, (_, Memᴰ.head refl, omega arith), Memᴰ.head refl)

module _ {K : Api} where
  pub object_facts :
      (c : Extern) (d : Deployment K) (g : Group K) (dep : KubeDeployment K) (source : Bytes)
      → build_deployment c d g ≡ ok dep
      → config_map_name d.deployment_id ≡ ok source
      → (k : Container K) × (dep.containers ≡ k ∷ [])
        × (k.args
            ≡ codes "babysitter"
              ∷ codes "/weaver/weaver.toml"
              ∷ codes "/weaver/config.textpb"
              ∷ g.components)
        × Memᴰ
            (mount (codes "config") (codes "/weaver/weaver.toml") (codes "weaver.toml"))
            k.volume_mounts
        × Memᴰ
            (mount (codes "config") (codes "/weaver/config.textpb") (codes "config.textpb"))
            k.volume_mounts
        × (has_volume (codes "config") source dep.volumes ≡ true)
        × (dep.pod_namespace ≡ d.config.namespace)
        × (dep.service_account_name ≡ d.config.service_account)
  unfolding deployment_object build_container bytes_eq
  object_facts c d g dep source built mapped =
      let (name, version, found, named, mapped', same) = deployment-eq-ok c d g dep built in
      let agree : found ≡ source = ok-injective (sym mapped' ∙ mapped) in
      rw (← same, agree, bytes_eq_refl source)
        (_, refl, refl, Memᴰ.head refl, Memᴰ.tail (Memᴰ.head refl), refl, refl, refl)

  -- The selector and the labels of a group's Deployment.
  pub object_labels :
      (c : Extern) (d : Deployment K) (g : Group K) (dep : KubeDeployment K)
      → build_deployment c d g ≡ ok dep
      → (dep.match_labels ≡ (name_label, dep.meta.name) ∷ [])
        × (lookup name_label dep.pod_labels ≡ some dep.meta.name)
  unfolding deployment_object lookup bytes_eq
  object_labels c d g dep built =
      let (name, version, found, named, mapped, same) = deployment-eq-ok c d g dep built in
      rw (← same) (refl, refl)

  -- The documents of a file.
  module _ (t : Tools K) (c : Extern) (d : Deployment K) (filename text : Bytes)
      (file : IsFile t c d filename text) where
    pub deployment-HasDocument :
        (g : Group K) (dep : KubeDeployment K)
        → Memᴰ g d.groups
        → build_deployment c d g ≡ ok dep
        → HasDocument t text (deployment_comment g) (deployment dep)
    deployment-HasDocument g dep among built =
        let (r, made, there) =
          Built-mem (deployment_comment g) (deployment_of c d g >>= λ dep. ok (deployment dep))
            (core_jobs c d d.groups) file.documents file.built
            (deployment-mem-core_jobs c d g d.groups among) in
        let same : r ≡ deployment dep = ok-injective (sym made ∙ rw built refl) in
        rw file.whole (
          Prints-HasDocument t _ _ _ file.head file.body file.prints
            (Memᴰ.tail (Memᴰ.tail (Memᴰ.tail (rw same at there)))))

    pub service-HasDocument :
        (g : Group K) (l : Listener) (svc : KubeService)
        → Memᴰ g d.groups
        → Memᴰ l g.listeners
        → build_listener_service c d g l ≡ ok svc
        → HasDocument t text (service_comment g) (service svc)
    service-HasDocument g l svc among in_group built =
        let (r, made, there) =
          Built-mem (service_comment g) (service_of c d g l >>= λ s. ok (service s))
            (core_jobs c d d.groups) file.documents file.built
            (service-mem-core_jobs c d g l d.groups among in_group) in
        let same : r ≡ service svc = ok-injective (sym made ∙ rw built refl) in
        rw file.whole (
          Prints-HasDocument t _ _ _ file.head file.body file.prints
            (Memᴰ.tail (Memᴰ.tail (Memᴰ.tail (rw same at there)))))

    pub given-HasDocument :
        (comment : Bytes) (r : Resource K)
        → Memᴰ
            (comment, r)
            ((codes "Roles.", pods_getter_role d.config.namespace)
              ∷ (
                codes "Role Bindings.",
                pods_getter_binding d.config.namespace d.config.service_account,
              )
              ∷ (
                codes "Configuration",
                config_map_object c d file.config_map_named file.version file.weaver_toml
                    file.config_textpb,
              )
              ∷ file.documents)
        → HasDocument t text comment r
    given-HasDocument comment r there =
        rw file.whole (Prints-HasDocument t comment r _ file.head file.body file.prints there)

  config_map_parts :
      (c : Extern) (d : Deployment K) (name version toml textpb : Bytes)
      → (meta : Meta) × (entries : Map Bytes) × (config_map meta entries
          ≡ config_map_object c d name version toml textpb)
        × (meta.name ≡ name)
        × (lookup (codes "weaver.toml") entries ≡ some toml)
        × (lookup (codes "config.textpb") entries ≡ some textpb)
  unfolding config_map_object lookup bytes_eq
  config_map_parts c d name version toml textpb = (_, _, refl, refl, refl, refl)

  -- The configurations of a file.
  pub settings-IsConfigured :
      (t : Tools K) (c : Extern) (d : Deployment K) (filename text : Bytes)
      (file : IsFile t c d filename text)
      → (settings : Settings) × IsConfigured t d.config.app_config text settings
        × (settings.config ≡ babysitter_config d file.interval)
        × (settings.meta.name ≡ file.config_map_named)
  settings-IsConfigured t c d filename text file =
      let (meta, entries, parts, named, toml, textpb) =
        config_map_parts c d file.config_map_named file.version file.weaver_toml
          file.config_textpb in
      (
        record {
          config = babysitter_config d file.interval;
          config_textpb = file.config_textpb;
          weaver_toml = file.weaver_toml;
          meta = meta;
          entries = entries;
        },
        record {
          toml_read = file.toml_read;
          toml_kept = toml;
          config_written = file.config_written;
          config_kept = textpb;
          configured =
              given-HasDocument t c d filename text file (codes "Configuration")
                (config_map meta entries)
                (Memᴰ.tail (Memᴰ.tail (Memᴰ.head (ap (λ z. (codes "Configuration", z)) parts))));
        },
        refl,
        named,
      )

  pub namespace-babysitter_config :
      (d : Deployment K) (interval : ℕ)
      → (babysitter_config d interval).namespace ≡ d.config.namespace
  unfolding babysitter_config
  namespace-babysitter_config d interval = refl
