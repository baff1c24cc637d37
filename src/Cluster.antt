-- ===== src/Cluster.antt =====
-- The deployed application in its cluster: what the file that `Deploy` wrote (internal/impl/deploy.go,
-- internal/impl/kube.go) and the babysitters that run in its pods (internal/impl/babysitter.go) do
-- together.
pub mod Objects
pub mod Hosting
pub mod Routes
pub mod Calls
use mathlib.Core.List.{Memᴰ}
use weaver_kube.Base.{
  int32_text, ◌≤◌, List, [], ◌∷◌, map, true, some, Bytes, codes, Map, lookup, count, ok, ◌≡◌,
}
use weaver_kube.Names.{Extern}
use weaver_kube.Config.{Listener, Api, Group, AppConfig}
use weaver_kube.Resources.{KubeService, KubeDeployment, Meta, Container, mount}
use weaver_kube.Tool.Mounts.{has_volume}
use weaver_kube.Resources.Builders.{name_label}
use weaver_kube.Babysitter.{BabysitterConfig}
use weaver_kube.Babysitter.Handlers.{get_listener_address}
use weaver_kube.Babysitter.Claim.{label_selector, pod_selector}
use weaver_kube.Manifests.{
  service, Tools, Resource, PolicyRule, role, role_binding, config_map, deployment,
}
use weaver_kube.Manifests.Documents.{service_comment, deployment_comment}
use weaver_kube.Manifests.Contents.{HasDocument}

-- A rule that lets its subjects list and watch pods.
abbrev pub LetsWatch : PolicyRule → Type 0
LetsWatch rule =
    (1 ≤ count [] rule.api_groups)
    × (1 ≤ count (codes "pods") rule.resources)
    × (1 ≤ count (codes "list") rule.verbs)
    × (1 ≤ count (codes "watch") rule.verbs)

-- The role and its binding let a service account of a namespace watch the pods there.
abbrev pub MayWatch : {K : Api} → Resource K → Resource K → Bytes → Bytes → Type 0
MayWatch (role name place rules) (role_binding name' place' role_name subjects) namespace account =
    (place ≡ namespace)
    × (place' ≡ namespace)
    × (role_name ≡ name)
    × ((rule : PolicyRule) × Memᴰ rule rules × LetsWatch rule)
    × Memᴰ (record { kind = codes "ServiceAccount"; name = account; namespace = namespace })
        subjects
MayWatch _ _ namespace account = ⊥

-- The contents of a ConfigMap: the two configurations, the texts of both, and its object.
pub record Settings : Type 0 where
  pub config : BabysitterConfig
  pub config_textpb : Bytes
  pub weaver_toml : Bytes
  pub meta : Meta
  pub entries : Map Bytes

module _ {K : Api} where
  -- The configurations that a ConfigMap has for all pods: the application's, in which nothing is
  -- changed, and the babysitters'.
  pub record IsConfigured (t : Tools K) (source text : Bytes) (settings : Settings) : Type 0 where
    pub toml_read : t.read_file source ≡ ok settings.weaver_toml
    pub toml_kept : lookup (codes "weaver.toml") settings.entries ≡ some settings.weaver_toml
    pub config_written : t.textpb settings.config ≡ ok settings.config_textpb
    pub config_kept : lookup (codes "config.textpb") settings.entries ≡ some settings.config_textpb
    pub configured :
        HasDocument t text (codes "Configuration") (config_map settings.meta settings.entries)

  -- What the file has for a component: the Deployment of a group with it, whose one container runs
  -- the babysitter of the group's components and mounts the ConfigMap; the entry of the
  -- configuration by which every babysitter finds the pods of this Deployment; and the permission
  -- for the babysitters in the Deployment's pods to watch pods.
  pub record IsHosted (t : Tools K) (c : Extern) (app : AppConfig) (text : Bytes)
      (settings : Settings) (x : Bytes) : Type 0 where
    pub group : Group K
    pub dep : KubeDeployment K
    pub container : Container K
    pub pods_role : Resource K
    pub pods_binding : Resource K
    pub inside : 1 ≤ count x group.components
    pub only : dep.containers ≡ container ∷ []
    pub runs :
        container.args
        ≡ codes "babysitter"
          ∷ codes "/weaver/weaver.toml"
          ∷ codes "/weaver/config.textpb"
          ∷ group.components
    pub toml_mounted :
        Memᴰ
          (mount (codes "config") (codes "/weaver/weaver.toml") (codes "weaver.toml"))
          container.volume_mounts
    pub config_mounted :
        Memᴰ
          (mount (codes "config") (codes "/weaver/config.textpb") (codes "config.textpb"))
          container.volume_mounts
    pub volume : has_volume (codes "config") settings.meta.name dep.volumes ≡ true
    pub deployed : HasDocument t text (deployment_comment group) (deployment dep)
    pub selected : pod_selector c app settings.config x ≡ ok (label_selector dep.meta.name)
    pub labelled : lookup name_label dep.pod_labels ≡ some dep.meta.name
    pub permitted : MayWatch pods_role pods_binding dep.pod_namespace dep.service_account_name
    pub role_there : HasDocument t text (codes "Roles.") pods_role
    pub binding_there : HasDocument t text (codes "Role Bindings.") pods_binding
    pub watches_there : settings.config.namespace ≡ dep.pod_namespace

  -- What the file has for a listener of the components: a Service, which forwards to the port on
  -- which a babysitter lets a component with a listener of this name listen, in the pods of the
  -- Deployment of a group that has such a component.
  pub record IsServed (t : Tools K) (components : Map (List Bytes)) (text : Bytes)
      (settings : Settings) (x : Bytes) : Type 0 where
    pub group : Group K
    pub listener : Listener
    pub owner : Bytes
    pub owned : List Bytes
    pub svc : KubeService
    pub dep : KubeDeployment K
    pub owns : Memᴰ (owner, owned) components
    pub listed : 1 ≤ count x owned
    pub held : 1 ≤ count owner group.components
    pub runs :
        map (λ k. k.args) dep.containers
        ≡ (codes "babysitter"
            ∷ codes "/weaver/weaver.toml"
            ∷ codes "/weaver/config.textpb"
            ∷ group.components)
          ∷ []
    pub inside : Memᴰ listener group.listeners
    pub called : x ≡ listener.name
    pub service_there : HasDocument t text (service_comment group) (service svc)
    pub deployed : HasDocument t text (deployment_comment group) (deployment dep)
    pub listens : get_listener_address settings.config x ≡ ok (58 ∷ int32_text svc.target_port)
    pub selects : svc.selector ≡ (name_label, dep.meta.name) ∷ []
    pub labelled : lookup name_label dep.pod_labels ≡ some dep.meta.name
