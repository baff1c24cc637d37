-- ===== src/Tool/Mounts.antt =====
-- The files of the ConfigMap in a pod of a group's Deployment, as `buildContainer` and
-- `generateConfigMap` of internal/impl/kube.go arrange them.
use mathlib.Core.Path.{subst}
use weaver_kube.Base.{
  Bool, true, false, ◌&&◌, ◌||◌, List, [], ◌∷◌, map, Option, none, some, Bytes, codes, bytes_eq,
  bytes_eq_refl, Map, lookup, All, ok, ok-injective, ◌≡◌, refl, sym, ap, ◌∙◌,
}
use weaver_kube.Names.{Extern, config_map_name}
use weaver_kube.Config.{Api, Group, Deployment}
use weaver_kube.Resources.{
  Mount, given_mount, mount, PodVolume, given_volume, config_map_volume, KubeDeployment,
}
use weaver_kube.Resources.Builders.{build_container, deployment_object, build_deployment}
use weaver_kube.Resources.Agreement.{deployment-eq-ok}
use weaver_kube.Manifests.{Resource, config_map, config_map_object}
use weaver_kube.Tool.{PodHost}

-- A volume of this name that holds the ConfigMap `source`.
abbrev pub has_volume : {K : Api} → Bytes → Bytes → List (PodVolume K) → Bool
has_volume name source [] = false
has_volume name source (given_volume v ∷ vs) = has_volume name source vs
has_volume name source (config_map_volume n m ∷ vs) =
    (bytes_eq n name && bytes_eq m source) || has_volume name source vs

-- A file with the text, if there is one.
abbrev pub Holds : PodHost → Bytes → Option Bytes → Type 0
Holds h path none = Unit
Holds h path (some text) = h.read_file path ≡ ok text

abbrev pub HoldsIf : PodHost → Bool → Bytes → Option Bytes → Type 0
HoldsIf h true path text = Holds h path text
HoldsIf h false path text = Unit

module _ {K : Api} (h : PodHost) where
  -- Kubernetes documents that a mount with a sub path of a volume that holds a ConfigMap puts the
  -- value of the sub path's key at the mount path.
  abbrev pub IsMount : Bytes → Map Bytes → List (PodVolume K) → Mount K → Type 0
  IsMount source entries volumes (given_mount m) = Unit
  IsMount source entries volumes (mount name path key) =
      HoldsIf h (has_volume name source volumes) path (lookup key entries)

  -- The files of a pod of the Deployment, as far as they come from this ConfigMap.
  abbrev pub IsPodOf : KubeDeployment K → Resource K → Type 0
  IsPodOf dep (config_map meta entries) =
      All (λ k. All (IsMount meta.name entries dep.volumes) k.volume_mounts) dep.containers
  IsPodOf dep _ = ⊥

  -- The first two mounts of the container, in a pod of the Deployment's object.
  files_of_object :
      (c : Extern) (d : Deployment K) (g : Group K) (name version source label toml text : Bytes)
      → IsPodOf
          (deployment_object d g name version source)
          (config_map_object c d source label toml text)
      → (h.read_file (codes "/weaver/weaver.toml") ≡ ok toml)
        × (h.read_file (codes "/weaver/config.textpb") ≡ ok text)
  unfolding deployment_object build_container config_map_object lookup bytes_eq
  files_of_object c d g name version source label toml text pod =
      let ((first, (second, _)), _) = rw (bytes_eq_refl source) at pod in (first, second)

  args_of_object :
      (d : Deployment K) (g : Group K) (name version source : Bytes)
      → map (λ k. k.args) (deployment_object d g name version source).containers
        ≡ (codes "babysitter"
            ∷ codes "/weaver/weaver.toml"
            ∷ codes "/weaver/config.textpb"
            ∷ g.components)
          ∷ []
  unfolding deployment_object build_container
  args_of_object d g name version source = refl

  pub config_files :
      (c : Extern) (d : Deployment K) (g : Group K) (dep : KubeDeployment K)
      (name label toml text : Bytes)
      → build_deployment c d g ≡ ok dep
      → config_map_name d.deployment_id ≡ ok name
      → IsPodOf dep (config_map_object c d name label toml text)
      → (h.read_file (codes "/weaver/weaver.toml") ≡ ok toml)
        × (h.read_file (codes "/weaver/config.textpb") ≡ ok text)
        × (map (λ k. k.args) dep.containers
            ≡ (codes "babysitter"
                ∷ codes "/weaver/weaver.toml"
                ∷ codes "/weaver/config.textpb"
                ∷ g.components)
              ∷ [])
  config_files c d g dep name label toml text built named pod =
      let (object, version, source, _, mapped, same) = deployment-eq-ok c d g dep built in
      let agree : source ≡ name = ok-injective (sym mapped ∙ named) in
      let here : deployment_object d g object version name ≡ dep =
        ap (deployment_object d g object version) (sym agree) ∙ same in
      let (first, second) = files_of_object c d g object version name label toml text (
        subst (λ (x : KubeDeployment K). IsPodOf x (config_map_object c d name label toml text))
          (sym here) pod) in
      (
        first,
        second,
        ap (λ (x : KubeDeployment K). map (λ k. k.args) x.containers) (sym here)
            ∙ args_of_object d g object version name,
      )
