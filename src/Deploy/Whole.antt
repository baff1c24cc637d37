-- ===== src/Deploy/Whole.antt =====
-- `Deploy` of internal/impl/deploy.go as a whole: the preparation, the image and the YAML file.
use weaver_kube.Base.{ℕ, List, [], Bytes, MapOrder, Outcome, ok, err, panic, ◌>>=◌, >>=-eq-ok, ◌≡◌}
use weaver_kube.Names.{Extern}
use weaver_kube.Config.{Api, KubeConfig, AppConfig}
use weaver_kube.Groups.{Binaries}
use weaver_kube.Manifests.{Tools, generate_yamls}
use weaver_kube.Images.{DockerOptions, Machine, Logged, build_command, build_and_upload}
use weaver_kube.Images.Commands.{IsDelivered}
use weaver_kube.Deploy.{Host, prepare}
use weaver_kube.Deploy.Ready.{IsReady}

-- `opts`
abbrev pub docker_options : {K : Api} → KubeConfig K → DockerOptions
docker_options cfg = record {
  image = cfg.image;
  repo = cfg.repo;
  base_image = cfg.base_image;
  build_tool = cfg.build_tool;
}

module _ {K : Api} {V : Type 0} (h : Host K V) (m : Machine) (t : Tools K) (c : Extern)
    (bin : Binaries) (o : MapOrder) where
  -- The commands that were run, and the file with its text and the counter of ports.
  abbrev pub Result : Type 0
  Result = List (List Bytes) × Outcome ((Bytes × Bytes) × ℕ)

  generate_with : AppConfig × KubeConfig K → Bytes → ℕ → Logged Bytes → Result
  generate_with (app, cfg) id port (log, image) =
      (log, (image >>= λ name. generate_yamls t c bin o app cfg id name port))

  deploy_prepared : Bytes → ℕ → Outcome (AppConfig × KubeConfig K) → Result
  deploy_prepared id port (ok (app, cfg)) =
      generate_with (app, cfg) id port (build_and_upload m app id (docker_options cfg))
  deploy_prepared id port (err e) = ([], err e)
  deploy_prepared id port (panic text) = ([], panic text)

  -- `id` is the text of the UUID that the call makes.
  unfoldable pub deploy : Bytes → Bytes → ℕ → Result
  unfolding deploy_prepared generate_with
  deploy config_filename id port = deploy_prepared id port (prepare h bin config_filename)

  -- What a deployment that succeeded went through: a complete configuration, an image that was
  -- delivered by exactly the commands that were run, and the file for this image.
  pub record IsDeployed (file id : Bytes) (port : ℕ) (log : List (List Bytes))
      (r : (Bytes × Bytes) × ℕ) : Type 0 where
    pub app : AppConfig
    pub cfg : KubeConfig K
    pub image : Bytes
    pub name : Bytes
    pub build : List Bytes
    pub ready : IsReady h bin file app cfg
    pub built : build_command m app id (docker_options cfg) ≡ ok (name, build)
    pub delivered : IsDelivered m (docker_options cfg) name build log image
    pub written : generate_yamls t c bin o app cfg id image port ≡ ok r

  -- The file of a deployment whose preparation gave an application and a configuration.
  pub written-deploy :
      (config_filename id : Bytes) (port : ℕ) (app : AppConfig) (cfg : KubeConfig K)
      (r : (Bytes × Bytes) × ℕ)
      → prepare h bin config_filename ≡ ok (app, cfg)
      → (deploy config_filename id port).1 ≡ ok r
      → (image : Bytes) × (generate_yamls t c bin o app cfg id image port ≡ ok r)
  unfolding deploy deploy_prepared generate_with
  written-deploy config_filename id port app cfg r prepared e =
      let (image, _, written) =
        >>=-eq-ok (build_and_upload m app id (docker_options cfg)).1 _ (rw prepared at e) in
      (image, written)
