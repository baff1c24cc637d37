-- ===== src/Tests/Preparing.antt =====
-- The preparation of the sample application's deployment.
use weaver_kube.Base.{
  ◌≤◌, ◌↔◌, All, ℕ, false, ◌==◌, List, [], ◌∷◌, ◌++◌, some, none, codes, bytes_eq, lookup, insert,
  ok, err, plain, if◌then◌else◌, refl, ◌≡◌,
}
use weaver_kube.Config.{KubeConfig}
use weaver_kube.Groups.{ComponentListeners}
use weaver_kube.Manifests.{tool_version}
use weaver_kube.Deploy.{
  Host, app_config_path, choose_build_tool, or_default, fill_defaults, all_listeners,
  check_listeners, check_version_compatibility, prepare,
}
use weaver_kube.Deploy.Ready.{declared, check_listeners_iff, IsReady, prepare-IsReady}
use weaver_kube.Tests.{plain_api, front, http, binaries, app, config}

-- The sample's configuration with nothing set that has a default.
abbrev bare : KubeConfig plain_api
bare = record config { build_tool = []; namespace = []; service_account = []; base_image = [] }

abbrev pub host : Host plain_api ℕ
host = record {
  read_file = λ file.
      if bytes_eq file (codes "/etc/weaver.toml") then ok (codes "toml") else ok (codes "text");
  unmarshal = λ text. ok bare;
  parse_config = λ file text.
      if bytes_eq text (codes "toml") then ok app else err (plain (codes "no application"));
  missing = λ file. false;
  dir = λ file. codes "/etc";
  join_path = λ a b. a ++ (codes "/" ++ b);
  is_abs = λ file. false;
  abs_path = λ file. ok file;
  working_directory = some (codes "/etc");
  relative_path = λ base file. none;
  executable = ok (codes "weaver-kube");
  build_info = some (codes "v1.0.0");
  read_versions = λ file. ok (record { module_version = codes "v0.24"; deployer_version = 24 });
  deployer_version = 24;
  same_version = λ a b. a == b;
  version_text = λ v. codes "0.24.0";
}

abbrev pub ready : KubeConfig plain_api
ready = record config { app_config = codes "/etc/weaver.toml"; base_image = codes "ubuntu:rolling" }

pub prepared : prepare host binaries (codes "/etc/kube.yaml") ≡ ok (app, ready)
unfolding prepare app_config_path bytes_eq check_version_compatibility tool_version
    choose_build_tool all_listeners insert check_listeners lookup fill_defaults or_default
prepared = refl

prepare-IsReady_example : IsReady host binaries (codes "/etc/kube.yaml") app ready
prepare-IsReady_example = prepare-IsReady host binaries (codes "/etc/kube.yaml") app ready prepared

abbrev listed : List ComponentListeners
listed = record { component = front; listeners = http ∷ [] } ∷ []

check_listeners_iff_example :
    (check_listeners (all_listeners listed []) config.listeners ≡ ok tt)
    ↔ All (λ l. 1 ≤ declared l.name listed) config.listeners
check_listeners_iff_example = check_listeners_iff listed config.listeners
