-- ===== src/Tests/Shipping.antt =====
-- The image of the sample application.
use weaver_kube.Base.{false, List, [], ◌++◌, some, Bytes, codes, bytes_eq, ok, refl, ◌≡◌}
use weaver_kube.Names.{first8}
use weaver_kube.Manifests.{tool_version}
use weaver_kube.Images.{
  DockerOptions, DockerContent, Machine, image_name, module_path, copy_file, choose_install,
  docker_content, fill_work_dir, build_command, build_image, push_image, build_and_upload,
}
use weaver_kube.Images.Commands.{IsDelivered, build_and_upload-IsDelivered}
use weaver_kube.Tests.{app, deployment_id}

abbrev pub machine : Machine
machine = record {
  make_temp_dir = ok (codes "/tmp/work");
  base_name = λ path. path;
  join_path = λ a b. a ++ (codes "/" ++ b);
  join_url = λ a b. a ++ (codes "/" ++ b);
  open_file = λ file. ok tt;
  stat_mode = λ file. ok (codes "rwx");
  create_file = λ file. ok tt;
  copy_bytes = λ src dst. ok tt;
  change_mode = λ file mode. ok tt;
  build_info = some (codes "v1.0.0");
  executable = ok (codes "weaver-kube");
  runs_in_container = false;
  answer = [];
  write_dockerfile = λ file content. ok tt;
  run = λ command. ok tt;
}

abbrev options : DockerOptions
options = record {
  image = [];
  repo = codes "docker.io/me";
  base_image = codes "ubuntu";
  build_tool = codes "docker";
}

shipped :
    (build_and_upload machine app deployment_id options).1 ≡ ok (codes "docker.io/me/app:12345678")
unfolding build_and_upload build_image build_command image_name first8 fill_work_dir copy_file
    tool_version choose_install docker_content push_image bytes_eq
shipped = refl

build_and_upload-IsDelivered_example :
    (name : Bytes) × (build : List Bytes) × (build_command machine app deployment_id options
      ≡ ok (name, build))
    × IsDelivered machine options name build
        (build_and_upload machine app deployment_id options).0
        (codes "docker.io/me/app:12345678")
build_and_upload-IsDelivered_example =
    build_and_upload-IsDelivered machine options app deployment_id
      (codes "docker.io/me/app:12345678") shipped

chosen :
    choose_install machine (codes "weaver-kube") (codes "/tmp/work") (codes "v1.0.0") false
    ≡ ok (module_path ++ codes "v1.0.0")
unfolding choose_install
chosen = refl

abbrev content : DockerContent
content =
    docker_content machine (module_path ++ codes "v1.0.0") (codes "weaver-kube") (codes "ubuntu")
