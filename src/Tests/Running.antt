-- ===== src/Tests/Running.antt =====
-- `Deploy` on the sample application.
use weaver_kube.Base.{ℕ, Bytes, codes, bytes_eq, ok, refl, ◌≡◌, arith}
use weaver_kube.Names.{first8}
use weaver_kube.Manifests.{generate_yamls, tool_version}
use weaver_kube.Manifests.Documents.Total.{Works, generate_yamls_total}
use weaver_kube.Images.{
  image_name, copy_file, choose_install, docker_content, fill_work_dir, build_command, build_image,
  push_image, build_and_upload,
}
use weaver_kube.Deploy.Whole.{deploy, docker_options}
use weaver_kube.Tests.{
  fixed_extern, fixed_extern-IsExtern, in_order, binaries, sample_components, app, deployment_id,
  components_read,
}
use weaver_kube.Tests.Preparing.{host, ready, prepared}
use weaver_kube.Tests.Shipping.{machine}
use weaver_kube.Tests.Deploying.{tools}

ready-Works : Works tools ready.app_config ready.telemetry.metrics.export_interval
ready-Works = record {
  yaml = λ r. (_, refl);
  textpb = λ b. (_, refl);
  duration = (_, refl);
  config_file = (_, refl);
  version = (_, refl);
  executes = λ h. (_, refl);
  opens = λ f. (_, refl);
  writes = λ f w. (_, refl);
}

pub written :
    (r : (Bytes × Bytes) × ℕ) × (generate_yamls tools fixed_extern binaries in_order app ready
        deployment_id
        (codes "app:12345678")
        20000
      ≡ ok r)
written =
    generate_yamls_total tools fixed_extern binaries in_order app ready deployment_id
      (codes "app:12345678") 20000 sample_components fixed_extern-IsExtern components_read
      (omega arith) ready-Works

delivered :
    (build_and_upload machine app deployment_id (docker_options ready)).1
    ≡ ok (codes "app:12345678")
unfolding build_and_upload build_image build_command image_name first8 fill_work_dir copy_file
    tool_version choose_install docker_content push_image bytes_eq
delivered = refl

pub deployed :
    (deploy host machine tools fixed_extern binaries in_order
      (codes "/etc/kube.yaml")
      deployment_id
      20000).1
    ≡ ok written.0
unfolding deploy
deployed = rw prepared (rw delivered written.1)
