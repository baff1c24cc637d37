-- ===== src/Tests/Hosted.antt =====
-- The file of the sample application.
use weaver_kube.Base.{◌++◌, Bytes, codes, All, ok, ◌≡◌}
use weaver_kube.Names.{first8}
use weaver_kube.Config.{Deployment}
use weaver_kube.Groups.{new_deployment}
use weaver_kube.Manifests.File.{IsFile, generate_yamls-IsFile}
use weaver_kube.Cluster.{Settings, IsConfigured, IsHosted, IsServed}
use weaver_kube.Cluster.Hosting.{deploy-IsHosted}
use weaver_kube.Tests.{
  plain_api, fixed_extern, fixed_extern-IsExtern, in_order, in_order-IsMapOrder, binaries,
  sample_components, app, deployment_id, components_read,
}
use weaver_kube.Tests.Deploying.{tools}
use weaver_kube.Tests.Preparing.{host, ready, prepared}
use weaver_kube.Tests.Running.{written, deployed}
use weaver_kube.Tests.Shipping.{machine}

generate_yamls-IsFile_example :
    (d : Deployment plain_api) × (new_deployment binaries in_order app ready deployment_id
        (codes "app:12345678")
        20000
      ≡ ok (d, written.0.1))
    × (version : Bytes) × (first8 deployment_id ≡ ok version)
    × (written.0.0.0 ≡ tools.temp_file (codes "kube_" ++ (version ++ codes ".yaml")))
    × IsFile tools fixed_extern d written.0.0.0 written.0.0.1
generate_yamls-IsFile_example =
    generate_yamls-IsFile tools fixed_extern binaries in_order app ready deployment_id
      (codes "app:12345678") 20000 written.0.0.0 written.0.0.1 written.0.1 written.1

deploy-IsHosted_example :
    (settings : Settings) × IsConfigured tools ready.app_config written.0.0.1 settings
    × All
        (λ (x, names).
          IsHosted tools fixed_extern app written.0.0.1 settings x
          × All (IsServed tools sample_components written.0.0.1 settings) names)
        sample_components
deploy-IsHosted_example =
    deploy-IsHosted host machine tools fixed_extern binaries in_order (codes "/etc/kube.yaml")
      deployment_id 20000 app ready written.0 sample_components fixed_extern-IsExtern
      in_order-IsMapOrder prepared deployed components_read
