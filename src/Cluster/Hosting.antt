-- ===== src/Cluster/Hosting.antt =====
-- What a file that `Deploy` wrote gives to a component of the application (internal/impl/deploy.go,
-- internal/impl/kube.go, internal/impl/babysitter.go).
use mathlib.Core.List.{Memᴰ}
use mathlib.Core.Path.{subst}
use weaver_kube.Base.{
  count, All, All-lookup, All-count, length, ℕ, ◌≤◌, List, some, Bytes, Map, lookup, MapOrder,
  IsMapOrder, ok, ◌≡◌, refl, sym, ap, ◌∙◌,
}
use weaver_kube.Names.{Extern, IsExtern}
use weaver_kube.Names.Total.{first8-long}
use weaver_kube.Config.{Api, Deployment, KubeConfig, AppConfig}
use weaver_kube.Groups.{new_deployment, Binaries, read_components_and_listeners}
use weaver_kube.Images.{Machine}
use weaver_kube.Manifests.{Tools, pods_getter_role, pods_getter_binding, babysitter_config}
use weaver_kube.Groups.Steps.{read-NodupKeys}
use weaver_kube.Groups.Listened.{listener-listens, count-listener_names}
use weaver_kube.Groups.Owners.{listener_owner}
use weaver_kube.Manifests.Discovery.{every_component_found, listens_where_served}
use weaver_kube.Manifests.Documents.Total.{kept}
use weaver_kube.Manifests.File.{IsFile, generate_yamls-IsFile}
use weaver_kube.Deploy.{Host, prepare}
use weaver_kube.Deploy.Whole.{deploy, written-deploy}
use weaver_kube.Cluster.{Settings, IsConfigured, IsHosted, IsServed}
use weaver_kube.Cluster.Objects.{
  pods_getter-MayWatch, object_facts, deployment-HasDocument, service-HasDocument, object_labels,
  given-HasDocument, settings-IsConfigured, namespace-babysitter_config,
}

module _ {K : Api} where
  -- One component of a deployment whose file is written.
  file-IsHosted :
      (t : Tools K) (c : Extern) (bin : Binaries) (o : MapOrder) (app : AppConfig)
      (cfg : KubeConfig K) (id image : Bytes) (port : ℕ) (d : Deployment K) (port' : ℕ)
      (filename text : Bytes) (components : Map (List Bytes)) (settings : Settings) (x : Bytes)
      (names : List Bytes)
      → IsExtern c
      → IsMapOrder o
      → new_deployment bin o app cfg id image port ≡ ok (d, port')
      → read_components_and_listeners bin app.binary ≡ ok components
      → 8 ≤ length d.deployment_id
      → (file : IsFile t c d filename text) → settings.config ≡ babysitter_config d file.interval
      → settings.meta.name ≡ file.config_map_named
      → lookup x components ≡ some names
      → IsHosted t c d.app text settings x
  file-IsHosted t c bin o app cfg id image port d port' filename text components settings x names
        lawful order made read long file config named has =
      let (g, dep, among, held, built, selected, labelled) =
        every_component_found c lawful bin o app cfg id image port (d, port') components
          file.interval x names order made read long has in
      let (container, only, runs, toml, textpb, volume, place, account) =
        object_facts c d g dep settings.meta.name built (rw named file.mapped) in
      record {
        group = g;
        dep = dep;
        container = container;
        pods_role = pods_getter_role d.config.namespace;
        pods_binding = pods_getter_binding d.config.namespace d.config.service_account;
        inside = held;
        only = only;
        runs = runs;
        toml_mounted = toml;
        config_mounted = textpb;
        volume = volume;
        deployed = deployment-HasDocument t c d filename text file g dep among built;
        selected = rw config selected;
        labelled = labelled;
        permitted =
            rw (place, account)
              (pods_getter-MayWatch K d.config.namespace d.config.service_account);
        role_there = given-HasDocument t c d filename text file _ _ (Memᴰ.head refl);
        binding_there = given-HasDocument t c d filename text file _ _ (Memᴰ.tail (Memᴰ.head refl));
        watches_there =
            ap (λ k. k.namespace) config ∙ namespace-babysitter_config d file.interval ∙ sym place;
      }

  -- One listener of a component of a deployment whose file is written.
  file-IsServed :
      (t : Tools K) (c : Extern) (bin : Binaries) (o : MapOrder) (app : AppConfig)
      (cfg : KubeConfig K) (id image : Bytes) (port : ℕ) (d : Deployment K) (port' : ℕ)
      (filename text : Bytes) (components : Map (List Bytes)) (settings : Settings) (y : Bytes)
      (names : List Bytes) (x : Bytes)
      → IsExtern c
      → IsMapOrder o
      → new_deployment bin o app cfg id image port ≡ ok (d, port')
      → read_components_and_listeners bin app.binary ≡ ok components
      → 8 ≤ length d.deployment_id
      → (file : IsFile t c d filename text) → settings.config ≡ babysitter_config d file.interval
      → lookup y components ≡ some names
      → 1 ≤ count x names
      → IsServed t components text settings x
  file-IsServed t c bin o app cfg id image port d port' filename text components settings y names x
        lawful order made read long file config has listed =
      let present =
        listener-listens bin o order app cfg id image port (d, port') made components y names x read
          has listed in
      let (g, l, svc, dep, among, in_group, called, served, built, listens, selects) =
        listens_where_served c lawful d file.interval x long present in
      let (matched, labelled) = object_labels c d g dep built in
      let (_, only, runs, _, _, _, _, _) =
        object_facts c d g dep file.config_map_named built file.mapped in
      let in_names = count-listener_names x l g.listeners in_group called in
      let (owner, owned, owns, listed', held) =
        listener_owner bin o order app cfg id image port (d, port') made components g x read among
          in_names in
      record {
        group = g;
        listener = l;
        owner = owner;
        owned = owned;
        svc = svc;
        dep = dep;
        owns = owns;
        listed = listed';
        held = held;
        runs = rw (only, runs) refl;
        inside = in_group;
        called = called;
        service_there = service-HasDocument t c d filename text file g l svc among in_group served;
        deployed = deployment-HasDocument t c d filename text file g dep among built;
        listens = rw config listens;
        selects = selects ∙ matched;
        labelled = labelled;
      }

  -- If `Deploy` succeeds, the ConfigMap in the file that it wrote has the application's
  -- configuration as it was read and one configuration for all babysitters, with which the file
  -- hosts every component of the application's binary: it has the Deployment of a group with the
  -- component, whose one container mounts both configurations and gives exactly the group's
  -- components to the babysitter; by the configuration, every babysitter selects, for the
  -- component, the pods that carry this Deployment's name; and a role, bound to the service account
  -- of the Deployment's pods, lets their babysitters watch the pods of the namespace in which they
  -- look. And for every listener of a component it has a Service which forwards to the port on
  -- which a babysitter with the configuration lets a listener of this name listen, in the pods of
  -- a Deployment in the file which runs a component that has a listener of this name.
  pub deploy-IsHosted :
      {V : Type 0} (h : Host K V) (m : Machine) (t : Tools K) (c : Extern) (bin : Binaries)
      (o : MapOrder) (config_filename id : Bytes) (port : ℕ) (app : AppConfig) (cfg : KubeConfig K)
      (r : (Bytes × Bytes) × ℕ) (components : Map (List Bytes))
      → IsExtern c
      → IsMapOrder o
      → prepare h bin config_filename ≡ ok (app, cfg)
      → (deploy h m t c bin o config_filename id port).1 ≡ ok r
      → read_components_and_listeners bin app.binary ≡ ok components
      → (settings : Settings) × IsConfigured t cfg.app_config r.0.1 settings
        × All
            (λ (x, names).
              IsHosted t c app r.0.1 settings x × All (IsServed t components r.0.1 settings) names)
            components
  deploy-IsHosted h m t c bin o config_filename id port app cfg r components lawful order prepared
        succeeded read =
      let (image, written) =
        written-deploy h m t c bin o config_filename id port app cfg r prepared succeeded in
      let (d, made, version, versioned, _, file) =
        generate_yamls-IsFile t c bin o app cfg id image port r.0.0 r.0.1 r.1 written in
      let (same_id, same_cfg, same_app) = kept bin o app cfg id image port (d, r.1) made in
      let long : 8 ≤ length d.deployment_id = rw same_id (first8-long id version versioned) in
      let (settings, configured, config, named) = settings-IsConfigured t c d r.0.0 r.0.1 file in
      (
        settings,
        subst (λ (k : KubeConfig K). IsConfigured t k.app_config r.0.1 settings) same_cfg
            configured,
        All-lookup
            (λ x names.
              IsHosted t c app r.0.1 settings x × All (IsServed t components r.0.1 settings) names)
            components (read-NodupKeys bin app.binary components read)
            (λ x names has. (
              subst (λ (a : AppConfig). IsHosted t c a r.0.1 settings x) same_app
                  (file-IsHosted t c bin o app cfg id image port d r.1 r.0.0 r.0.1 components
                    settings x names lawful order made read long file config named has),
              All-count (IsServed t components r.0.1 settings) names (λ n listed.
                  file-IsServed t c bin o app cfg id image port d r.1 r.0.0 r.0.1 components
                    settings x names n lawful order made read long file config has listed),
            )),
      )
