-- ===== src/Tests/Calling.antt =====
-- A call between the two components of the sample application, each in a pod of its own.
use mathlib.Core.List.{Memᴰ}
use weaver_kube.Base.{
  ℕ, ◌≤◌, true, false, Bool, List, [], ◌∷◌, ◌++◌, map, drop, none, some, Option, Bytes, codes,
  bytes_eq, bytes_eq_iff, bytes_eq_refl, lookup, insert, count, All, split, ok, ◌≡◌, refl, sym, ap,
  inr, arith,
}
use weaver_kube.Names.{deployment_name, hash8, first8, shorten_component, to_lower}
use weaver_kube.Config.{Group}
use weaver_kube.Resources.{KubeDeployment}
use weaver_kube.Resources.Builders.{name_label, build_container, deployment_object}
use weaver_kube.Manifests.{
  Resource, config_map, deployment, document, pods_getter_role, pods_getter_binding,
  babysitter_config, group_names,
}
use weaver_kube.Manifests.Documents.{deployment_comment}
use weaver_kube.Manifests.Contents.{Document, Prints, HasDocument, Prints-HasDocument}
use weaver_kube.Babysitter.Claim.{label_selector, pod_selector, begin_watch, watches}
use weaver_kube.Babysitter.Start.{Babysitter}
use weaver_kube.Babysitter.Serve.{ServeState, is_positive}
use weaver_kube.Babysitter.Watch.{pod, added, deleted, Event, event, watch_loop, watch_start}
use weaver_kube.Babysitter.Watch.Addresses.{address_after}
use weaver_kube.Babysitter.Watch.Updates.{IsPublished}
use weaver_kube.Tool.{babysitter_command}
use weaver_kube.Tool.Mounts.{IsPodOf}
use weaver_kube.Cluster.{Settings, IsConfigured, IsHosted, MayWatch}
use weaver_kube.Cluster.Routes.{Pods, IsSelecting}
use weaver_kube.Cluster.Calls.{calls-IsHosted}
use weaver_kube.Tests.{
  plain_api, fixed_extern, in_order, in_order-IsMapOrder, front, store, app, shop_group,
  store_group, deployed,
}
use weaver_kube.Tests.Deploying.{tools}
use weaver_kube.Tests.Serving.{counts}
use weaver_kube.Tests.Watching.{ten_attempts, ten_attempts-IsBackoff, succeeds}
use weaver_kube.Tests.Pods.{version_name, pod_host, cluster, cluster-Starts}

abbrev settings : Settings
settings = record {
  config = babysitter_config deployed.0 30;
  config_textpb = codes "textpb";
  weaver_toml = codes "toml";
  meta = record { name = version_name; namespace = codes "default"; labels = []; annotations = [] };
  entries = (codes "weaver.toml", codes "toml") ∷ (codes "config.textpb", codes "textpb") ∷ [];
}

abbrev object : Group plain_api → Bytes → KubeDeployment plain_api
object g name = deployment_object deployed.0 g name (codes "12345678") version_name

abbrev shop_name : Bytes
shop_name = codes "app-shop-12345678-01234567"

abbrev store_name : Bytes
store_name = codes "app-store-12345678-01234567"

-- A file without the header and the Service.
abbrev documents : List (Document plain_api)
documents =
    (codes "Roles.", pods_getter_role (codes "default"))
    ∷ (codes "Role Bindings.", pods_getter_binding (codes "default") (codes "default"))
    ∷ (codes "Configuration", config_map settings.meta settings.entries)
    ∷ (deployment_comment shop_group, deployment (object shop_group shop_name))
    ∷ (deployment_comment store_group, deployment (object store_group store_name))
    ∷ []

abbrev print : List (Document plain_api) → Bytes
print [] = []
print (d ∷ ds) = document d.0 (codes "yaml") ++ print ds

print-Prints : (ds : List (Document plain_api)) → Prints tools ds (print ds)
print-Prints [] = refl
print-Prints (d ∷ ds) = (codes "yaml", print ds, refl, refl, print-Prints ds)

has_document :
    (comment : Bytes) (r : Resource plain_api)
    → Memᴰ (comment, r) documents
    → HasDocument tools (print documents) comment r
has_document comment r there =
    Prints-HasDocument tools comment r documents [] (print documents) (print-Prints documents) there

settings-IsConfigured : IsConfigured tools deployed.0.config.app_config (print documents) settings
unfolding lookup bytes_eq
settings-IsConfigured = record {
  toml_read = refl;
  toml_kept = refl;
  config_written = refl;
  config_kept = refl;
  configured = has_document _ _ (Memᴰ.tail (Memᴰ.tail (Memᴰ.head refl)));
}

may_watch :
    MayWatch {K = plain_api}
      (pods_getter_role (codes "default"))
      (pods_getter_binding (codes "default") (codes "default"))
      (codes "default")
      (codes "default")
unfolding pods_getter_role pods_getter_binding bytes_eq
may_watch = (refl, refl, refl, (_, Memᴰ.head refl, omega arith), Memᴰ.head refl)

hosted :
    (g : Group plain_api) (name x : Bytes)
    → 1 ≤ count x g.components
    → Memᴰ (deployment_comment g, deployment (object g name)) documents
    → pod_selector fixed_extern app settings.config x ≡ ok (label_selector name)
    → IsHosted tools fixed_extern app (print documents) settings x
unfolding deployment_object build_container babysitter_config lookup bytes_eq
hosted g name x inside there selected = record {
  group = g;
  dep = object g name;
  container = build_container deployed.0 g;
  pods_role = pods_getter_role (codes "default");
  pods_binding = pods_getter_binding (codes "default") (codes "default");
  inside = inside;
  only = refl;
  runs = refl;
  toml_mounted = Memᴰ.head refl;
  config_mounted = Memᴰ.tail (Memᴰ.head refl);
  volume = refl;
  deployed = has_document _ _ there;
  selected = selected;
  labelled = refl;
  permitted = may_watch;
  role_there = has_document _ _ (Memᴰ.head refl);
  binding_there = has_document _ _ (Memᴰ.tail (Memᴰ.head refl));
  watches_there = refl;
}

front_selected : pod_selector fixed_extern app settings.config front ≡ ok (label_selector shop_name)
unfolding pod_selector babysitter_config group_names lookup insert bytes_eq deployment_name hash8
    first8 shorten_component to_lower split
front_selected = refl

store_selected :
    pod_selector fixed_extern app settings.config store ≡ ok (label_selector store_name)
unfolding pod_selector babysitter_config group_names lookup insert bytes_eq deployment_name hash8
    first8 shorten_component to_lower split
store_selected = refl

front_hosted : IsHosted tools fixed_extern app (print documents) settings front
unfolding bytes_eq
front_hosted =
    hosted shop_group shop_name front (omega arith)
      (Memᴰ.tail (Memᴰ.tail (Memᴰ.tail (Memᴰ.head refl)))) front_selected

store_hosted : IsHosted tools fixed_extern app (print documents) settings store
unfolding bytes_eq
store_hosted =
    hosted store_group store_name store (omega arith)
      (Memᴰ.tail (Memᴰ.tail (Memᴰ.tail (Memᴰ.tail (Memᴰ.head refl))))) store_selected

mounted : IsPodOf pod_host (object shop_group shop_name) (config_map settings.meta settings.entries)
unfolding deployment_object build_container lookup bytes_eq
mounted = ((refl, (refl, tt)), tt)

abbrev selects : Bytes → Option Bytes → Bool
selects selector none = false
selects selector (some value) = bytes_eq selector (label_selector value)

selects-value :
    (value : Bytes) (o : Option Bytes) → selects (label_selector value) o ≡ true → o ≡ some value
selects-value value none h = cc
selects-value value (some v) h =
    ap (λ s. some (drop 19 s)) (sym ((bytes_eq_iff (label_selector value) (label_selector v)).0 h))

-- A cluster whose pods all carry the name of the second Deployment.
abbrev pods : Pods
pods = record {
  labels = λ n. (name_label, store_name) ∷ [];
  matches = λ selector ls. selects selector (lookup name_label ls);
}

pods-IsSelecting : IsSelecting pods
pods-IsSelecting = record { by_value = λ value ls. selects-value value (lookup name_label ls) }

abbrev events : List Event
events =
    record { type = added; object = pod (record { name = codes "p"; pod_ip = codes "10.0.0.1" }) }
    ∷ record { type = added; object = pod (record { name = codes "q"; pod_ip = codes "10.0.0.2" }) }
    ∷ record { type = deleted; object = pod (record { name = codes "p"; pod_ip = [] }) }
    ∷ []

calls-IsHosted_example :
    (args : List Bytes) × (k : Babysitter ℕ Bytes Bytes Bytes) × (s : ServeState ℕ Bytes) × (map
        (λ z. z.args)
        (object shop_group shop_name).containers
      ≡ (codes "babysitter" ∷ args) ∷ [])
    × (babysitter_command pod_host cluster counts 0 args ≡ ok (k, s))
    × (1 ≤ count front k.hosted)
    × ((begin_watch fixed_extern k.app k.cfg ten_attempts succeeds store k.watching).1
        ≡ watches (label_selector store_name))
    × IsPublished store (watch_loop in_order store watch_start (map event events))
    × All
        (λ (n, ip).
          (lookup name_label (pods.labels n) ≡ some store_name)
          × (address_after n none events ≡ some ip))
        (watch_loop in_order store watch_start (map event events)).addrs
    × ((n : Bytes)
        → lookup n (watch_loop in_order store watch_start (map event events)).addrs
          ≡ address_after n none events)
unfolding lookup bytes_eq is_positive babysitter_config deployment_object front_hosted hosted
    store_hosted
calls-IsHosted_example =
    calls-IsHosted tools fixed_extern app deployed.0.config.app_config (print documents) settings
      settings-IsConfigured cluster front store front_hosted store_hosted pod_host counts 0 app
      ten_attempts succeeds in_order pods events mounted (λ z e. refl) refl refl refl cluster-Starts
      (inr refl) ten_attempts-IsBackoff refl in_order-IsMapOrder pods-IsSelecting
      (tt, (tt, (tt, tt)))
      (
        bytes_eq_refl (label_selector store_name),
        (
          bytes_eq_refl (label_selector store_name),
          (bytes_eq_refl (label_selector store_name), tt),
        ),
      )
