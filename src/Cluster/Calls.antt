-- ===== src/Cluster/Calls.antt =====
-- A call from one component to another in a cluster that runs the file which `Deploy` wrote
-- (internal/impl/deploy.go, internal/impl/kube.go): the start of the babysitter in the caller's pod
-- (internal/tool/babysitter.go) and its watch for the callee's pods (internal/impl/babysitter.go).
use mathlib.Core.List.{Memᴰ}
use weaver_kube.Base.{
  Error, Option, none, ℕ, ◌≤◌, true, false, List, [], ◌∷◌, ◌++◌, map, none, some, Bytes, codes,
  lookup, count, All, All-mem, MapOrder, IsMapOrder, ok, ◌≡◌, ◌≢◌, ◌⊎◌, refl, ◌∙◌, arith,
}
use weaver_kube.Names.{Extern}
use weaver_kube.Config.{Api, AppConfig}
use weaver_kube.Resources.{mount}
use weaver_kube.Resources.Builders.{name_label}
use weaver_kube.Manifests.{Tools, config_map}
use weaver_kube.Babysitter.Claim.{label_selector, Backoff, IsBackoff, watches, begin_watch}
use weaver_kube.Babysitter.Start.{BabysitterOptions, Surroundings, Babysitter}
use weaver_kube.Babysitter.Serve.{ServeState, is_positive}
use weaver_kube.Babysitter.Watch.{Event, event, watch_loop, watch_start}
use weaver_kube.Babysitter.Watch.Addresses.{address_after, IsPodEvent}
use weaver_kube.Babysitter.Watch.Updates.{IsPublished}
use weaver_kube.Tool.{PodHost, babysitter_command}
use weaver_kube.Tool.Mounts.{IsMount, IsPodOf}
use weaver_kube.Tool.Pods.{Starts, babysitter_command-Starts}
use weaver_kube.Cluster.{Settings, IsConfigured, IsHosted}
use weaver_kube.Cluster.Routes.{Pods, IsSelecting, Selects, routes-IsHosted}

count-inhabited : (x : Bytes) (xs : List Bytes) → 1 ≤ count x xs → xs ≢ []
count-inhabited x [] h = absurd (omega (arith, h))
count-inhabited x (y ∷ ys) h = λ e. cc

module _ {K : Api} (t : Tools K) (c : Extern) (app : AppConfig) (source text : Bytes)
    (settings : Settings) (configured : IsConfigured t source text settings) where
  -- A file of the ConfigMap in a pod of a Deployment that hosts a component.
  mounted_file :
      (x : Bytes) (hosted : IsHosted t c app text settings x) (h : PodHost)
      (path key contents : Bytes)
      → IsPodOf h hosted.dep (config_map settings.meta settings.entries)
      → Memᴰ (mount (codes "config") path key) hosted.container.volume_mounts
      → lookup key settings.entries ≡ some contents
      → h.read_file path ≡ ok contents
  mounted_file x hosted h path key contents pod there kept =
      let (mounts, _) = rw hosted.only at pod in
      rw (hosted.volume, kept) at
        (All-mem (IsMount h settings.meta.name settings.entries hosted.dep.volumes)
          (mount (codes "config") path key) hosted.container.volume_mounts mounts there)

  module _ {S Entry Span Snap : Type 0} (w : Surroundings) where
    -- Let the file host the components x and y with one configuration. In a pod of x's Deployment,
    -- whose files of the ConfigMap are mounted as Kubernetes documents it, if the text of the
    -- babysitters' configuration is read back as what was written, the application's configuration
    -- parses to one of the same name and its binary is in the container, the calls of other
    -- packages by which a babysitter is made return values, and there is no plugin for metrics or
    -- the export interval is positive, the container's one command starts a babysitter that hosts x.
    -- Its first watch for y reaches the loop if the watcher can be created, with a selector by the
    -- name of y's Deployment. After any events of a watch with this selector, the last routing info
    -- that its weavelet was sent is for y and lists exactly the URLs of the known addresses, or
    -- there is no address and nothing was sent. These are the present addresses of the pods of the
    -- watch, all of which carry the name of y's Deployment.
    pub calls-IsHosted :
        (x y : Bytes) (caller : IsHosted t c app text settings x)
        (callee : IsHosted t c app text settings y) (h : PodHost)
        (opts : BabysitterOptions S Entry Span Snap) (world : S) (running : AppConfig) (b : Backoff)
        (creations : ℕ → Option Error) (o : MapOrder) (ps : Pods) (es : List Event)
        → IsPodOf h caller.dep (config_map settings.meta settings.entries)
        → ((z : Bytes)
            → t.textpb settings.config ≡ ok z
            → h.unmarshal_textpb z ≡ ok settings.config)
        → h.parse_config (codes "/weaver/weaver.toml") settings.weaver_toml ≡ ok running
        → running.name ≡ app.name
        → h.missing (codes "/weaver/" ++ h.base_name running.binary) ≡ false
        → Starts w
        → (opts.handle_metrics ≡ none)
          ⊎ (is_positive settings.config.telemetry.metrics.export_interval ≡ true)
        → IsBackoff b
        → creations 0 ≡ none
        → IsMapOrder o
        → IsSelecting ps
        → All IsPodEvent es
        → All (Selects ps (label_selector callee.dep.meta.name)) es
        → (args : List Bytes) × (k : Babysitter S Entry Span Snap) × (s : ServeState S Snap) × (map
              (λ z. z.args)
              caller.dep.containers
            ≡ (codes "babysitter" ∷ args) ∷ [])
          × (babysitter_command h w opts world args ≡ ok (k, s))
          × (1 ≤ count x k.hosted)
          × ((begin_watch c k.app k.cfg b creations y k.watching).1
              ≡ watches (label_selector callee.dep.meta.name))
          × IsPublished y (watch_loop o y watch_start (map event es))
          × All
              (λ (n, ip).
                (lookup name_label (ps.labels n) ≡ some callee.dep.meta.name)
                × (address_after n none es ≡ some ip))
              (watch_loop o y watch_start (map event es)).addrs
          × ((n : Bytes)
              → lookup n (watch_loop o y watch_start (map event es)).addrs
                ≡ address_after n none es)
    unfolding lookup
    calls-IsHosted x y caller callee h opts world running b creations o ps es pod back parsed same
          present starts fits retrying first order selecting pods matched =
        let toml =
          mounted_file x caller h _ _ settings.weaver_toml pod caller.toml_mounted
            configured.toml_kept in
        let textpb =
          mounted_file x caller h _ _ settings.config_textpb pod caller.config_mounted
            configured.config_kept in
        let (k, s, run, cfg, named, hosts, fresh, main, address) =
          babysitter_command-Starts w h opts world caller.group.components settings.weaver_toml
            settings.config_textpb running settings.config toml textpb parsed present
            (back settings.config_textpb configured.config_written)
            (count-inhabited x caller.group.components caller.inside) starts fits in
        let (begins, published, sources, present_now) =
          routes-IsHosted t c app k.app text settings y callee (named ∙ same) b creations k.watching
            o ps es retrying first (rw fresh refl) order selecting pods matched in
        (
          codes "/weaver/weaver.toml" ∷ codes "/weaver/config.textpb" ∷ caller.group.components,
          k,
          s,
          rw (caller.only, caller.runs) refl,
          run,
          rw hosts caller.inside,
          rw cfg begins,
          published,
          sources,
          present_now,
        )
