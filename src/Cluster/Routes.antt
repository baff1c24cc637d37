-- ===== src/Cluster/Routes.antt =====
-- Where a babysitter sends the calls of a component (internal/impl/babysitter.go), in a cluster that
-- runs the file that `Deploy` wrote (internal/impl/deploy.go, internal/impl/kube.go).
use weaver_kube.Base.{
  Error, Option, none, refl, ◌∙◌, ℕ, Bool, true, List, [], ◌∷◌, map, none, some, Bytes, Map, lookup,
  All, MapOrder, IsMapOrder, ◌≡◌,
}
use weaver_kube.Names.{Extern}
use weaver_kube.Config.{Api, AppConfig}
use weaver_kube.Resources.Builders.{name_label}
use weaver_kube.Manifests.{Tools}
use weaver_kube.Babysitter.Claim.{
  Watching, pod_selector, label_selector, Backoff, IsBackoff, watches, begin_watch,
}
use weaver_kube.Babysitter.Claim.Begin.{begin_watch_reaches}
use weaver_kube.Babysitter.Watch.{Object, pod, other, Event, event, watch_loop, watch_start}
use weaver_kube.Babysitter.Watch.Addresses.{address_after, IsPodEvent, watch_loop_address}
use weaver_kube.Babysitter.Watch.Updates.{IsPublished, watch_loop-IsPublished}
use weaver_kube.Babysitter.Watch.Sources.{PodOf, watch_loop-source}
use weaver_kube.Cluster.{Settings, IsHosted}
use weaver_kube.Babysitter.{BabysitterConfig}

-- The pods of a cluster with their labels, by name, and whether a selector matches labels.
pub record Pods : Type 0 where
  pub labels : Bytes → Map Bytes
  pub matches : Bytes → Map Bytes → Bool

-- Kubernetes documents that the selector `key=value` matches the labels with this value of the key.
pub record IsSelecting (ps : Pods) : Type 0 where
  pub by_value :
      (value : Bytes) (ls : Map Bytes)
      → ps.matches (label_selector value) ls ≡ true
      → lookup name_label ls ≡ some value

-- A watch with a selector sends events of the pods that it matches.
abbrev pub Selects : Pods → Bytes → Event → Type 0
Selects ps selector e = PodOf (λ n. ps.matches selector (ps.labels n) ≡ true) e.object

carries :
    (ps : Pods) (value : Bytes)
    → IsSelecting ps
    → (es : List Event) → All (Selects ps (label_selector value)) es
    → All (λ e. PodOf (λ n. lookup name_label (ps.labels n) ≡ some value) e.object) es
carries ps value selecting [] m = tt
carries ps value selecting (e ∷ es) (m, ms) = (of e.object m, carries ps value selecting es ms)
  where
    of :
        (object : Object)
        → PodOf (λ n. ps.matches (label_selector value) (ps.labels n) ≡ true) object
        → PodOf (λ n. lookup name_label (ps.labels n) ≡ some value) object
    of (pod p) h = selecting.by_value value (ps.labels p.name) h
    of other h = tt

-- The selector of the pods that run a component depends on the application's name only.
pod_selector-name :
    (c : Extern) (a b : AppConfig) (cfg : BabysitterConfig) (x : Bytes)
    → a.name ≡ b.name
    → pod_selector c a cfg x ≡ pod_selector c b cfg x
unfolding pod_selector
pod_selector-name c a b cfg x h = rw h refl

module _ {K : Api} (t : Tools K) (c : Extern) (app running : AppConfig) (text : Bytes)
    (settings : Settings) (x : Bytes) (hosted : IsHosted t c app text settings x)
    (same_name : running.name ≡ app.name) where
  -- For a component that a written file hosts, the first call of `watchPods` in a babysitter of the
  -- application with the file's configuration reaches the loop if the watcher can be created, with
  -- a selector by the name of the Deployment that hosts the component. After any events of a watch
  -- with this selector, the last routing info that the weavelet was sent is for the component and
  -- lists exactly the URLs of the known addresses, or there is no address and nothing was sent.
  -- These are the present addresses of the pods of the watch, all of which carry the Deployment's
  -- name.
  pub routes-IsHosted :
      (b : Backoff) (creations : ℕ → Option Error) (watching : Watching) (o : MapOrder) (ps : Pods)
      (es : List Event)
      → IsBackoff b
      → creations 0 ≡ none
      → lookup x watching ≡ none
      → IsMapOrder o
      → IsSelecting ps
      → All IsPodEvent es
      → All (Selects ps (label_selector hosted.dep.meta.name)) es
      → let s = watch_loop o x watch_start (map event es) in
        ((begin_watch c running settings.config b creations x watching).1
          ≡ watches (label_selector hosted.dep.meta.name))
        × IsPublished x s
        × All
            (λ (n, ip).
              (lookup name_label (ps.labels n) ≡ some hosted.dep.meta.name)
              × (address_after n none es ≡ some ip))
            s.addrs
        × ((n : Bytes) → lookup n s.addrs ≡ address_after n none es)
  routes-IsHosted b creations watching o ps es retrying first fresh order selecting pods matched =
      let name = hosted.dep.meta.name in
      (
        begin_watch_reaches c running settings.config b creations x (label_selector name) watching
            retrying fresh
            (pod_selector-name c running app settings.config x same_name ∙ hosted.selected) first,
        watch_loop-IsPublished o order x (map event es),
        watch_loop-source o x (λ n. lookup name_label (ps.labels n) ≡ some name) es pods
            (carries ps name selecting es matched),
        λ n. (watch_loop_address o x es pods n).1,
      )
