-- ===== src/Babysitter/Watch/Sources.antt =====
-- Where the addresses that the loop of `watchPods` knows come from (internal/impl/babysitter.go).
use weaver_kube.Base.{
  inl, inr, All-lookup, Bool, List, [], ◌∷◌, map, Option, none, some, Bytes, bytes_eq, bytes_eq_iff,
  Map, NodupKeys, insert-NodupKeys, erase-NodupKeys, MapOrder, Outcome, ok, ok-injective, err,
  panic, ◌≡◌, ◌≢◌, refl, ap, sym, ◌∙◌, arith, All, Bool-cases,
}
use weaver_kube.Babysitter.Watch.{
  Pod, Object, pod, other, EventType, added, modified, deleted, unhandled, Event, Signal, event,
  closed, done, WatchState, watch_start, watch_loop, step, handle_event, set_address,
  remove_address, dispatch, publish, after_event,
}
use weaver_kube.Babysitter.Watch.Updates.{watch_loop_cases}
use weaver_kube.Babysitter.Watch.Addresses.{
  effect, address_after, put_address, drop_address, IsPodEvent, watch_loop_address,
}

-- The pods of a watch satisfy a condition.
abbrev pub PodOf : (Bytes → Type 0) → Object → Type 0
PodOf Q (pod p) = Q p.name
PodOf Q other = Unit

module _ (Q : Bytes → Type 0) (n : Bytes) where
  put_address-source :
      (p : Pod) (old : Option Bytes)
      → Q p.name
      → (old ≢ none → Q n)
      → put_address n old p ≢ none
      → Q n
  put_address-source p old q before h = elim (Bool-cases (bytes_eq n p.name)) [
    | inl hit ↦ rw (← (bytes_eq_iff n p.name).0 hit) at q
    | inr miss ↦ before (rw miss at h)
  ]

  drop_address-source :
      (p : Pod) (old : Option Bytes) → (old ≢ none → Q n) → drop_address n old p ≢ none → Q n
  drop_address-source p old before h = elim (Bool-cases (bytes_eq n p.name)) [
    | inl hit ↦ absurd (rw hit at h refl)
    | inr miss ↦ before (rw miss at h)
  ]

  effect-source :
      (type : EventType) (object : Object) (old : Option Bytes)
      → PodOf Q object
      → (old ≢ none → Q n)
      → effect n old type object ≢ none
      → Q n
  effect-source added (pod p) old q before h = put_address-source p old q before h
  effect-source modified (pod p) old q before h = put_address-source p old q before h
  effect-source deleted (pod p) old q before h = drop_address-source p old before h
  effect-source (unhandled name) (pod p) old q before h = before h
  effect-source added other old q before h = before h
  effect-source modified other old q before h = before h
  effect-source deleted other old q before h = before h
  effect-source (unhandled name) other old q before h = before h

  -- A pod with an address is one of those whose events came.
  pub address_after-source :
      (es : List Event) (old : Option Bytes)
      → All (λ e. PodOf Q e.object) es
      → (old ≢ none → Q n)
      → address_after n old es ≢ none
      → Q n
  address_after-source [] old q before h = before h
  address_after-source (e ∷ es) old (q, qs) before h =
      address_after-source es (effect n old e.type e.object) qs
        (effect-source e.type e.object old q before) h

set_address-NodupKeys :
    (p : Pod) (addrs : Map Bytes) → NodupKeys addrs → NodupKeys (set_address p addrs).0
unfolding set_address
set_address-NodupKeys p addrs u = ground (arith, insert-NodupKeys p.name p.pod_ip addrs u)

remove_address-NodupKeys :
    (p : Pod) (addrs : Map Bytes) → NodupKeys addrs → NodupKeys (remove_address p addrs).0
unfolding remove_address
remove_address-NodupKeys p addrs u = ground (arith, erase-NodupKeys p.name addrs u)

dispatch-NodupKeys :
    (type : EventType) (object : Object) (addrs : Map Bytes) (r : Map Bytes × Bool)
    → dispatch type object addrs ≡ ok r
    → NodupKeys addrs
    → NodupKeys r.0
unfolding dispatch
dispatch-NodupKeys added (pod p) addrs r e u =
    rw (ok-injective e) at (set_address-NodupKeys p addrs u)
dispatch-NodupKeys modified (pod p) addrs r e u =
    rw (ok-injective e) at (set_address-NodupKeys p addrs u)
dispatch-NodupKeys deleted (pod p) addrs r e u =
    rw (ok-injective e) at (remove_address-NodupKeys p addrs u)
dispatch-NodupKeys (unhandled name) object addrs r e u = rw (ap (λ x. x.0) (ok-injective e)) at u
dispatch-NodupKeys added other addrs r e u = cc
dispatch-NodupKeys modified other addrs r e u = cc
dispatch-NodupKeys deleted other addrs r e u = cc

module _ (o : MapOrder) (component : Bytes) where
  after_event-NodupKeys :
      (s : WatchState) (m : Outcome (Map Bytes × Bool))
      → ((r : Map Bytes × Bool) → m ≡ ok r → NodupKeys r.0)
      → NodupKeys s.addrs
      → NodupKeys (after_event o component s m).addrs
  unfolding after_event publish
  after_event-NodupKeys s (ok r) h u = h r refl
  after_event-NodupKeys s (err e) h u = u
  after_event-NodupKeys s (panic e) h u = u

  step-NodupKeys :
      (s : WatchState) (x : Signal) → NodupKeys s.addrs → NodupKeys (step o component s x).addrs
  unfolding step handle_event
  step-NodupKeys s (event e) u =
      after_event-NodupKeys s (dispatch e.type e.object s.addrs)
        (λ r made. dispatch-NodupKeys e.type e.object s.addrs r made u) u
  step-NodupKeys s closed u = u
  step-NodupKeys s done u = u

  watch_loop-NodupKeys :
      (xs : List Signal) (s : WatchState)
      → NodupKeys s.addrs
      → NodupKeys (watch_loop o component s xs).addrs
  watch_loop-NodupKeys [] s u = unfold watch_loop in u
  watch_loop-NodupKeys (x ∷ xs) s u = elim (watch_loop_cases o component s x xs) [
    | inl goes ↦ rw goes (watch_loop-NodupKeys xs (step o component s x) (step-NodupKeys s x u))
    | inr ended ↦ rw ended u
  ]

  -- Each address that the loop knows after the events of a watch is the present one of a pod of
  -- the watch.
  pub watch_loop-source :
      (Q : Bytes → Type 0) (es : List Event)
      → All IsPodEvent es
      → All (λ e. PodOf Q e.object) es
      → All
          (λ (n, ip). Q n × (address_after n none es ≡ some ip))
          (watch_loop o component watch_start (map event es)).addrs
  watch_loop-source Q es pods q =
      All-lookup (λ n ip. Q n × (address_after n none es ≡ some ip)) _
        (watch_loop-NodupKeys (map event es) watch_start tt)
        (λ n ip found.
          let now = sym (watch_loop_address o component es pods n).1 ∙ found in
          (address_after-source Q n es none q (λ h. absurd (h refl)) (λ e. cc), now))
