-- ===== src/Babysitter/Watch/Updates.antt =====
-- The routing info that `watchPods` sends to the weavelet (internal/impl/babysitter.go).
use mathlib.Core.List.Perm
use mathlib.Core.Path.{subst}
use weaver_kube.Base.{
  Bool, true, false, not, ◌&&◌, List, [], ◌∷◌, ◌++◌, map, Bytes, bytes_eq, bytes_eq_iff,
  bytes_eq_refl, Map, lookup, erase, lookup-insert, lookup-erase, MapOrder, IsMapOrder, Outcome, ok,
  panic, err, ◌≡◌, ◌≢◌, ◌⊎◌, inl, inr, refl, arith, Perm, Bool-cases, Option-cases,
}
use weaver_kube.Babysitter.Watch.{
  Pod, Object, pod, other, EventType, added, modified, deleted, unhandled, Event, Signal, event,
  closed, done, WatchState, watch_start, watch_loop, step, RoutingInfo, routing_info, replica_url,
  handle_event, set_address, remove_address, dispatch, text_or_empty, publish, after_event,
}

-- The addresses are as before exactly when `changed` is false.
abbrev pub Changes : Map Bytes → Map Bytes × Bool → Type 0
Changes addrs (addrs', true) = (n : Bytes) × (lookup n addrs' ≢ lookup n addrs)
Changes addrs (addrs', false) = addrs' ≡ addrs

set_address-Changes : (p : Pod) (addrs : Map Bytes) → Changes addrs (set_address p addrs)
unfolding set_address
set_address-Changes p addrs =
    let test =
      not (bytes_eq p.pod_ip []) && not (bytes_eq (text_or_empty (lookup p.name addrs)) p.pod_ip) in
    elim (Bool-cases test) [
      | inl t ↦ rw t (
        p.name,
        λ same. ground (
          arith,
          t,
          same,
          lookup-insert p.name p.name p.pod_ip addrs,
          bytes_eq_refl p.name,
          bytes_eq_iff (text_or_empty (lookup p.name addrs)) p.pod_ip,
        ),
      )
      | inr t ↦ rw t refl
    ]

remove_address-Changes : (p : Pod) (addrs : Map Bytes) → Changes addrs (remove_address p addrs)
unfolding remove_address
remove_address-Changes p addrs = elim (Option-cases (lookup p.name addrs)) [
  | inl absent ↦
      let kept : (addrs, false) ≡ remove_address p addrs = ground arith in
      subst (Changes addrs) kept refl
  | inr (addr, found) ↦
      let gone : (erase p.name addrs, true) ≡ remove_address p addrs = ground arith in
      subst (Changes addrs) gone (
        p.name,
        λ same. ground (arith, same, lookup-erase p.name p.name addrs, bytes_eq_refl p.name),
      )
]

dispatch-Changes :
    (type : EventType) (object : Object) (addrs : Map Bytes) (r : Map Bytes × Bool)
    → dispatch type object addrs ≡ ok r
    → Changes addrs r
unfolding dispatch
dispatch-Changes added (pod p) addrs r e =
    let same : set_address p addrs ≡ r = ground arith in rw same at (set_address-Changes p addrs)
dispatch-Changes modified (pod p) addrs r e =
    let same : set_address p addrs ≡ r = ground arith in rw same at (set_address-Changes p addrs)
dispatch-Changes deleted (pod p) addrs r e =
    let same : remove_address p addrs ≡ r = ground arith in
    rw same at (remove_address-Changes p addrs)
dispatch-Changes (unhandled name) object addrs r e =
    let same : (addrs, false) ≡ r = ground arith in subst (Changes addrs) same refl
dispatch-Changes added other addrs r e = cc
dispatch-Changes modified other addrs r e = cc
dispatch-Changes deleted other addrs r e = cc

-- An event that is reported as a change changes the address of a pod, and any other event leaves
-- all addresses as they are.
pub handle_event-Changes :
    (e : Event) (addrs : Map Bytes) (r : Map Bytes × Bool)
    → handle_event e addrs ≡ ok r
    → Changes addrs r
unfolding handle_event
handle_event-Changes e addrs r h = dispatch-Changes e.type e.object addrs r h

-- The URLs of the pods with an address, one for each.
abbrev pub urls : Map Bytes → List Bytes
urls = map (λ (name, addr). replica_url addr)

-- The weavelet has the current addresses: the last routing info is for the component and lists
-- their URLs in some order, or there is no address and nothing was sent.
abbrev pub IsPublished : Bytes → WatchState → Type 0
IsPublished component s =
    ((s.sent ≡ []) × (s.addrs ≡ []))
    ⊎ ((before : List RoutingInfo) × (info : RoutingInfo) × (s.sent ≡ before ++ info ∷ [])
        × (info.component ≡ component)
        × Perm info.replicas (urls s.addrs))

-- A signal is received, or the loop has ended.
module _ (o : MapOrder) (component : Bytes) where
  pub watch_loop_cases :
      (s : WatchState) (x : Signal) (xs : List Signal)
      → (watch_loop o component s (x ∷ xs) ≡ watch_loop o component (step o component s x) xs)
        ⊎ (watch_loop o component s (x ∷ xs) ≡ s)
  unfolding watch_loop
  watch_loop_cases s x xs = ground arith

module _ (o : MapOrder) (lawful : IsMapOrder o) (component : Bytes) where
  replicas-perm : (addrs : Map Bytes) → Perm (routing_info o component addrs).replicas (urls addrs)
  unfolding routing_info
  replicas-perm addrs = Perm.map _ (lawful.iterate_perm Bytes addrs)

  component-routing_info :
      (addrs : Map Bytes) → (routing_info o component addrs).component ≡ component
  unfolding routing_info
  component-routing_info addrs = refl

  publish-IsPublished :
      (s : WatchState) (r : Map Bytes × Bool)
      → Changes s.addrs r
      → IsPublished component s
      → IsPublished component (publish o component r s.sent)
  unfolding publish
  publish-IsPublished s (addrs, true) c h = inr (
    s.sent,
    routing_info o component addrs,
    refl,
    component-routing_info addrs,
    replicas-perm addrs,
  )
  publish-IsPublished s (addrs, false) c h = rw c h

  after_event-IsPublished :
      (s : WatchState) (m : Outcome (Map Bytes × Bool))
      → ((r : Map Bytes × Bool) → m ≡ ok r → Changes s.addrs r)
      → IsPublished component s
      → IsPublished component (after_event o component s m)
  unfolding after_event
  after_event-IsPublished s (ok r) c h = publish-IsPublished s r (c r refl) h
  after_event-IsPublished s (err e) c h = h
  after_event-IsPublished s (panic e) c h = h

  step-IsPublished :
      (s : WatchState) (x : Signal)
      → IsPublished component s
      → IsPublished component (step o component s x)
  unfolding step
  step-IsPublished s (event e) h =
      after_event-IsPublished s (handle_event e s.addrs) (handle_event-Changes e s.addrs) h
  step-IsPublished s closed h = h
  step-IsPublished s done h = h

  watch_loop_from-IsPublished :
      (xs : List Signal) (s : WatchState)
      → IsPublished component s
      → IsPublished component (watch_loop o component s xs)
  unfolding watch_loop
  watch_loop_from-IsPublished [] s h = h
  watch_loop_from-IsPublished (x ∷ xs) s h = elim (watch_loop_cases o component s x xs) [
    | inl goes ↦
        rw goes (watch_loop_from-IsPublished xs (step o component s x) (step-IsPublished s x h))
    | inr ended ↦ rw ended h
  ]

  -- At every moment of the loop, also after it has ended, and whatever the signals, the last
  -- routing info that was sent is for the component and lists exactly the URLs of the current
  -- addresses, or there is no address and nothing was sent.
  pub watch_loop-IsPublished :
      (xs : List Signal) → IsPublished component (watch_loop o component watch_start xs)
  watch_loop-IsPublished xs = watch_loop_from-IsPublished xs watch_start (inl (refl, refl))
