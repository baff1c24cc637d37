-- ===== src/Babysitter/Watch/Addresses.antt =====
-- The addresses that the loop of `watchPods` knows, pod by pod (internal/impl/babysitter.go).
use weaver_kube.Base.{
  Bool, false, List, [], ◌∷◌, map, Option, none, some, if◌then◌else◌, Bytes, bytes_eq, bytes_eq_iff,
  Map, lookup, lookup-insert, lookup-erase, MapOrder, ok, ◌≡◌, refl, arith, All,
}
use weaver_kube.Babysitter.Watch.{
  Pod, Object, pod, other, EventType, added, modified, deleted, unhandled, Event, event, waiting,
  WatchState, watch_start, watch_loop, step, handle_event, set_address, remove_address, dispatch,
  text_or_empty,
}

-- What an event means for the address of one pod: an address replaces the old one, a pod that has
-- none yet keeps what is known, and a deleted pod has none.
abbrev pub put_address : Bytes → Option Bytes → Pod → Option Bytes
put_address n old p =
    if bytes_eq n p.name then (if bytes_eq p.pod_ip [] then old else some p.pod_ip) else old

abbrev pub drop_address : Bytes → Option Bytes → Pod → Option Bytes
drop_address n old p = if bytes_eq n p.name then none else old

abbrev pub effect : Bytes → Option Bytes → EventType → Object → Option Bytes
effect n old added (pod p) = put_address n old p
effect n old modified (pod p) = put_address n old p
effect n old deleted (pod p) = drop_address n old p
effect n old type object = old

-- The address of a pod after the events: the last one given since it was last deleted.
abbrev pub address_after : Bytes → Option Bytes → List Event → Option Bytes
address_after n old [] = old
address_after n old (e ∷ es) = address_after n (effect n old e.type e.object) es

-- A watch for pods sends pods in the events that the program takes for such.
abbrev pub CarriesPod : EventType → Object → Type 0
CarriesPod (unhandled name) object = Unit
CarriesPod type (pod p) = Unit
CarriesPod type other = ⊥

abbrev pub IsPodEvent : Event → Type 0
IsPodEvent e = CarriesPod e.type e.object

lookup-set_address :
    (n : Bytes) (p : Pod) (addrs : Map Bytes)
    → lookup n (set_address p addrs).0 ≡ put_address n (lookup n addrs) p
unfolding set_address
lookup-set_address n p addrs = ground (
  arith,
  lookup-insert n p.name p.pod_ip addrs,
  bytes_eq_iff n p.name,
  bytes_eq_iff p.pod_ip [],
  bytes_eq_iff (text_or_empty (lookup p.name addrs)) p.pod_ip,
)

lookup-remove_address :
    (n : Bytes) (p : Pod) (addrs : Map Bytes)
    → lookup n (remove_address p addrs).0 ≡ drop_address n (lookup n addrs) p
unfolding remove_address
lookup-remove_address n p addrs = ground (arith, lookup-erase n p.name addrs, bytes_eq_iff n p.name)

dispatch-lookup :
    (n : Bytes) (type : EventType) (object : Object) (addrs : Map Bytes)
    → CarriesPod type object
    → (r : Map Bytes × Bool) × (dispatch type object addrs ≡ ok r)
      × (lookup n r.0 ≡ effect n (lookup n addrs) type object)
unfolding dispatch
dispatch-lookup n added (pod p) addrs h = (set_address p addrs, refl, lookup-set_address n p addrs)
dispatch-lookup n modified (pod p) addrs h =
    (set_address p addrs, refl, lookup-set_address n p addrs)
dispatch-lookup n deleted (pod p) addrs h =
    (remove_address p addrs, refl, lookup-remove_address n p addrs)
dispatch-lookup n (unhandled name) object addrs h = ((addrs, false), refl, refl)
dispatch-lookup n added other addrs h = absurd h
dispatch-lookup n modified other addrs h = absurd h
dispatch-lookup n deleted other addrs h = absurd h

module _ (o : MapOrder) (component : Bytes) where
  step-lookup :
      (n : Bytes) (e : Event) (s : WatchState)
      → IsPodEvent e
      → ((step o component s (event e)).status ≡ waiting)
        × (lookup n (step o component s (event e)).addrs
            ≡ effect n (lookup n s.addrs) e.type e.object)
  unfolding step handle_event
  step-lookup n e s h =
      let (r, ran, found) = dispatch-lookup n e.type e.object s.addrs h in rw ran (refl, found)

  watch_loop-lookup :
      (n : Bytes) (es : List Event) (s : WatchState)
      → All IsPodEvent es
      → s.status ≡ waiting
      → ((watch_loop o component s (map event es)).status ≡ waiting)
        × (lookup n (watch_loop o component s (map event es)).addrs
            ≡ address_after n (lookup n s.addrs) es)
  unfolding watch_loop
  watch_loop-lookup n [] s _ w = (w, refl)
  watch_loop-lookup n (e ∷ es) s (h, hs) w =
      let (w', found) = step-lookup n e s h in
      rw w (rw (← found) (watch_loop-lookup n es (step o component s (event e)) hs w'))

  -- After any events of a watch for pods the loop goes on, and it knows of each pod the address
  -- that the events give it, and no address if they give none.
  pub watch_loop_address :
      (es : List Event)
      → All IsPodEvent es
      → (n : Bytes)
      → ((watch_loop o component watch_start (map event es)).status ≡ waiting)
        × (lookup n (watch_loop o component watch_start (map event es)).addrs
            ≡ address_after n none es)
  unfolding lookup
  watch_loop_address es h n = watch_loop-lookup n es watch_start h refl
