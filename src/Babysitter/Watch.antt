-- ===== src/Babysitter/Watch.antt =====
-- The loop of `watchPods` over the events of a watch (internal/impl/babysitter.go).
pub mod Addresses
pub mod Updates
pub mod Sources
use weaver_kube.Base.{
  Bool, true, false, not, ◌&&◌, List, [], ◌∷◌, ◌++◌, map, Option, none, some, if◌then◌else◌, Bytes,
  codes, bytes_eq, Map, lookup, insert, erase, MapOrder, Outcome, ok, panic, ◌>>=◌,
}

pub record Pod : Type 0 where
  pub name : Bytes
  pub pod_ip : Bytes

-- `event.Object`: a pod, or an object of another type.
pub data Object : Type 0 where
  pod : Pod → Object
  other : Object

-- The types that the `switch` names, and any other.
pub data EventType : Type 0 where
  added modified deleted : EventType
  unhandled : Bytes → EventType

pub record Event : Type 0 where
  pub type : EventType
  pub object : Object

pub record RoutingInfo : Type 0 where
  pub component : Bytes
  pub replicas : List Bytes

-- What `select` receives: an event, the end of the channel, or the end of the context.
pub data Signal : Type 0 where
  event : Event → Signal
  closed : Signal
  done : Signal

-- A read of a missing key gives the empty string.
abbrev pub text_or_empty : Option Bytes → Bytes
text_or_empty none = []
text_or_empty (some s) = s

-- `event.Object.(*v1.Pod)`
abbrev as_pod : Object → Outcome Pod
as_pod (pod p) = ok p
as_pod other = panic (codes "interface conversion")

-- The new addresses, and `changed`.
set_address : Pod → Map Bytes → Map Bytes × Bool
set_address p addrs =
    if not (bytes_eq p.pod_ip []) && not (bytes_eq (text_or_empty (lookup p.name addrs)) p.pod_ip)
    then (insert p.name p.pod_ip addrs, true)
    else (addrs, false)

remove_address : Pod → Map Bytes → Map Bytes × Bool
remove_address p addrs = elim (lookup p.name addrs) [
  | some addr ↦ (erase p.name addrs, true)
  | none ↦ (addrs, false)
]

-- The `switch` over the type of an event.
dispatch : EventType → Object → Map Bytes → Outcome (Map Bytes × Bool)
dispatch added object addrs = do p ← as_pod object; ok (set_address p addrs)
dispatch modified object addrs = do p ← as_pod object; ok (set_address p addrs)
dispatch deleted object addrs = do p ← as_pod object; ok (remove_address p addrs)
dispatch (unhandled name) object addrs = ok (addrs, false)

unfoldable pub handle_event : Event → Map Bytes → Outcome (Map Bytes × Bool)
unfolding dispatch set_address remove_address
handle_event e addrs = dispatch e.type e.object addrs

-- `fmt.Sprintf("tcp://%s:%d", addr, internalPort)`
abbrev pub replica_url : Bytes → Bytes
replica_url addr = codes "tcp://" ++ (addr ++ codes ":10000")

-- The routing info for the addresses, in the order in which `range` goes through them.
unfoldable pub routing_info : MapOrder → Bytes → Map Bytes → RoutingInfo
routing_info o component addrs = record {
  component = component;
  replicas = map (λ (name, addr). replica_url addr) (o.iterate Bytes addrs);
}

-- How the loop stands after the signals so far: it waits, it has returned `nil` or the context's
-- error, or it has panicked.
pub data Status : Type 0 where
  waiting returned cancelled panicked : Status

pub record WatchState : Type 0 where
  pub addrs : Map Bytes
  -- the calls of `UpdateRoutingInfo`, the last one at the end
  pub sent : List RoutingInfo
  pub status : Status

module _ (o : MapOrder) (component : Bytes) where
  -- One round after the `switch`; an error of `UpdateRoutingInfo` is printed and has no effect.
  publish : Map Bytes × Bool → List RoutingInfo → WatchState
  publish (addrs, changed) sent = record {
    addrs = addrs;
    sent = if changed then sent ++ routing_info o component addrs ∷ [] else sent;
    status = waiting;
  }

  after_event : WatchState → Outcome (Map Bytes × Bool) → WatchState
  after_event s (ok r) = publish r s.sent
  after_event s _ = record s { status = panicked }

  -- One signal while the loop waits.
  unfoldable pub step : WatchState → Signal → WatchState
  unfolding publish after_event
  step s (event e) = after_event s (handle_event e s.addrs)
  step s closed = record s { status = returned }
  step s done = record s { status = cancelled }

  -- The loop: signals that come after it has ended are not received.
  unfoldable pub watch_loop : WatchState → List Signal → WatchState
  watch_loop s [] = s
  watch_loop s (x ∷ xs) = elim s.status [ waiting ↦ watch_loop (step s x) xs | _ ↦ s ]

-- The state before the loop.
abbrev pub watch_start : WatchState
watch_start = record { addrs = []; sent = []; status = waiting }
