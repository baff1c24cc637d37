-- ===== src/Listeners.antt =====
-- `newListener` of internal/impl/kube.go, and the counter `externalPort`.
pub mod Options
pub mod Versions
pub mod Ports
use weaver_kube.Base.{
  ℕ, ◌+◌, ◌%◌, ◌^◌, Bool, true, false, List, [], ◌∷◌, ◌++◌, ◌==◌, if◌then◌else◌, Bytes, bytes_eq,
  Outcome, ok, ◌>>=◌,
}
use weaver_kube.Names.{first8}
use weaver_kube.Config.{Listener, ListenerSpec}

-- The initial value of `externalPort`.
abbrev pub first_port : ℕ
first_port = 20000

-- `externalPort++` on an `int32`, as a bit pattern.
abbrev pub next_port : ℕ → ℕ
next_port port = (port + 1) % 2 ^ 32

-- What an entry of the configuration for the listener changes.
override : ListenerSpec → Listener → Listener
override l lis = record lis {
  service_name = if bytes_eq l.service_name [] then lis.service_name else l.service_name;
  port = if l.port == 0 then lis.port else l.port;
  public = if l.public then l.public else lis.public;
}

-- The loop over `config.Listeners`: the first entry with the listener's name is used.
apply_specs : List ListenerSpec → Listener → Listener
apply_specs [] lis = lis
apply_specs (l ∷ ls) lis = if bytes_eq lis.name l.name then override l lis else apply_specs ls lis

-- The new listener and the counter afterwards.
unfoldable pub new_listener : Bytes → List ListenerSpec → Bytes → ℕ → Outcome (Listener × ℕ)
unfolding apply_specs override
new_listener deployment_id specs name port = do
  version ← first8 deployment_id
  let lis : Listener = record {
    name = name;
    service_name = name ++ (b'-' ∷ version);
    port = port;
    public = false;
  }
  ok (apply_specs specs lis, next_port port)

-- The loop over the listeners of a component, which appends to the listeners of its group.
unfoldable pub new_listeners :
    Bytes → List ListenerSpec → List Bytes → List Listener → ℕ → Outcome (List Listener × ℕ)
new_listeners deployment_id specs [] listeners port = ok (listeners, port)
new_listeners deployment_id specs (name ∷ names) listeners port = do
  (lis, port') ← new_listener deployment_id specs name port
  new_listeners deployment_id specs names (listeners ++ lis ∷ []) port'
