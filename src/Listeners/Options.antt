-- ===== src/Listeners/Options.antt =====
-- What the configuration decides of a listener (`newListener` of internal/impl/kube.go).
use weaver_kube.Base.{
  ℕ, ◌+◌, ◌%◌, ◌^◌, ◌≡◌, refl, ap, ◌∙◌, false, List, [], ◌∷◌, ◌++◌, map, arith, ◌==◌, Option, none,
  some, Bytes, bytes_eq, ok, >>=-eq-ok, append_assoc, append-nil, map-append, if◌then◌else◌,
}
use weaver_kube.Names.{first8}
use weaver_kube.Config.{Listener, ListenerSpec}
use weaver_kube.Listeners.{new_listener, new_listeners, apply_specs, override, next_port}

-- The entry of the configuration that counts: the first one with the name.
abbrev pub first_spec : Bytes → List ListenerSpec → Option ListenerSpec
first_spec name [] = none
first_spec name (l ∷ ls) = if bytes_eq name l.name then some l else first_spec name ls

-- A listener by its entry. An empty service name, the port 0 and `public: false` are defaults.
abbrev pub configured : Option ListenerSpec → Listener → Listener
configured none lis = lis
configured (some l) lis = record lis {
  service_name = if bytes_eq l.service_name [] then lis.service_name else l.service_name;
  port = if l.port == 0 then lis.port else l.port;
  public = l.public;
}

apply_specs-configured :
    (specs : List ListenerSpec) (lis : Listener)
    → lis.public ≡ false
    → apply_specs specs lis ≡ configured (first_spec lis.name specs) lis
unfolding apply_specs override
apply_specs-configured [] lis h = refl
apply_specs-configured (l ∷ ls) lis h = ground (arith, apply_specs-configured ls lis h)

-- With a deployment id of eight bytes, a listener has its name, and the service name, the port and
-- the visibility of its first entry in the configuration; by default a name with the version, the
-- next port, and not public. The counter of ports grows by one, with its wrap-around.
pub new_listener_lem :
    (id version : Bytes) (specs : List ListenerSpec) (name : Bytes) (port : ℕ)
    → first8 id ≡ ok version
    → new_listener id specs name port
      ≡ ok (
        configured (first_spec name specs) (record {
          name = name;
          service_name = name ++ (b'-' ∷ version);
          port = port;
          public = false;
        }),
        (port + 1) % 2 ^ 32,
      )
unfolding new_listener
new_listener_lem id version specs name port h =
    rw h (ap (λ (lis : Listener). ok (lis, next_port port)) (apply_specs-configured specs _ refl))

-- The name of the Service of a listener, and whether the configuration gives one that counts.
abbrev pub given_name : Option ListenerSpec → Bytes
given_name none = []
given_name (some l) = l.service_name

pub configured_name :
    (o : Option ListenerSpec) (lis : Listener)
    → (configured o lis).service_name
      ≡ (if bytes_eq (given_name o) [] then lis.service_name else given_name o)
unfolding bytes_eq
configured_name none lis = refl
configured_name (some l) lis = refl

name-apply_specs :
    (specs : List ListenerSpec) (lis : Listener) → (apply_specs specs lis).name ≡ lis.name
unfolding apply_specs override
name-apply_specs [] lis = refl
name-apply_specs (l ∷ ls) lis = ground (arith, name-apply_specs ls lis)

-- The names of the listeners of a group.
abbrev pub listener_names : List Listener → List Bytes
listener_names = map (λ l. l.name)

module _ (id : Bytes) (specs : List ListenerSpec) where
  pub name-new_listener :
      (name : Bytes) (port : ℕ) (r : Listener × ℕ)
      → new_listener id specs name port ≡ ok r
      → r.0.name ≡ name
  unfolding new_listener
  name-new_listener name port r e =
      let (v, hv, h) = >>=-eq-ok (first8 id) _ e in
      ground (
        arith,
        h,
        name-apply_specs specs (record {
          name = name;
          service_name = name ++ (b'-' ∷ v);
          port = port;
          public = false;
        }),
      )

  pub names-new_listeners :
      (names : List Bytes) (acc : List Listener) (port : ℕ) (r : List Listener × ℕ)
      → new_listeners id specs names acc port ≡ ok r
      → listener_names r.0 ≡ listener_names acc ++ names
  unfolding new_listeners
  names-new_listeners [] acc port r e = ground (arith, append-nil (listener_names acc))
  names-new_listeners (name ∷ names) acc port r e =
      let (lis, made, rest) = >>=-eq-ok (new_listener id specs name port) _ e in
      names-new_listeners names (acc ++ lis.0 ∷ []) lis.1 r rest
      ∙ rw (map-append, append_assoc, name-new_listener name port lis made)
