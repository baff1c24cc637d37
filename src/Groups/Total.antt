-- ===== src/Groups/Total.antt =====
-- `newDeployment` of internal/impl/kube.go returns a deployment.
use weaver_kube.Base.{
  ℕ, ◌≤◌, List, [], ◌∷◌, ◌++◌, Bytes, take, Map, Outcome, ok, ◌>>=◌, ◌≡◌, refl, MapOrder, length,
}
use weaver_kube.Names.Total.{first8_ok}
use weaver_kube.Config.{Api, Listener, ListenerSpec, Group, Deployment, KubeConfig, AppConfig}
use weaver_kube.Listeners.{new_listeners}
use weaver_kube.Listeners.Options.{new_listener_lem}
use weaver_kube.Groups.{
  Binaries, read_components_and_listeners, add_component, form_groups, configured_groups,
  new_deployment,
}

-- The call returns a value.
abbrev pub Returns {ℓ} : {A : Type ℓ} → Outcome A → Type ℓ
Returns {A} m = (a : A) × (m ≡ ok a)

pub Returns-bind {ℓ κ} :
    {A : Type ℓ} {B : Type κ} (m : Outcome A) (f : A → Outcome B)
    → Returns m
    → ((a : A) → Returns (f a))
    → Returns (m >>= f)
Returns-bind m f (a, e) h = rw e (h a)

module _ (id : Bytes) (specs : List ListenerSpec) (long : 8 ≤ length id) where
  new_listeners-Returns :
      (names : List Bytes) (acc : List Listener) (port : ℕ)
      → Returns (new_listeners id specs names acc port)
  unfolding new_listeners
  new_listeners-Returns [] acc port = ((acc, port), refl)
  new_listeners-Returns (name ∷ names) acc port =
      Returns-bind _ _ (_, new_listener_lem id (take 8 id) specs name port (first8_ok id long))
        (λ r. new_listeners-Returns names (acc ++ r.0 ∷ []) r.1)

  module _ {K : Api} (configured : Map (Group K)) where
    add_component-Returns :
        (c : Bytes × List Bytes) (s : Map (Group K) × ℕ)
        → Returns (add_component id specs configured c s)
    unfolding add_component
    add_component-Returns (c, names) (m, port) =
        Returns-bind _ _ (new_listeners-Returns names _ port) (λ r. (_, refl))

    form_groups-Returns :
        (cs : Map (List Bytes)) (s : Map (Group K) × ℕ)
        → Returns (form_groups id specs configured cs s)
    unfolding form_groups
    form_groups-Returns [] s = (s, refl)
    form_groups-Returns (c ∷ cs) s =
        Returns-bind _ _ (add_component-Returns c s) (λ t. form_groups-Returns cs t)

-- If the binary can be read and the deployment id has eight bytes, there is a deployment, whatever
-- the configuration and the orders of the maps.
pub new_deployment_total :
    {K : Api} (bin : Binaries) (o : MapOrder) (app : AppConfig) (cfg : KubeConfig K)
    (id image : Bytes) (port : ℕ) (components : Map (List Bytes))
    → read_components_and_listeners bin app.binary ≡ ok components
    → 8 ≤ length id
    → (r : Deployment K × ℕ) × (new_deployment bin o app cfg id image port ≡ ok r)
unfolding new_deployment
new_deployment_total bin o app cfg id image port components read long =
    Returns-bind _ _ (components, read)
      (λ cs.
        Returns-bind _ _
          (form_groups-Returns id cfg.listeners long (configured_groups cfg.groups) _ ([], port))
          (λ s. (_, refl)))
