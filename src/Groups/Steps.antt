-- ===== src/Groups/Steps.antt =====
-- The steps of a call of `newDeployment` of internal/impl/kube.go that returns, and how facts about
-- the map of groups carry over to the sorted list.
use mathlib.Core.List.Perm
use weaver_kube.Base.{
  ℕ, ◌+◌, List, [], ◌∷◌, map, none, Bytes, bytes_eq_iff, Map, lookup, NodupKeys, insert-NodupKeys,
  ok, >>=-eq-ok, ◌≡◌, ◌≢◌, refl, ap, ◌∙◌, arith, All, All-perm, total, sum_by, sum_by-perm,
  MapOrder, IsMapOrder,
}
use weaver_kube.Config.{Api, Group, Deployment, KubeConfig, AppConfig}
use weaver_kube.Groups.{
  Binaries, ComponentListeners, read_components_and_listeners, add_names, add_listeners,
  form_groups, configured_groups, new_deployment, values, sort_groups,
}
use weaver_kube.Groups.Sorted.{Distinct, All-sort_groups, sum_by-sort_groups}

add_names-NodupKeys :
    (names : List Bytes) (m : Map (List Bytes)) → NodupKeys m → NodupKeys (add_names names m)
unfolding add_names
add_names-NodupKeys [] m u = u
add_names-NodupKeys (n ∷ names) m u = add_names-NodupKeys names _ (insert-NodupKeys n [] m u)

add_listeners-NodupKeys :
    (ls : List ComponentListeners) (m : Map (List Bytes))
    → NodupKeys m
    → NodupKeys (add_listeners ls m)
unfolding add_listeners
add_listeners-NodupKeys [] m u = u
add_listeners-NodupKeys (l ∷ ls) m u =
    add_listeners-NodupKeys ls _ (insert-NodupKeys l.component l.listeners m u)

pub read-NodupKeys :
    (bin : Binaries) (binary : Bytes) (m : Map (List Bytes))
    → read_components_and_listeners bin binary ≡ ok m
    → NodupKeys m
unfolding read_components_and_listeners
read-NodupKeys bin binary m e =
    let (names, _, e₁) = >>=-eq-ok (bin.read_component_graph binary) _ e in
    let (ls, _, e₂) = >>=-eq-ok (bin.read_listeners binary) _ e₁ in
    let same : add_listeners ls (add_names names []) ≡ m = ground arith in
    rw same at (add_listeners-NodupKeys ls _ (add_names-NodupKeys names [] tt))

module _ {K : Api} where
  -- The steps of a call that returned.
  pub record Steps (bin : Binaries) (o : MapOrder) (app : AppConfig) (cfg : KubeConfig K)
      (id : Bytes) (port : ℕ) (r : Deployment K × ℕ) : Type 0 where
    pub components : Map (List Bytes)
    pub by_name : Map (Group K)
    pub read : read_components_and_listeners bin app.binary ≡ ok components
    pub formed :
        form_groups id cfg.listeners
          (configured_groups cfg.groups)
          (o.iterate (List Bytes) components)
          ([], port)
        ≡ ok (by_name, r.1)
    pub groups : r.0.groups ≡ sort_groups (values o by_name)

  pub steps :
      (bin : Binaries) (o : MapOrder) (app : AppConfig) (cfg : KubeConfig K) (id image : Bytes)
      (port : ℕ) (r : Deployment K × ℕ)
      → new_deployment bin o app cfg id image port ≡ ok r
      → Steps bin o app cfg id port r
  unfolding new_deployment
  steps bin o app cfg id image port r e =
      let (components, read, e₁) = >>=-eq-ok (read_components_and_listeners bin app.binary) _ e in
      let (s, formed, e₂) =
        >>=-eq-ok
          (form_groups id cfg.listeners (configured_groups cfg.groups)
            (o.iterate (List Bytes) components) ([], port))
          _ e₁ in
      let counter : s.1 ≡ r.1 = ground arith in
      record {
        components = components;
        by_name = s.0;
        read = read;
        formed = formed ∙ ap (λ (p : ℕ). ok (s.0, p)) counter;
        groups = ground arith;
      }

  pub sum_by-values :
      (o : MapOrder)
      → IsMapOrder o
      → (f : Group K → ℕ) (m : Map (Group K)) → sum_by f (sort_groups (values o m)) ≡ total f m
  unfolding values
  sum_by-values o lawful f m =
      sum_by-sort_groups f _
      ∙ sum_by-map (o.iterate (Group K) m)
      ∙ sum_by-perm (λ e. f e.1) (lawful.iterate_perm (Group K) m)
    where
      sum_by-map : (es : Map (Group K)) → sum_by f (map (λ (n, g). g) es) ≡ sum_by (λ e. f e.1) es
      sum_by-map [] = refl
      sum_by-map (e ∷ es) = ap (λ (k : ℕ). f e.1 + k) (sum_by-map es)

  -- A property of the entries of the map holds of the sorted groups.
  pub All-values :
      (o : MapOrder)
      → IsMapOrder o
      → (P : Group K → Type 0) → ((g : Group K) → IsProp (P g))
      → (m : Map (Group K)) → All (λ e. P e.1) m
      → All P (sort_groups (values o m))
  unfolding values
  All-values o lawful P prop m h = All-sort_groups P _ (
      All-map (o.iterate (Group K) m)
        (All-perm (λ e. P e.1) (λ e. prop e.1) (Perm.symm (lawful.iterate_perm (Group K) m)) h))
    where
      All-map : (es : Map (Group K)) → All (λ e. P e.1) es → All P (map (λ (n, g). g) es)
      All-map [] _ = tt
      All-map (e ∷ es) (p, ps) = (p, All-map es ps)

  absent_names :
      (k : Bytes) (m : Map (Group K))
      → lookup k m ≡ none
      → All (λ e. e.1.name ≡ e.0) m
      → All (λ h. k ≢ h.name) (map (λ (n, g). g) m)
  unfolding lookup
  absent_names k [] h _ = tt
  absent_names k ((j, g) ∷ m) h (p, ps) =
      (ground (arith, bytes_eq_iff k j), absent_names k m (ground arith) ps)

  pub values-Distinct :
      (m : Map (Group K))
      → NodupKeys m
      → All (λ e. e.1.name ≡ e.0) m
      → Distinct (map (λ (n, g). g) m)
  values-Distinct [] _ _ = tt
  values-Distinct ((j, g) ∷ m) (fresh, u) (p, ps) =
      (rw p (absent_names j m fresh ps), values-Distinct m u ps)
