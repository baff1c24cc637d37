-- ===== src/Tests/Views.antt =====
-- The groups of the sample application without orders.
use mathlib.Core.List.Perm
use mathlib.Core.List.{Perm as Rearranges}
use weaver_kube.Base.{
  ◌≤◌, ◌⊎◌, inl, inr, Bool-cases, Bytes, bytes_eq_iff, occurrences, one_if, ap, sym, ◌∙◌, arith, ℕ,
  [], ◌∷◌, codes, bytes_eq, bytes_lt, insert, lookup, MapOrder, IsMapOrder, Map, ok, refl, ◌≡◌,
}
use weaver_kube.Groups.{
  new_deployment, read_components_and_listeners, form_groups, add_component, sort_groups, values,
  configured_groups, group_name,
}
use weaver_kube.Names.{first8}
use weaver_kube.Config.{Deployment, Listener, Group}
use weaver_kube.Listeners.{new_listeners, new_listener}
use weaver_kube.Groups.View.{name_count, placed, served, new_deployment_refines}
use weaver_kube.Groups.View.Runs.{view, IsConsistent, view-new_deployment}
use weaver_kube.Groups.Specs.{specs_or_none}
use weaver_kube.Groups.Assigned.{last_listing, name_given}
use weaver_kube.Tests.{
  store, plain_api, shop_group, store_group, listener, in_order, in_order-IsMapOrder, front, shop,
  binaries, sample_components, app, config, deployment_id, deployed, components_read, deployed_lem,
}

new_deployment_refines_example :
    (name_count shop deployed.0.groups ≡ 1)
    × (placed shop front deployed.0.groups ≡ 1)
    × (served shop front deployed.0.groups ≡ 0)
unfolding configured_groups group_name insert lookup bytes_eq
new_deployment_refines_example =
    new_deployment_refines binaries in_order in_order-IsMapOrder app config deployment_id
      (codes "image") 20000 deployed deployed_lem sample_components components_read shop front

-- Another order: the first two entries change places.
abbrev exchanged : (V : Type 0) → Map V → Map V
exchanged V [] = []
exchanged V (e ∷ []) = e ∷ []
exchanged V (e ∷ e' ∷ es) = e' ∷ e ∷ es

abbrev exchanging : MapOrder
exchanging = record { iterate = exchanged }

exchanged-Perm : (V : Type 0) (m : Map V) → Rearranges (exchanged V m) m
exchanged-Perm V [] = Perm.refl []
exchanged-Perm V (e ∷ []) = Perm.refl (e ∷ [])
exchanged-Perm V (e ∷ e' ∷ es) = Perm.swap e e' es

exchanging-IsMapOrder : IsMapOrder exchanging
exchanging-IsMapOrder = record { iterate_perm = exchanged-Perm }

abbrev other_listener : Listener
other_listener = record listener { service_name = codes "http-87654321"; port = 30000 }

abbrev other_group : Group plain_api
other_group = record shop_group { listeners = other_listener ∷ [] }

abbrev other : Deployment plain_api × ℕ
other = (
  record deployed.0 {
    deployment_id = codes "87654321-abcd";
    image = codes "other";
    groups = other_group ∷ store_group ∷ [];
  },
  30001,
)

other_lem :
    new_deployment binaries exchanging app config (codes "87654321-abcd") (codes "other") 30000
    ≡ ok other
unfolding new_deployment read_components_and_listeners form_groups insert lookup bytes_eq
    add_component new_listeners new_listener first8 sort_groups values bytes_lt configured_groups
other_lem = refl

sample_key : (c : Bytes) → 1 ≤ occurrences c sample_components → (c ≡ front) ⊎ (c ≡ store)
sample_key c h = elim (Bool-cases (bytes_eq c front)) [
  | inl hit ↦ inl ((bytes_eq_iff c front).0 hit)
  | inr miss ↦ elim (Bool-cases (bytes_eq c store)) [
    | inl hit ↦ inr ((bytes_eq_iff c store).0 hit)
    | inr miss' ↦ absurd (omega (arith, h, ap one_if miss, ap one_if miss'))
  ]
]

consistent : IsConsistent config.groups sample_components
unfolding bytes_eq
consistent c c' h h' same = elim (sample_key c h) [
  | inl e ↦ elim (sample_key c' h') [
    | inl e' ↦ ap (λ b. specs_or_none (last_listing config.groups b)) (e ∙ sym e')
    | inr e' ↦
        let clash : shop ≡ store =
          sym (ap (name_given config.groups) e) ∙ same ∙ ap (name_given config.groups) e' in
        cc
  ]
  | inr e ↦ elim (sample_key c' h') [
    | inl e' ↦
        let clash : store ≡ shop =
          sym (ap (name_given config.groups) e) ∙ same ∙ ap (name_given config.groups) e' in
        cc
    | inr e' ↦ ap (λ b. specs_or_none (last_listing config.groups b)) (e ∙ sym e')
  ]
]

view-new_deployment_example : view deployed.0 ≡ view other.0
view-new_deployment_example =
    view-new_deployment binaries in_order exchanging in_order-IsMapOrder exchanging-IsMapOrder app
      config deployment_id (codes "87654321-abcd") (codes "image") (codes "other") 20000 30000
      deployed other sample_components components_read consistent deployed_lem other_lem
