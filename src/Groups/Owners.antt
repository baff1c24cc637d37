-- ===== src/Groups/Owners.antt =====
-- Which component a listener of a group belongs to (internal/impl/kube.go, `newDeployment`).
use mathlib.Core.List.{Memᴰ}
use weaver_kube.Base.{
  ℕ, ◌+◌, ◌≤◌, Bool, Bool-cases, inl, inr, List, [], ◌∷◌, if◌then◌else◌, Bytes, bytes_eq,
  bytes_eq_refl, Map, ok, ◌≡◌, refl, ap, ◌∙◌, arith, one_if, count, sum_by, sum_by-append,
  sum_by-perm, sum_by-some, sum_by-mem, All-mem, MapOrder, IsMapOrder,
}
use weaver_kube.Config.{Api, Group, Deployment, KubeConfig, AppConfig}
use weaver_kube.Listeners.Options.{listener_names}
use weaver_kube.Groups.{Binaries, read_components_and_listeners, configured_groups, new_deployment}
use weaver_kube.Groups.Members.{name_of_group, members, member_listeners}
use weaver_kube.Groups.Partition.{new_deployment_members}

module _ {K : Api} (configured : Map (Group K)) (n x : Bytes) where
  abbrev belongs : Bytes → Bool
  belongs c = bytes_eq n (name_of_group configured c)

  abbrev as_component : Bytes × List Bytes → ℕ
  as_component (c, names) = if belongs c then one_if (bytes_eq x c) else 0

  abbrev as_listener : Bytes × List Bytes → ℕ
  as_listener (c, names) = if belongs c then count x names else 0

  count-members :
      (cs : Map (List Bytes)) → count x (members configured n cs) ≡ sum_by as_component cs
  count-members [] = refl
  count-members ((c, names) ∷ cs) = elim (Bool-cases (belongs c)) [
    | inl hit ↦ rw hit (ap (λ k. one_if (bytes_eq x c) + k) (count-members cs))
    | inr miss ↦ rw miss (omega (arith, count-members cs))
  ]

  count-member_listeners :
      (cs : Map (List Bytes)) → count x (member_listeners configured n cs) ≡ sum_by as_listener cs
  count-member_listeners [] = refl
  count-member_listeners ((c, names) ∷ cs) = elim (Bool-cases (belongs c)) [
    | inl hit ↦ rw hit (
        sum_by-append (λ (y : Bytes). one_if (bytes_eq x y)) names
          (member_listeners configured n cs)
        ∙ ap (λ k. count x names + k) (count-member_listeners cs))
    | inr miss ↦ rw miss (omega (arith, count-member_listeners cs))
  ]

module _ {K : Api} (bin : Binaries) (o : MapOrder) (lawful : IsMapOrder o) (app : AppConfig)
    (cfg : KubeConfig K) (id image : Bytes) (port : ℕ) (r : Deployment K × ℕ)
    (returned : new_deployment bin o app cfg id image port ≡ ok r) where
  -- A listener of a group is one of a component of the binary that the group has.
  pub listener_owner :
      (components : Map (List Bytes)) (g : Group K) (x : Bytes)
      → read_components_and_listeners bin app.binary ≡ ok components
      → Memᴰ g r.0.groups
      → 1 ≤ count x (listener_names g.listeners)
      → (owner : Bytes) × (names : List Bytes) × Memᴰ (owner, names) components
        × (1 ≤ count x names)
        × (1 ≤ count owner g.components)
  listener_owner components g x read among listed =
      let all = configured_groups cfg.groups in
      let order = o.iterate (List Bytes) components in
      let (held, listening, _) =
        All-mem _ g r.0.groups
          (new_deployment_members bin o lawful app cfg id image port r returned components read)
          among in
      let moved = lawful.iterate_perm (List Bytes) components in
      let some_time : 1 ≤ sum_by (as_listener all g.name x) components = omega (
        arith,
        listed,
        ap (count x) listening,
        count-member_listeners all g.name x order,
        sum_by-perm (as_listener all g.name x) moved,
      ) in
      let (e, there, positive) = sum_by-some (as_listener all g.name x) components some_time in
      elim (Bool-cases (belongs all g.name x e.0)) [
        | inl hit ↦
            let once : as_component all g.name e.0 e ≡ 1 = rw (hit, bytes_eq_refl e.0) refl in
            (
              e.0,
              e.1,
              there,
              rw hit at positive,
              omega (
                arith,
                ap (count e.0) held,
                count-members all g.name e.0 order,
                sum_by-perm (as_component all g.name e.0) moved,
                sum_by-mem (as_component all g.name e.0) e components there,
                once,
              ),
            )
        | inr miss ↦ absurd (omega (arith, rw miss at positive))
      ]
