-- ===== src/Groups/Assigned.antt =====
-- Which name the configuration gives a component (the map `components` that `newDeployment` of
-- internal/impl/kube.go makes of `groups`).
use weaver_kube.Base.{
  ltb, List, [], ◌∷◌, Option, none, some, or_else, if◌then◌else◌, Bytes, Map, lookup, insert,
  lookup-insert, ◌≡◌, refl, arith, count,
}
use weaver_kube.Config.{Api, Group}
use weaver_kube.Groups.{assign_components, assign_groups, configured_groups, group_name}
use weaver_kube.Groups.Members.{name_of_group}

module _ {K : Api} where
  -- The last of the configured groups that lists the component.
  abbrev pub last_listing : List (Group K) → Bytes → Option (Group K)
  last_listing [] c = none
  last_listing (g ∷ gs) c =
      or_else (last_listing gs c) (if ltb 0 (count c g.components) then some g else none)

  abbrev name_or : Bytes → Option (Group K) → Bytes
  name_or c none = c
  name_or c (some g) = g.name

  -- Its name, or the component's own if no group lists it.
  abbrev pub name_given : List (Group K) → Bytes → Bytes
  name_given gs c = name_or c (last_listing gs c)

  lookup-assign_components :
      (g : Group K) (cs : List Bytes) (m : Map (Group K)) (c : Bytes)
      → lookup c (assign_components g cs m) ≡ (if ltb 0 (count c cs) then some g else lookup c m)
  unfolding assign_components
  lookup-assign_components g [] m c = refl
  lookup-assign_components g (x ∷ cs) m c =
      ground (arith, lookup-assign_components g cs (insert x g m) c, lookup-insert c x g m)

  lookup-assign_groups :
      (gs : List (Group K)) (m : Map (Group K)) (c : Bytes)
      → lookup c (assign_groups gs m) ≡ or_else (last_listing gs c) (lookup c m)
  unfolding assign_groups
  lookup-assign_groups [] m c = refl
  lookup-assign_groups (g ∷ gs) m c = ground (
    arith,
    lookup-assign_groups gs (assign_components g g.components m) c,
    lookup-assign_components g g.components m c,
  )

  pub name_of_group-configured_groups :
      (gs : List (Group K)) (c : Bytes) → name_of_group (configured_groups gs) c ≡ name_given gs c
  unfolding configured_groups group_name lookup
  name_of_group-configured_groups gs c = ground (arith, lookup-assign_groups gs [] c)

  pub lookup-configured_groups :
      (gs : List (Group K)) (c : Bytes) → lookup c (configured_groups gs) ≡ last_listing gs c
  unfolding configured_groups lookup
  lookup-configured_groups gs c = ground (arith, lookup-assign_groups gs [] c)
