-- ===== src/Groups/Formed.antt =====
-- The map of groups that the loop of `newDeployment` leaves (internal/impl/kube.go): one entry for
-- each name, under the group's own name, and no empty group.
use mathlib.Core.List.{append-ne-nil_of_right_ne-nil, cons-ne-nil}
use weaver_kube.Base.{
  ℕ, List, [], ◌∷◌, ◌++◌, Option, none, some, Bytes, bytes_eq_iff, Map, lookup, insert, NodupKeys,
  insert-NodupKeys, ok, >>=-eq-ok, ◌≡◌, ◌≢◌, refl, arith, lookup-insert,
}
use weaver_kube.Config.{Api, ListenerSpec, Group}
use weaver_kube.Listeners.{new_listeners}
use weaver_kube.Groups.{add_component, form_groups, group_name, fresh_group, group_so_far}

module _ {K : Api} where
  pub record IsFormed (m : Map (Group K)) : Type 0 where
    pub keys : NodupKeys m
    pub named : (n : Bytes) (g : Group K) → lookup n m ≡ some g → (g.name ≡ n)
    pub inhabited : (n : Bytes) (g : Group K) → lookup n m ≡ some g → (g.components ≢ [])

  pub IsFormed-nil : IsFormed []
  unfolding lookup
  IsFormed-nil = record { keys = tt; named = λ n g h. cc; inhabited = λ n g h. cc }

  name-group_so_far_of :
      (n : Bytes) (cgroup o : Option (Group K))
      → ((g : Group K) → o ≡ some g → g.name ≡ n)
      → (group_so_far n cgroup o).name ≡ n
  unfolding group_so_far fresh_group
  name-group_so_far_of n none none h = refl
  name-group_so_far_of n (some g) none h = refl
  name-group_so_far_of n cgroup (some g) h = h g refl

  name-group_so_far :
      (n : Bytes) (cgroup : Option (Group K)) (m : Map (Group K))
      → IsFormed m
      → (group_so_far n cgroup (lookup n m)).name ≡ n
  name-group_so_far n cgroup m f = name-group_so_far_of n cgroup (lookup n m) (f.named n)

  module _ (id : Bytes) (specs : List ListenerSpec) (configured : Map (Group K)) where
    add_component-IsFormed :
        (c : Bytes × List Bytes) (s s' : Map (Group K) × ℕ)
        → add_component id specs configured c s ≡ ok s'
        → IsFormed s.0
        → IsFormed s'.0
    unfolding add_component
    add_component-IsFormed (c, names) (m, port) s' e f =
        let cgroup = lookup c configured in
        let gname = group_name cgroup c in
        let g = group_so_far gname cgroup (lookup gname m) in
        let (r, made, rest) = >>=-eq-ok (new_listeners id specs names g.listeners port) _ e in
        let grown : Group K = record g { components = g.components ++ c ∷ []; listeners = r.0 } in
        let moved : insert gname grown m ≡ s'.0 = ground (arith, rest) in
        let formed : IsFormed (insert gname grown m) = record {
          keys = insert-NodupKeys gname grown m f.keys;
          named = λ n h found. ground (
            arith,
            lookup-insert n gname grown m,
            f.named n h,
            bytes_eq_iff n gname,
            name-group_so_far gname cgroup m f,
          );
          inhabited = λ n h found. ground (
            arith,
            lookup-insert n gname grown m,
            f.inhabited n h,
            append-ne-nil_of_right_ne-nil g.components (cons-ne-nil c []),
          );
        } in
        rw moved at formed

    pub form_groups-IsFormed :
        (cs : Map (List Bytes)) (s s' : Map (Group K) × ℕ)
        → form_groups id specs configured cs s ≡ ok s'
        → IsFormed s.0
        → IsFormed s'.0
    unfolding form_groups
    form_groups-IsFormed [] s s' e f = let same : s.0 ≡ s'.0 = ground arith in rw same at f
    form_groups-IsFormed (c ∷ cs) s s' e f =
        let (t, one, rest) = >>=-eq-ok (add_component id specs configured c s) _ e in
        form_groups-IsFormed cs t s' rest (add_component-IsFormed c s t one f)
