-- ===== src/Groups/Members.antt =====
-- Which components and listeners `newDeployment` puts into which group (internal/impl/kube.go).
use weaver_kube.Base.{
  ℕ, List, [], ◌∷◌, ◌++◌, Option, none, some, if◌then◌else◌, Bytes, bytes_eq, bytes_eq_iff, Map,
  lookup, ok, >>=-eq-ok, ◌≡◌, refl, ◌∙◌, append_assoc, append-nil, arith, lookup-insert,
}
use weaver_kube.Config.{Api, ListenerSpec, Group}
use weaver_kube.Listeners.{new_listeners}
use weaver_kube.Listeners.Options.{listener_names, names-new_listeners}
use weaver_kube.Groups.{add_component, form_groups, group_name, fresh_group, group_so_far}

module _ {K : Api} where
  -- The name of the group that a component belongs to: that of its configured group, or its own.
  abbrev pub name_of_group : Map (Group K) → Bytes → Bytes
  name_of_group configured c = group_name (lookup c configured) c

  -- The components of a group, in the order of the loop.
  abbrev pub members : Map (Group K) → Bytes → Map (List Bytes) → List Bytes
  members configured n [] = []
  members configured n ((c, names) ∷ cs) =
      (if bytes_eq n (name_of_group configured c) then c ∷ [] else []) ++ members configured n cs

  -- The names of the listeners of these components, in the same order.
  abbrev pub member_listeners : Map (Group K) → Bytes → Map (List Bytes) → List Bytes
  member_listeners configured n [] = []
  member_listeners configured n ((c, names) ∷ cs) =
      (if bytes_eq n (name_of_group configured c) then names else [])
      ++ member_listeners configured n cs

  abbrev pub components_at : Option (Group K) → List Bytes
  components_at none = []
  components_at (some g) = g.components

  abbrev pub listeners_at : Option (Group K) → List Bytes
  listeners_at none = []
  listeners_at (some g) = listener_names g.listeners

  components-group_so_far :
      (n : Bytes) (cgroup o : Option (Group K))
      → (group_so_far n cgroup o).components ≡ components_at o
  unfolding group_so_far fresh_group
  components-group_so_far n none none = refl
  components-group_so_far n (some g) none = refl
  components-group_so_far n cgroup (some g) = refl

  listeners-group_so_far :
      (n : Bytes) (cgroup o : Option (Group K))
      → listener_names (group_so_far n cgroup o).listeners ≡ listeners_at o
  unfolding group_so_far fresh_group
  listeners-group_so_far n none none = refl
  listeners-group_so_far n (some g) none = refl
  listeners-group_so_far n cgroup (some g) = refl

  module _ (id : Bytes) (specs : List ListenerSpec) (configured : Map (Group K)) where
    -- One round adds the component and its listeners to its group, and leaves the others.
    add_component_at :
        (c : Bytes) (names : List Bytes) (s s' : Map (Group K) × ℕ)
        → add_component id specs configured (c, names) s ≡ ok s'
        → (n : Bytes)
        → (components_at (lookup n s'.0)
            ≡ components_at (lookup n s.0)
              ++ (if bytes_eq n (name_of_group configured c) then c ∷ [] else []))
          × (listeners_at (lookup n s'.0)
              ≡ listeners_at (lookup n s.0)
                ++ (if bytes_eq n (name_of_group configured c) then names else []))
    unfolding add_component
    add_component_at c names (m, port) s' e n =
        let gname = name_of_group configured c in
        let g = group_so_far gname (lookup c configured) (lookup gname m) in
        let (r, made, rest) = >>=-eq-ok (new_listeners id specs names g.listeners port) _ e in
        let law =
          lookup-insert n gname (record g { components = g.components ++ c ∷ []; listeners = r.0 })
            m in
        let same = bytes_eq_iff n gname in
        (
          ground (
            arith,
            rest,
            law,
            same,
            components-group_so_far gname (lookup c configured) (lookup gname m),
            append-nil (components_at (lookup n m)),
          ),
          ground (
            arith,
            rest,
            law,
            same,
            listeners-group_so_far gname (lookup c configured) (lookup gname m),
            names-new_listeners id specs names g.listeners port r made,
            append-nil (listeners_at (lookup n m)),
          ),
        )

    pub form_groups_at :
        (cs : Map (List Bytes)) (s s' : Map (Group K) × ℕ)
        → form_groups id specs configured cs s ≡ ok s'
        → (n : Bytes)
        → (components_at (lookup n s'.0) ≡ components_at (lookup n s.0) ++ members configured n cs)
          × (listeners_at (lookup n s'.0)
              ≡ listeners_at (lookup n s.0) ++ member_listeners configured n cs)
    unfolding form_groups
    form_groups_at [] s s' e n = (
      ground (arith, append-nil (components_at (lookup n s.0))),
      ground (arith, append-nil (listeners_at (lookup n s.0))),
    )
    form_groups_at ((c, names) ∷ cs) s s' e n =
        let (t, one, rest) = >>=-eq-ok (add_component id specs configured (c, names) s) _ e in
        let (here, there) = add_component_at c names s t one n in
        let (here', there') = form_groups_at cs t s' rest n in
        (here' ∙ rw (here, append_assoc), there' ∙ rw (there, append_assoc))
