-- ===== src/Manifests/Lookups.antt =====
-- The maps `listeners` and `groups` that `generateConfigMap` fills (internal/impl/kube.go).
use mathlib.Core.List.{Memᴰ}
use mathlib.Core.List.Memᴰ.{head, tail}
use weaver_kube.Base.{
  ℕ, ◌≤◌, List, [], ◌∷◌, some, Bytes, bytes_eq, bytes_eq_iff, Map, lookup, insert, lookup-insert,
  count, sum_by, one_if, Bool-cases, ◌≡◌, refl, ◌∙◌, arith, ◌⊎◌, inl, inr,
}
use weaver_kube.Config.{Api, Group, Listener}
use weaver_kube.Manifests.{add_ports, add_members, listener_ports, group_names}

add_members_cases :
    (x name : Bytes) (cs : List Bytes) (m : Map Bytes)
    → ((1 ≤ count x cs) × (lookup x (add_members name cs m) ≡ some name))
      ⊎ ((count x cs ≡ 0) × (lookup x (add_members name cs m) ≡ lookup x m))
unfolding add_members
add_members_cases x name [] m = inr (refl, refl)
add_members_cases x name (c ∷ cs) m = elim (add_members_cases x name cs (insert c name m)) [
  | inl (some_time, found) ↦ inl (omega arith, found)
  | inr (never, same) ↦ elim (Bool-cases (bytes_eq x c)) [
    | inl hit ↦ inl (rw hit (omega arith), same ∙ lookup-insert x c name m ∙ rw hit refl)
    | inr miss ↦ inr (rw miss (omega arith), same ∙ lookup-insert x c name m ∙ rw miss refl)
  ]
]

-- How many of the listeners have this name.
abbrev pub named : Bytes → List Listener → ℕ
named x = sum_by (λ l. one_if (bytes_eq x l.name))

add_ports_cases :
    (x : Bytes) (ls : List Listener) (m : Map ℕ)
    → ((l : Listener) × Memᴰ l ls × (x ≡ l.name) × (lookup x (add_ports ls m) ≡ some l.port))
      ⊎ ((named x ls ≡ 0) × (lookup x (add_ports ls m) ≡ lookup x m))
unfolding add_ports
add_ports_cases x [] m = inr (refl, refl)
add_ports_cases x (l ∷ ls) m = elim (add_ports_cases x ls (insert l.name l.port m)) [
  | inl (k, among, called, found) ↦ inl (k, tail among, called, found)
  | inr (never, same) ↦ elim (Bool-cases (bytes_eq x l.name)) [
    | inl hit ↦ inl (
      l,
      head refl,
      (bytes_eq_iff x l.name).0 hit,
      same ∙ lookup-insert x l.name l.port m ∙ rw hit refl,
    )
    | inr miss ↦ inr (rw miss (omega arith), same ∙ lookup-insert x l.name l.port m ∙ rw miss refl)
  ]
]

module _ {K : Api} where
  -- How many of the components of the groups have this name.
  abbrev pub times : Bytes → List (Group K) → ℕ
  times x = sum_by (λ g. count x g.components)

  -- The map `groups` has, for a component of a group, the name of a group that has the component,
  -- and for any other name what it had.
  pub group_names_cases :
      (x : Bytes) (gs : List (Group K)) (m : Map Bytes)
      → ((g : Group K) × Memᴰ g gs
          × (1 ≤ count x g.components)
          × (lookup x (group_names gs m) ≡ some g.name))
        ⊎ ((times x gs ≡ 0) × (lookup x (group_names gs m) ≡ lookup x m))
  unfolding group_names
  group_names_cases x [] m = inr (refl, refl)
  group_names_cases x (g ∷ gs) m =
      elim (group_names_cases x gs (add_members g.name g.components m)) [
        | inl (h, among, held, found) ↦ inl (h, tail among, held, found)
        | inr (never, same) ↦ elim (add_members_cases x g.name g.components m) [
          | inl (held, found) ↦ inl (g, head refl, held, same ∙ found)
          | inr (absent, kept) ↦ inr (omega (arith, never, absent), same ∙ kept)
        ]
      ]

  -- How many of the groups' listeners have this name.
  abbrev pub times_named : Bytes → List (Group K) → ℕ
  times_named x = sum_by (λ g. named x g.listeners)

  -- The map `listeners` has, for the name of a listener, the port of a listener of that name, and
  -- for any other name what it had.
  pub listener_ports_cases :
      (x : Bytes) (gs : List (Group K)) (m : Map ℕ)
      → ((g : Group K) × (l : Listener) × Memᴰ g gs
          × Memᴰ l g.listeners
          × (x ≡ l.name)
          × (lookup x (listener_ports gs m) ≡ some l.port))
        ⊎ ((times_named x gs ≡ 0) × (lookup x (listener_ports gs m) ≡ lookup x m))
  unfolding listener_ports
  listener_ports_cases x [] m = inr (refl, refl)
  listener_ports_cases x (g ∷ gs) m = elim (listener_ports_cases x gs (add_ports g.listeners m)) [
    | inl (h, l, among, in_group, called, found) ↦ inl (h, l, tail among, in_group, called, found)
    | inr (never, same) ↦ elim (add_ports_cases x g.listeners m) [
      | inl (l, among, called, found) ↦ inl (g, l, head refl, among, called, same ∙ found)
      | inr (absent, kept) ↦ inr (omega (arith, never, absent), same ∙ kept)
    ]
  ]
