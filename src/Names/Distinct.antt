-- ===== src/Names/Distinct.antt =====
-- When two deployment names are equal (internal/impl/kube.go).
use mathlib.Core.List.{append_cancel_left}
use weaver_kube.Base.{
  ◌≡◌, refl, sym, ap, ◌∙◌, List, [], ◌∷◌, ◌++◌, arith, length, length-append, take, drop,
  drop-append, Bytes, ok, append_assoc,
}
use weaver_kube.Names.{Extern, to_lower, hash8, hash_loop, dashed, deployment_name}
use weaver_kube.Names.Total.{deployment_name-NameParts, first8-eq-ok}

-- Texts that end in parts of one length have equal ends.
suffix-eq : (xs xs' ys ys' : Bytes) → xs ++ ys ≡ xs' ++ ys' → length ys ≡ length ys' → ys ≡ ys'
suffix-eq xs xs' ys ys' e h =
    let same : length xs ≡ length xs' =
      omega (arith, ap length e, length-append xs ys, length-append xs' ys') in
    sym (drop-append xs ys) ∙ ap (drop (length xs)) e ∙ rw same (drop-append xs' ys')

prefix-eq : (xs xs' ys ys' : Bytes) → xs ++ ys ≡ xs' ++ ys' → length xs ≡ length xs' → xs ≡ xs'
prefix-eq [] [] ys ys' e h = refl
prefix-eq [] (x ∷ xs') ys ys' e h = absurd (omega arith)
prefix-eq (x ∷ xs) [] ys ys' e h = absurd (omega arith)
prefix-eq (x ∷ xs) (x' ∷ xs') ys ys' e h = ground (arith, prefix-eq xs xs' ys ys')

abbrev before_hash : Bytes → Bytes → Bytes → Bytes
before_hash a b v = a ++ (b'-' ∷ (b ++ (b'-' ∷ (v ++ (b'-' ∷ [])))))

dashed-before_hash : (a b v h : Bytes) → dashed a b v h ≡ before_hash a b v ++ h
dashed-before_hash a b v h = simp append_assoc

after_short :
    (a b t t' : Bytes) → a ++ (b'-' ∷ (b ++ (b'-' ∷ t))) ≡ a ++ (b'-' ∷ (b ++ (b'-' ∷ t'))) → t ≡ t'
after_short a b t t' e =
    append_cancel_left (b'-' ∷ []) t t'
      (append_cancel_left b _ _ (append_cancel_left (b'-' ∷ []) _ _ (append_cancel_left a _ _ e)))

hash8_size : (c : Extern) (strs : List Bytes) (h : Bytes) → hash8 c strs ≡ ok h → length h ≡ 8
unfolding hash8
hash8_size c strs h e = (first8-eq-ok (hash_loop c strs [] []) h e).1

module _ (c : Extern) where
  -- Two equal names, of any applications, groups and versions, have equal hashes.
  pub deployment_name_collision :
      (app app' group group' id id' n : Bytes)
      → deployment_name c app group id ≡ ok n
      → deployment_name c app' group' id' ≡ ok n
      → hash8 c (app ∷ group ∷ id ∷ []) ≡ hash8 c (app' ∷ group' ∷ id' ∷ [])
  deployment_name_collision app app' group group' id id' n e e' =
      let p = deployment_name-NameParts c app group id n e in
      let p' = deployment_name-NameParts c app' group' id' n e' in
      let whole : before_hash app (to_lower c p.short) p.version ++ p.hash
          ≡ before_hash app' (to_lower c p'.short) p'.version ++ p'.hash =
        sym (dashed-before_hash _ _ _ _) ∙ sym p.name ∙ p'.name ∙ dashed-before_hash _ _ _ _ in
      let same : p.hash ≡ p'.hash =
        suffix-eq _ _ _ _ whole (hash8_size c _ _ p.hashed ∙ sym (hash8_size c _ _ p'.hashed)) in
      p.hashed ∙ ap ok same ∙ sym p'.hashed

  -- If the names of one group of one application are equal for two deployment ids, the first eight
  -- bytes of the ids are equal: a name changes with the version.
  pub deployment_name_version :
      (app group id id' n : Bytes)
      → deployment_name c app group id ≡ ok n
      → deployment_name c app group id' ≡ ok n
      → take 8 id ≡ take 8 id'
  deployment_name_version app group id id' n e e' =
      let p = deployment_name-NameParts c app group id n e in
      let p' = deployment_name-NameParts c app group id' n e' in
      let v = first8-eq-ok id p.version p.versioned in
      let v' = first8-eq-ok id' p'.version p'.versioned in
      let shorts : p.short ≡ p'.short = cc (p.shortened, p'.shortened) in
      let whole : dashed app (to_lower c p.short) p.version p.hash
          ≡ dashed app (to_lower c p.short) p'.version p'.hash =
        sym p.name
        ∙ p'.name
        ∙ ap (λ s. dashed app (to_lower c s) p'.version p'.hash) (sym shorts) in
      sym v.0
      ∙ prefix-eq _ _ _ _ (after_short app (to_lower c p.short) _ _ whole) (v.1 ∙ sym v'.1)
      ∙ v'.0
