-- ===== src/Manifests/Contents.antt =====
-- The documents that `marshalResource` of internal/impl/kube.go wrote, one behind the other.
use mathlib.Core.Path.{subst}
use mathlib.Core.List.{Memᴰ}
use mathlib.Core.List.Memᴰ
use weaver_kube.Base.{
  List, [], ◌∷◌, ◌++◌, append_assoc, append-nil, Bytes, Outcome, ok, ◌>>=◌, >>=-eq-ok, ok-injective,
  ◌≡◌, refl, sym, ap, ◌∙◌,
}
use weaver_kube.Names.{Extern}
use weaver_kube.Config.{Listener, Api, Group, Deployment}
use weaver_kube.Manifests.{service, Resource, deployment, Tools, document, marshal_resource}
use weaver_kube.Manifests.Documents.{
  service_comment, service_of, Job, deployment_comment, deployment_of, service_jobs, group_jobs,
  run, core_jobs,
}

-- A document: its comment and its resource.
abbrev pub Document : Api → Type 0
Document K = Bytes × Resource K

module _ {K : Api} where
  -- The documents are those that the jobs build.
  abbrev pub Built : List (Job K) → List (Document K) → Type 0
  Built [] [] = Unit
  Built ((comment, job) ∷ js) (d ∷ ds) = (comment ≡ d.0) × (job ≡ ok d.1) × Built js ds
  Built _ _ = ⊥

  -- A job of the list has been built and its document stands in the list.
  pub Built-mem :
      (comment : Bytes) (job : Outcome (Resource K)) (js : List (Job K)) (ds : List (Document K))
      → Built js ds
      → Memᴰ (comment, job) js
      → (r : Resource K) × (job ≡ ok r) × Memᴰ (comment, r) ds
  Built-mem comment job [] ds h m = absurd (Memᴰ.not-nil m)
  Built-mem comment job (j ∷ js) [] h m = absurd h
  Built-mem comment job (j ∷ js) (d ∷ ds) (same, made, rest) (Memᴰ.head e) =
      (d.1, ap (λ x. x.1) e ∙ made, Memᴰ.head (ap (λ x. (x, d.1)) (ap (λ x. x.0) e ∙ same)))
  Built-mem comment job (j ∷ js) (d ∷ ds) (same, made, rest) (Memᴰ.tail m) =
      let (r, built, there) = Built-mem comment job js ds rest m in (r, built, Memᴰ.tail there)

  -- The Deployment of a group is among the jobs.
  pub deployment-mem-core_jobs :
      (c : Extern) (d : Deployment K) (g : Group K) (gs : List (Group K))
      → Memᴰ g gs
      → Memᴰ
          (deployment_comment g, deployment_of c d g >>= λ dep. ok (deployment dep))
          (core_jobs c d gs)
  deployment-mem-core_jobs c d g [] m = absurd (Memᴰ.not-nil m)
  deployment-mem-core_jobs c d g (h ∷ gs) (Memᴰ.head e) = Memᴰ.append_left (core_jobs c d gs) (
      Memᴰ.append_right (service_jobs c d h h.listeners) (
        Memᴰ.head
          (ap (λ x. (deployment_comment x, deployment_of c d x >>= λ dep. ok (deployment dep))) e)))
  deployment-mem-core_jobs c d g (h ∷ gs) (Memᴰ.tail m) =
      Memᴰ.append_right (group_jobs c d h) (deployment-mem-core_jobs c d g gs m)

  service-mem-service_jobs :
      (c : Extern) (d : Deployment K) (g : Group K) (l : Listener) (ls : List Listener)
      → Memᴰ l ls
      → Memᴰ (service_comment g, service_of c d g l >>= λ s. ok (service s)) (service_jobs c d g ls)
  service-mem-service_jobs c d g l [] m = absurd (Memᴰ.not-nil m)
  service-mem-service_jobs c d g l (k ∷ ls) (Memᴰ.head e) =
      Memᴰ.head (ap (λ x. (service_comment g, service_of c d g x >>= λ s. ok (service s))) e)
  service-mem-service_jobs c d g l (k ∷ ls) (Memᴰ.tail m) =
      Memᴰ.tail (service-mem-service_jobs c d g l ls m)

  -- The Service of a listener of a group is among the jobs.
  pub service-mem-core_jobs :
      (c : Extern) (d : Deployment K) (g : Group K) (l : Listener) (gs : List (Group K))
      → Memᴰ g gs
      → Memᴰ l g.listeners
      → Memᴰ (service_comment g, service_of c d g l >>= λ s. ok (service s)) (core_jobs c d gs)
  service-mem-core_jobs c d g l [] m there = absurd (Memᴰ.not-nil m)
  service-mem-core_jobs c d g l (h ∷ gs) (Memᴰ.head e) there = Memᴰ.append_left (core_jobs c d gs) (
      subst
        (λ (x : Group K).
          Memᴰ (service_comment g, service_of c d g l >>= λ s. ok (service s)) (group_jobs c d x))
        e (Memᴰ.append_left _ (service-mem-service_jobs c d g l g.listeners there)))
  service-mem-core_jobs c d g l (h ∷ gs) (Memᴰ.tail m) there =
      Memᴰ.append_right (group_jobs c d h) (service-mem-core_jobs c d g l gs m there)

  module _ (t : Tools K) where
    -- The text is that of the documents, one behind the other, and nothing else.
    abbrev pub Prints : List (Document K) → Bytes → Type 0
    Prints [] text = text ≡ []
    Prints ((comment, r) ∷ ds) text =
        (yaml rest : Bytes) × (t.yaml r ≡ ok yaml)
        × (text ≡ document comment yaml ++ rest)
        × Prints ds rest

    marshal_resource-eq-ok :
        (w : Bytes) (r : Resource K) (comment w' : Bytes)
        → marshal_resource t w r comment ≡ ok w'
        → (yaml : Bytes) × (t.yaml r ≡ ok yaml) × (w' ≡ w ++ document comment yaml)
    unfolding marshal_resource
    marshal_resource-eq-ok w r comment w' e =
        let (yaml, printed, e₁) = >>=-eq-ok (t.yaml r) _ e in (yaml, printed, sym (ok-injective e₁))

    pub run-Prints :
        (js : List (Job K)) (w w' : Bytes)
        → run t js w ≡ ok w'
        → (ds : List (Document K)) × (text : Bytes) × Built js ds
          × Prints ds text
          × (w' ≡ w ++ text)
    run-Prints [] w w' e = ([], [], tt, refl, sym (ok-injective e) ∙ sym (append-nil w))
    run-Prints ((comment, job) ∷ js) w w' e =
        let (r, built, e₁) = >>=-eq-ok job _ e in
        let (v, marshalled, e₂) = >>=-eq-ok (marshal_resource t w r comment) _ e₁ in
        let (yaml, printed, grown) = marshal_resource-eq-ok w r comment v marshalled in
        let (ds, text, all, prints, end) = run-Prints js v w' e₂ in
        (
          (comment, r) ∷ ds,
          document comment yaml ++ text,
          (refl, built, all),
          (yaml, text, printed, refl, prints),
          end ∙ rw (grown, append_assoc) refl,
        )

    -- The text has a document with this comment and this resource.
    abbrev pub HasDocument : Bytes → Bytes → Resource K → Type 0
    HasDocument text comment r =
        (yaml before after : Bytes) × (t.yaml r ≡ ok yaml)
        × (text ≡ before ++ (document comment yaml ++ after))

    pub Prints-HasDocument :
        (comment : Bytes) (r : Resource K) (ds : List (Document K)) (head text : Bytes)
        → Prints ds text
        → Memᴰ (comment, r) ds
        → HasDocument (head ++ text) comment r
    Prints-HasDocument comment r [] head text _ m = absurd (Memᴰ.not-nil m)
    Prints-HasDocument comment r (d ∷ ds) head text (yaml, rest, printed, same, prints)
          (Memᴰ.head e) =
        (
          yaml,
          head,
          rest,
          ap (λ x. t.yaml x.1) e ∙ printed,
          rw same (ap (λ (x : Document K). head ++ (document x.0 yaml ++ rest)) (sym e)),
        )
    Prints-HasDocument comment r (d ∷ ds) head text (yaml, rest, printed, same, prints)
          (Memᴰ.tail m) =
        let (found, before, after, e, here) =
          Prints-HasDocument comment r ds (head ++ document d.0 yaml) rest prints m in
        (found, before, after, e, rw same (sym (append_assoc head (document d.0 yaml) rest) ∙ here))
