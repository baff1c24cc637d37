-- ===== src/Manifests/Documents.antt =====
-- What `generateCoreYAMLs` and `generateYAMLs` write (internal/impl/kube.go).
pub mod Total
use weaver_kube.Base.{
  ℕ, ◌+◌, ◌*◌, List, [], ◌∷◌, ◌++◌, map, append_assoc, append-nil, Option, Bytes, codes, length,
  sum_by, sum_by-append, Outcome, ok, err, panic, wrap, ◌>>=◌, >>=-eq-ok, ok-injective, wrapped_at,
  ◌≡◌, refl, sym, ap, ◌∙◌, arith,
}
use weaver_kube.Names.{Extern}
use weaver_kube.Config.{Api, Listener, Group, Deployment}
use weaver_kube.Resources.Builders.{build_deployment, build_listener_service, build_autoscaler}
use weaver_kube.Resources.{KubeService, KubeDeployment, KubeAutoscaler}
use weaver_kube.Manifests.{
  Resource, service, deployment, autoscaler, Tools, document, marshal_resource, generate_services,
  generate_group, generate_groups, generate_core_yamls,
}

-- A resource that is to be written: its comment, and the building, which may fail.
abbrev pub Job : Api → Type 0
Job K = Bytes × Outcome (Resource K)

bind_assoc {ℓ} :
    {A B D : Type ℓ} (m : Outcome A) (f : A → Outcome B) (h : B → Outcome D)
    → ((m >>= f) >>= h) ≡ (m >>= λ a. f a >>= h)
bind_assoc (ok a) f h = refl
bind_assoc (err e) f h = refl
bind_assoc (panic e) f h = refl

bind_cong {ℓ} :
    {A B : Type ℓ} (m : Outcome A) (f h : A → Outcome B)
    → ((a : A) → f a ≡ h a)
    → (m >>= f) ≡ (m >>= h)
bind_cong (ok a) f h same = same a
bind_cong (err e) f h same = refl
bind_cong (panic e) f h same = refl

bind_ok {ℓ} : {A : Type ℓ} (m : Outcome A) → (m >>= λ a. ok a) ≡ m
bind_ok (ok a) = refl
bind_ok (err e) = refl
bind_ok (panic e) = refl

module _ {K : Api} where
  abbrev pub service_comment : Group K → Bytes
  service_comment g = codes "Listener Service for group " ++ g.name

  abbrev pub deployment_comment : Group K → Bytes
  deployment_comment g = codes "Deployment for group " ++ g.name

  abbrev autoscaler_comment : Group K → Bytes
  autoscaler_comment g = codes "Autoscaler for group " ++ g.name

  abbrev pub service_of : Extern → Deployment K → Group K → Listener → Outcome KubeService
  service_of c d g l =
      wrap (wrapped_at (codes "unable to create kube listener service for") l.name)
        (build_listener_service c d g l)

  abbrev pub deployment_of : Extern → Deployment K → Group K → Outcome (KubeDeployment K)
  deployment_of c d g =
      wrap (wrapped_at (codes "unable to create kube deployment for group") g.name)
        (build_deployment c d g)

  abbrev autoscaler_of : Extern → Deployment K → Group K → Outcome (KubeAutoscaler K)
  autoscaler_of c d g =
      wrap (wrapped_at (codes "unable to create kube autoscaler for group") g.name)
        (build_autoscaler c d g)

  abbrev pub service_jobs : Extern → Deployment K → Group K → List Listener → List (Job K)
  service_jobs c d g [] = []
  service_jobs c d g (l ∷ ls) =
      (service_comment g, service_of c d g l >>= λ s. ok (service s)) ∷ service_jobs c d g ls

  abbrev pub autoscaler_jobs : Extern → Deployment K → Group K → List (Job K)
  autoscaler_jobs c d g =
      (autoscaler_comment g, autoscaler_of c d g >>= λ hpa. ok (autoscaler hpa)) ∷ []

  -- The resources of a group: the Services of its listeners, its Deployment and its autoscaler.
  abbrev pub group_jobs : Extern → Deployment K → Group K → List (Job K)
  group_jobs c d g =
      service_jobs c d g g.listeners
      ++ (deployment_comment g, deployment_of c d g >>= λ dep. ok (deployment dep))
        ∷ autoscaler_jobs c d g

  abbrev pub core_jobs : Extern → Deployment K → List (Group K) → List (Job K)
  core_jobs c d [] = []
  core_jobs c d (g ∷ gs) = group_jobs c d g ++ core_jobs c d gs

  module _ (t : Tools K) where
    -- The resources are built and written one after the other, up to the first that fails.
    abbrev pub run : List (Job K) → Bytes → Outcome Bytes
    run [] w = ok w
    run ((comment, job) ∷ jobs) w = do
      resource ← job
      w' ← marshal_resource t w resource comment
      run jobs w'

    pub run-append : (js ks : List (Job K)) (w : Bytes) → run (js ++ ks) w ≡ (run js w >>= run ks)
    run-append [] ks w = refl
    run-append ((comment, job) ∷ js) ks w =
        bind_cong job _ _ (λ r.
          bind_cong (marshal_resource t w r comment) _ _ (λ w'. run-append js ks w')
          ∙ sym (bind_assoc (marshal_resource t w r comment) (run js) (run ks)))
        ∙ sym (bind_assoc job (λ r. marshal_resource t w r comment >>= run js) (run ks))

    -- The first job of a list whose resource is built of a value.
    run_built :
        {A : Type 0} (m : Outcome A) (f : A → Resource K) (comment : Bytes) (jobs : List (Job K))
        (w : Bytes)
        → run ((comment, m >>= λ a. ok (f a)) ∷ jobs) w
          ≡ (m >>= λ a. marshal_resource t w (f a) comment >>= run jobs)
    run_built m f comment jobs w =
        bind_assoc m (λ a. ok (f a)) (λ r. marshal_resource t w r comment >>= run jobs)

    module _ (c : Extern) (d : Deployment K) where
      generate_services_lem :
          (g : Group K) (ls : List Listener) (w : Bytes)
          → generate_services t c d g ls w ≡ run (service_jobs c d g ls) w
      unfolding generate_services
      generate_services_lem g [] w = refl
      generate_services_lem g (l ∷ ls) w =
          bind_cong (service_of c d g l) _ _ (λ s.
            bind_cong (marshal_resource t w (service s) (service_comment g)) _ _
              (λ w'. generate_services_lem g ls w'))
          ∙ sym
              (run_built (service_of c d g l) service (service_comment g) (service_jobs c d g ls) w)

      generate_group_lem :
          (g : Group K) (w : Bytes) → generate_group t c d g w ≡ run (group_jobs c d g) w
      unfolding generate_group
      generate_group_lem g w =
          ap (λ m. m >>= last_two) (generate_services_lem g g.listeners w)
          ∙ bind_cong (run (service_jobs c d g g.listeners) w) _ _ (λ w₁.
            bind_cong (deployment_of c d g) _ _ (λ dep.
              bind_cong (marshal_resource t w₁ (deployment dep) (deployment_comment g)) _ _ (λ w₂.
                bind_cong (autoscaler_of c d g) _ _ (λ hpa. sym (bind_ok _))
                ∙ sym (run_built (autoscaler_of c d g) autoscaler (autoscaler_comment g) [] w₂)))
            ∙ sym (
                run_built (deployment_of c d g) deployment (deployment_comment g)
                  (autoscaler_jobs c d g) w₁))
          ∙ sym (run-append (service_jobs c d g g.listeners) _ w)
        where
          last_two : Bytes → Outcome Bytes
          last_two w₁ = do
            dep ← deployment_of c d g
            w₂ ← marshal_resource t w₁ (deployment dep) (deployment_comment g)
            hpa ← autoscaler_of c d g
            marshal_resource t w₂ (autoscaler hpa) (autoscaler_comment g)

      generate_groups_lem :
          (gs : List (Group K)) (w : Bytes) → generate_groups t c d gs w ≡ run (core_jobs c d gs) w
      unfolding generate_groups
      generate_groups_lem [] w = refl
      generate_groups_lem (g ∷ gs) w =
          ap (λ m. m >>= generate_groups t c d gs) (generate_group_lem g w)
          ∙ bind_cong (run (group_jobs c d g) w) _ _ (λ w'. generate_groups_lem gs w')
          ∙ sym (run-append (group_jobs c d g) (core_jobs c d gs) w)

      -- `generateCoreYAMLs` writes, for each group in order, the Services of its listeners, its
      -- Deployment and its autoscaler, and stops at the first that cannot be built or marshalled,
      -- with its error.
      pub generate_core_yamls_lem :
          (w : Bytes) → generate_core_yamls t c w d ≡ run (core_jobs c d d.groups) w
      unfolding generate_core_yamls
      generate_core_yamls_lem w = generate_groups_lem d.groups w
