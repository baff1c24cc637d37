-- ===== src/Images/Commands.antt =====
-- Which commands make an image (internal/impl/docker.go).
use weaver_kube.Base.{
  wrap-eq-ok, Bool, if◌then◌else◌, List, [], ◌∷◌, ◌++◌, Bytes, codes, bytes_eq, bytes_eq_iff,
  wrapped, Outcome, ok, err, panic, ◌>>=◌, ok-injective, ◌≡◌, ◌≢◌, ◌⊎◌, inl, inr, refl, sym, arith,
  Bool-cases,
}
use weaver_kube.Config.{AppConfig}
use weaver_kube.Images.{
  DockerOptions, Machine, choose_install, docker_content, build_command, run_build, build_image,
  tag_command, push_command, push_tagged, push_image, upload, build_and_upload,
}

module _ (m : Machine) (opts : DockerOptions) where
  -- How an image came about: without a repository it was built, and with one it was built, tagged
  -- and pushed, in this order and each with success, and has the tag's name.
  abbrev pub IsDelivered : Bytes → List Bytes → List (List Bytes) → Bytes → Type 0
  IsDelivered name build log image =
      (m.run build ≡ ok tt)
      × (((opts.repo ≡ []) × (log ≡ build ∷ []) × (image ≡ name))
          ⊎ ((opts.repo ≢ [])
              × (m.run (tag_command m opts name) ≡ ok tt)
              × (m.run (push_command m opts name) ≡ ok tt)
              × (log ≡ build ∷ tag_command m opts name ∷ push_command m opts name ∷ [])
              × (image ≡ m.join_url opts.repo name)))

  ran :
      {A : Type 0} (o : Outcome (Unit {0})) (a b : A)
      → (o >>= λ _. ok a) ≡ ok b
      → (o ≡ ok tt) × (b ≡ a)
  ran (ok u) a b e = (refl, sym (ok-injective e))
  ran (err x) a b e = cc
  ran (panic x) a b e = cc

  push_tagged_lem :
      (name image : Bytes) (log : List (List Bytes)) (o : Outcome (Unit {0}))
      → (push_tagged m opts name log o).1 ≡ ok image
      → (o ≡ ok tt)
        × (m.run (push_command m opts name) ≡ ok tt)
        × ((push_tagged m opts name log o).0 ≡ log ++ push_command m opts name ∷ [])
        × (image ≡ m.join_url opts.repo name)
  unfolding push_tagged
  push_tagged_lem name image log (ok u) h =
      let (pushed, named) =
        ran (m.run (push_command m opts name)) (m.join_url opts.repo name) image h in
      (refl, pushed, refl, named)
  push_tagged_lem name image log (err x) h = cc
  push_tagged_lem name image log (panic x) h = cc

  -- The upload of an image that was built.
  upload_built :
      (name image : Bytes) (build : List Bytes)
      → m.run build ≡ ok tt
      → (upload m opts (build ∷ [], ok name)).1 ≡ ok image
      → IsDelivered name build (upload m opts (build ∷ [], ok name)).0 image
  unfolding upload push_image
  upload_built name image build built h = elim (Bool-cases (bytes_eq opts.repo [])) [
    | inl local ↦
        rw local (
          built,
          inl ((bytes_eq_iff opts.repo []).0 local, refl, ok-injective (sym (rw local at h))),
        )
    | inr remote ↦
        let (tagged, pushed, log, named) =
          push_tagged_lem name image (build ∷ tag_command m opts name ∷ [])
            (m.run (tag_command m opts name))
            (wrap-eq-ok (wrapped (codes "unable to push image")) _ (rw remote at h)) in
        let given : opts.repo ≢ [] = ground (arith, bytes_eq_iff opts.repo [], remote) in
        rw remote (built, inr (given, tagged, pushed, log, named))
  ]

  upload_lem :
      (name image : Bytes) (build : List Bytes) (o : Outcome (Unit {0}))
      → m.run build ≡ o
      → (upload m opts (build ∷ [], (o >>= λ _. ok name))).1 ≡ ok image
      → IsDelivered name build (upload m opts (build ∷ [], (o >>= λ _. ok name))).0 image
  unfolding upload
  upload_lem name image build (ok u) e h = upload_built name image build e h
  upload_lem name image build (err x) e h = cc
  upload_lem name image build (panic x) e h = cc

  -- If an image is returned, then its name and the command that builds it are those that
  -- `buildImage` computes, the commands that were run are exactly the build command and, with a
  -- repository, the tag and the push command behind it, all succeeded, and the returned name is
  -- the one that was built or pushed.
  pub build_and_upload-IsDelivered :
      (app : AppConfig) (deployment_id image : Bytes)
      → (build_and_upload m app deployment_id opts).1 ≡ ok image
      → (name : Bytes) × (build : List Bytes) × (build_command m app deployment_id opts
          ≡ ok (name, build))
        × IsDelivered name build (build_and_upload m app deployment_id opts).0 image
  unfolding build_and_upload build_image upload run_build
  build_and_upload-IsDelivered app deployment_id image h =
      from (build_command m app deployment_id opts) h
    where
      from :
          (b : Outcome (Bytes × List Bytes))
          → (upload m opts (run_build m b)).1 ≡ ok image
          → (name : Bytes) × (build : List Bytes) × (b ≡ ok (name, build))
            × IsDelivered name build (upload m opts (run_build m b)).0 image
      from (ok (name, build)) h =
          (name, build, refl, upload_lem name image build (m.run build) refl h)
      from (err x) h = cc
      from (panic x) h = cc

module _ (m : Machine) where
  -- If it can be chosen what to install, the entrypoint of the Dockerfile is the copied tool when
  -- the running tool can run in the container, and the installed one otherwise.
  pub entrypoint-docker_content :
      (tool work_dir version install base_image : Bytes) (is_dev : Bool)
      → choose_install m tool work_dir version is_dev ≡ ok install
      → (docker_content m install tool base_image).entrypoint ≡ (
          if m.runs_in_container
          then m.join_path (codes "/weaver") (m.base_name tool)
          else codes "/weaver/weaver-kube")
  unfolding choose_install docker_content bytes_eq
  entrypoint-docker_content tool work_dir version install base_image is_dev h = ground arith
