-- ===== src/Images.antt =====
-- `buildAndUploadDockerImage` of internal/impl/docker.go: the container image of an application.
pub mod Commands
use weaver_kube.Base.{
  wrapped_at, Bool, true, false, ◌&&◌, ◌||◌, not, List, [], ◌∷◌, ◌++◌, Option, none, some,
  if◌then◌else◌, Bytes, codes, bytes_eq, Error, plain, wrapped, Outcome, ok, err, panic, wrap,
  ◌>>=◌,
}
use weaver_kube.Names.{first8}
use weaver_kube.Config.{AppConfig}
use weaver_kube.Manifests.{tool_version}

-- `dockerOptions`
pub record DockerOptions : Type 0 where
  pub image : Bytes
  pub repo : Bytes
  pub base_image : Bytes
  pub build_tool : Bytes

-- The values that the template of the Dockerfile is filled with.
pub record DockerContent : Type 0 where
  pub install : Bytes
  pub entrypoint : Bytes
  pub base_image : Bytes

-- What the program calls in other packages. `runs_in_container` is the test for linux/amd64,
-- `answer` the line that the user types, `run` the execution of a command.
pub record Machine : Type 0 where
  pub make_temp_dir : Outcome Bytes
  pub base_name : Bytes → Bytes
  pub join_path : Bytes → Bytes → Bytes
  pub join_url : Bytes → Bytes → Bytes
  pub open_file : Bytes → Outcome (Unit {0})
  pub stat_mode : Bytes → Outcome Bytes
  pub create_file : Bytes → Outcome (Unit {0})
  pub copy_bytes : Bytes → Bytes → Outcome (Unit {0})
  pub change_mode : Bytes → Bytes → Outcome (Unit {0})
  pub build_info : Option Bytes
  pub executable : Outcome Bytes
  pub runs_in_container : Bool
  pub answer : Bytes
  pub write_dockerfile : Bytes → DockerContent → Outcome (Unit {0})
  pub run : List Bytes → Outcome (Unit {0})

-- The commands that were run so far, and the outcome.
abbrev pub Logged : Type 0 → Type 0
Logged A = List (List Bytes) × Outcome A

abbrev pub module_path : Bytes
module_path = codes "github.com/ServiceWeaver/weaver-kube/cmd/weaver-kube@"

-- `fmt.Sprintf("%s:%s", app.Name, depId[:8])`, unless the options name the image.
unfoldable pub image_name : AppConfig → Bytes → DockerOptions → Outcome Bytes
image_name app deployment_id opts =
    if bytes_eq opts.image []
    then (first8 deployment_id >>= λ version. ok (app.name ++ (codes ":" ++ version)))
    else ok opts.image

module _ (m : Machine) where
  -- `cp` of internal/impl/util.go
  unfoldable pub copy_file : Bytes → Bytes → Outcome (Unit {0})
  copy_file src dst = do
    _ ← wrap (wrapped_at (codes "open") src) (m.open_file src)
    mode ← wrap (wrapped_at (codes "stat") src) (m.stat_mode src)
    _ ← wrap (wrapped_at (codes "create") dst) (m.create_file dst)
    _ ← wrap (wrapped_at (codes "cp") (src ++ (codes " " ++ dst))) (m.copy_bytes src dst)
    wrap (wrapped_at (codes "chmod") dst) (m.change_mode dst mode)

  is_yes : Bytes → Bool
  is_yes text = bytes_eq text [] || bytes_eq text (codes "y") || bytes_eq text (codes "Y")

  copy_tool : Bytes → Bytes → Outcome Bytes
  copy_tool tool work_dir = do _ ← copy_file tool (m.join_path work_dir (m.base_name tool)); ok []

  -- What is to be installed in the image: nothing if the running binary is copied.
  unfoldable pub choose_install : Bytes → Bytes → Bytes → Bool → Outcome Bytes
  unfolding is_yes copy_tool
  choose_install tool work_dir version is_dev =
      if m.runs_in_container
      then copy_tool tool work_dir
      else if is_dev
      then (if is_yes m.answer
          then ok (module_path ++ codes "latest")
          else err (plain (codes "user bailed out")))
      else ok (module_path ++ version)

  unfoldable pub docker_content : Bytes → Bytes → Bytes → DockerContent
  docker_content install tool base_image = record {
    install = install;
    entrypoint =
        if bytes_eq install []
        then m.join_path (codes "/weaver") (m.base_name tool)
        else codes "/weaver/weaver-kube";
    base_image = base_image;
  }

  -- The part of `buildImage` that fills the working directory, which it returns.
  unfoldable pub fill_work_dir : AppConfig → DockerOptions → Outcome Bytes
  unfolding choose_install docker_content
  fill_work_dir app opts = do
    work_dir ← m.make_temp_dir
    _ ← copy_file app.binary (m.join_path work_dir (m.base_name app.binary))
    (version, is_dev) ← tool_version m.build_info
    tool ← m.executable
    install ← choose_install tool work_dir version is_dev
    let dockerfile : Bytes = m.join_path work_dir (codes "Dockerfile")
    _ ← m.create_file dockerfile
    _ ← m.write_dockerfile dockerfile (docker_content install tool opts.base_image)
    ok work_dir

  -- The image's name and the command that builds it.
  unfoldable pub build_command : AppConfig → Bytes → DockerOptions → Outcome (Bytes × List Bytes)
  build_command app deployment_id opts = do
    image ← image_name app deployment_id opts
    work_dir ← fill_work_dir app opts
    ok (image, opts.build_tool ∷ codes "build" ∷ work_dir ∷ codes "-t" ∷ image ∷ [])

  -- The image after its command was run.
  run_build : Outcome (Bytes × List Bytes) → Logged Bytes
  run_build (ok (image, command)) = (command ∷ [], (m.run command >>= λ _. ok image))
  run_build (err e) = ([], err e)
  run_build (panic text) = ([], panic text)

  unfoldable pub build_image : AppConfig → Bytes → DockerOptions → Logged Bytes
  unfolding run_build
  build_image app deployment_id opts = run_build (build_command app deployment_id opts)

  abbrev pub tag_command : DockerOptions → Bytes → List Bytes
  tag_command opts image = opts.build_tool ∷ codes "tag" ∷ image ∷ m.join_url opts.repo image ∷ []

  abbrev pub push_command : DockerOptions → Bytes → List Bytes
  push_command opts image = opts.build_tool ∷ codes "push" ∷ m.join_url opts.repo image ∷ []

  -- `pushImage` after the tag command.
  push_tagged : DockerOptions → Bytes → List (List Bytes) → Outcome (Unit {0}) → Logged Bytes
  push_tagged opts image log (err e) = (log, err e)
  push_tagged opts image log (panic text) = (log, panic text)
  push_tagged opts image log (ok _) = (
    log ++ push_command opts image ∷ [],
    (m.run (push_command opts image) >>= λ _. ok (m.join_url opts.repo image)),
  )

  unfoldable pub push_image : DockerOptions → Bytes → List (List Bytes) → Logged Bytes
  unfolding push_tagged
  push_image opts image log =
      push_tagged opts image (log ++ tag_command opts image ∷ []) (m.run (tag_command opts image))

  -- `buildAndUploadDockerImage` after the image was built.
  upload : DockerOptions → Logged Bytes → Logged Bytes
  upload opts (log, ok image) =
      if bytes_eq opts.repo []
      then (log, ok image)
      else (let (log', pushed) = push_image opts image log in
          (log', wrap (wrapped (codes "unable to push image")) pushed))
  upload opts (log, failure) = (log, wrap (wrapped (codes "unable to create image")) failure)

  unfoldable pub build_and_upload : AppConfig → Bytes → DockerOptions → Logged Bytes
  unfolding upload push_image build_image
  build_and_upload app deployment_id opts = upload opts (build_image app deployment_id opts)
