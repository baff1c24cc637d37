-- ===== src/Deploy/Ready.antt =====
-- What holds of the configuration with which `Deploy` builds the image (internal/impl/deploy.go).
use mathlib.Core.Path.{subst}
use weaver_kube.Base.{
  wrap-eq-ok, ℕ, ◌+◌, ◌≤◌, true, false, List, [], ◌∷◌, Option, none, some, Bytes, codes,
  bytes_eq_iff, Map, lookup, insert, lookup-insert, count, sum_by, All, wrapped_at, wrap, ok,
  >>=-eq-ok, ok-injective, ◌≡◌, ◌≢◌, ◌⊎◌, ◌↔◌, inl, inr, refl, arith, Option-cases,
}
use weaver_kube.Config.{Api, KubeConfig, ListenerSpec, AppConfig}
use weaver_kube.Groups.{Binaries, ComponentListeners}
use weaver_kube.Deploy.{
  Host, BinaryVersions, app_config_path, choose_build_tool, or_default, fill_defaults, add_all,
  all_listeners, known_or_error, check_listeners, check_exists, check_version_compatibility, load,
  check, prepare,
}
use weaver_kube.Deploy.Versions.{compatible_of_ok}

-- How often the components of a binary declare a listener of this name.
abbrev pub declared : Bytes → List ComponentListeners → ℕ
declared x = sum_by (λ c. count x c.listeners)

abbrev known : Option (Unit {0}) → ℕ
known none = 0
known (some u) = 1

lookup-add_all :
    (x : Bytes) (ls : List Bytes) (m : Map (Unit {0}))
    → (1 ≤ known (lookup x (add_all ls m))) ↔ (1 ≤ count x ls + known (lookup x m))
unfolding add_all
lookup-add_all x [] m = (λ h. omega (arith, h), λ h. omega (arith, h))
lookup-add_all x (l ∷ ls) m =
    ground (arith, lookup-add_all x ls (insert l tt m), lookup-insert x l tt m)

lookup-all_listeners :
    (x : Bytes) (cs : List ComponentListeners) (m : Map (Unit {0}))
    → (1 ≤ known (lookup x (all_listeners cs m))) ↔ (1 ≤ declared x cs + known (lookup x m))
unfolding all_listeners
lookup-all_listeners x [] m = (λ h. omega (arith, h), λ h. omega (arith, h))
lookup-all_listeners x (c ∷ cs) m =
    ground
      (arith, lookup-all_listeners x cs (add_all c.listeners m), lookup-add_all x c.listeners m)

known_or_error-eq-ok :
    (x : Bytes) (o : Option (Unit {0})) → known_or_error x o ≡ ok tt → 1 ≤ known o
known_or_error-eq-ok x none h = cc
known_or_error-eq-ok x (some u) h = omega arith

-- The check of the listeners passes exactly if the components of the binary declare every
-- listener that the configuration names.
pub check_listeners_iff :
    (cs : List ComponentListeners) (specs : List ListenerSpec)
    → (check_listeners (all_listeners cs []) specs ≡ ok tt)
      ↔ All (λ l. 1 ≤ declared l.name cs) specs
unfolding check_listeners lookup
check_listeners_iff cs [] = (λ h. tt, λ h. refl)
check_listeners_iff cs (l ∷ ls) =
    let (out, back) = lookup-all_listeners l.name cs [] in
    let (rest, rest') = check_listeners_iff cs ls in
    (
      λ h.
          let (u, first, h') =
            >>=-eq-ok (known_or_error l.name (lookup l.name (all_listeners cs []))) _ h in
          (omega (arith, out (known_or_error-eq-ok l.name _ first)), rest h'),
      λ (d, ds). elim (Option-cases (lookup l.name (all_listeners cs []))) [
        | inl absent ↦ ground (arith, back (omega (arith, d)))
        | inr (u, found) ↦ rw found (rest' ds)
      ],
    )

or_default-set : (text default : Bytes) → default ≢ [] → or_default text default ≢ []
unfolding or_default
or_default-set text default h = ground (arith, bytes_eq_iff text [])

choose_build_tool-eq-ok :
    (given tool : Bytes)
    → choose_build_tool given ≡ ok tool
    → (tool ≡ codes "docker") ⊎ (tool ≡ codes "podman")
unfolding choose_build_tool
choose_build_tool-eq-ok given tool h =
    ground (arith, bytes_eq_iff given (codes "docker"), bytes_eq_iff given (codes "podman"))

module _ {K : Api} {V : Type 0} (h : Host K V) (bin : Binaries) where
  -- The configuration is the one that a file describes, is complete and fits the application, which
  -- is what the file at the configuration's path describes.
  pub record IsReady (file : Bytes) (app : AppConfig) (cfg : KubeConfig K) : Type 0 where
    pub text : Bytes
    pub given : KubeConfig K
    pub text_read : h.read_file file ≡ ok text
    pub described : h.unmarshal text ≡ ok given
    pub resolved : app_config_path h file given.app_config ≡ ok cfg.app_config
    pub groups_kept : cfg.groups ≡ given.groups
    pub listeners_kept : cfg.listeners ≡ given.listeners
    pub repo_kept : cfg.repo ≡ given.repo
    pub image_kept : cfg.image ≡ given.image
    pub contents : Bytes
    pub contents_read : h.read_file cfg.app_config ≡ ok contents
    pub parsed : h.parse_config cfg.app_config contents ≡ ok app
    pub tool : (cfg.build_tool ≡ codes "docker") ⊎ (cfg.build_tool ≡ codes "podman")
    pub namespace : cfg.namespace ≢ []
    pub service_account : cfg.service_account ≢ []
    pub base_image : cfg.base_image ≢ []
    pub interval : cfg.telemetry.metrics.export_interval ≢ []
    pub present : h.missing app.binary ≡ false
    pub compatible :
        (v : BinaryVersions V) × (h.read_versions app.binary ≡ ok v)
        × (h.same_version v.deployer_version h.deployer_version ≡ true)
    pub listeners :
        (cs : List ComponentListeners) × (bin.read_listeners app.binary ≡ ok cs)
        × All (λ l. 1 ≤ declared l.name cs) cfg.listeners

  present_of_ok : (app : AppConfig) → check_exists h app ≡ ok tt → h.missing app.binary ≡ false
  unfolding check_exists
  present_of_ok app e = ground arith

  -- What was read: the configuration of a file, and the application at the path that it names.
  pub record IsLoaded (file : Bytes) (given : KubeConfig K) (path : Bytes) (app : AppConfig)
      : Type 0 where
    pub text : Bytes
    pub contents : Bytes
    pub text_read : h.read_file file ≡ ok text
    pub described : h.unmarshal text ≡ ok given
    pub resolved : app_config_path h file given.app_config ≡ ok path
    pub contents_read : h.read_file path ≡ ok contents
    pub parsed : h.parse_config path contents ≡ ok app

  load-IsLoaded :
      (file : Bytes) (given : KubeConfig K) (path : Bytes) (app : AppConfig)
      → load h file ≡ ok (given, path, app)
      → IsLoaded file given path app
  unfolding load
  load-IsLoaded file given path app e =
      let (contents, read, e₁) =
        >>=-eq-ok (wrap (wrapped_at (codes "read deployment config file") file) (h.read_file file))
          _ e in
      let (given', described, e₂) =
        >>=-eq-ok
          (wrap (wrapped_at (codes "parse deployment config file") file) (h.unmarshal contents)) _
          e₁ in
      let (path', resolved, e₃) = >>=-eq-ok (app_config_path h file given'.app_config) _ e₂ in
      let (text, app_read, e₄) =
        >>=-eq-ok (wrap (wrapped_at (codes "read app config file") path') (h.read_file path')) _
          e₃ in
      let (app', parsed, e₅) =
        >>=-eq-ok
          (wrap (wrapped_at (codes "parse app config file") path') (h.parse_config path' text)) _
          e₄ in
      subst (λ (r : KubeConfig K × Bytes × AppConfig). IsLoaded file r.0 r.1 r.2) (ok-injective e₅)
        (record {
          text = contents;
          contents = text;
          text_read = wrap-eq-ok _ _ read;
          described = wrap-eq-ok _ _ described;
          resolved = resolved;
          contents_read = wrap-eq-ok _ _ app_read;
          parsed = wrap-eq-ok _ _ parsed;
        })

  -- The configuration with its defaults fits the application.
  filled-IsReady :
      (file : Bytes) (given : KubeConfig K) (path tool : Bytes) (app : AppConfig)
      (cs : List ComponentListeners)
      → IsLoaded file given path app
      → check_exists h app ≡ ok tt
      → check_version_compatibility h app.binary ≡ ok tt
      → choose_build_tool given.build_tool ≡ ok tool
      → bin.read_listeners app.binary ≡ ok cs
      → check_listeners (all_listeners cs []) given.listeners ≡ ok tt
      → IsReady file app (fill_defaults (record given { app_config = path; build_tool = tool }))
  unfolding fill_defaults
  filled-IsReady file given path tool app cs loaded exists versions chosen read checked = record {
    text = loaded.text;
    given = given;
    text_read = loaded.text_read;
    described = loaded.described;
    resolved = loaded.resolved;
    groups_kept = refl;
    listeners_kept = refl;
    repo_kept = refl;
    image_kept = refl;
    contents = loaded.contents;
    contents_read = loaded.contents_read;
    parsed = loaded.parsed;
    tool = choose_build_tool-eq-ok given.build_tool tool chosen;
    namespace = or_default-set given.namespace (codes "default") (λ h. cc);
    service_account = or_default-set given.service_account (codes "default") (λ h. cc);
    base_image = or_default-set given.base_image (codes "ubuntu:rolling") (λ h. cc);
    interval = or_default-set given.telemetry.metrics.export_interval (codes "30s") (λ h. cc);
    present = present_of_ok app exists;
    compatible = compatible_of_ok h app.binary versions;
    listeners = (cs, read, (check_listeners_iff cs given.listeners).0 checked);
  }

  check-IsReady :
      (file : Bytes) (given : KubeConfig K) (path : Bytes) (app app' : AppConfig)
      (cfg : KubeConfig K)
      → IsLoaded file given path app
      → check h bin (given, path, app) ≡ ok (app', cfg)
      → IsReady file app' cfg
  unfolding check
  check-IsReady file given path app app' cfg loaded e =
      let (_, exists, e₁) = >>=-eq-ok (check_exists h app) _ e in
      let (_, versions, e₂) = >>=-eq-ok (check_version_compatibility h app.binary) _ e₁ in
      let (tool, chosen, e₃) = >>=-eq-ok (choose_build_tool given.build_tool) _ e₂ in
      let (cs, read, e₄) =
        >>=-eq-ok
          (wrap (wrapped_at (codes "cannot read listeners from binary") app.binary)
            (bin.read_listeners app.binary))
          _ e₃ in
      let (_, checked, e₅) =
        >>=-eq-ok (check_listeners (all_listeners cs []) given.listeners) _ e₄ in
      subst (λ (r : AppConfig × KubeConfig K). IsReady file r.0 r.1) (ok-injective e₅)
        (filled-IsReady file given path tool app cs loaded exists versions chosen
          (wrap-eq-ok _ _ read) checked)

  -- If the preparation succeeds, the configuration has the groups, listeners, repository and image
  -- that the given file describes, the build tool is docker or podman, no text that has a default is
  -- empty, the application is what the contents of the file at the configuration's path parse to,
  -- its binary exists and was built with the tool's deployer version, and it declares every listener
  -- that the configuration names.
  pub prepare-IsReady :
      (config_filename : Bytes) (app : AppConfig) (cfg : KubeConfig K)
      → prepare h bin config_filename ≡ ok (app, cfg)
      → IsReady config_filename app cfg
  unfolding prepare
  prepare-IsReady file app cfg e =
      let ((given, path, app'), loaded, checked) = >>=-eq-ok (load h file) (check h bin) e in
      check-IsReady file given path app' app cfg (load-IsLoaded file given path app' loaded) checked
