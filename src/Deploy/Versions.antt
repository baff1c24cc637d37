-- ===== src/Deploy/Versions.antt =====
-- `checkVersionCompatibility` of internal/impl/deploy.go.
use weaver_kube.Base.{wrap-eq-ok, true, Bytes, codes, wrapped, wrap, ok, >>=-eq-ok, ◌≡◌, arith}
use weaver_kube.Config.{Api}
use weaver_kube.Manifests.{tool_version}
use weaver_kube.Deploy.{Host, BinaryVersions, check_version_compatibility}

module _ {K : Api} {V : Type 0} (h : Host K V) where
  -- If the version check passes, the binary's versions could be read and its deployer version is
  -- the one the tool was built with.
  pub compatible_of_ok :
      (app_binary : Bytes)
      → check_version_compatibility h app_binary ≡ ok tt
      → (v : BinaryVersions V) × (h.read_versions app_binary ≡ ok v)
        × (h.same_version v.deployer_version h.deployer_version ≡ true)
  unfolding check_version_compatibility
  compatible_of_ok app_binary e =
      let (v, read, e₁) =
        >>=-eq-ok (wrap (wrapped (codes "read versions")) (h.read_versions app_binary)) _ e in
      let (tool, _, e₂) = >>=-eq-ok h.executable _ e₁ in
      let (own, _, e₃) =
        >>=-eq-ok (wrap (wrapped (codes "read versions")) (h.read_versions tool)) _ e₂ in
      let (self, _, e₄) =
        >>=-eq-ok (wrap (wrapped (codes "read weaver-kube version")) (tool_version h.build_info)) _
          e₃ in
      (v, wrap-eq-ok _ _ read, ground (arith, e₄))
