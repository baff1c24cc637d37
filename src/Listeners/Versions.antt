-- ===== src/Listeners/Versions.antt =====
-- The name of a listener's Service in two versions of an application (`newListener` of
-- internal/impl/kube.go).
use weaver_kube.Base.{
  ℕ, List, [], ◌∷◌, ◌++◌, Bytes, bytes_eq, bytes_eq_iff, if◌then◌else◌, Bool-cases, ok,
  ok-injective, length, drop, drop-append, ◌≡◌, ◌≢◌, ◌⊎◌, ◌↔◌, inl, inr, refl, sym, ap, ◌∙◌, arith,
}
use weaver_kube.Names.{first8}
use weaver_kube.Config.{Listener, ListenerSpec}
use weaver_kube.Listeners.{new_listener}
use weaver_kube.Listeners.Options.{first_spec, given_name, new_listener_lem, configured_name}

name_of :
    (id version : Bytes) (specs : List ListenerSpec) (name : Bytes) (port : ℕ) (r : Listener × ℕ)
    → first8 id ≡ ok version
    → new_listener id specs name port ≡ ok r
    → r.0.service_name ≡ (
        if bytes_eq (given_name (first_spec name specs)) []
        then name ++ (b'-' ∷ version)
        else given_name (first_spec name specs))
name_of id version specs name port r cut made =
    let same = ok-injective (sym made ∙ new_listener_lem id version specs name port cut) in
    ap (λ x. x.0.service_name) same ∙ configured_name (first_spec name specs) _

-- A listener in two versions of an application, with one configuration: if the configuration gives
-- a name to its Service, the Service has this name in both; if not, the two Services have the same
-- name if and only if the deployment ids have the same first eight bytes.
pub service_name_version :
    (id id' version version' : Bytes) (specs : List ListenerSpec) (name : Bytes) (port port' : ℕ)
    (r r' : Listener × ℕ)
    → first8 id ≡ ok version
    → first8 id' ≡ ok version'
    → new_listener id specs name port ≡ ok r
    → new_listener id' specs name port' ≡ ok r'
    → ((given_name (first_spec name specs) ≢ [])
        × (r.0.service_name ≡ given_name (first_spec name specs))
        × (r'.0.service_name ≡ given_name (first_spec name specs)))
      ⊎ ((given_name (first_spec name specs) ≡ [])
          × ((r.0.service_name ≡ r'.0.service_name) ↔ (version ≡ version')))
service_name_version id id' version version' specs name port port' r r' cut cut' made made' =
    let given = given_name (first_spec name specs) in
    let one = name_of id version specs name port r cut made in
    let two = name_of id' version' specs name port' r' cut' made' in
    elim (Bool-cases (bytes_eq given [])) [
      | inl empty ↦
          let first = one ∙ rw empty refl in
          let second = two ∙ rw empty refl in
          inr (
            (bytes_eq_iff given []).0 empty,
            (
              λ h.
                  let tails = ap (drop (length name)) (sym first ∙ h ∙ second) in
                  ap (drop 1) (
                    sym (drop-append name (b'-' ∷ version))
                    ∙ tails
                    ∙ drop-append name (b'-' ∷ version')),
              λ h. first ∙ ap (λ v. name ++ (b'-' ∷ v)) h ∙ sym second,
            ),
          )
      | inr set ↦
          let full : given ≢ [] = ground (arith, bytes_eq_iff given [], set) in
          inl (full, one ∙ rw set refl, two ∙ rw set refl)
    ]
