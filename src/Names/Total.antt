-- ===== src/Names/Total.antt =====
-- `deploymentName` and `first8` on every deployment id (internal/impl/kube.go).
use weaver_kube.Base.{
  ◌≤◌, ◌<◌, ◌≡◌, List, [], ◌∷◌, arith, length, take, length-take, Bytes, codes, ok, panic,
  >>=-eq-ok,
}
use weaver_kube.Names.{
  Extern, IsExtern, first8, to_lower, hash8, hash_loop, dashed, shorten_component, deployment_name,
}
use weaver_kube.Names.Shorten.{shorten_component_total}

pub first8_ok : (s : Bytes) → 8 ≤ length s → first8 s ≡ ok (take 8 s)
unfolding first8
first8_ok s h = ground arith

first8_panic : (s : Bytes) → length s < 8 → first8 s ≡ panic (codes "slice bounds out of range")
unfolding first8
first8_panic s h = ground arith

-- A prefix that was cut is the first eight bytes.
pub first8-long : (s v : Bytes) → first8 s ≡ ok v → 8 ≤ length s
unfolding first8
first8-long s v h = ground arith

pub first8-eq-ok : (s v : Bytes) → first8 s ≡ ok v → (v ≡ take 8 s) × (length v ≡ 8)
unfolding first8
first8-eq-ok s v h = ground (arith, length-take 8 s)

module _ (c : Extern) (lawful : IsExtern c) where
  hash_loop-length :
      (strs : List Bytes) (written text : Bytes) → length (hash_loop c strs written text) ≡ 36
  unfolding hash_loop
  hash_loop-length [] written text = lawful.length-uuid_text written text
  hash_loop-length (s ∷ strs) written text = hash_loop-length strs _ _

  pub hash8_total : (strs : List Bytes) → (h : Bytes) × (hash8 c strs ≡ ok h) × (length h ≡ 8)
  unfolding hash8
  hash8_total strs =
      let fits : 8 ≤ length (hash_loop c strs [] []) = omega (arith, hash_loop-length strs [] []) in
      (take 8 (hash_loop c strs [] []), first8_ok _ fits, length-take 8 _ fits)

-- What a deployment name is made of.
pub record NameParts (c : Extern) (app component deployment_id n : Bytes) : Type 0 where
  pub hash : Bytes
  pub short : Bytes
  pub version : Bytes
  pub hashed : hash8 c (app ∷ component ∷ deployment_id ∷ []) ≡ ok hash
  pub shortened : shorten_component component ≡ ok short
  pub versioned : first8 deployment_id ≡ ok version
  pub name : n ≡ dashed app (to_lower c short) version hash

pub deployment_name-NameParts :
    (c : Extern) (app component deployment_id n : Bytes)
    → deployment_name c app component deployment_id ≡ ok n
    → NameParts c app component deployment_id n
unfolding deployment_name
deployment_name-NameParts c app component deployment_id n e =
    let (hash, hashed, e₁) = >>=-eq-ok (hash8 c (app ∷ component ∷ deployment_id ∷ [])) _ e in
    let (short, shortened, e₂) = >>=-eq-ok (shorten_component component) _ e₁ in
    let (version, versioned, e₃) = >>=-eq-ok (first8 deployment_id) _ e₂ in
    record {
      hash = hash;
      short = short;
      version = version;
      hashed = hashed;
      shortened = shortened;
      versioned = versioned;
      name = cc;
    }

module _ (c : Extern) (lawful : IsExtern c) (app component deployment_id : Bytes) where
  -- With at least eight bytes of deployment id there is a name, with the app's name, the short
  -- lower-case component, the version and an eight-byte hash, in this order.
  pub deployment_name_total :
      8 ≤ length deployment_id
      → (short hash : Bytes) × (shorten_component component ≡ ok short)
        × (length hash ≡ 8)
        × (deployment_name c app component deployment_id
            ≡ ok (dashed app (to_lower c short) (take 8 deployment_id) hash))
  unfolding deployment_name
  deployment_name_total h =
      let (hash, hashed, size) = hash8_total c lawful (app ∷ component ∷ deployment_id ∷ []) in
      let (short, shortened, _) = shorten_component_total component in
      (short, hash, shortened, size, rw (hashed, shortened, first8_ok deployment_id h))

  -- With fewer than eight bytes of deployment id the computation of a name panics.
  pub deployment_name_panic :
      length deployment_id < 8
      → deployment_name c app component deployment_id ≡ panic (codes "slice bounds out of range")
  unfolding deployment_name
  deployment_name_panic h =
      let (hash, hashed, size) = hash8_total c lawful (app ∷ component ∷ deployment_id ∷ []) in
      let (short, shortened, _) = shorten_component_total component in
      rw (hashed, shortened, first8_panic deployment_id h)
