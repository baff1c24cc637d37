-- ===== src/Names/Shorten.antt =====
-- What `shortenComponent` of internal/impl/kube.go returns.
use weaver_kube.Base.{
  ◌≡◌, ◌≢◌, refl, List, [], ◌∷◌, ◌++◌, arith, All, Bytes, split, split-ne-nil, split-append,
  split_of_Lacks, split-Lacks, Lacks, All-append, ok,
}
use weaver_kube.Names.{shorten_component, last_parts, slash}

last_parts-append :
    (ps : List Bytes) (q r : Bytes) → last_parts (ps ++ (q ∷ r ∷ [])) ≡ ok (q ++ (b'-' ∷ r))
unfolding last_parts
last_parts-append [] q r = refl
last_parts-append (p ∷ []) q r = refl
last_parts-append (p ∷ p' ∷ []) q r = refl
last_parts-append (p ∷ p' ∷ p'' ∷ ps) q r = last_parts-append (p' ∷ p'' ∷ ps) q r

-- A component name with no slash is its own short name.
pub shorten_component_plain : (s : Bytes) → Lacks slash s → shorten_component s ≡ ok s
unfolding shorten_component
shorten_component_plain s h = rw (split_of_Lacks slash s h)

-- For a name that ends in `/<pkg>/<type>`, whatever stands before, the short name is
-- `<pkg>-<type>`.
pub shorten_component_path :
    (path pkg iface : Bytes)
    → Lacks slash pkg
    → Lacks slash iface
    → shorten_component (path ++ (slash ∷ (pkg ++ (slash ∷ iface)))) ≡ ok (pkg ++ (b'-' ∷ iface))
unfolding shorten_component
shorten_component_path path pkg iface hp hi =
    rw
      (
        split-append slash path _,
        split-append slash pkg _,
        split_of_Lacks slash pkg hp,
        split_of_Lacks slash iface hi,
      )
      (last_parts-append (split slash path) pkg iface)

last_parts_total :
    (ps : List Bytes)
    → ps ≢ []
    → All (Lacks slash) ps
    → (r : Bytes) × (last_parts ps ≡ ok r) × Lacks slash r
unfolding last_parts
last_parts_total [] h _ = absurd (h refl)
last_parts_total (p ∷ []) h (hp, _) = (p, refl, hp)
last_parts_total (p ∷ q ∷ []) h (hp, (hq, _)) =
    (p ++ (b'-' ∷ q), refl, All-append _ p (b'-' ∷ q) hp (omega arith, hq))
last_parts_total (p ∷ q ∷ r ∷ ps) h (_, hs) = last_parts_total (q ∷ r ∷ ps) (cc) hs

-- Every name has a short name, which has no slash: the panic for a name with no part is dead code.
pub shorten_component_total :
    (s : Bytes) → (r : Bytes) × (shorten_component s ≡ ok r) × Lacks slash r
unfolding shorten_component
shorten_component_total s =
    last_parts_total (split slash s) (split-ne-nil slash s) (split-Lacks slash s)
