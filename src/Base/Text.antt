-- ===== src/Base/Text.antt =====
-- Go strings as lists of bytes, with the operations of the standard library that the program
-- uses: comparison, `strings.Join`, `strings.Split` at a one-byte separator, and `%d`.
use Prim.Native.Nat.{ℕ, zero, suc, ◌+◌, ◌-◌, ◌/◌, ◌%◌, ◌^◌, compare, Ordering}
use Prim.Native.Char.{code}
use Prim.Native.String.{String}
use mathlib.Core.Path.{◌≡◌, refl}
use mathlib.Core.Logic.{◌↔◌, ◌≢◌, inl, inr}
use mathlib.Core.Bool.{Bool, true, false, ◌&&◌}
use mathlib.Core.List.{List, [], ◌∷◌, ◌++◌}
use native.Mathlib.Omega.{arith}
use weaver_kube.Base.Tests.{◌==◌, ltb, if◌then◌else◌, Bool-cases}
use weaver_kube.Base.Lists.{All}

abbrev pub Bytes : Type 0
Bytes = List ℕ

-- The code points of a literal, which are its bytes when the text is ASCII.
abbrev pub codes : String → Bytes
codes String.[] = []
codes (String.◌∷◌ c s) = code c ∷ codes s

-- Go's `==` on strings.
unfoldable pub bytes_eq : Bytes → Bytes → Bool
bytes_eq [] [] = true
bytes_eq [] (b ∷ bs) = false
bytes_eq (a ∷ as') [] = false
bytes_eq (a ∷ as') (b ∷ bs) = (a == b) && bytes_eq as' bs

pub bytes_eq_iff : (s t : Bytes) → (bytes_eq s t ≡ true) ↔ (s ≡ t)
unfolding bytes_eq
bytes_eq_iff [] [] = (λ h. refl, λ h. refl)
bytes_eq_iff [] (b ∷ bs) = ground arith
bytes_eq_iff (a ∷ as') [] = ground arith
bytes_eq_iff (a ∷ as') (b ∷ bs) = ground (arith, bytes_eq_iff as' bs)

pub bytes_eq_refl : (s : Bytes) → bytes_eq s s ≡ true
bytes_eq_refl s = (bytes_eq_iff s s).1 refl

-- Go's `<` on strings.
unfoldable pub bytes_lt : Bytes → Bytes → Bool
bytes_lt [] [] = false
bytes_lt [] (b ∷ bs) = true
bytes_lt (a ∷ as') [] = false
bytes_lt (a ∷ as') (b ∷ bs) =
    let rest = bytes_lt as' bs in
    elim (compare a b) [ Ordering.lt ↦ true | Ordering.eq ↦ rest | Ordering.gt ↦ false ]

pub bytes_lt_irrefl : (s : Bytes) → bytes_lt s s ≡ false
unfolding bytes_lt
bytes_lt_irrefl [] = refl
bytes_lt_irrefl (a ∷ s) = ground (arith, bytes_lt_irrefl s)

pub bytes_lt_trans :
    (s t u : Bytes) → bytes_lt s t ≡ true → bytes_lt t u ≡ true → bytes_lt s u ≡ true
unfolding bytes_lt
bytes_lt_trans [] [] u p q = ground arith
bytes_lt_trans [] (b ∷ t) [] p q = ground arith
bytes_lt_trans [] (b ∷ t) (c ∷ u) p q = refl
bytes_lt_trans (a ∷ s) [] u p q = ground arith
bytes_lt_trans (a ∷ s) (b ∷ t) [] p q = ground arith
bytes_lt_trans (a ∷ s) (b ∷ t) (c ∷ u) p q = ground (arith, bytes_lt_trans s t u)

-- Two strings are ordered one way or the other, or are equal.
pub bytes_lt_total : (s t : Bytes) → bytes_lt s t ≡ false → bytes_lt t s ≡ false → s ≡ t
unfolding bytes_lt
bytes_lt_total [] [] p q = refl
bytes_lt_total [] (b ∷ t) p q = ground arith
bytes_lt_total (a ∷ s) [] p q = ground arith
bytes_lt_total (a ∷ s) (b ∷ t) p q = ground (arith, bytes_lt_total s t)

-- `strings.Join`
abbrev join_rest : Bytes → List Bytes → Bytes
join_rest sep [] = []
join_rest sep (p ∷ ps) = sep ++ (p ++ join_rest sep ps)

abbrev pub join : List Bytes → Bytes → Bytes
join [] sep = []
join (p ∷ ps) sep = p ++ join_rest sep ps

-- `strings.Split` at one byte, from the right end. The result has at least one part.
push_byte : ℕ → List Bytes → List Bytes
push_byte c [] = (c ∷ []) ∷ []
push_byte c (p ∷ ps) = (c ∷ p) ∷ ps

unfoldable pub split : ℕ → Bytes → List Bytes
unfolding push_byte
split sep [] = [] ∷ []
split sep (c ∷ s) = let parts = split sep s in if c == sep then [] ∷ parts else push_byte c parts

-- The laws by which the proofs go, with `split` shut.
module _ (sep : ℕ) where
  pub split-ne-nil : (s : Bytes) → split sep s ≢ []
  unfolding split
  split-ne-nil [] = ground arith
  split-ne-nil (c ∷ s) = ground arith

  pub split-append : (s t : Bytes) → split sep (s ++ (sep ∷ t)) ≡ split sep s ++ split sep t
  unfolding split
  split-append [] t = ground arith
  split-append (c ∷ s) t = ground (arith, split-append s t, split-ne-nil s)

  -- The text has no byte of this value.
  abbrev pub Lacks : Bytes → Type 0
  Lacks = All (λ c. c ≢ sep)

  pub split_of_Lacks : (s : Bytes) → Lacks s → split sep s ≡ s ∷ []
  unfolding split
  split_of_Lacks [] h = refl
  split_of_Lacks (c ∷ s) (h, hs) = ground (arith, split_of_Lacks s hs)

  push_byte-Lacks : (c : ℕ) (ps : List Bytes) → c ≢ sep → All Lacks ps → All Lacks (push_byte c ps)
  unfolding push_byte
  push_byte-Lacks c [] h _ = ((h, tt), tt)
  push_byte-Lacks c (p ∷ ps) h (hp, hs) = ((h, hp), hs)

  pub split-Lacks : (s : Bytes) → All Lacks (split sep s)
  unfolding split
  split-Lacks [] = (tt, tt)
  split-Lacks (c ∷ s) = elim (Bool-cases (c == sep)) [
    | inl e ↦ rw e (tt, split-Lacks s)
    | inr e ↦ rw e (push_byte-Lacks c (split sep s) (ground arith) (split-Lacks s))
  ]

-- `%d` of a number that is not negative, with fuel for its digits.
digits : ℕ → ℕ → Bytes → Bytes
digits zero n out = out
digits (suc f) n out =
    let here = (b'0' + n % 10) ∷ out in
    let rest = digits f (n / 10) here in if ltb n 10 then here else rest

unfoldable pub decimal : ℕ → Bytes
unfolding digits
decimal n = digits (suc n) n []

-- An `int32` is its bit pattern, a number below `2 ^ 32`; `%d` prints the signed value.
unfoldable pub int32_text : ℕ → Bytes
unfolding decimal
int32_text n = if ltb n (2 ^ 31) then decimal n else b'-' ∷ decimal (2 ^ 32 - n)
