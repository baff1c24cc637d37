-- ===== src/Base/Results.antt =====
-- The outcome of a Go call: a value, an error, or a panic with its text. The errors that the
-- program makes are constructors with the values that their texts show.
use mathlib.Core.Path.{◌≡◌, refl}
use mathlib.Core.List.{List}
use weaver_kube.Base.Text.{Bytes}

pub data Error : Type 0 where
  -- an error of a callee that is not part of the program
  external : Bytes → Error
  -- `fmt.Errorf("<text>: %w", err)`, and the same with a quoted name behind the text
  wrapped : Bytes → Error → Error
  wrapped_at : Bytes → Bytes → Error → Error
  -- errors with a text of their own, without and with a value in it
  plain : Bytes → Error
  plain_at : Bytes → Bytes → Error
  -- a longer text with several values in it
  plain_with : Bytes → List Bytes → Error
  -- `errors.Join` of two errors
  joined : Error → Error → Error

pub data Outcome {ℓ} (A : Type ℓ) : Type ℓ where
  ok : A → Outcome A
  err : Error → Outcome A
  panic : Bytes → Outcome A

-- What follows a call is done only if the call returned a value.
infixl 5 ◌>>=◌
abbrev pub ◌>>=◌ {ℓ κ} : {A : Type ℓ} {B : Type κ} → Outcome A → (A → Outcome B) → Outcome B
ok a >>= f = f a
panic e >>= f = panic e
err e >>= f = err e

-- `fmt.Errorf("...: %w", err)` on the error path of a call.
abbrev pub wrap {ℓ} : {A : Type ℓ} → (Error → Error) → Outcome A → Outcome A
wrap f (ok a) = ok a
wrap f (err e) = err (f e)
wrap f (panic e) = panic e

-- Inversion of a successful bind.
pub >>=-eq-ok {ℓ κ} :
    {A : Type ℓ} {B : Type κ} (m : Outcome A) (k : A → Outcome B) {b : B}
    → (m >>= k) ≡ ok b
    → (a : A) × (m ≡ ok a) × (k a ≡ ok b)
>>=-eq-ok (panic e) k h = cc
>>=-eq-ok (err e) k h = cc
>>=-eq-ok (ok a) k h = (a, refl, h)

pub ok-injective {ℓ} : {A : Type ℓ} {a b : A} → ok a ≡ ok b → a ≡ b
ok-injective h = cc

-- A call that was wrapped returned the same value.
pub wrap-eq-ok {ℓ} :
    {A : Type ℓ} (f : Error → Error) (m : Outcome A) {a : A} → wrap f m ≡ ok a → m ≡ ok a
wrap-eq-ok f (ok a) h = h
wrap-eq-ok f (err e) h = cc
wrap-eq-ok f (panic m) h = cc
