-- ===== src/Base/Options.antt =====
-- Optional values.
use mathlib.Core.Bool.{Bool, true, false}
use mathlib.Core.Option.{Option, none, some}

module _ {ℓ} {A : Type ℓ} where
  -- The value of the first option that is set.
  abbrev pub or_else : Option A → Option A → Option A
  or_else (some a) o = some a
  or_else none o = o

  abbrev pub is_none : Option A → Bool
  is_none none = true
  is_none (some a) = false
