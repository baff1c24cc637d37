-- ===== src/Babysitter/Claim/Progress.antt =====
-- The goroutines in `watchPods` get past the lock (internal/impl/babysitter.go): no state is a
-- deadlock.
use mathlib.Core.Logic.{inl, inr}
use Prim.Native.Nat.{zero, suc}
use native.Mathlib.Decide.{dec_le}
use weaver_kube.Base.{
  ℕ, ◌+◌, ◌*◌, length, ◌≤◌, ◌<◌, Bool, true, false, List, [], ◌∷◌, ◌++◌, Bytes, bytes_eq, lookup,
  ◌≡◌, refl, ap, arith, sum_by, one_if, Option-cases, Bool-cases, ◌∙◌,
}
use weaver_kube.Babysitter.Claim.Threads.{
  Phase, arrived, locked, present, absent, written, won, lost, Thread, Shared, Step, start, lock,
  test_present, test_absent, write, unlock_and_return, unlock_and_watch, standing, Reach, next,
  inside, Invariant,
}
use weaver_kube.Babysitter.Claim.Exclusive.{sum_by-middle, sum_by-moved, Reach-Invariant}

-- It has left the lock.
abbrev pub is_finished : Phase → Bool
is_finished won = true
is_finished lost = true
is_finished _ = false

-- The goroutines that were started for a component.
abbrev pub asked : Bytes → Thread → ℕ
asked x th = one_if (bytes_eq x th.component)

-- The most steps that a goroutine has before it.
abbrev pub steps_left : Phase → ℕ
steps_left arrived = 4
steps_left locked = 3
steps_left absent = 2
steps_left present = 1
steps_left written = 1
steps_left _ = 0

abbrev pub remaining : Thread → ℕ
remaining th = steps_left th.phase

abbrev pub starts : {s t : Shared} → Step s t → Bool
starts (start c e) = true
starts _ = false

-- A run of so many steps without new goroutines.
pub data Ahead (u : Shared) : ℕ → Shared → Type 0 where
  stay : Ahead u 0 u
  go : {n : ℕ} {s t : Shared} (st : Step s t) → starts st ≡ false → Ahead u n t → Ahead u (1 + n) s

-- A step leaves less to do, for the same components.
Moved : Shared → Shared → Type 0
Moved s t =
    (sum_by remaining t.threads < sum_by remaining s.threads)
    × ((x : Bytes) → sum_by (asked x) t.threads ≡ sum_by (asked x) s.threads)

module _ (s : Shared) (before after : List Thread) (c : Bytes) (p p' : Phase)
    (stands : s.threads ≡ before ++ standing c p ∷ after) where
  moved :
      (t : Shared)
      → t.threads ≡ before ++ standing c p' ∷ after
      → steps_left p' < steps_left p
      → Moved s t
  unfolding Moved
  moved t e less = rw e (
    omega (arith, sum_by-moved s before after c p p' stands remaining, less),
    λ x. omega (arith, sum_by-moved s before after c p p' stands (asked x)),
  )

Step-Moved : {s t : Shared} (st : Step s t) → starts st ≡ false → Moved s t
Step-Moved (start c e) ends = cc
Step-Moved {s} {t} (lock before after c free stands e) ends =
    moved s before after c arrived locked stands t (ap (λ u. u.threads) e) (omega arith)
Step-Moved {s} {t} (test_present before after c stands found e) ends =
    moved s before after c locked present stands t (ap (λ u. u.threads) e) (omega arith)
Step-Moved {s} {t} (test_absent before after c stands free e) ends =
    moved s before after c locked absent stands t (ap (λ u. u.threads) e) (omega arith)
Step-Moved {s} {t} (write before after c stands e) ends =
    moved s before after c absent written stands t (ap (λ u. u.threads) e) (omega arith)
Step-Moved {s} {t} (unlock_and_return before after c stands e) ends =
    moved s before after c present lost stands t (ap (λ u. u.threads) e) (omega arith)
Step-Moved {s} {t} (unlock_and_watch before after c stands e) ends =
    moved s before after c written won stands t (ap (λ u. u.threads) e) (omega arith)

-- A goroutine for which a number is positive.
find_positive :
    (f : Thread → ℕ) (ths : List Thread)
    → 1 ≤ sum_by f ths
    → (before : List Thread) × (th : Thread) × (after : List Thread) × (ths ≡ before ++ th ∷ after)
      × (1 ≤ f th)
find_positive f [] h = absurd (omega (arith, h))
find_positive f (th ∷ ths) h = elim (dec_le 1 (f th)) [
  | yes first ↦ ([], th, ths, refl, first)
  | no away ↦
      let (before, th', after, e, at) = find_positive f ths (omega arith) in
      (th ∷ before, th', after, ap (λ r. th ∷ r) e, at)
]

-- The next step of a run without new goroutines.
Continues : Shared → Type 0
Continues s = (t : Shared) × (st : Step s t) × (starts st ≡ false)

module _ (s : Shared) (before after : List Thread) (c : Bytes) where
  step_inside :
      (p : Phase)
      → s.threads ≡ before ++ standing c p ∷ after
      → 1 ≤ inside (standing c p)
      → Continues s
  unfolding Continues
  step_inside locked stands within = elim (Option-cases (lookup c s.watching)) [
    | inl free ↦ (_, test_absent before after c stands free refl, refl)
    | inr (u, found) ↦ (_, test_present before after c stands (ground (arith, found)) refl, refl)
  ]
  step_inside present stands within = (_, unlock_and_return before after c stands refl, refl)
  step_inside absent stands within = (_, write before after c stands refl, refl)
  step_inside written stands within = (_, unlock_and_watch before after c stands refl, refl)
  step_inside arrived stands within = absurd (omega (arith, within))
  step_inside won stands within = absurd (omega (arith, within))
  step_inside lost stands within = absurd (omega (arith, within))

  step_outside :
      (p : Phase)
      → s.held ≡ false
      → s.threads ≡ before ++ standing c p ∷ after
      → inside (standing c p) ≡ 0
      → 1 ≤ remaining (standing c p)
      → Continues s
  unfolding Continues
  step_outside arrived free stands out more = (_, lock before after c free stands refl, refl)
  step_outside won free stands out more = absurd (omega (arith, more))
  step_outside lost free stands out more = absurd (omega (arith, more))
  step_outside locked free stands out more = absurd (omega (arith, out))
  step_outside present free stands out more = absurd (omega (arith, out))
  step_outside absent free stands out more = absurd (omega (arith, out))
  step_outside written free stands out more = absurd (omega (arith, out))

steps_left-le : (p : Phase) → steps_left p ≤ 4
steps_left-le arrived = omega arith
steps_left-le locked = omega arith
steps_left-le _ = omega arith

pub remaining-le-length : (ths : List Thread) → sum_by remaining ths ≤ 4 * length ths
remaining-le-length [] = omega arith
remaining-le-length (th ∷ ths) = omega (arith, remaining-le-length ths, steps_left-le th.phase)

-- While a goroutine has something to do, one has a step: the one inside the lock or, if there is
-- none, any.
Invariant-Continues : (s : Shared) → Invariant s → 1 ≤ sum_by remaining s.threads → Continues s
Invariant-Continues s inv more = elim (Bool-cases s.held) [
  | inl held ↦
      let (before, th, after, stands, within) =
        find_positive inside s.threads (ground (arith, inv.exclusive, held)) in
      step_inside s before after th.component th.phase stands within
  | inr free ↦
      let (before, th, after, stands, left) = find_positive remaining s.threads more in
      step_outside s before after th.component th.phase free stands
        (ground (
          arith,
          inv.exclusive,
          free,
          ap (sum_by inside) stands,
          sum_by-middle inside before after th,
        ))
        left
]

pub Ahead-Reach : {u : Shared} {n : ℕ} {s : Shared} → Reach s → Ahead u n s → Reach u
Ahead-Reach r stay = r
Ahead-Reach r (go st ends a) = Ahead-Reach (next r st) a

pub Ahead-Moved :
    {u : Shared} {n : ℕ} {s : Shared}
    → Ahead u n s
    → (n + sum_by remaining u.threads ≤ sum_by remaining s.threads)
      × ((x : Bytes) → sum_by (asked x) u.threads ≡ sum_by (asked x) s.threads)
unfolding Moved
Ahead-Moved stay = (omega arith, λ x. refl)
Ahead-Moved (go st ends a) =
    let (less, same) = Step-Moved st ends in
    let (less', same') = Ahead-Moved a in (omega (arith, less, less'), λ x. same' x ∙ same x)

-- The run that goes on until nothing remains.
pub finish :
    (fuel : ℕ) (s : Shared)
    → Reach s
    → sum_by remaining s.threads ≤ fuel
    → (u : Shared) × (m : ℕ) × Ahead u m s × (sum_by remaining u.threads ≡ 0)
unfolding Continues Moved
finish zero s r enough = (s, 0, stay, omega arith)
finish (suc fuel) s r enough = elim (dec_le 1 (sum_by remaining s.threads)) [
  | no done ↦ (s, 0, stay, omega arith)
  | yes more ↦
      let (t, st, ends) = Invariant-Continues s (Reach-Invariant r) more in
      let (u, m, rest, done) =
        finish fuel t (next r st) (omega (arith, (Step-Moved st ends).0, enough)) in
      (u, 1 + m, go st ends rest, done)
]
