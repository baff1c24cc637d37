-- ===== src/Babysitter/Claim/Begin.antt =====
-- When `watchPods` reaches its loop (internal/impl/babysitter.go).
use weaver_kube.Base.{
  sym, Outcome, ◌+◌, ◌≤◌, ltb, if◌then◌else◌, is_none, List, [], ◌∷◌, map, Option, some,
  Option-cases, inl, inr, value_or_zero, one_if, count, bytes_eq, bytes_eq_iff, ◌↔◌, ap, ◌∙◌, ℕ,
  true, none, Bytes, codes, lookup, insert, lookup-insert, Error, plain_at, ok, err, panic, ◌≡◌,
  ◌≢◌, refl, arith,
}
use weaver_kube.Config.{AppConfig}
use weaver_kube.Names.{Extern}
use weaver_kube.Babysitter.{BabysitterConfig}
use weaver_kube.Babysitter.Claim.{
  Watching, claim, pod_selector, begin_with, condition, Backoff, IsBackoff, create_watcher,
  already_watched, failed, watches, begin_watch,
}

abbrev claimed : Option (Unit {0}) → ℕ
claimed = value_or_zero (λ u. 1)

claim_new :
    (component : Bytes) (watching : Watching)
    → lookup component watching ≡ none
    → claim component watching ≡ (insert component tt watching, true)
unfolding claim
claim_new component watching h = rw h

module _ (c : Extern) (app : AppConfig) (cfg : BabysitterConfig) (b : Backoff) where
  -- The set after some calls, each for a component, with what `NewRetryWatcher` returns in it.
  abbrev pub after_calls : List (Bytes × (ℕ → Option Error)) → Watching → Watching
  after_calls [] watching = watching
  after_calls ((component, creations) ∷ calls) watching =
      after_calls calls (begin_watch c app cfg b creations component watching).0

  -- The components of the calls.
  abbrev pub called : List (Bytes × (ℕ → Option Error)) → List Bytes
  called = map (λ k. k.0)

  lookup-begin_watch :
      (x : Bytes) (creations : ℕ → Option Error) (component : Bytes) (watching : Watching)
      → (1 ≤ claimed (lookup x (begin_watch c app cfg b creations component watching).0))
        ↔ (1 ≤ one_if (bytes_eq x component) + claimed (lookup x watching))
  unfolding begin_watch claim
  lookup-begin_watch x creations component watching =
      ground (arith, lookup-insert x component tt watching, bytes_eq_iff x component)

  lookup-after_calls :
      (x : Bytes) (calls : List (Bytes × (ℕ → Option Error))) (watching : Watching)
      → (1 ≤ claimed (lookup x (after_calls calls watching)))
        ↔ (1 ≤ count x (called calls) + claimed (lookup x watching))
  lookup-after_calls x [] watching = (λ h. omega (arith, h), λ h. omega (arith, h))
  lookup-after_calls x ((component, creations) ∷ calls) watching =
      let now = (begin_watch c app cfg b creations component watching).0 in
      ground
        (arith, lookup-after_calls x calls now, lookup-begin_watch x creations component watching)

  -- The set after some calls from the start has a component exactly if one of them was for it.
  claimed-after_calls :
      (x : Bytes) (calls : List (Bytes × (ℕ → Option Error)))
      → (lookup x (after_calls calls []) ≡ none) ↔ (count x (called calls) ≡ 0)
  unfolding lookup
  claimed-after_calls x calls = ground (arith, lookup-after_calls x calls [])

  -- A call for a component that is claimed, and one for a component that is not.
  begin_claimed_lem :
      (creations : ℕ → Option Error) (component : Bytes) (watching : Watching) (u : Unit {0})
      → lookup component watching ≡ some u
      → begin_watch c app cfg b creations component watching ≡ (watching, already_watched)
  unfolding begin_watch claim
  begin_claimed_lem creations component watching u h = rw h refl

  begin_new_lem :
      (creations : ℕ → Option Error) (component : Bytes) (watching : Watching)
      → lookup component watching ≡ none
      → begin_watch c app cfg b creations component watching ≡ (
        insert component tt watching,
        begin_with (pod_selector c app cfg component) (create_watcher b creations),
      )
  unfolding begin_watch claim
  begin_new_lem creations component watching h = rw h refl

  begin_with-new : (o : Outcome Bytes) (w : Outcome (Unit {0})) → begin_with o w ≢ already_watched
  begin_with-new (err e) w = λ h. cc
  begin_with-new (panic m) w = λ h. cc
  begin_with-new (ok s) (ok u) = λ h. cc
  begin_with-new (ok s) (err e) = λ h. cc
  begin_with-new (ok s) (panic m) = λ h. cc

  -- From the start of a babysitter on, whatever the calls for components so far, their order and
  -- their outcomes: a call for a component returns at once, with nothing to watch, if and only if an
  -- earlier call was for the same component. Then it leaves the set of watched components as it is,
  -- and otherwise it adds the component.
  pub begin_watch_twice :
      (calls : List (Bytes × (ℕ → Option Error))) (creations : ℕ → Option Error) (component : Bytes)
      → let before = after_calls calls [] in
        let call = begin_watch c app cfg b creations component before in
        ((call.1 ≡ already_watched) ↔ (1 ≤ count component (called calls)))
        × (call.0 ≡ (
            if ltb 0 (count component (called calls)) then before else insert component tt before))
  begin_watch_twice calls creations component =
      let before = after_calls calls [] in
      elim (Option-cases (lookup component before)) [
        | inl absent ↦
            let never = (claimed-after_calls component calls).0 absent in
            let call = begin_new_lem creations component before absent in
            (
              (
                λ h. absurd (begin_with-new _ _ (sym (ap (λ r. r.1) call) ∙ h)),
                λ h. absurd (omega (arith, h, never)),
              ),
              rw (never, call) refl,
            )
        | inr (u, found) ↦
            let call = begin_claimed_lem creations component before u found in
            let some_time : 1 ≤ count component (called calls) =
              ground (arith, (claimed-after_calls component calls).1, found) in
            (
              (λ h. some_time, λ h. ap (λ r. r.1) call),
              ground (arith, some_time, ap (λ r. r.0) call),
            )
      ]

  -- From the start of a babysitter on, whatever the calls so far: the first call for a component
  -- for which the configuration has no group fails with an error that names the component, and every
  -- later call for it returns nil at once, so none of them watches.
  pub begin_watch_no_group :
      (calls : List (Bytes × (ℕ → Option Error))) (creations : ℕ → Option Error) (component : Bytes)
      → lookup component cfg.groups ≡ none
      → (begin_watch c app cfg b creations component (after_calls calls [])).1 ≡ (
          if ltb 0 (count component (called calls))
          then already_watched
          else failed
              (err (plain_at (codes "unable to determine group name for component") component)))
  unfolding pod_selector
  begin_watch_no_group calls creations component h =
      let before = after_calls calls [] in
      elim (Option-cases (lookup component before)) [
        | inl absent ↦
            let never = (claimed-after_calls component calls).0 absent in
            rw (never, begin_new_lem creations component before absent, h) refl
        | inr (u, found) ↦
            let call = begin_claimed_lem creations component before u found in
            let some_time : 1 ≤ count component (called calls) =
              ground (arith, (claimed-after_calls component calls).1, found) in
            ground (arith, some_time, ap (λ r. r.1) call)
      ]

  -- When a component is new and its pods' selector is known, whatever the attempts to create a
  -- watcher would give: exactly one is made, and the loop is reached with this selector if it
  -- succeeds, while the program panics if it fails, however many further attempts would succeed.
  pub begin_watch_no_retry :
      (creations : ℕ → Option Error) (component selector : Bytes) (watching : Watching)
      → IsBackoff b
      → lookup component watching ≡ none
      → pod_selector c app cfg component ≡ ok selector
      → (b.calls (λ n. condition (creations n)) ≡ 1)
        × ((begin_watch c app cfg b creations component watching).1 ≡ (
            if is_none (creations 0)
            then watches selector
            else failed (panic (codes "unable to create RetryWatcher"))))
  unfolding begin_watch create_watcher condition
  begin_watch_no_retry creations component selector watching lawful h s =
      elim (Option-cases (creations 0)) [
        | inl none_there ↦
            let (once, fine) =
              lawful.stops_when_created (λ n. condition (creations n)) (ap condition none_there) in
            (once, rw (claim_new component watching h, s, fine, none_there) refl)
        | inr (e, there) ↦
            let (once, error) =
              lawful.stops_when_refused (λ n. condition (creations n)) e (ap condition there) in
            (once, rw (claim_new component watching h, s, error, there) refl)
      ]

  -- If the component is new, its pods' selector is known and the first attempt succeeds, the loop
  -- is reached with this selector.
  pub begin_watch_reaches :
      (creations : ℕ → Option Error) (component selector : Bytes) (watching : Watching)
      → IsBackoff b
      → lookup component watching ≡ none
      → pod_selector c app cfg component ≡ ok selector
      → creations 0 ≡ none
      → (begin_watch c app cfg b creations component watching).1 ≡ watches selector
  begin_watch_reaches creations component selector watching lawful h s r =
      (begin_watch_no_retry creations component selector watching lawful h s).1 ∙ rw r refl
