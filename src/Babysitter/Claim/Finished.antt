-- ===== src/Babysitter/Claim/Finished.antt =====
-- In the end each component that was asked for is watched (`watchPods` of
-- internal/impl/babysitter.go).
use weaver_kube.Base.{
  ℕ, ◌*◌, length, ◌≤◌, Bool, true, false, List, [], ◌∷◌, Bytes, bytes_eq, bytes_eq_iff,
  lookup-insert, ◌≡◌, refl, arith, sum_by, sum_by-append, one_if, if◌then◌else◌, All, ltb,
}
use weaver_kube.Babysitter.Claim.Threads.{
  Phase, arrived, locked, present, absent, written, won, lost, Thread, Shared, Step, start, lock,
  test_present, test_absent, write, unlock_and_return, unlock_and_watch, standing,
  activate_component, Reach, here, next, claims, watched,
}
use weaver_kube.Babysitter.Claim.Exclusive.{sum_by-moved, Reach-one_claim}
use weaver_kube.Babysitter.Claim.Progress.{
  is_finished, asked, steps_left, remaining, Ahead, Ahead-Reach, Ahead-Moved, finish,
  remaining-le-length,
}

-- A goroutine that cannot be before the test of its component any more.
abbrev has_passed : Phase → Bool
has_passed present = true
has_passed written = true
has_passed won = true
has_passed lost = true
has_passed _ = false

abbrev passed : Bytes → Thread → ℕ
passed x th = if bytes_eq x th.component then one_if (has_passed th.phase) else 0

-- Whoever has passed the test of a component found it in the set or has put it there.
Recorded : Shared → Type 0
Recorded s = (x : Bytes) → watched x s.watching ≡ 0 → sum_by (passed x) s.threads ≡ 0

Step-Recorded : {s t : Shared} → Step s t → Recorded s → Recorded t
unfolding Recorded activate_component
Step-Recorded {s} (start c e) rec = rw e (λ x none_yet.
    ground (arith, rec x none_yet, sum_by-append (passed x) s.threads (standing c arrived ∷ [])))
Step-Recorded {s} (lock before after c free stands e) rec = rw e (λ x none_yet.
    ground (arith, rec x none_yet, sum_by-moved s before after c arrived locked stands (passed x)))
Step-Recorded {s} (test_present before after c stands found e) rec = rw e (λ x none_yet. ground (
  arith,
  rec x none_yet,
  found,
  bytes_eq_iff x c,
  sum_by-moved s before after c locked present stands (passed x),
))
Step-Recorded {s} (test_absent before after c stands free e) rec = rw e (λ x none_yet.
    ground (arith, rec x none_yet, sum_by-moved s before after c locked absent stands (passed x)))
Step-Recorded {s} (write before after c stands e) rec = rw e (λ x none_yet. ground (
  arith,
  rec x,
  lookup-insert x c tt s.watching,
  sum_by-moved s before after c absent written stands (passed x),
))
Step-Recorded {s} (unlock_and_return before after c stands e) rec = rw e (λ x none_yet.
    ground (arith, rec x none_yet, sum_by-moved s before after c present lost stands (passed x)))
Step-Recorded {s} (unlock_and_watch before after c stands e) rec = rw e (λ x none_yet.
    ground (arith, rec x none_yet, sum_by-moved s before after c written won stands (passed x)))

Reach-Recorded : {s : Shared} → Reach s → Recorded s
unfolding Recorded
Reach-Recorded here = λ x none_yet. refl
Reach-Recorded (next r st) = Step-Recorded st (Reach-Recorded r)

finished_one :
    (x c : Bytes) (p : Phase)
    → steps_left p ≡ 0
    → (passed x (standing c p) ≡ asked x (standing c p)) × (is_finished p ≡ true)
finished_one x c won done = (refl, refl)
finished_one x c lost done = (refl, refl)
finished_one x c arrived done = absurd (omega (arith, done))
finished_one x c locked done = absurd (omega (arith, done))
finished_one x c absent done = absurd (omega (arith, done))
finished_one x c present done = absurd (omega (arith, done))
finished_one x c written done = absurd (omega (arith, done))

finished-passed :
    (x : Bytes) (ths : List Thread)
    → sum_by remaining ths ≡ 0
    → (sum_by (passed x) ths ≡ sum_by (asked x) ths) × All (λ th. is_finished th.phase ≡ true) ths
finished-passed x [] done = (refl, tt)
finished-passed x (th ∷ ths) done =
    let (same, all) = finished-passed x ths (omega (arith, done)) in
    let (same', all') = finished_one x th.component th.phase (omega (arith, done)) in
    (omega (arith, same, same'), (all', all))

claims-le-asked : (x : Bytes) (ths : List Thread) → sum_by (claims x) ths ≤ sum_by (asked x) ths
claims-le-asked x [] = omega arith
claims-le-asked x (th ∷ ths) = ground (arith, claims-le-asked x ths)

-- The goroutines of a reachable state, however they are scheduled while no new one starts, make no
-- more than four times as many steps as there are goroutines, and can always go on to a state in
-- which all have left the lock, exactly one has claimed each component for which one was started,
-- and none has claimed another.
pub Reach-finishes :
    {s t : Shared} {n : ℕ}
    → Reach s
    → Ahead t n s
    → (n ≤ 4 * length s.threads)
      × ((u : Shared) × (m : ℕ) × Ahead u m t
          × All (λ th. is_finished th.phase ≡ true) u.threads
          × ((x : Bytes)
              → sum_by (claims x) u.threads ≡ one_if (ltb 0 (sum_by (asked x) s.threads))))
unfolding Recorded
Reach-finishes {s} {t} {n} r a =
    let r' = Ahead-Reach r a in
    let (u, m, b, done) = finish (sum_by remaining t.threads) t r' (omega arith) in
    let r'' = Ahead-Reach r' b in
    (
      omega (arith, (Ahead-Moved a).0, remaining-le-length s.threads),
      (
        u,
        m,
        b,
        (finished-passed [] u.threads done).1,
        λ x. ground (
          arith,
          (Ahead-Moved a).1 x,
          (Ahead-Moved b).1 x,
          Reach-one_claim r'' x,
          Reach-Recorded r'' x,
          (finished-passed x u.threads done).0,
          claims-le-asked x u.threads,
        ),
      ),
    )
