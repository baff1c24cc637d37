-- ===== src/Babysitter/Claim/Exclusive.antt =====
-- At most one goroutine is inside the lock of `watchPods`, and at most one claims a component
-- (internal/impl/babysitter.go).
use weaver_kube.Base.{
  ℕ, ◌+◌, ◌≤◌, true, false, List, [], ◌∷◌, ◌++◌, Bytes, bytes_eq_iff, lookup, lookup-insert, ◌≡◌,
  refl, ap, arith, sum_by, sum_by-append,
}
use weaver_kube.Babysitter.Claim.Threads.{
  Phase, arrived, locked, present, absent, written, won, lost, Thread, Shared, Step, start, lock,
  test_present, test_absent, write, unlock_and_return, unlock_and_watch, standing,
  activate_component, Reach, here, next, is_inside, is_absent, inside, claims, about_to_claim,
  watched, Invariant,
}

pub sum_by-middle :
    (f : Thread → ℕ) (before after : List Thread) (th : Thread)
    → sum_by f (before ++ th ∷ after) ≡ sum_by f before + f th + sum_by f after
sum_by-middle f before after th = grind (arith, sum_by-append)

-- At most one goroutine is about to claim, since only one is inside.
about_one : (x c : Bytes) (p : Phase) → about_to_claim x (standing c p) ≤ inside (standing c p)
about_one x c arrived = ground arith
about_one x c _ = ground arith

about-le-inside :
    (x : Bytes) (ths : List Thread) → sum_by (about_to_claim x) ths ≤ sum_by inside ths
about-le-inside x [] = omega arith
about-le-inside x (th ∷ ths) =
    omega (arith, about-le-inside x ths, about_one x th.component th.phase)

-- A goroutine that moves from one phase to another changes each sum by its own part.
module _ (s : Shared) (before after : List Thread) (c : Bytes) (p p' : Phase)
    (stands : s.threads ≡ before ++ standing c p ∷ after) where
  pub sum_by-moved :
      (f : Thread → ℕ)
      → sum_by f (before ++ standing c p' ∷ after) + f (standing c p)
        ≡ sum_by f s.threads + f (standing c p')
  sum_by-moved f = omega (
    arith,
    ap (sum_by f) stands,
    sum_by-middle f before after (standing c p),
    sum_by-middle f before after (standing c p'),
  )

  -- While a goroutine is inside, no other one is about to claim.
  alone :
      Invariant s
      → is_inside p ≡ true
      → is_absent p ≡ false
      → (x : Bytes) → sum_by (about_to_claim x) s.threads ≡ 0
  alone inv within not_yet x = ground (
    arith,
    inv.exclusive,
    ap (sum_by inside) stands,
    ap (sum_by (about_to_claim x)) stands,
    sum_by-middle inside before after (standing c p),
    sum_by-middle (about_to_claim x) before after (standing c p),
    about-le-inside x before,
    about-le-inside x after,
  )

Step-Invariant : {s t : Shared} → Step s t → Invariant s → Invariant t
unfolding activate_component
Step-Invariant {s} (start c e) inv = rw e (record {
  exclusive =
      ground (arith, inv.exclusive, sum_by-append inside s.threads (standing c arrived ∷ []));
  counted = λ x.
      ground (arith, inv.counted x, sum_by-append (claims x) s.threads (standing c arrived ∷ []));
  fresh = λ x.
      ground
        (arith, inv.fresh x, sum_by-append (about_to_claim x) s.threads (standing c arrived ∷ []));
})
Step-Invariant {s} (lock before after c free stands e) inv = rw e (record {
  exclusive =
      ground (arith, inv.exclusive, sum_by-moved s before after c arrived locked stands inside);
  counted = λ x.
      ground (arith, inv.counted x, sum_by-moved s before after c arrived locked stands (claims x));
  fresh = λ x.
      ground (
        arith,
        inv.fresh x,
        sum_by-moved s before after c arrived locked stands (about_to_claim x),
      );
})
Step-Invariant {s} (test_present before after c stands found e) inv = rw e (record {
  exclusive =
      ground (arith, inv.exclusive, sum_by-moved s before after c locked present stands inside);
  counted = λ x.
      ground (arith, inv.counted x, sum_by-moved s before after c locked present stands (claims x));
  fresh = λ x.
      ground (
        arith,
        inv.fresh x,
        sum_by-moved s before after c locked present stands (about_to_claim x),
      );
})
Step-Invariant {s} (test_absent before after c stands free e) inv = rw e (record {
  exclusive =
      ground (arith, inv.exclusive, sum_by-moved s before after c locked absent stands inside);
  counted = λ x.
      ground (arith, inv.counted x, sum_by-moved s before after c locked absent stands (claims x));
  fresh = λ x. ground (
    arith,
    inv.fresh x,
    sum_by-moved s before after c locked absent stands (about_to_claim x),
    alone s before after c locked absent stands inv refl refl x,
    bytes_eq_iff x c,
  );
})
Step-Invariant {s} (write before after c stands e) inv = rw e (record {
  exclusive =
      ground (arith, inv.exclusive, sum_by-moved s before after c absent written stands inside);
  counted = λ x. ground (
    arith,
    inv.counted x,
    sum_by-moved s before after c absent written stands (claims x),
    inv.fresh x,
    lookup-insert x c tt s.watching,
    bytes_eq_iff x c,
    sum_by-middle (about_to_claim x) before after (standing c absent),
    ap (sum_by (about_to_claim x)) stands,
  );
  fresh = λ x. ground (
    arith,
    inv.fresh x,
    sum_by-moved s before after c absent written stands (about_to_claim x),
    lookup-insert x c tt s.watching,
  );
})
Step-Invariant {s} (unlock_and_return before after c stands e) inv = rw e (record {
  exclusive =
      ground (arith, inv.exclusive, sum_by-moved s before after c present lost stands inside);
  counted = λ x.
      ground (arith, inv.counted x, sum_by-moved s before after c present lost stands (claims x));
  fresh = λ x.
      ground
        (arith, inv.fresh x, sum_by-moved s before after c present lost stands (about_to_claim x));
})
Step-Invariant {s} (unlock_and_watch before after c stands e) inv = rw e (record {
  exclusive =
      ground (arith, inv.exclusive, sum_by-moved s before after c written won stands inside);
  counted = λ x.
      ground (arith, inv.counted x, sum_by-moved s before after c written won stands (claims x));
  fresh = λ x.
      ground
        (arith, inv.fresh x, sum_by-moved s before after c written won stands (about_to_claim x));
})

pub Reach-Invariant : {s : Shared} → Reach s → Invariant s
unfolding lookup
Reach-Invariant here = record { exclusive = refl; counted = λ x. refl; fresh = λ x. omega arith }
Reach-Invariant (next r st) = Step-Invariant st (Reach-Invariant r)

-- In every interleaving at most one goroutine is inside the lock, and the goroutines that have
-- claimed a component are one if it is in the set and none if it is not.
pub Reach-one_claim :
    {s : Shared}
    → Reach s
    → (x : Bytes)
    → (sum_by inside s.threads ≤ 1)
      × (sum_by (claims x) s.threads ≡ watched x s.watching)
      × (sum_by (claims x) s.threads ≤ 1)
Reach-one_claim r x =
    let inv = Reach-Invariant r in
    (ground (arith, inv.exclusive), inv.counted x, omega (arith, inv.counted x, inv.fresh x))
