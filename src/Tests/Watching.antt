-- ===== src/Tests/Watching.antt =====
-- The babysitter of the sample application.
use Prim.Native.Nat.{zero, suc}
use weaver_kube.Base.{
  ◌↔◌, arith, if◌then◌else◌, split, ℕ, ◌+◌, ◌≤◌, true, false, List, [], ◌∷◌, ◌++◌, map, Option,
  none, some, Bytes, codes, bytes_eq, lookup, erase, Map, Error, external, plain_at, ok, err, panic,
  refl, ◌≡◌, All, sum_by, one_if, ltb,
}
use weaver_kube.Names.{deployment_name, hash8, first8, shorten_component, to_lower}
use weaver_kube.Babysitter.{BabysitterConfig}
use weaver_kube.Babysitter.Watch.{
  pod, added, deleted, Event, event, closed, waiting, watch_loop, watch_start, handle_event,
}
use weaver_kube.Babysitter.Watch.Addresses.{watch_loop_address}
use weaver_kube.Babysitter.Watch.Updates.{IsPublished, watch_loop-IsPublished}
use weaver_kube.Babysitter.Claim.{
  condition, Attempt, created, pending, refused, Backoff, IsBackoff, begin_watch, already_watched,
  failed, pod_selector,
}
use weaver_kube.Babysitter.Claim.Begin.{
  after_calls, begin_watch_twice, begin_watch_no_group, begin_watch_no_retry,
}
use weaver_kube.Babysitter.Claim.Progress.{Ahead, go, stay, is_finished, asked}
use weaver_kube.Babysitter.Claim.Finished.{Reach-finishes}
use weaver_kube.Babysitter.Claim.Exclusive.{Reach-one_claim}
use weaver_kube.Babysitter.Claim.Threads.{
  Shared, arrived, locked, absent, activate_component, test_absent, standing, start, lock, Reach,
  here, next, inside, claims, watched,
}
use weaver_kube.Babysitter.Handlers.{
  Handler, is_generated, read_metrics, log_batch, handle_log_entry, join_errors,
}
use weaver_kube.Babysitter.Handlers.Metrics.{IsOwn, read_metrics_off}
use weaver_kube.Babysitter.Handlers.Logs.{all_errors, run_all, log_batch_lem}
use weaver_kube.Tests.{
  fixed_extern, in_order, in_order-IsMapOrder, app, front, store, shop, deployment_id,
}

abbrev pod_event : Bytes → Bytes → Event
pod_event name address = record {
  type = added;
  object = pod (record { name = name; pod_ip = address });
}

abbrev gone : Bytes → Event
gone name = record { type = deleted; object = pod (record { name = name; pod_ip = [] }) }

abbrev events : List Event
events =
    pod_event (codes "p") (codes "10.0.0.1")
    ∷ pod_event (codes "q") (codes "10.0.0.2")
    ∷ gone (codes "p")
    ∷ []

watch_loop_address_example :
    ((watch_loop in_order front watch_start (map event events)).status ≡ waiting)
    × (lookup (codes "q") (watch_loop in_order front watch_start (map event events)).addrs
        ≡ some (codes "10.0.0.2"))
unfolding bytes_eq
watch_loop_address_example =
    watch_loop_address in_order front events (tt, (tt, (tt, tt))) (codes "q")

watch_loop-IsPublished_example :
    IsPublished front (watch_loop in_order front watch_start (map event events ++ closed ∷ []))
watch_loop-IsPublished_example =
    watch_loop-IsPublished in_order in_order-IsMapOrder front (map event events ++ closed ∷ [])

handled : handle_event (gone (codes "p")) ((codes "p", codes "10.0.0.1") ∷ []) ≡ ok ([], true)
unfolding handle_event lookup bytes_eq erase
handled = refl

abbrev babysitter : BabysitterConfig
babysitter = record {
  namespace = codes "default";
  deployment_id = deployment_id;
  listeners = [];
  groups = (front, shop) ∷ [];
  telemetry = record { metrics = record { auto_generate_metrics = false; export_interval = 30 } };
}

-- A backoff of at most ten calls.
abbrev calls_of : ℕ → (ℕ → Attempt) → ℕ
calls_of zero attempts = 0
calls_of (suc n) attempts = elim (attempts 0) [
  | pending ↦ 1 + calls_of n (λ i. attempts (1 + i))
  | _ ↦ 1
]

abbrev result_of : ℕ → (ℕ → Attempt) → Option Error
result_of zero attempts = some (external (codes "timed out"))
result_of (suc n) attempts = elim (attempts 0) [
  | created ↦ none
  | refused e ↦ some e
  | pending ↦ result_of n (λ i. attempts (1 + i))
]

of-created :
    (n : ℕ) (attempts : ℕ → Attempt)
    → attempts 0 ≡ created
    → (calls_of (suc n) attempts ≡ 1) × (result_of (suc n) attempts ≡ none)
of-created n attempts e = (ground (arith, e), ground (arith, e))

of-refused :
    (n : ℕ) (attempts : ℕ → Attempt) (error : Error)
    → attempts 0 ≡ refused error
    → (calls_of (suc n) attempts ≡ 1) × (result_of (suc n) attempts ≡ some error)
of-refused n attempts error e = (ground (arith, e), ground (arith, e))

calls_of-some : (n : ℕ) (attempts : ℕ → Attempt) → 1 ≤ calls_of (suc n) attempts
calls_of-some n attempts = ground arith

of-pending :
    (n : ℕ) (attempts : ℕ → Attempt) → attempts 0 ≡ pending → 2 ≤ calls_of (suc (suc n)) attempts
of-pending n attempts e = ground (arith, e, calls_of-some n (λ i. attempts (1 + i)))

abbrev pub ten_attempts : Backoff
ten_attempts = record { calls = calls_of 10; result = result_of 10 }

pub ten_attempts-IsBackoff : IsBackoff ten_attempts
ten_attempts-IsBackoff = record {
  stops_when_created = of-created 9;
  stops_when_refused = of-refused 9;
  repeats_when_pending = of-pending 8;
}

abbrev pub succeeds : ℕ → Option Error
succeeds n = none

-- Only the first attempt fails.
abbrev refuses : ℕ → Option Error
refuses zero = some (external (codes "forbidden"))
refuses (suc n) = none

selected :
    pod_selector fixed_extern app babysitter front
    ≡ ok (codes "serviceweaver/name=app-shop-12345678-01234567")
unfolding pod_selector lookup bytes_eq deployment_name hash8 first8 shorten_component to_lower split
selected = refl

-- Calls for two components, of which the second has no group.
abbrev earlier : List (Bytes × (ℕ → Option Error))
earlier = (front, succeeds) ∷ (store, succeeds) ∷ (front, refuses) ∷ []

begin_watch_twice_example :
    let before = after_calls fixed_extern app babysitter ten_attempts earlier [] in
    let call = begin_watch fixed_extern app babysitter ten_attempts succeeds front before in
    ((call.1 ≡ already_watched) ↔ (1 ≤ 2)) × (call.0 ≡ before)
unfolding bytes_eq
begin_watch_twice_example =
    begin_watch_twice fixed_extern app babysitter ten_attempts earlier succeeds front

begin_watch_no_group_example :
    (begin_watch fixed_extern app babysitter ten_attempts succeeds store
      (after_calls fixed_extern app babysitter ten_attempts ((front, succeeds) ∷ []) [])).1
    ≡ failed (err (plain_at (codes "unable to determine group name for component") store))
unfolding lookup bytes_eq
begin_watch_no_group_example =
    begin_watch_no_group fixed_extern app babysitter ten_attempts ((front, succeeds) ∷ []) succeeds
      store refl

begin_watch_no_retry_example :
    (ten_attempts.calls (λ n. condition (refuses n)) ≡ 1)
    × ((begin_watch fixed_extern app babysitter ten_attempts refuses front []).1
        ≡ failed (panic (codes "unable to create RetryWatcher")))
unfolding lookup
begin_watch_no_retry_example =
    begin_watch_no_retry fixed_extern app babysitter ten_attempts refuses front
      (codes "serviceweaver/name=app-shop-12345678-01234567") [] ten_attempts-IsBackoff refl
      selected

abbrev racing : Shared
racing = record {
  held = true;
  watching = [];
  threads = standing front locked ∷ standing front arrived ∷ [];
}

racing-Reach : Reach racing
unfolding activate_component
racing-Reach =
    next (next (next here (start front refl)) (start front refl))
      (lock [] (standing front arrived ∷ []) front refl refl refl)

Reach-one_claim_example :
    (sum_by inside racing.threads ≤ 1)
    × (sum_by (claims front) racing.threads ≡ watched front racing.watching)
    × (sum_by (claims front) racing.threads ≤ 1)
Reach-one_claim_example = Reach-one_claim racing-Reach front

-- The goroutine behind the lock finds the component absent.
abbrev racing_on : Shared
racing_on = record racing { threads = standing front absent ∷ standing front arrived ∷ [] }

racing_on-Ahead : Ahead racing_on 1 racing
unfolding lookup
racing_on-Ahead = go (test_absent [] (standing front arrived ∷ []) front refl refl refl) refl stay

Reach-finishes_example :
    (1 ≤ 8)
    × ((u : Shared) × (m : ℕ) × Ahead u m racing_on
        × All (λ th. is_finished th.phase ≡ true) u.threads
        × ((x : Bytes)
            → sum_by (claims x) u.threads ≡ one_if (ltb 0 (sum_by (asked x) racing.threads))))
Reach-finishes_example = Reach-finishes racing-Reach racing_on-Ahead

abbrev generated_labels : Map Bytes
generated_labels = (codes "serviceweaver_generated", codes "true") ∷ []

-- One for a metric that is the babysitter's own.
abbrev own_weight : Map Bytes → ℕ
own_weight snap = if is_generated (λ s. s) snap then 0 else 1

weightless : (a : Map Bytes) → is_generated (λ s. s) a ≡ true → own_weight a ≡ 0
weightless a h = rw h refl

read_metrics_off_example :
    (r : List (Map Bytes)) × (read_metrics (λ s. s) ([] ∷ []) (ok (generated_labels ∷ [])) false
      ≡ ok r)
    × All (IsOwn (λ s. s)) r
    × (sum_by own_weight r
        ≡ sum_by own_weight ([] ∷ []) + sum_by own_weight (generated_labels ∷ []))
read_metrics_off_example =
    read_metrics_off (λ s. s) ([] ∷ []) (generated_labels ∷ []) own_weight weightless

abbrev counting : Handler ℕ ℕ
counting entry seen = (some (external (entry ∷ [])), seen + entry)

log_batch_lem_example : log_batch (some counting) (λ entry seen. seen) (2 ∷ 3 ∷ []) 0 ≡ (
  join_errors (all_errors (handle_log_entry (some counting) (λ entry seen. seen)) (2 ∷ 3 ∷ []) 0),
  run_all (handle_log_entry (some counting) (λ entry seen. seen)) (2 ∷ 3 ∷ []) 0,
)
log_batch_lem_example = log_batch_lem (some counting) (λ entry seen. seen) (2 ∷ 3 ∷ []) 0
