-- ===== src/Babysitter/Claim.antt =====
-- How `watchPods` begins (internal/impl/babysitter.go): the claim of the component in `watching`,
-- the name of the pods to watch, and the creation of the watcher.
pub mod Begin
pub mod Threads
pub mod Exclusive
pub mod Progress
pub mod Finished
use Prim.Native.Nat.{ℕ}
use weaver_kube.Base.{
  ◌≤◌, Bool, true, false, Option, none, some, Bytes, codes, ◌++◌, Map, lookup, insert, Error,
  plain_at, Outcome, ok, err, panic, ◌>>=◌, ◌≡◌,
}
use weaver_kube.Config.{AppConfig}
use weaver_kube.Names.{Extern, deployment_name}
use weaver_kube.Babysitter.{BabysitterConfig}

-- `map[string]struct{}`
abbrev pub Watching : Type 0
Watching = Map (Unit {0})

abbrev claim_found : Bytes → Watching → Option (Unit {0}) → Watching × Bool
claim_found component watching (some _) = (watching, false)
claim_found component watching none = (insert component tt watching, true)

-- The set afterwards, and whether the component is new in it.
unfoldable pub claim : Bytes → Watching → Watching × Bool
claim component watching = claim_found component watching (lookup component watching)

-- `LabelSelector`
abbrev pub label_selector : Bytes → Bytes
label_selector name = codes "serviceweaver/name=" ++ name

abbrev group_or_error : Bytes → Option Bytes → Outcome Bytes
group_or_error component none =
    err (plain_at (codes "unable to determine group name for component") component)
group_or_error component (some rs) = ok rs

-- The selector of the pods that run the component.
unfoldable pub pod_selector : Extern → AppConfig → BabysitterConfig → Bytes → Outcome Bytes
pod_selector c app cfg component = do
  rs ← group_or_error component (lookup component cfg.groups)
  name ← deployment_name c app.name rs cfg.deployment_id
  ok (label_selector name)

-- What a condition returns to `wait.ExponentialBackoff`: true, false without an error, or false
-- with an error.
pub data Attempt : Type 0 where
  created pending : Attempt
  refused : Error → Attempt

-- `wait.ExponentialBackoff` of the Kubernetes library, given the results of the condition at its
-- first, second, ... call: how often it calls the condition, and the error that it returns.
pub record Backoff : Type 0 where
  pub calls : (ℕ → Attempt) → ℕ
  pub result : (ℕ → Attempt) → Option Error

-- The library documents that it stops at the first call at which the condition returns true or
-- an error, and that it returns this error; after a false without an error it calls the condition
-- again, since the program allows more than one call.
pub record IsBackoff (b : Backoff) : Type 0 where
  pub stops_when_created :
      (attempts : ℕ → Attempt)
      → attempts 0 ≡ created
      → (b.calls attempts ≡ 1) × (b.result attempts ≡ none)
  pub stops_when_refused :
      (attempts : ℕ → Attempt) (e : Error)
      → attempts 0 ≡ refused e
      → (b.calls attempts ≡ 1) × (b.result attempts ≡ some e)
  pub repeats_when_pending : (attempts : ℕ → Attempt) → attempts 0 ≡ pending → 2 ≤ b.calls attempts

abbrev panic_on : Option Error → Outcome (Unit {0})
panic_on none = ok tt
panic_on (some e) = panic (codes "unable to create RetryWatcher")

-- The condition, for the error that `NewRetryWatcher` returns.
unfoldable pub condition : Option Error → Attempt
condition (some e) = refused e
condition none = created

-- The creation of the watcher, given what `NewRetryWatcher` returns at the first, second, ... call.
-- The program panics on an error.
unfoldable pub create_watcher : Backoff → (ℕ → Option Error) → Outcome (Unit {0})
create_watcher b creations = panic_on (b.result (λ n. condition (creations n)))

-- What `watchPods` returns before its loop, or the selector with which it goes on.
pub data Begun : Type 0 where
  already_watched : Begun
  failed : Outcome (Unit {0}) → Begun
  watches : Bytes → Begun

abbrev pub begin_with : Outcome Bytes → Outcome (Unit {0}) → Begun
begin_with (err e) watcher = failed (err e)
begin_with (panic m) watcher = failed (panic m)
begin_with (ok selector) (ok _) = watches selector
begin_with (ok selector) failure = failed failure

module _ (c : Extern) (app : AppConfig) (cfg : BabysitterConfig) (b : Backoff) where
  begin_claimed : (ℕ → Option Error) → Bytes → Watching × Bool → Watching × Begun
  begin_claimed creations component (watching, false) = (watching, already_watched)
  begin_claimed creations component (watching, true) =
      (watching, begin_with (pod_selector c app cfg component) (create_watcher b creations))

  unfoldable pub begin_watch : (ℕ → Option Error) → Bytes → Watching → Watching × Begun
  unfolding begin_claimed
  begin_watch creations component watching =
      begin_claimed creations component (claim component watching)
