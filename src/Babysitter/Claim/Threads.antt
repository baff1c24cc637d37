-- ===== src/Babysitter/Claim/Threads.antt =====
-- Many goroutines call `watchPods` at once (`ActivateComponent` starts one for each request): the
-- critical section between `b.mu.Lock()` and `b.mu.Unlock()` step by step
-- (internal/impl/babysitter.go).
use weaver_kube.Base.{
  ℕ, ◌+◌, ◌≤◌, Bool, true, false, List, [], ◌∷◌, ◌++◌, none, Bytes, bytes_eq, lookup, insert, ◌≡◌,
  ◌≢◌, sum_by, one_if, value_or_zero, if◌then◌else◌,
}
use weaver_kube.Babysitter.Claim.{Watching}

-- Where a goroutine is: before the lock, behind it, behind the test with either result, behind the
-- write, and after the unlock with the component claimed or not.
pub data Phase : Type 0 where
  arrived locked present absent written won lost : Phase

pub record Thread : Type 0 where
  pub component : Bytes
  pub phase : Phase

pub record Shared : Type 0 where
  pub held : Bool
  pub watching : Watching
  pub threads : List Thread

abbrev pub standing : Bytes → Phase → Thread
standing c p = record { component = c; phase = p }

-- `ActivateComponent`, which starts a goroutine and returns.
unfoldable pub activate_component : Bytes → Shared → Shared
activate_component c s = record s { threads = s.threads ++ standing c arrived ∷ [] }

-- One step of one goroutine, which stands between `before` and `after` in the list of all, or the
-- start of a goroutine.
pub data Step (s t : Shared) : Type 0 where
  start : (c : Bytes) → t ≡ activate_component c s → Step s t
  lock :
      (before after : List Thread) (c : Bytes)
      → s.held ≡ false
      → s.threads ≡ before ++ standing c arrived ∷ after
      → t ≡ record s { held = true; threads = before ++ standing c locked ∷ after }
      → Step s t
  test_present :
      (before after : List Thread) (c : Bytes)
      → s.threads ≡ before ++ standing c locked ∷ after
      → lookup c s.watching ≢ none
      → t ≡ record s { threads = before ++ standing c present ∷ after }
      → Step s t
  test_absent :
      (before after : List Thread) (c : Bytes)
      → s.threads ≡ before ++ standing c locked ∷ after
      → lookup c s.watching ≡ none
      → t ≡ record s { threads = before ++ standing c absent ∷ after }
      → Step s t
  write :
      (before after : List Thread) (c : Bytes)
      → s.threads ≡ before ++ standing c absent ∷ after
      → t ≡ record s {
        watching = insert c tt s.watching;
        threads = before ++ standing c written ∷ after;
      }
      → Step s t
  unlock_and_return :
      (before after : List Thread) (c : Bytes)
      → s.threads ≡ before ++ standing c present ∷ after
      → t ≡ record s { held = false; threads = before ++ standing c lost ∷ after }
      → Step s t
  unlock_and_watch :
      (before after : List Thread) (c : Bytes)
      → s.threads ≡ before ++ standing c written ∷ after
      → t ≡ record s { held = false; threads = before ++ standing c won ∷ after }
      → Step s t

abbrev pub idle : Shared
idle = record { held = false; watching = []; threads = [] }

-- What a run of any length and interleaving reaches.
pub data Reach : Shared → Type 0 where
  here : Reach idle
  next : {s t : Shared} → Reach s → Step s t → Reach t

-- The goroutine is between lock and unlock.
abbrev pub is_inside : Phase → Bool
is_inside locked = true
is_inside present = true
is_inside absent = true
is_inside written = true
is_inside _ = false

-- It has claimed the component.
abbrev pub has_claimed : Phase → Bool
has_claimed written = true
has_claimed won = true
has_claimed _ = false

abbrev pub is_absent : Phase → Bool
is_absent absent = true
is_absent _ = false

abbrev pub inside : Thread → ℕ
inside th = one_if (is_inside th.phase)

abbrev pub claims : Bytes → Thread → ℕ
claims x th = if bytes_eq x th.component then one_if (has_claimed th.phase) else 0

abbrev pub about_to_claim : Bytes → Thread → ℕ
about_to_claim x th = if bytes_eq x th.component then one_if (is_absent th.phase) else 0

abbrev pub watched : Bytes → Watching → ℕ
watched x w = value_or_zero (λ u. 1) (lookup x w)

pub record Invariant (s : Shared) : Type 0 where
  pub exclusive : sum_by inside s.threads ≡ one_if s.held
  pub counted : (x : Bytes) → sum_by (claims x) s.threads ≡ watched x s.watching
  pub fresh : (x : Bytes) → sum_by (about_to_claim x) s.threads + watched x s.watching ≤ 1
