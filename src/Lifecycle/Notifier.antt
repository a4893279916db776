-- ===== src/Lifecycle/Notifier.antt =====
-- apps/controller/src/jobs/lifecycle-notifier.ts: the JobLifecycleNotifier of the Controller's one
-- database. `listeners_by_job` is the Map in the order of its keys, with each Set in the order of
-- its members; `woken` records the calls of listeners, which are numbers and do not call back.
use remote_build_orchestrato.Common.{
  ℕ, suc, Bool, true, false, not, ◌||◌, Option, none, some, List, [], ◌∷◌, ◌++◌, Result, ok, err,
  ◌==◌, if◌then◌else◌,
}
use remote_build_orchestrato.Common.Rows.{has_row, find_row, update_row}

pub record Waiters : Type 0 where
  pub job : ℕ
  pub listeners : List ℕ

pub record JobLifecycleNotifier : Type 0 where
  pub listeners_by_job : List Waiters
  pub pending : List ℕ
  pub in_transaction : Bool
  pub active_transaction : Bool
  pub closed : Bool
  pub woken : List ℕ

abbrev pub listeners_of : List Waiters → ℕ → List ℕ
listeners_of rows job = elim (find_row Waiters.job job rows) [ none ↦ [] | some w ↦ w.listeners ]

abbrev pub has_member : ℕ → List ℕ → Bool
has_member n [] = false
has_member n (m ∷ ms) = m == n || has_member n ms

-- Set.add.
abbrev pub add_member : ℕ → List ℕ → List ℕ
add_member n ms = if has_member n ms then ms else ms ++ n ∷ []

abbrev pub delete_member : ℕ → List ℕ → List ℕ
delete_member n [] = []
delete_member n (m ∷ ms) = let rest = delete_member n ms in if m == n then rest else m ∷ rest

abbrev pub delete_row : ℕ → List Waiters → List Waiters
delete_row job [] = []
delete_row job (w ∷ ws) = let rest = delete_row job ws in if w.job == job then rest else w ∷ rest

abbrev add_listener : ℕ → Waiters → Waiters
add_listener l w = record w { listeners = add_member l w.listeners }

abbrev delete_listener : ℕ → Waiters → Waiters
delete_listener l w = record w { listeners = delete_member l w.listeners }

unfoldable pub subscribe : JobLifecycleNotifier → ℕ → ℕ → JobLifecycleNotifier
subscribe n job l =
    if n.closed
    then record n { woken = n.woken ++ l ∷ [] }
    else if has_row Waiters.job job n.listeners_by_job
    then record n {
      listeners_by_job = update_row Waiters.job job (add_listener l) n.listeners_by_job;
    }
    else record n {
      listeners_by_job = n.listeners_by_job ++ record { job = job; listeners = l ∷ [] } ∷ [];
    }

abbrev pub is_empty : List ℕ → Bool
is_empty [] = true
is_empty (m ∷ ms) = false

-- The first call of what `subscribe` returned.
unfoldable pub unsubscribe : JobLifecycleNotifier → ℕ → ℕ → JobLifecycleNotifier
unsubscribe n job l =
    if not (has_row Waiters.job job n.listeners_by_job)
    then n
    else if is_empty (delete_member l (listeners_of n.listeners_by_job job))
    then record n { listeners_by_job = delete_row job n.listeners_by_job }
    else record n {
      listeners_by_job = update_row Waiters.job job (delete_listener l) n.listeners_by_job;
    }

unfoldable pub notify : JobLifecycleNotifier → ℕ → JobLifecycleNotifier
notify n job = if n.closed then n else record n {
  listeners_by_job = delete_row job n.listeners_by_job;
  woken = n.woken ++ listeners_of n.listeners_by_job job;
}

unfoldable pub notify_after_commit : JobLifecycleNotifier → ℕ → JobLifecycleNotifier
unfolding notify
notify_after_commit n job =
    if n.closed
    then n
    else if not n.in_transaction
    then notify n job
    else record n { pending = add_member job n.pending }

abbrev pub notify_each : JobLifecycleNotifier → List ℕ → JobLifecycleNotifier
notify_each n [] = n
notify_each n (job ∷ jobs) = notify_each (notify n job) jobs

-- `operation` is what the caller runs in the transaction: it commits with a value or throws.
unfoldable pub run_transaction :
    {A E : Type 0}
    → JobLifecycleNotifier
    → E
    → (JobLifecycleNotifier → JobLifecycleNotifier × Result E A)
    → JobLifecycleNotifier × Result E A
run_transaction n nested operation =
    if n.in_transaction
    then (n, err nested)
    else (let (done, result) =
          operation (record n { in_transaction = true; active_transaction = true }) in
        let left : JobLifecycleNotifier = record done {
          in_transaction = false;
          active_transaction = false;
          pending = [];
        } in
        elim result [ err e ↦ (left, err e) | ok a ↦ (notify_each left done.pending, ok a) ])

abbrev pub all_listeners : List Waiters → List ℕ
all_listeners [] = []
all_listeners (w ∷ ws) = w.listeners ++ all_listeners ws

unfoldable pub close : JobLifecycleNotifier → JobLifecycleNotifier
close n = record n {
  closed = true;
  listeners_by_job = [];
  woken = n.woken ++ all_listeners n.listeners_by_job;
}

abbrev pub count : List ℕ → ℕ
count [] = 0
count (m ∷ ms) = suc (count ms)

abbrev pub listener_count : JobLifecycleNotifier → Option ℕ → ℕ
listener_count n none = count (all_listeners n.listeners_by_job)
listener_count n (some job) = count (listeners_of n.listeners_by_job job)
