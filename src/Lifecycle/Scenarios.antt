-- ===== src/Lifecycle/Scenarios.antt =====
-- A job with an attempt that failed and the events of it.
use remote_build_orchestrato.Common.{ℕ, ◌<◌, ◌≡◌, refl, false, some, [], ◌∷◌, ok, err, inl}
use remote_build_orchestrato.Lifecycle.{AttemptRow, AttemptState, EventRow, Database, failed}
use remote_build_orchestrato.Lifecycle.Writes.{
  fresh_attempt, create_attempt, insert_attempt, next_lease_epoch_for_job,
}
use remote_build_orchestrato.Lifecycle.Epochs.{create_attempt_fences}
use remote_build_orchestrato.Lifecycle.Notifier.{JobLifecycleNotifier, run_transaction}
use remote_build_orchestrato.Lifecycle.Wakeups.{announce, rollback_silent}

abbrev earlier : AttemptRow
earlier = record (fresh_attempt 4 1 1 50 3) {
  state = AttemptState.completed;
  outcome = some failed;
}

abbrev event : ℕ → ℕ → EventRow
event attempt n = record {
  job_id = 1;
  attempt_id = attempt;
  sequence = n;
  created_at = 0;
  event_type = 0;
}

abbrev database : Database
database = record {
  jobs = [];
  attempts = earlier ∷ [];
  events = event 4 1 ∷ event 6 1 ∷ event 4 2 ∷ [];
  notified = [];
  raw_transaction = false;
}

abbrev next : AttemptRow
next = record (fresh_attempt 5 1 2 51 4) { started_at = some 100 }

created : (create_attempt database 1 2 5 51 100).1 ≡ ok next
unfolding create_attempt insert_attempt next_lease_epoch_for_job
created = refl

create_attempt_fences_example :
    (next.job_id ≡ 1)
    × ((create_attempt database 1 2 5 51 100).0.attempts ≡ earlier ∷ next ∷ [])
    × (earlier.lease_epoch < 4)
create_attempt_fences_example =
    create_attempt_fences database 1 2 5 51 100 next earlier created (inl refl) refl

-- Two jobs with three listeners; the writes announce one job twice.
abbrev notifier : JobLifecycleNotifier
notifier = record {
  listeners_by_job =
      record { job = 1; listeners = 10 ∷ 11 ∷ [] } ∷ record { job = 2; listeners = 12 ∷ [] } ∷ [];
  pending = [];
  in_transaction = false;
  active_transaction = false;
  closed = false;
  woken = [];
}

rollback_silent_example :
    run_transaction {A = ℕ} {E = ℕ} notifier 0 (λ m. (announce m (1 ∷ 2 ∷ []), err 7))
    ≡ (notifier, err 7)
rollback_silent_example = rollback_silent notifier (1 ∷ 2 ∷ []) 0 7 refl refl
