-- ===== src/Lifecycle/Wakeups.antt =====
-- apps/controller/src/jobs/lifecycle-notifier.ts: wake-ups follow commits only, and none is lost.
use remote_build_orchestrato.Common.{
  ℕ, ◌≡◌, refl, sym, ap, ◌∙◌, inl, inr, true, false, ◌||◌, List, [], ◌∷◌, ◌++◌, ok, err, ◌==◌,
  arith, Bool-cases,
}
use mathlib.Core.List.{append-nil, append_assoc}
use remote_build_orchestrato.Lifecycle.Notifier.{
  Waiters, JobLifecycleNotifier, listeners_of, has_member, add_member, delete_row, notify,
  notify_after_commit, notify_each, run_transaction,
}

-- The writes of a transaction, each of which announces its job.
abbrev pub announce : JobLifecycleNotifier → List ℕ → JobLifecycleNotifier
announce n [] = n
announce n (job ∷ jobs) = announce (notify_after_commit n job) jobs

-- The jobs in the order of their first announcement.
abbrev pub added : List ℕ → List ℕ → List ℕ
added pending [] = pending
added pending (job ∷ jobs) = added (add_member job pending) jobs

abbrev pub listeners_of_each : List Waiters → List ℕ → List ℕ
listeners_of_each rows [] = []
listeners_of_each rows (job ∷ jobs) = listeners_of rows job ++ listeners_of_each rows jobs

abbrev IsDistinct : List ℕ → Type 0
IsDistinct [] = Unit
IsDistinct (n ∷ ns) = (has_member n ns ≡ false) × IsDistinct ns

has_member-append :
    (m n : ℕ) (ns : List ℕ) → has_member m (ns ++ n ∷ []) ≡ (has_member m ns || n == m)
has_member-append m n [] = ground arith
has_member-append m n (x ∷ ns) = ground (arith, has_member-append m n ns)

append-IsDistinct :
    (n : ℕ) (ns : List ℕ) → has_member n ns ≡ false → IsDistinct ns → IsDistinct (ns ++ n ∷ [])
append-IsDistinct n [] e h = (refl, tt)
append-IsDistinct n (x ∷ ns) e h =
    (ground (arith, has_member-append x n ns, h.0), append-IsDistinct n ns (ground arith) h.1)

added-IsDistinct : (pending jobs : List ℕ) → IsDistinct pending → IsDistinct (added pending jobs)
added-IsDistinct pending [] h = h
added-IsDistinct pending (job ∷ jobs) h = elim (Bool-cases (has_member job pending)) [
  | inl e ↦ rw e (added-IsDistinct pending jobs h)
  | inr e ↦ rw e (added-IsDistinct (pending ++ job ∷ []) jobs (append-IsDistinct job pending e h))
]

-- In a transaction nothing is woken: the jobs wait.
waits :
    (n : JobLifecycleNotifier) (job : ℕ)
    → n.in_transaction ≡ true
    → n.closed ≡ false
    → notify_after_commit n job ≡ record n { pending = add_member job n.pending }
unfolding notify_after_commit
waits n job t c = ground arith

announce-waits :
    (n : JobLifecycleNotifier) (jobs : List ℕ)
    → n.in_transaction ≡ true
    → n.closed ≡ false
    → announce n jobs ≡ record n { pending = added n.pending jobs }
announce-waits n [] t c = refl
announce-waits n (job ∷ jobs) t c =
    ap (λ m. announce m jobs) (waits n job t c)
    ∙ announce-waits (record n { pending = add_member job n.pending }) jobs t c

listeners_of-delete_row :
    (rows : List Waiters) (job other : ℕ)
    → job == other ≡ false
    → listeners_of (delete_row job rows) other ≡ listeners_of rows other
listeners_of-delete_row [] job other e = refl
listeners_of-delete_row (w ∷ rows) job other e =
    ground (arith, listeners_of-delete_row rows job other e)

listeners_of_each-delete_row :
    (rows : List Waiters) (job : ℕ) (jobs : List ℕ)
    → has_member job jobs ≡ false
    → listeners_of_each (delete_row job rows) jobs ≡ listeners_of_each rows jobs
listeners_of_each-delete_row rows job [] e = refl
listeners_of_each-delete_row rows job (other ∷ jobs) e = ground (
  arith,
  listeners_of-delete_row rows job other (ground arith),
  listeners_of_each-delete_row rows job jobs (ground arith),
)

notifies :
    (n : JobLifecycleNotifier) (job : ℕ)
    → n.closed ≡ false
    → notify n job ≡ record n {
      listeners_by_job = delete_row job n.listeners_by_job;
      woken = n.woken ++ listeners_of n.listeners_by_job job;
    }
unfolding notify
notifies n job c = ground arith

notify_each-wakes :
    (n : JobLifecycleNotifier) (jobs : List ℕ)
    → n.closed ≡ false
    → IsDistinct jobs
    → (notify_each n jobs).woken ≡ n.woken ++ listeners_of_each n.listeners_by_job jobs
notify_each-wakes n [] c h = sym (append-nil n.woken)
notify_each-wakes n (job ∷ jobs) c h =
    let rows = n.listeners_by_job in
    let next : JobLifecycleNotifier = record n {
      listeners_by_job = delete_row job rows;
      woken = n.woken ++ listeners_of rows job;
    } in
    ap (λ m. (notify_each m jobs).woken) (notifies n job c)
    ∙ notify_each-wakes next jobs c h.1
    ∙ append_assoc n.woken (listeners_of rows job) (listeners_of_each (delete_row job rows) jobs)
    ∙ ap (λ ls. n.woken ++ (listeners_of rows job ++ ls))
        (listeners_of_each-delete_row rows job jobs h.0)

abbrev opened : JobLifecycleNotifier → JobLifecycleNotifier
opened n = record n { in_transaction = true; active_transaction = true }

-- A transaction whose writes announce jobs, and that throws, on an open notifier outside of a
-- transaction: the error is passed on, no listener is woken or lost, no job waits and the
-- transaction is no longer managed.
pub rollback_silent :
    {A E : Type 0} (n : JobLifecycleNotifier) (jobs : List ℕ) (nested e : E)
    → n.in_transaction ≡ false
    → n.closed ≡ false
    → run_transaction {A = A} n nested (λ m. (announce m jobs, err e))
      ≡ (record n { in_transaction = false; active_transaction = false; pending = [] }, err e)
unfolding run_transaction
rollback_silent n jobs nested e t c = rw (t, announce-waits (opened n) jobs refl c) refl

-- A transaction whose writes announce jobs, and that commits, on an open notifier outside of a
-- transaction with no job waiting: the value is passed on, and the listeners
-- that are woken are those that were subscribed to the announced jobs, job by job in the order of
-- the first announcement.
commit_wakes :
    {A E : Type 0} (n : JobLifecycleNotifier) (jobs : List ℕ) (nested : E) (a : A)
    → n.in_transaction ≡ false
    → n.closed ≡ false
    → n.pending ≡ []
    → let (after, result) = run_transaction n nested (λ m. (announce m jobs, ok a)) in
      (result ≡ ok a)
      × (after.woken ≡ n.woken ++ listeners_of_each n.listeners_by_job (added [] jobs))
unfolding run_transaction
commit_wakes n jobs nested a t c p =
    rw (t, announce-waits (opened n) jobs refl c, p)
      (
        refl,
        notify_each-wakes
            (record n { in_transaction = false; active_transaction = false; pending = [] })
            (added [] jobs) c (added-IsDistinct [] jobs tt),
      )
