-- ===== src/Lifecycle/Epochs.antt =====
-- apps/controller/src/jobs/lifecycle.ts: the lease epochs fence the earlier attempts of a job.
use remote_build_orchestrato.Common.{
  ℕ, ◌≤◌, ◌<◌, ◌≡◌, sym, subst, inl, inr, Bool, true, List, [], ◌∷◌, ◌++◌, ok, arith,
}
use remote_build_orchestrato.Common.Sort.{In}
use remote_build_orchestrato.Lifecycle.{AttemptRow, Database}
use remote_build_orchestrato.Lifecycle.Writes.{
  greatest, of_job, next_lease_epoch_for_job, create_attempt,
}

le-greatest :
    {A : Type 0} (p : A → Bool) (f : A → ℕ) (rs : List A) (r : A)
    → In r rs
    → p r ≡ true
    → f r ≤ greatest p f rs
le-greatest p f [] r m e = absurd m
le-greatest p f (x ∷ rs) r (inl same) e =
    subst (λ y. f y ≤ greatest p f (x ∷ rs)) (sym same)
      (ground (arith, subst (λ y. p y ≡ true) same e))
le-greatest p f (x ∷ rs) r (inr m) e = ground (arith, le-greatest p f rs r m e)

-- When an attempt is created, it is of its job, is added to the rows that were there, and has an
-- epoch above that of every attempt of the job among them.
pub create_attempt_fences :
    (db : Database) (job ordinal id lease now : ℕ) (row r : AttemptRow)
    → (create_attempt db job ordinal id lease now).1 ≡ ok row
    → In r db.attempts
    → r.job_id ≡ job
    → (row.job_id ≡ job)
      × ((create_attempt db job ordinal id lease now).0.attempts ≡ db.attempts ++ row ∷ [])
      × (r.lease_epoch < row.lease_epoch)
unfolding create_attempt
create_attempt_fences db job ordinal id lease now row r h m e =
    let epoch : row.lease_epoch ≡ next_lease_epoch_for_job db job = ground arith in
    let below = le-greatest (of_job job) AttemptRow.lease_epoch db.attempts r m (ground arith) in
    (ground arith, ground arith, unfold next_lease_epoch_for_job in omega (arith, below, epoch))
