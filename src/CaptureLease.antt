-- ===== src/CaptureLease.antt =====
-- apps/controller/src/jobs/capture-lease.ts: the lease with a fencing generation that the owner of
-- a snapshot capture holds. The database is the submissions and the leases; every statement of the
-- file is WHERE client_id = ? AND client_request_id = ?, so it reads and writes one row.
-- `randomBytes` and the clock are the fields of `Options`.
pub mod Authority
pub mod Fencing
pub mod Terminal
mod Scenarios
use remote_build_orchestrato.Common.{
  ℕ, ◌+◌, ◌-◌, ◌^◌, List, [], ◌∷◌, Bool, true, false, ◌&&◌, Option, none, some, Result, ok, err,
  ◌==◌, ltb, leb, if◌then◌else◌,
}
use remote_build_orchestrato.Submission.{
  Key, key_eq, Table, put, SubmissionState, capturing, captured, failed, SubmissionRow, Submissions,
  get_submission, insert_row, ReserveResult, reserve_submission, FinalState, complete_submission,
}

pub record CaptureLease : Type 0 where
  pub owner_token : ℕ
  pub fencing_generation : ℕ
  pub expires_at : ℕ
  pub created_at : ℕ
  pub updated_at : ℕ

-- What a holder of a lease keeps of it.
pub record Identity : Type 0 where
  pub key : Key
  pub owner_token : ℕ
  pub fencing_generation : ℕ

pub record Database : Type 0 where
  pub submissions : Submissions
  pub leases : Table CaptureLease

-- `now` is `none` for an invalid date; `owner_token` is the one given or the random one.
pub record Options : Type 0 where
  pub ttl_ms : Option ℕ
  pub now : Option ℕ
  pub owner_token : ℕ

pub data LeaseError : Type 0 where
  invalid_clock invalid_ttl reservation_failed : LeaseError

pub data Reason : Type 0 where
  active terminal missing : Reason

pub record LeaseResult : Type 0 where
  pub acquired : Bool
  pub reason : Option Reason
  pub reclaimed : Bool
  pub lease : Option CaptureLease
  pub submission : Option SubmissionRow

abbrev pub default_capture_lease_ttl_ms : ℕ
default_capture_lease_ttl_ms = 30000

abbrev pub max_safe_integer : ℕ
max_safe_integer = 2 ^ 53 - 1

abbrev clock : Options → Result LeaseError ℕ
clock o = elim o.now [ none ↦ err invalid_clock | some t ↦ ok t ]

abbrev or_default : Option ℕ → ℕ → ℕ
or_default none d = d
or_default (some a) d = a

abbrev ttl : Options → Result LeaseError ℕ
ttl o =
    let value = or_default o.ttl_ms default_capture_lease_ttl_ms in
    if leb value max_safe_integer && ltb 0 value then ok value else err invalid_ttl

abbrev pub get_capture_lease : Database → Key → Option CaptureLease
get_capture_lease db k = db.leases k

abbrev is_capturing : SubmissionState → Bool
is_capturing capturing = true
is_capturing captured = false
is_capturing failed = false

-- The EXISTS clause of the statements.
abbrev pub submission_capturing : Database → Key → Bool
submission_capturing db k = elim (db.submissions k) [
  | none ↦ false
  | some row ↦ is_capturing row.state
]

-- UPDATE of the row under a key, where it exists and the condition holds.
abbrev update_lease :
    Database → Key → (CaptureLease → Bool) → (CaptureLease → CaptureLease) → Database × Bool
update_lease db k condition change = elim (db.leases k) [
  | none ↦ (db, false)
  | some lease ↦
      if condition lease
      then (record db { leases = put db.leases k (change lease) }, true)
      else (db, false)
]

abbrev pub owned_by : ℕ → ℕ → CaptureLease → Bool
owned_by token generation lease =
    lease.owner_token == token && lease.fencing_generation == generation

reclaim_at : Database → Key → ℕ → ℕ → ℕ → ℕ → ℕ → Database × Bool
reclaim_at db k token generation owner now duration =
    update_lease db k
      (λ lease.
        owned_by token generation lease && leb lease.expires_at now && submission_capturing db k)
      (λ lease. record lease {
        owner_token = owner;
        fencing_generation = lease.fencing_generation + 1;
        expires_at = now + duration;
        updated_at = now;
      })

unfoldable pub reclaim_expired_capture_lease :
    Database → Key → ℕ → ℕ → Options → Database × Result LeaseError Bool
unfolding reclaim_at
reclaim_expired_capture_lease db k token generation o = elim (clock o) [
  | err e ↦ (db, err e)
  | ok now ↦ elim (ttl o) [
    | err e ↦ (db, err e)
    | ok duration ↦
        let (after, changed) = reclaim_at db k token generation o.owner_token now duration in
        (after, ok changed)
  ]
]

abbrev refused : Reason → Option CaptureLease → Option SubmissionRow → LeaseResult
refused reason lease submission = record {
  acquired = false;
  reason = some reason;
  reclaimed = false;
  lease = lease;
  submission = submission;
}

abbrev granted : Bool → Database → Key → SubmissionRow → LeaseResult
granted reclaimed db k submission = record {
  acquired = true;
  reason = none;
  reclaimed = reclaimed;
  lease = get_capture_lease db k;
  submission = some submission;
}

abbrev first_lease : ℕ → ℕ → ℕ → CaptureLease
first_lease owner now duration = record {
  owner_token = owner;
  fencing_generation = 1;
  expires_at = now + duration;
  created_at = now;
  updated_at = now;
}

-- The INSERT … SELECT … WHERE EXISTS … ON CONFLICT DO NOTHING.
insert_lease : Database → Key → CaptureLease → Database × Bool
insert_lease db k lease =
    if submission_capturing db k
    then (let (leases, inserted) = insert_row db.leases k lease in
        (record db { leases = leases }, inserted))
    else (db, false)

after_reclaim : Database × Bool → Key → SubmissionRow → Database × Result LeaseError LeaseResult
after_reclaim (db, true) k submission = (db, ok (granted true db k submission))
after_reclaim (db, false) k submission =
    (db, ok (refused active (get_capture_lease db k) (some submission)))

acquire_at : Database → Key → SubmissionRow → ℕ → ℕ → ℕ → Database × Result LeaseError LeaseResult
unfolding insert_lease after_reclaim reclaim_at
acquire_at db k submission owner now duration =
    let (inserted_db, inserted) = insert_lease db k (first_lease owner now duration) in
    if inserted
    then (inserted_db, ok (granted false inserted_db k submission))
    else elim (get_capture_lease inserted_db k) [
      | none ↦ (inserted_db, ok (refused missing none (some submission)))
      | some previous ↦
          after_reclaim
            (reclaim_at inserted_db k previous.owner_token previous.fencing_generation owner now
              duration)
            k submission
    ]

acquire_capturing :
    SubmissionState
    → Database
    → Key
    → SubmissionRow
    → Options
    → Database × Result LeaseError LeaseResult
unfolding acquire_at
acquire_capturing capturing db k submission o = elim (clock o) [
  | err e ↦ (db, err e)
  | ok now ↦ elim (ttl o) [
    | err e ↦ (db, err e)
    | ok duration ↦ acquire_at db k submission o.owner_token now duration
  ]
]
acquire_capturing captured db k submission o =
    (db, ok (refused terminal (get_capture_lease db k) (some submission)))
acquire_capturing failed db k submission o =
    (db, ok (refused terminal (get_capture_lease db k) (some submission)))

unfoldable pub acquire_capture_lease :
    Database → Key → Options → Database × Result LeaseError LeaseResult
unfolding acquire_capturing
acquire_capture_lease db k o = elim (get_submission db.submissions k) [
  | none ↦ (db, ok (refused missing none none))
  | some submission ↦ acquire_capturing submission.state db k submission o
]

after_reservation :
    SubmissionState
    → Database
    → Key
    → SubmissionRow
    → Options
    → Database × Result LeaseError LeaseResult
unfolding acquire_capture_lease
after_reservation capturing db k submission o = acquire_capture_lease db k o
after_reservation captured db k submission o =
    (db, ok (refused terminal (get_capture_lease db k) (some submission)))
after_reservation failed db k submission o =
    (db, ok (refused terminal (get_capture_lease db k) (some submission)))

-- `timestamp` is the clock that `reserveSubmission` reads for itself.
unfoldable pub reserve_capture_lease :
    Database → Key → ℕ → Options → Database × Result LeaseError LeaseResult
unfolding reserve_submission after_reservation
reserve_capture_lease db k timestamp o =
    let (submissions, reservation) = reserve_submission db.submissions k timestamp in
    let after : Database = record db { submissions = submissions } in
    elim reservation [
      | err e ↦ (after, err reservation_failed)
      | ok r ↦ after_reservation r.submission.state after k r.submission o
    ]

renew_at : Database → Identity → ℕ → ℕ → Database × Option CaptureLease
renew_at db identity now duration =
    let (after, changed) =
      update_lease db identity.key
        (λ lease.
          owned_by identity.owner_token identity.fencing_generation lease
          && ltb now lease.expires_at
          && submission_capturing db identity.key)
        (λ lease. record lease { expires_at = now + duration; updated_at = now }) in
    (after, if changed then get_capture_lease after identity.key else none)

unfoldable pub renew_capture_lease :
    Database → Identity → Options → Database × Result LeaseError (Option CaptureLease)
unfolding renew_at
renew_capture_lease db identity o = elim (clock o) [
  | err e ↦ (db, err e)
  | ok now ↦ elim (ttl o) [
    | err e ↦ (db, err e)
    | ok duration ↦ let (after, renewed) = renew_at db identity now duration in (after, ok renewed)
  ]
]

-- The generation stays; the expiry becomes the epoch.
unfoldable pub release_capture_lease : Database → Identity → ℕ → Database × Bool
release_capture_lease db identity timestamp =
    update_lease db identity.key (owned_by identity.owner_token identity.fencing_generation)
      (λ lease. record lease { expires_at = 0; updated_at = timestamp })

unfoldable pub has_capture_lease_authority : Database → Identity → ℕ → Bool
has_capture_lease_authority db identity now = elim (db.leases identity.key) [
  | none ↦ false
  | some lease ↦
      owned_by identity.owner_token identity.fencing_generation lease
      && ltb now lease.expires_at
      && submission_capturing db identity.key
]

-- The calls that change the database, `completeSubmission` of the submissions among them.
pub data Call : Type 0 where
  reserve : Key → ℕ → Options → Call
  acquire : Key → Options → Call
  renew : Identity → Options → Call
  reclaim : Key → ℕ → ℕ → Options → Call
  release : Identity → ℕ → Call
  complete : Key → FinalState → ℕ → Option ℕ → ℕ → Call

unfoldable pub step : Database → Call → Database
unfolding reserve_capture_lease acquire_capture_lease renew_capture_lease
    reclaim_expired_capture_lease release_capture_lease complete_submission
step db (reserve k timestamp o) = (reserve_capture_lease db k timestamp o).0
step db (acquire k o) = (acquire_capture_lease db k o).0
step db (renew identity o) = (renew_capture_lease db identity o).0
step db (reclaim k token generation o) = (reclaim_expired_capture_lease db k token generation o).0
step db (release identity timestamp) = (release_capture_lease db identity timestamp).0
step db (complete k state payload job now) = record db {
  submissions = (complete_submission db.submissions k state payload job now).0;
}

unfoldable pub run : Database → List Call → Database
run db [] = db
run db (c ∷ cs) = run (step db c) cs
