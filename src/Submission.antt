-- ===== src/Submission.antt =====
-- apps/controller/src/jobs/submissions.ts: the idempotency reservation of job_submit.
-- The table is keyed by (client_id, client_request_id), its primary key, so it is a function from
-- keys. Identifiers and JSON texts are only stored and compared, and are numbers here; an instant
-- is its milliseconds since 1970, which orders as its ISO text does up to the year 9999.
use remote_build_orchestrato.Common.{
  ℕ, ◌≡◌, refl, ◌↔◌, Bool, true, false, ◌&&◌, Option, none, some, Result, ok, err, arith, ◌==◌,
  if◌then◌else◌,
}

pub record Key : Type 0 where
  pub client_id : ℕ
  pub client_request_id : ℕ

abbrev pub key_eq : Key → Key → Bool
key_eq k j = k.client_id == j.client_id && k.client_request_id == j.client_request_id

-- A table whose primary key is a `Key`, and the statement that writes one of its rows.
abbrev pub Table : Type 0 → Type 0
Table A = Key → Option A

abbrev pub put : {A : Type 0} → Table A → Key → A → Table A
put t k a j = if key_eq k j then some a else t j

pub data SubmissionState : Type 0 where
  capturing captured failed : SubmissionState

pub record SubmissionRow : Type 0 where
  pub state : SubmissionState
  pub job_id : Option ℕ
  pub response_json : Option ℕ
  pub error_json : Option ℕ
  pub created_at : ℕ
  pub updated_at : ℕ

pub data SubmissionError : Type 0 where
  unknown_submission already_terminal internal : SubmissionError

abbrev pub Submissions : Type 0
Submissions = Table SubmissionRow

abbrev pub get_submission : Submissions → Key → Option SubmissionRow
get_submission db k = db k

abbrev pub fresh_row : ℕ → SubmissionRow
fresh_row timestamp = record {
  state = capturing;
  job_id = none;
  response_json = none;
  error_json = none;
  created_at = timestamp;
  updated_at = timestamp;
}

-- INSERT … ON CONFLICT DO NOTHING, and whether it changed a row.
abbrev pub insert_row : {A : Type 0} → Table A → Key → A → Table A × Bool
insert_row t k a = elim (t k) [ none ↦ (put t k a, true) | some _ ↦ (t, false) ]

pub record ReserveResult : Type 0 where
  pub created : Bool
  pub submission : SubmissionRow

unfoldable pub reserve_submission :
    Submissions → Key → ℕ → Submissions × Result SubmissionError ReserveResult
reserve_submission db k timestamp =
    let (after, created) = insert_row db k (fresh_row timestamp) in
    (
      after,
      elim (get_submission after k) [
        | none ↦ err internal
        | some submission ↦ ok (record { created = created; submission = submission })
      ],
    )

-- The states that end a capture.
pub data FinalState : Type 0 where
  to_captured to_failed : FinalState

abbrev pub coalesce : Option ℕ → Option ℕ → Option ℕ
coalesce (some a) b = some a
coalesce none b = b

abbrev pub finish_row : FinalState → ℕ → Option ℕ → ℕ → SubmissionRow → SubmissionRow
finish_row to_captured payload job now row = record row {
  state = captured;
  response_json = some payload;
  job_id = coalesce job row.job_id;
  updated_at = now;
}
finish_row to_failed payload job now row = record row {
  state = failed;
  error_json = some payload;
  job_id = coalesce job row.job_id;
  updated_at = now;
}

abbrev pub complete_row :
    SubmissionState
    → Submissions
    → Key
    → SubmissionRow
    → Submissions × Result SubmissionError SubmissionRow
complete_row capturing db k row = (put db k row, ok row)
complete_row captured db k row = (db, err already_terminal)
complete_row failed db k row = (db, err already_terminal)

unfoldable pub complete_submission :
    Submissions
    → Key
    → FinalState
    → ℕ
    → Option ℕ
    → ℕ
    → Submissions × Result SubmissionError SubmissionRow
complete_submission db k state payload job now = elim (get_submission db k) [
  | none ↦ (db, err unknown_submission)
  | some existing ↦ complete_row existing.state db k (finish_row state payload job now existing)
]

pub key_eq_iff : (k j : Key) → (key_eq k j ≡ true) ↔ (k ≡ j)
key_eq_iff k j = ground arith

pub key_eq_refl : (k : Key) → key_eq k k ≡ true
key_eq_refl k = (key_eq_iff k k).1 refl
