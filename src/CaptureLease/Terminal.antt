-- ===== src/CaptureLease/Terminal.antt =====
-- apps/controller/src/jobs/submissions.ts and capture-lease.ts: a submission that is captured or
-- failed stays as it is, is reserved once, and gives nobody authority.
use remote_build_orchestrato.Common.{
  ℕ, ◌≡◌, refl, subst, inl, inr, Bool, false, Option, none, some, Result, ok, err, List, [], ◌∷◌,
  arith, Option-cases, Bool-cases,
}
use remote_build_orchestrato.Submission.{
  Key, key_eq, key_eq_iff, key_eq_refl, put, SubmissionState, capturing, captured, failed,
  SubmissionRow, Submissions, ReserveResult, reserve_submission, SubmissionError, FinalState,
  complete_submission, complete_row, insert_row, fresh_row, already_terminal, SubmissionError,
}
use remote_build_orchestrato.CaptureLease.{
  Identity, Database, Options, Call, reserve, acquire, renew, reclaim, release, complete,
  acquire_capture_lease, reserve_capture_lease, renew_capture_lease, reclaim_expired_capture_lease,
  release_capture_lease, has_capture_lease_authority, step, run, is_capturing,
}

-- A row never disappears, and a row that is not capturing never changes.
abbrev pub Settles : Option SubmissionRow → Option SubmissionRow → Type 0
Settles none after = Unit
Settles (some r) none = ⊥
Settles (some r) (some s) = is_capturing r.state ≡ false → s ≡ r

Settles-refl : (o : Option SubmissionRow) → Settles o o
Settles-refl none = tt
Settles-refl (some r) = λ h. refl

Settles-trans : (a b c : Option SubmissionRow) → Settles a b → Settles b c → Settles a c
Settles-trans none b c h k = tt
Settles-trans (some r) none c h k = absurd h
Settles-trans (some r) (some s) none h k = absurd k
Settles-trans (some r) (some s) (some t) h k = λ e. ground (arith, h e)

put-Settles :
    (t : Submissions) (k j : Key) (r : SubmissionRow)
    → Settles (t k) (some r)
    → Settles (t j) (put t k r j)
put-Settles t k j r h = elim (Bool-cases (key_eq k j)) [
  | inl same ↦ rw same (subst (λ i. Settles (t i) (some r)) ((key_eq_iff k j).0 same) h)
  | inr other ↦ rw other (Settles-refl (t j))
]

insert_row-Settles :
    (t : Submissions) (k j : Key) (r : SubmissionRow) → Settles (t j) ((insert_row t k r).0 j)
insert_row-Settles t k j r = elim (Option-cases (t k)) [
  | inl e ↦ rw (e, insert_row) (put-Settles t k j r (rw e tt))
  | inr (s, e) ↦ rw (e, insert_row) (Settles-refl (t j))
]

complete_row-Settles :
    (state : SubmissionState) (t : Submissions) (k j : Key) (r : SubmissionRow)
    → (state ≡ capturing → Settles (t k) (some r))
    → Settles (t j) ((complete_row state t k r).0 j)
complete_row-Settles capturing t k j r h = put-Settles t k j r (h refl)
complete_row-Settles captured t k j r h = Settles-refl (t j)
complete_row-Settles failed t k j r h = Settles-refl (t j)

complete-Settles :
    (t : Submissions) (k j : Key) (state : FinalState) (payload : ℕ) (job : Option ℕ) (now : ℕ)
    → Settles (t j) ((complete_submission t k state payload job now).0 j)
unfolding complete_submission
complete-Settles t k j state payload job now = elim (Option-cases (t k)) [
  | inl e ↦ rw (e, complete_submission) (Settles-refl (t j))
  | inr (s, e) ↦
      rw (e, complete_submission)
        (complete_row-Settles s.state t k j _ (λ open_capture. rw e (λ h. ground arith)))
]

acquire-submissions :
    (db : Database) (k : Key) (o : Options)
    → (acquire_capture_lease db k o).0.submissions ≡ db.submissions
unfolding acquire_capture_lease
acquire-submissions db k o = ground arith

reserve-submissions :
    (db : Database) (k : Key) (timestamp : ℕ) (o : Options)
    → (reserve_capture_lease db k timestamp o).0.submissions
      ≡ (reserve_submission db.submissions k timestamp).0
unfolding reserve_capture_lease
reserve-submissions db k timestamp o =
    let reservation = reserve_submission db.submissions k timestamp in
    let after : Database = record db { submissions = reservation.0 } in
    ground (arith, acquire-submissions after k o)

step-Settles :
    (db : Database) (c : Call) (j : Key) → Settles (db.submissions j) ((step db c).submissions j)
unfolding step
step-Settles db (reserve k timestamp o) j =
    rw (reserve-submissions db k timestamp o)
      (insert_row-Settles db.submissions k j (fresh_row timestamp))
step-Settles db (acquire k o) j = rw (acquire-submissions db k o) (Settles-refl (db.submissions j))
step-Settles db (renew i o) j =
    unfold renew_capture_lease in ground (arith, Settles-refl (db.submissions j))
step-Settles db (reclaim k token generation o) j =
    unfold reclaim_expired_capture_lease in ground (arith, Settles-refl (db.submissions j))
step-Settles db (release i timestamp) j =
    unfold release_capture_lease in ground (arith, Settles-refl (db.submissions j))
step-Settles db (complete k state payload job now) j =
    complete-Settles db.submissions k j state payload job now

run-Settles :
    (db : Database) (cs : List Call) (j : Key)
    → Settles (db.submissions j) ((run db cs).submissions j)
unfolding run
run-Settles db [] j = Settles-refl (db.submissions j)
run-Settles db (c ∷ cs) j =
    Settles-trans (db.submissions j) ((step db c).submissions j)
      ((run (step db c) cs).submissions j) (step-Settles db c j) (run-Settles (step db c) cs j)

Settles-frozen :
    (o o' : Option SubmissionRow) (r : SubmissionRow)
    → o ≡ some r
    → is_capturing r.state ≡ false
    → Settles o o'
    → o' ≡ some r
Settles-frozen none o' r e f h = cc
Settles-frozen (some s) none r e f h = absurd h
Settles-frozen (some s) (some t) r e f h = ground (arith, h (ground arith))

completed :
    (t : Submissions) (k : Key) (state : FinalState) (payload now : ℕ) (job : Option ℕ)
    (row : SubmissionRow)
    → (complete_submission t k state payload job now).1 ≡ ok row
    → ((complete_submission t k state payload job now).0 k ≡ some row)
      × (is_capturing row.state ≡ false)
unfolding complete_submission
completed t k state payload now job row done = ground (arith, key_eq_refl k)

-- Once a submission has been completed, any further calls leave its row as it is, nobody has
-- authority over its key, and completing it again is refused.
pub complete_final :
    (db : Database) (k : Key) (state again : FinalState) (payload now payload' now' : ℕ)
    (job job' : Option ℕ) (row : SubmissionRow) (cs : List Call)
    → (complete_submission db.submissions k state payload job now).1 ≡ ok row
    → let later = run (step db (complete k state payload job now)) cs in
      (later.submissions k ≡ some row)
      × ((i : Identity) (t : ℕ) → i.key ≡ k → has_capture_lease_authority later i t ≡ false)
      × ((complete_submission later.submissions k again payload' job' now').1
          ≡ err already_terminal)
unfolding has_capture_lease_authority step
complete_final db k state again payload now payload' now' job job' row cs done =
    let after = step db (complete k state payload job now) in
    let later = run after cs in
    let (stored, final) = completed db.submissions k state payload now job row done in
    let kept : later.submissions k ≡ some row =
      Settles-frozen (after.submissions k) (later.submissions k) row stored final
        (run-Settles after cs k) in
    (kept, λ i t same. ground arith, unfold complete_submission in ground arith)

abbrev pub was_created : Result SubmissionError ReserveResult → Bool
was_created (ok r) = r.created
was_created (err e) = false

row_exists :
    (o o' : Option SubmissionRow) (r : SubmissionRow)
    → o ≡ some r
    → Settles o o'
    → (s : SubmissionRow) × (o' ≡ some s)
row_exists none o' r e h = cc
row_exists (some s) none r e h = absurd h
row_exists (some s) (some t) r e h = (t, refl)

reserve_stored :
    (t : Submissions) (k : Key) (now : ℕ)
    → (r : SubmissionRow) × ((reserve_submission t k now).0 k ≡ some r)
unfolding reserve_submission
reserve_stored t k now = elim (Option-cases (t k)) [
  | inl e ↦ (fresh_row now, ground (arith, key_eq_refl k))
  | inr (r, e) ↦ (r, ground arith)
]

-- After one reservation of a key and any further calls, a reservation of that key is told that the
-- row exists, and writes nothing.
pub reserved_once :
    (db : Database) (k : Key) (first later : ℕ) (cs : List Call)
    → let after : Database = record db {
      submissions = (reserve_submission db.submissions k first).0;
    } in
      let t = run after cs in
      (was_created (reserve_submission t.submissions k later).1 ≡ false)
      × ((reserve_submission t.submissions k later).0 ≡ t.submissions)
reserved_once db k first later cs =
    let after : Database = record db {
      submissions = (reserve_submission db.submissions k first).0;
    } in
    let (r, stored) = reserve_stored db.submissions k first in
    let (s, e) =
      row_exists (after.submissions k) ((run after cs).submissions k) r stored
        (run-Settles after cs k) in
    unfold reserve_submission in (ground arith, ground arith)
