-- ===== src/CaptureLease/Scenarios.antt =====
-- The life of one capture: reserved, left to expire, reclaimed by a second owner, completed.
use remote_build_orchestrato.Common.{
  ℕ, ◌≡◌, refl, inl, true, false, none, some, [], ◌∷◌, arith, if◌then◌else◌,
}
use remote_build_orchestrato.Submission.{
  Key, key_eq, to_captured, to_failed, complete_submission, fresh_row, finish_row,
}
use remote_build_orchestrato.CaptureLease.{
  CaptureLease, Identity, Database, Options, acquire, release, complete, acquire_capture_lease,
  renew_capture_lease, reclaim_expired_capture_lease, has_capture_lease_authority,
  reserve_capture_lease, step, run,
}
use remote_build_orchestrato.CaptureLease.Fencing.{Superseded-forever, reclaim_fences}
use remote_build_orchestrato.CaptureLease.Authority.{
  was_acquired, acquire_contract, renew_iff_authority,
}
use remote_build_orchestrato.CaptureLease.Terminal.{complete_final}

abbrev build : Key
build = record { client_id = 1; client_request_id = 4 }

abbrev at_time : ℕ → ℕ → Options
at_time now owner = record { ttl_ms = none; now = some now; owner_token = owner }

-- Owner 7 reserved at time 100; the lease runs to 30100.
abbrev held : CaptureLease
held = record {
  owner_token = 7;
  fencing_generation = 1;
  expires_at = 30100;
  created_at = 100;
  updated_at = 100;
}

abbrev busy : Database
busy = record {
  submissions = λ k. if key_eq build k then some (fresh_row 100) else none;
  leases = λ k. if key_eq build k then some held else none;
}

abbrev first_owner : Identity
first_owner = record { key = build; owner_token = 7; fencing_generation = 1 }

abbrev second_owner : Identity
second_owner = record { key = build; owner_token = 9; fencing_generation = 2 }

abbrev takeover : Database
takeover = step busy (acquire build (at_time 40000 9))

reserve_grants :
    was_acquired (reserve_capture_lease takeover build 40001 (at_time 70001 8)).1 ≡ true
unfolding reserve_capture_lease step
reserve_grants = refl

Superseded-forever_example :
    has_capture_lease_authority (run takeover (release second_owner 50000 ∷ [])) first_owner 50001
    ≡ false
unfolding step
Superseded-forever_example =
    Superseded-forever takeover first_owner (release second_owner 50000 ∷ []) 50001
      (inl (omega arith))

reclaim_fences_example :
    has_capture_lease_authority
      (run
        (reclaim_expired_capture_lease busy build 7 1 (at_time 40000 9)).0
        (acquire build (at_time 99000 7) ∷ []))
      first_owner
      99001
    ≡ false
unfolding reclaim_expired_capture_lease
reclaim_fences_example =
    reclaim_fences busy first_owner (at_time 40000 9) (acquire build (at_time 99000 7) ∷ []) 99001
      refl

acquire_contract_example :
    (was_acquired (acquire_capture_lease busy build (at_time 40000 9)).1 ≡ true)
acquire_contract_example =
    (acquire_contract busy build (at_time 40000 9) (fresh_row 100) 40000 30000 refl refl refl
      refl).0

renew_iff_authority_example :
    has_capture_lease_authority
      (renew_capture_lease busy first_owner (at_time 200 0)).0
      first_owner
      30199
    ≡ true
unfolding has_capture_lease_authority
renew_iff_authority_example =
    ((renew_iff_authority busy first_owner (at_time 200 0) 200 30000 refl refl).0 refl).1 30199

complete_final_example :
    (run
        (step busy (complete build to_captured 55 (some 3) 500))
        (complete build to_failed 66 none 600 ∷ acquire build (at_time 700 9) ∷ [])).submissions
      build
    ≡ some (finish_row to_captured 55 (some 3) 500 (fresh_row 100))
unfolding complete_submission
complete_final_example =
    (complete_final busy build to_captured to_failed 55 500 66 600 (some 3) none
      (finish_row to_captured 55 (some 3) 500 (fresh_row 100))
      (complete build to_failed 66 none 600 ∷ acquire build (at_time 700 9) ∷ []) refl).0
