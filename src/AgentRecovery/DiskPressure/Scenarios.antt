-- ===== src/AgentRecovery/DiskPressure/Scenarios.antt =====
-- Attempt 4 runs, attempt 5 is over, and the disk is full.
use remote_build_orchestrato.Common.{◌≡◌, ◌⊎◌, refl, true, false, none, some, [], ◌∷◌, ℕ}
use remote_build_orchestrato.Scheduler.Request.{RiskLevel}
use remote_build_orchestrato.AgentRecovery.{AttemptMetadata, running, terminal}
use remote_build_orchestrato.AgentRecovery.DiskPressure.{
  artifacts, workspaces, spools, repos, artifacts_of, logs_of, repo_of, other_path, RepoEntry,
  DiskPressureCleanupOptions, Disk, apply_disk_pressure_cleanup, remove_path, is_active_meta,
  is_accepting_jobs_under_disk_pressure,
}
use remote_build_orchestrato.AgentRecovery.DiskPressure.Order.{
  Ordered, AllEntries, Allowed, cleanup-Ordered,
}

abbrev active : AttemptMetadata
active = record {
  attempt_id = 4;
  lease_id = 50;
  lease_epoch = 3;
  process_identity = some 900;
  status = running;
  risk_level = RiskLevel.safe;
  updated_at = 5;
  last_exit = none;
  workspace_path = none;
  spool_dir = none;
}

abbrev over : AttemptMetadata
over = record active { attempt_id = 5; status = terminal; workspace_path = some 77 }

abbrev options : DiskPressureCleanupOptions
options = record {
  min_free_bytes = 10;
  free_bytes = 3;
  retention_ms = 20;
  spool_pressure = false;
  now_ms = 30;
  has_cleanup = true;
  evicted_repos = none;
  evicted_build_caches = none;
}

abbrev disk : Disk
disk = record { exists = λ p. true; deleted = []; cleaned = [] }

abbrev repo : ℕ → RepoEntry
repo n = record { name = n; active_worktree_count = n; last_used_at = 1 }

deletes :
    (apply_disk_pressure_cleanup options disk
      (active ∷ over ∷ [])
      (4 ∷ 5 ∷ 6 ∷ [])
      (repo 1 ∷ repo 0 ∷ [])).1.deleted
    ≡ (artifacts, artifacts_of 5)
      ∷ (artifacts, artifacts_of 6)
      ∷ (workspaces, other_path 77)
      ∷ (spools, logs_of 5)
      ∷ (repos, repo_of 0)
      ∷ []
unfolding apply_disk_pressure_cleanup remove_path is_active_meta
    is_accepting_jobs_under_disk_pressure
deletes = refl

cleanup-Ordered_example :
    let all = active ∷ over ∷ [] in
    let rs = repo 1 ∷ repo 0 ∷ [] in
    let (accepting, after) = apply_disk_pressure_cleanup options disk all (4 ∷ 5 ∷ 6 ∷ []) rs in
    Ordered after.deleted
    × AllEntries (Allowed options all rs) after.deleted
    × ((accepting ≡ false) ⊎ (after ≡ disk))
cleanup-Ordered_example =
    cleanup-Ordered options (active ∷ over ∷ []) (repo 1 ∷ repo 0 ∷ []) disk (4 ∷ 5 ∷ 6 ∷ []) refl
