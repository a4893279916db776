-- ===== src/AgentRecovery/DiskPressure.antt =====
-- apps/agent/src/recovery/disk-pressure.ts: what an Agent deletes when its disk runs out. Paths are
-- the directories below the state directory, by the attempt or key that names them, and other
-- paths. A repository without readable metadata is not listed. The hooks that evict are the lists
-- that they report. A path below one that was deleted is taken to be there still.
pub mod Order
mod Scenarios
use remote_build_orchestrato.Common.{
  ℕ, ◌+◌, Bool, true, false, not, ◌&&◌, ◌||◌, Option, none, some, List, [], ◌∷◌, ◌++◌, ltb, leb,
  ◌==◌, if◌then◌else◌,
}
use remote_build_orchestrato.AgentRecovery.{AttemptMetadata, is_terminal}

pub data DiskCleanupKind : Type 0 where
  artifacts workspaces spools repos build_caches : DiskCleanupKind

pub data DiskPath : Type 0 where
  artifacts_of workspace_of logs_of repo_of build_cache_of other_path : ℕ → DiskPath

abbrev pub path_eq : DiskPath → DiskPath → Bool
path_eq (artifacts_of a) (artifacts_of b) = a == b
path_eq (workspace_of a) (workspace_of b) = a == b
path_eq (logs_of a) (logs_of b) = a == b
path_eq (repo_of a) (repo_of b) = a == b
path_eq (build_cache_of a) (build_cache_of b) = a == b
path_eq (other_path a) (other_path b) = a == b
path_eq _ _ = false

pub record RepoEntry : Type 0 where
  pub name : ℕ
  pub active_worktree_count : ℕ
  pub last_used_at : ℕ

pub record DiskPressureCleanupOptions : Type 0 where
  pub min_free_bytes : ℕ
  pub free_bytes : ℕ
  pub retention_ms : ℕ
  pub spool_pressure : Bool
  pub now_ms : ℕ
  pub has_cleanup : Bool
  pub evicted_repos : Option (List ℕ)
  pub evicted_build_caches : Option (List ℕ)

-- What is on the disk, what was deleted and which attempts' resources were cleaned up.
pub record Disk : Type 0 where
  pub exists : DiskPath → Bool
  pub deleted : List (DiskCleanupKind × DiskPath)
  pub cleaned : List ℕ

unfoldable pub is_accepting_jobs_under_disk_pressure : ℕ → ℕ → Bool → Bool
is_accepting_jobs_under_disk_pressure free_bytes min_free_bytes spool_pressure =
    if spool_pressure then false else leb min_free_bytes free_bytes

unfoldable pub is_active_meta : AttemptMetadata → Bool
is_active_meta m = not (is_terminal m.status)

-- Whether an attempt of this id is active (activeIds).
abbrev pub is_active : ℕ → List AttemptMetadata → Bool
is_active id [] = false
is_active id (m ∷ ms) = is_active_meta m && m.attempt_id == id || is_active id ms

abbrev pub noted : Disk → DiskCleanupKind → DiskPath → Disk
noted d kind path = record d { deleted = d.deleted ++ (kind, path) ∷ [] }

unfoldable pub remove_path : Disk → DiskCleanupKind → DiskPath → Disk
remove_path d kind path =
    if d.exists path
    then noted (record d { exists = λ p. if path_eq p path then false else d.exists p }) kind path
    else d

module _ (o : DiskPressureCleanupOptions) where
  abbrev pub is_old : List AttemptMetadata → AttemptMetadata → Bool
  is_old all m =
      is_terminal m.status
      && (leb (m.updated_at + o.retention_ms) o.now_ms && not (is_active m.attempt_id all))

  -- terminalOld, of the attempts `ms` among all.
  abbrev pub terminal_old : List AttemptMetadata → List AttemptMetadata → List AttemptMetadata
  terminal_old all [] = []
  terminal_old all (m ∷ ms) = if is_old all m then m ∷ terminal_old all ms else terminal_old all ms

  abbrev pub cleans : Disk → ℕ → Disk
  cleans d id = if o.has_cleanup then record d { cleaned = d.cleaned ++ id ∷ [] } else d

  abbrev pub remove_artifacts : Disk → List AttemptMetadata → Disk
  remove_artifacts d [] = d
  remove_artifacts d (m ∷ ms) =
      remove_artifacts (remove_path d artifacts (artifacts_of m.attempt_id)) ms

  abbrev pub has_id : ℕ → List AttemptMetadata → Bool
  has_id id [] = false
  has_id id (m ∷ ms) = m.attempt_id == id || has_id id ms

  -- The sweep of the artifact directories `names` of attempts that are not active and not old, with metadata or
  -- without: those of an attempt that is over, but not for long enough, go too.
  abbrev pub sweep_artifacts : List AttemptMetadata → List AttemptMetadata → Disk → List ℕ → Disk
  sweep_artifacts all old d [] = d
  sweep_artifacts all old d (name ∷ names) =
      sweep_artifacts all old
        (if is_active name all || has_id name old
          then d
          else remove_path (cleans d name) artifacts (artifacts_of name))
        names

  abbrev pub workspace_path_of : AttemptMetadata → DiskPath
  workspace_path_of m = elim m.workspace_path [
    | none ↦ workspace_of m.attempt_id
    | some p ↦ other_path p
  ]

  abbrev pub spool_path_of : AttemptMetadata → DiskPath
  spool_path_of m = elim m.spool_dir [ none ↦ logs_of m.attempt_id | some p ↦ other_path p ]

  abbrev pub remove_workspaces : Disk → List AttemptMetadata → Disk
  remove_workspaces d [] = d
  remove_workspaces d (m ∷ ms) =
      remove_workspaces (remove_path (cleans d m.attempt_id) workspaces (workspace_path_of m)) ms

  abbrev pub remove_spools : Disk → List AttemptMetadata → Disk
  remove_spools d [] = d
  remove_spools d (m ∷ ms) = remove_spools (remove_path d spools (spool_path_of m)) ms

  abbrev pub keeps_repo : RepoEntry → Bool
  keeps_repo r = ltb 0 r.active_worktree_count || ltb o.now_ms (r.last_used_at + o.retention_ms)

  abbrev pub remove_repos : Disk → List RepoEntry → Disk
  remove_repos d [] = d
  remove_repos d (r ∷ rs) =
      remove_repos (if keeps_repo r then d else remove_path d repos (repo_of r.name)) rs

  abbrev pub note_all : DiskCleanupKind → (ℕ → DiskPath) → Disk → List ℕ → Disk
  note_all kind path d [] = d
  note_all kind path d (key ∷ keys) = note_all kind path (noted d kind (path key)) keys

  abbrev pub evict_repos : Disk → List RepoEntry → Option (List ℕ) → Disk
  evict_repos d rs none = remove_repos d rs
  evict_repos d rs (some keys) = note_all repos repo_of d keys

  abbrev pub evict_build_caches : Disk → Option (List ℕ) → Disk
  evict_build_caches d none = d
  evict_build_caches d (some keys) = note_all build_caches build_cache_of d keys

  -- The stages in their order, on the metadata, the artifact directories and the repositories.
  abbrev pub cleaned_up : Disk → List AttemptMetadata → List ℕ → List RepoEntry → Disk
  cleaned_up d all names rs =
      let old = terminal_old all all in
      evict_build_caches
        (evict_repos
          (remove_spools
            (remove_workspaces (sweep_artifacts all old (remove_artifacts d old) names) old) old)
          rs o.evicted_repos)
        o.evicted_build_caches

  unfoldable pub apply_disk_pressure_cleanup :
      Disk → List AttemptMetadata → List ℕ → List RepoEntry → Bool × Disk
  apply_disk_pressure_cleanup d all names rs =
      let accepting =
        is_accepting_jobs_under_disk_pressure o.free_bytes o.min_free_bytes o.spool_pressure in
      if accepting then (true, d) else (false, cleaned_up d all names rs)
