-- ===== src/AgentRecovery/DiskPressure/Order.antt =====
-- apps/agent/src/recovery/disk-pressure.ts: in which order things are deleted, and what is spared.
use remote_build_orchestrato.Common.{
  ℕ, ◌+◌, ◌≤◌, ◌≡◌, refl, ◌⊎◌, inl, inr, Bool, true, false, ◌||◌, Option, none, some, List, [], ◌∷◌,
  ◌++◌, if◌then◌else◌, arith, Bool-cases,
}
use remote_build_orchestrato.Common.Sort.{In}
use remote_build_orchestrato.AgentRecovery.{AttemptMetadata}
use remote_build_orchestrato.AgentRecovery.DiskPressure.{
  DiskCleanupKind, artifacts, workspaces, spools, repos, build_caches, DiskPath, artifacts_of,
  repo_of, build_cache_of, RepoEntry, DiskPressureCleanupOptions, Disk, is_active, noted,
  remove_path, is_old, terminal_old, cleans, remove_artifacts, has_id, sweep_artifacts,
  is_accepting_jobs_under_disk_pressure, workspace_path_of, spool_path_of, remove_workspaces,
  remove_spools, keeps_repo, remove_repos, note_all, evict_repos, evict_build_caches, cleaned_up,
  apply_disk_pressure_cleanup,
}

abbrev pub Entry : Type 0
Entry = DiskCleanupKind × DiskPath

abbrev pub AllEntries : (Entry → Type 0) → List Entry → Type 0
AllEntries P [] = Unit
AllEntries P (e ∷ es) = P e × AllEntries P es

abbrev pub rank : DiskCleanupKind → ℕ
rank artifacts = 0
rank workspaces = 1
rank spools = 2
rank repos = 3
rank build_caches = 4

-- Each kind is deleted after those that rank below it.
abbrev pub Ordered : List Entry → Type 0
Ordered [] = Unit
Ordered (e ∷ es) = AllEntries (λ later. rank e.0 ≤ rank later.0) es × Ordered es

module _ (o : DiskPressureCleanupOptions) (all : List AttemptMetadata) (rs : List RepoEntry) where
  -- An attempt that is over, for long enough, and that no active metadata names.
  abbrev pub Expired : AttemptMetadata → Type 0
  Expired m = In m all × (is_old o all m ≡ true)

  -- What may be deleted: no artifacts of an active attempt, the workspace and the spool of an
  -- expired attempt only, and a repository without worktrees that was not used for long, unless the
  -- hook reported it.
  abbrev pub Allowed : Entry → Type 0
  Allowed (artifacts, path) = (id : ℕ) × (path ≡ artifacts_of id) × (is_active id all ≡ false)
  Allowed (workspaces, path) = (m : AttemptMetadata) × (path ≡ workspace_path_of o m) × Expired m
  Allowed (spools, path) = (m : AttemptMetadata) × (path ≡ spool_path_of o m) × Expired m
  Allowed (repos, path) =
      ((keys : List ℕ) × (o.evicted_repos ≡ some keys))
      ⊎ ((r : RepoEntry) × In r rs × (path ≡ repo_of r.name) × (keeps_repo o r ≡ false))
  Allowed (build_caches, path) = (keys : List ℕ) × (o.evicted_build_caches ≡ some keys)

  record Stage (k : ℕ) (es : List Entry) : Type 0 where
    pub ordered : Ordered es
    pub low : AllEntries (λ e. rank e.0 ≤ k) es
    pub allowed : AllEntries Allowed es

  all-append :
      (P : Entry → Type 0) (es : List Entry) (e : Entry)
      → AllEntries P es
      → P e
      → AllEntries P (es ++ e ∷ [])
  all-append P [] e h new = (new, tt)
  all-append P (x ∷ es) e (here, there) new = (here, all-append P es e there new)

  Ordered-append :
      (es : List Entry) (e : Entry)
      → Ordered es
      → AllEntries (λ x. rank x.0 ≤ rank e.0) es
      → Ordered (es ++ e ∷ [])
  Ordered-append [] e h low = (tt, tt)
  Ordered-append (x ∷ es) e (first, rest) (here, there) = (
    all-append (λ later. rank x.0 ≤ rank later.0) es e first here,
    Ordered-append es e rest there,
  )

  noted-Stage :
      (kind : DiskCleanupKind) (path : DiskPath) (d : Disk)
      → Allowed (kind, path)
      → Stage (rank kind) d.deleted
      → Stage (rank kind) (noted d kind path).deleted
  noted-Stage kind path d new s = record {
    ordered = Ordered-append d.deleted (kind, path) s.ordered s.low;
    low = all-append (λ e. rank e.0 ≤ rank kind) d.deleted (kind, path) s.low (omega arith);
    allowed = all-append Allowed d.deleted (kind, path) s.allowed new;
  }

  remove-Stage :
      (kind : DiskCleanupKind) (path : DiskPath) (d : Disk)
      → Allowed (kind, path)
      → Stage (rank kind) d.deleted
      → Stage (rank kind) (remove_path d kind path).deleted
  unfolding remove_path
  remove-Stage kind path d new s = elim (Bool-cases (d.exists path)) [
    | inl there ↦ rw there (noted-Stage kind path d new s)
    | inr gone ↦ rw gone s
  ]

  rises : (k : ℕ) (es : List Entry) → Stage k es → Stage (k + 1) es
  rises k es s = record { ordered = s.ordered; low = higher es s.low; allowed = s.allowed }
    where
      higher :
          (es : List Entry)
          → AllEntries (λ e. rank e.0 ≤ k) es
          → AllEntries (λ e. rank e.0 ≤ k + 1) es
      higher [] h = tt
      higher (e ∷ es) (here, there) = (omega arith, higher es there)

  AllExpired : List AttemptMetadata → Type 0
  AllExpired [] = Unit
  AllExpired (m ∷ ms) = Expired m × AllExpired ms

  old-AllExpired :
      (ms : List AttemptMetadata)
      → ((m : AttemptMetadata) → In m ms → In m all)
      → AllExpired (terminal_old o all ms)
  unfolding AllExpired
  old-AllExpired [] within = tt
  old-AllExpired (m ∷ ms) within =
      let later = old-AllExpired ms (λ x i. within x (inr i)) in
      elim (Bool-cases (is_old o all m)) [
        | inl old ↦ rw old ((within m (inl refl), old), later)
        | inr young ↦ rw young later
      ]

  old-inactive : (m : AttemptMetadata) → is_old o all m ≡ true → is_active m.attempt_id all ≡ false
  old-inactive m h = ground arith

  artifacts-Stage :
      (ms : List AttemptMetadata) (d : Disk)
      → AllExpired ms
      → Stage 0 d.deleted
      → Stage 0 (remove_artifacts o d ms).deleted
  unfolding AllExpired
  artifacts-Stage [] d h s = s
  artifacts-Stage (m ∷ ms) d ((there, old), later) s = artifacts-Stage ms _ later (
      remove-Stage artifacts (artifacts_of m.attempt_id) d (m.attempt_id, refl, old-inactive m old)
        s)

  cleans-deleted : (d : Disk) (id : ℕ) → (cleans o d id).deleted ≡ d.deleted
  cleans-deleted d id = ground arith

  if-Stage :
      (k : ℕ) (b : Bool) (d e : Disk)
      → Stage k d.deleted
      → (b ≡ false → Stage k e.deleted)
      → Stage k (if b then d else e).deleted
  if-Stage k true d e s t = s
  if-Stage k false d e s t = t refl

  sweep-Stage :
      (names : List ℕ) (old : List AttemptMetadata) (d : Disk)
      → Stage 0 d.deleted
      → Stage 0 (sweep_artifacts o all old d names).deleted
  sweep-Stage [] old d s = s
  sweep-Stage (name ∷ names) old d s =
      let cleaned : Stage 0 (cleans o d name).deleted = rw (cleans-deleted d name) s in
      sweep-Stage names old _ (
        if-Stage 0 (is_active name all || has_id o name old) d _ s (λ spared.
          remove-Stage artifacts (artifacts_of name) (cleans o d name) (name, refl, ground arith)
            cleaned))

  workspaces-Stage :
      (ms : List AttemptMetadata) (d : Disk)
      → AllExpired ms
      → Stage 1 d.deleted
      → Stage 1 (remove_workspaces o d ms).deleted
  unfolding AllExpired
  workspaces-Stage [] d h s = s
  workspaces-Stage (m ∷ ms) d (expired, later) s =
      let cleaned : Stage 1 (cleans o d m.attempt_id).deleted =
        rw (cleans-deleted d m.attempt_id) s in
      workspaces-Stage ms _ later (
        remove-Stage workspaces (workspace_path_of o m) (cleans o d m.attempt_id) (m, refl, expired)
          cleaned)

  spools-Stage :
      (ms : List AttemptMetadata) (d : Disk)
      → AllExpired ms
      → Stage 2 d.deleted
      → Stage 2 (remove_spools o d ms).deleted
  unfolding AllExpired
  spools-Stage [] d h s = s
  spools-Stage (m ∷ ms) d (expired, later) s =
      spools-Stage ms _ later (remove-Stage spools (spool_path_of o m) d (m, refl, expired) s)

  repos-Stage :
      (xs : List RepoEntry) (d : Disk)
      → ((r : RepoEntry) → In r xs → In r rs)
      → Stage 3 d.deleted
      → Stage 3 (remove_repos o d xs).deleted
  repos-Stage [] d within s = s
  repos-Stage (r ∷ xs) d within s =
      repos-Stage xs _ (λ x i. within x (inr i))
        (if-Stage 3 (keeps_repo o r) d _ s (λ idle.
          remove-Stage repos (repo_of r.name) d (inr (r, within r (inl refl), refl, idle)) s))

  note_all-Stage :
      (kind : DiskCleanupKind) (path : ℕ → DiskPath) (keys : List ℕ) (d : Disk)
      → ((key : ℕ) → Allowed (kind, path key))
      → Stage (rank kind) d.deleted
      → Stage (rank kind) (note_all o kind path d keys).deleted
  note_all-Stage kind path [] d new s = s
  note_all-Stage kind path (key ∷ keys) d new s =
      note_all-Stage kind path keys _ new (noted-Stage kind (path key) d (new key) s)

  evict-Stage :
      (hook : Option (List ℕ)) (d : Disk)
      → o.evicted_repos ≡ hook
      → Stage 3 d.deleted
      → Stage 3 (evict_repos o d rs hook).deleted
  evict-Stage none d e s = repos-Stage rs d (λ r i. i) s
  evict-Stage (some keys) d e s = note_all-Stage repos repo_of keys d (λ key. inl (keys, e)) s

  caches-Stage :
      (hook : Option (List ℕ)) (d : Disk)
      → o.evicted_build_caches ≡ hook
      → Stage 4 d.deleted
      → Stage 4 (evict_build_caches o d hook).deleted
  caches-Stage none d e s = s
  caches-Stage (some keys) d e s =
      note_all-Stage build_caches build_cache_of keys d (λ key. (keys, e)) s

  cleaned_up-Stage :
      (d : Disk) (names : List ℕ) → d.deleted ≡ [] → Stage 4 (cleaned_up o d all names rs).deleted
  cleaned_up-Stage d names e =
      let old = terminal_old o all all in
      let expired = old-AllExpired all (λ m i. i) in
      let first : Stage 0 d.deleted = rw e (record { ordered = tt; low = tt; allowed = tt }) in
      let a = sweep-Stage names old _ (artifacts-Stage old d expired first) in
      let b = workspaces-Stage old _ expired (rises 0 _ a) in
      let c = spools-Stage old _ expired (rises 1 _ b) in
      let r = evict-Stage o.evicted_repos _ refl (rises 2 _ c) in
      caches-Stage o.evicted_build_caches _ refl (rises 3 _ r)

  abbrev Cleaned : Disk → Bool × Disk → Type 0
  Cleaned d (accepting, after) =
      Ordered after.deleted × AllEntries Allowed after.deleted × ((accepting ≡ false) ⊎ (after ≡ d))

  chosen :
      (b : Bool) (d e : Disk)
      → Stage 4 d.deleted
      → Stage 4 e.deleted
      → Cleaned d (if b then (true, d) else (false, e))
  chosen true d e s t = (s.ordered, s.allowed, inr refl)
  chosen false d e s t = (t.ordered, t.allowed, inl refl)

  -- Of a cleanup that starts with nothing deleted: artifacts go first, then workspaces, spools,
  -- repositories and build caches, and only what Allowed says: no artifacts of an active attempt,
  -- no workspace or spool but those of attempts that are over for long enough and not active, no
  -- repository that has worktrees or was used lately, the reports of the hooks aside. An Agent that
  -- accepts jobs deletes nothing.
  pub cleanup-Ordered :
      (d : Disk) (names : List ℕ)
      → d.deleted ≡ []
      → let (accepting, after) = apply_disk_pressure_cleanup o d all names rs in
        Ordered after.deleted
        × AllEntries Allowed after.deleted
        × ((accepting ≡ false) ⊎ (after ≡ d))
  unfolding apply_disk_pressure_cleanup
  cleanup-Ordered d names e =
      let accepting =
        is_accepting_jobs_under_disk_pressure o.free_bytes o.min_free_bytes o.spool_pressure in
      let nothing : Stage 4 d.deleted = rw e (record { ordered = tt; low = tt; allowed = tt }) in
      chosen accepting d (cleaned_up o d all names rs) nothing (cleaned_up-Stage d names e)
