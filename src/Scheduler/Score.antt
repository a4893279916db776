-- ===== src/Scheduler/Score.antt =====
-- apps/controller/src/scheduler/index.ts: the score of an eligible Agent. Every term of the source
-- is a whole number but the CPU load, so a score is counted in millionths of the source's unit.
use remote_build_orchestrato.Common.{
  ℕ, suc, ◌+◌, ◌-◌, ◌*◌, ◌/◌, ◌≤◌, ◌<◌, ◌≡◌, Bool, not, ◌&&◌, Option, none, some, List, [], ◌∷◌,
  arith, if◌then◌else◌, length, min,
}
use remote_build_orchestrato.Common.Int.{ℤ, pos, ◌+ℤ◌, ◌-ℤ◌, ◌*ℤ◌, int_laws}
use remote_build_orchestrato.Common.Text.{Text, text_eq, is_empty}
use remote_build_orchestrato.Scheduler.Request.{
  OsFamily, macos, windows, linux, Platform, AgentCapabilityReport, JobRequest, SchedulerOptions,
  ToolchainProfile, family_name, ExpectedBuildCacheKey,
}
use remote_build_orchestrato.Scheduler.CacheKeys.{
  truthy, agent_has_repo_cache_hit, agent_has_build_cache_hit,
  compute_expected_build_cache_keys_for_agent,
}

abbrev pub score_configured_priority_multiplier : ℕ
score_configured_priority_multiplier = 1000

abbrev pub score_preferred_agent_unit : ℕ
score_preferred_agent_unit = 100

abbrev pub score_repository_cache_hit : ℕ
score_repository_cache_hit = 500

abbrev pub score_exact_toolchain_match : ℕ
score_exact_toolchain_match = 200

abbrev pub score_preferred_os_unit : ℕ
score_preferred_os_unit = 10

abbrev pub score_running_jobs_penalty : ℕ
score_running_jobs_penalty = 300

abbrev pub score_cpu_load_penalty : ℕ
score_cpu_load_penalty = 100

abbrev pub score_build_cache_hit : ℕ
score_build_cache_hit = 250

abbrev pub failure_penalty_per_failure : ℕ
failure_penalty_per_failure = 50

abbrev pub failure_penalty_max : ℕ
failure_penalty_max = 500

abbrev pub mib_bytes : ℕ
mib_bytes = 1024 * 1024

-- The millionths in one.
abbrev pub score_unit : ℕ
score_unit = 1000000

unfoldable pub default_configured_priority_for_os : OsFamily → ℕ
default_configured_priority_for_os macos = 20
default_configured_priority_for_os linux = 15
default_configured_priority_for_os windows = 10

unfoldable pub resolve_configured_priority : AgentCapabilityReport → ℤ
resolve_configured_priority caps = elim caps.configured_priority [
  | none ↦ pos (default_configured_priority_for_os caps.os_family)
  | some priority ↦ priority
]

-- In millionths; a missing load is 1.
unfoldable pub resolve_cpu_load_for_scoring : AgentCapabilityReport → ℕ
resolve_cpu_load_for_scoring caps = elim caps.cpu_load [
  | none ↦ score_unit
  | some load ↦ min score_unit load
]

-- Rounded up.
unfoldable pub compute_estimated_transfer_mb : ℕ → ℕ
compute_estimated_transfer_mb bytes = (bytes + (mib_bytes - 1)) / mib_bytes

unfoldable pub compute_recent_failure_penalty : ℕ → ℕ
compute_recent_failure_penalty failures =
    min failure_penalty_max (failures * failure_penalty_per_failure)

-- `(list.length - index) * unit` for a member, and 0 for another.
unfoldable pub preference_bonus : List Text → Text → ℕ → ℕ
preference_bonus [] wanted unit = 0
preference_bonus (t ∷ ts) wanted unit =
    let rest = preference_bonus ts wanted unit in
    if text_eq t wanted then suc (length ts) * unit else rest

pub record ScoreContext : Type 0 where
  pub agent_id : Text
  pub caps : AgentCapabilityReport
  pub running_jobs : ℕ
  pub recent_failure_penalty : ℕ
  pub request : JobRequest
  pub options : SchedulerOptions
  pub selected_toolchains : List ToolchainProfile
  pub tools_requested : Bool
  pub tools_matched : Bool

abbrev present : Option Text → Text
present none = []
present (some t) = t

abbrev bonus : Bool → ℕ → ℕ
bonus b n = if b then n else 0

repo_bonus : ScoreContext → ℕ
repo_bonus ctx =
    bonus
      (ctx.request.preferences.prefer_repo_cache
        && (truthy ctx.options.repo_canonical_id
            && agent_has_repo_cache_hit ctx.caps.repository_cache
                (present ctx.options.repo_canonical_id) ctx.options.base_commit))
      score_repository_cache_hit

-- The explicit keys, or else those computed for a project.
expected_keys : Platform → ScoreContext → List ExpectedBuildCacheKey
expected_keys platform ctx =
    if not (is_empty ctx.options.build_cache_keys)
    then ctx.options.build_cache_keys
    else if truthy ctx.options.build_cache_project_identity
    then compute_expected_build_cache_keys_for_agent platform ctx.caps ctx.selected_toolchains
        (present ctx.options.build_cache_project_identity) ctx.request.requirements.tools
    else []

build_bonus : Platform → ScoreContext → ℕ
unfolding expected_keys
build_bonus platform ctx =
    bonus
      (ctx.request.preferences.prefer_build_cache
        && agent_has_build_cache_hit ctx.caps.build_caches (expected_keys platform ctx))
      score_build_cache_hit

-- What is added beside the priority, and what is subtracted.
unfoldable pub rewards : Platform → ScoreContext → ℕ
unfolding repo_bonus build_bonus
rewards platform ctx =
    preference_bonus ctx.request.preferences.agent_ids ctx.agent_id score_preferred_agent_unit
    + preference_bonus ctx.request.preferences.os_order (family_name ctx.caps.os_family)
        score_preferred_os_unit
    + repo_bonus ctx
    + bonus (ctx.tools_requested && ctx.tools_matched) score_exact_toolchain_match
    + build_bonus platform ctx

unfoldable pub penalties : ScoreContext → ℕ
penalties ctx =
    score_unit
      * (ctx.running_jobs * score_running_jobs_penalty
          + compute_estimated_transfer_mb ctx.options.estimated_transfer_bytes
          + ctx.recent_failure_penalty)
    + resolve_cpu_load_for_scoring ctx.caps * score_cpu_load_penalty

unfoldable pub compute_agent_scheduler_score : Platform → ScoreContext → ℤ
compute_agent_scheduler_score platform ctx =
    resolve_configured_priority ctx.caps *ℤ pos (score_configured_priority_multiplier * score_unit)
    +ℤ pos (score_unit * rewards platform ctx)
    -ℤ pos (penalties ctx)

-- The penalty of recent failures is at most 500, and grows with their number.
pub failure_penalty_bounds :
    (m n : ℕ)
    → m ≤ n
    → (compute_recent_failure_penalty n ≤ 500)
      × (compute_recent_failure_penalty m ≤ compute_recent_failure_penalty n)
      × (compute_recent_failure_penalty n < 500 → compute_recent_failure_penalty n ≡ n * 50)
unfolding compute_recent_failure_penalty
failure_penalty_bounds m n h = (omega arith, omega arith, λ k. omega arith)

-- The transfer estimate is the least number of MiB that holds the bytes.
pub transfer_mb_least :
    (bytes mb : ℕ)
    → (bytes ≤ compute_estimated_transfer_mb bytes * mib_bytes)
      × (bytes ≤ mb * mib_bytes → compute_estimated_transfer_mb bytes ≤ mb)
unfolding compute_estimated_transfer_mb
transfer_mb_least bytes mb = (omega arith, λ h. omega arith)

shift_penalty : (a b c : ℤ) (p d : ℕ) → a +ℤ b -ℤ pos (p + d) +ℤ pos d ≡ a +ℤ b -ℤ pos p
shift_penalty a b c p d = omega int_laws

-- All else being equal, each further running job lowers the score by exactly 300.
pub score-running_jobs :
    (platform : Platform) (ctx : ScoreContext) (n k : ℕ)
    → compute_agent_scheduler_score platform (record ctx { running_jobs = n + k })
        +ℤ pos (score_unit * (k * score_running_jobs_penalty))
      ≡ compute_agent_scheduler_score platform (record ctx { running_jobs = n })
unfolding compute_agent_scheduler_score rewards penalties
score-running_jobs platform ctx n k = omega int_laws
