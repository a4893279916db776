-- ===== src/Scheduler/Request.antt =====
-- What the scheduler reads of a JobRequest, of an Agent's capability report and of its options
-- (packages/protocol/src/schemas.ts and the interfaces of apps/controller/src/scheduler/index.ts).
-- A missing field is `none`; an object with string keys is a list of its entries in order. A CPU
-- load is a whole number of millionths, a size a whole number.
use remote_build_orchestrato.Common.{ℕ, Bool, Option, none, some, List}
use remote_build_orchestrato.Common.Int.{ℤ}
use remote_build_orchestrato.Common.Text.{Text, text}
use remote_build_orchestrato.Fraction.{Fraction}

pub data OsFamily : Type 0 where
  macos windows linux : OsFamily

abbrev pub family_name : OsFamily → Text
family_name macos = text "macos"
family_name windows = text "windows"
family_name linux = text "linux"

pub data RiskLevel : Type 0 where
  safe normal destructive hardware : RiskLevel

pub data QueuePolicy : Type 0 where
  local_fallback wait fail_fast : QueuePolicy

pub data BuildCacheKind : Type 0 where
  ccache sccache npm pnpm pip : BuildCacheKind

pub record Requirements : Type 0 where
  pub os : Option (List Text)
  pub arch : Option (List Text)
  pub tools : Option (List (Text × Text))
  pub labels : Option (List (Text × Text))
  pub secret_refs : List Text
  pub min_memory_mb : Option ℕ
  pub min_disk_mb : Option ℕ

pub record Preferences : Type 0 where
  pub agent_ids : List Text
  pub os_order : List Text
  pub prefer_repo_cache : Bool
  pub prefer_build_cache : Bool
  pub allow_local_fallback : Bool

-- `shell` and `secret_refs` stand under `execution` in the source.
pub record JobRequest : Type 0 where
  pub shell : Option Text
  pub secret_refs : List (Text × Text)
  pub requirements : Requirements
  pub preferences : Preferences
  pub queue_policy : Option QueuePolicy
  pub risk_level : Option RiskLevel

pub record ToolchainProfile : Type 0 where
  pub id : Text
  pub kind : Text
  pub version : Text
  pub environment_fingerprint : Text

pub record RepositoryCacheEntry : Type 0 where
  pub canonical_id : Text
  pub commits : List Text

pub record BuildCacheEntry : Type 0 where
  pub kind : BuildCacheKind
  pub keys : List Text

pub record AgentCapabilityReport : Type 0 where
  pub os_family : OsFamily
  pub os_arch : Text
  pub memory_free_mb : ℕ
  pub disk_free_mb : ℕ
  pub cpu_load : Option ℕ
  pub max_jobs : ℕ
  pub shells : List Text
  pub tools : List (Text × List Text)
  pub toolchain_profiles : List ToolchainProfile
  pub labels : List (Text × Text)
  pub secret_refs : List Text
  pub repository_cache : List RepositoryCacheEntry
  pub build_caches : List BuildCacheEntry
  pub configured_priority : Option ℤ

pub record SchedulerAgent : Type 0 where
  pub agent_id : Text
  pub capabilities : AgentCapabilityReport
  pub active_jobs_count : ℕ
  pub recent_failure_penalty : Option ℕ

pub record ExpectedBuildCacheKey : Type 0 where
  pub kind : BuildCacheKind
  pub key : Text

pub record LocalHost : Type 0 where
  pub os : OsFamily
  pub shells : List Text

pub record HostLoadSnapshot : Type 0 where
  pub cpu_busy_fraction : Fraction
  pub capacity_score : Fraction
  pub running_jobs : ℕ

pub record SchedulerOptions : Type 0 where
  pub allow_local_fallback : Option Bool
  pub local_host_execution : Option LocalHost
  pub repo_canonical_id : Option Text
  pub base_commit : Option Text
  pub build_cache_keys : List ExpectedBuildCacheKey
  pub build_cache_project_identity : Option Text
  pub estimated_transfer_bytes : ℕ
  pub recent_failure_penalties : List (Text × ℕ)
  pub registered_agent_count : ℕ
  pub host_load : Option HostLoadSnapshot
  pub max_host_cpu_busy_fraction : Option Fraction

-- What the program takes from its platform: the digest of `node:crypto`, and whether one Agent's
-- id comes no later than another's under `localeCompare`.
pub record Platform : Type 0 where
  pub sha256 : Text → Text
  pub id_before : Text → Text → Bool

abbrev pub or_else {ℓ} : {A : Type ℓ} → Option A → A → A
or_else none d = d
or_else (some a) d = a
