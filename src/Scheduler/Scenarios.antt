-- ===== src/Scheduler/Scenarios.antt =====
-- Two Agents and a few jobs.
use remote_build_orchestrato.Common.{
  ℕ, ◌+◌, ◌*◌, ◌≤◌, ◌<◌, ◌≡◌, ◌≢◌, refl, ap, sym, subst, ◌∙◌, ◌⊎◌, inl, inr, Bool, true, false, not,
  Option, none, some, List, [], ◌∷◌, arith, length,
}
use remote_build_orchestrato.Common.Int.{pos, ◌+ℤ◌}
use remote_build_orchestrato.Common.Sort.{In, sort}
use remote_build_orchestrato.Common.Text.{Text, text, text_eq, to_lower_case, text_lt}
use remote_build_orchestrato.Fraction.{Fraction, whole}
use remote_build_orchestrato.HostLoad.{CpuTimes, HostCpuMonitor}
use remote_build_orchestrato.Scheduler.Request.{
  Platform, SchedulerAgent, JobRequest, SchedulerOptions, ToolchainProfile, linux, family_name,
  QueuePolicy, RiskLevel,
}
use remote_build_orchestrato.Scheduler.Version.{matches_version_spec}
use remote_build_orchestrato.Scheduler.Matching.{
  match_job_tool_requirements, Selected, matches_os, matches_arch, matches_labels,
  matches_secret_refs, agent_has_required_shell, required_shell, split_requested_tools,
}
use remote_build_orchestrato.Scheduler.Score.{
  compute_recent_failure_penalty, failure_penalty_bounds, compute_estimated_transfer_mb,
  transfer_mb_least, score-running_jobs, ScoreContext, compute_agent_scheduler_score, score_unit,
}
use remote_build_orchestrato.Scheduler.Fallback.{FallbackInput, is_risky}
use remote_build_orchestrato.Scheduler.Select.{
  remote, falls_back, judge, precedes, select_agent_for_job, eligible_candidates, candidate_of,
  risk_of,
}
use remote_build_orchestrato.Scheduler.Select.Best.{IsOrder, Suits, select_best, select_remote_iff}
use remote_build_orchestrato.Scheduler.Select.Policy.{local_fallback_safe}

-- Ids in the order of their code units.
abbrev text_le : Text → Text → Bool
text_le s t = not (text_lt t s)

text_le_total : (s t : Text) → text_le s t ≡ false → text_le t s ≡ true
unfolding text_lt
text_le_total [] [] h = ground arith
text_le_total [] (b ∷ t) h = ground arith
text_le_total (a ∷ s) [] h = ground arith
text_le_total (a ∷ s) (b ∷ t) h = ground (arith, text_le_total s t)

text_le_trans : (s t u : Text) → text_le s t ≡ true → text_le t u ≡ true → text_le s u ≡ true
unfolding text_lt
text_le_trans [] t [] h k = refl
text_le_trans [] t (c ∷ u) h k = refl
text_le_trans (a ∷ s) [] u h k = ground arith
text_le_trans (a ∷ s) (b ∷ t) [] h k = ground arith
text_le_trans (a ∷ s) (b ∷ t) (c ∷ u) h k = ground (arith, text_le_trans s t u)

abbrev here : Platform
here = record { sha256 = λ t. t; id_before = text_le }

ids_ordered : IsOrder here.id_before
ids_ordered = record { total = text_le_total; trans = text_le_trans }

abbrev rust : ToolchainProfile
rust = record {
  id = text "rust-stable";
  kind = text "rust";
  version = text "1.93.0";
  environment_fingerprint = text "f00";
}

abbrev builder : Text → ℕ → SchedulerAgent
builder id active = record {
  agent_id = id;
  capabilities = record {
    os_family = linux;
    os_arch = text "x64";
    memory_free_mb = 8000;
    disk_free_mb = 90000;
    cpu_load = some 250000;
    max_jobs = 2;
    shells = text "bash" ∷ text "Sh.EXE" ∷ [];
    tools = (text "git", text "2.45.1" ∷ []) ∷ [];
    toolchain_profiles = rust ∷ [];
    labels = (text "pool", text "ci") ∷ [];
    secret_refs = [];
    repository_cache = [];
    build_caches = [];
    configured_priority = none;
  };
  active_jobs_count = active;
  recent_failure_penalty = none;
}

abbrev agents : List SchedulerAgent
agents = builder (text "agt_b") 1 ∷ builder (text "agt_c") 0 ∷ builder (text "agt_a") 0 ∷ []

abbrev tools_wanted : List (Text × Text)
tools_wanted = (text "Rust", text "1.93") ∷ (text "git", text ">= 2.30") ∷ []

abbrev job : Option RiskLevel → Option QueuePolicy → Text → JobRequest
job risk policy os = record {
  shell = some (text "sh");
  secret_refs = [];
  requirements = record {
    os = some (os ∷ []);
    arch = none;
    tools = some tools_wanted;
    labels = some ((text "pool", text "ci") ∷ []);
    secret_refs = [];
    min_memory_mb = some 4000;
    min_disk_mb = none;
  };
  preferences = record {
    agent_ids = [];
    os_order = [];
    prefer_repo_cache = true;
    prefer_build_cache = true;
    allow_local_fallback = true;
  };
  queue_policy = policy;
  risk_level = risk;
}

abbrev no_options : SchedulerOptions
no_options = record {
  allow_local_fallback = none;
  local_host_execution = none;
  repo_canonical_id = none;
  base_commit = none;
  build_cache_keys = [];
  build_cache_project_identity = none;
  estimated_transfer_bytes = 0;
  recent_failure_penalties = [];
  registered_agent_count = 3;
  host_load = none;
  max_host_cpu_busy_fraction = none;
}

abbrev linux_job : JobRequest
linux_job = job none none (text "Linux")

sends_to_a :
    (select_agent_for_job here agents linux_job no_options).selected_agent
    ≡ some (builder (text "agt_a") 0)
unfolding select_agent_for_job sort eligible_candidates judge matches_os matches_arch matches_labels
    matches_secret_refs agent_has_required_shell required_shell match_job_tool_requirements text_eq
    matches_version_spec precedes candidate_of compute_agent_scheduler_score text_lt
    remote_build_orchestrato.Common.Text.trim remote_build_orchestrato.Common.Text.split
    remote_build_orchestrato.Common.Text.includes_char remote_build_orchestrato.Common.Int.◌-ℤ◌ ◌+ℤ◌
    remote_build_orchestrato.Common.Int.◌*ℤ◌
    remote_build_orchestrato.Scheduler.Score.resolve_configured_priority
    remote_build_orchestrato.Scheduler.Score.default_configured_priority_for_os
    remote_build_orchestrato.Scheduler.Score.rewards
    remote_build_orchestrato.Scheduler.Score.preference_bonus
    remote_build_orchestrato.Scheduler.CacheKeys.agent_has_build_cache_hit
    remote_build_orchestrato.Scheduler.Score.penalties compute_estimated_transfer_mb
    remote_build_orchestrato.Scheduler.Score.resolve_cpu_load_for_scoring
sends_to_a = refl

suits_a : Suits linux_job (builder (text "agt_a") 0) (rust ∷ [])
unfolding matches_os text_eq remote_build_orchestrato.Common.Text.to_lower_case matches_arch
    matches_labels agent_has_required_shell
    remote_build_orchestrato.Scheduler.Matching.normalized_shell required_shell matches_secret_refs
    match_job_tool_requirements matches_version_spec remote_build_orchestrato.Common.Text.trim
    remote_build_orchestrato.Common.Text.split remote_build_orchestrato.Common.Text.includes_char
suits_a = record {
  free = omega arith;
  os = refl;
  arch = refl;
  labels = refl;
  memory = refl;
  disk = refl;
  shell = refl;
  secrets = refl;
  tools = refl;
}

select_remote_iff_example : (select_agent_for_job here agents linux_job no_options).action ≡ remote
select_remote_iff_example =
    (select_remote_iff here linux_job no_options agents).1 (builder (text "agt_a") 0) (rust ∷ [])
      (inr (inr (inl refl))) suits_a

select_best_example :
    In (select_best here linux_job no_options ids_ordered agents select_remote_iff_example).0 agents
select_best_example =
    (select_best here linux_job no_options ids_ordered agents select_remote_iff_example).2

failure_penalty_bounds_example : compute_recent_failure_penalty 20 ≤ 500
failure_penalty_bounds_example = (failure_penalty_bounds 3 20 (omega arith)).0

transfer_mb_least_example : compute_estimated_transfer_mb 1048577 ≤ 2
transfer_mb_least_example = (transfer_mb_least 1048577 2).1 (omega arith)

abbrev idle_context : ScoreContext
idle_context = record {
  agent_id = text "agt_a";
  caps = (builder (text "agt_a") 0).capabilities;
  running_jobs = 0;
  recent_failure_penalty = 50;
  request = linux_job;
  options = no_options;
  selected_toolchains = rust ∷ [];
  tools_requested = true;
  tools_matched = true;
}

abbrev loaded : Fraction → Fraction → List ℕ → FallbackInput
loaded busy base others = record {
  allow_local_fallback = true;
  risk_level = RiskLevel.normal;
  host = record { cpu_busy_fraction = busy; capacity_score = whole 48000; running_jobs = 2 };
  max_host_cpu_busy_fraction = base;
  busy_agent_running_jobs = others;
  reference_capacity_score = none;
}

abbrev percent : ℕ → Fraction
percent n = record { num = n; den = 100 }

abbrev monitor : HostCpuMonitor
monitor = record { samples = 10 ∷ 20 ∷ 30 ∷ []; history_size = 3 }

abbrev core : ℕ → ℕ → CpuTimes
core user idle = record { user = user; nice = 0; sys = 0; idle = idle; irq = 0 }

abbrev unmet_job : Option QueuePolicy → JobRequest
unmet_job policy = job none policy (text "macos")

no_mac :
    (policy : Option QueuePolicy) (id : Text) (active : ℕ) (a : SchedulerAgent)
    (profiles : List ToolchainProfile)
    → a ≡ builder id active
    → ¬ Suits (unmet_job policy) a profiles
no_mac policy id active a profiles e s =
    let no_match : matches_os (some (text "macos" ∷ [])) (text "linux") ≡ false =
      unfold matches_os to_lower_case text_eq in refl in
    cc (
      sym no_match
      ∙ subst
          (λ b. matches_os (some (text "macos" ∷ [])) (family_name b.capabilities.os_family) ≡ true)
          e s.os)

none_suits_mac :
    (policy : Option QueuePolicy) (a : SchedulerAgent) (profiles : List ToolchainProfile)
    → In a agents
    → ¬ Suits (unmet_job policy) a profiles
none_suits_mac policy a profiles (inl e) s = no_mac policy (text "agt_b") 1 a profiles e s
none_suits_mac policy a profiles (inr (inl e)) s = no_mac policy (text "agt_c") 0 a profiles e s
none_suits_mac policy a profiles (inr (inr (inl e))) s =
    no_mac policy (text "agt_a") 0 a profiles e s
none_suits_mac policy a profiles (inr (inr (inr e))) s = absurd e

falls_back_mac : (select_agent_for_job here agents (unmet_job none) no_options).action ≡ falls_back
unfolding select_agent_for_job sort eligible_candidates judge matches_os text_eq
    remote_build_orchestrato.Common.Text.to_lower_case
falls_back_mac = refl

local_fallback_safe_example : is_risky (risk_of (unmet_job none)) ≡ false
local_fallback_safe_example =
    (local_fallback_safe here agents (unmet_job none) no_options falls_back_mac).2
