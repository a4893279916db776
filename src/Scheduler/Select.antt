-- ===== src/Scheduler/Select.antt =====
-- apps/controller/src/scheduler/index.ts: selectAgentForJob.
pub mod Best
pub mod Policy
use remote_build_orchestrato.Common.{
  ℕ, ◌≡◌, Bool, true, false, not, ◌&&◌, ◌||◌, Option, none, some, List, [], ◌∷◌, ◌++◌, map, ltb,
  leb, ◌==◌, if◌then◌else◌,
}
use remote_build_orchestrato.Common.Int.{ℤ, ltb_ℤ}
use remote_build_orchestrato.Common.Sort.{first, sort}
use remote_build_orchestrato.Common.Text.{Text, text_eq, is_empty, property}
use remote_build_orchestrato.Scheduler.Request.{
  Platform, RiskLevel, normal, QueuePolicy, local_fallback, wait, fail_fast, JobRequest,
  SchedulerAgent, SchedulerOptions, ToolchainProfile, LocalHost, HostLoadSnapshot, family_name,
  or_else,
}
use remote_build_orchestrato.Scheduler.Matching.{
  matches_os, matches_arch, matches_labels, matches_secret_refs, agent_has_required_shell,
  required_shell, match_job_tool_requirements, local_host_can_execute,
}
use remote_build_orchestrato.Scheduler.Diagnostic.{
  NoMatchingAgentDiagnostic, describe_no_matching_agent,
}
use remote_build_orchestrato.Scheduler.Score.{compute_agent_scheduler_score}
use remote_build_orchestrato.Scheduler.Fallback.{
  decide_local_fallback, LocalFallbackDecision, default_max_host_cpu_busy_fraction, is_risky,
}

pub data Action : Type 0 where
  remote waits fails_fast falls_back : Action

pub data Reason : Type 0 where
  no_eligible_agent host_busy : Reason

pub record SchedulingDecision : Type 0 where
  pub action : Action
  pub selected_agent : Option SchedulerAgent
  pub selected_toolchains : List ToolchainProfile
  pub reason : Option Reason
  pub no_match_diagnostic : Option NoMatchingAgentDiagnostic

-- The requirements' list and the values of the execution's map.
abbrev required_secrets : JobRequest → List Text
required_secrets request =
    request.requirements.secret_refs ++ map (λ (entry : Text × Text). entry.1) request.secret_refs

abbrev has_less : ℕ → Option ℕ → Bool
has_less free none = false
has_less free (some needed) = ltb free needed

-- What one round of the loop finds: the Agent is only at capacity, is passed over, or may take the
-- job with these profiles.
pub data Verdict : Type 0 where
  busy passed_over : Verdict
  fits : List ToolchainProfile → Verdict

abbrev fits_if : Option (List ToolchainProfile) → Verdict
fits_if none = passed_over
fits_if (some profiles) = fits profiles

unfoldable pub judge : JobRequest → SchedulerAgent → Verdict
judge request candidate =
    let caps = candidate.capabilities in
    let reqs = request.requirements in
    if caps.max_jobs == 0 || leb caps.max_jobs candidate.active_jobs_count
    then (if ltb 0 caps.max_jobs then busy else passed_over)
    else if not (matches_os reqs.os (family_name caps.os_family))
    then passed_over
    else if not (matches_arch reqs.arch caps.os_arch)
    then passed_over
    else if not (matches_labels reqs.labels caps.labels)
    then passed_over
    else if has_less caps.memory_free_mb reqs.min_memory_mb
    then passed_over
    else if has_less caps.disk_free_mb reqs.min_disk_mb
    then passed_over
    else if not (agent_has_required_shell candidate (required_shell request))
    then passed_over
    else if not (matches_secret_refs (required_secrets request) caps.secret_refs)
    then passed_over
    else fits_if (match_job_tool_requirements reqs.tools caps)

pub record Candidate : Type 0 where
  pub agent : SchedulerAgent
  pub toolchains : List ToolchainProfile
  pub score : ℤ

abbrev tools_asked : Option (List (Text × Text)) → Bool
tools_asked none = false
tools_asked (some tools) = not (is_empty tools)

abbrev failure_penalty : SchedulerAgent → SchedulerOptions → ℕ
failure_penalty agent options =
    or_else agent.recent_failure_penalty
      (or_else (property agent.agent_id options.recent_failure_penalties) 0)

unfoldable pub candidate_of :
    Platform → JobRequest → SchedulerOptions → SchedulerAgent → List ToolchainProfile → Candidate
candidate_of platform request options agent profiles = record {
  agent = agent;
  toolchains = profiles;
  score = compute_agent_scheduler_score platform (record {
    agent_id = agent.agent_id;
    caps = agent.capabilities;
    running_jobs = agent.active_jobs_count;
    recent_failure_penalty = failure_penalty agent options;
    request = request;
    options = options;
    selected_toolchains = profiles;
    tools_requested = tools_asked request.requirements.tools;
    tools_matched = true;
  });
}

abbrev add_candidate :
    Platform
    → JobRequest
    → SchedulerOptions
    → SchedulerAgent
    → Verdict
    → List Candidate
    → List Candidate
add_candidate platform request options agent busy rest = rest
add_candidate platform request options agent passed_over rest = rest
add_candidate platform request options agent (fits profiles) rest =
    candidate_of platform request options agent profiles ∷ rest

unfoldable pub eligible_candidates :
    Platform → JobRequest → SchedulerOptions → List SchedulerAgent → List Candidate
eligible_candidates platform request options [] = []
eligible_candidates platform request options (a ∷ agents) =
    add_candidate platform request options a (judge request a)
      (eligible_candidates platform request options agents)

abbrev add_busy : SchedulerAgent → Verdict → List ℕ → List ℕ
add_busy agent busy rest = agent.active_jobs_count ∷ rest
add_busy agent passed_over rest = rest
add_busy agent (fits profiles) rest = rest

unfoldable pub busy_agent_running_jobs : JobRequest → List SchedulerAgent → List ℕ
busy_agent_running_jobs request [] = []
busy_agent_running_jobs request (a ∷ agents) =
    add_busy a (judge request a) (busy_agent_running_jobs request agents)

-- The comparison of the sort: the greater score first, then the Agent's id.
unfoldable pub precedes : Platform → Candidate → Candidate → Bool
precedes platform a b =
    if ltb_ℤ b.score a.score
    then true
    else if ltb_ℤ a.score b.score
    then false
    else platform.id_before a.agent.agent_id b.agent.agent_id

abbrev remote_decision : Candidate → SchedulingDecision
remote_decision chosen = record {
  action = remote;
  selected_agent = some chosen.agent;
  selected_toolchains = chosen.toolchains;
  reason = none;
  no_match_diagnostic = none;
}

abbrev without_agent :
    Action → Option Reason → Option NoMatchingAgentDiagnostic → SchedulingDecision
without_agent action reason diagnostic = record {
  action = action;
  selected_agent = none;
  selected_toolchains = [];
  reason = reason;
  no_match_diagnostic = diagnostic;
}

abbrev pub fallback_allowed : JobRequest → SchedulerOptions → Bool
fallback_allowed request options =
    request.preferences.allow_local_fallback && or_else options.allow_local_fallback true

abbrev pub risk_of : JobRequest → RiskLevel
risk_of request = or_else request.risk_level normal

abbrev pub host_unfit : JobRequest → Option LocalHost → Bool
host_unfit request none = false
host_unfit request (some host) = not (local_host_can_execute request host)

after_decision : LocalFallbackDecision → NoMatchingAgentDiagnostic → SchedulingDecision
after_decision d diagnostic =
    if d.eligible
    then without_agent falls_back none none
    else if d.host_busy
    then without_agent waits (some host_busy) none
    else without_agent fails_fast (some no_eligible_agent) (some diagnostic)

on_host :
    Option HostLoadSnapshot
    → JobRequest
    → SchedulerOptions
    → List ℕ
    → NoMatchingAgentDiagnostic
    → SchedulingDecision
unfolding after_decision
on_host (some host) request options busy_jobs diagnostic =
    after_decision
      (decide_local_fallback (record {
        allow_local_fallback = fallback_allowed request options;
        risk_level = risk_of request;
        host = host;
        max_host_cpu_busy_fraction =
            or_else options.max_host_cpu_busy_fraction default_max_host_cpu_busy_fraction;
        busy_agent_running_jobs = busy_jobs;
        reference_capacity_score = none;
      }))
      diagnostic
on_host none request options busy_jobs diagnostic =
    if fallback_allowed request options && not (is_risky (risk_of request))
    then without_agent falls_back none none
    else without_agent fails_fast (some no_eligible_agent) (some diagnostic)

by_policy :
    QueuePolicy
    → JobRequest
    → SchedulerOptions
    → List ℕ
    → NoMatchingAgentDiagnostic
    → SchedulingDecision
unfolding on_host
by_policy wait request options busy_jobs diagnostic =
    without_agent waits (some no_eligible_agent) (some diagnostic)
by_policy fail_fast request options busy_jobs diagnostic =
    without_agent fails_fast (some no_eligible_agent) (some diagnostic)
by_policy local_fallback request options busy_jobs diagnostic =
    if host_unfit request options.local_host_execution
    then without_agent fails_fast (some no_eligible_agent) (some diagnostic)
    else on_host options.host_load request options busy_jobs diagnostic

unfoldable pub select_agent_for_job :
    Platform → List SchedulerAgent → JobRequest → SchedulerOptions → SchedulingDecision
unfolding by_policy
select_agent_for_job platform agents request options =
    elim (first (sort (precedes platform) (eligible_candidates platform request options agents))) [
      | some chosen ↦ remote_decision chosen
      | none ↦
          by_policy (or_else request.queue_policy local_fallback) request options
            (busy_agent_running_jobs request agents)
            (describe_no_matching_agent agents request options.registered_agent_count)
    ]
