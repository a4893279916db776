-- ===== src/Scheduler/Select/Policy.antt =====
-- apps/controller/src/scheduler/index.ts: what happens to a job that no Agent can take.
use remote_build_orchestrato.Common.{
  ℕ, ◌≡◌, ◌≢◌, sym, ◌∙◌, inl, inr, true, false, Option, some, List, arith, Option-cases,
}
use remote_build_orchestrato.Common.Sort.{In, first, sort}
use remote_build_orchestrato.Scheduler.Request.{
  Platform, JobRequest, QueuePolicy, local_fallback, wait, fail_fast, SchedulerAgent,
  SchedulerOptions, ToolchainProfile, HostLoadSnapshot, or_else,
}
use remote_build_orchestrato.Scheduler.Diagnostic.{
  NoMatchingAgentDiagnostic, describe_no_matching_agent,
}
use remote_build_orchestrato.Scheduler.Fallback.{decide_local_fallback, is_risky}
use remote_build_orchestrato.Scheduler.Select.{
  remote, waits, fails_fast, falls_back, SchedulingDecision, eligible_candidates, precedes,
  fallback_allowed, risk_of, host_unfit, without_agent, no_eligible_agent, on_host, by_policy,
  busy_agent_running_jobs, select_agent_for_job,
}
use remote_build_orchestrato.Scheduler.Select.Best.{Suits, select_remote_iff}

module _ (request : JobRequest) (options : SchedulerOptions) where
  abbrev IsPermitted : Type 0
  IsPermitted =
      (is_risky (risk_of request) ≡ false)
      × (fallback_allowed request options ≡ true)
      × (host_unfit request options.local_host_execution ≡ false)

  on_host-safe :
      (host : Option HostLoadSnapshot) (jobs : List ℕ) (d : NoMatchingAgentDiagnostic)
      → (on_host host request options jobs d).action ≡ falls_back
      → (is_risky (risk_of request) ≡ false) × (fallback_allowed request options ≡ true)
  unfolding on_host decide_local_fallback
  on_host-safe host jobs d h = ground arith

  by_policy-safe :
      (q : QueuePolicy) (jobs : List ℕ) (d : NoMatchingAgentDiagnostic)
      → (by_policy q request options jobs d).action ≡ falls_back
      → (q ≡ local_fallback) × IsPermitted
  unfolding by_policy
  by_policy-safe q jobs d h = ground (arith, on_host-safe options.host_load jobs d)

falls_back-ne-remote : falls_back ≡ remote → ⊥
falls_back-ne-remote e = cc

module _ (platform : Platform) (agents : List SchedulerAgent) (request : JobRequest)
    (options : SchedulerOptions) where
  abbrev decision : SchedulingDecision
  decision = select_agent_for_job platform agents request options

  not_remote :
      decision.action ≢ remote
      → decision
        ≡ by_policy
            (or_else request.queue_policy local_fallback)
            request
            options
            (busy_agent_running_jobs request agents)
            (describe_no_matching_agent agents request options.registered_agent_count)
  unfolding select_agent_for_job
  not_remote h =
      elim (Option-cases
        (first (sort (precedes platform) (eligible_candidates platform request options agents)))) [
          | inl e ↦ rw (e, select_agent_for_job)
          | inr (c, e) ↦ absurd (h (rw (e, select_agent_for_job)))
        ]

  -- A job runs on the Controller's own host only if no given Agent suits it, its policy is the
  -- local fallback, it is neither destructive nor a hardware job, the request and the options both
  -- allow the fallback, and a host whose shells and system are known can execute it.
  pub local_fallback_safe :
      decision.action ≡ falls_back
      → ((a : SchedulerAgent) (profiles : List ToolchainProfile)
          → In a agents
          → ¬ Suits request a profiles)
        × (or_else request.queue_policy local_fallback ≡ local_fallback)
        × (is_risky (risk_of request) ≡ false)
        × (fallback_allowed request options ≡ true)
        × (host_unfit request options.local_host_execution ≡ false)
  local_fallback_safe h =
      let apart : decision.action ≢ remote = λ r. absurd (falls_back-ne-remote (sym h ∙ r)) in
      let (policy, (calm, allowed, fit)) =
        by_policy-safe request options (or_else request.queue_policy local_fallback)
          (busy_agent_running_jobs request agents)
          (describe_no_matching_agent agents request options.registered_agent_count)
          (rw (not_remote apart) at h) in
      (
        λ a profiles m s.
            apart ((select_remote_iff platform request options agents).1 a profiles m s),
        policy,
        calm,
        allowed,
        fit,
      )

  unsuited-not_remote :
      ((a : SchedulerAgent) (profiles : List ToolchainProfile)
        → In a agents
        → ¬ Suits request a profiles)
      → decision.action ≢ remote
  unsuited-not_remote none_suits r =
      let (a, profiles, m, s) = (select_remote_iff platform request options agents).0 r in
      none_suits a profiles m s

  -- The policies `wait` and `fail_fast` are kept: without an Agent that suits it, the job waits,
  -- or fails at once, for that reason and with the diagnostic.
  pub policy_kept :
      ((a : SchedulerAgent) (profiles : List ToolchainProfile)
        → In a agents
        → ¬ Suits request a profiles)
      → let diagnostic = describe_no_matching_agent agents request options.registered_agent_count in
        (request.queue_policy ≡ some wait
          → decision ≡ without_agent waits (some no_eligible_agent) (some diagnostic))
        × (request.queue_policy ≡ some fail_fast
            → decision ≡ without_agent fails_fast (some no_eligible_agent) (some diagnostic))
  unfolding by_policy
  policy_kept none_suits =
      let e = not_remote (unsuited-not_remote none_suits) in
      (λ p. rw e (rw (p, by_policy)), λ p. rw e (rw (p, by_policy)))
