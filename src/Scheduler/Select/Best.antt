-- ===== src/Scheduler/Select/Best.antt =====
-- apps/controller/src/scheduler/index.ts: the Agent that selectAgentForJob sends a job to.
use remote_build_orchestrato.Common.{
  ℕ, ◌<◌, ◌≡◌, ◌≢◌, refl, sym, subst, ap, inl, inr, Bool, true, false, none, some, List, [], ◌∷◌,
  arith, Option-cases,
}
use remote_build_orchestrato.Common.Int.{◌≤ℤ◌, pos_part, neg_part}
use remote_build_orchestrato.Common.Sort.{
  In, first, sort, sort-first, sort-first-In, sort-first-none,
}
use remote_build_orchestrato.Common.Text.{Text}
use remote_build_orchestrato.Scheduler.Request.{
  Platform, JobRequest, QueuePolicy, local_fallback, or_else, SchedulerAgent, SchedulerOptions,
  ToolchainProfile, family_name,
}
use remote_build_orchestrato.Scheduler.Matching.{
  matches_os, matches_arch, matches_labels, matches_secret_refs, agent_has_required_shell,
  required_shell, match_job_tool_requirements,
}
use remote_build_orchestrato.Scheduler.Diagnostic.{
  describe_no_matching_agent, NoMatchingAgentDiagnostic,
}
use remote_build_orchestrato.Scheduler.Select.{
  remote, Verdict, busy, passed_over, fits, add_candidate, by_policy, judge,
  busy_agent_running_jobs, Candidate, candidate_of, eligible_candidates, precedes, remote_decision,
  select_agent_for_job, required_secrets, has_less,
}

-- All that a job asks of an Agent.
pub record Suits (request : JobRequest) (a : SchedulerAgent) (profiles : List ToolchainProfile)
    : Type 0 where
  pub free : a.active_jobs_count < a.capabilities.max_jobs
  pub os : matches_os request.requirements.os (family_name a.capabilities.os_family) ≡ true
  pub arch : matches_arch request.requirements.arch a.capabilities.os_arch ≡ true
  pub labels : matches_labels request.requirements.labels a.capabilities.labels ≡ true
  pub memory : has_less a.capabilities.memory_free_mb request.requirements.min_memory_mb ≡ false
  pub disk : has_less a.capabilities.disk_free_mb request.requirements.min_disk_mb ≡ false
  pub shell : agent_has_required_shell a (required_shell request) ≡ true
  pub secrets : matches_secret_refs (required_secrets request) a.capabilities.secret_refs ≡ true
  pub tools : match_job_tool_requirements request.requirements.tools a.capabilities ≡ some profiles

judge-Suits :
    (request : JobRequest) (a : SchedulerAgent) (profiles : List ToolchainProfile)
    → judge request a ≡ fits profiles
    → Suits request a profiles
unfolding judge
judge-Suits request a profiles h = ground arith

Suits-judge :
    (request : JobRequest) (a : SchedulerAgent) (profiles : List ToolchainProfile)
    → Suits request a profiles
    → judge request a ≡ fits profiles
unfolding judge
Suits-judge request a profiles s = ground arith

-- What the sort needs of `localeCompare`: a total order of the ids.
pub record IsOrder (le : Text → Text → Bool) : Type 0 where
  pub total : (a b : Text) → le a b ≡ false → le b a ≡ true
  pub trans : (a b c : Text) → le a b ≡ true → le b c ≡ true → le a c ≡ true

module _ (platform : Platform) (order : IsOrder platform.id_before) where
  precedes_total : (a b : Candidate) → precedes platform a b ≡ false → precedes platform b a ≡ true
  unfolding precedes
  precedes_total a b h = ground (arith, order.total a.agent.agent_id b.agent.agent_id)

  precedes_trans :
      (a b c : Candidate)
      → precedes platform a b ≡ true
      → precedes platform b c ≡ true
      → precedes platform a c ≡ true
  unfolding precedes
  precedes_trans a b c h k =
      ground (arith, order.trans a.agent.agent_id b.agent.agent_id c.agent.agent_id)

precedes_best :
    (platform : Platform) (a b : Candidate)
    → precedes platform a b ≡ true
    → (b.score ≤ℤ a.score)
      × (b.score ≡ a.score → platform.id_before a.agent.agent_id b.agent.agent_id ≡ true)
unfolding precedes
precedes_best platform a b h = (ground arith, λ e. ground (arith, ap pos_part e, ap neg_part e))

module _ (platform : Platform) (request : JobRequest) (options : SchedulerOptions) where
  -- A candidate stands for an Agent that suits the job, with its score.
  abbrev IsCandidate : List SchedulerAgent → Candidate → Type 0
  IsCandidate agents c =
      In c.agent agents
      × Suits request c.agent c.toolchains
      × (c ≡ candidate_of platform request options c.agent c.toolchains)

  fresh-IsCandidate :
      (a : SchedulerAgent) (agents : List SchedulerAgent) (profiles : List ToolchainProfile)
      → judge request a ≡ fits profiles
      → IsCandidate (a ∷ agents) (candidate_of platform request options a profiles)
  unfolding candidate_of
  fresh-IsCandidate a agents profiles e = (inl refl, judge-Suits request a profiles e, refl)

  add_candidate-IsCandidate :
      (v : Verdict) (a : SchedulerAgent) (agents : List SchedulerAgent) (c : Candidate)
      (rest : List Candidate)
      → judge request a ≡ v
      → (In c rest → IsCandidate agents c)
      → In c (add_candidate platform request options a v rest)
      → IsCandidate (a ∷ agents) c
  add_candidate-IsCandidate busy a agents c rest e ih m =
      let (there, suits, same) = ih m in (inr there, suits, same)
  add_candidate-IsCandidate passed_over a agents c rest e ih m =
      let (there, suits, same) = ih m in (inr there, suits, same)
  add_candidate-IsCandidate (fits profiles) a agents c rest e ih (inl q) =
      subst (IsCandidate (a ∷ agents)) (sym q) (fresh-IsCandidate a agents profiles e)
  add_candidate-IsCandidate (fits profiles) a agents c rest e ih (inr m) =
      let (there, suits, same) = ih m in (inr there, suits, same)

  eligible-IsCandidate :
      (agents : List SchedulerAgent) (c : Candidate)
      → In c (eligible_candidates platform request options agents)
      → IsCandidate agents c
  unfolding eligible_candidates
  eligible-IsCandidate [] c m = absurd m
  eligible-IsCandidate (a ∷ agents) c m =
      add_candidate-IsCandidate (judge request a) a agents c
        (eligible_candidates platform request options agents) refl (eligible-IsCandidate agents c) m

  In-add_candidate :
      (v : Verdict) (a : SchedulerAgent) (c : Candidate) (rest : List Candidate)
      → In c rest
      → In c (add_candidate platform request options a v rest)
  In-add_candidate busy a c rest m = m
  In-add_candidate passed_over a c rest m = m
  In-add_candidate (fits profiles) a c rest m = inr m

  suits-eligible :
      (agents : List SchedulerAgent) (a : SchedulerAgent) (profiles : List ToolchainProfile)
      → In a agents
      → Suits request a profiles
      → In
          (candidate_of platform request options a profiles)
          (eligible_candidates platform request options agents)
  unfolding eligible_candidates
  suits-eligible [] a profiles m s = absurd m
  suits-eligible (b ∷ agents) a profiles (inl same) s =
      let fitting : judge request b ≡ fits profiles =
        subst (λ x. judge request x ≡ fits profiles) same (Suits-judge request a profiles s) in
      rw fitting (inl (ap (λ x. candidate_of platform request options x profiles) same))
  suits-eligible (b ∷ agents) a profiles (inr m) s =
      In-add_candidate (judge request b) b _ _ (suits-eligible agents a profiles m s)

  by_policy-not_remote :
      (q : QueuePolicy) (jobs : List ℕ) (d : NoMatchingAgentDiagnostic)
      → (by_policy q request options jobs d).action ≢ remote
  unfolding by_policy
  by_policy-not_remote q jobs d = ground arith

  no_candidate :
      (agents : List SchedulerAgent)
      → first (sort (precedes platform) (eligible_candidates platform request options agents))
        ≡ none
      → (select_agent_for_job platform agents request options).action ≢ remote
  unfolding select_agent_for_job
  no_candidate agents e =
      rw (e, select_agent_for_job)
        (by_policy-not_remote (or_else request.queue_policy local_fallback)
          (busy_agent_running_jobs request agents)
          (describe_no_matching_agent agents request options.registered_agent_count))

  remote_first :
      (agents : List SchedulerAgent)
      → (select_agent_for_job platform agents request options).action ≡ remote
      → (c : Candidate) × (first
            (sort (precedes platform) (eligible_candidates platform request options agents))
          ≡ some c)
        × (select_agent_for_job platform agents request options ≡ remote_decision c)
  remote_first agents h =
      elim (Option-cases
        (first (sort (precedes platform) (eligible_candidates platform request options agents)))) [
          | inl e ↦ absurd (no_candidate agents e h)
          | inr (c, e) ↦ (c, e, unfold select_agent_for_job in rw (e, select_agent_for_job))
        ]

  module _ (order : IsOrder platform.id_before) where
    -- A job that is sent to an Agent goes to one of the given Agents that suits it, with the
    -- profiles that the Agent has for its tools, and to the best one: no Agent that suits the job
    -- has a greater score, nor an equal score and an id that comes before.
    pub select_best :
        (agents : List SchedulerAgent)
        → let d = select_agent_for_job platform agents request options in
          d.action ≡ remote
          → (a : SchedulerAgent) × (d.selected_agent ≡ some a)
            × In a agents
            × Suits request a d.selected_toolchains
            × ((b : SchedulerAgent) (profiles : List ToolchainProfile)
                → In b agents
                → Suits request b profiles
                → let best = candidate_of platform request options a d.selected_toolchains in
                  let other = candidate_of platform request options b profiles in
                  (other.score ≤ℤ best.score)
                  × (other.score ≡ best.score → platform.id_before a.agent_id b.agent_id ≡ true))
    unfolding candidate_of
    select_best agents h =
        let (c, found, e) = remote_first agents h in
        let eligible = eligible_candidates platform request options agents in
        let (m, least) =
          sort-first (precedes platform) (precedes_total platform order)
            (precedes_trans platform order) eligible c found in
        let (there, suits, same) = eligible-IsCandidate agents c m in
        rw e (
          c.agent,
          refl,
          there,
          suits,
          λ b profiles n s.
              precedes_best platform (candidate_of platform request options c.agent c.toolchains)
                (candidate_of platform request options b profiles)
                (rw (← same) (least _ (suits-eligible agents b profiles n s))),
        )

  suits_remote :
      (agents : List SchedulerAgent) (a : SchedulerAgent) (profiles : List ToolchainProfile)
      → In a agents
      → Suits request a profiles
      → (select_agent_for_job platform agents request options).action ≡ remote
  unfolding select_agent_for_job
  suits_remote agents a profiles n s =
      elim (Option-cases
        (first (sort (precedes platform) (eligible_candidates platform request options agents)))) [
          | inl e ↦ absurd (
              subst (In (candidate_of platform request options a profiles))
                (sort-first-none (precedes platform) _ e) (suits-eligible agents a profiles n s))
          | inr (c, e) ↦ rw (e, select_agent_for_job)
        ]

  -- A job is sent to an Agent exactly when some Agent suits it.
  pub select_remote_iff :
      (agents : List SchedulerAgent)
      → ((select_agent_for_job platform agents request options).action ≡ remote
          → (a : SchedulerAgent) × (profiles : List ToolchainProfile) × In a agents
            × Suits request a profiles)
        × ((a : SchedulerAgent) (profiles : List ToolchainProfile)
            → In a agents
            → Suits request a profiles
            → (select_agent_for_job platform agents request options).action ≡ remote)
  select_remote_iff agents = (
    λ h.
        let (c, found, e) = remote_first agents h in
        let m =
          sort-first-In (precedes platform) (eligible_candidates platform request options agents) c
            found in
        let (there, suits, same) = eligible-IsCandidate agents c m in
        (c.agent, c.toolchains, there, suits),
    λ a profiles n s. suits_remote agents a profiles n s,
  )
