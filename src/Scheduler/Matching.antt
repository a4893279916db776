-- ===== src/Scheduler/Matching.antt =====
-- apps/controller/src/scheduler/index.ts: the hard filters, matchesOs to matchJobToolRequirements.
use remote_build_orchestrato.Common.{
  ◌≡◌, refl, Bool, true, false, not, ◌&&◌, ◌||◌, Option, none, some, List, [], ◌∷◌, arith, leb,
  ◌==◌, if◌then◌else◌, subst, sym,
}
use remote_build_orchestrato.Common.Text.{
  Text, text, text_eq, to_lower_case, is_empty, any, all, find, text_mem, property,
}
use remote_build_orchestrato.Scheduler.Request.{
  AgentCapabilityReport, SchedulerAgent, ToolchainProfile, JobRequest, LocalHost, family_name,
}
use remote_build_orchestrato.Scheduler.Version.{matches_version_spec}

-- Both `matchesOs` and `matchesArch`: no list, or the empty one, asks for nothing.
matches_one_of : Option (List Text) → Text → Bool
matches_one_of none value = true
matches_one_of (some []) value = true
matches_one_of (some (r ∷ rs)) value =
    not (is_empty value)
    && any (λ wanted. text_eq (to_lower_case wanted) (to_lower_case value)) (r ∷ rs)

unfoldable pub matches_os : Option (List Text) → Text → Bool
unfolding matches_one_of
matches_os = matches_one_of

unfoldable pub matches_arch : Option (List Text) → Text → Bool
unfolding matches_one_of
matches_arch = matches_one_of

abbrev same_text : Option Text → Text → Bool
same_text none v = false
same_text (some w) v = text_eq w v

unfoldable pub matches_labels : Option (List (Text × Text)) → List (Text × Text) → Bool
matches_labels none agent_labels = true
matches_labels (some wanted) agent_labels =
    all (λ entry. same_text (property entry.0 agent_labels) entry.1) wanted

unfoldable pub matches_secret_refs : List Text → List Text → Bool
matches_secret_refs request_refs agent_refs = all (λ ref. text_mem ref agent_refs) request_refs

-- `/\.exe$/i` drops the suffix in any case.
strip_exe : Text → Text
strip_exe [] = []
strip_exe (c ∷ s) =
    let rest = strip_exe s in if text_eq (to_lower_case (c ∷ s)) (text ".exe") then [] else c ∷ rest

unfoldable pub normalized_shell : Text → Text
unfolding strip_exe to_lower_case
normalized_shell shell = to_lower_case (strip_exe shell)

unfoldable pub agent_has_required_shell : SchedulerAgent → Text → Bool
agent_has_required_shell agent required_shell =
    any (λ shell. text_eq (normalized_shell shell) required_shell) agent.capabilities.shells

unfoldable pub agent_is_at_capacity : SchedulerAgent → Bool
agent_is_at_capacity agent =
    agent.capabilities.max_jobs == 0 || leb agent.capabilities.max_jobs agent.active_jobs_count

unfoldable pub required_shell : JobRequest → Text
unfolding normalized_shell
required_shell request = normalized_shell (elim request.shell [ none ↦ text "bash" | some s ↦ s ])

unfoldable pub local_host_can_execute : JobRequest → LocalHost → Bool
local_host_can_execute request host =
    matches_os request.requirements.os (family_name host.os)
    && any (λ shell. text_eq (normalized_shell shell) (required_shell request)) host.shells

abbrev profile_fits : Text → Text → ToolchainProfile → Bool
profile_fits tool_name version_spec profile =
    (text_eq (to_lower_case profile.kind) (to_lower_case tool_name)
      || text_eq (to_lower_case profile.id) (to_lower_case tool_name))
    && matches_version_spec profile.version version_spec

-- `none` is `{ matches: false }`: one profile for each requested tool, or no match.
abbrev add_profile :
    Option ToolchainProfile → Option (List ToolchainProfile) → Option (List ToolchainProfile)
add_profile none rest = none
add_profile (some p) none = none
add_profile (some p) (some ps) = some (p ∷ ps)

unfoldable pub match_toolchain_profiles :
    List (Text × Text) → List ToolchainProfile → Option (List ToolchainProfile)
match_toolchain_profiles [] agent_profiles = some []
match_toolchain_profiles ((tool_name, version_spec) ∷ tools) agent_profiles =
    add_profile (find (profile_fits tool_name version_spec) agent_profiles)
      (match_toolchain_profiles tools agent_profiles)

abbrev pub is_probe_tool : Text → Bool
is_probe_tool name =
    text_eq (to_lower_case name) (text "git") || text_eq (to_lower_case name) (text "git-lfs")

-- `splitRequestedTools`: the probed tools and the toolchain tools, in order.
unfoldable pub split_requested_tools : List (Text × Text) → List (Text × Text) × List (Text × Text)
split_requested_tools [] = ([], [])
split_requested_tools ((name, spec) ∷ tools) =
    let (probe, toolchain) = split_requested_tools tools in
    if is_probe_tool name
    then ((name, spec) ∷ probe, toolchain)
    else (probe, (name, spec) ∷ toolchain)

-- The key that equals the tool's name in lower case, or else the name.
abbrev probe_key : Text → List (Text × List Text) → Text
probe_key tool_name agent_tools =
    elim (find (λ entry. text_eq (to_lower_case entry.0) (to_lower_case tool_name)) agent_tools) [
      | none ↦ tool_name
      | some entry ↦ entry.0
    ]

abbrev probed_versions : Text → List (Text × List Text) → List Text
probed_versions tool_name agent_tools =
    elim (property (probe_key tool_name agent_tools) agent_tools) [ none ↦ [] | some vs ↦ vs ]

unfoldable pub match_probe_tools : List (Text × Text) → List (Text × List Text) → Bool
match_probe_tools requested agent_tools =
    all
      (λ tool.
        any (λ version. matches_version_spec version tool.1) (probed_versions tool.0 agent_tools))
      requested

unfoldable pub match_job_tool_requirements :
    Option (List (Text × Text)) → AgentCapabilityReport → Option (List ToolchainProfile)
unfolding match_toolchain_profiles split_requested_tools match_probe_tools
match_job_tool_requirements requested caps =
    let (probe, toolchain) = split_requested_tools (elim requested [ none ↦ [] | some t ↦ t ]) in
    elim (match_toolchain_profiles toolchain caps.toolchain_profiles) [
      | none ↦ none
      | some profiles ↦ if match_probe_tools probe caps.tools then some profiles else none
    ]

-- Each selected profile fits the tool in its place and is the Agent's.
abbrev pub Selected : List ToolchainProfile → List (Text × Text) → List ToolchainProfile → Type 0
Selected agent [] [] = Unit
Selected agent [] (p ∷ ps) = ⊥
Selected agent (t ∷ ts) [] = ⊥
Selected agent (t ∷ ts) (p ∷ ps) =
    (find (profile_fits t.0 t.1) agent ≡ some p)
    × (profile_fits t.0 t.1 p ≡ true)
    × Selected agent ts ps

find-holds {ℓ} : {A : Type ℓ} (p : A → Bool) (xs : List A) (a : A) → find p xs ≡ some a → p a ≡ true
find-holds p [] a h = cc
find-holds p (x ∷ xs) a h = ground (arith, find-holds p xs a)

add_profile-some :
    (p : Option ToolchainProfile) (rest : Option (List ToolchainProfile))
    (ps : List ToolchainProfile)
    → add_profile p rest ≡ some ps
    → (q : ToolchainProfile) × (qs : List ToolchainProfile) × (p ≡ some q)
      × (rest ≡ some qs)
      × (ps ≡ q ∷ qs)
add_profile-some none rest ps h = cc
add_profile-some (some q) none ps h = cc
add_profile-some (some q) (some qs) ps h = (q, qs, refl, refl, ground arith)

match_toolchain_profiles-Selected :
    (tools : List (Text × Text)) (agent ps : List ToolchainProfile)
    → match_toolchain_profiles tools agent ≡ some ps
    → Selected agent tools ps
unfolding match_toolchain_profiles
match_toolchain_profiles-Selected [] agent ps h =
    let e : [] ≡ ps = ground arith in subst (Selected agent []) e tt
match_toolchain_profiles-Selected ((n, s) ∷ tools) agent ps h =
    let (q, qs, found, rest, e) =
      add_profile-some (find (profile_fits n s) agent) (match_toolchain_profiles tools agent) ps
        h in
    subst (Selected agent ((n, s) ∷ tools)) (sym e) (
      found,
      find-holds (profile_fits n s) agent q found,
      match_toolchain_profiles-Selected tools agent qs rest,
    )

-- A tool requirement that is met selects, for each requested tool but the probed ones and in their
-- order, the Agent's first profile of that kind or id and a version that the requirement accepts;
-- and the Agent has an accepted version of every probed tool.
match_job_tool_requirements_sound :
    (tools : List (Text × Text)) (caps : AgentCapabilityReport) (ps : List ToolchainProfile)
    → match_job_tool_requirements (some tools) caps ≡ some ps
    → Selected caps.toolchain_profiles (split_requested_tools tools).1 ps
      × (match_probe_tools (split_requested_tools tools).0 caps.tools ≡ true)
match_job_tool_requirements_sound tools caps ps h =
    let halves = split_requested_tools tools in
    let both : (match_toolchain_profiles halves.1 caps.toolchain_profiles ≡ some ps)
        × (match_probe_tools halves.0 caps.tools ≡ true) =
      unfold match_job_tool_requirements in ground arith in
    (match_toolchain_profiles-Selected halves.1 caps.toolchain_profiles ps both.0, both.1)
