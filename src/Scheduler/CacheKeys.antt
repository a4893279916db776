-- ===== src/Scheduler/CacheKeys.antt =====
-- apps/controller/src/scheduler/index.ts: the cache hits of the score.
use remote_build_orchestrato.Common.{
  Bool, true, false, not, ◌&&◌, ◌||◌, Option, none, some, List, [], ◌∷◌, ◌++◌, if◌then◌else◌,
}
use remote_build_orchestrato.Common.Text.{
  Text, text, text_eq, to_lower_case, is_empty, any, find, text_mem,
}
use remote_build_orchestrato.BuildCacheKey.{compute_build_cache_key}
use remote_build_orchestrato.Scheduler.Request.{
  Platform, AgentCapabilityReport, RepositoryCacheEntry, ToolchainProfile, ExpectedBuildCacheKey,
  BuildCacheEntry, BuildCacheKind, ccache, sccache, npm, pnpm, pip, family_name,
}

-- `null` and the empty text are false.
abbrev pub truthy : Option Text → Bool
truthy none = false
truthy (some t) = not (is_empty t)

abbrev commit_known : Option Text → List Text → Bool
commit_known none commits = true
commit_known (some commit) commits = is_empty commit || is_empty commits || text_mem commit commits

-- The first entry of the repository decides.
unfoldable pub agent_has_repo_cache_hit : List RepositoryCacheEntry → Text → Option Text → Bool
agent_has_repo_cache_hit [] repo_canonical_id base_commit = false
agent_has_repo_cache_hit (entry ∷ entries) repo_canonical_id base_commit =
    let rest = agent_has_repo_cache_hit entries repo_canonical_id base_commit in
    if text_eq entry.canonical_id repo_canonical_id
    then commit_known base_commit entry.commits
    else rest

pub BuildCacheKind-discrete : Discrete BuildCacheKind
BuildCacheKind-discrete = hlevel

abbrev pub kind_name : BuildCacheKind → Text
kind_name ccache = text "ccache"
kind_name sccache = text "sccache"
kind_name npm = text "npm"
kind_name pnpm = text "pnpm"
kind_name pip = text "pip"

abbrev same_kind : BuildCacheKind → BuildCacheKind → Bool
same_kind a b = text_eq (kind_name a) (kind_name b)

abbrev advertised : Option BuildCacheEntry → Text → Bool
advertised none key = false
advertised (some entry) key = text_mem key entry.keys

unfoldable pub agent_has_build_cache_hit : List BuildCacheEntry → List ExpectedBuildCacheKey → Bool
agent_has_build_cache_hit ads expected =
    any (λ want. advertised (find (λ ad. same_kind ad.kind want.kind) ads) want.key) expected

-- TOOL_NAME_TO_BUILD_CACHE_KIND.
kind_of_tool : Text → Option BuildCacheKind
kind_of_tool name =
    if text_eq name (text "ccache")
    then some ccache
    else if text_eq name (text "sccache")
    then some sccache
    else if text_eq name (text "npm")
    then some npm
    else if text_eq name (text "pnpm")
    then some pnpm
    else if text_eq name (text "pip")
    then some pip
    else none

abbrev all_kinds : List BuildCacheKind
all_kinds = ccache ∷ sccache ∷ npm ∷ pnpm ∷ pip ∷ []

-- A `Set` keeps the order of first insertion: the kinds so far come first.
kinds_from_tools : List BuildCacheKind → List (Text × Text) → List BuildCacheKind
unfolding kind_of_tool
kinds_from_tools seen [] = seen
kinds_from_tools seen ((name, spec) ∷ tools) =
    kinds_from_tools
      (elim (kind_of_tool (to_lower_case name)) [
        | none ↦ seen
        | some kind ↦ if any (same_kind kind) seen then seen else seen ++ kind ∷ []
      ])
      tools

abbrev kinds_for : Option (List (Text × Text)) → List BuildCacheKind
kinds_for none = all_kinds
kinds_for (some []) = all_kinds
kinds_for (some (t ∷ ts)) = kinds_from_tools [] (t ∷ ts)

abbrev toolchain_required : BuildCacheKind → Bool
toolchain_required ccache = true
toolchain_required sccache = true
toolchain_required npm = false
toolchain_required pnpm = false
toolchain_required pip = false

abbrev primary_of : List ToolchainProfile → Option ToolchainProfile
primary_of [] = none
primary_of (p ∷ ps) = some p

abbrev profile_id : Option ToolchainProfile → Text
profile_id none = text "none"
profile_id (some p) = p.id

abbrev profile_fingerprint : Option ToolchainProfile → Text
profile_fingerprint none = text "none"
profile_fingerprint (some p) = p.environment_fingerprint

abbrev is_none {ℓ} : {A : Type ℓ} → Option A → Bool
is_none none = true
is_none (some a) = false

module _ (platform : Platform) (caps : AgentCapabilityReport) (project_identity : Text)
    (primary : Option ToolchainProfile) where
  abbrev expected_key : BuildCacheKind → ExpectedBuildCacheKey
  expected_key kind = record {
    kind = kind;
    key = compute_build_cache_key platform.sha256 (record {
      kind = kind_name kind;
      toolchain_profile_id = profile_id primary;
      toolchain_fingerprint = profile_fingerprint primary;
      os_family = family_name caps.os_family;
      arch = caps.os_arch;
      project_identity = project_identity;
    });
  }

  expected_keys : List BuildCacheKind → List ExpectedBuildCacheKey
  expected_keys [] = []
  expected_keys (kind ∷ kinds) =
      let rest = expected_keys kinds in
      if toolchain_required kind && is_none primary then rest else expected_key kind ∷ rest

unfoldable pub compute_expected_build_cache_keys_for_agent :
    Platform
    → AgentCapabilityReport
    → List ToolchainProfile
    → Text
    → Option (List (Text × Text))
    → List ExpectedBuildCacheKey
unfolding expected_keys kinds_from_tools
compute_expected_build_cache_keys_for_agent platform caps selected project_identity tools =
    expected_keys platform caps project_identity (primary_of selected) (kinds_for tools)
