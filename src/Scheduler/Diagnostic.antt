-- ===== src/Scheduler/Diagnostic.antt =====
-- apps/controller/src/scheduler/index.ts: describeNoMatchingAgent. The sentence of a hint is a
-- constructor with the texts that it contains.
use remote_build_orchestrato.Common.{
  ℕ, ◌+◌, ◌≤◌, Bool, true, false, not, ◌&&◌, Option, none, some, List, [], ◌∷◌, ◌++◌, map, arith,
  ltb, if◌then◌else◌, length, take, length-take, length-map,
}
use remote_build_orchestrato.Common.Text.{
  Text, text, to_lower_case, trim, is_empty, all, keep, text_mem,
}
use remote_build_orchestrato.Scheduler.Request.{
  JobRequest, SchedulerAgent, QueuePolicy, local_fallback, wait, fail_fast, family_name,
}
use remote_build_orchestrato.Scheduler.Matching.{
  matches_os, agent_has_required_shell, agent_is_at_capacity, required_shell,
}

abbrev pub max_diagnostic_field_bytes : ℕ
max_diagnostic_field_bytes = 16

abbrev pub max_diagnostic_target_os : ℕ
max_diagnostic_target_os = 3

-- The bytes of a code point in UTF-8.
abbrev utf8_bytes : ℕ → ℕ
utf8_bytes c = if ltb c 0x80 then 1 else if ltb c 0x800 then 2 else if ltb c 0x10000 then 3 else 4

unfoldable pub byte_length : Text → ℕ
byte_length [] = 0
byte_length (c ∷ s) = utf8_bytes c + byte_length s

truncate_from : ℕ → ℕ → Text → Text
truncate_from max_bytes bytes [] = []
truncate_from max_bytes bytes (c ∷ s) =
    let rest = truncate_from max_bytes (bytes + utf8_bytes c) s in
    if ltb max_bytes (bytes + utf8_bytes c) then [] else c ∷ rest

unfoldable pub truncate_diagnostic_text : Text → Text
unfolding truncate_from
truncate_diagnostic_text = truncate_from max_diagnostic_field_bytes 0

-- A `Set` of texts, in the order of first insertion.
distinct : List Text → List Text → List Text
distinct seen [] = []
distinct seen (t ∷ ts) =
    let old = distinct seen ts in
    let new = distinct (t ∷ seen) ts in if text_mem t seen then old else t ∷ new

unfoldable pub normalized_target_os : Option (List Text) → Option (List Text)
unfolding distinct truncate_diagnostic_text
normalized_target_os none = none
normalized_target_os (some []) = none
normalized_target_os (some (os ∷ oses)) = some (
    map truncate_diagnostic_text (
      take max_diagnostic_target_os (
        distinct []
          (keep (λ t. not (is_empty t)) (map (λ t. to_lower_case (trim t)) (os ∷ oses))))))

pub data Hint : Type 0 where
  queued_until_match no_registered_agent_online no_online_agent unsatisfied : Hint
  queued_until_target_os no_target_os : Text → Hint
  queued_until_shell no_shell : Text → Text → Hint
  queued_until_capacity all_at_capacity : Hint

pub record NoMatchingAgentDiagnostic : Type 0 where
  pub required_shell : Text
  pub target_os : Option (List Text)
  pub hint : Hint

abbrev pub is_wait : Option QueuePolicy → Bool
is_wait none = false
is_wait (some local_fallback) = false
is_wait (some wait) = true
is_wait (some fail_fast) = false

no_matching_agent_hint : JobRequest → Hint → Hint → Hint
no_matching_agent_hint request waiting_hint fail_hint =
    if is_wait request.queue_policy then waiting_hint else fail_hint

join_or : List Text → Text
join_or [] = []
join_or (t ∷ []) = t
join_or (t ∷ u ∷ ts) = t ++ (text " or " ++ join_or (u ∷ ts))

target_label : Option (List Text) → Text
unfolding join_or
target_label none = text "the requested target OS"
target_label (some oses) = join_or oses

abbrev asks_os : Option (List Text) → Bool
asks_os none = false
asks_os (some oses) = not (is_empty oses)

diagnostic_hint : List SchedulerAgent → JobRequest → ℕ → Hint
unfolding no_matching_agent_hint target_label
diagnostic_hint agents request registered =
    let label = target_label (normalized_target_os request.requirements.os) in
    let shell = truncate_diagnostic_text (required_shell request) in
    let os_matches : List SchedulerAgent =
      keep (λ a. matches_os request.requirements.os (family_name a.capabilities.os_family))
        agents in
    let shell_matches : List SchedulerAgent =
      keep (λ a. agent_has_required_shell a (required_shell request)) os_matches in
    if is_empty agents
    then no_matching_agent_hint request queued_until_match
        (if ltb 0 registered then no_registered_agent_online else no_online_agent)
    else if asks_os request.requirements.os && is_empty os_matches
    then no_matching_agent_hint request (queued_until_target_os label) (no_target_os label)
    else if is_empty shell_matches
    then no_matching_agent_hint request (queued_until_shell shell label) (no_shell shell label)
    else if all agent_is_at_capacity shell_matches
    then no_matching_agent_hint request queued_until_capacity all_at_capacity
    else no_matching_agent_hint request queued_until_match unsatisfied

unfoldable pub describe_no_matching_agent :
    List SchedulerAgent → JobRequest → ℕ → NoMatchingAgentDiagnostic
unfolding diagnostic_hint
describe_no_matching_agent agents request registered = record {
  required_shell = truncate_diagnostic_text (required_shell request);
  target_os = normalized_target_os request.requirements.os;
  hint = diagnostic_hint agents request registered;
}

truncate_from-le : (m b : ℕ) (s : Text) → b ≤ m → b + byte_length (truncate_from m b s) ≤ m
unfolding truncate_from byte_length
truncate_from-le m b [] h = omega arith
truncate_from-le m b (c ∷ s) h = ground (arith, truncate_from-le m (b + utf8_bytes c) s)

truncate_short : (t : Text) → byte_length (truncate_diagnostic_text t) ≤ max_diagnostic_field_bytes
unfolding truncate_diagnostic_text
truncate_short t = omega (arith, truncate_from-le 16 0 t (omega arith))

abbrev pub AllShort : List Text → Type 0
AllShort [] = Unit
AllShort (t ∷ ts) = (byte_length t ≤ max_diagnostic_field_bytes) × AllShort ts

abbrev pub Compact : Option (List Text) → Type 0
Compact none = Unit
Compact (some oses) = (length oses ≤ max_diagnostic_target_os) × AllShort oses

map_truncate-AllShort : (ts : List Text) → AllShort (map truncate_diagnostic_text ts)
map_truncate-AllShort [] = tt
map_truncate-AllShort (t ∷ ts) = (truncate_short t, map_truncate-AllShort ts)

truncated_list :
    (ts : List Text) → length (map truncate_diagnostic_text (take max_diagnostic_target_os ts)) ≤ 3
truncated_list ts = omega (arith, length-map (take 3 ts) truncate_diagnostic_text, length-take 3 ts)

normalized_target_os-Compact : (os : Option (List Text)) → Compact (normalized_target_os os)
unfolding normalized_target_os
normalized_target_os-Compact none = tt
normalized_target_os-Compact (some []) = tt
normalized_target_os-Compact (some (os ∷ oses)) = (truncated_list _, map_truncate-AllShort _)

-- The diagnostic stays compact, whatever the request holds: at most three target systems and each
-- of its texts of at most 16 bytes.
pub diagnostic-Compact :
    (agents : List SchedulerAgent) (request : JobRequest) (registered : ℕ)
    → let d = describe_no_matching_agent agents request registered in
      (byte_length d.required_shell ≤ max_diagnostic_field_bytes) × Compact d.target_os
unfolding describe_no_matching_agent
diagnostic-Compact agents request registered =
    (truncate_short (required_shell request), normalized_target_os-Compact request.requirements.os)
