-- ===== src/Redactor/Scenarios.antt =====
-- A stream of three chunks and two secrets, the shorter of which is cut by a chunk's end.
use remote_build_orchestrato.Common.{ℕ, ◌≡◌, refl, List, [], ◌∷◌, ◌++◌}
use remote_build_orchestrato.Redactor.{Text, marker, new_redactor, redact, flush, redact_chunks}
use remote_build_orchestrato.Redactor.Transparent.{redact-transparent}

abbrev secrets : List Text
secrets = (1 ∷ 2 ∷ []) ∷ [] ∷ (5 ∷ 6 ∷ 7 ∷ []) ∷ []

hides_across_chunks :
    redact_chunks (new_redactor secrets) ((9 ∷ 1 ∷ []) ∷ (2 ∷ 9 ∷ []) ∷ []) ≡ 9 ∷ marker ++ 9 ∷ []
unfolding new_redactor redact flush remote_build_orchestrato.Common.Sort.sort
    remote_build_orchestrato.Common.Sort.insert
hides_across_chunks = refl

redact-transparent_example :
    redact_chunks (new_redactor secrets) ((5 ∷ 6 ∷ []) ∷ (6 ∷ 1 ∷ []) ∷ (3 ∷ []) ∷ [])
    ≡ 5 ∷ 6 ∷ 6 ∷ 1 ∷ 3 ∷ []
redact-transparent_example =
    redact-transparent secrets ((5 ∷ 6 ∷ []) ∷ (6 ∷ 1 ∷ []) ∷ (3 ∷ []) ∷ []) (
      unfold new_redactor remote_build_orchestrato.Common.Sort.sort
        remote_build_orchestrato.Common.Sort.insert in
      (refl, (refl, tt)))
