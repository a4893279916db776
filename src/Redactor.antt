-- ===== src/Redactor.antt =====
-- apps/agent/src/executor/redactor.ts: the StreamRedactor of a job's output. A text is the list of
-- its UTF-16 code units.
pub mod Transparent
mod Scenarios
use remote_build_orchestrato.Common.{
  ℕ, zero, suc, ◌+◌, ◌-◌, Bool, true, false, not, ◌&&◌, ◌||◌, List, [], ◌∷◌, ◌++◌, length, take,
  drop, max, min, leb, ◌==◌, if◌then◌else◌,
}
use remote_build_orchestrato.Common.Text.{keep}
use remote_build_orchestrato.Common.Sort.{sort}

abbrev pub Text : Type 0
Text = List ℕ

abbrev pub starts_with : Text → Text → Bool
starts_with [] t = true
starts_with (c ∷ s) [] = false
starts_with (c ∷ s) (d ∷ t) = c == d && starts_with s t

abbrev pub includes : Text → Text → Bool
includes s [] = starts_with s []
includes s (c ∷ t) = starts_with s (c ∷ t) || includes s t

-- [REDACTED]
abbrev pub marker : Text
marker = 91 ∷ 82 ∷ 69 ∷ 68 ∷ 65 ∷ 67 ∷ 84 ∷ 69 ∷ 68 ∷ 93 ∷ []

-- text.split(secret).join(marker): the occurrences from the left that do not overlap; `skip` is how
-- much of the current one is still to be left out.
abbrev pub split_join : Text → ℕ → Text → Text
split_join s skip [] = []
split_join s (suc skip) (c ∷ t) = split_join s skip t
split_join s zero (c ∷ t) =
    let hidden = split_join s (length s - 1) t in
    let shown = split_join s zero t in if starts_with s (c ∷ t) then marker ++ hidden else c ∷ shown

abbrev pub redact_all : List Text → Text → Text
redact_all [] text = text
redact_all (s ∷ ss) text = redact_all ss (if includes s text then split_join s zero text else text)

pub record StreamRedactor : Type 0 where
  pub secrets : List Text
  pub tail_buffer : Text
  pub max_secret_length : ℕ

abbrev longest : List Text → ℕ
longest [] = 0
longest (s ∷ ss) = max (longest ss) (length s)

abbrev non_empty : Text → Bool
non_empty s = not (length s == 0)

abbrev longer : Text → Text → Bool
longer s t = leb (length t) (length s)

unfoldable pub new_redactor : List Text → StreamRedactor
new_redactor secrets =
    let sorted = sort longer (keep non_empty secrets) in
    record { secrets = sorted; tail_buffer = []; max_secret_length = longest sorted }

abbrev pub no_secrets : List Text → Bool
no_secrets [] = true
no_secrets (s ∷ ss) = false

unfoldable pub redact : StreamRedactor → Text → StreamRedactor × Text
redact r chunk =
    if no_secrets r.secrets
    then (r, chunk)
    else (let redacted = redact_all r.secrets (r.tail_buffer ++ chunk) in
        if leb r.max_secret_length 1
        then (record r { tail_buffer = [] }, redacted)
        else (let output_length =
              length redacted - min (r.max_secret_length - 1) (length redacted) in
            (record r { tail_buffer = drop output_length redacted }, take output_length redacted)))

unfoldable pub flush : StreamRedactor → StreamRedactor × Text
flush r =
    if no_secrets r.secrets || length r.tail_buffer == 0
    then (record r { tail_buffer = [] }, r.tail_buffer)
    else (record r { tail_buffer = [] }, redact_all r.secrets r.tail_buffer)

-- What comes out of a stream, from a state to its end.
abbrev pub redact_chunks : StreamRedactor → List Text → Text
redact_chunks r [] = (flush r).1
redact_chunks r (c ∷ cs) = let (next, out) = redact r c in out ++ redact_chunks next cs
