-- ===== src/Redactor/Transparent.antt =====
-- apps/agent/src/executor/redactor.ts: an output without secrets passes unchanged.
use remote_build_orchestrato.Common.{
  ◌-◌, ◌≡◌, refl, sym, ap, subst, ◌∙◌, inl, inr, true, false, List, [], ◌∷◌, ◌++◌, length, min, leb,
  arith, Bool-cases, take-append-drop,
}
use mathlib.Core.List.{append-nil, append_assoc}
use remote_build_orchestrato.Redactor.{
  Text, starts_with, includes, redact_all, StreamRedactor, new_redactor, no_secrets, redact, flush,
  redact_chunks,
}

-- None of the secrets occurs in the text.
abbrev pub Absent : List Text → Text → Type 0
Absent [] text = Unit
Absent (s ∷ ss) text = (includes s text ≡ false) × Absent ss text

abbrev pub joined : List Text → Text
joined [] = []
joined (c ∷ cs) = c ++ joined cs

starts_with-append : (s t u : Text) → starts_with s t ≡ true → starts_with s (t ++ u) ≡ true
starts_with-append [] t u e = refl
starts_with-append (c ∷ s) [] u e = absurd (ground arith)
starts_with-append (c ∷ s) (d ∷ t) u e = ground (arith, starts_with-append s t u)

starts-includes : (s t : Text) → starts_with s t ≡ true → includes s t ≡ true
starts-includes s [] e = e
starts-includes s (c ∷ t) e = ground arith

includes-append : (s t u : Text) → includes s t ≡ true → includes s (t ++ u) ≡ true
includes-append s [] u e = starts-includes s u (starts_with-append s [] u e)
includes-append s (c ∷ t) u e =
    ground (arith, starts_with-append s (c ∷ t) u, includes-append s t u)

includes-after : (s t u : Text) → includes s u ≡ true → includes s (t ++ u) ≡ true
includes-after s [] u e = e
includes-after s (c ∷ t) u e = ground (arith, includes-after s t u e)

append-Absent : (ss : List Text) (t u : Text) → Absent ss (t ++ u) → Absent ss t
append-Absent [] t u h = tt
append-Absent (s ∷ ss) t u (e, h) = (ground (arith, includes-append s t u), append-Absent ss t u h)

after-Absent : (ss : List Text) (t u : Text) → Absent ss (t ++ u) → Absent ss u
after-Absent [] t u h = tt
after-Absent (s ∷ ss) t u (e, h) = (ground (arith, includes-after s t u), after-Absent ss t u h)

redact_all-Absent : (ss : List Text) (t : Text) → Absent ss t → redact_all ss t ≡ t
redact_all-Absent [] t h = refl
redact_all-Absent (s ∷ ss) t (e, h) = rw e (redact_all-Absent ss t h)

flush-Absent : (r : StreamRedactor) → Absent r.secrets r.tail_buffer → (flush r).1 ≡ r.tail_buffer
unfolding flush
flush-Absent r h = ground (arith, redact_all-Absent r.secrets r.tail_buffer h)

-- With secrets, what a call puts out and what it keeps are what it kept before and the chunk.
redact-Absent :
    (r : StreamRedactor) (c : Text)
    → Absent r.secrets (r.tail_buffer ++ c)
    → no_secrets r.secrets ≡ false
    → let (next, out) = redact r c in
      (out ++ next.tail_buffer ≡ r.tail_buffer ++ c) × (next.secrets ≡ r.secrets)
unfolding redact
redact-Absent r c h some_secrets =
    let text = r.tail_buffer ++ c in
    let same = redact_all-Absent r.secrets text h in
    let kept = length text - min (r.max_secret_length - 1) (length text) in
    elim (Bool-cases (leb r.max_secret_length 1)) [
      | inl e ↦ rw (some_secrets, e, same, redact) (append-nil text, refl)
      | inr e ↦ rw (some_secrets, e, same, redact) (take-append-drop kept text, refl)
    ]

chunks-Absent :
    (r : StreamRedactor) (cs : List Text)
    → Absent r.secrets (r.tail_buffer ++ joined cs)
    → no_secrets r.secrets ≡ false
    → redact_chunks r cs ≡ r.tail_buffer ++ joined cs
chunks-Absent r [] h some_secrets =
    flush-Absent r (append-Absent r.secrets r.tail_buffer [] h) ∙ sym (append-nil r.tail_buffer)
chunks-Absent r (c ∷ cs) h some_secrets =
    let next = (redact r c).0 in
    let out = (redact r c).1 in
    let whole = subst (Absent r.secrets) (sym (append_assoc r.tail_buffer c (joined cs))) h in
    let (parts, secrets) =
      redact-Absent r c (append-Absent r.secrets (r.tail_buffer ++ c) (joined cs) whole)
        some_secrets in
    let moved : out ++ (next.tail_buffer ++ joined cs) ≡ r.tail_buffer ++ (c ++ joined cs) =
      sym (append_assoc out next.tail_buffer (joined cs))
      ∙ ap (λ t. t ++ joined cs) parts
      ∙ append_assoc r.tail_buffer c (joined cs) in
    let left =
      after-Absent r.secrets out (next.tail_buffer ++ joined cs)
        (subst (Absent r.secrets) (sym moved) h) in
    ap (λ t. out ++ t)
      (chunks-Absent next cs
        (subst (λ ss. Absent ss (next.tail_buffer ++ joined cs)) (sym secrets) left)
        (ap no_secrets secrets ∙ some_secrets))
    ∙ moved

without-secrets :
    (r : StreamRedactor) (cs : List Text)
    → no_secrets r.secrets ≡ true
    → r.tail_buffer ≡ []
    → redact_chunks r cs ≡ joined cs
unfolding redact flush
without-secrets r [] e t = let left : (flush r).1 ≡ r.tail_buffer = ground arith in left ∙ t
without-secrets r (c ∷ cs) e t =
    let same : redact r c ≡ (r, c) = rw (e, redact) refl in
    ap (λ w. w.1 ++ redact_chunks w.0 cs) same ∙ ap (λ u. c ++ u) (without-secrets r cs e t)

-- If none of the redactor's secrets occurs in the whole output, what comes out of the redactor,
-- however the output is cut into chunks, is the output.
pub redact-transparent :
    (secrets cs : List Text)
    → Absent (new_redactor secrets).secrets (joined cs)
    → redact_chunks (new_redactor secrets) cs ≡ joined cs
unfolding new_redactor
redact-transparent secrets cs h =
    let r = new_redactor secrets in
    elim (Bool-cases (no_secrets r.secrets)) [
      | inl e ↦ without-secrets r cs e refl
      | inr e ↦ chunks-Absent r cs h e
    ]
