-- ===== src/GitStatus/Split.antt =====
-- packages/snapshot/src/git-status.ts: fields that have no separator in them.
use remote_build_orchestrato.Common.{
  ℕ, zero, suc, ◌≤◌, ◌≡◌, refl, sym, ap, ◌∙◌, inl, inr, false, List, [], ◌∷◌, ◌++◌, ◌==◌, arith,
  Bool-cases, length, length-append,
}
use remote_build_orchestrato.Common.Text.{Text, split}
use remote_build_orchestrato.GitStatus.{
  nul, next_field, read_line, parse_lines, prepend, last_or_empty,
}

-- The character does not occur in the text.
abbrev pub Free : ℕ → Text → Type 0
Free c [] = Unit
Free c (x ∷ s) = (x == c ≡ false) × Free c s

pub append-Free : (c : ℕ) (s t : Text) → Free c s → Free c t → Free c (s ++ t)
append-Free c [] t h k = k
append-Free c (x ∷ s) t (e, h) k = (e, append-Free c s t h k)

pub next_field-append :
    (line rest : Text) → Free nul line → next_field (line ++ nul ∷ rest) ≡ (line, rest)
next_field-append [] rest h = refl
next_field-append (c ∷ line) rest (e, h) = rw (e, next_field-append line rest h) refl

pub split-append : (sep : ℕ) (a b : Text) → Free sep a → split sep (a ++ sep ∷ b) ≡ a ∷ split sep b
unfolding split
split-append sep [] b h = ground arith
split-append sep (c ∷ a) b (e, h) = rw (e, split-append sep a b h) refl

pub split-Free : (sep : ℕ) (a : Text) → Free sep a → split sep a ≡ a ∷ []
unfolding split
split-Free sep [] h = refl
split-Free sep (c ∷ a) (e, h) = rw (e, split-Free sep a h) refl

split-cons : (sep : ℕ) (s : Text) → (p : Text) × (ps : List Text) × (split sep s ≡ p ∷ ps)
unfolding split
split-cons sep [] = ([], [], refl)
split-cons sep (c ∷ s) =
    let (p, ps, e) = split-cons sep s in
    elim (Bool-cases (c == sep)) [
      | inl q ↦ ([], p ∷ ps, ground arith)
      | inr q ↦ (c ∷ p, ps, ground arith)
    ]

-- The parts before a separator do not matter for the last part.
pub split-last_part :
    (sep : ℕ) (a b : Text)
    → (p q : Text) × (ps : List Text) × (split sep (a ++ sep ∷ b) ≡ p ∷ q ∷ ps)
      × (last_or_empty (q ∷ ps) ≡ last_or_empty (split sep b))
unfolding split
split-last_part sep [] b =
    let (p, ps, e) = split-cons sep b in ([], p, ps, ground arith, ap last_or_empty (sym e))
split-last_part sep (c ∷ a) b =
    let (p, q, ps, e, last) = split-last_part sep a b in
    elim (Bool-cases (c == sep)) [
      | inl here ↦ ([], p, q ∷ ps, ground arith, last)
      | inr there ↦ (c ∷ p, q, ps, ground arith, last)
    ]

pub last-split_append :
    (sep : ℕ) (a b : Text) → last_or_empty (split sep (a ++ sep ∷ b)) ≡ last_or_empty (split sep b)
last-split_append sep a b = let (p, q, ps, e, last) = split-last_part sep a b in rw e last

next_field-le : (c : ℕ) (buf : Text) → length (next_field (c ∷ buf)).1 ≤ length buf
next_field-le c [] = ground arith
next_field-le c (d ∷ buf) = ground (arith, next_field-le d buf)

next_field_le : (buf : Text) → length (next_field buf).1 ≤ length buf
next_field_le [] = omega arith
next_field_le (c ∷ buf) = omega (arith, next_field-le c buf)

read_line-le : (line rest : Text) → length (read_line line rest).1 ≤ length rest
unfolding read_line
read_line-le [] rest = omega arith
read_line-le (c ∷ s) rest = ground (arith, next_field_le rest)

-- Any fuel from the length of the output on gives the same entries.
pub parse_lines_enough :
    (f g : ℕ) (buf : Text) → length buf ≤ f → length buf ≤ g → parse_lines f buf ≡ parse_lines g buf
unfolding parse_lines
parse_lines_enough zero zero buf h k = refl
parse_lines_enough zero (suc g) [] h k = refl
parse_lines_enough (suc f) zero [] h k = refl
parse_lines_enough (suc f) (suc g) [] h k = refl
parse_lines_enough zero (suc g) (c ∷ buf) h k = absurd (omega arith)
parse_lines_enough (suc f) zero (c ∷ buf) h k = absurd (omega arith)
parse_lines_enough (suc f) (suc g) (c ∷ buf) h k =
    let (line, rest) = next_field (c ∷ buf) in
    let (entry, later) = read_line line rest in
    let short = next_field-le c buf in
    let shorter = read_line-le line rest in
    ap (prepend entry) (parse_lines_enough f g later (omega arith) (omega arith))

-- The next line of the output is read, and then what it leaves.
pub parse_lines-line :
    (f c : ℕ) (line rest : Text)
    → Free nul (c ∷ line)
    → length (c ∷ line ++ nul ∷ rest) ≤ f
    → let (entry, later) = read_line (c ∷ line) rest in
      parse_lines f (c ∷ line ++ nul ∷ rest) ≡ prepend entry (parse_lines f later)
unfolding parse_lines
parse_lines-line zero c line rest h k = absurd (omega arith)
parse_lines-line (suc f) c line rest h k =
    let later = (read_line (c ∷ line) rest).1 in
    let shorter = read_line-le (c ∷ line) rest in
    let within = length-append line (nul ∷ rest) in
    ap (λ (w : Text × Text). prepend (read_line w.0 w.1).0 (parse_lines f (read_line w.0 w.1).1))
      (next_field-append (c ∷ line) rest h)
    ∙ ap (prepend (read_line (c ∷ line) rest).0)
        (parse_lines_enough f (suc f) later (omega arith) (omega arith))
