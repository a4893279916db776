-- ===== src/GitStatus/RoundTrip.antt =====
-- packages/snapshot/src/git-status.ts: what git prints of simple paths is read back.
use remote_build_orchestrato.Common.{
  ℕ, zero, suc, ◌≤◌, ◌≡◌, refl, ap, ◌∙◌, false, Option, none, some, List, [], ◌∷◌, ◌++◌, ◌==◌, map,
  arith, length, length-append,
}
use remote_build_orchestrato.Common.Text.{Text, split}
use remote_build_orchestrato.GitStatus.{
  nul, space, read_line, parse_lines, parse_porcelain_v2, last_or_empty, changed_entry,
}
use remote_build_orchestrato.GitStatus.Split.{
  Free, append-Free, next_field-append, split-append, split-Free, split-last_part, parse_lines-line,
}
use remote_build_orchestrato.GitStatus.Format.{
  GitLine, changed, renamed, unmerged, is_untracked, is_ignored, fields_of, print_line, print,
  entry_of, meaning, NoNul, IsSimple, Every,
}

pub fields_of-Free :
    (k : ℕ) (xy sub middle path : Text)
    → k == nul ≡ false
    → Free nul xy
    → Free nul sub
    → Free nul middle
    → Free nul path
    → Free nul (fields_of k xy sub middle path)
fields_of-Free k xy sub middle path e a b c d =
    let tail = append-Free nul middle (space ∷ path) c (refl, d) in
    let after = append-Free nul sub (space ∷ (middle ++ space ∷ path)) b (refl, tail) in
    (
      e,
      (
        refl,
        append-Free nul xy (space ∷ (sub ++ space ∷ (middle ++ space ∷ path))) a (refl, after),
      ),
    )

pub split-fields_of :
    (k : ℕ) (xy sub middle path : Text)
    → k == space ≡ false
    → Free space xy
    → Free space sub
    → split space (fields_of k xy sub middle path)
      ≡ (k ∷ []) ∷ xy ∷ sub ∷ split space (middle ++ space ∷ path)
unfolding split
split-fields_of k xy sub middle path e a b =
    rw
      (
        e,
        split-append space xy (sub ++ space ∷ (middle ++ space ∷ path)) a,
        split-append space sub (middle ++ space ∷ path) b,
      )
      refl

-- The entry of a tracked file has the part of its path after the last space.
pub changed_entry-last :
    (k : ℕ) (xy sub middle path : Text) (orig : Option Text)
    → k == space ≡ false
    → Free space xy
    → Free space sub
    → changed_entry (split space (fields_of k xy sub middle path)) orig
      ≡ entry_of xy sub (last_or_empty (split space path)) orig
changed_entry-last k xy sub middle path orig e a b =
    let (p, q, ps, parts, last) = split-last_part space middle path in
    ap (λ fs. changed_entry fs orig)
      (split-fields_of k xy sub middle path e a b ∙ ap (λ fs. (k ∷ []) ∷ xy ∷ sub ∷ fs) parts)
    ∙ ap (λ l. entry_of xy sub l orig) last

pub last-path : (path : Text) → Free space path → last_or_empty (split space path) ≡ path
last-path path h = ap last_or_empty (split-Free space path h)

-- A line that git prints, with any output after it, is read as what it says.
print_line-read :
    (l : GitLine) (f : ℕ) (rest : Text)
    → NoNul l
    → IsSimple l
    → length (print_line l rest) ≤ f
    → parse_lines f (print_line l rest) ≡ meaning l ∷ parse_lines f rest
unfolding read_line
print_line-read (changed xy sub middle path) f rest (a, b, c, d) (x, y, z) h =
    parse_lines-line f b'1' (space ∷ (xy ++ space ∷ (sub ++ space ∷ (middle ++ space ∷ path)))) rest
      (fields_of-Free b'1' xy sub middle path refl a b c d) h
    ∙ ap (λ e. e ∷ parse_lines f rest)
        (changed_entry-last b'1' xy sub middle path none refl x y
          ∙ ap (λ p. entry_of xy sub p none) (last-path path z))
print_line-read (renamed xy sub middle path orig) f rest (a, b, c, d, o) (x, y, z) h =
    parse_lines-line f b'2' (space ∷ (xy ++ space ∷ (sub ++ space ∷ (middle ++ space ∷ path))))
      (orig ++ nul ∷ rest) (fields_of-Free b'2' xy sub middle path refl a b c d) h
    ∙ ap
        (λ (w : Text × Text).
          changed_entry (split space (fields_of b'2' xy sub middle path)) (some w.0)
          ∷ parse_lines f w.1)
        (next_field-append orig rest o)
    ∙ ap (λ e. e ∷ parse_lines f rest)
        (changed_entry-last b'2' xy sub middle path (some orig) refl x y
          ∙ ap (λ p. entry_of xy sub p (some orig)) (last-path path z))
print_line-read (unmerged xy sub middle path) f rest n s h = absurd s
print_line-read (is_untracked path) f rest n s h =
    parse_lines-line f b'?' (space ∷ path) rest (refl, (refl, n)) h
print_line-read (is_ignored path) f rest n s h =
    parse_lines-line f b'!' (space ∷ path) rest (refl, (refl, n)) h

print_line-longer : (l : GitLine) (rest : Text) → length rest ≤ length (print_line l rest)
print_line-longer (changed xy sub middle path) rest =
    omega (arith, length-append (fields_of b'1' xy sub middle path) (nul ∷ rest))
print_line-longer (renamed xy sub middle path orig) rest = omega (
  arith,
  length-append (fields_of b'2' xy sub middle path) (nul ∷ (orig ++ nul ∷ rest)),
  length-append orig (nul ∷ rest),
)
print_line-longer (unmerged xy sub middle path) rest =
    omega (arith, length-append (fields_of b'u' xy sub middle path) (nul ∷ rest))
print_line-longer (is_untracked path) rest = omega (arith, length-append path (nul ∷ rest))
print_line-longer (is_ignored path) rest = omega (arith, length-append path (nul ∷ rest))

print-read :
    (f : ℕ) (ls : List GitLine)
    → Every NoNul ls
    → Every IsSimple ls
    → length (print ls) ≤ f
    → parse_lines f (print ls) ≡ map meaning ls
unfolding parse_lines
print-read zero [] n s h = refl
print-read (suc f) [] n s h = refl
print-read f (l ∷ ls) (n, ns) (s, ss) h =
    let shorter = print_line-longer l (print ls) in
    print_line-read l f (print ls) n s h
    ∙ ap (λ es. meaning l ∷ es) (print-read f ls ns ss (omega arith))

-- What git prints is read back, line by line, if no field has a NUL in it, no status, submodule
-- state or path of a tracked file has a space in it, and no file is unmerged. The paths of untracked
-- and ignored files, and the one that a file was renamed from, may have spaces.
pub parse-print :
    (ls : List GitLine)
    → Every NoNul ls
    → Every IsSimple ls
    → parse_porcelain_v2 (print ls) ≡ map meaning ls
unfolding parse_porcelain_v2
parse-print ls n s = print-read (length (print ls)) ls n s (omega arith)
