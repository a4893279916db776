-- ===== src/GitStatus/Misread.antt =====
-- packages/snapshot/src/git-status.ts: the lines that are misread.
use remote_build_orchestrato.Common.{◌≡◌, refl, ap, ◌∙◌, none, [], ◌∷◌, ◌++◌, arith, length}
use remote_build_orchestrato.Common.Text.{Text, text}
use remote_build_orchestrato.GitStatus.{
  space, tab, read_line, parse_lines, parse_porcelain_v2, plain, tracked,
}
use remote_build_orchestrato.GitStatus.Split.{Free, split-Free, last-split_append, parse_lines-line}
use remote_build_orchestrato.GitStatus.Format.{
  changed, unmerged, fields_of, print_line, entry_of, NoNul,
}
use remote_build_orchestrato.GitStatus.RoundTrip.{fields_of-Free, changed_entry-last, last-path}

-- A changed file whose path has a space in it, at the start of the output: only what follows the
-- last space is taken for its path.
pub path-cut :
    (xy sub middle dir name rest : Text)
    → NoNul (changed xy sub middle (dir ++ space ∷ name))
    → Free space xy
    → Free space sub
    → Free space name
    → let output = print_line (changed xy sub middle (dir ++ space ∷ name)) rest in
      parse_porcelain_v2 output ≡ entry_of xy sub name none ∷ parse_lines (length output) rest
unfolding parse_porcelain_v2 read_line
path-cut xy sub middle dir name rest (a, b, c, d) x y z =
    let path = dir ++ space ∷ name in
    let output = print_line (changed xy sub middle path) rest in
    parse_lines-line (length output) b'1'
      (space ∷ (xy ++ space ∷ (sub ++ space ∷ (middle ++ space ∷ path)))) rest
      (fields_of-Free b'1' xy sub middle path refl a b c d) (omega arith)
    ∙ ap (λ e. e ∷ parse_lines (length output) rest)
        (changed_entry-last b'1' xy sub middle path none refl x y
          ∙ ap (λ p. entry_of xy sub p none) (last-split_append space dir name ∙ last-path name z))

-- A file that is unmerged, at the start of the output, with no tab in its line: its path is lost.
unmerged-lost :
    (xy sub middle path rest : Text)
    → NoNul (unmerged xy sub middle path)
    → Free tab (fields_of b'u' xy sub middle path)
    → let output = print_line (unmerged xy sub middle path) rest in
      parse_porcelain_v2 output ≡ plain [] (text "UU") tracked ∷ parse_lines (length output) rest
unfolding parse_porcelain_v2 read_line
unmerged-lost xy sub middle path rest (a, b, c, d) free =
    let output = print_line (unmerged xy sub middle path) rest in
    parse_lines-line (length output) b'u'
      (space ∷ (xy ++ space ∷ (sub ++ space ∷ (middle ++ space ∷ path)))) rest
      (fields_of-Free b'u' xy sub middle path refl a b c d) (omega arith)
    ∙ rw (split-Free tab (fields_of b'u' xy sub middle path) free) refl
