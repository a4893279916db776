-- ===== src/GitStatus/Scenarios.antt =====
-- A file that is changed, one that is renamed, an untracked one with a space in its path.
use remote_build_orchestrato.Common.{
  ◌≡◌, refl, Bool, true, none, some, List, [], ◌∷◌, ◌++◌, map, arith, length,
}
use remote_build_orchestrato.Common.Text.{Text, text}
use remote_build_orchestrato.GitStatus.{
  GitRemoteFetchUrl, resolve_allowlisted_remote_url, parse_porcelain_v2, parse_lines, plain,
  tracked, parse_nul_separated_paths, nul_paths,
}
use remote_build_orchestrato.GitStatus.Format.{
  GitLine, changed, renamed, is_untracked, print, print_line, meaning, entry_of,
}
use remote_build_orchestrato.GitStatus.RoundTrip.{parse-print}
use remote_build_orchestrato.GitStatus.Misread.{path-cut}

abbrev modes : Text
modes = text "100644 100644 100644 e69de29 e69de29"

abbrev lines : List GitLine
lines =
    changed (text ".M") (text "N...") modes (text "a.txt")
    ∷ renamed (text "R.") (text "N...") modes (text "new.txt") (text "an old.txt")
    ∷ is_untracked (text "my notes.txt")
    ∷ []

parse-print_example : parse_porcelain_v2 (print lines) ≡ map meaning lines
parse-print_example = parse-print lines (ground arith) (ground arith)

path-cut_example :
    let output = print_line (changed (text ".M") (text "N...") modes (text "my notes.txt")) [] in
    parse_porcelain_v2 output
    ≡ entry_of (text ".M") (text "N...") (text "notes.txt") none ∷ parse_lines (length output) []
path-cut_example =
    path-cut (text ".M") (text "N...") modes (text "my") (text "notes.txt") [] (ground arith)
      (ground arith) (ground arith) (ground arith)

splits_paths :
    parse_nul_separated_paths (text "a" ++ 0 ∷ 0 ∷ text "b/c") ≡ text "a" ∷ text "b/c" ∷ []
unfolding parse_nul_separated_paths nul_paths
splits_paths = refl

abbrev mirror : GitRemoteFetchUrl
mirror = record { name = text "mirror"; url = text "https://m" }

abbrev origin : GitRemoteFetchUrl
origin = record { name = text "origin"; url = text "https://o" }

abbrev any_url : Text → Bool
any_url url = true

origin_first :
    resolve_allowlisted_remote_url (mirror ∷ origin ∷ []) any_url ≡ some (text "https://o")
unfolding resolve_allowlisted_remote_url
    remote_build_orchestrato.GitStatus.order_remotes_prefer_origin
    remote_build_orchestrato.Common.Text.text_eq
origin_first = refl
