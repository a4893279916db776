-- ===== src/GitStatus.antt =====
-- packages/snapshot/src/git-status.ts: the readers of git's NUL-separated output and the choice of a
-- remote. A text is the list of its bytes: git's paths are taken to be UTF-8, which `toString` keeps.
-- The loop on offsets is a loop on the fields that NUL ends, of which a last one may lack its NUL.
pub mod Split
pub mod Format
pub mod RoundTrip
pub mod Misread
pub mod Remotes
mod Scenarios
use remote_build_orchestrato.Common.{
  ℕ, zero, suc, Bool, true, false, not, ◌&&◌, ◌||◌, Option, none, some, List, [], ◌∷◌, ◌++◌, drop,
  ◌==◌, if◌then◌else◌, length,
}
use remote_build_orchestrato.Common.Text.{Text, text, split, keep, text_eq}

abbrev pub nul : ℕ
nul = 0

abbrev pub space : ℕ
space = 32

abbrev pub tab : ℕ
tab = 9

-- The next field, and what follows its NUL.
abbrev pub next_field : Text → Text × Text
next_field [] = ([], [])
next_field (c ∷ s) =
    let (field, rest) = next_field s in if c == nul then ([], s) else (c ∷ field, rest)

pub data EntryKind : Type 0 where
  tracked untracked ignored : EntryKind

pub record GitStatusEntry : Type 0 where
  pub path : Text
  pub orig_path : Option Text
  pub xy : Text
  pub kind : EntryKind
  pub submodule : Option Text

abbrev pub last_or_empty : List Text → Text
last_or_empty [] = []
last_or_empty (x ∷ []) = x
last_or_empty (x ∷ y ∷ xs) = last_or_empty (y ∷ xs)

-- fields[1] ?? ''
abbrev pub second_or_empty : List Text → Text
second_or_empty (x ∷ y ∷ xs) = y
second_or_empty _ = []

abbrev pub present : Text → Option Text
present [] = none
present (c ∷ s) = some (c ∷ s)

abbrev pub submodule_of : List Text → Option Text
submodule_of (x ∷ y ∷ z ∷ xs) = present z
submodule_of _ = none

abbrev pub plain : Text → Text → EntryKind → GitStatusEntry
plain path xy kind = record {
  path = path;
  orig_path = none;
  xy = xy;
  kind = kind;
  submodule = none;
}

abbrev pub changed_entry : List Text → Option Text → GitStatusEntry
changed_entry fields orig = record {
  path = last_or_empty fields;
  orig_path = orig;
  xy = second_or_empty fields;
  kind = tracked;
  submodule = submodule_of fields;
}

pub data LineKind : Type 0 where
  untracked_line ignored_line changed_line renamed_line unmerged_line other_line : LineKind

abbrev pub line_kind : ℕ → LineKind
line_kind c =
    if c == b'?'
    then untracked_line
    else if c == b'!'
    then ignored_line
    else if c == b'1'
    then changed_line
    else if c == b'2'
    then renamed_line
    else if c == b'u'
    then unmerged_line
    else other_line

-- What a line stands for, and what is left of the output after it and the field that it takes.
unfoldable pub read_line : Text → Text → Option GitStatusEntry × Text
read_line [] rest = (none, rest)
read_line (c ∷ s) rest = elim (line_kind c) [
  | untracked_line ↦ (some (plain (drop 2 (c ∷ s)) (text "??") untracked), rest)
  | ignored_line ↦ (some (plain (drop 2 (c ∷ s)) (text "!!") ignored), rest)
  | changed_line ↦ (some (changed_entry (split space (c ∷ s)) none), rest)
  | renamed_line ↦
      let (orig, after) = next_field rest in
      (some (changed_entry (split space (c ∷ s)) (some orig)), after)
  | unmerged_line ↦ (some (plain (second_or_empty (split tab (c ∷ s))) (text "UU") tracked), rest)
  | other_line ↦ (none, rest)
]

abbrev pub prepend {ℓ} : {A : Type ℓ} → Option A → List A → List A
prepend none xs = xs
prepend (some x) xs = x ∷ xs

-- The loop. A round takes a byte at least, so that the length of the output is fuel enough.
unfoldable pub parse_lines : ℕ → Text → List GitStatusEntry
parse_lines zero buf = []
parse_lines (suc fuel) [] = []
parse_lines (suc fuel) (c ∷ buf) =
    let (line, rest) = next_field (c ∷ buf) in
    let (entry, later) = read_line line rest in prepend entry (parse_lines fuel later)

unfoldable pub parse_porcelain_v2 : Text → List GitStatusEntry
parse_porcelain_v2 output = parse_lines (length output) output

unfoldable pub nul_paths : ℕ → Text → List Text
nul_paths zero buf = []
nul_paths (suc fuel) [] = []
nul_paths (suc fuel) (c ∷ buf) =
    let (path, rest) = next_field (c ∷ buf) in prepend (present path) (nul_paths fuel rest)

unfoldable pub parse_nul_separated_paths : Text → List Text
parse_nul_separated_paths output = nul_paths (length output) output

pub record GitRemoteFetchUrl : Type 0 where
  pub name : Text
  pub url : Text

abbrev pub is_origin : GitRemoteFetchUrl → Bool
is_origin r = text_eq r.name (text "origin")

unfoldable pub order_remotes_prefer_origin : List GitRemoteFetchUrl → List GitRemoteFetchUrl
order_remotes_prefer_origin remotes =
    keep is_origin remotes ++ keep (λ r. not (is_origin r)) remotes

abbrev pub first_allowed : (Text → Bool) → List GitRemoteFetchUrl → Option Text
first_allowed allowed [] = none
first_allowed allowed (r ∷ rs) = if allowed r.url then some r.url else first_allowed allowed rs

-- `remotes` is what `git remote -v` lists, `allowed` the allowlist.
unfoldable pub resolve_allowlisted_remote_url : List GitRemoteFetchUrl → (Text → Bool) → Option Text
resolve_allowlisted_remote_url remotes allowed =
    first_allowed allowed (order_remotes_prefer_origin remotes)
