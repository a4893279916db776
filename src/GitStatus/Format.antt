-- ===== src/GitStatus/Format.antt =====
-- The lines of git's porcelain format v2 with NUL as the separator, as git documents them. `middle`
-- stands for the modes and the object names of a line, and for the score of a rename.
use remote_build_orchestrato.Common.{ℕ, Option, none, some, List, [], ◌∷◌, ◌++◌}
use remote_build_orchestrato.Common.Text.{Text, text}
use remote_build_orchestrato.GitStatus.{
  nul, space, GitStatusEntry, plain, present, tracked, untracked, ignored,
}
use remote_build_orchestrato.GitStatus.Split.{Free}

pub data GitLine : Type 0 where
  changed : Text → Text → Text → Text → GitLine
  renamed : Text → Text → Text → Text → Text → GitLine
  unmerged : Text → Text → Text → Text → GitLine
  is_untracked is_ignored : Text → GitLine

abbrev pub fields_of : ℕ → Text → Text → Text → Text → Text
fields_of kind xy sub middle path =
    kind ∷ space ∷ (xy ++ space ∷ (sub ++ space ∷ (middle ++ space ∷ path)))

abbrev pub print_line : GitLine → Text → Text
print_line (changed xy sub middle path) rest = fields_of b'1' xy sub middle path ++ nul ∷ rest
print_line (renamed xy sub middle path orig) rest =
    fields_of b'2' xy sub middle path ++ nul ∷ (orig ++ nul ∷ rest)
print_line (unmerged xy sub middle path) rest = fields_of b'u' xy sub middle path ++ nul ∷ rest
print_line (is_untracked path) rest = b'?' ∷ space ∷ path ++ nul ∷ rest
print_line (is_ignored path) rest = b'!' ∷ space ∷ path ++ nul ∷ rest

abbrev pub print : List GitLine → Text
print [] = []
print (l ∷ ls) = print_line l (print ls)

abbrev pub entry_of : Text → Text → Text → Option Text → GitStatusEntry
entry_of xy sub path orig = record {
  path = path;
  orig_path = orig;
  xy = xy;
  kind = tracked;
  submodule = present sub;
}

-- What a line says.
abbrev pub meaning : GitLine → GitStatusEntry
meaning (changed xy sub middle path) = entry_of xy sub path none
meaning (renamed xy sub middle path orig) = entry_of xy sub path (some orig)
meaning (unmerged xy sub middle path) = plain path (text "UU") tracked
meaning (is_untracked path) = plain path (text "??") untracked
meaning (is_ignored path) = plain path (text "!!") ignored

-- No NUL is in the fields.
abbrev pub NoNul : GitLine → Type 0
NoNul (changed xy sub middle path) = Free nul xy × Free nul sub × Free nul middle × Free nul path
NoNul (renamed xy sub middle path orig) =
    Free nul xy × Free nul sub × Free nul middle × Free nul path × Free nul orig
NoNul (unmerged xy sub middle path) = Free nul xy × Free nul sub × Free nul middle × Free nul path
NoNul (is_untracked path) = Free nul path
NoNul (is_ignored path) = Free nul path

-- No space is in the path of a tracked file, and no file is unmerged.
abbrev pub IsSimple : GitLine → Type 0
IsSimple (changed xy sub middle path) = Free space xy × Free space sub × Free space path
IsSimple (renamed xy sub middle path orig) = Free space xy × Free space sub × Free space path
IsSimple (unmerged xy sub middle path) = ⊥
IsSimple _ = Unit

abbrev pub Every : (GitLine → Type 0) → List GitLine → Type 0
Every P [] = Unit
Every P (l ∷ ls) = P l × Every P ls
