-- ===== src/Paths.antt =====
-- packages/shared/src/paths.ts: the lexical checks of a job's relative paths.
pub mod Containment
mod Scenarios
use remote_build_orchestrato.Common.{
  ℕ, ◌-◌, Bool, true, false, not, ◌&&◌, ◌||◌, List, [], ◌∷◌, map, ltb, leb, ◌==◌, if◌then◌else◌,
  length, take,
}
use remote_build_orchestrato.Common.Text.{
  Text, text, text_eq, is_empty, starts_with, includes_char, split, any,
}

abbrev pub slash : ℕ
slash = b'/'

abbrev backslash : ℕ
backslash = 92

abbrev forward_char : ℕ → ℕ
forward_char c = if c == backslash then slash else c

-- `replace(/\\/g, '/')`.
unfoldable pub forward_slashes : Text → Text
forward_slashes = map forward_char

abbrev upper_char : ℕ → ℕ
upper_char c = if leb b'a' c && leb c b'z' then c - 32 else c

ends_with_slash : Text → Bool
ends_with_slash [] = false
ends_with_slash (c ∷ []) = c == slash
ends_with_slash (c ∷ d ∷ s) = ends_with_slash (d ∷ s)

unfoldable pub normalize_path : Text → Text
unfolding forward_slashes ends_with_slash
normalize_path path =
    let normalized = forward_slashes path in
    if ltb 1 (length normalized) && ends_with_slash normalized
    then take (length normalized - 1) normalized
    else normalized

abbrev pub windows_reserved_names : List Text
windows_reserved_names =
    text "CON"
    ∷ text "PRN"
    ∷ text "AUX"
    ∷ text "NUL"
    ∷ text "COM1"
    ∷ text "COM2"
    ∷ text "COM3"
    ∷ text "COM4"
    ∷ text "COM5"
    ∷ text "COM6"
    ∷ text "COM7"
    ∷ text "COM8"
    ∷ text "COM9"
    ∷ text "LPT1"
    ∷ text "LPT2"
    ∷ text "LPT3"
    ∷ text "LPT4"
    ∷ text "LPT5"
    ∷ text "LPT6"
    ∷ text "LPT7"
    ∷ text "LPT8"
    ∷ text "LPT9"
    ∷ []

-- The part of a segment before its first dot.
unfoldable pub base_name : Text → Text
base_name [] = []
base_name (c ∷ s) = let rest = base_name s in if c == b'.' then [] else c ∷ rest

unfoldable pub is_reserved : Text → Bool
unfolding base_name
is_reserved segment =
    not (is_empty segment)
    && any (text_eq (map upper_char (base_name segment))) windows_reserved_names

unfoldable pub contains_windows_reserved_name : Text → Bool
unfolding forward_slashes split is_reserved
contains_windows_reserved_name path = any is_reserved (split slash (forward_slashes path))

abbrev is_letter : ℕ → Bool
is_letter c = (leb b'a' c && leb c b'z') || (leb b'A' c && leb c b'Z')

-- `/^[a-zA-Z]:/`.
abbrev has_drive : Text → Bool
has_drive [] = false
has_drive (c ∷ []) = false
has_drive (c ∷ d ∷ s) = is_letter c && d == b':'

includes : Text → Text → Bool
includes [] p = is_empty p
includes (c ∷ s) p = starts_with (c ∷ s) p || includes s p

unfoldable pub is_rooted : Text → Bool
unfolding includes
is_rooted normalized =
    starts_with normalized (text "/")
    || starts_with normalized (text "//")
    || starts_with normalized (backslash ∷ backslash ∷ [])
    || has_drive normalized
    || includes normalized (text "://")

abbrev pub is_special : Text → Bool
is_special part = text_eq part [] || text_eq part (text ".") || text_eq part (text "..")

unfoldable pub is_safe_relative_path : Bool → Text → Bool
unfolding is_rooted forward_slashes
is_safe_relative_path allow_dot value =
    let normalized = forward_slashes value in
    if text_eq normalized [] || text_eq normalized (text ".")
    then allow_dot
    else if is_rooted normalized
    then false
    else if any is_special (split slash normalized)
    then false
    else not (contains_windows_reserved_name normalized)
