-- ===== src/Scheduler/Version.antt =====
-- apps/controller/src/scheduler/index.ts: compareVersionParts and matchesVersionSpec. `Number` is
-- read on the segments that versions have: digits, and the empty segment, which is 0; any other
-- segment is no finite number (signs, hexadecimal and exponents are not modelled).
use remote_build_orchestrato.Common.{
  ℕ, ◌+◌, ◌-◌, ◌*◌, ◌≡◌, refl, ◌⊎◌, Bool, true, false, not, ◌&&◌, ◌||◌, Option, none, some, List,
  [], ◌∷◌, ◌++◌, arith, ltb, ◌==◌, if◌then◌else◌,
}
use remote_build_orchestrato.Common.Text.{
  Text, text, text_eq, text_lt, trim, trim_start, is_empty, starts_with, split, is_digit, all,
  includes_char,
}

digits_value : ℕ → Text → ℕ
digits_value acc [] = acc
digits_value acc (c ∷ s) = digits_value (acc * 10 + (c - b'0')) s

-- `Number(segment)`, where it is finite.
unfoldable pub number : Text → Option ℕ
unfolding digits_value
number s = if all is_digit s then some (digits_value 0 s) else none

-- The sign of a comparison: -1, 0 and 1.
pub data Sign : Type 0 where
  less equal greater : Sign

-- One round of the loop: `none` goes on to the next segment.
abbrev compare_text : Text → Text → Option Sign
compare_text av bv =
    if text_eq av bv then none else (if text_lt av bv then some less else some greater)

unfoldable pub compare_segment : Text → Text → Option Sign
unfolding number
compare_segment av bv = elim (number av) [
  | none ↦ compare_text av bv
  | some an ↦ elim (number bv) [
    | none ↦ compare_text av bv
    | some bn ↦ if an == bn then none else (if ltb an bn then some less else some greater)
  ]
]

abbrev first_of_them : Option Sign → Sign → Sign
first_of_them none rest = rest
first_of_them (some s) rest = s

-- A missing segment reads as '0'.
unfoldable pub compare_segments : List Text → List Text → Sign
unfolding compare_segment
compare_segments [] [] = equal
compare_segments (a ∷ ps) [] = first_of_them (compare_segment a (text "0")) (compare_segments ps [])
compare_segments [] (b ∷ qs) = first_of_them (compare_segment (text "0") b) (compare_segments [] qs)
compare_segments (a ∷ ps) (b ∷ qs) = first_of_them (compare_segment a b) (compare_segments ps qs)

unfoldable pub compare_version_parts : Text → Text → Sign
unfolding compare_segments
compare_version_parts a b = compare_segments (split b'.' a) (split b'.' b)

pub data Op : Type 0 where
  at_least above at_most below : Op

unfoldable pub holds : Op → Sign → Bool
holds at_least less = false
holds at_least equal = true
holds at_least greater = true
holds above less = false
holds above equal = false
holds above greater = true
holds at_most less = true
holds at_most equal = true
holds at_most greater = false
holds below less = true
holds below equal = false
holds below greater = false

-- `.+` matches one character at least, and no line terminator.
range_with : Op → Text → Option (Op × Text)
range_with op rest =
    let target = trim_start rest in
    if is_empty rest || includes_char 10 target || includes_char 13 target
    then none
    else some (op, trim target)

abbrev first_some {ℓ} : {A : Type ℓ} → Option A → Option A → Option A
first_some none b = b
first_some (some a) b = some a

-- /^(>=|<=|>|<)\s*(.+)$/, the alternatives in turn.
unfoldable pub parse_range : Text → Option (Op × Text)
unfolding range_with
parse_range [] = none
parse_range (c ∷ []) = none
parse_range (c ∷ d ∷ rest) =
    if c == b'>'
    then first_some (if d == b'=' then range_with at_least rest else none)
        (range_with above (d ∷ rest))
    else if c == b'<'
    then first_some (if d == b'=' then range_with at_most rest else none)
        (range_with below (d ∷ rest))
    else none

-- /^\d+(?:\.\d+)*$/
unfoldable pub is_dotted_number : Text → Bool
is_dotted_number s = all (λ part. not (is_empty part) && all is_digit part) (split b'.' s)

-- The range, or else the dot-bounded prefix.
match_range : Option (Op × Text) → Text → Text → Bool
match_range (some (op, target)) v trimmed = holds op (compare_version_parts v target)
match_range none v trimmed = is_dotted_number trimmed && starts_with v (trimmed ++ b'.' ∷ [])

unfoldable pub matches_version_spec : Text → Text → Bool
unfolding match_range holds compare_version_parts parse_range is_dotted_number starts_with
matches_version_spec version spec =
    let v = trim version in
    let trimmed = trim spec in
    if is_empty trimmed || text_eq trimmed (text "*") || text_eq trimmed (text "any")
    then true
    else if text_eq v trimmed
    then true
    else match_range (parse_range trimmed) v trimmed

abbrev pub flip : Sign → Sign
flip less = greater
flip equal = equal
flip greater = less

abbrev flip? : Option Sign → Option Sign
flip? none = none
flip? (some s) = some (flip s)

text_lt_total :
    (s t : Text)
    → (text_eq s t ≡ true) × (text_eq t s ≡ true)
      ⊎ (text_eq s t ≡ false) × (text_eq t s ≡ false) × (text_lt s t ≡ not (text_lt t s))
unfolding text_eq text_lt
text_lt_total [] [] = ground arith
text_lt_total [] (b ∷ t) = ground arith
text_lt_total (a ∷ s) [] = ground arith
text_lt_total (a ∷ s) (b ∷ t) = ground (arith, text_lt_total s t)

compare_text-flip : (a b : Text) → compare_text b a ≡ flip? (compare_text a b)
compare_text-flip a b = ground (arith, text_lt_total a b)

compare_segment-flip : (a b : Text) → compare_segment b a ≡ flip? (compare_segment a b)
unfolding compare_segment
compare_segment-flip a b = ground (arith, compare_text-flip a b)

first-flip :
    (s t : Option Sign) (r q : Sign)
    → t ≡ flip? s
    → q ≡ flip r
    → first_of_them t q ≡ flip (first_of_them s r)
first-flip none t r q h k = rw (h, k)
first-flip (some s) t r q h k = rw h

compare_segments-flip : (ps qs : List Text) → compare_segments qs ps ≡ flip (compare_segments ps qs)
unfolding compare_segments
compare_segments-flip [] [] = refl
compare_segments-flip (a ∷ ps) [] =
    first-flip _ _ _ _ (compare_segment-flip a (text "0")) (compare_segments-flip ps [])
compare_segments-flip [] (b ∷ qs) =
    first-flip _ _ _ _ (compare_segment-flip (text "0") b) (compare_segments-flip [] qs)
compare_segments-flip (a ∷ ps) (b ∷ qs) =
    first-flip _ _ _ _ (compare_segment-flip a b) (compare_segments-flip ps qs)

-- Comparing two versions the other way round gives the opposite sign, so `>=` one way is `<=` the
-- other way, and `>` is `<`.
pub compare_version_parts-flip :
    (a b : Text)
    → (holds at_least (compare_version_parts b a) ≡ holds at_most (compare_version_parts a b))
      × (holds above (compare_version_parts b a) ≡ holds below (compare_version_parts a b))
      × (compare_version_parts b a ≡ flip (compare_version_parts a b))
unfolding compare_version_parts holds
compare_version_parts-flip a b = ground (arith, compare_segments-flip (split b'.' a) (split b'.' b))
