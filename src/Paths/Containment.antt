-- ===== src/Paths/Containment.antt =====
-- packages/shared/src/paths.ts: where a path that is judged safe leads.
use remote_build_orchestrato.Common.{
  ℕ, zero, suc, ◌≡◌, ◌≢◌, refl, sym, take, subst, ap, ◌∙◌, Bool, true, false, ◌||◌, List, [], ◌∷◌,
  ◌++◌, arith, if◌then◌else◌,
}
use mathlib.Core.List.{append-nil, append_assoc}
use remote_build_orchestrato.Common.Text.{Text, text, text_eq, any, split}
use remote_build_orchestrato.Paths.{
  slash, forward_slashes, is_special, is_reserved, is_safe_relative_path,
  contains_windows_reserved_name,
}

abbrev parent : List Text → List Text
parent [] = []
parent (d ∷ []) = []
parent (d ∷ e ∷ ds) = d ∷ parent (e ∷ ds)

-- Where the segments of a path lead from a directory, the list of the names down to it: an empty
-- segment and a dot stay, two dots go up, a name goes down.
abbrev pub walk : List Text → List Text → List Text
walk dir [] = dir
walk dir (part ∷ parts) =
    let stay = walk dir parts in
    let up = walk (parent dir) parts in
    let down = walk (dir ++ part ∷ []) parts in
    if text_eq part [] || text_eq part (text ".")
    then stay
    else if text_eq part (text "..")
    then up
    else down

walk_names : (dir parts : List Text) → any is_special parts ≡ false → walk dir parts ≡ dir ++ parts
walk_names dir [] h = sym (append-nil dir)
walk_names dir (part ∷ parts) h =
    ground (arith, walk_names (dir ++ part ∷ []) parts, append_assoc dir (part ∷ []) parts)

any-take :
    {A : Type 0} (p : A → Bool) (n : ℕ) (xs : List A) → any p xs ≡ false → any p (take n xs) ≡ false
any-take p zero xs h = refl
any-take p (suc n) [] h = refl
any-take p (suc n) (x ∷ xs) h = ground (arith, any-take p n xs)

forward_slashes_idem : (s : Text) → forward_slashes (forward_slashes s) ≡ forward_slashes s
unfolding forward_slashes
forward_slashes_idem [] = refl
forward_slashes_idem (c ∷ s) = ground (arith, forward_slashes_idem s)

empty_unsafe : is_safe_relative_path false [] ≡ false
unfolding is_safe_relative_path text_eq
empty_unsafe = refl

-- A path judged safe is not empty, and every prefix of its segments leads from any directory down
-- to the one that the prefix names below it. No segment is a reserved device name of Windows.
pub safe_path_contained :
    (value : Text) (dir : List Text) (n : ℕ)
    → is_safe_relative_path false value ≡ true
    → let parts = split slash (forward_slashes value) in
      (walk dir (take n parts) ≡ dir ++ take n parts)
      × (any is_reserved parts ≡ false)
      × (value ≢ [])
unfolding is_safe_relative_path contains_windows_reserved_name
safe_path_contained value dir n h =
    let parts = split slash (forward_slashes value) in
    let plain : any is_special parts ≡ false = ground arith in
    let devices : contains_windows_reserved_name (forward_slashes value) ≡ false = ground arith in
    let twice = forward_slashes_idem value in
    (
      walk_names dir (take n parts) (any-take is_special n parts plain),
      subst (λ s. any is_reserved (split slash s) ≡ false) twice devices,
      λ e. absurd (ground (arith, sym h ∙ ap (is_safe_relative_path false) e ∙ empty_unsafe)),
    )
