-- ===== src/Paths/Scenarios.antt =====
-- Paths that a job may and may not name.
use remote_build_orchestrato.Common.{
  ℕ, ◌≡◌, ◌≢◌, refl, Bool, true, false, List, [], ◌∷◌, ◌++◌, take,
}
use remote_build_orchestrato.Common.Text.{Text, text, any, split}
use remote_build_orchestrato.Paths.{
  slash, forward_slashes, is_reserved, is_safe_relative_path, normalize_path,
}
use remote_build_orchestrato.Paths.Containment.{walk, safe_path_contained}

accepts_nested : is_safe_relative_path false (text "crates/core") ≡ true
unfolding is_safe_relative_path remote_build_orchestrato.Common.Text.text_eq
    remote_build_orchestrato.Common.Text.starts_with split
    remote_build_orchestrato.Paths.contains_windows_reserved_name
accepts_nested = refl

refuses_climb : is_safe_relative_path true (text "crates/../../etc") ≡ false
unfolding is_safe_relative_path remote_build_orchestrato.Common.Text.text_eq
    remote_build_orchestrato.Common.Text.starts_with split
refuses_climb = refl

refuses_drive : is_safe_relative_path true (text "C:/Windows") ≡ false
unfolding is_safe_relative_path remote_build_orchestrato.Common.Text.text_eq
    remote_build_orchestrato.Common.Text.starts_with
refuses_drive = refl

refuses_device : is_safe_relative_path true (text "logs/nul.txt") ≡ false
unfolding is_safe_relative_path remote_build_orchestrato.Common.Text.text_eq
    remote_build_orchestrato.Common.Text.starts_with split
    remote_build_orchestrato.Paths.contains_windows_reserved_name
refuses_device = refl

drops_slash : normalize_path (text "crates/core/") ≡ text "crates/core"
unfolding normalize_path
drops_slash = refl

safe_path_contained_example :
    let parts = split slash (forward_slashes (text "crates/core")) in
    (walk (text "work" ∷ []) (take 1 parts) ≡ (text "work" ∷ []) ++ take 1 parts)
    × (any is_reserved parts ≡ false)
    × (text "crates/core" ≢ [])
safe_path_contained_example =
    safe_path_contained (text "crates/core") (text "work" ∷ []) 1 accepts_nested
