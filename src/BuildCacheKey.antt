-- ===== src/BuildCacheKey.antt =====
-- packages/shared/src/build-cache-key.ts: the opaque identity of a build cache. The digest of
-- `node:crypto` is a parameter. Texts are ASCII: `JSON.stringify` escapes the quotation mark, the
-- backslash and the control characters.
use remote_build_orchestrato.Common.{
  ℕ, ◌+◌, ◌-◌, ◌/◌, ◌%◌, List, [], ◌∷◌, ◌++◌, ltb, ◌==◌, if◌then◌else◌, take,
}
use remote_build_orchestrato.Common.Text.{Text, text}

pub record KeyInput : Type 0 where
  pub kind : Text
  pub toolchain_profile_id : Text
  pub toolchain_fingerprint : Text
  pub os_family : Text
  pub arch : Text
  pub project_identity : Text

hex_digit : ℕ → ℕ
hex_digit n = if ltb n 10 then b'0' + n else b'a' + (n - 10)

escape : ℕ → Text
unfolding hex_digit
escape c =
    if c == 34
    then 92 ∷ 34 ∷ []
    else if c == 92
    then 92 ∷ 92 ∷ []
    else if c == 8
    then text "\\b"
    else if c == 9
    then text "\\t"
    else if c == 10
    then text "\\n"
    else if c == 12
    then text "\\f"
    else if c == 13
    then text "\\r"
    else if ltb c 32
    then text "\\u00" ++ hex_digit (c / 16) ∷ hex_digit (c % 16) ∷ []
    else c ∷ []

escape_all : Text → Text
escape_all [] = []
escape_all (c ∷ s) = escape c ++ escape_all s

quoted : Text → Text
quoted s = 34 ∷ (escape_all s ++ 34 ∷ [])

-- The members of an object, without its braces.
members : List (Text × Text) → Text
members [] = []
members ((k, v) ∷ []) = quoted k ++ b':' ∷ quoted v
members ((k, v) ∷ (k', v') ∷ rest) =
    quoted k ++ (b':' ∷ (quoted v ++ b',' ∷ members ((k', v') ∷ rest)))

-- The keys are written in their sorted order.
unfoldable pub canonical_json : KeyInput → Text
unfolding members quoted escape_all escape
canonical_json i =
    b'{'
    ∷ (members (
          (text "arch", i.arch)
          ∷ (text "kind", i.kind)
          ∷ (text "osFamily", i.os_family)
          ∷ (text "projectIdentity", i.project_identity)
          ∷ (text "toolchainFingerprint", i.toolchain_fingerprint)
          ∷ (text "toolchainProfileId", i.toolchain_profile_id)
          ∷ [])
        ++ b'}' ∷ [])

unfoldable pub compute_build_cache_key : (Text → Text) → KeyInput → Text
unfolding canonical_json
compute_build_cache_key sha256 i = i.kind ++ b'_' ∷ take 32 (sha256 (canonical_json i))
