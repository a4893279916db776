-- ===== src/GitStatus/Remotes.antt =====
-- packages/snapshot/src/git-status.ts: which remote a Controller tells the Agents to fetch from.
use remote_build_orchestrato.Common.{
  ◌≡◌, refl, sym, ap, ◌∙◌, inl, inr, Bool, true, not, some, List, [], ◌∷◌, ◌++◌, arith, Bool-cases,
}
use remote_build_orchestrato.Common.Sort.{In}
use remote_build_orchestrato.Common.Text.{Text, text, text_eq, text_eq_refl, keep}
use remote_build_orchestrato.GitStatus.{
  GitRemoteFetchUrl, is_origin, order_remotes_prefer_origin, first_allowed,
  resolve_allowlisted_remote_url,
}

first_allowed-In :
    (allowed : Text → Bool) (rs : List GitRemoteFetchUrl) (u : Text)
    → first_allowed allowed rs ≡ some u
    → (r : GitRemoteFetchUrl) × In r rs × (r.url ≡ u) × (allowed r.url ≡ true)
first_allowed-In allowed [] u e = absurd (ground arith)
first_allowed-In allowed (r ∷ rs) u e = elim (Bool-cases (allowed r.url)) [
  | inl yes_is ↦ (r, inl refl, ground arith, yes_is)
  | inr no_is ↦
      let (s, m, same, good) = first_allowed-In allowed rs u (ground arith) in
      (s, inr m, same, good)
]

first_allowed-append :
    (allowed : Text → Bool) (rs ss : List GitRemoteFetchUrl) (u : Text)
    → first_allowed allowed rs ≡ some u
    → first_allowed allowed (rs ++ ss) ≡ some u
first_allowed-append allowed [] ss u e = absurd (ground arith)
first_allowed-append allowed (r ∷ rs) ss u e = ground (arith, first_allowed-append allowed rs ss u)

-- A list with an allowed remote has a first one.
first_allowed-some :
    (allowed : Text → Bool) (rs : List GitRemoteFetchUrl) (r : GitRemoteFetchUrl)
    → In r rs
    → allowed r.url ≡ true
    → (u : Text) × (first_allowed allowed rs ≡ some u)
first_allowed-some allowed [] r m e = absurd m
first_allowed-some allowed (s ∷ rs) r m e = elim (Bool-cases (allowed s.url)) [
  | inl good ↦ (s.url, ground arith)
  | inr bad ↦ elim m [
    | inl same ↦ absurd (ground (arith, ap (λ (x : GitRemoteFetchUrl). allowed x.url) same))
    | inr m' ↦ let (u, found) = first_allowed-some allowed rs r m' e in (u, ground arith)
  ]
]

In-keep :
    (p : GitRemoteFetchUrl → Bool) (rs : List GitRemoteFetchUrl) (r : GitRemoteFetchUrl)
    → In r (keep p rs)
    → In r rs × (p r ≡ true)
In-keep p [] r m = absurd m
In-keep p (s ∷ rs) r m = elim (Bool-cases (p s)) [
  | inl e ↦
      let m' : In r (s ∷ keep p rs) = rw e at m in
      elim m' [
        | inl same ↦ (inl same, ap p same ∙ e)
        | inr later ↦ let (there, holds) = In-keep p rs r later in (inr there, holds)
      ]
  | inr e ↦
      let m' : In r (keep p rs) = rw e at m in
      let (there, holds) = In-keep p rs r m' in (inr there, holds)
]

keep-In :
    (p : GitRemoteFetchUrl → Bool) (rs : List GitRemoteFetchUrl) (r : GitRemoteFetchUrl)
    → In r rs
    → p r ≡ true
    → In r (keep p rs)
keep-In p [] r m e = absurd m
keep-In p (s ∷ rs) r m e = elim (Bool-cases (p s)) [
  | inl q ↦ rw q (elim m [ inl same ↦ inl same | inr later ↦ inr (keep-In p rs r later e) ])
  | inr q ↦ rw q (elim m [
    | inl same ↦ absurd (ground (arith, ap p same))
    | inr later ↦ keep-In p rs r later e
  ])
]

-- Where `origin` is among the remotes and its URL is allowed, the URL that is chosen is allowed and
-- is that of a remote of this name.
origin_preferred :
    (allowed : Text → Bool) (remotes : List GitRemoteFetchUrl) (r : GitRemoteFetchUrl)
    → In r remotes
    → r.name ≡ text "origin"
    → allowed r.url ≡ true
    → (s : GitRemoteFetchUrl) × (resolve_allowlisted_remote_url remotes allowed ≡ some s.url)
      × In s remotes
      × (is_origin s ≡ true)
      × (allowed s.url ≡ true)
unfolding resolve_allowlisted_remote_url order_remotes_prefer_origin
origin_preferred allowed remotes r m named good =
    let origins = keep is_origin remotes in
    let others = keep (λ s. not (is_origin s)) remotes in
    let origin : is_origin r ≡ true =
      ap (λ n. text_eq n (text "origin")) named ∙ text_eq_refl (text "origin") in
    let (u, found) =
      first_allowed-some allowed origins r (keep-In is_origin remotes r m origin) good in
    let (s, there, same, allows) = first_allowed-In allowed origins u found in
    let (kept, is) = In-keep is_origin remotes s there in
    (
      s,
      first_allowed-append allowed origins others u found ∙ ap (λ v. some v) (sym same),
      kept,
      is,
      allows,
    )
