-- ===== src/Common/Rows.antt =====
-- A table with a numeric primary key, as the list of its rows in the order of their insertion.
use remote_build_orchestrato.Common.{
  ℕ, ◌≡◌, refl, sym, ap, subst, ◌∙◌, inl, inr, Bool, true, false, ◌||◌, Option, none, some, List,
  [], ◌∷◌, ◌++◌, arith, ◌==◌, if◌then◌else◌, Bool-cases, ==_iff,
}

abbrev pub mapped {ℓ} : {A : Type ℓ} → (A → A) → Option A → Option A
mapped change none = none
mapped change (some r) = some (change r)

module _ {ℓ} {A : Type ℓ} (key : A → ℕ) where
  abbrev pub has_row : ℕ → List A → Bool
  has_row k [] = false
  has_row k (r ∷ rs) = key r == k || has_row k rs

  abbrev pub find_row : ℕ → List A → Option A
  find_row k [] = none
  find_row k (r ∷ rs) = if key r == k then some r else find_row k rs

  -- UPDATE … WHERE the key is `k`.
  abbrev pub update_row : ℕ → (A → A) → List A → List A
  update_row k change [] = []
  update_row k change (r ∷ rs) = (if key r == k then change r else r) ∷ update_row k change rs

  -- What holds of the rows under a key.
  abbrev pub EveryRow {κ} : (A → Type κ) → ℕ → List A → Type κ
  EveryRow P k [] = Unit
  EveryRow P k (r ∷ rs) = (key r ≡ k → P r) × EveryRow P k rs

  pub find_row-EveryRow {κ} :
      (P : A → Type κ) (k : ℕ) (rs : List A) (r : A)
      → EveryRow P k rs
      → find_row k rs ≡ some r
      → P r
  find_row-EveryRow P k [] r h e = absurd (ground arith)
  find_row-EveryRow P k (x ∷ rs) r h e = elim (Bool-cases (key x == k)) [
    | inl here ↦ let same : x ≡ r = ground arith in subst P same (h.0 ((==_iff (key x) k).0 here))
    | inr there ↦ find_row-EveryRow P k rs r h.1 (ground arith)
  ]

  pub find_row-key : (k : ℕ) (rs : List A) (r : A) → find_row k rs ≡ some r → key r ≡ k
  find_row-key k [] r e = absurd (ground arith)
  find_row-key k (x ∷ rs) r e = elim (Bool-cases (key x == k)) [
    | inl here ↦ let same : x ≡ r = ground arith in ap key (sym same) ∙ (==_iff (key x) k).0 here
    | inr there ↦ find_row-key k rs r (ground arith)
  ]

  pub append-EveryRow {κ} :
      (P : A → Type κ) (k : ℕ) (rs : List A) (r : A)
      → (key r ≡ k → P r)
      → EveryRow P k rs
      → EveryRow P k (rs ++ r ∷ [])
  append-EveryRow P k [] r new h = (new, tt)
  append-EveryRow P k (x ∷ rs) r new h = (h.0, append-EveryRow P k rs r new h.1)

  pub append-has_row :
      (k : ℕ) (rs : List A) (r : A) → has_row k rs ≡ true → has_row k (rs ++ r ∷ []) ≡ true
  append-has_row k [] r h = absurd (ground arith)
  append-has_row k (x ∷ rs) r h = ground (arith, append-has_row k rs r)

  module _ (change : A → A) (same_key : (r : A) → key (change r) ≡ key r) where
    pub update_row-has_row :
        (j k : ℕ) (rs : List A) → has_row k (update_row j change rs) ≡ has_row k rs
    update_row-has_row j k [] = refl
    update_row-has_row j k (r ∷ rs) = ground (arith, same_key r, update_row-has_row j k rs)

    pub update_row-EveryRow {κ} :
        (P : A → Type κ) (j k : ℕ) (rs : List A)
        → (j ≡ k → (r : A) → P r → P (change r))
        → EveryRow P k rs
        → EveryRow P k (update_row j change rs)
    update_row-EveryRow P j k [] keeps h = tt
    update_row-EveryRow P j k (r ∷ rs) keeps h = elim (Bool-cases (key r == j)) [
      | inl e ↦ rw e (
        λ q. let at = sym (same_key r) ∙ q in keeps (sym ((==_iff (key r) j).0 e) ∙ at) r (h.0 at),
        update_row-EveryRow P j k rs keeps h.1,
      )
      | inr e ↦ rw e (h.0, update_row-EveryRow P j k rs keeps h.1)
    ]

    -- The row of a key after an update is the row before it, changed if the update is of its key.
    pub find_row-update_row :
        (j k : ℕ) (rs : List A)
        → find_row k (update_row j change rs)
          ≡ (if k == j then mapped change (find_row k rs) else find_row k rs)
    find_row-update_row j k [] = ground arith
    find_row-update_row j k (x ∷ rs) = ground (arith, same_key x, find_row-update_row j k rs)
