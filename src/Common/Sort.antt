-- ===== src/Common/Sort.antt =====
-- A stable sort by a comparison, membership in a list, and what stands first after sorting.
use remote_build_orchestrato.Common.{
  ◌≡◌, refl, sym, subst, ap, ◌⊎◌, inl, inr, Bool, true, false, Option, none, some, List, [], ◌∷◌,
  arith, if◌then◌else◌, Bool-cases,
}

abbrev pub In : {A : Type 0} → A → List A → Type 0
In a [] = ⊥
In a (x ∷ xs) = (a ≡ x) ⊎ In a xs

abbrev pub first {ℓ} : {A : Type ℓ} → List A → Option A
first [] = none
first (x ∷ xs) = some x

module _ {A : Type 0} (le : A → A → Bool) where
  unfoldable pub insert : A → List A → List A
  insert a [] = a ∷ []
  insert a (x ∷ xs) = let rest = insert a xs in if le a x then a ∷ x ∷ xs else x ∷ rest

  unfoldable pub sort : List A → List A
  unfolding insert
  sort [] = []
  sort (x ∷ xs) = insert x (sort xs)

  first-insert :
      (a : A) (xs : List A)
      → (first (insert a xs) ≡ some a) × (xs ≡ [])
        ⊎ ((x : A) × (first xs ≡ some x)
            × ((first (insert a xs) ≡ some a) × (le a x ≡ true)
                ⊎ (first (insert a xs) ≡ some x) × (le a x ≡ false)))
  unfolding insert
  first-insert a [] = inl (refl, refl)
  first-insert a (x ∷ xs) = inr (x, refl, ground arith)

  pub sort-first-In : (xs : List A) (h : A) → first (sort xs) ≡ some h → In h xs
  unfolding sort
  sort-first-In [] h e = cc
  sort-first-In (x ∷ xs) h e = elim (first-insert x (sort xs)) [
    | inl (at, none_left) ↦ inl (ground arith)
    | inr (y, found, inl (at, before)) ↦ inl (ground arith)
    | inr (y, found, inr (at, after)) ↦ inr (sort-first-In xs h (ground arith))
  ]

  pub sort-first-none : (xs : List A) → first (sort xs) ≡ none → xs ≡ []
  unfolding sort
  sort-first-none [] e = refl
  sort-first-none (x ∷ xs) e = elim (first-insert x (sort xs)) [
    | inl (at, none_left) ↦ cc
    | inr (y, found, inl (at, before)) ↦ cc
    | inr (y, found, inr (at, after)) ↦ cc
  ]

  -- Every member comes no earlier than the first one after sorting.
  module _ (total : (a b : A) → le a b ≡ false → le b a ≡ true)
      (trans : (a b c : A) → le a b ≡ true → le b c ≡ true → le a c ≡ true) where
    reflexive : (a : A) → le a a ≡ true
    reflexive a = elim (Bool-cases (le a a)) [ inl e ↦ e | inr e ↦ total a a e ]

    pub sort-first :
        (xs : List A) (h : A)
        → first (sort xs) ≡ some h
        → In h xs × ((x : A) → In x xs → le h x ≡ true)
    unfolding sort
    sort-first [] h e = cc
    sort-first (x ∷ xs) h e = elim (first-insert x (sort xs)) [
      | inl (at, none_left) ↦
          let same : x ≡ h = ground arith in
          let empty : xs ≡ [] = sort-first-none xs (ap first none_left) in
          (
            inl (sym same),
            λ y m.
                subst (λ t. In y (x ∷ t) → le h y ≡ true) (sym empty)
                  (λ n. elim n [ inl q ↦ rw (q, ← same) (reflexive x) | inr r ↦ absurd r ]) m,
          )
      | inr (y, found, inl (at, before)) ↦
          let same : x ≡ h = ground arith in
          let (m, least) = sort-first xs y found in
          (
            inl (sym same),
            λ z n. elim n [
              | inl q ↦ rw (q, ← same) (reflexive x)
              | inr r ↦ rw (← same) (trans x y z before (least z r))
            ],
          )
      | inr (y, found, inr (at, after)) ↦
          let same : y ≡ h = ground arith in
          let (m, least) = sort-first xs y found in
          (
            inr (subst (λ t. In t xs) same m),
            λ z n. elim n [
              | inl q ↦ rw (q, ← same) (total x y after)
              | inr r ↦ rw (← same) (least z r)
            ],
          )
    ]
