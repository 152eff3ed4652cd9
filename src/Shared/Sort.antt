-- ===== src/Shared/Sort.antt =====
-- `Array.prototype.sort`: a stable sort. `le x y` says that the comparator's value at (x, y) is not
-- positive.
use mathlib.Core.Path.{◌≡◌}
use mathlib.Core.Logic.{◌⊎◌, inl, inr}
use mathlib.Core.Bool.{Bool, true, false}
use mathlib.Core.List.{List, [], ◌∷◌}
use task_hub.Shared.Tests.{if◌then◌else◌, Bool-cases}
use task_hub.Shared.Lists.{All, In}

module _ {ℓ} {A : Type ℓ} (le : A → A → Bool) where
  -- `x` goes before the first element that it does not exceed.
  unfoldable pub insert_sorted : A → List A → List A
  insert_sorted x [] = x ∷ []
  insert_sorted x (y ∷ ys) = if le x y then x ∷ y ∷ ys else y ∷ insert_sorted x ys

  unfoldable pub sort : List A → List A
  sort [] = []
  sort (x ∷ xs) = insert_sorted x (sort xs)

-- In order: each element is below all that follow it.
abbrev pub IsSorted {ℓ} : {A : Type ℓ} → (A → A → Bool) → List A → Type 0
IsSorted le [] = Unit
IsSorted le (x ∷ xs) = All (λ y. le x y ≡ true) xs × IsSorted le xs

module _ {A : Type 0} (le : A → A → Bool) where
  In-insert_sorted : (a x : A) (ys : List A) → In a (insert_sorted le x ys) → (a ≡ x) ⊎ In a ys
  unfolding insert_sorted
  In-insert_sorted a x [] h = h
  In-insert_sorted a x (y ∷ ys) h = elim (Bool-cases (le x y)) [
    | inl e ↦ rw e at h
    | inr e ↦ elim (rw e at h) [
      | inl same ↦ inr (inl same)
      | inr k ↦ elim (In-insert_sorted a x ys k) [ inl same ↦ inl same | inr deep ↦ inr (inr deep) ]
    ]
  ]

  insert_sorted-In : (a x : A) (ys : List A) → (a ≡ x) ⊎ In a ys → In a (insert_sorted le x ys)
  unfolding insert_sorted
  insert_sorted-In a x [] h = h
  insert_sorted-In a x (y ∷ ys) h = elim (Bool-cases (le x y)) [
    | inl e ↦ rw e h
    | inr e ↦ rw e (elim h [
      | inl same ↦ inr (insert_sorted-In a x ys (inl same))
      | inr (inl same) ↦ inl same
      | inr (inr k) ↦ inr (insert_sorted-In a x ys (inr k))
    ])
  ]

  pub In-sort : (a : A) (xs : List A) → In a (sort le xs) → In a xs
  unfolding sort
  In-sort a [] h = h
  In-sort a (x ∷ xs) h = elim (In-insert_sorted a x (sort le xs) h) [
    | inl same ↦ inl same
    | inr k ↦ inr (In-sort a xs k)
  ]

  pub sort-In : (a : A) (xs : List A) → In a xs → In a (sort le xs)
  unfolding sort
  sort-In a [] h = h
  sort-In a (x ∷ xs) (inl same) = insert_sorted-In a x (sort le xs) (inl same)
  sort-In a (x ∷ xs) (inr k) = insert_sorted-In a x (sort le xs) (inr (sort-In a xs k))

  module _ (total : (x y : A) → le x y ≡ false → le y x ≡ true)
      (trans : (x y z : A) → le x y ≡ true → le y z ≡ true → le x z ≡ true) where
    All-le_trans :
        (x y : A) (ys : List A)
        → le x y ≡ true
        → All (λ z. le y z ≡ true) ys
        → All (λ z. le x z ≡ true) ys
    All-le_trans x y [] e h = tt
    All-le_trans x y (z ∷ zs) e h = (trans x y z e h.0, All-le_trans x y zs e h.1)

    All-insert_sorted :
        (z x : A) (ys : List A)
        → le z x ≡ true
        → All (λ y. le z y ≡ true) ys
        → All (λ y. le z y ≡ true) (insert_sorted le x ys)
    unfolding insert_sorted
    All-insert_sorted z x [] e h = (e, tt)
    All-insert_sorted z x (y ∷ ys) e h = elim (Bool-cases (le x y)) [
      | inl f ↦ rw f (e, h)
      | inr f ↦ rw f (h.0, All-insert_sorted z x ys e h.1)
    ]

    insert_sorted-IsSorted :
        (x : A) (ys : List A) → IsSorted le ys → IsSorted le (insert_sorted le x ys)
    unfolding insert_sorted
    insert_sorted-IsSorted x [] h = (tt, tt)
    insert_sorted-IsSorted x (y ∷ ys) h = elim (Bool-cases (le x y)) [
      | inl e ↦ rw e ((e, All-le_trans x y ys e h.0), h)
      | inr e ↦ rw e (All-insert_sorted y x ys (total x y e) h.0, insert_sorted-IsSorted x ys h.1)
    ]

    pub sort-IsSorted : (xs : List A) → IsSorted le (sort le xs)
    unfolding sort
    sort-IsSorted [] = tt
    sort-IsSorted (x ∷ xs) = insert_sorted-IsSorted x (sort le xs) (sort-IsSorted xs)
