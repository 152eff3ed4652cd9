-- ===== src/Shared/Perms.antt =====
-- A list under a filter and a sort: what is kept and what is left out make up the list, and the order
-- follows any key that the comparison refines.
use mathlib.Core.Path.{◌≡◌, refl}
use mathlib.Core.Logic.{inl, inr}
use mathlib.Core.Bool.{Bool, true, false, not}
use mathlib.Core.List.{List, [], ◌∷◌, ◌++◌}
use mathlib.Core.List.{Permᴰ}
use mathlib.Core.List.Permᴰ as PermD
use task_hub.Shared.Tests.{Bool-cases}
use task_hub.Shared.Lists.{All, In, filter}
use task_hub.Shared.Sort.{sort, insert_sorted, IsSorted}

module _ {A : Type 0} where
  pub middle-Perm : (x : A) (xs ys : List A) → Permᴰ (xs ++ x ∷ ys) (x ∷ xs ++ ys)
  middle-Perm x [] ys = PermD.refl (x ∷ ys)
  middle-Perm x (z ∷ xs) ys =
      PermD.trans (PermD.cons refl (middle-Perm x xs ys)) (PermD.swap refl refl)

  pub All-of_In : (P : A → Type 0) (xs : List A) → ((a : A) → In a xs → P a) → All P xs
  All-of_In P [] h = tt
  All-of_In P (x ∷ xs) h = (h x (inl refl), All-of_In P xs (λ a k. h a (inr k)))

  pub All-of_Perm : (P : A → Type 0) {xs ys : List A} → Permᴰ xs ys → All P xs → All P ys
  All-of_Perm P PermD.nil h = tt
  All-of_Perm P (PermD.cons e p) (h, k) = (rw (← e) h, All-of_Perm P p k)
  All-of_Perm P (PermD.swap e f) (h, (k, l)) = (rw (← f) k, (rw (← e) h, l))
  All-of_Perm P (PermD.trans p q) h = All-of_Perm P q (All-of_Perm P p h)

  -- What a filter keeps and what it leaves out.
  pub filter-Perm :
      (p : A → Bool) (xs : List A) → Permᴰ (filter p xs ++ filter (λ x. not (p x)) xs) xs
  filter-Perm p [] = PermD.nil
  filter-Perm p (x ∷ xs) = elim (Bool-cases (p x)) [
    | inl e ↦ rw e (PermD.cons refl (filter-Perm p xs))
    | inr e ↦ rw e (
        PermD.trans (middle-Perm x (filter p xs) (filter (λ x. not (p x)) xs))
          (PermD.cons refl (filter-Perm p xs)))
  ]

  module _ (le : A → A → Bool) where
    insert_sorted-Perm : (x : A) (ys : List A) → Permᴰ (insert_sorted le x ys) (x ∷ ys)
    unfolding insert_sorted
    insert_sorted-Perm x [] = PermD.refl (x ∷ [])
    insert_sorted-Perm x (y ∷ ys) = elim (Bool-cases (le x y)) [
      | inl e ↦ rw e (PermD.refl (x ∷ y ∷ ys))
      | inr e ↦
          rw e (PermD.trans (PermD.cons refl (insert_sorted-Perm x ys)) (PermD.swap refl refl))
    ]

    pub sort-Perm : (xs : List A) → Permᴰ (sort le xs) xs
    unfolding sort
    sort-Perm [] = PermD.nil
    sort-Perm (x ∷ xs) =
        PermD.trans (insert_sorted-Perm x (sort le xs)) (PermD.cons refl (sort-Perm xs))

    -- A list that is sorted by a comparison is in order by every transitive one that it refines.
    module _ (key : A → A → Bool) (below : (x y : A) → le x y ≡ true → key x y ≡ true)
        (above : (x y : A) → le x y ≡ false → key y x ≡ true)
        (trans : (x y z : A) → key x y ≡ true → key y z ≡ true → key x z ≡ true) where
      All-trans :
          (x y : A) (ys : List A)
          → key x y ≡ true
          → All (λ z. key y z ≡ true) ys
          → All (λ z. key x z ≡ true) ys
      All-trans x y [] e h = tt
      All-trans x y (z ∷ zs) e h = (trans x y z e h.0, All-trans x y zs e h.1)

      All-insert :
          (z x : A) (ys : List A)
          → key z x ≡ true
          → All (λ y. key z y ≡ true) ys
          → All (λ y. key z y ≡ true) (insert_sorted le x ys)
      unfolding insert_sorted
      All-insert z x [] e h = (e, tt)
      All-insert z x (y ∷ ys) e h = elim (Bool-cases (le x y)) [
        | inl f ↦ rw f (e, h)
        | inr f ↦ rw f (h.0, All-insert z x ys e h.1)
      ]

      insert_sorted-IsSorted_by :
          (x : A) (ys : List A) → IsSorted key ys → IsSorted key (insert_sorted le x ys)
      unfolding insert_sorted
      insert_sorted-IsSorted_by x [] h = (tt, tt)
      insert_sorted-IsSorted_by x (y ∷ ys) h = elim (Bool-cases (le x y)) [
        | inl e ↦ rw e ((below x y e, All-trans x y ys (below x y e) h.0), h)
        | inr e ↦ rw e (All-insert y x ys (above x y e) h.0, insert_sorted-IsSorted_by x ys h.1)
      ]

      pub sort-IsSorted_by : (xs : List A) → IsSorted key (sort le xs)
      unfolding sort
      sort-IsSorted_by [] = tt
      sort-IsSorted_by (x ∷ xs) = insert_sorted-IsSorted_by x (sort le xs) (sort-IsSorted_by xs)

-- A list that is sorted by an order is sorted by a coarser one.
pub All-of_IsSorted :
    {A : Type 0} (le key : A → A → Bool) (xs : List A)
    → ((x y : A) → le x y ≡ true → key x y ≡ true)
    → IsSorted le xs
    → IsSorted key xs
All-of_IsSorted le key [] f h = tt
All-of_IsSorted le key (x ∷ xs) f (h, k) = (all xs h, All-of_IsSorted le key xs f k)
  where
    all : (ys : List _) → All (λ y. le x y ≡ true) ys → All (λ y. key x y ≡ true) ys
    all [] h = tt
    all (y ∷ ys) (h, k) = (f x y h, all ys k)
