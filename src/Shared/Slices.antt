-- ===== src/Shared/Slices.antt =====
-- How long the slices of a list are, and the slices of a slice.
use Prim.Native.Nat.{ℕ, zero, suc, ◌+◌, ◌<◌, ◌≤◌}
use mathlib.Core.Path.{◌≡◌, refl, ap}
use mathlib.Core.List.{List, [], ◌∷◌, ◌++◌}
use native.Mathlib.Omega.{arith}
use task_hub.Shared.Lists.{length, take}

module _ {A : Type 0} where
  pub take-append_self : (xs ys : List A) → take (length xs) (xs ++ ys) ≡ xs
  take-append_self [] ys = refl
  take-append_self (x ∷ xs) ys = ap (◌∷◌ x) (take-append_self xs ys)

  pub take-take : (n m : ℕ) (xs : List A) → n ≤ m → take n (take m xs) ≡ take n xs
  take-take zero m xs h = refl
  take-take (suc n) zero xs h = absurd (omega (arith, h))
  take-take (suc n) (suc m) [] h = refl
  take-take (suc n) (suc m) (x ∷ xs) h = ap (◌∷◌ x) (take-take n m xs (omega (arith, h)))

  pub length-append : (xs ys : List A) → length (xs ++ ys) ≡ length xs + length ys
  length-append [] ys = omega arith
  length-append (x ∷ xs) ys = let deep = length-append xs ys in omega (arith, deep)

  pub length-take_short :
      (m : ℕ) (xs : List A) → length (take m xs) < m → length xs ≤ length (take m xs)
  length-take_short zero xs h = absurd (omega (arith, h))
  length-take_short (suc m) [] h = omega arith
  length-take_short (suc m) (x ∷ xs) h =
      let deep = length-take_short m xs (omega (arith, h)) in omega (arith, deep)

  pub length-take_long : (m : ℕ) (xs : List A) → length (take m xs) ≤ length xs
  length-take_long zero xs = omega arith
  length-take_long (suc m) [] = omega arith
  length-take_long (suc m) (x ∷ xs) = let deep = length-take_long m xs in omega (arith, deep)
