-- ===== src/Security/Compare.antt =====
-- The constant-time comparison of security.ts decides equality.
use Prim.Native.Nat.{bit_or, bit_xor, bit_or-bitwise, bit_xor-bitwise, digits, differ}
use mathlib.Core.Path.{subst}
use native.Mathlib.Nat.{le_refl}
use task_hub.Shared.{
  ℕ, zero, suc, ◌/◌, ◌%◌, ◌≤◌, ◌<◌, max, ◌≡◌, refl, ap, ◌↔◌, List, [], ◌∷◌, String, true, arith,
  length, nat_eq_iff,
}
use task_hub.Shared.Text.{code_units}
use task_hub.Security.{unit_at, accumulate, equal_units, constant_time_string_equal}

differ-zero : (x y : ℕ) → x < 2 → y < 2 → differ x y ≡ 0 → x ≡ y
differ-zero zero y p q e = ground arith
differ-zero (suc zero) zero p q e = ground arith
differ-zero (suc zero) (suc zero) p q e = refl
differ-zero (suc zero) (suc (suc y)) p q e = absurd (omega arith)
differ-zero (suc (suc x)) y p q e = absurd (omega arith)

differ_self : (x : ℕ) → x < 2 → differ x x ≡ 0
differ_self zero p = refl
differ_self (suc zero) p = refl
differ_self (suc (suc x)) p = absurd (omega arith)

-- `a ^ b` is zero only where the two are equal.
xor_digits : (n a b : ℕ) → a ≤ n → digits (λ y. y) differ n a b ≡ 0 → a ≡ b
xor_digits zero zero b p e = omega arith
xor_digits zero (suc a) b p e = absurd (omega arith)
xor_digits (suc n) zero b p e = omega arith
xor_digits (suc n) (suc a) b p e =
    let upper : suc a / 2 ≡ b / 2 = xor_digits n (suc a / 2) (b / 2) (omega arith) (omega arith) in
    let lower : suc a % 2 ≡ b % 2 =
      differ-zero (suc a % 2) (b % 2) (omega arith) (omega arith) (omega arith) in
    omega arith

xor_self_digits : (n a : ℕ) → a ≤ n → digits (λ y. y) differ n a a ≡ 0
xor_self_digits zero zero p = refl
xor_self_digits zero (suc a) p = absurd (omega arith)
xor_self_digits (suc n) zero p = refl
xor_self_digits (suc n) (suc a) p =
    omega
      (arith, xor_self_digits n (suc a / 2) (omega arith), differ_self (suc a % 2) (omega arith))

pub bit_xor-eq-zero_iff : (a b : ℕ) → (bit_xor a b ≡ 0) ↔ (a ≡ b)
bit_xor-eq-zero_iff a b = (
  λ e. xor_digits a a b (le_refl _) (rw bit_xor-bitwise at e),
  λ e. rw (← e, bit_xor-bitwise) (xor_self_digits a a (le_refl _)),
)

or_digits : (n a b : ℕ) → a ≤ n → digits (λ y. y) max n a b ≡ 0 → (a ≡ 0) × (b ≡ 0)
or_digits zero zero b p e = (refl, e)
or_digits zero (suc a) b p e = absurd (omega arith)
or_digits (suc n) zero b p e = (refl, e)
or_digits (suc n) (suc a) b p e =
    let (upper, upper') = or_digits n (suc a / 2) (b / 2) (omega arith) (omega arith) in omega arith

pub bit_or-eq-zero_iff : (a b : ℕ) → (bit_or a b ≡ 0) ↔ ((a ≡ 0) × (b ≡ 0))
bit_or-eq-zero_iff a b =
    (λ e. or_digits a a b (le_refl _) (rw bit_or-bitwise at e), λ e. rw (e.0, e.1) refl)

-- The two texts agree at `rounds` places from `index` on.
abbrev Agree : List ℕ → List ℕ → (rounds index : ℕ) → Type 0
Agree actual expected zero index = Unit
Agree actual expected (suc rounds) index =
    (unit_at actual index ≡ unit_at expected index) × Agree actual expected rounds (suc index)

accumulate-eq-zero_iff :
    (actual expected : List ℕ) (rounds index difference : ℕ)
    → (accumulate actual expected rounds index difference ≡ 0)
      ↔ ((difference ≡ 0) × Agree actual expected rounds index)
unfolding accumulate
accumulate-eq-zero_iff actual expected zero index difference = (λ e. (e, tt), λ e. e.0)
accumulate-eq-zero_iff actual expected (suc rounds) index difference =
    let here = bit_xor-eq-zero_iff (unit_at actual index) (unit_at expected index) in
    let both =
      bit_or-eq-zero_iff difference (bit_xor (unit_at actual index) (unit_at expected index)) in
    let later =
      accumulate-eq-zero_iff actual expected rounds (suc index)
        (bit_or difference (bit_xor (unit_at actual index) (unit_at expected index))) in
    (
      λ e. let (joined, rest) = later.0 e in ((both.0 joined).0, (here.0 (both.0 joined).1, rest)),
      λ e. later.1 (both.1 (e.0, here.1 e.1.0), e.1.1),
    )

Agree-cons :
    (x y : ℕ) (xs ys : List ℕ) (rounds index : ℕ)
    → Agree (x ∷ xs) (y ∷ ys) rounds (suc index)
    → Agree xs ys rounds index
Agree-cons x y xs ys zero index h = tt
Agree-cons x y xs ys (suc rounds) index h = (h.0, Agree-cons x y xs ys rounds (suc index) h.1)

Agree-eq : (xs ys : List ℕ) → length xs ≡ length ys → Agree xs ys (length xs) 0 → xs ≡ ys
Agree-eq [] [] e h = refl
Agree-eq [] (y ∷ ys) e h = absurd (omega arith)
Agree-eq (x ∷ xs) [] e h = absurd (omega arith)
Agree-eq (x ∷ xs) (y ∷ ys) e h =
    cc (h.0, Agree-eq xs ys (omega arith) (Agree-cons x y xs ys (length xs) 0 h.1))

Agree-refl : (xs : List ℕ) (rounds index : ℕ) → Agree xs xs rounds index
Agree-refl xs zero index = tt
Agree-refl xs (suc rounds) index = (refl, Agree-refl xs rounds (suc index))

pub equal_units_iff : (xs ys : List ℕ) → (equal_units xs ys ≡ true) ↔ (xs ≡ ys)
unfolding equal_units
equal_units_iff xs ys =
    let loop =
      accumulate-eq-zero_iff xs ys (max (length xs) (length ys)) 0
        (bit_xor (length xs) (length ys)) in
    let lengths = bit_xor-eq-zero_iff (length xs) (length ys) in
    let test =
      nat_eq_iff
        (accumulate xs ys (max (length xs) (length ys)) 0 (bit_xor (length xs) (length ys))) 0 in
    (
      λ e.
          let (same, agree) = loop.0 (test.0 e) in
          Agree-eq xs ys (lengths.0 same)
            (subst (λ n. Agree xs ys n 0) (omega (arith, lengths.0 same)) agree),
      λ e. test.1 (loop.1 (lengths.1 (ap length e), rw e (Agree-refl ys _ 0))),
    )

-- The comparison of two texts answers true exactly when they have the same UTF-16 code units,
-- whatever their lengths: when JavaScript's `===` does.
pub constant_time_string_equal_iff :
    (actual expected : String)
    → (constant_time_string_equal actual expected ≡ true)
      ↔ (code_units actual ≡ code_units expected)
unfolding constant_time_string_equal
constant_time_string_equal_iff actual expected =
    equal_units_iff (code_units actual) (code_units expected)
