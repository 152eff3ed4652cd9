-- ===== src/Shared/Text/Split.antt =====
-- The parts of a text between the characters that it is split at.
use Prim.Native.Char.{Char, code}
use Prim.Native.String.{String, ◌++◌}
use text.Mathlib.TextLemmas.{nil-append, cons-append}
use mathlib.Core.Path.{◌≡◌, refl}
use mathlib.Core.Bool.{Bool, true, false, not, ◌&&◌}
use mathlib.Core.List.{◌∷◌}
use native.Mathlib.Omega.{arith}
use Prim.Native.Nat.{ℕ}
use task_hub.Shared.Tests.{nat_eq}
use task_hub.Shared.Text.{split_on}

-- No character of the text has the code.
unfoldable pub lacks : ℕ → String → Bool
lacks separator String.[] = true
lacks separator (String.◌∷◌ c s) = not (nat_eq (code c) separator) && lacks separator s

pub nat_eq_refl : (n : ℕ) → nat_eq n n ≡ true
nat_eq_refl n = ground arith

split_on-first :
    (c : Char) (t : String)
    → split_on (code c) (String.◌∷◌ c String.[] ++ t) ≡ String.[] ∷ split_on (code c) t
unfolding split_on
split_on-first c t = rw (cons-append c String.[] t, nil-append t, nat_eq_refl (code c)) refl

-- What stands before the first separator is the first part.
pub split_on-append :
    (c : Char) (s t : String)
    → lacks (code c) s ≡ true
    → split_on (code c) (s ++ (String.◌∷◌ c String.[] ++ t)) ≡ s ∷ split_on (code c) t
unfolding lacks split_on
split_on-append c String.[] t h = rw (nil-append (String.◌∷◌ c String.[] ++ t)) (split_on-first c t)
split_on-append c (String.◌∷◌ d s) t h =
    let e : nat_eq (code d) (code c) ≡ false = ground (arith, h) in
    rw (cons-append d s (String.◌∷◌ c String.[] ++ t), e, split_on-append c s t (ground (arith, h)))
      refl
