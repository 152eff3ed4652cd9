-- ===== src/Action.antt =====
-- An `async` method on a state of type `S`: it returns or throws, and what it had written when it
-- threw stays written.
use task_hub.Shared.{◌≡◌, ap, Bool, true, false, Option, none, some}
use task_hub.Types.{Error, Result, ok, err}

abbrev pub Action : Type 0 → Type 0 → Type 0
Action S A = S → Result A × S

module _ {S : Type 0} {A : Type 0} where
  abbrev pub pure : A → Action S A
  pure a s = (ok a, s)

  -- `throw error`
  abbrev pub raise : Error → Action S A
  raise e s = (err e, s)

  abbrev pub gets : (S → A) → Action S A
  gets f s = (ok (f s), s)

  -- A computation that reads no state.
  abbrev pub lift : Result A → Action S A
  lift r s = (r, s)

  abbrev pub or_raise : Option A → Error → Action S A
  or_raise none e = raise e
  or_raise (some a) e = pure a

infixl 5 ◌>>=◌ ◌>>◌
abbrev pub ◌>>=◌ : {S A B : Type 0} → Action S A → (A → Action S B) → Action S B
◌>>=◌ m f s = let (r, s') = m s in elim r [ ok a ↦ f a s' | err e ↦ raise e s' ]

abbrev pub ◌>>◌ : {S A B : Type 0} → Action S A → Action S B → Action S B
m >> k = m >>= λ _. k

module _ {S : Type 0} where
  abbrev pub modify : (S → S) → Action S (Unit {0})
  modify f s = (ok tt, f s)

  -- `if (test) throw error;`
  abbrev pub raise_if : Bool → Error → Action S (Unit {0})
  raise_if true e s = (err e, s)
  raise_if false e s = (ok tt, s)

module _ {S A B : Type 0} (m : Action S A) (f : A → Action S B) where
  pub bind-ok : {s s' : S} {a : A} → m s ≡ (ok a, s') → (m >>= f) s ≡ f a s'
  bind-ok e = ap (λ (r : Result A × S). elim r.0 [ ok a ↦ f a r.1 | err error ↦ raise error r.1 ]) e

  pub bind-err : {s s' : S} {error : Error} → m s ≡ (err error, s') → (m >>= f) s ≡ (err error, s')
  bind-err e =
      ap (λ (r : Result A × S). elim r.0 [ ok a ↦ f a r.1 | err error ↦ raise error r.1 ]) e
