-- ===== src/Shared/Dict.antt =====
-- `Map<string, V>`: an association list in insertion order. `set` on a key that is there writes in
-- place, on a new key at the end, as JavaScript's `Map` does.
use Prim.Native.String.{String}
use mathlib.Core.Path.{◌≡◌, refl, ap}
use mathlib.Core.Logic.{◌≢◌, ◌⊎◌, inl, inr}
use mathlib.Core.Option.{Option, none, some}
use mathlib.Core.List.{List, [], ◌∷◌, ◌++◌}
use native.Mathlib.Omega.{arith}
use text.Mathlib.TextEquality.{eq_iff}
use task_hub.Shared.Tests.{◌==◌, if◌then◌else◌, ==-refl, Bool-cases}
use task_hub.Shared.Lists.{In}

abbrev pub Dict {ℓ} : Type ℓ → Type ℓ
Dict V = List (String × V)

module _ {ℓ} {V : Type ℓ} where
  unfoldable pub lookup : String → Dict V → Option V
  lookup k [] = none
  lookup k ((j, v) ∷ d) = if j == k then some v else lookup k d

  unfoldable pub insert : String → V → Dict V → Dict V
  insert k v [] = (k, v) ∷ []
  insert k v ((j, w) ∷ d) = if j == k then (k, v) ∷ d else (j, w) ∷ insert k v d

  -- `delete`
  unfoldable pub remove : String → Dict V → Dict V
  remove k [] = []
  remove k ((j, v) ∷ d) = let rest = remove k d in if j == k then rest else (j, v) ∷ rest

  abbrev pub values : Dict V → List V
  values [] = []
  values ((j, v) ∷ d) = v ∷ values d

  pub lookup-insert :
      (k j : String) (v : V) (d : Dict V)
      → lookup j (insert k v d) ≡ (if k == j then some v else lookup j d)
  unfolding lookup insert
  lookup-insert k j v [] = refl
  lookup-insert k j v ((i, w) ∷ d) =
      ground (arith, eq_iff k j, eq_iff i k, eq_iff i j, lookup-insert k j v d)

  pub lookup-insert_self : (k : String) (v : V) (d : Dict V) → lookup k (insert k v d) ≡ some v
  lookup-insert_self k v d = rw (lookup-insert, ==-refl)

  pub lookup-insert_ne :
      (k j : String) (v : V) (d : Dict V) → k ≢ j → lookup j (insert k v d) ≡ lookup j d
  lookup-insert_ne k j v d h = ground (arith, lookup-insert k j v d, eq_iff k j)

module _ {ℓ} {V : Type ℓ} where
  pub lookup-remove :
      (k j : String) (d : Dict V) → lookup j (remove k d) ≡ (if k == j then none else lookup j d)
  unfolding lookup remove
  lookup-remove k j [] = ground (arith, eq_iff k j)
  lookup-remove k j ((i, v) ∷ d) =
      ground (arith, eq_iff k j, eq_iff i k, eq_iff i j, lookup-remove k j d)

-- A dictionary whose values carry their keys, each key once.
abbrev pub Keyed : {V : Type 0} → (V → String) → Dict V → Type 0
Keyed key_of [] = Unit
Keyed key_of ((k, v) ∷ d) = (key_of v ≡ k) × (lookup k d ≡ none) × Keyed key_of d

module _ {V : Type 0} where
  pub In-lookup : (k : String) (v : V) (d : Dict V) → lookup k d ≡ some v → In v (values d)
  unfolding lookup
  In-lookup k v [] e = cc
  In-lookup k v ((j, w) ∷ d) e = elim (Bool-cases (j == k)) [
    | inl same ↦ inl (ground arith)
    | inr other ↦ inr (In-lookup k v d (rw other at e))
  ]

  pub In-insert :
      (a : V) (k : String) (v : V) (d : Dict V)
      → In a (values (insert k v d))
      → (a ≡ v) ⊎ In a (values d)
  unfolding insert
  In-insert a k v [] h = h
  In-insert a k v ((j, w) ∷ d) h = elim (Bool-cases (j == k)) [
    | inl same ↦ elim (rw same at h) [ inl e ↦ inl e | inr deep ↦ inr (inr deep) ]
    | inr other ↦ elim (rw other at h) [
      | inl e ↦ inr (inl e)
      | inr deep ↦ elim (In-insert a k v d deep) [ inl e ↦ inl e | inr deeper ↦ inr (inr deeper) ]
    ]
  ]

module _ {V : Type 0} (key_of : V → String) where
  pub Keyed-lookup :
      (k : String) (v : V) (d : Dict V) → Keyed key_of d → lookup k d ≡ some v → key_of v ≡ k
  unfolding lookup
  Keyed-lookup k v [] h e = cc
  Keyed-lookup k v ((j, w) ∷ d) h e = ground (arith, eq_iff j k, Keyed-lookup k v d h.2)

  pub insert-Keyed :
      (k : String) (v : V) (d : Dict V)
      → Keyed key_of d
      → key_of v ≡ k
      → Keyed key_of (insert k v d)
  unfolding insert lookup
  insert-Keyed k v [] h e = (e, refl, tt)
  insert-Keyed k v ((j, w) ∷ d) h e =
      ground (arith, eq_iff j k, eq_iff k j, insert-Keyed k v d h.2 e, lookup-insert k j v d)

  lookup-ne :
      (v : V) (k : String) (d : Dict V)
      → In v (values d)
      → lookup k d ≡ none
      → Keyed key_of d
      → key_of v ≢ k
  unfolding lookup
  lookup-ne v k [] i e h = elim i [ ]
  lookup-ne v k ((j, w) ∷ d) (inl same) e h = ground (arith, eq_iff j k)
  lookup-ne v k ((j, w) ∷ d) (inr deep) e h = ground (arith, eq_iff j k, lookup-ne v k d deep)

  -- A value is found under its own key.
  pub lookup_of_In :
      (v : V) (d : Dict V) → Keyed key_of d → In v (values d) → lookup (key_of v) d ≡ some v
  unfolding lookup
  lookup_of_In v [] h i = elim i [ ]
  lookup_of_In v ((j, w) ∷ d) h (inl same) = ground (arith, eq_iff j (key_of v))
  lookup_of_In v ((j, w) ∷ d) h (inr deep) =
      ground (arith, eq_iff j (key_of v), lookup_of_In v d h.2 deep, lookup-ne v j d deep h.1 h.2)

-- A new key's value comes last.
pub values-insert_new :
    {V : Type 0} (k : String) (v : V) (d : Dict V)
    → lookup k d ≡ none
    → values (insert k v d) ≡ values d ++ v ∷ []
unfolding lookup insert
values-insert_new k v [] e = refl
values-insert_new k v ((j, w) ∷ d) e = elim (Bool-cases (j == k)) [
  | inl same ↦ ground arith
  | inr other ↦ rw other (ap (◌∷◌ w) (values-insert_new k v d (ground arith)))
]
