-- ===== src/Types/Json.antt =====
-- A value of unknown type: what `request.json()` returns, on which the source runs its `typeof`
-- tests. A number that is no integer is kept by its text.
use task_hub.Shared.{
  Bool, true, false, Option, none, some, List, [], ◌∷◌, String, ◌==◌, if◌then◌else◌,
}
use task_hub.Shared.Int.{ℤ}
use task_hub.Shared.Text.{is_empty, trim}

mutual
  pub data Value : Type 0 where
    undefined null : Value
    bool : Bool → Value
    int : ℤ → Value
    frac : String → Value
    str : String → Value
    obj : Fields → Value
    arr : Items → Value

  pub data Fields : Type 0 where
    no_fields : Fields
    field : String → Value → Fields → Fields

  pub data Items : Type 0 where
    no_items : Items
    item : Value → Items → Items

abbrev pub items : Items → List Value
items no_items = []
items (item v vs) = v ∷ items vs

abbrev pub from_list : List Value → Items
from_list [] = no_items
from_list (v ∷ vs) = item v (from_list vs)

-- An object names each field once; a field that is not there reads `undefined`.
abbrev pub get_field : String → Fields → Value
get_field k no_fields = undefined
get_field k (field j v fs) = if j == k then v else get_field k fs

unfoldable pub get : String → Value → Value
get k (obj fs) = get_field k fs
get k _ = undefined

-- `value && typeof value === "object"`: arrays pass too.
unfoldable pub is_object : Value → Bool
is_object (obj fs) = true
is_object (arr vs) = true
is_object _ = false

-- The same without the arrays.
unfoldable pub is_plain_object : Value → Bool
is_plain_object (obj fs) = true
is_plain_object _ = false

-- `typeof value === "string"`, with the string.
unfoldable pub as_string : Value → Option String
as_string (str s) = some s
as_string _ = none

-- A string with at least one character.
unfoldable pub as_nonempty : Value → Option String
as_nonempty (str s) = if is_empty s then none else some s
as_nonempty _ = none

-- A string with something in it beside white space; the string is not trimmed.
unfoldable pub as_nonblank : Value → Option String
as_nonblank (str s) = if is_empty (trim s) then none else some s
as_nonblank _ = none

-- `Number.isInteger(value)`
unfoldable pub as_integer : Value → Option ℤ
as_integer (int n) = some n
as_integer _ = none

-- `value === undefined`, or a value that passes the test.
unfoldable pub optional {ℓ} : {A : Type ℓ} → (Value → Option A) → Value → Option (Option A)
optional read undefined = some none
optional read v = elim (read v) [ none ↦ none | some a ↦ some (some a) ]

-- `Array.isArray(value) && value.every(...)`, with the elements.
unfoldable pub every {ℓ} : {A : Type ℓ} → (Value → Option A) → List Value → Option (List A)
every read [] = some []
every read (v ∷ vs) = elim (read v) [
  | none ↦ none
  | some a ↦ elim (every read vs) [ none ↦ none | some as_read ↦ some (a ∷ as_read) ]
]

unfoldable pub as_array_of {ℓ} : {A : Type ℓ} → (Value → Option A) → Value → Option (List A)
unfolding every
as_array_of read (arr vs) = every read (items vs)
as_array_of read _ = none
