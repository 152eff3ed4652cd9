-- ===== src/D1/Pages.antt =====
-- What the listing of tasks of the database (`listTasks` of `src/worker/d1-store.ts`) has to answer, said
-- without its conditions, its order and its limit.
use Prim.Native.Nat.{◌<◌}
use mathlib.Core.List.{Permᴰ}
use task_hub.Shared.{
  ◌≡◌, ◌≢◌, refl, ◌⊎◌, inl, inr, ℕ, ltb, Bool, Bool-cases, true, false, Option, none, some, List,
  [], ◌∷◌, String, arith,
}
use task_hub.Shared.Sort.{IsSorted}
use task_hub.Shared.Text.{units_lt}
use task_hub.Types.{TaskStatus, TaskType, TaskCursor, TaskStoreListQuery}
use task_hub.InMemory.Parts.{matches_text_iff, matches_status_iff, matches_type_iff}
use task_hub.D1.{TaskRow, Engine}
use task_hub.D1.Listing.{text_before, codes, is_row_after, matches_row, newest_row_first}

-- A row is looked for: it is of the runner, the status and the type that are named, if they are, and
-- it comes after the cursor, where there is one. An empty runner id names no runner.
pub record RowWanted (runner_id : Option String) (status : Option TaskStatus)
    (type : Option TaskType) (cursor : Option TaskCursor) (row : TaskRow) : Type 0 where
  pub of_runner : (id : String) → runner_id ≡ some id → id ≢ "" → row.runner_id ≡ id
  pub of_status : (wanted : TaskStatus) → status ≡ some wanted → row.status ≡ wanted
  pub of_type : (wanted : TaskType) → type ≡ some wanted → row.type ≡ wanted
  pub after :
      (c : TaskCursor)
      → cursor ≡ some c
      → (row.created_at < c.created_at)
        ⊎ ((row.created_at ≡ c.created_at) × (text_before row.task_id c.task_id ≡ true))

-- `ORDER BY`: the same rows, sorted by an order in which any two rows compare and which is transitive.
pub record SortsRows (engine : Engine) : Type 0 where
  pub permutes :
      (le : TaskRow → TaskRow → Bool) (rows : List TaskRow) → Permᴰ (engine.order_by le rows) rows
  pub sorts :
      (le : TaskRow → TaskRow → Bool)
      → ((x y : TaskRow) → le x y ≡ false → le y x ≡ true)
      → ((x y z : TaskRow) → le x y ≡ true → le y z ≡ true → le x z ≡ true)
      → (rows : List TaskRow) → IsSorted le (engine.order_by le rows)

abbrev RowAfter : Option TaskCursor → TaskRow → Type 0
RowAfter cursor row =
    (c : TaskCursor)
    → cursor ≡ some c
    → (row.created_at < c.created_at)
      ⊎ ((row.created_at ≡ c.created_at) × (text_before row.task_id c.task_id ≡ true))

is_row_after-RowAfter :
    (cursor : Option TaskCursor) (row : TaskRow)
    → is_row_after cursor row ≡ true
    → RowAfter cursor row
is_row_after-RowAfter none row h c e = cc
is_row_after-RowAfter (some given) row h c e =
    elim (Bool-cases (ltb row.created_at given.created_at)) [
      | inl f ↦ inl (ground (arith, f, e))
      | inr f ↦ inr (ground (arith, f, e, h), ground (arith, f, e, h))
    ]

RowAfter-is_row_after :
    (cursor : Option TaskCursor) (row : TaskRow)
    → RowAfter cursor row
    → is_row_after cursor row ≡ true
RowAfter-is_row_after none row h = refl
RowAfter-is_row_after (some given) row h = elim (h given refl) [
  | inl e ↦ ground (arith, e)
  | inr (e, f) ↦ ground (arith, e, f)
]

module _ (query : TaskStoreListQuery) (cursor : Option TaskCursor) (row : TaskRow) where
  pub matches_row-RowWanted :
      matches_row query cursor row ≡ true
      → RowWanted query.runner_id query.status query.type cursor row
  matches_row-RowWanted h = record {
    of_runner = (matches_text_iff query.runner_id row.runner_id).0 (ground (arith, h));
    of_status = (matches_status_iff query.status row.status).0 (ground (arith, h));
    of_type = (matches_type_iff query.type row.type).0 (ground (arith, h));
    after = is_row_after-RowAfter cursor row (ground (arith, h));
  }

  pub RowWanted-matches_row :
      RowWanted query.runner_id query.status query.type cursor row
      → matches_row query cursor row ≡ true
  RowWanted-matches_row h =
      rw
        (
          (matches_text_iff query.runner_id row.runner_id).1 h.of_runner,
          (matches_status_iff query.status row.status).1 h.of_status,
          (matches_type_iff query.type row.type).1 h.of_type,
          RowAfter-is_row_after cursor row h.after,
        )
        refl

-- The order of texts by their codes is total and transitive.
units_lt_asym : (xs ys : List ℕ) → units_lt xs ys ≡ true → units_lt ys xs ≡ false
units_lt_asym xs [] h = absurd (cc)
units_lt_asym [] (y ∷ ys) h = refl
units_lt_asym (x ∷ xs) (y ∷ ys) h =
    let deep : units_lt xs ys ≡ true → units_lt ys xs ≡ false = units_lt_asym xs ys in
    ground (arith, h, deep)

units_lt_trans :
    (xs ys zs : List ℕ) → units_lt xs ys ≡ false → units_lt ys zs ≡ false → units_lt xs zs ≡ false
units_lt_trans xs ys [] h k = refl
units_lt_trans xs [] (z ∷ zs) h k = absurd (cc)
units_lt_trans [] (y ∷ ys) (z ∷ zs) h k = absurd (cc)
units_lt_trans (x ∷ xs) (y ∷ ys) (z ∷ zs) h k =
    let deep : units_lt xs ys ≡ false → units_lt ys zs ≡ false → units_lt xs zs ≡ false =
      units_lt_trans xs ys zs in
    ground (arith, h, k, deep)

pub newest_row_first_total :
    (x y : TaskRow) → newest_row_first x y ≡ false → newest_row_first y x ≡ true
newest_row_first_total x y h =
    let asym = units_lt_asym (codes x.task_id) (codes y.task_id) in ground (arith, h, asym)

pub newest_row_first_trans :
    (x y z : TaskRow)
    → newest_row_first x y ≡ true
    → newest_row_first y z ≡ true
    → newest_row_first x z ≡ true
newest_row_first_trans x y z h k =
    let deep = units_lt_trans (codes x.task_id) (codes y.task_id) (codes z.task_id) in
    ground (arith, h, k, deep)
