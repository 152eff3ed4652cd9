-- ===== src/D1/Claims.antt =====
-- Which row a claim is given (`findClaimableTask` of `src/worker/d1-store.ts`).
use task_hub.Shared.{
  ◌≡◌, ◌≤◌, eq_iff, refl, Bool, inl, inr, true, false, some, List, [], ◌∷◌, String, arith, filter,
  head?, In, In-filter, filter-In,
}
use task_hub.Shared.Dict.{values}
use task_hub.Shared.Int.{◌≤ℤ◌}
use task_hub.InMemory.Claimable.{is_open_for-cases}
use task_hub.Types.{Instant, pending_runner, leased, TaskRecord, Result-cases, ok}
use task_hub.Platform.{Platform}
use task_hub.D1.{TaskRow, Database, Engine, task_from_row, first_task}
use task_hub.D1.Statements.{is_claimable_row, claim_rows_order, find_claimable_task}

-- `ORDER BY`: the first row stands among the rows, and no row goes before it, for an order in which
-- any two rows compare and which is transitive.
pub record OrdersRows (engine : Engine) : Type 0 where
  pub first :
      (le : TaskRow → TaskRow → Bool)
      → ((x y : TaskRow) → le x y ≡ false → le y x ≡ true)
      → ((x y z : TaskRow) → le x y ≡ true → le y z ≡ true → le x z ≡ true)
      → (rows : List TaskRow) (row : TaskRow) (rest : List TaskRow)
      → engine.order_by le rows ≡ row ∷ rest
      → In row rows × ((other : TaskRow) → In other rows → le row other ≡ true)

claim_rows_order_total :
    (x y : TaskRow) → claim_rows_order x y ≡ false → claim_rows_order y x ≡ true
claim_rows_order_total x y h = ground arith

claim_rows_order_trans :
    (x y z : TaskRow)
    → claim_rows_order x y ≡ true
    → claim_rows_order y z ≡ true
    → claim_rows_order x z ≡ true
claim_rows_order_trans x y z h k = ground arith

-- A row waits for the runner: its task is assigned to it, and either pending or held under a lease
-- that has run out.
pub data RowWaits (runner_id : String) (now : Instant) (row : TaskRow) : Type 0 where
  row_pending : row.runner_id ≡ runner_id → row.status ≡ pending_runner → RowWaits runner_id now row
  row_timed_out :
      (expires_at : Instant)
      → row.runner_id ≡ runner_id
      → row.status ≡ leased
      → row.lease_expires_at ≡ some expires_at
      → expires_at ≤ now
      → RowWaits runner_id now row

-- `first` may be served before `second`: it has a higher priority, or the same and is no younger.
abbrev pub RowPrecedes : TaskRow → TaskRow → Type 0
RowPrecedes first second =
    (second.priority ≤ℤ first.priority)
    × (second.priority ≡ first.priority → first.created_at ≤ second.created_at)

is_claimable_row-RowWaits :
    (runner_id : String) (now : Instant) (row : TaskRow)
    → is_claimable_row runner_id now row ≡ true
    → RowWaits runner_id now row
is_claimable_row-RowWaits runner_id now row h =
    let mine : row.runner_id ≡ runner_id = ground (arith, eq_iff row.runner_id runner_id) in
    elim (is_open_for-cases row.status row.lease_expires_at now (ground arith)) [
      | inl e ↦ row_pending mine e
      | inr (at, e, f, g) ↦ row_timed_out at mine e f g
    ]

RowWaits-is_claimable_row :
    (runner_id : String) (now : Instant) (row : TaskRow)
    → RowWaits runner_id now row
    → is_claimable_row runner_id now row ≡ true
RowWaits-is_claimable_row runner_id now row (row_pending e f) =
    ground (arith, eq_iff row.runner_id runner_id)
RowWaits-is_claimable_row runner_id now row (row_timed_out at e f g h) =
    ground (arith, eq_iff row.runner_id runner_id)

claim_rows_order-RowPrecedes : (x y : TaskRow) → claim_rows_order x y ≡ true → RowPrecedes x y
claim_rows_order-RowPrecedes x y h = ground arith

module _ (platform : Platform) (engine : Engine) where
  -- The row that was read, where a task was found.
  first_task-some :
      (rows : List TaskRow) (task : TaskRecord)
      → first_task platform (head? rows) ≡ ok (some task)
      → (row : TaskRow) × (rest : List TaskRow) × (rows ≡ row ∷ rest)
        × (task_from_row platform row ≡ ok task)
  first_task-some [] task e = absurd (ground (arith, e))
  first_task-some (row ∷ rest) task e = elim (Result-cases (task_from_row platform row)) [
    | inl (found, f) ↦ (row, rest, refl, ground (arith, e, f))
    | inr (error, f) ↦ absurd (ground (arith, e, f))
  ]

  -- The task that a claim is given is read from a row of the runner that is pending, or leased with a
  -- lease that has run out, and no other such row has a higher priority, or the same priority and an
  -- earlier creation, if the database orders the rows as the statement says.
  pub find_claimable_task_first :
      (runner_id : String) (now : Instant) (db : Database) (task : TaskRecord)
      → OrdersRows engine
      → (find_claimable_task platform engine runner_id now db).0 ≡ ok (some task)
      → (row : TaskRow) × In row (values db.tasks)
        × RowWaits runner_id now row
        × (task_from_row platform row ≡ ok task)
        × ((other : TaskRow)
            → In other (values db.tasks)
            → RowWaits runner_id now other
            → RowPrecedes row other)
  unfolding find_claimable_task
  find_claimable_task_first runner_id now db task orders e =
      let waits = is_claimable_row runner_id now in
      let open_rows = filter waits (values db.tasks) in
      let (row, rest, whole, same) =
        first_task-some (engine.order_by claim_rows_order open_rows) task e in
      let (among, least) =
        orders.first claim_rows_order claim_rows_order_total claim_rows_order_trans open_rows row
          rest whole in
      let (stored, passed) = In-filter waits row (values db.tasks) among in
      (
        row,
        stored,
        is_claimable_row-RowWaits runner_id now row passed,
        same,
        λ other k w. claim_rows_order-RowPrecedes row other (
            least other (
              filter-In waits other (values db.tasks) k
                (RowWaits-is_claimable_row runner_id now other w))),
      )
