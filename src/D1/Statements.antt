-- ===== src/D1/Statements.antt =====
-- The statements on tasks and on deliveries (`src/worker/d1-store.ts`), as functions on the tables.
use task_hub.Shared.{
  Bool, true, false, ◌&&◌, Option, none, some, List, [], ◌∷◌, ◌++◌, String, ◌==◌, filter, any,
  head?, leb, if◌then◌else◌,
}
use task_hub.Shared.Int.{ltb_ℤ}
use task_hub.Shared.Dict.{lookup, insert, values}
use task_hub.Types.{Instant, TaskRecord, WebhookDelivery, ok, err, internal}
use task_hub.Platform.{Platform}
use task_hub.Action.{Action, modify}
use task_hub.InMemory.{is_open_for, is_in_progress}
use task_hub.D1.{TaskRow, DeliveryRow, Database, Engine, task_row, task_from_row, first_task}

-- The columns that `ON CONFLICT(task_id) DO UPDATE` sets; the others stay as they are.
abbrev pub updated_row : TaskRow → TaskRow → TaskRow
updated_row row excluded = record row {
  status = excluded.status;
  lease_id = excluded.lease_id;
  lease_expires_at = excluded.lease_expires_at;
  result_json = excluded.result_json;
  exit_code = excluded.exit_code;
  error = excluded.error;
  updated_at = excluded.updated_at;
}

abbrev pub has_key_column : String → TaskRow → Bool
has_key_column key row = elim row.idempotency_key [ none ↦ false | some k ↦ k == key ]

-- `idempotency_key TEXT UNIQUE`: a NULL is no duplicate.
abbrev pub is_duplicate : Option String → List TaskRow → Bool
is_duplicate none rows = false
is_duplicate (some key) rows = any (has_key_column key) rows

-- The insertion of a row, with the constraint on the key and the reference to the runner.
unfoldable pub insert_row : TaskRow → Action Database (Unit {0})
unfolding lookup insert
insert_row row db =
    if is_duplicate row.idempotency_key (values db.tasks)
    then (err (internal "UNIQUE constraint failed: tasks.idempotency_key"), db)
    else elim (lookup row.runner_id db.runners) [
      | none ↦ (err (internal "FOREIGN KEY constraint failed"), db)
      | some runner ↦ (ok tt, record db { tasks = insert row.task_id row db.tasks })
    ]

unfoldable pub upsert_row : TaskRow → Option TaskRow → Action Database (Unit {0})
unfolding insert_row
upsert_row row none = insert_row row
upsert_row row (some old) =
    modify (λ db. record db { tasks = insert row.task_id (updated_row old row) db.tasks })

-- The conditions and the order of the statement of `findClaimableTask`.
abbrev pub is_claimable_row : String → Instant → TaskRow → Bool
is_claimable_row runner_id now row =
    row.runner_id == runner_id && is_open_for row.status row.lease_expires_at now

abbrev pub claim_rows_order : TaskRow → TaskRow → Bool
claim_rows_order a b =
    if ltb_ℤ b.priority a.priority
    then true
    else if ltb_ℤ a.priority b.priority
    then false
    else leb a.created_at b.created_at

abbrev delivery_row : WebhookDelivery → DeliveryRow
delivery_row delivery = record {
  event_id = delivery.event_id;
  task_id = delivery.payload.task_id;
  event_type = delivery.event_type;
  callback_url = delivery.callback_url;
  signature = delivery.signature;
  created_at = delivery.created_at;
}

module _ (platform : Platform) (engine : Engine) where
  unfoldable pub put_task : TaskRecord → Action Database (Unit {0})
  unfolding upsert_row
  put_task task db = upsert_row (task_row platform task) (lookup task.task_id db.tasks) db

  unfoldable pub get_task : String → Action Database (Option TaskRecord)
  unfolding lookup task_from_row
  get_task task_id db = (first_task platform (lookup task_id db.tasks), db)

  unfoldable pub find_task_by_idempotency_key : String → Action Database (Option TaskRecord)
  unfolding task_from_row
  find_task_by_idempotency_key key db =
      (first_task platform (head? (filter (has_key_column key) (values db.tasks))), db)

  unfoldable pub enqueue_task : String → Action Database (Unit {0})
  enqueue_task task_id = modify (λ db. record db { sent = db.sent ++ task_id ∷ [] })

  unfoldable pub find_claimable_task : String → Instant → Action Database (Option TaskRecord)
  unfolding task_from_row
  find_claimable_task runner_id now db = (
    first_task platform (
        head? (
          engine.order_by claim_rows_order
            (filter (is_claimable_row runner_id now) (values db.tasks)))),
    db,
  )

  unfoldable pub find_current_task : String → Action Database (Option TaskRecord)
  unfolding task_from_row
  find_current_task runner_id db = (
    first_task platform (
        head? (
          engine.order_by (λ a b. leb b.updated_at a.updated_at)
            (filter (λ row. row.runner_id == runner_id && is_in_progress row.status)
              (values db.tasks)))),
    db,
  )

  -- `event_id` is the primary key, and `task_id` references `tasks`.
  unfoldable pub save_webhook_delivery : WebhookDelivery → Action Database (Unit {0})
  unfolding lookup
  save_webhook_delivery delivery db =
      if any (λ row. row.event_id == delivery.event_id) db.deliveries
      then (err (internal "UNIQUE constraint failed: webhook_deliveries.event_id"), db)
      else elim (lookup delivery.payload.task_id db.tasks) [
        | none ↦ (err (internal "FOREIGN KEY constraint failed"), db)
        | some row ↦ (ok tt, record db { deliveries = db.deliveries ++ delivery_row delivery ∷ [] })
      ]
