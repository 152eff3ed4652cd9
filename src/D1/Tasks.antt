-- ===== src/D1/Tasks.antt =====
-- The statements on tasks beside the store of the tests (`putTask` and `getTask` of
-- `src/worker/d1-store.ts`).
use task_hub.Shared.{
  ◌≡◌, ◌≢◌, refl, ◌∙◌, ◌⊎◌, inl, inr, Bool-cases, Option-cases, false, Option, none, some, String,
  ◌==◌,
}
use task_hub.Shared.Dict.{lookup, insert, lookup-insert, values}
use task_hub.Shared.Text.{is_empty}
use task_hub.Types.Json.{Value, Fields, obj}
use task_hub.Types.{TaskRecord, ok, err, internal}
use task_hub.Platform.{Platform}
use task_hub.InMemory.{InMemory, put_task as put_in_memory, get_task as get_in_memory}
use task_hub.Service.Changes.{SameSubmission}
use task_hub.D1.{
  TaskRow, RunnerRow, Database, Engine, text_column, result_column, task_row, parsed_result,
  task_from_row, first_task,
}
use task_hub.D1.Statements.{insert_row, upsert_row, updated_row, is_duplicate, put_task, get_task}

module _ (platform : Platform) where
  -- The value reads back from its JSON, which is not the empty text.
  pub record ReadsBack (value : Value) : Type 0 where
    pub parsed : platform.parse_json (platform.stringify value) ≡ some value
    pub written : is_empty (platform.stringify value) ≡ false

  -- A task whose values read back from their JSON, whose result, if there is one, is an object, and
  -- none of whose optional texts is empty.
  pub record IsPlain (task : TaskRecord) : Type 0 where
    pub payload : ReadsBack task.payload
    pub result :
        (task.result ≡ none)
        ⊎ ((fields : Fields) × (task.result ≡ some (obj fields)) × ReadsBack (obj fields))
    pub callback_url : task.callback_url ≢ some ""
    pub idempotency_key : task.idempotency_key ≢ some ""
    pub lease_id : task.lease_id ≢ some ""
    pub error : task.error ≢ some ""

  text_column-full : (text : Option String) → text ≢ some "" → text_column text ≡ text
  text_column-full none h = refl
  text_column-full (some String.[]) h = absurd (h refl)
  text_column-full (some (String.◌∷◌ c s)) h = refl

  parsed_result-result_column :
      (result : Option Value)
      → (result ≡ none)
        ⊎ ((fields : Fields) × (result ≡ some (obj fields)) × ReadsBack (obj fields))
      → parsed_result platform (result_column platform result) ≡ ok result
  parsed_result-result_column result (inl e) = rw e refl
  parsed_result-result_column result (inr (content, e, back)) =
      rw (e, back.written, back.parsed) refl

  task_from_row-task_row :
      (task : TaskRecord) → IsPlain task → task_from_row platform (task_row platform task) ≡ ok task
  unfolding task_from_row
  task_from_row-task_row task h =
      rw
        (
          task_from_row,
          h.payload.parsed,
          parsed_result-result_column task.result h.result,
          text_column-full task.callback_url h.callback_url,
          text_column-full task.idempotency_key h.idempotency_key,
          text_column-full task.lease_id h.lease_id,
          text_column-full task.error h.error,
        )
        refl

  abbrev rows_of : Option TaskRecord → Option TaskRow
  rows_of none = none
  rows_of (some task) = some (task_row platform task)

  -- The rows of the database are those of the tasks in the store of the tests.
  pub record Mirrors (db : Database) (s : InMemory) : Type 0 where
    pub rows : (id : String) → lookup id db.tasks ≡ rows_of (lookup id s.tasks)

  -- What the tables can take: a new task whose runner is registered and whose key is free, or a new
  -- state of a task that is there.
  pub data IsStorable (db : Database) (s : InMemory) (task : TaskRecord) : Type 0 where
    is_new :
        lookup task.task_id s.tasks ≡ none
        → is_duplicate task.idempotency_key (values db.tasks) ≡ false
        → (runner : RunnerRow) → lookup task.runner_id db.runners ≡ some runner
        → IsStorable db s task
    is_update :
        (old : TaskRecord)
        → lookup task.task_id s.tasks ≡ some old
        → SameSubmission old task
        → IsStorable db s task

  updated-task_row :
      (old task : TaskRecord)
      → SameSubmission old task
      → updated_row (task_row platform old) (task_row platform task) ≡ task_row platform task
  updated-task_row old task h =
      rw
        (
          h.task_id, h.runner_id, h.type, h.name, h.payload, h.timeout_seconds, h.priority,
          h.callback_url, h.idempotency_key, h.created_at,
        )
        refl

  inserted-Mirrors :
      (db : Database) (s : InMemory) (task : TaskRecord)
      → Mirrors db s
      → Mirrors
          (record db { tasks = insert task.task_id (task_row platform task) db.tasks })
          (record s { tasks = insert task.task_id task s.tasks })
  inserted-Mirrors db s task m = record {
    rows = λ id.
        lookup-insert task.task_id id (task_row platform task) db.tasks
        ∙ (elim (Bool-cases (task.task_id == id)) [
          | inl e ↦ rw (lookup-insert task.task_id id task s.tasks, e) refl
          | inr e ↦ rw (lookup-insert task.task_id id task s.tasks, e) (m.rows id)
        ]);
  }

  module _ (engine : Engine) (db : Database) (s : InMemory) (m : Mirrors db s) where
    -- Putting a task that the tables can take succeeds, and the database then mirrors what the same
    -- call makes of the store of the tests.
    pub put_task-Mirrors :
        (task : TaskRecord)
        → IsStorable db s task
        → ((put_task platform engine task db).0 ≡ ok tt)
          × Mirrors (put_task platform engine task db).1 (put_in_memory task s).1
    unfolding put_task put_in_memory
    put_task-Mirrors task (is_new e f runner g) =
        rw (put_task, m.rows task.task_id, e, upsert_row, insert_row, f, g)
          (refl, inserted-Mirrors db s task m)
    put_task-Mirrors task (is_update old e h) =
        rw (put_task, m.rows task.task_id, e, upsert_row, updated-task_row old task h)
          (refl, inserted-Mirrors db s task m)

    -- A task is read alike from the database and from the store of the tests, every field of it, if its
    -- payload and its result read back from their JSON, the result is an object or missing, and none
    -- of its optional texts is empty. A task that is in neither is found in neither.
    pub get_task-Mirrors :
        (task_id : String)
        → ((task : TaskRecord) → lookup task_id s.tasks ≡ some task → IsPlain task)
        → (get_task platform engine task_id db).0 ≡ (get_in_memory task_id s).0
    unfolding get_task get_in_memory
    get_task-Mirrors task_id plain = elim (Option-cases (lookup task_id s.tasks)) [
      | inl e ↦ rw (get_task, m.rows task_id, e) refl
      | inr (task, e) ↦
          rw (get_task, m.rows task_id, e, first_task, task_from_row-task_row task (plain task e))
            refl
    ]

    -- A new task of a runner that is not registered is refused, and nothing is written.
    pub put_task-unregistered :
        (task : TaskRecord)
        → lookup task.task_id s.tasks ≡ none
        → is_duplicate task.idempotency_key (values db.tasks) ≡ false
        → lookup task.runner_id db.runners ≡ none
        → put_task platform engine task db ≡ (err (internal "FOREIGN KEY constraint failed"), db)
    unfolding put_task
    put_task-unregistered task e f g =
        rw (put_task, m.rows task.task_id, e, upsert_row, insert_row, f, g) refl
