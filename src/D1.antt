-- ===== src/D1.antt =====
-- The tables of the task store of the deployed worker, and their rows as records
-- (`src/worker/d1-store.ts`, with the tables of `cloudflare/migrations`).
pub mod Statements
pub mod Tasks
pub mod Claims
pub mod Listing
pub mod Pages
pub mod ListedRows
pub mod Runners
pub mod Views
pub mod Logs
use task_hub.Shared.{
  Bool, true, false, not, ◌&&◌, ◌||◌, Option, none, some, List, [], ◌∷◌, ◌++◌, String, ◌==◌, filter,
  any, head?, take, leb, ltb, nat_eq, if◌then◌else◌,
}
use task_hub.Shared.Int.{ℤ, pos, ltb_ℤ}
use task_hub.Shared.Dict.{Dict, lookup, insert, values}
use task_hub.Shared.Text.{is_empty, text_lt}
use task_hub.Types.{
  Instant, OsPlatform, TaskType, TaskStatus, TaskRecord, TaskCursor, TaskStoreListQuery, Page,
  WebhookDelivery, Result, ok, err, internal,
}
use task_hub.Types.Json.{Value, undefined, null, bool, int, str}
use task_hub.Platform.{Platform}
use task_hub.Action.{Action, pure, raise, gets, modify, lift, ◌>>=◌, ◌>>◌}
use task_hub.Pagination.{decode_task_cursor}
use task_hub.InMemory.{is_open_for, is_in_progress}
use task_hub.InMemory.Listing.{matches_text, matches_status, matches_type, page_of, cursor_of_task}

-- A row of `tasks`. A column that may be NULL is an option.
pub record TaskRow : Type 0 where
  pub task_id : String
  pub runner_id : String
  pub type : TaskType
  pub name : String
  pub payload_json : String
  pub status : TaskStatus
  pub timeout_seconds : ℤ
  pub priority : ℤ
  pub callback_url : Option String
  pub idempotency_key : Option String
  pub lease_id : Option String
  pub lease_expires_at : Option Instant
  pub result_json : Option String
  pub exit_code : Option ℤ
  pub error : Option String
  pub created_at : Instant
  pub updated_at : Instant

-- A row of `webhook_deliveries`, but for its payload.
pub record DeliveryRow : Type 0 where
  pub event_id : String
  pub task_id : String
  pub event_type : String
  pub callback_url : String
  pub signature : String
  pub created_at : Instant

-- A row of `runners`.
pub record RunnerRow : Type 0 where
  pub runner_id : String
  pub name : Option String
  pub credential_hash : String
  pub platform : OsPlatform
  pub labels_json : String
  pub task_types_json : String
  pub capabilities_json : String
  pub last_heartbeat_at : Option Instant
  pub created_at : Instant
  pub updated_at : Instant

-- The tables, by their primary keys, and the messages that were sent to the queue.
pub record Database : Type 0 where
  pub runners : Dict RunnerRow
  pub tasks : Dict TaskRow
  pub deliveries : List DeliveryRow
  pub sent : List String

-- The rows that SQLite gives for an `ORDER BY`: it is free where the order leaves a tie.
pub record Engine : Type 0 where
  pub order_by : (TaskRow → TaskRow → Bool) → List TaskRow → List TaskRow

-- JavaScript's test of a value.
abbrev truthy : Value → Bool
truthy undefined = false
truthy null = false
truthy (bool b) = b
truthy (int (pos n)) = not (nat_eq n 0)
truthy (str s) = not (is_empty s)
truthy _ = true

-- `column ? String(column) : undefined`: the empty text is read as a missing value.
abbrev pub text_column : Option String → Option String
text_column none = none
text_column (some s) = if is_empty s then none else some s

module _ (platform : Platform) where
  -- `task.result ? JSON.stringify(task.result) : null`
  abbrev pub result_column : Option Value → Option String
  result_column none = none
  result_column (some value) = if truthy value then some (platform.stringify value) else none

  -- The values that `putTask` binds.
  abbrev pub task_row : TaskRecord → TaskRow
  task_row task = record {
    task_id = task.task_id;
    runner_id = task.runner_id;
    type = task.type;
    name = task.name;
    payload_json = platform.stringify task.payload;
    status = task.status;
    timeout_seconds = task.timeout_seconds;
    priority = task.priority;
    callback_url = task.callback_url;
    idempotency_key = task.idempotency_key;
    lease_id = task.lease_id;
    lease_expires_at = task.lease_expires_at;
    result_json = result_column task.result;
    exit_code = task.exit_code;
    error = task.error;
    created_at = task.created_at;
    updated_at = task.updated_at;
  }

  -- `JSON.parse`, which throws on a text that is no JSON.
  abbrev pub parsed : String → Result Value
  parsed text = elim (platform.parse_json text) [
    | none ↦ err (internal "SyntaxError")
    | some value ↦ ok value
  ]

  -- `row.result_json ? JSON.parse(row.result_json) : undefined`
  abbrev pub parsed_result : Option String → Result (Option Value)
  parsed_result none = ok none
  parsed_result (some text) =
      if is_empty text
      then ok none
      else elim (parsed text) [ err e ↦ err e | ok value ↦ ok (some value) ]

  -- `taskFromRow`, with its two texts parsed.
  abbrev pub read_row : TaskRow → Value → Option Value → TaskRecord
  read_row row payload result = record {
    task_id = row.task_id;
    runner_id = row.runner_id;
    type = row.type;
    name = row.name;
    payload = payload;
    status = row.status;
    timeout_seconds = row.timeout_seconds;
    priority = row.priority;
    callback_url = text_column row.callback_url;
    idempotency_key = text_column row.idempotency_key;
    lease_id = text_column row.lease_id;
    lease_expires_at = row.lease_expires_at;
    result = result;
    exit_code = row.exit_code;
    error = text_column row.error;
    created_at = row.created_at;
    updated_at = row.updated_at;
  }

  unfoldable pub task_from_row : TaskRow → Result TaskRecord
  task_from_row row = elim (parsed row.payload_json) [
    | err e ↦ err e
    | ok payload ↦ elim (parsed_result row.result_json) [
      | err e ↦ err e
      | ok result ↦ ok (read_row row payload result)
    ]
  ]

  -- `row ? taskFromRow(row) : undefined`
  abbrev pub first_task : Option TaskRow → Result (Option TaskRecord)
  first_task none = ok none
  first_task (some row) = elim (task_from_row row) [ err e ↦ err e | ok task ↦ ok (some task) ]
