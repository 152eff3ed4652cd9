-- ===== src/D1/Runners.antt =====
-- The statements on runners (`putRunner`, `getRunner` and `touchRunnerHeartbeat` of
-- `src/worker/d1-store.ts`).
use task_hub.Shared.{Option, none, some, List, String, map, if◌then◌else◌}
use task_hub.Shared.Dict.{lookup, insert}
use task_hub.Shared.Text.{is_empty}
use task_hub.Types.{Instant, RunnerRecord, TaskType, Result, ok, err, untyped}
use task_hub.Types.Json.{Value, arr, str, from_list, as_string, as_array_of}
use task_hub.Types.Names.{type_name, as_task_type}
use task_hub.Platform.{Platform}
use task_hub.Action.{Action, modify}
use task_hub.D1.{RunnerRow, Database, parsed}

-- A JSON text is cast to a list of texts with no test; what the source does with another value is
-- left open.
abbrev pub list_in : {A : Type 0} → (Value → Option A) → Result Value → Result (List A)
list_in read (err e) = err e
list_in read (ok value) = elim (as_array_of read value) [ none ↦ err untyped | some xs ↦ ok xs ]

-- `COALESCE(excluded.last_heartbeat_at, runners.last_heartbeat_at)`
abbrev pub coalesce : {A : Type 0} → Option A → Option A → Option A
coalesce none old = old
coalesce (some new) old = some new

-- `row.name ? String(row.name) : String(row.runner_id)`
abbrev pub name_column : Option String → String → String
name_column none runner_id = runner_id
name_column (some name) runner_id = if is_empty name then runner_id else name

abbrev pub upserted : RunnerRow → Option RunnerRow → RunnerRow
upserted row none = row
upserted row (some old) = record row {
  last_heartbeat_at = coalesce row.last_heartbeat_at old.last_heartbeat_at;
  created_at = old.created_at;
}

module _ (platform : Platform) where
  -- The values that `putRunner` binds.
  abbrev pub runner_row : RunnerRecord → RunnerRow
  runner_row runner = record {
    runner_id = runner.runner_id;
    name = some runner.name;
    credential_hash = runner.credential_hash;
    platform = runner.platform;
    labels_json = platform.stringify (arr (from_list (map str runner.labels)));
    task_types_json =
        platform.stringify (arr (from_list (map (λ type. str (type_name type)) runner.task_types)));
    capabilities_json = platform.stringify (arr (from_list (map str runner.capabilities)));
    last_heartbeat_at = runner.last_heartbeat_at;
    created_at = runner.created_at;
    updated_at = runner.updated_at;
  }

  unfoldable pub put_runner : RunnerRecord → Action Database (Unit {0})
  unfolding lookup insert
  put_runner runner = modify (λ db. record db {
    runners =
        insert runner.runner_id (upserted (runner_row runner) (lookup runner.runner_id db.runners))
          db.runners;
  })

  abbrev pub runner_with : RunnerRow → List String → List TaskType → List String → RunnerRecord
  runner_with row labels task_types capabilities = record {
    runner_id = row.runner_id;
    name = name_column row.name row.runner_id;
    credential_hash = row.credential_hash;
    platform = row.platform;
    labels = labels;
    task_types = task_types;
    capabilities = capabilities;
    last_heartbeat_at = row.last_heartbeat_at;
    created_at = row.created_at;
    updated_at = row.updated_at;
  }

  unfoldable pub runner_from_row : RunnerRow → Result RunnerRecord
  unfolding as_string as_array_of as_task_type
  runner_from_row row = elim (list_in as_string (parsed platform row.labels_json)) [
    | err e ↦ err e
    | ok labels ↦ elim (list_in as_task_type (parsed platform row.task_types_json)) [
      | err e ↦ err e
      | ok task_types ↦ elim (list_in as_string (parsed platform row.capabilities_json)) [
        | err e ↦ err e
        | ok capabilities ↦ ok (runner_with row labels task_types capabilities)
      ]
    ]
  ]

  unfoldable pub get_runner : String → Action Database (Option RunnerRecord)
  unfolding lookup runner_from_row
  get_runner runner_id db = elim (lookup runner_id db.runners) [
    | none ↦ (ok none, db)
    | some row ↦ elim (runner_from_row row) [
      | err e ↦ (err e, db)
      | ok runner ↦ (ok (some runner), db)
    ]
  ]

  abbrev pub touched_row : Instant → RunnerRow → RunnerRow
  touched_row timestamp row = record row {
    last_heartbeat_at = some timestamp;
    updated_at = timestamp;
  }

  unfoldable pub touch_runner_heartbeat : String → Instant → Action Database (Unit {0})
  unfolding lookup insert
  touch_runner_heartbeat runner_id timestamp = modify (λ db. elim (lookup runner_id db.runners) [
    | none ↦ db
    | some row ↦ record db { runners = insert runner_id (touched_row timestamp row) db.runners }
  ])
