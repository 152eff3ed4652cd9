-- ===== src/Tests/DatabaseWitnesses.antt =====
-- The theorems on the statements of the database, at tables with one runner and two tasks. The
-- engine here leaves rows that tie in the order in which they were inserted.
use mathlib.Core.Path.{subst}
use mathlib.Core.List.Permᴰ as PermD
use text.Mathlib.Text.{starts_with}
use task_hub.Shared.{
  String, filter, map, ◌≡◌, refl, ap, Bool, Bool-cases, true, false, inl, inr, Option, none, some,
  List, [], ◌∷◌, arith, In, All-In,
}
use task_hub.Shared.Dict.{Dict, lookup, insert, values}
use task_hub.Shared.Sort.{sort, insert_sorted, sort-IsSorted, In-sort, sort-In}
use task_hub.Types.{
  LogEntry, stdout, TaskRecord, TaskCursor, TaskStoreListQuery, Page, linux, ok, succeeded,
}
use task_hub.Shared.Int.{pos}
use task_hub.Types.Json.{arr, from_list, obj, no_fields}
use task_hub.Platform.{Platform}
use task_hub.Pagination.{decode_task_cursor, encode_task_cursor}
use task_hub.InMemory.{InMemory, put_task as put_in_memory, get_task as get_in_memory}
use task_hub.InMemory.Listing.{page_of}
use task_hub.D1.{TaskRow, RunnerRow, Database, Engine, task_row, task_from_row}
use task_hub.D1.Statements.{put_task, get_task, find_claimable_task}
use task_hub.D1.Tasks.{IsPlain, Mirrors, is_new, put_task-Mirrors, get_task-Mirrors}
use task_hub.D1.Claims.{OrdersRows, RowWaits, RowPrecedes, find_claimable_task_first}
use task_hub.D1.Listing.{list_tasks}
use task_hub.D1.Pages.{SortsRows}
use task_hub.D1.ListedRows.{IsRowListing, list_tasks-IsRowListing}
use task_hub.Shared.Perms.{sort-Perm}
use task_hub.D1.Logs.{Bucket, entry_value, keys_of, save_logs, get_task_logs}
use task_hub.D1.Logs.RoundTrip.{ListsPrefix, get_task_logs-save_logs}
use task_hub.Tests.{toy}
use task_hub.Tests.Witnesses.{task_a, task_b, two_tasks}

-- JSON of the tasks here is that of an object with no field.
abbrev plain : Platform
plain = record toy { parse_json = λ text. some (obj no_fields) }

abbrev engine : Engine
engine = record { order_by = λ le rows. sort le rows }

abbrev r1_row : RunnerRow
r1_row = record {
  runner_id = "r1";
  name = none;
  credential_hash = "6162";
  platform = linux;
  labels_json = "[]";
  task_types_json = "[\"shell\"]";
  capabilities_json = "[]";
  last_heartbeat_at = none;
  created_at = 1000;
  updated_at = 1000;
}

abbrev no_tasks : Database
no_tasks = record { runners = ("r1", r1_row) ∷ []; tasks = []; deliveries = []; sent = [] }

abbrev both_rows : Database
both_rows = record no_tasks {
  tasks = ("task_a", task_row plain task_a) ∷ ("task_b", task_row plain task_b) ∷ [];
}

abbrev no_task_store : InMemory
no_task_store = record two_tasks { tasks = [] }

no_tasks-Mirrors : Mirrors plain no_tasks no_task_store
unfolding lookup
no_tasks-Mirrors = record { rows = λ id. refl }

put_task-Mirrors_example :
    ((put_task plain engine task_a no_tasks).0 ≡ ok tt)
    × Mirrors plain (put_task plain engine task_a no_tasks).1 (put_in_memory task_a no_task_store).1
unfolding lookup
put_task-Mirrors_example =
    put_task-Mirrors plain engine no_tasks no_task_store no_tasks-Mirrors task_a
      (is_new refl refl r1_row refl)

-- The first task after its completion.
abbrev task_done : TaskRecord
task_done = record task_a {
  status = succeeded;
  result = some (obj no_fields);
  exit_code = some (pos 0);
  lease_id = some "lease_u1";
}

task_done-IsPlain : IsPlain plain task_done
task_done-IsPlain = record {
  payload = record { parsed = refl; written = refl };
  result = inr (no_fields, refl, record { parsed = refl; written = refl });
  callback_url = λ e. absurd (cc);
  idempotency_key = λ e. absurd (cc);
  lease_id = λ e. absurd (cc);
  error = λ e. absurd (cc);
}

put_done :
    ((put_task plain engine task_done no_tasks).0 ≡ ok tt)
    × Mirrors plain
        (put_task plain engine task_done no_tasks).1
        (put_in_memory task_done no_task_store).1
unfolding lookup
put_done =
    put_task-Mirrors plain engine no_tasks no_task_store no_tasks-Mirrors task_done
      (is_new refl refl r1_row refl)

abbrev or_task_a : Option TaskRecord → TaskRecord
or_task_a none = task_a
or_task_a (some task) = task

get_task-Mirrors_example :
    (get_task plain engine "task_a" (put_task plain engine task_done no_tasks).1).0
    ≡ (get_in_memory "task_a" (put_in_memory task_done no_task_store).1).0
unfolding lookup insert put_in_memory
get_task-Mirrors_example =
    get_task-Mirrors plain engine (put_task plain engine task_done no_tasks).1
      (put_in_memory task_done no_task_store).1 put_done.1 "task_a"
      (λ task e. subst (λ t. IsPlain plain t) (ap or_task_a e) task_done-IsPlain)

self :
    (le : TaskRow → TaskRow → Bool)
    → ((x y : TaskRow) → le x y ≡ false → le y x ≡ true)
    → (x : TaskRow) → le x x ≡ true
self le total x = elim (Bool-cases (le x x)) [ inl e ↦ e | inr e ↦ total x x e ]

engine-OrdersRows : OrdersRows engine
engine-OrdersRows = record {
  first = λ le total trans rows row rest e. (
    In-sort le row rows (rw e (inl refl)),
    λ other k. elim (rw e at (sort-In le other rows k)) [
      | inl same ↦ rw same (self le total row)
      | inr deep ↦
          All-In (λ x. le row x ≡ true) other rest (rw e at (sort-IsSorted le total trans rows)).0
            deep
    ],
  );
}

find_claimable_task_first_example :
    (row : TaskRow) × In row (values both_rows.tasks)
    × RowWaits "r1" 4000 row
    × (task_from_row plain row ≡ ok task_b)
    × ((other : TaskRow)
        → In other (values both_rows.tasks)
        → RowWaits "r1" 4000 other
        → RowPrecedes row other)
unfolding find_claimable_task sort insert_sorted
find_claimable_task_first_example =
    find_claimable_task_first plain engine "r1" 4000 both_rows task_b engine-OrdersRows refl

abbrev query : TaskStoreListQuery
query = record { runner_id = some "r1"; status = none; type = none; limit = 1; cursor = none }

abbrev newest : Page TaskRecord
newest = record { items = task_b ∷ []; next_cursor = some "{}" }

engine-SortsRows : SortsRows engine
engine-SortsRows = record {
  permutes = λ le rows. sort-Perm le rows;
  sorts = λ le total trans rows. sort-IsSorted le total trans rows;
}

list_tasks-IsRowListing_example :
    (cursor : Option TaskCursor) × (decode_task_cursor plain none ≡ ok cursor)
    × IsRowListing plain query cursor (values both_rows.tasks) newest
unfolding list_tasks sort insert_sorted page_of decode_task_cursor encode_task_cursor
list_tasks-IsRowListing_example =
    list_tasks-IsRowListing plain engine query both_rows newest engine-SortsRows (omega arith) refl

abbrev entry : LogEntry
entry = record { stream = stdout; message = "done"; timestamp = "2026-01-01T00:00:00.000Z" }

abbrev reads_entry : Platform
reads_entry = record toy { parse_json = λ text. some (arr (from_list (entry_value entry ∷ []))) }

-- A bucket with one key on a page, and with an object of another task.
abbrev keys_under : String → Dict String → List String
keys_under prefix objects =
    filter (λ key. starts_with key prefix) (map (λ object. object.0) objects)

abbrev one_on_each : Bucket
one_on_each = record { pages = λ prefix objects. map (λ key. key ∷ []) (keys_under prefix objects) }

singles : (keys : List String) → keys_of (map (λ key. key ∷ []) keys) ≡ keys
singles [] = refl
singles (key ∷ keys) = ap (◌∷◌ key) (singles keys)

one_on_each-ListsPrefix : ListsPrefix one_on_each
one_on_each-ListsPrefix = record {
  all = λ prefix objects.
      rw (singles (keys_under prefix objects)) (PermD.refl (keys_under prefix objects));
}

abbrev other_object : Dict String
other_object = ("tasks/task_b/logs/1-lease_u1.json", "[]") ∷ []

get_task_logs-save_logs_example :
    (get_task_logs reads_entry one_on_each "task_a"
      (save_logs reads_entry 7000 "task_a" (some "lease_u1") (entry ∷ []) other_object).1).0
    ≡ ok (record { entries = entry ∷ []; invalid_objects = 0 })
unfolding sort insert_sorted save_logs
get_task_logs-save_logs_example =
    get_task_logs-save_logs reads_entry one_on_each 7000 "task_a" (some "lease_u1") (entry ∷ [])
      other_object refl one_on_each-ListsPrefix (refl, tt)
