-- ===== src/D1/Views.antt =====
-- The statements on the views of runners (`getRunnerView` and `listRunnerViews` of
-- `src/worker/d1-store.ts`).
use task_hub.Shared.{
  ◌≡◌, refl, ◌+◌, ◌-◌, Bool, true, ◌&&◌, Option, none, some, List, [], ◌∷◌, String, ◌==◌, arith,
  filter, map, take, head?, leb, ltb, nat_eq, not, ◌||◌, if◌then◌else◌,
}
use task_hub.Shared.Dict.{lookup, values}
use task_hub.Shared.Sort.{sort}
use task_hub.Shared.Text.{is_empty}
use task_hub.Types.{
  Instant, TaskType, RunnerStatus, online, stale, offline, CurrentTask, RunnerView,
  RunnerStoreListQuery, Page, Result, ok, err,
}
use task_hub.Types.Json.{as_string, as_array_of}
use task_hub.Types.Names.{as_task_type}
use task_hub.Platform.{Platform}
use task_hub.Pagination.{decode_runner_cursor}
use task_hub.Action.{Action}
use task_hub.InMemory.{is_in_progress, activity}
use task_hub.InMemory.Listing.{matches_activity, page_of, cursor_of_view}
use task_hub.D1.{TaskRow, RunnerRow, Database, Engine, parsed}
use task_hub.D1.Listing.{text_before}
use task_hub.D1.Runners.{list_in}

-- The `CASE` of the statements, with the instants of the two cutoffs.
pub row_status : Option Instant → (online_cutoff stale_cutoff : Instant) → RunnerStatus
row_status none online_cutoff stale_cutoff = offline
row_status (some heartbeat) online_cutoff stale_cutoff =
    if leb online_cutoff heartbeat
    then online
    else if leb stale_cutoff heartbeat
    then stale
    else offline

-- Both stores take a runner for online, stale or offline alike.
pub row_status-activity :
    (heartbeat : Option Instant) (now : Instant)
    → row_status heartbeat (now - 15000) (now - 60000) ≡ activity heartbeat now
unfolding row_status activity
row_status-activity none now = refl
row_status-activity (some heartbeat) now = ground arith

-- A row of the views: a runner, its status, and the task that it works on.
pub record ViewRow : Type 0 where
  pub runner : RunnerRow
  pub status : RunnerStatus
  pub current_task : Option TaskRow

-- `ct.updated_at DESC, ct.task_id DESC`
abbrev pub latest_first : TaskRow → TaskRow → Bool
latest_first a b =
    ltb b.updated_at a.updated_at
    || nat_eq a.updated_at b.updated_at && not (text_before a.task_id b.task_id)

-- `COALESCE(r.name, r.runner_id)`
abbrev pub view_name : RunnerRow → String
view_name row = elim row.name [ none ↦ row.runner_id | some name ↦ name ]

-- `row.current_task_id ? {...} : undefined`
abbrev pub current_of : Option TaskRow → Option CurrentTask
current_of none = none
current_of (some row) =
    if is_empty row.task_id
    then none
    else some (record {
      task_id = row.task_id;
      name = row.name;
      status = row.status;
      updated_at = row.updated_at;
    })

module _ (platform : Platform) (engine : Engine) where
  -- The join of a runner with its current task.
  abbrev pub view_row : Database → Instant → RunnerRow → ViewRow
  view_row db now row = record {
    runner = row;
    status = row_status row.last_heartbeat_at (now - 15000) (now - 60000);
    current_task = head? (
        engine.order_by latest_first (
          filter (λ task. task.runner_id == row.runner_id && is_in_progress task.status)
            (values db.tasks)));
  }

  abbrev pub read_view : ViewRow → List String → List TaskType → List String → RunnerView
  read_view row labels task_types capabilities = record {
    runner_id = row.runner.runner_id;
    name = view_name row.runner;
    platform = row.runner.platform;
    labels = labels;
    task_types = task_types;
    capabilities = capabilities;
    last_heartbeat_at = row.runner.last_heartbeat_at;
    status = row.status;
    current_task = current_of row.current_task;
    created_at = row.runner.created_at;
    updated_at = row.runner.updated_at;
  }

  unfoldable pub view_from_row : ViewRow → Result RunnerView
  unfolding as_string as_array_of as_task_type
  view_from_row row = elim (list_in as_string (parsed platform row.runner.labels_json)) [
    | err e ↦ err e
    | ok labels ↦ elim (list_in as_task_type (parsed platform row.runner.task_types_json)) [
      | err e ↦ err e
      | ok task_types ↦ elim (list_in as_string (parsed platform row.runner.capabilities_json)) [
        | err e ↦ err e
        | ok capabilities ↦ ok (read_view row labels task_types capabilities)
      ]
    ]
  ]

  unfoldable pub get_runner_view : String → Instant → Action Database (Option RunnerView)
  unfolding lookup view_from_row row_status
  get_runner_view runner_id now db = elim (lookup runner_id db.runners) [
    | none ↦ (ok none, db)
    | some row ↦ elim (view_from_row (view_row db now row)) [
      | err e ↦ (err e, db)
      | ok view ↦ (ok (some view), db)
    ]
  ]

  -- `result.results.map(runnerViewFromRow)`
  pub views_of : List ViewRow → Result (List RunnerView)
  unfolding view_from_row
  views_of [] = ok []
  views_of (row ∷ rows) =
      let rest = views_of rows in
      elim (view_from_row row) [
        | err e ↦ err e
        | ok view ↦ elim rest [ err e ↦ err e | ok views ↦ ok (view ∷ views) ]
      ]

  -- `runner_id > ?`, unless the cursor names no runner.
  abbrev pub is_view_after : Option String → ViewRow → Bool
  is_view_after none row = true
  is_view_after (some last_id) row = is_empty last_id || text_before last_id row.runner.runner_id

  -- The primary key leaves no tie.
  pub selected_views : RunnerStoreListQuery → Option String → Database → List ViewRow
  unfolding row_status
  selected_views query last_id db = take (query.limit + 1) (
      sort (λ a b. not (text_before b.runner.runner_id a.runner.runner_id))
        (filter (λ row. matches_activity query.status row.status && is_view_after last_id row)
          (map (view_row db query.now) (values db.runners))))

  abbrev paged_views : RunnerStoreListQuery → Result (List RunnerView) → Result (Page RunnerView)
  paged_views query (err e) = err e
  paged_views query (ok views) = page_of (cursor_of_view platform) query.limit views

  abbrev views_after :
      RunnerStoreListQuery → Database → Result (Option String) → Result (Page RunnerView)
  views_after query db (err e) = err e
  views_after query db (ok last_id) = paged_views query (views_of (selected_views query last_id db))

  unfoldable pub list_runner_views : RunnerStoreListQuery → Action Database (Page RunnerView)
  unfolding views_of selected_views
  list_runner_views query db =
      (views_after query db (decode_runner_cursor platform query.cursor), db)
