-- ===== src/InMemory/Listing.antt =====
-- in-memory-store.ts: the two listings, page by page, and the store as a TaskStore.
use task_hub.Shared.{
  ℕ, Bool, true, false, Option, none, some, List, map, String, ◌==◌, ltb, nat_eq, ◌||◌, ◌&&◌,
  filter, take, last?, length, if◌then◌else◌,
}
use task_hub.Shared.Dict.{values}
use task_hub.Shared.Sort.{sort}
use task_hub.Shared.Text.{is_empty, text_lt}
use task_hub.Types.{
  TaskStatus, TaskType, RunnerStatus, RunnerRecord, RunnerView, TaskRecord, TaskCursor,
  RunnerStoreListQuery, TaskStoreListQuery, Page, Result, ok, err,
}
use task_hub.Types.Names.{status_eq, type_eq, runner_status_eq}
use task_hub.Platform.{Platform}
use task_hub.Pagination.{
  encode_runner_cursor, encode_task_cursor, decode_runner_cursor, decode_task_cursor,
}
use task_hub.Action.{Action, gets, lift, ◌>>=◌}
use task_hub.Store.{TaskStore}
use task_hub.InMemory.{
  InMemory, put_runner, get_runner, get_runner_view, view_in, touch_runner_heartbeat, put_task,
  get_task, find_task_by_idempotency_key, enqueue_task, find_claimable_task, find_current_task,
  save_logs, get_task_logs, save_webhook_delivery,
}

-- A query's tests: a missing value lets everything through, and so does the empty text.
abbrev pub matches_text : Option String → String → Bool
matches_text none value = true
matches_text (some wanted) value = is_empty wanted || value == wanted

abbrev pub matches_status : Option TaskStatus → TaskStatus → Bool
matches_status none status = true
matches_status (some wanted) status = status_eq status wanted

abbrev pub matches_type : Option TaskType → TaskType → Bool
matches_type none type = true
matches_type (some wanted) type = type_eq type wanted

abbrev pub matches_activity : Option RunnerStatus → RunnerStatus → Bool
matches_activity none status = true
matches_activity (some wanted) status = runner_status_eq status wanted

-- What is left after the last task of the page before.
abbrev pub is_after : Option TaskCursor → TaskRecord → Bool
is_after none task = true
is_after (some cursor) task =
    ltb task.created_at cursor.created_at
    || nat_eq task.created_at cursor.created_at && text_lt task.task_id cursor.task_id

abbrev pub is_after_runner : Option String → RunnerRecord → Bool
is_after_runner none runner = true
is_after_runner (some last_id) runner = is_empty last_id || text_lt last_id runner.runner_id

unfoldable pub matches : TaskStoreListQuery → Option TaskCursor → TaskRecord → Bool
matches query cursor task =
    matches_text query.runner_id task.runner_id
    && (matches_status query.status task.status
        && (matches_type query.type task.type && is_after cursor task))

-- One page of what was found, and the cursor after its last item if more was found.
unfoldable pub page_of : {T : Type 0} → (T → Result String) → ℕ → List T → Result (Page T)
page_of cursor_of limit found =
    let items = take limit found in
    if ltb limit (length found)
    then elim (last? items) [
      | none ↦ ok (record { items = items; next_cursor = none })
      | some last ↦ elim (cursor_of last) [
        | err e ↦ err e
        | ok text ↦ ok (record { items = items; next_cursor = some text })
      ]
    ]
    else ok (record { items = items; next_cursor = none })

module _ (platform : Platform) where
  -- `b.createdAt.localeCompare(a.createdAt) || b.taskId.localeCompare(a.taskId)`
  unfoldable pub newest_first : TaskRecord → TaskRecord → Bool
  newest_first a b =
      if ltb b.created_at a.created_at
      then true
      else if ltb a.created_at b.created_at
      then false
      else platform.locale_le b.task_id a.task_id

  unfoldable pub listed_tasks : TaskStoreListQuery → Option TaskCursor → InMemory → List TaskRecord
  unfolding matches newest_first
  listed_tasks query cursor s = sort newest_first (filter (matches query cursor) (values s.tasks))

  abbrev pub cursor_of_task : TaskRecord → Result String
  cursor_of_task task =
      encode_task_cursor platform (record { created_at = task.created_at; task_id = task.task_id })

  abbrev pub cursor_of_view : RunnerView → Result String
  cursor_of_view view = encode_runner_cursor platform view.runner_id

  unfoldable pub list_tasks : TaskStoreListQuery → Action InMemory (Page TaskRecord)
  unfolding page_of listed_tasks
  list_tasks query = do
    cursor ← lift (decode_task_cursor platform query.cursor)
    found ← gets (listed_tasks query cursor)
    lift (page_of cursor_of_task query.limit found)

  pub listed_views : RunnerStoreListQuery → Option String → InMemory → List RunnerView
  listed_views query last_id s =
      filter (λ view. matches_activity query.status view.status)
        (map (view_in s query.now) (
          sort (λ a b. platform.locale_le a.runner_id b.runner_id)
            (filter (is_after_runner last_id) (values s.runners))))

  unfoldable pub list_runner_views : RunnerStoreListQuery → Action InMemory (Page RunnerView)
  unfolding page_of listed_views
  list_runner_views query = do
    last_id ← lift (decode_runner_cursor platform query.cursor)
    found ← gets (listed_views query last_id)
    lift (page_of cursor_of_view query.limit found)

  abbrev pub in_memory : TaskStore InMemory
  in_memory = record {
    put_runner = put_runner;
    get_runner = get_runner;
    get_runner_view = get_runner_view;
    list_runner_views = list_runner_views;
    touch_runner_heartbeat = touch_runner_heartbeat;
    put_task = put_task;
    get_task = get_task;
    find_task_by_idempotency_key = find_task_by_idempotency_key;
    enqueue_task = enqueue_task;
    find_claimable_task = find_claimable_task;
    list_tasks = list_tasks;
    find_current_task = find_current_task;
    save_logs = save_logs;
    get_task_logs = get_task_logs platform;
    save_webhook_delivery = save_webhook_delivery;
  }
