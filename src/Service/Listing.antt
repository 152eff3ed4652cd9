-- ===== src/Service/Listing.antt =====
-- The listing of tasks for administrators (`listTasks` of `src/worker/task-service.ts`).
use task_hub.Shared.{◌≡◌, inl, inr, ℕ, ◌≤◌, true, Option, In, In-left, arith}
use task_hub.Shared.Int.{pos}
use task_hub.Shared.Dict.{values}
use task_hub.Types.{
  TaskRecord, TaskCursor, TaskListQuery, TaskStoreListQuery, Page, Result-cases, ok,
}
use task_hub.Types.Json.{Value, undefined, int}
use task_hub.Platform.{Platform}
use task_hub.Pagination.{decode_task_cursor}
use task_hub.InMemory.{InMemory}
use task_hub.InMemory.Listing.{
  in_memory, cursor_of_task, listed_tasks, matches, matches_text, matches_status, matches_type,
}
use task_hub.InMemory.Pages.{IsPage, list_tasks-IsPage, In-listed_tasks}
use task_hub.InMemory.Parts.{IsWanted, IsListing, listed_tasks-IsListing}
use task_hub.Service.{normalize_limit, list_tasks}
use task_hub.Service.Records.{ServiceOptions}

-- A limit that is accepted is between 1 and 100.
normalize_limit-bounds :
    (limit : Value) (n : ℕ) → normalize_limit limit ≡ ok n → (1 ≤ n) × (n ≤ 100)
unfolding normalize_limit
normalize_limit-bounds (int (pos m)) n h = (ground (arith, h), ground (arith, h))
normalize_limit-bounds undefined n h = (ground (arith, h), ground (arith, h))
normalize_limit-bounds _ n h = absurd (ground (arith, h))

abbrev pub store_query : TaskListQuery → ℕ → TaskStoreListQuery
store_query query limit = record {
  runner_id = query.runner_id;
  status = query.status;
  type = query.type;
  limit = limit;
  cursor = query.cursor;
}

module _ (platform : Platform) (options : ServiceOptions) where
  list_tasks-IsPage_of :
      (query : TaskListQuery) (s t : InMemory) (page : Page TaskRecord)
      → list_tasks (in_memory platform) platform options query s ≡ (ok page, t)
      → (t ≡ s)
        × ((limit : ℕ) × (normalize_limit query.limit ≡ ok limit)
            × (limit ≤ 100)
            × ((cursor : Option TaskCursor) × (decode_task_cursor platform query.cursor ≡ ok cursor)
                × IsPage
                    (cursor_of_task platform)
                    limit
                    (listed_tasks platform (store_query query limit) cursor s)
                    page))
  unfolding list_tasks
  list_tasks-IsPage_of query s t page e = elim (Result-cases (normalize_limit query.limit)) [
    | inl (limit, f) ↦
        let bounds = normalize_limit-bounds query.limit limit f in
        let (same, found) =
          list_tasks-IsPage platform (store_query query limit) s t page bounds.0 (rw f at e) in
        (same, (limit, f, bounds.1, found))
    | inr (error, f) ↦ absurd (ground (arith, e, f))
  ]

  -- A listing of tasks that is answered has an accepted limit, of at most 100, and a cursor that
  -- could be read. The page's tasks, a rest and the unwanted tasks make up the store: a task is wanted
  -- if it is of the runner, the status and the type that the query names and comes after the cursor;
  -- the page and then the rest are all wanted tasks, those created later first. The page is no longer
  -- than the limit. It names no next cursor if there is no rest, and otherwise the cursor of its last
  -- task. The store stays as it is.
  pub list_tasks-page :
      (query : TaskListQuery) (s t : InMemory) (page : Page TaskRecord)
      → list_tasks (in_memory platform) platform options query s ≡ (ok page, t)
      → (t ≡ s)
        × ((limit : ℕ) × (normalize_limit query.limit ≡ ok limit)
            × (limit ≤ 100)
            × ((cursor : Option TaskCursor) × (decode_task_cursor platform query.cursor ≡ ok cursor)
                × IsListing
                    (IsWanted query.runner_id query.status query.type cursor)
                    (λ task. task.created_at)
                    (cursor_of_task platform)
                    limit
                    (values s.tasks)
                    page))
  list_tasks-page query s t page e =
      let (same, (limit, f, bound, (cursor, g, is_page))) = list_tasks-IsPage_of query s t page e in
      (
        same,
        (
          limit,
          f,
          bound,
          (
            cursor,
            g,
            listed_tasks-IsListing platform (store_query query limit) cursor s
                (cursor_of_task platform) page is_page,
          ),
        ),
      )

  -- Every task of a listing is stored, and it is of the runner, the status and the type that the
  -- query names.
  pub list_tasks_sound :
      (query : TaskListQuery) (s t : InMemory) (page : Page TaskRecord) (task : TaskRecord)
      → list_tasks (in_memory platform) platform options query s ≡ (ok page, t)
      → In task page.items
      → In task (values s.tasks)
        × (matches_text query.runner_id task.runner_id ≡ true)
        × (matches_status query.status task.status ≡ true)
        × (matches_type query.type task.type ≡ true)
  unfolding matches
  list_tasks_sound query s t page task e k =
      let (same, (limit, f, bound, (cursor, g, is_page))) = list_tasks-IsPage_of query s t page e in
      let (stored, passes) =
        In-listed_tasks platform (store_query query limit) cursor s task
          (rw (← is_page.whole) (In-left task page.items is_page.rest k)) in
      (stored, ground (arith, passes), ground (arith, passes), ground (arith, passes))
