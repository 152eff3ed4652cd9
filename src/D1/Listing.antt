-- ===== src/D1/Listing.antt =====
-- The listing of tasks (`listTasks` of `src/worker/d1-store.ts`).
use Prim.Native.Char.{code}
use task_hub.Shared.{
  ◌≡◌, ℕ, ◌+◌, ◌≤◌, Bool, true, not, ◌&&◌, ◌||◌, Option, none, some, List, [], ◌∷◌, String, arith,
  filter, take, length, ltb, nat_eq, inl, inr,
}
use task_hub.Shared.Dict.{values}
use task_hub.Shared.Text.{units_lt}
use task_hub.Types.{TaskRecord, TaskCursor, TaskStoreListQuery, Page, Result, Result-cases, ok, err}
use task_hub.Platform.{Platform}
use task_hub.Pagination.{decode_task_cursor}
use task_hub.Action.{Action}
use task_hub.InMemory.Listing.{matches_text, matches_status, matches_type, page_of, cursor_of_task}
use task_hub.InMemory.Pages.{IsPage, page_of-IsPage}
use task_hub.D1.{TaskRow, Database, Engine, task_from_row}

-- SQLite compares texts by their bytes, which is the order of the characters' codes.
abbrev pub codes : String → List ℕ
codes String.[] = []
codes (String.◌∷◌ c s) = code c ∷ codes s

abbrev pub text_before : String → String → Bool
text_before s t = units_lt (codes s) (codes t)

-- `(created_at < ? OR (created_at = ? AND task_id < ?))`
abbrev pub is_row_after : Option TaskCursor → TaskRow → Bool
is_row_after none row = true
is_row_after (some cursor) row =
    ltb row.created_at cursor.created_at
    || nat_eq row.created_at cursor.created_at && text_before row.task_id cursor.task_id

-- The conditions of the statement. An empty runner id is no condition.
abbrev pub matches_row : TaskStoreListQuery → Option TaskCursor → TaskRow → Bool
matches_row query cursor row =
    matches_text query.runner_id row.runner_id
    && (matches_status query.status row.status
        && (matches_type query.type row.type && is_row_after cursor row))

-- `created_at DESC, task_id DESC`
abbrev pub newest_row_first : TaskRow → TaskRow → Bool
newest_row_first a b =
    ltb b.created_at a.created_at
    || nat_eq a.created_at b.created_at && not (text_before a.task_id b.task_id)

module _ (platform : Platform) (engine : Engine) where
  -- `result.results.map(taskFromRow)`
  unfoldable pub tasks_of : List TaskRow → Result (List TaskRecord)
  unfolding task_from_row
  tasks_of [] = ok []
  tasks_of (row ∷ rows) =
      let rest = tasks_of rows in
      elim (task_from_row platform row) [
        | err e ↦ err e
        | ok task ↦ elim rest [ err e ↦ err e | ok tasks ↦ ok (task ∷ tasks) ]
      ]

  unfoldable pub selected_rows : TaskStoreListQuery → Option TaskCursor → Database → List TaskRow
  selected_rows query cursor db =
      take (query.limit + 1)
        (engine.order_by newest_row_first (filter (matches_row query cursor) (values db.tasks)))

  abbrev paged : TaskStoreListQuery → Result (List TaskRecord) → Result (Page TaskRecord)
  paged query (err e) = err e
  paged query (ok tasks) = page_of (cursor_of_task platform) query.limit tasks

  pub page_after :
      TaskStoreListQuery → Database → Result (Option TaskCursor) → Result (Page TaskRecord)
  unfolding tasks_of selected_rows
  page_after query db (err e) = err e
  page_after query db (ok cursor) = paged query (tasks_of (selected_rows query cursor db))

  unfoldable pub list_tasks : TaskStoreListQuery → Action Database (Page TaskRecord)
  unfolding page_after
  list_tasks query db = (page_after query db (decode_task_cursor platform query.cursor), db)

  -- A page that is answered holds no more tasks than the limit, it is the beginning of the tasks of
  -- the selected rows, and it names a next cursor exactly if one of these is left out.
  pub list_tasks-IsPage :
      (query : TaskStoreListQuery) (db : Database) (page : Page TaskRecord)
      → 1 ≤ query.limit
      → (list_tasks query db).0 ≡ ok page
      → (cursor : Option TaskCursor) × (tasks : List TaskRecord) × (decode_task_cursor platform
            query.cursor
          ≡ ok cursor)
        × (tasks_of (selected_rows query cursor db) ≡ ok tasks)
        × (length page.items ≤ query.limit)
        × IsPage (cursor_of_task platform) query.limit tasks page
  unfolding list_tasks page_after
  list_tasks-IsPage query db page given e =
      elim (Result-cases (decode_task_cursor platform query.cursor)) [
        | inr (error, f) ↦ absurd (ground (arith, e, f))
        | inl (cursor, f) ↦ elim (Result-cases (tasks_of (selected_rows query cursor db))) [
          | inr (error, g) ↦ absurd (ground (arith, e, f, g))
          | inl (tasks, g) ↦
              let is_page =
                page_of-IsPage (cursor_of_task platform) query.limit tasks page given
                  (ground (arith, e, f, g)) in
              (cursor, tasks, f, g, is_page.bounded, is_page)
        ]
      ]
