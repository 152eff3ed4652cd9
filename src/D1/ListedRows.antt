-- ===== src/D1/ListedRows.antt =====
-- The rows on a page of tasks (`listTasks` of `src/worker/d1-store.ts`).
use mathlib.Core.Path.{subst}
use mathlib.Core.List.{Permᴰ}
use mathlib.Core.List.Permᴰ as PermD
use task_hub.Shared.{
  ◌≡◌, refl, sym, ap, ◌∙◌, ◌⊎◌, inl, inr, ℕ, zero, suc, ◌+◌, ◌≤◌, leb, not, Option, none, some,
  List, [], ◌∷◌, ◌++◌, length, take, drop, take-append-drop, last?, filter, All, In-filter, arith,
}
use task_hub.Shared.Perms.{filter-Perm, All-of_In, All-of_Perm, All-of_IsSorted}
use task_hub.Shared.Slices.{
  take-append_self, take-take, length-append, length-take_short, length-take_long,
}
use task_hub.Shared.Sort.{IsSorted}
use task_hub.Shared.Dict.{values}
use task_hub.Types.{TaskRecord, TaskCursor, TaskStoreListQuery, Page, Result-cases, ok}
use task_hub.Platform.{Platform}
use task_hub.Pagination.{decode_task_cursor}
use task_hub.InMemory.Listing.{cursor_of_task}
use task_hub.InMemory.Pages.{IsPage, drop-all, length-drop}
use task_hub.D1.{TaskRow, Database, Engine, task_from_row}
use task_hub.D1.Listing.{
  matches_row, newest_row_first, tasks_of, selected_rows, list_tasks, list_tasks-IsPage,
}
use task_hub.D1.Pages.{
  RowWanted, SortsRows, matches_row-RowWanted, RowWanted-matches_row, newest_row_first_total,
  newest_row_first_trans,
}

module _ (platform : Platform) where
  -- Each row is read as the task at its place.
  pub data Reads : List TaskRow → List TaskRecord → Type 0 where
    none_read : Reads [] []
    one_read :
        {row : TaskRow} {task : TaskRecord} {rows : List TaskRow} {tasks : List TaskRecord}
        → task_from_row platform row ≡ ok task
        → Reads rows tasks
        → Reads (row ∷ rows) (task ∷ tasks)

  Reads-take :
      (n : ℕ) {rows : List TaskRow} {tasks : List TaskRecord}
      → Reads rows tasks
      → Reads (take n rows) (take n tasks)
  Reads-take zero h = none_read
  Reads-take (suc n) none_read = none_read
  Reads-take (suc n) (one_read e h) = one_read e (Reads-take n h)

  Reads-length :
      {rows : List TaskRow} {tasks : List TaskRecord}
      → Reads rows tasks
      → length rows ≡ length tasks
  Reads-length none_read = refl
  Reads-length (one_read e h) = ap suc (Reads-length h)

  -- A page of the rows that are wanted of a table, newest first: the rows of the page, what is left
  -- for other pages and what is not wanted make up the table. There is no next cursor if nothing is
  -- left, otherwise it is the cursor of the last task.
  pub record IsRowListing (query : TaskStoreListQuery) (cursor : Option TaskCursor)
      (table : List TaskRow) (page : Page TaskRecord) : Type 0 where
    pub rows : List TaskRow
    pub rest : List TaskRow
    pub others : List TaskRow
    pub read : Reads rows page.items
    pub parts : Permᴰ ((rows ++ rest) ++ others) table
    pub wanted : All (RowWanted query.runner_id query.status query.type cursor) (rows ++ rest)
    pub unwanted :
        All (λ row. ¬ RowWanted query.runner_id query.status query.type cursor row) others
    pub newest : IsSorted (λ a b. leb b.created_at a.created_at) (rows ++ rest)
    pub bounded : length page.items ≤ query.limit
    pub ending :
        ((page.next_cursor ≡ none) × (rest ≡ []))
        ⊎ ((last : TaskRecord) × (text : _) × (page.next_cursor ≡ some text)
            × (last? page.items ≡ some last)
            × (cursor_of_task platform last ≡ ok text)
            × (1 ≤ length rest))

  module _ (engine : Engine) where
    tasks_of-Reads :
        (rows : List TaskRow) (tasks : List TaskRecord)
        → tasks_of platform engine rows ≡ ok tasks
        → Reads rows tasks
    unfolding tasks_of
    tasks_of-Reads [] tasks e = let same : [] ≡ tasks = ground (arith, e) in rw (← same) none_read
    tasks_of-Reads (row ∷ rows) tasks e = elim (Result-cases (task_from_row platform row)) [
      | inr (error, f) ↦ absurd (ground (arith, e, f))
      | inl (task, f) ↦ elim (Result-cases (tasks_of platform engine rows)) [
        | inr (error, g) ↦ absurd (ground (arith, e, f, g))
        | inl (others, g) ↦
            let same : task ∷ others ≡ tasks = ground (arith, e, f, g) in
            rw (← same) (one_read f (tasks_of-Reads rows others g))
      ]
    ]

    module _ (sorts : SortsRows engine) (query : TaskStoreListQuery) (cursor : Option TaskCursor)
        (table : List TaskRow) where
      abbrev ordered : List TaskRow
      ordered = engine.order_by newest_row_first (filter (matches_row query cursor) table)

      abbrev left_out : List TaskRow
      left_out = filter (λ row. not (matches_row query cursor row)) table

      ordered-parts : Permᴰ (ordered ++ left_out) table
      ordered-parts =
          PermD.trans
            (PermD.append_right left_out
              (sorts.permutes newest_row_first (filter (matches_row query cursor) table)))
            (filter-Perm (matches_row query cursor) table)

      ordered-wanted : All (RowWanted query.runner_id query.status query.type cursor) ordered
      ordered-wanted =
          All-of_Perm (RowWanted query.runner_id query.status query.type cursor)
            (PermD.symm (sorts.permutes newest_row_first (filter (matches_row query cursor) table)))
            (All-of_In (RowWanted query.runner_id query.status query.type cursor)
              (filter (matches_row query cursor) table)
              (λ row k.
                matches_row-RowWanted query cursor row
                  (In-filter (matches_row query cursor) row table k).1))

      left_out-unwanted :
          All (λ row. ¬ RowWanted query.runner_id query.status query.type cursor row) left_out
      left_out-unwanted = All-of_In _ left_out (λ row k h.
          let rejected = (In-filter (λ r. not (matches_row query cursor r)) row table k).1 in
          absurd (ground (arith, RowWanted-matches_row query cursor row h, rejected)))

      ordered-newest : IsSorted (λ a b. leb b.created_at a.created_at) ordered
      ordered-newest =
          All-of_IsSorted newest_row_first (λ a b. leb b.created_at a.created_at) ordered
            (λ x y e. ground arith)
            (sorts.sorts newest_row_first newest_row_first_total newest_row_first_trans _)

      -- The page of the tasks that were read is a page of the rows.
      page-IsRowListing :
          (tasks : List TaskRecord) (page : Page TaskRecord)
          → Reads (take (query.limit + 1) ordered) tasks
          → IsPage (cursor_of_task platform) query.limit tasks page
          → IsRowListing query cursor table page
      page-IsRowListing tasks page reads is_page =
          let n = length page.items in
          let bounded = is_page.bounded in
          let split = take-append-drop n ordered in
          let measured : length (take (query.limit + 1) ordered) ≡ n + length is_page.rest =
            Reads-length reads
            ∙ (ap length (sym is_page.whole) ∙ length-append page.items is_page.rest) in
          record {
            rows = take n ordered;
            rest = drop n ordered;
            others = left_out;
            read =
                subst (λ rows. Reads rows page.items)
                  (take-take n (query.limit + 1) ordered (omega (arith, bounded)))
                  (subst (Reads (take n (take (query.limit + 1) ordered)))
                    (ap (take n) (sym is_page.whole) ∙ take-append_self page.items is_page.rest)
                    (Reads-take n reads));
            parts = rw split ordered-parts;
            wanted = rw split ordered-wanted;
            unwanted = left_out-unwanted;
            newest = rw split ordered-newest;
            bounded = bounded;
            ending = elim is_page.ending [
              | inl (e, f) ↦
                  let empty : length is_page.rest ≡ 0 = ap length f in
                  let whole : length (take (query.limit + 1) ordered) ≡ n =
                    omega (arith, measured, empty) in
                  let short =
                    length-take_short (query.limit + 1) ordered (omega (arith, whole, bounded)) in
                  inl (e, drop-all n ordered (omega (arith, short, whole)))
              | inr (last, text, e, f, g, more) ↦
                  let long = length-take_long (query.limit + 1) ordered in
                  inr (
                    last,
                    text,
                    e,
                    f,
                    g,
                    length-drop n ordered (omega (arith, more, measured, long)),
                  )
            ];
          }

    -- A page of tasks that the database answers, for a cursor that could be read, is read from rows of
    -- the table: these rows, a rest and the unwanted rows make up the table. A row is wanted if it is
    -- of the runner, the status and the type that the query names and comes after the cursor; the rows
    -- of the page and then the rest are all wanted rows, those created later first. The page is no
    -- longer than the limit, which is at least 1. It names no next cursor if there is no rest, and
    -- otherwise the cursor of its last task. The database sorts the rows as the statement says.
    pub list_tasks-IsRowListing :
        (query : TaskStoreListQuery) (db : Database) (page : Page TaskRecord)
        → SortsRows engine
        → 1 ≤ query.limit
        → (list_tasks platform engine query db).0 ≡ ok page
        → (cursor : Option TaskCursor) × (decode_task_cursor platform query.cursor ≡ ok cursor)
          × IsRowListing query cursor (values db.tasks) page
    unfolding selected_rows
    list_tasks-IsRowListing query db page sorts given e =
        let (cursor, tasks, decoded, read, bounded, is_page) =
          list_tasks-IsPage platform engine query db page given e in
        (
          cursor,
          decoded,
          page-IsRowListing sorts query cursor (values db.tasks) tasks page
              (tasks_of-Reads (selected_rows platform engine query cursor db) tasks read) is_page,
        )
