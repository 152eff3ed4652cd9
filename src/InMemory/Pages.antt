-- ===== src/InMemory/Pages.antt =====
-- What a page of a listing holds (`listTasks` of `src/worker/in-memory-store.ts` and
-- `src/worker/task-service.ts`).
use task_hub.Shared.{
  ◌≡◌, refl, sym, ap, ◌⊎◌, inl, inr, ℕ, zero, suc, ◌<◌, ◌≤◌, ltb, Bool-cases, true, Option, none,
  some, List, [], ◌∷◌, ◌++◌, length, take, drop, take-append-drop, length-take-le, last?, filter,
  In, In-filter, String, arith,
}
use task_hub.Shared.Dict.{values}
use task_hub.Shared.Sort.{In-sort}
use task_hub.Types.{TaskRecord, TaskCursor, TaskStoreListQuery, Page, Result, Result-cases, ok}
use task_hub.Platform.{Platform}
use task_hub.Pagination.{decode_task_cursor}
use task_hub.InMemory.{InMemory}
use task_hub.InMemory.Listing.{
  matches, page_of, newest_first, listed_tasks, list_tasks, cursor_of_task,
}

-- A page of a list: its first items, up to the limit. There is no next cursor if that is the whole
-- list, otherwise it is the cursor of the last item, and something is left.
pub record IsPage {T : Type 0} (cursor_of : T → Result String) (limit : ℕ) (found : List T)
    (page : Page T) : Type 0 where
  pub rest : List T
  pub whole : page.items ++ rest ≡ found
  pub bounded : length page.items ≤ limit
  pub ending :
      ((page.next_cursor ≡ none) × (rest ≡ []))
      ⊎ ((last : T) × (text : String) × (page.next_cursor ≡ some text)
          × (last? page.items ≡ some last)
          × (cursor_of last ≡ ok text)
          × (1 ≤ length rest))

module _ {T : Type 0} where
  pub drop-all : (n : ℕ) (xs : List T) → length xs ≤ n → drop n xs ≡ []
  drop-all zero [] h = refl
  drop-all zero (x ∷ xs) h = absurd (omega (arith, h))
  drop-all (suc n) [] h = refl
  drop-all (suc n) (x ∷ xs) h = drop-all n xs (omega (arith, h))

  pub length-drop : (n : ℕ) (xs : List T) → n < length xs → 1 ≤ length (drop n xs)
  length-drop zero [] h = absurd (omega (arith, h))
  length-drop zero (x ∷ xs) h = omega arith
  length-drop (suc n) [] h = absurd (omega (arith, h))
  length-drop (suc n) (x ∷ xs) h = length-drop n xs (omega (arith, h))

  last-some : (x : T) (xs : List T) → (y : T) × (last? (x ∷ xs) ≡ some y)
  last-some x [] = (x, refl)
  last-some x (y ∷ ys) = last-some y ys

  take-some : (n : ℕ) (xs : List T) → 1 ≤ n → n < length xs → (y : T) × (last? (take n xs) ≡ some y)
  take-some zero xs h k = absurd (omega (arith, h))
  take-some (suc n) [] h k = absurd (omega (arith, k))
  take-some (suc n) (x ∷ xs) h k = last-some x (take n xs)

  -- With a limit of at least one, what `page_of` returns is a page of what was found.
  pub page_of-IsPage :
      (cursor_of : T → Result String) (limit : ℕ) (found : List T) (page : Page T)
      → 1 ≤ limit
      → page_of cursor_of limit found ≡ ok page
      → IsPage cursor_of limit found page
  unfolding page_of
  page_of-IsPage cursor_of limit found page h e = elim (Bool-cases (ltb limit (length found))) [
    | inr all ↦
        let same : page ≡ record { items = take limit found; next_cursor = none } =
          ground (arith, e, all) in
        rw same (record {
          rest = drop limit found;
          whole = take-append-drop limit found;
          bounded = length-take-le limit found;
          ending = inl (refl, drop-all limit found (ground (arith, all)));
        })
    | inl more ↦
        let (last, l) = take-some limit found h (ground (arith, more)) in
        elim (Result-cases (cursor_of last)) [
          | inl (text, f) ↦
              let same : page ≡ record { items = take limit found; next_cursor = some text } =
                ground (arith, e, more, l, f) in
              rw same (record {
                rest = drop limit found;
                whole = take-append-drop limit found;
                bounded = length-take-le limit found;
                ending =
                    inr (last, text, refl, l, f, length-drop limit found (ground (arith, more)));
              })
          | inr (error, f) ↦ absurd (ground (arith, e, more, l, f))
        ]
  ]

module _ (platform : Platform) where
  -- A page of tasks is the beginning of the stored tasks that pass the query's tests and come after
  -- its cursor, newest first, and the store stays as it is.
  pub list_tasks-IsPage :
      (query : TaskStoreListQuery) (s t : InMemory) (page : Page TaskRecord)
      → 1 ≤ query.limit
      → list_tasks platform query s ≡ (ok page, t)
      → (t ≡ s)
        × ((cursor : Option TaskCursor) × (decode_task_cursor platform query.cursor ≡ ok cursor)
            × IsPage
                (cursor_of_task platform)
                query.limit
                (listed_tasks platform query cursor s)
                page)
  unfolding list_tasks
  list_tasks-IsPage query s t page h e =
      elim (Result-cases (decode_task_cursor platform query.cursor)) [
        | inl (cursor, f) ↦
            let g = rw f at e in
            (
              sym (ap (λ p. p.1) g),
              (
                cursor,
                f,
                page_of-IsPage (cursor_of_task platform) query.limit
                    (listed_tasks platform query cursor s) page h (ap (λ p. p.0) g),
              ),
            )
        | inr (error, f) ↦ absurd (ground (arith, e, f))
      ]

  -- A listed task is stored and passes the tests.
  pub In-listed_tasks :
      (query : TaskStoreListQuery) (cursor : Option TaskCursor) (s : InMemory) (task : TaskRecord)
      → In task (listed_tasks platform query cursor s)
      → In task (values s.tasks) × (matches query cursor task ≡ true)
  unfolding listed_tasks
  In-listed_tasks query cursor s task k =
      In-filter (matches query cursor) task (values s.tasks)
        (In-sort (newest_first platform) task (filter (matches query cursor) (values s.tasks)) k)
