-- ===== src/InMemory/Parts.antt =====
-- What `listTasks` of `src/worker/in-memory-store.ts` has to answer, said without its filter, its sort
-- and its slices.
use mathlib.Core.List.{Permᴰ}
use mathlib.Core.List.Permᴰ as PermD
use task_hub.Shared.{
  ◌≡◌, ◌≢◌, refl, ◌∙◌, ◌⊎◌, ◌↔◌, inl, inr, ℕ, ◌<◌, ◌≤◌, leb, ltb, Bool, Bool-cases, true, false,
  not, Option, none, some, List, [], ◌++◌, length, last?, filter, All, In-filter, String, eq_iff,
  arith,
}
use task_hub.Shared.Perms.{filter-Perm, sort-Perm, sort-IsSorted_by, All-of_In}
use task_hub.Shared.Sort.{sort, IsSorted, In-sort}
use task_hub.Shared.Text.{text_lt}
use task_hub.Shared.Dict.{values}
use task_hub.Types.{
  TaskStatus, TaskType, TaskRecord, TaskCursor, TaskStoreListQuery, Page, Result, ok,
}
use task_hub.Types.Names.{status_eq→eq, type_eq→eq}
use task_hub.Platform.{Platform}
use task_hub.InMemory.{InMemory}
use task_hub.InMemory.Listing.{
  matches, matches_text, matches_status, matches_type, is_after, newest_first, listed_tasks,
}
use task_hub.InMemory.Pages.{IsPage}

-- A task is looked for: it is of the runner, the status and the type that are named, if they are, and
-- it comes after the cursor, where there is one. An empty runner id names no runner.
pub record IsWanted (runner_id : Option String) (status : Option TaskStatus)
    (type : Option TaskType) (cursor : Option TaskCursor) (task : TaskRecord) : Type 0 where
  pub of_runner : (id : String) → runner_id ≡ some id → id ≢ "" → task.runner_id ≡ id
  pub of_status : (wanted : TaskStatus) → status ≡ some wanted → task.status ≡ wanted
  pub of_type : (wanted : TaskType) → type ≡ some wanted → task.type ≡ wanted
  pub after :
      (c : TaskCursor)
      → cursor ≡ some c
      → (task.created_at < c.created_at)
        ⊎ ((task.created_at ≡ c.created_at) × (text_lt task.task_id c.task_id ≡ true))

-- A page of what is wanted of a list, newest first: the items of the page, what is left for other
-- pages and what is not wanted make up the list. There is no next cursor if nothing is left, otherwise
-- it is the cursor of the last item.
pub record IsListing {T : Type 0} (IsFor : T → Type 0) (time : T → ℕ)
    (cursor_of : T → Result String) (limit : ℕ) (stored : List T) (page : Page T) : Type 0 where
  pub rest : List T
  pub others : List T
  pub parts : Permᴰ ((page.items ++ rest) ++ others) stored
  pub wanted : All IsFor (page.items ++ rest)
  pub unwanted : All (λ t. ¬ IsFor t) others
  pub newest : IsSorted (λ a b. leb (time b) (time a)) (page.items ++ rest)
  pub bounded : length page.items ≤ limit
  pub ending :
      ((page.next_cursor ≡ none) × (rest ≡ []))
      ⊎ ((last : T) × (text : String) × (page.next_cursor ≡ some text)
          × (last? page.items ≡ some last)
          × (cursor_of last ≡ ok text)
          × (1 ≤ length rest))

pub matches_text_iff :
    (wanted : Option String) (value : String)
    → (matches_text wanted value ≡ true) ↔ ((id : String) → wanted ≡ some id → id ≢ "" → value ≡ id)
matches_text_iff none value = (λ h id e. cc, λ h. refl)
matches_text_iff (some String.[]) value = (λ h id e full. absurd (full (cc)), λ h. refl)
matches_text_iff (some (String.◌∷◌ c s)) value = (
  λ h id e full. (eq_iff value (String.◌∷◌ c s)).0 h ∙ cc,
  λ h. (eq_iff value (String.◌∷◌ c s)).1 (h (String.◌∷◌ c s) refl (λ e. cc)),
)

pub matches_status_iff :
    (status : Option TaskStatus) (value : TaskStatus)
    → (matches_status status value ≡ true)
      ↔ ((wanted : TaskStatus) → status ≡ some wanted → value ≡ wanted)
matches_status_iff none value = (λ h wanted e. cc, λ h. refl)
matches_status_iff (some s) value =
    (λ h wanted e. status_eq→eq value s h ∙ cc, λ h. rw (h s refl) ((eq_iff _ _).1 refl))

pub matches_type_iff :
    (type : Option TaskType) (value : TaskType)
    → (matches_type type value ≡ true) ↔ ((wanted : TaskType) → type ≡ some wanted → value ≡ wanted)
matches_type_iff none value = (λ h wanted e. cc, λ h. refl)
matches_type_iff (some s) value =
    (λ h wanted e. type_eq→eq value s h ∙ cc, λ h. rw (h s refl) ((eq_iff _ _).1 refl))

abbrev ComesAfter : Option TaskCursor → TaskRecord → Type 0
ComesAfter cursor task =
    (c : TaskCursor)
    → cursor ≡ some c
    → (task.created_at < c.created_at)
      ⊎ ((task.created_at ≡ c.created_at) × (text_lt task.task_id c.task_id ≡ true))

is_after-ComesAfter :
    (cursor : Option TaskCursor) (task : TaskRecord)
    → is_after cursor task ≡ true
    → ComesAfter cursor task
is_after-ComesAfter none task h c e = cc
is_after-ComesAfter (some given) task h c e =
    elim (Bool-cases (ltb task.created_at given.created_at)) [
      | inl f ↦ inl (ground (arith, f, e))
      | inr f ↦ inr (ground (arith, f, e, h), ground (arith, f, e, h))
    ]

ComesAfter-is_after :
    (cursor : Option TaskCursor) (task : TaskRecord)
    → ComesAfter cursor task
    → is_after cursor task ≡ true
ComesAfter-is_after none task h = refl
ComesAfter-is_after (some given) task h = elim (h given refl) [
  | inl e ↦ ground (arith, e)
  | inr (e, f) ↦ ground (arith, e, f)
]

module _ (query : TaskStoreListQuery) (cursor : Option TaskCursor) (task : TaskRecord) where
  matches-IsWanted :
      matches query cursor task ≡ true
      → IsWanted query.runner_id query.status query.type cursor task
  unfolding matches
  matches-IsWanted h = record {
    of_runner = (matches_text_iff query.runner_id task.runner_id).0 (ground (arith, h));
    of_status = (matches_status_iff query.status task.status).0 (ground (arith, h));
    of_type = (matches_type_iff query.type task.type).0 (ground (arith, h));
    after = is_after-ComesAfter cursor task (ground (arith, h));
  }

  IsWanted-matches :
      IsWanted query.runner_id query.status query.type cursor task
      → matches query cursor task ≡ true
  unfolding matches
  IsWanted-matches h =
      rw
        (
          matches,
          (matches_text_iff query.runner_id task.runner_id).1 h.of_runner,
          (matches_status_iff query.status task.status).1 h.of_status,
          (matches_type_iff query.type task.type).1 h.of_type,
          ComesAfter-is_after cursor task h.after,
        )
        refl

-- A page of what a filter and a sort leave of a list.
module _ {T : Type 0} (passes : T → Bool) (IsFor : T → Type 0)
    (sound : (t : T) → passes t ≡ true → IsFor t) (complete : (t : T) → IsFor t → passes t ≡ true)
    (le : T → T → Bool) (time : T → ℕ) (below : (x y : T) → le x y ≡ true → time y ≤ time x)
    (above : (x y : T) → le x y ≡ false → time x ≤ time y) where
  abbrev later_first : T → T → Bool
  later_first a b = leb (time b) (time a)

  abbrev chosen : List T → List T
  chosen stored = sort le (filter passes stored)

  abbrev left_out : List T → List T
  left_out stored = filter (λ t. not (passes t)) stored

  chosen-parts : (stored : List T) → Permᴰ (chosen stored ++ left_out stored) stored
  chosen-parts stored =
      PermD.trans (PermD.append_right (left_out stored) (sort-Perm le (filter passes stored)))
        (filter-Perm passes stored)

  chosen-IsFor : (stored : List T) → All IsFor (chosen stored)
  chosen-IsFor stored =
      All-of_In IsFor (chosen stored)
        (λ t k. sound t (In-filter passes t stored (In-sort le t (filter passes stored) k)).1)

  left_out-IsFor : (stored : List T) → All (λ t. ¬ IsFor t) (left_out stored)
  left_out-IsFor stored =
      All-of_In (λ t. ¬ IsFor t) (left_out stored)
        (λ t k h.
          let rejected = (In-filter (λ u. not (passes u)) t stored k).1 in
          absurd (ground (arith, complete t h, rejected)))

  chosen-newest : (stored : List T) → IsSorted later_first (chosen stored)
  chosen-newest stored =
      sort-IsSorted_by le later_first (λ x y e. let k = below x y e in ground (arith, k))
        (λ x y e. let k = above x y e in ground (arith, k)) (λ x y z h k. ground (arith, h, k))
        (filter passes stored)

  pub IsPage-IsListing :
      (cursor_of : T → Result String) (limit : ℕ) (stored : List T) (page : Page T)
      → IsPage cursor_of limit (sort le (filter passes stored)) page
      → IsListing IsFor time cursor_of limit stored page
  IsPage-IsListing cursor_of limit stored page h = record {
    rest = h.rest;
    others = left_out stored;
    parts = rw h.whole (chosen-parts stored);
    wanted = rw h.whole (chosen-IsFor stored);
    unwanted = left_out-IsFor stored;
    newest = rw h.whole (chosen-newest stored);
    bounded = h.bounded;
    ending = h.ending;
  }

module _ (platform : Platform) where
  newest_first-below :
      (x y : TaskRecord) → newest_first platform x y ≡ true → y.created_at ≤ x.created_at
  unfolding newest_first
  newest_first-below x y h = ground arith

  newest_first-above :
      (x y : TaskRecord) → newest_first platform x y ≡ false → x.created_at ≤ y.created_at
  unfolding newest_first
  newest_first-above x y h = ground arith

  -- A page of the listed tasks is a page of the stored tasks that are looked for.
  pub listed_tasks-IsListing :
      (query : TaskStoreListQuery) (cursor : Option TaskCursor) (s : InMemory)
      (cursor_of : TaskRecord → Result String) (page : Page TaskRecord)
      → IsPage cursor_of query.limit (listed_tasks platform query cursor s) page
      → IsListing
          (IsWanted query.runner_id query.status query.type cursor)
          (λ task. task.created_at)
          cursor_of
          query.limit
          (values s.tasks)
          page
  unfolding listed_tasks
  listed_tasks-IsListing query cursor s cursor_of page h =
      IsPage-IsListing (matches query cursor)
        (IsWanted query.runner_id query.status query.type cursor) (matches-IsWanted query cursor)
        (IsWanted-matches query cursor) (newest_first platform) (λ task. task.created_at)
        newest_first-below newest_first-above cursor_of query.limit (values s.tasks) page h
