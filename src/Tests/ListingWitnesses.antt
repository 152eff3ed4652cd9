-- ===== src/Tests/ListingWitnesses.antt =====
-- The theorems on listings, at the first page of a store of two tasks.
use task_hub.Shared.{◌≡◌, refl, none, some, [], ◌∷◌, ℕ, ◌≤◌, Option}
use task_hub.Shared.Int.{pos}
use task_hub.Shared.Sort.{sort, insert_sorted}
use task_hub.Types.{TaskListQuery, TaskRecord, TaskCursor, Page, pending_runner, ok}
use task_hub.Types.Json.{int}
use task_hub.Pagination.{decode_task_cursor, encode_task_cursor}
use task_hub.InMemory.Listing.{
  in_memory, page_of, matches, listed_tasks, matches_text, matches_status, matches_type,
  cursor_of_task, newest_first,
}
use task_hub.InMemory.Listing
use task_hub.InMemory.Parts.{IsWanted, IsListing}
use task_hub.Shared.Dict.{values}
use task_hub.Service.{list_tasks, normalize_limit}
use task_hub.Service.Records.{default_options}
use task_hub.Service.Listing.{list_tasks-page}
use task_hub.Tests.{toy}
use task_hub.Tests.Witnesses.{two_tasks, task_b}

abbrev query : TaskListQuery
query = record {
  runner_id = some "r1";
  status = some pending_runner;
  type = none;
  limit = int (pos 1);
  cursor = none;
}

abbrev first_page : Page TaskRecord
first_page = record { items = task_b ∷ []; next_cursor = some "{}" }

listed : list_tasks (in_memory toy) toy default_options query two_tasks ≡ (ok first_page, two_tasks)
unfolding list_tasks normalize_limit Listing.list_tasks page_of listed_tasks matches
    decode_task_cursor encode_task_cursor sort insert_sorted newest_first
listed = refl

list_tasks-page_example :
    (two_tasks ≡ two_tasks)
    × ((limit : ℕ) × (normalize_limit query.limit ≡ ok limit)
        × (limit ≤ 100)
        × ((cursor : Option TaskCursor) × (decode_task_cursor toy query.cursor ≡ ok cursor)
            × IsListing
                (IsWanted query.runner_id query.status query.type cursor)
                (λ task. task.created_at)
                (cursor_of_task toy)
                limit
                (values two_tasks.tasks)
                first_page))
list_tasks-page_example =
    list_tasks-page toy default_options query two_tasks two_tasks first_page listed
