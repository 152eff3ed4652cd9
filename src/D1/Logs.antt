-- ===== src/D1/Logs.antt =====
-- The objects that hold the logs (`saveLogs` and `getTaskLogs` of `src/worker/d1-store.ts`).
pub mod RoundTrip
use Prim.Native.String.{◌++◌}
use mathlib.Core.List.{◌++◌ as append}
use task_hub.Shared.{ℕ, ◌+◌, Option, none, some, List, [], ◌∷◌, String, map, not}
use task_hub.Shared.Dict.{Dict, lookup, insert}
use task_hub.Shared.Sort.{sort}
use task_hub.Shared.Text.{text_lt}
use task_hub.Types.{ok, Instant, LogStream, stdout, stderr, system, LogEntry, TaskLogResult}
use task_hub.Types.Json.{
  Value, arr, obj, str, field, no_fields, from_list, as_array_of, as_string, get,
}
use task_hub.Platform.{Platform}
use task_hub.Action.{Action, modify}
use task_hub.Security.Ticket.{decimal}
use task_hub.Worker.Bodies.{as_log_entry}

-- The bucket is the runtime's: it lists the keys under a prefix in pages, one at each turn of the
-- loop, and the last page names no further cursor.
pub record Bucket : Type 0 where
  pub pages : (prefix : String) → Dict String → List (List String)

abbrev stream_text : LogStream → String
stream_text stdout = "stdout"
stream_text stderr = "stderr"
stream_text system = "system"

abbrev pub entry_value : LogEntry → Value
entry_value entry = obj (
    field "stream" (str (stream_text entry.stream))
      (field "message" (str entry.message) (field "timestamp" (str entry.timestamp) no_fields)))

-- A lease id that is missing is written as `undefined`.
abbrev pub lease_text : Option String → String
lease_text none = "undefined"
lease_text (some lease_id) = lease_id

abbrev pub logs_prefix : String → String
logs_prefix task_id = "tasks/" ++ (task_id ++ "/logs/")

abbrev pub log_key : Instant → String → Option String → String
log_key now task_id lease_id =
    logs_prefix task_id ++ (decimal now ++ ("-" ++ (lease_text lease_id ++ ".json")))

-- `keys.push(...page)` at each page.
abbrev pub keys_of : List (List String) → List String
keys_of [] = []
keys_of (keys ∷ pages) = append keys (keys_of pages)

module _ (platform : Platform) where
  unfoldable pub save_logs :
      Instant → String → Option String → List LogEntry → Action (Dict String) (Unit {0})
  unfolding insert
  save_logs now task_id lease_id entries = modify (
      insert (log_key now task_id lease_id)
        (platform.stringify (arr (from_list (map entry_value entries)))))

  -- The entries of an object. One that is gone, is no JSON or holds no list of entries is invalid.
  abbrev pub parsed_batch : Option Value → Option (List LogEntry)
  parsed_batch none = none
  parsed_batch (some value) = as_array_of as_log_entry value

  unfoldable pub read_batch : Option String → Option (List LogEntry)
  unfolding as_array_of as_string get
  read_batch none = none
  read_batch (some text) = parsed_batch (platform.parse_json text)

  abbrev pub tallied : Option (List LogEntry) → List LogEntry × ℕ → List LogEntry × ℕ
  tallied none (entries, invalid) = (entries, 1 + invalid)
  tallied (some batch) (entries, invalid) = (append batch entries, invalid)

  -- The loop over the keys: the entries in their order, and how many objects are invalid.
  unfoldable pub read_objects : Dict String → List String → List LogEntry × ℕ
  unfolding lookup read_batch
  read_objects objects [] = ([], 0)
  read_objects objects (key ∷ keys) =
      tallied (read_batch (lookup key objects)) (read_objects objects keys)

  -- `entries.sort(...)` by the collation of the timestamps.
  abbrev pub log_result : List LogEntry × ℕ → TaskLogResult
  log_result (entries, invalid) = record {
    entries = sort (λ a b. platform.locale_le a.timestamp b.timestamp) entries;
    invalid_objects = invalid;
  }

  unfoldable pub get_task_logs : Bucket → String → Action (Dict String) TaskLogResult
  unfolding sort read_objects
  get_task_logs bucket task_id objects = (
    ok (
        log_result (
          read_objects objects (
            sort (λ a b. not (text_lt b a))
              (keys_of (bucket.pages (logs_prefix task_id) objects))))),
    objects,
  )
