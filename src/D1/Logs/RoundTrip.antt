-- ===== src/D1/Logs/RoundTrip.antt =====
-- Saving logs and reading them (`saveLogs` and `getTaskLogs` of `src/worker/d1-store.ts`).
use task_hub.Shared.{
  ◌≡◌, refl, ap, ◌∙◌, Bool-cases, true, false, ◌==◌, inl, inr, Option, some, List, [], ◌∷◌, String,
  map, filter, All, eq_iff,
}
use mathlib.Core.List.{append-nil, Permᴰ}
use mathlib.Core.List.Permᴰ as PermD
use text.Mathlib.Text.{starts_with}
use text.Mathlib.TextPositions.{starts_with-append}
use task_hub.Shared.Dict.{Dict, insert, lookup, lookup-insert_self}
use task_hub.Shared.Sort.{sort, insert_sorted}
use task_hub.Types.{Instant, LogStream, LogEntry, stdout, stderr, system, ok}
use task_hub.Types.Json.{Value, arr, from_list, items, every, as_array_of, as_string, get}
use task_hub.Platform.{Platform}
use task_hub.Worker.Bodies.{as_log_entry}
use task_hub.D1.Logs.{
  Bucket, entry_value, log_key, logs_prefix, save_logs, read_batch, parsed_batch, read_objects,
  get_task_logs, keys_of,
}

as_log_entry-parts :
    (stream : LogStream) (message timestamp : String)
    → let entry : LogEntry = record { stream = stream; message = message; timestamp = timestamp } in
      as_log_entry (entry_value entry) ≡ some entry
unfolding as_string get
as_log_entry-parts stdout message timestamp = refl
as_log_entry-parts stderr message timestamp = refl
as_log_entry-parts system message timestamp = refl

as_log_entry-entry_value : (entry : LogEntry) → as_log_entry (entry_value entry) ≡ some entry
as_log_entry-entry_value entry = as_log_entry-parts entry.stream entry.message entry.timestamp

every-cons :
    {A : Type 0} (read : Value → Option A) (v : Value) (vs : List Value) (a : A) (as_read : List A)
    → read v ≡ some a
    → every read vs ≡ some as_read
    → every read (v ∷ vs) ≡ some (a ∷ as_read)
unfolding every
every-cons read v vs a as_read e f = rw (every, e, f) refl

every-entries :
    (entries : List LogEntry)
    → every as_log_entry (items (from_list (map entry_value entries))) ≡ some entries
unfolding every
every-entries [] = refl
every-entries (entry ∷ entries) =
    every-cons as_log_entry (entry_value entry) (items (from_list (map entry_value entries))) entry
      entries (as_log_entry-entry_value entry) (every-entries entries)

-- `list({ prefix })` of the bucket: the keys that begin with the prefix, each once.
pub record ListsPrefix (bucket : Bucket) : Type 0 where
  pub all :
      (prefix : String) (objects : Dict String)
      → Permᴰ
          (keys_of (bucket.pages prefix objects))
          (filter (λ key. starts_with key prefix) (map (λ object. object.0) objects))

Perm-nil : {ks js : List String} → Permᴰ ks js → js ≡ [] → ks ≡ []
Perm-nil PermD.nil e = refl
Perm-nil (PermD.cons f p) e = cc
Perm-nil (PermD.swap f g) e = cc
Perm-nil (PermD.trans p q) e = Perm-nil p (Perm-nil q e)

alone : (k : String) {ks js : List String} → Permᴰ ks js → js ≡ k ∷ [] → ks ≡ k ∷ []
alone k PermD.nil e = cc
alone k (PermD.cons f p) e = cc (Perm-nil p (cc))
alone k (PermD.swap f g) e = cc
alone k (PermD.trans p q) e = alone k p (alone k q e)

module _ (platform : Platform) (bucket : Bucket) (now : Instant) (task_id : String)
    (lease_id : Option String) (entries : List LogEntry) (objects : Dict String) where
  abbrev written : Value
  written = arr (from_list (map entry_value entries))

  abbrev key : String
  key = log_key now task_id lease_id

  abbrev with_object : Dict String
  with_object = (save_logs platform now task_id lease_id entries objects).1

  read_saved :
      platform.parse_json (platform.stringify written) ≡ some written
      → read_batch platform (lookup key with_object) ≡ some entries
  unfolding save_logs read_batch as_array_of
  read_saved back =
      ap (read_batch platform) (lookup-insert_self key (platform.stringify written) objects)
      ∙ (ap (parsed_batch platform) back ∙ every-entries entries)

  -- No object of the task was there.
  abbrev pub IsFirst : Type 0
  IsFirst = All (λ object. starts_with object.0 (logs_prefix task_id) ≡ false) objects

  filter-insert :
      (k : String) (text : String) (d : Dict String)
      → starts_with k (logs_prefix task_id) ≡ true
      → All (λ object. starts_with object.0 (logs_prefix task_id) ≡ false) d
      → filter
          (λ j. starts_with j (logs_prefix task_id))
          (map (λ object. object.0) (insert k text d))
        ≡ k ∷ []
  unfolding insert
  filter-insert k text [] e h = rw e refl
  filter-insert k text ((j, w) ∷ d) e (f, h) = elim (Bool-cases (j == k)) [
    | inl same ↦ absurd (cc ((eq_iff j k).0 same, e, f))
    | inr other ↦ rw (other, f) (filter-insert k text d e h)
  ]

  -- The only key under the prefix is that of the object that was saved.
  listed_alone :
      ListsPrefix bucket
      → IsFirst
      → keys_of (bucket.pages (logs_prefix task_id) with_object) ≡ key ∷ []
  unfolding save_logs
  listed_alone lists first = alone key (lists.all (logs_prefix task_id) with_object) (
      filter-insert key (platform.stringify written) objects
        (starts_with-append (logs_prefix task_id) _) first)

  -- The entries of a task's first upload are what is read of its logs, in the order of their
  -- timestamps, and no object is invalid, if the entries read back from their JSON and the bucket
  -- lists, on whatever pages, the keys that begin with the prefix that it is asked for.
  pub get_task_logs-save_logs :
      platform.parse_json (platform.stringify written) ≡ some written
      → ListsPrefix bucket
      → IsFirst
      → (get_task_logs platform bucket task_id
          (save_logs platform now task_id lease_id entries objects).1).0
        ≡ ok (record {
          entries = sort (λ a b. platform.locale_le a.timestamp b.timestamp) entries;
          invalid_objects = 0;
        })
  unfolding get_task_logs read_objects sort insert_sorted
  get_task_logs-save_logs back lists first =
      rw
        (get_task_logs, listed_alone lists first, read_objects, read_saved back, append-nil entries)
        refl
