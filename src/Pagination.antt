-- ===== src/Pagination.antt =====
-- pagination.ts: the cursors of the two listings, as base64 of a JSON object.
use task_hub.Shared.{Option, none, some, String, ◌==◌, if◌then◌else◌}
use task_hub.Shared.Text.{is_empty}
use task_hub.Types.{Instant, Error, validation, internal, Result, ok, err, TaskCursor}
use task_hub.Types.Json.{Value, obj, str, no_fields, field, get, as_nonempty, is_plain_object}
use task_hub.Platform.{Platform}

abbrev pub invalid_cursor : Error
invalid_cursor = validation "invalid cursor"

module _ (platform : Platform) where
  -- `btoa` throws on a character past U+00FF; the route answers that with status 500.
  pub encode : Value → Result String
  encode value = elim (platform.btoa (platform.stringify value)) [
    | none ↦ err (internal "InvalidCharacterError")
    | some text ↦ ok text
  ]

  pub decode : String → Result Value
  decode cursor = elim (platform.atob cursor) [
    | none ↦ err invalid_cursor
    | some text ↦ elim (platform.parse_json text) [
      | none ↦ err invalid_cursor
      | some parsed ↦ if is_plain_object parsed then ok parsed else err invalid_cursor
    ]
  ]

  abbrev runner_cursor_value : String → Value
  runner_cursor_value runner_id = obj (field "runnerId" (str runner_id) no_fields)

  abbrev task_cursor_value : TaskCursor → Value
  task_cursor_value cursor = obj (
      field "createdAt" (str (platform.to_iso cursor.created_at))
        (field "taskId" (str cursor.task_id) no_fields))

  unfoldable pub encode_runner_cursor : String → Result String
  unfolding encode
  encode_runner_cursor runner_id = encode (runner_cursor_value runner_id)

  unfoldable pub encode_task_cursor : TaskCursor → Result String
  unfolding encode
  encode_task_cursor cursor = encode (task_cursor_value cursor)

  -- `isCanonicalTimestamp`, with the instant that the text stands for.
  pub canonical_timestamp : Value → Option Instant
  canonical_timestamp (str text) = elim (platform.parse_date text) [
    | none ↦ none
    | some parsed ↦ if platform.to_iso parsed == text then some parsed else none
  ]
  canonical_timestamp _ = none

  runner_id_of : Value → Result (Option String)
  runner_id_of value = elim (as_nonempty (get "runnerId" value)) [
    | none ↦ err invalid_cursor
    | some runner_id ↦ ok (some runner_id)
  ]

  task_cursor_of : Value → Result (Option TaskCursor)
  task_cursor_of value = elim (canonical_timestamp (get "createdAt" value)) [
    | none ↦ err invalid_cursor
    | some created_at ↦ elim (as_nonempty (get "taskId" value)) [
      | none ↦ err invalid_cursor
      | some task_id ↦ ok (some (record { created_at = created_at; task_id = task_id }))
    ]
  ]

  -- `!cursor` holds of a missing cursor and of the empty text.
  unfoldable pub decode_runner_cursor : Option String → Result (Option String)
  unfolding decode runner_id_of
  decode_runner_cursor none = ok none
  decode_runner_cursor (some cursor) =
      if is_empty cursor
      then ok none
      else elim (decode cursor) [ err e ↦ err e | ok value ↦ runner_id_of value ]

  unfoldable pub decode_task_cursor : Option String → Result (Option TaskCursor)
  unfolding decode task_cursor_of canonical_timestamp
  decode_task_cursor none = ok none
  decode_task_cursor (some cursor) =
      if is_empty cursor
      then ok none
      else elim (decode cursor) [ err e ↦ err e | ok value ↦ task_cursor_of value ]
