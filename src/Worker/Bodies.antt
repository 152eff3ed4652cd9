-- ===== src/Worker/Bodies.antt =====
-- The bodies that the routes of runners cast to their types (`src/worker/index.ts`). The source tests
-- none of these types. Where a value is of another type the model answers `untyped`.
use task_hub.Shared.{Option, none, some, List, String, ◌==◌, if◌then◌else◌}
use task_hub.Types.{
  TaskStatus, LogStream, stdout, stderr, system, LogEntry, CompleteTaskInput, Result, ok, err,
  validation, internal, untyped,
}
use task_hub.Types.Json.{Value, undefined, null, str, get, as_string, as_integer, as_array_of}
use task_hub.Types.Names.{status_of}
use task_hub.Service.Submit.{◌>>=◌}
use task_hub.Worker.Request.{HttpRequest}

-- `parseJson`
abbrev pub parse_body : HttpRequest → Result Value
parse_body request = elim request.body [
  | none ↦ err (validation "invalid JSON body")
  | some value ↦ ok value
]

-- A read of a property, which throws on `null`.
abbrev pub property : String → Value → Result Value
property name null = err (internal "TypeError")
property name undefined = err (internal "TypeError")
property name body = ok (get name body)

-- A missing lease id is `undefined`.
abbrev lease_given : Value → Result (Option String)
lease_given undefined = ok none
lease_given (str lease_id) = ok (some lease_id)
lease_given _ = err untyped

abbrev runner_given : Value → Result String
runner_given (str runner_id) = ok runner_id
runner_given _ = err untyped

-- `body.leaseId` and `body.runnerId`
pub record Holder : Type 0 where
  pub lease_id : Option String
  pub runner_id : String

unfoldable pub holder_given : Value → Result Holder
unfolding get
holder_given body = do
  lease_value ← property "leaseId" body
  lease_id ← lease_given lease_value
  runner_value ← property "runnerId" body
  runner_id ← runner_given runner_value
  ok (record { lease_id = lease_id; runner_id = runner_id })

abbrev pub stream_of : String → Option LogStream
stream_of s =
    if s == "stdout"
    then some stdout
    else if s == "stderr"
    then some stderr
    else if s == "system"
    then some system
    else none

abbrev and_stream : Option String → Option LogStream
and_stream none = none
and_stream (some s) = stream_of s

-- `isLogEntry` of d1-store.ts, with the entry.
abbrev pub as_log_entry : Value → Option LogEntry
as_log_entry value = elim (and_stream (as_string (get "stream" value))) [
  | none ↦ none
  | some stream ↦ elim (as_string (get "message" value)) [
    | none ↦ none
    | some message ↦ elim (as_string (get "timestamp" value)) [
      | none ↦ none
      | some timestamp ↦ some (record { stream = stream; message = message; timestamp = timestamp })
    ]
  ]
]

abbrev pub entries_given : Value → Result (List LogEntry)
entries_given value = elim (as_array_of as_log_entry value) [
  | none ↦ err untyped
  | some entries ↦ ok entries
]

abbrev status_given : Value → Result TaskStatus
status_given (str s) = elim (status_of s) [ none ↦ err untyped | some status ↦ ok status ]
status_given _ = err untyped

-- A missing value is `undefined`. A null where a text or a number is read is of another type: the source
-- stores it, and the model leaves the answer open.
abbrev optional_given : {A : Type 0} → (Value → Option A) → Value → Result (Option A)
optional_given read undefined = ok none
optional_given read value = elim (read value) [ none ↦ err untyped | some a ↦ ok (some a) ]

-- The result, of any JSON type, may be null.
unfoldable pub completion_given : Value → Result CompleteTaskInput
unfolding get
completion_given body = do
  status ← status_given (get "status" body)
  exit_code ← optional_given as_integer (get "exitCode" body)
  result ← optional_given some (get "result" body)
  error ← optional_given as_string (get "error" body)
  ok (record { status = status; exit_code = exit_code; result = result; error = error })
