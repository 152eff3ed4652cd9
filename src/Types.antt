-- ===== src/Types.antt =====
-- types.ts and errors.ts: the tasks, the runners, their statuses, and what the operations exchange.
-- A timestamp of the source is the text of `Date.toISOString`, whose fixed width makes the order
-- of texts the order of instants; the model keeps the instant, in milliseconds since the epoch.
pub mod Json
pub mod Names
use task_hub.Shared.{ℕ, Bool, true, false, ◌≡◌, refl, ◌⊎◌, inl, inr, Option, List, String}
use task_hub.Shared.Int.{ℤ}
use Json.{Value}

pub data TaskType : Type 0 where
  selfcheck shell python git agent backup build ocr file : TaskType

pub data TaskStatus : Type 0 where
  queued pending_runner leased running succeeded failed canceled expired : TaskStatus

pub data RunnerStatus : Type 0 where
  online stale offline : RunnerStatus

pub data OsPlatform : Type 0 where
  linux windows darwin : OsPlatform

-- A timestamp, as milliseconds since the epoch.
abbrev pub Instant : Type 0
Instant = ℕ

pub record RunnerRecord : Type 0 where
  pub runner_id : String
  pub name : String
  pub credential_hash : String
  pub platform : OsPlatform
  pub labels : List String
  pub task_types : List TaskType
  pub capabilities : List String
  pub last_heartbeat_at : Option Instant
  pub created_at : Instant
  pub updated_at : Instant

pub record TaskRecord : Type 0 where
  pub task_id : String
  pub runner_id : String
  pub type : TaskType
  pub name : String
  pub payload : Value
  pub status : TaskStatus
  pub timeout_seconds : ℤ
  pub priority : ℤ
  pub callback_url : Option String
  pub idempotency_key : Option String
  pub lease_id : Option String
  pub lease_expires_at : Option Instant
  pub result : Option Value
  pub exit_code : Option ℤ
  pub error : Option String
  pub created_at : Instant
  pub updated_at : Instant

-- `Pick<TaskRecord, "taskId" | "name" | "status" | "updatedAt">`
pub record CurrentTask : Type 0 where
  pub task_id : String
  pub name : String
  pub status : TaskStatus
  pub updated_at : Instant

pub record RunnerView : Type 0 where
  pub runner_id : String
  pub name : String
  pub platform : OsPlatform
  pub labels : List String
  pub task_types : List TaskType
  pub capabilities : List String
  pub last_heartbeat_at : Option Instant
  pub status : RunnerStatus
  pub current_task : Option CurrentTask
  pub created_at : Instant
  pub updated_at : Instant

pub record RunnerDetail : Type 0 where
  pub view : RunnerView
  pub recent_tasks : List TaskRecord

pub record TaskCursor : Type 0 where
  pub created_at : Instant
  pub task_id : String

-- The queries of the administration routes. `limit` is any number, or `undefined`.
pub record RunnerListQuery : Type 0 where
  pub status : Option RunnerStatus
  pub limit : Value
  pub cursor : Option String

pub record TaskListQuery : Type 0 where
  pub runner_id : Option String
  pub status : Option TaskStatus
  pub type : Option TaskType
  pub limit : Value
  pub cursor : Option String

-- The queries that the service hands to the store, with the limit filled in.
pub record RunnerStoreListQuery : Type 0 where
  pub status : Option RunnerStatus
  pub limit : ℕ
  pub cursor : Option String
  pub now : Instant

pub record TaskStoreListQuery : Type 0 where
  pub runner_id : Option String
  pub status : Option TaskStatus
  pub type : Option TaskType
  pub limit : ℕ
  pub cursor : Option String

pub record Page (T : Type 0) : Type 0 where
  pub items : List T
  pub next_cursor : Option String

pub record WorkspacePolicy : Type 0 where
  pub max_bytes : ℕ
  pub allowed_paths : List String
  pub artifact_upload_prefix : String

pub record ClaimResponse : Type 0 where
  pub task_id : String
  pub lease_id : String
  pub lease_expires_at : Instant
  pub type : TaskType
  pub payload : Value
  pub timeout_seconds : ℤ
  pub workspace_policy : WorkspacePolicy

pub data LogStream : Type 0 where
  stdout stderr system : LogStream

-- A runner writes the timestamp of a log entry, so it is any text.
pub record LogEntry : Type 0 where
  pub stream : LogStream
  pub message : String
  pub timestamp : String

pub record TaskLogResult : Type 0 where
  pub entries : List LogEntry
  pub invalid_objects : ℕ

-- The compile-time type of `status` is TerminalTaskStatus. The route casts the request's body to
-- this type without a test, so the service meets any status here.
pub record CompleteTaskInput : Type 0 where
  pub status : TaskStatus
  pub exit_code : Option ℤ
  pub result : Option Value
  pub error : Option String

pub record WebhookPayload : Type 0 where
  pub task_id : String
  pub runner_id : String
  pub status : TaskStatus
  pub result : Option Value
  pub exit_code : Option ℤ
  pub error : Option String

pub record WebhookDelivery : Type 0 where
  pub event_id : String
  pub event_type : String
  pub callback_url : String
  pub payload : WebhookPayload
  pub signature : String
  pub created_at : Instant

-- errors.ts, each with its message. `internal` is any other exception. `untyped` is none: with it
-- the model leaves open what the source does on a body that is not of the type it is cast to.
pub data Error : Type 0 where
  validation authentication not_found internal : String → Error
  untyped : Error

pub data Result (A : Type 0) : Type 0 where
  ok : A → Result A
  err : Error → Result A

pub Result-cases :
    {A : Type 0} (r : Result A) → ((a : A) × (r ≡ ok a)) ⊎ ((e : Error) × (r ≡ err e))
Result-cases (ok a) = inl (a, refl)
Result-cases (err e) = inr (e, refl)

-- The statuses that end a task: TerminalTaskStatus.
abbrev pub is_terminal : TaskStatus → Bool
is_terminal succeeded = true
is_terminal failed = true
is_terminal canceled = true
is_terminal _ = false
