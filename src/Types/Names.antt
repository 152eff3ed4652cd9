-- ===== src/Types/Names.antt =====
-- The spelling of the enumerations in requests and in messages, and the type guards that read it.
use task_hub.Shared.{
  Bool, true, Option, none, some, List, ◌≡◌, refl, eq_iff, String, ◌==◌, if◌then◌else◌, any,
}
use task_hub.Types.Json.{Value, str}
use task_hub.Types.{
  TaskType, selfcheck, shell, python, git, agent, backup, build, ocr, file, TaskStatus, queued,
  pending_runner, leased, running, succeeded, failed, canceled, expired, OsPlatform, linux, windows,
  darwin, RunnerStatus, online, stale, offline,
}

abbrev pub type_name : TaskType → String
type_name selfcheck = "selfcheck"
type_name shell = "shell"
type_name python = "python"
type_name git = "git"
type_name agent = "agent"
type_name backup = "backup"
type_name build = "build"
type_name ocr = "ocr"
type_name file = "file"

abbrev pub status_name : TaskStatus → String
status_name queued = "queued"
status_name pending_runner = "pending_runner"
status_name leased = "leased"
status_name running = "running"
status_name succeeded = "succeeded"
status_name failed = "failed"
status_name canceled = "canceled"
status_name expired = "expired"

abbrev pub runner_status_name : RunnerStatus → String
runner_status_name online = "online"
runner_status_name stale = "stale"
runner_status_name offline = "offline"

abbrev pub platform_name : OsPlatform → String
platform_name linux = "linux"
platform_name windows = "windows"
platform_name darwin = "darwin"

-- `isTaskType`: the value is the name of a task type.
abbrev pub task_type_of : String → Option TaskType
task_type_of s =
    if s == "selfcheck"
    then some selfcheck
    else if s == "shell"
    then some shell
    else if s == "python"
    then some python
    else if s == "git"
    then some git
    else if s == "agent"
    then some agent
    else if s == "backup"
    then some backup
    else if s == "build"
    then some build
    else if s == "ocr"
    then some ocr
    else if s == "file"
    then some file
    else none

unfoldable pub as_task_type : Value → Option TaskType
as_task_type (str s) = task_type_of s
as_task_type _ = none

-- `["linux", "windows", "darwin"].includes(value)`
abbrev pub platform_of : String → Option OsPlatform
platform_of s =
    if s == "linux"
    then some linux
    else if s == "windows"
    then some windows
    else if s == "darwin"
    then some darwin
    else none

unfoldable pub as_platform : Value → Option OsPlatform
as_platform (str s) = platform_of s
as_platform _ = none

-- `===` on statuses and on task types.
abbrev pub status_eq : TaskStatus → TaskStatus → Bool
status_eq s t = status_name s == status_name t

abbrev pub type_eq : TaskType → TaskType → Bool
type_eq s t = type_name s == type_name t

abbrev pub runner_status_eq : RunnerStatus → RunnerStatus → Bool
runner_status_eq s t = runner_status_name s == runner_status_name t

-- `types.includes(type)`
abbrev pub includes_type : List TaskType → TaskType → Bool
includes_type types t = any (λ s. type_eq s t) types

pub task_type_of-type_name : (t : TaskType) → task_type_of (type_name t) ≡ some t
task_type_of-type_name selfcheck = refl
task_type_of-type_name _ = refl

pub platform_of-platform_name : (p : OsPlatform) → platform_of (platform_name p) ≡ some p
platform_of-platform_name linux = refl
platform_of-platform_name _ = refl

-- `taskStatuses.includes(value)`, with the status.
abbrev pub status_of : String → Option TaskStatus
status_of s =
    if s == "queued"
    then some queued
    else if s == "pending_runner"
    then some pending_runner
    else if s == "leased"
    then some leased
    else if s == "running"
    then some running
    else if s == "succeeded"
    then some succeeded
    else if s == "failed"
    then some failed
    else if s == "canceled"
    then some canceled
    else if s == "expired"
    then some expired
    else none

pub status_of-status_name : (s : TaskStatus) → status_of (status_name s) ≡ some s
status_of-status_name queued = refl
status_of-status_name _ = refl

-- No two statuses share a name, and no two task types.
pub status_eq→eq : (s t : TaskStatus) → status_eq s t ≡ true → s ≡ t
status_eq→eq s t h = cc (status_of-status_name s, status_of-status_name t, (eq_iff _ _).0 h)

pub type_eq→eq : (s t : TaskType) → type_eq s t ≡ true → s ≡ t
type_eq→eq s t h = cc (task_type_of-type_name s, task_type_of-type_name t, (eq_iff _ _).0 h)

-- `["online", "stale", "offline"].includes(value)`, with the status.
abbrev pub runner_status_of : String → Option RunnerStatus
runner_status_of s =
    if s == "online"
    then some online
    else if s == "stale"
    then some stale
    else if s == "offline"
    then some offline
    else none
