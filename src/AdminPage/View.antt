-- ===== src/AdminPage/View.antt =====
-- What the administration page shows (`src/worker/admin-page.ts`): the parts of its document that the
-- script writes, and the formatting of tasks and logs.
use Prim.Native.Char.{code}
use Prim.Native.String.{◌++◌}
use task_hub.Shared.{
  ℕ, Bool, true, false, Option, none, some, List, [], ◌∷◌, String, map, not, nat_eq, if◌then◌else◌,
}
use task_hub.Shared.Int.{ℤ, pos, negsuc}
use task_hub.Shared.Text.{is_empty}
use task_hub.Types.{Instant, TaskRecord, LogStream, LogEntry, TaskLogResult}
use task_hub.Types.Json.{Value, undefined, null, bool, int, frac, str, obj, arr}
use task_hub.Types.Names.{status_name, type_name}
use task_hub.Security.Ticket.{decimal}

-- What the script takes from the browser: the text of a date in the user's language, the text of
-- JSON indented by two, the encoding of a part of a URL, and whether a text may stand in the list of
-- a socket's protocols.
pub record Browser : Type 0 where
  pub locale_string : Instant → String
  pub stringify_indented : Value → String
  pub encode_uri_component : String → String
  pub is_protocol : String → Bool

-- A line of `runner-list`.
pub record RunnerItem : Type 0 where
  pub name : String
  pub runner_id : String
  pub status : String
  pub badges : List String
  pub is_selected : Bool

-- A line of `task-table-body`.
pub record TaskLine : Type 0 where
  pub name : String
  pub task_id : String
  pub type : String
  pub badge : String
  pub time : String
  pub is_selected : Bool

pub data LogLine : Type 0 where
  no_logs : LogLine
  log_line : (stream message : String) → LogLine

pub record DetailView : Type 0 where
  pub title : String
  pub subtitle : String
  pub metrics : List (String × String)
  pub sections : List (String × String)
  pub logs_heading : String
  pub log_lines : List LogLine

-- `task-detail`: nothing is selected, it is loading, it failed, or it is there.
pub data Detail : Type 0 where
  unselected loading : Detail
  failed : String → Detail
  shown : DetailView → Detail

pub record Document : Type 0 where
  pub is_hidden : Bool
  pub auth_view_hidden : Bool
  pub app_hidden : Bool
  pub auth_error : String
  pub token_input : String
  pub is_connected : Bool
  pub connection_label : String
  pub runner_filter : String
  pub status_filter : String
  pub filter_options : List (String × String)
  pub runner_count : ℕ
  pub runner_list : List RunnerItem
  pub task_count : ℕ
  pub task_rows : List TaskLine
  pub next_page_disabled : Bool
  pub selfcheck_disabled : Bool
  pub task_error : Option String
  pub detail : Detail
  pub detail_status : Option String

-- `value || ""`, where `value` is a string or `undefined`.
abbrev pub or_empty : Option String → String
or_empty none = ""
or_empty (some s) = s

-- `if (value)`
abbrev pub is_truthy : Value → Bool
is_truthy undefined = false
is_truthy null = false
is_truthy (bool b) = b
is_truthy (int (pos n)) = not (nat_eq n 0)
is_truthy (int (negsuc n)) = true
is_truthy (frac text) = true
is_truthy (str s) = not (is_empty s)
is_truthy (obj fs) = true
is_truthy (arr vs) = true

-- `text.replace("_", " ")`: the first of them.
unfoldable pub badge_text : String → String
badge_text String.[] = ""
badge_text (String.◌∷◌ c s) =
    let rest = badge_text s in
    if nat_eq (code c) b'_' then " " ++ s else String.◌∷◌ c String.[] ++ rest

-- The text of an integer.
abbrev pub integer_text : ℤ → String
integer_text (pos n) = decimal n
integer_text (negsuc n) = "-" ++ decimal (ℕ.suc n)

-- `value || "-"`
abbrev pub or_dash : Option String → String
or_dash none = "-"
or_dash (some s) = if is_empty s then "-" else s

abbrev pub metric : String → Option String → String × String
metric label value = (label, or_dash value)

abbrev pub stream_name : LogStream → String
stream_name LogStream.stdout = "stdout"
stream_name LogStream.stderr = "stderr"
stream_name LogStream.system = "system"

abbrev pub log_line_of : LogEntry → LogLine
log_line_of entry = log_line (stream_name entry.stream) entry.message

abbrev pub log_lines_of : List LogEntry → List LogLine
log_lines_of [] = no_logs ∷ []
log_lines_of (entry ∷ entries) = map log_line_of (entry ∷ entries)

abbrev pub logs_heading_of : ℕ → String
logs_heading_of invalid =
    "Logs"
    ++ (if nat_eq invalid 0 then "" else " (" ++ (decimal invalid ++ " invalid objects skipped)"))

-- `if (task.result) detail.append(...)`, before the sections that follow.
abbrev pub result_section :
    (Value → String) → Option Value → List (String × String) → List (String × String)
result_section indented none rest = rest
result_section indented (some v) rest = if is_truthy v then ("Result", indented v) ∷ rest else rest

abbrev pub error_section : Option String → List (String × String)
error_section none = []
error_section (some s) = if is_empty s then [] else ("Error", s) ∷ []

module _ (browser : Browser) where
  abbrev pub format_time : Option Instant → String
  format_time none = "-"
  format_time (some t) = browser.locale_string t

  unfoldable pub render_detail : TaskRecord → TaskLogResult → DetailView
  unfolding badge_text
  render_detail task logs = record {
    title = task.name;
    subtitle = task.task_id;
    metrics =
        metric "Status" (some (status_name task.status))
        ∷ metric "Runner" (some task.runner_id)
        ∷ metric "Type" (some (type_name task.type))
        ∷ metric "Updated" (some (format_time (some task.updated_at)))
        ∷ metric "Lease ID" task.lease_id
        ∷ metric "Lease expires" (some (format_time task.lease_expires_at))
        ∷ metric "Created" (some (format_time (some task.created_at)))
        ∷ metric "Timeout" (some (integer_text task.timeout_seconds ++ " seconds"))
        ∷ [];
    sections =
        ("Payload", browser.stringify_indented task.payload)
        ∷ result_section browser.stringify_indented task.result (error_section task.error);
    logs_heading = logs_heading_of logs.invalid_objects;
    log_lines = log_lines_of logs.entries;
  }
