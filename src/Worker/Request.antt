-- ===== src/Worker/Request.antt =====
-- What the routes read of a request (`src/worker/index.ts`): its path, its headers, the parameters
-- of its query and its body.
use Prim.Native.Char.{code}
use task_hub.Shared.{
  ℕ, Bool, false, Option, none, some, List, [], ◌∷◌, not, map, filter, String, ◌==◌, nat_eq,
  if◌then◌else◌,
}
use task_hub.Shared.Int.{pos}
use task_hub.Shared.Dict.{Dict, lookup, remove, insert}
use task_hub.Shared.Text.{is_empty, is_space, trim, trim_start, split_on}
use task_hub.Types.{
  Instant, TaskStatus, TaskType, RunnerStatus, Result, ok, err, validation, internal,
}
use task_hub.Types.Json.{Value, undefined, int}
use task_hub.Types.Names.{status_of, task_type_of, runner_status_of}
use task_hub.Platform.{Platform}
use task_hub.Security.Ticket.{is_number, number_after}
use task_hub.Hub.Fetch.{HubRequest, lower_code}

-- The names of headers are in lower case. `body` is `none` where `request.json()` throws.
pub record HttpRequest : Type 0 where
  pub method : String
  pub path : String
  pub parameters : Dict String
  pub headers : Dict String
  pub body : Option Value

-- The secrets of the environment.
pub record Env : Type 0 where
  pub webhook_secret : Option String
  pub registration_token : Option String
  pub admin_token : Option String

-- What the clock, `randomUUID` and `WebSocketPair` give while a request is answered.
pub record Moment : Type 0 where
  pub now : Instant
  pub later : Instant
  pub uuid : String
  pub nonce : String
  pub socket_id : ℕ

-- `Bearer`, in any case, at the front of a text, and what follows it.
abbrev pub drop_word : (word text : String) → Option String
drop_word String.[] text = some text
drop_word (String.◌∷◌ c word) String.[] = none
drop_word (String.◌∷◌ c word) (String.◌∷◌ d text) =
    if nat_eq (lower_code (code d)) (code c) then drop_word word text else none

abbrev starts_blank : String → Bool
starts_blank String.[] = false
starts_blank (String.◌∷◌ c s) = is_space (code c)

-- `text.replace(/^Bearer\s+/i, "")`
unfoldable pub without_bearer : String → String
unfolding trim_start
without_bearer text = elim (drop_word "bearer" text) [
  | none ↦ text
  | some rest ↦ if starts_blank rest then trim_start rest else text
]

unfoldable pub bearer_token : HttpRequest → String
unfolding without_bearer lookup
bearer_token request = elim (lookup "authorization" request.headers) [
  | none ↦ ""
  | some header ↦ without_bearer header
]

abbrev second_of : List String → String
second_of (first ∷ second ∷ []) = if first == "taskhub-admin" then second else ""
second_of _ = ""

-- `adminSocketTicket`: the second of two protocols, of which the first is that of administrators.
unfoldable pub admin_socket_ticket : HttpRequest → String
unfolding lookup split_on trim
admin_socket_ticket request = elim (lookup "sec-websocket-protocol" request.headers) [
  | none ↦ ""
  | some header ↦
      second_of (filter (λ protocol. not (is_empty protocol)) (map trim (split_on 44 header)))
]

-- The segments of `url.pathname`, which starts with a slash.
unfoldable pub segments : HttpRequest → List String
unfolding split_on
segments request = split_on 47 request.path

-- `decodeURIComponent(match[1])`
abbrev pub decoded : Platform → String → Result String
decoded platform text = elim (platform.decode_uri_component text) [
  | none ↦ err (internal "URIError")
  | some s ↦ ok s
]

-- `parseEnum`: a missing parameter is `undefined`, one that is not allowed is an error.
abbrev pub parse_enum :
    {A : Type 0} → Option String → (String → Option A) → String → Result (Option A)
parse_enum none read message = ok none
parse_enum (some value) read message = elim (read value) [
  | none ↦ err (validation message)
  | some a ↦ ok (some a)
]

unfoldable pub parse_status : HttpRequest → Result (Option TaskStatus)
unfolding lookup
parse_status request = parse_enum (lookup "status" request.parameters) status_of "invalid status"

unfoldable pub parse_type : HttpRequest → Result (Option TaskType)
unfolding lookup
parse_type request = parse_enum (lookup "type" request.parameters) task_type_of "invalid type"

unfoldable pub parse_runner_status : HttpRequest → Result (Option RunnerStatus)
unfolding lookup
parse_runner_status request =
    parse_enum (lookup "status" request.parameters) runner_status_of "invalid status"

-- `parseLimit`. `Number` of digits past the safe integers is not exact, but it is more than 100.
abbrev pub parse_limit_text : Option String → Result Value
parse_limit_text none = ok undefined
parse_limit_text (some value) =
    if is_number value
    then ok (int (pos (number_after 0 value)))
    else err (validation "limit must be an integer between 1 and 100")

unfoldable pub parse_limit : HttpRequest → Result Value
unfolding lookup
parse_limit request = parse_limit_text (lookup "limit" request.parameters)

-- The headers of the request that `forwardHubUpgrade` sends to the hub.
abbrev role_headers : Dict String → String → Dict String
role_headers headers role =
    insert "x-task-hub-role" role
      (remove "x-task-hub-runner-id" (remove "x-task-hub-role" (remove "authorization" headers)))

-- An empty runner id counts as none.
unfoldable pub forwarded_headers : Dict String → String → Option String → Dict String
unfolding insert remove
forwarded_headers headers role none =
    insert "sec-websocket-protocol" "taskhub-admin" (role_headers headers role)
forwarded_headers headers role (some runner_id) =
    if is_empty runner_id
    then insert "sec-websocket-protocol" "taskhub-admin" (role_headers headers role)
    else remove "sec-websocket-protocol"
        (insert "x-task-hub-runner-id" runner_id (role_headers headers role))

-- The request as the hub reads it.
unfoldable pub connect_request : Dict String → HubRequest
unfolding lookup
connect_request headers = record {
  method = "GET";
  path = "/connect";
  upgrade = lookup "upgrade" headers;
  role = lookup "x-task-hub-role" headers;
  runner_id = lookup "x-task-hub-runner-id" headers;
  body = undefined;
}
