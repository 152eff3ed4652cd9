-- ===== src/Hub/Fetch.antt =====
-- `fetch` of the hub (`src/worker/runner-hub.ts`): the notifications of the worker, the question who
-- is online, and the upgrade of a connection to a socket.
use Prim.Native.Char.{code}
use task_hub.Shared.{
  ℕ, ◌+◌, Bool, true, false, Option, none, some, List, [], ◌∷◌, ◌&&◌, ◌||◌, not, String, ◌==◌, map,
  if◌then◌else◌, nat_eq, leb,
}
use task_hub.Shared.Int.{pos}
use task_hub.Shared.Text.{is_empty}
use task_hub.Types.Json.{
  Value, str, bool, int, arr, obj, no_fields, field, get, from_list, is_object,
}
use task_hub.Types.Names.{status_of}
use task_hub.Hub.{
  Socket, SocketRuntime, Presence, is_text, accept_runner, accept_admin, notify_task_available,
  broadcast_admin_event, get_presence, web_socket_close, web_socket_error, update_socket, shut,
}

-- What `fetch` reads of a request. `body` is `undefined` where `request.json()` throws.
pub record HubRequest : Type 0 where
  pub method : String
  pub path : String
  pub upgrade : Option String
  pub role : Option String
  pub runner_id : Option String
  pub body : Value

pub data HubResponse : Type 0 where
  json_response : Value → ℕ → HubResponse
  text_response : String → ℕ → HubResponse
  switching_protocols : Option String → HubResponse

-- The code of `c.toLowerCase()` where that is an ASCII letter: the Kelvin sign is one that gives `k`.
abbrev pub lower_code : ℕ → ℕ
lower_code c = if leb 65 c && leb c 90 then c + 32 else if nat_eq c 0x212A then 107 else c

abbrev pub lowers_to : String → String → Bool
lowers_to String.[] String.[] = true
lowers_to String.[] (String.◌∷◌ d t) = false
lowers_to (String.◌∷◌ c s) String.[] = false
lowers_to (String.◌∷◌ c s) (String.◌∷◌ d t) = nat_eq (lower_code (code c)) (code d) && lowers_to s t

abbrev pub is_websocket : Option String → Bool
is_websocket none = false
is_websocket (some upgrade) = lowers_to upgrade "websocket"

abbrev pub has_text : String → Option String → Bool
has_text text none = false
has_text text (some s) = s == text

abbrev is_string : Value → Bool
is_string (str s) = true
is_string _ = false

abbrev pub text_of : Value → String
text_of (str s) = s
text_of _ = ""

abbrev pub is_task_notification : Value → Bool
is_task_notification body =
    is_object body && is_string (get "runnerId" body) && is_string (get "taskId" body)

abbrev is_bool : Value → Bool
is_bool (bool b) = true
is_bool _ = false

abbrev is_status : Value → Bool
is_status (str s) = elim (status_of s) [ none ↦ false | some status ↦ true ]
is_status _ = false

abbrev has_event_fields : Value → Bool
has_event_fields value =
    if is_text "runner_presence_changed" (get "type" value)
    then is_bool (get "online" value)
    else is_text "task_changed" (get "type" value)
      && is_string (get "taskId" value)
      && is_status (get "status" value)

unfoldable pub is_admin_hub_event : Value → Bool
is_admin_hub_event value =
    is_object value && is_string (get "runnerId" value) && has_event_fields value

abbrev failure : String → Value
failure message = obj (field "error" (str message) no_fields)

abbrev delivered : ℕ × List Socket → HubResponse × List Socket
delivered (count, hub) =
    (json_response (obj (field "delivered" (int (pos count)) no_fields)) 200, hub)

abbrev presence_value : Presence → Value
presence_value presence = obj (
    field "onlineRunnerIds" (arr (from_list (map str presence.online_runner_ids))) (
      field "runnerConnections" (int (pos presence.runner_connections))
        (field "adminConnections" (int (pos presence.admin_connections)) no_fields)))

module _ (runtime : SocketRuntime) where
  unfoldable pub handle_task_available : Value → List Socket → HubResponse × List Socket
  unfolding notify_task_available
  handle_task_available body hub =
      if is_task_notification body
      then delivered (
          notify_task_available runtime (text_of (get "runnerId" body))
            (text_of (get "taskId" body)) hub)
      else (json_response (failure "invalid task notification") 400, hub)

  unfoldable pub handle_admin_event : Value → List Socket → HubResponse × List Socket
  unfolding is_admin_hub_event broadcast_admin_event
  handle_admin_event body hub =
      if is_admin_hub_event body
      then delivered (broadcast_admin_event runtime body hub)
      else (json_response (failure "invalid admin event") 400, hub)

  -- A missing and an empty runner id are refused.
  unfoldable pub upgrade_runner : ℕ → Option String → List Socket → HubResponse × List Socket
  unfolding accept_runner
  upgrade_runner socket_id none hub = (text_response "Invalid connection metadata" 400, hub)
  upgrade_runner socket_id (some runner_id) hub =
      if is_empty runner_id
      then (text_response "Invalid connection metadata" 400, hub)
      else (switching_protocols none, accept_runner runtime socket_id runner_id hub)

  -- The roles of the header `x-task-hub-role`; the new socket is the argument.
  unfoldable pub upgrade : ℕ → HubRequest → List Socket → HubResponse × List Socket
  unfolding accept_admin upgrade_runner
  upgrade socket_id request hub =
      if has_text "admin" request.role
      then (switching_protocols (some "taskhub-admin"), accept_admin socket_id hub)
      else if has_text "runner" request.role
      then upgrade_runner socket_id request.runner_id hub
      else (text_response "Invalid connection metadata" 400, hub)

  unfoldable pub fetch : ℕ → HubRequest → List Socket → HubResponse × List Socket
  unfolding handle_task_available handle_admin_event get_presence upgrade
  fetch socket_id request hub =
      if request.path == "/task-available" && request.method == "POST"
      then handle_task_available request.body hub
      else if request.path == "/admin-event" && request.method == "POST"
      then handle_admin_event request.body hub
      else if request.path == "/presence" && request.method == "GET"
      then (json_response (presence_value (get_presence runtime hub)) 200, hub)
      else if not (request.method == "GET") || not (is_websocket request.upgrade)
      then (text_response "WebSocket upgrade required" 426, hub)
      else upgrade socket_id request hub

-- What can happen to the hub: a request, with the socket that it may open, and a socket that the
-- other side closes or on which the connection fails.
pub data HubEvent : Type 0 where
  requested : ℕ → HubRequest → HubEvent
  disconnected failed_socket : ℕ → HubEvent

abbrev pub perform_hub : SocketRuntime → HubEvent → List Socket → List Socket
perform_hub runtime (requested socket_id request) hub = (fetch runtime socket_id request hub).1
perform_hub runtime (disconnected socket_id) hub =
    web_socket_close runtime socket_id (update_socket socket_id shut hub)
perform_hub runtime (failed_socket socket_id) hub = web_socket_error runtime socket_id hub

abbrev pub perform_all : SocketRuntime → List HubEvent → List Socket → List Socket
perform_all runtime [] hub = hub
perform_all runtime (event ∷ events) hub =
    perform_all runtime events (perform_hub runtime event hub)
