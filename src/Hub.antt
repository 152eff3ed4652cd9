-- ===== src/Hub.antt =====
-- The Durable Object that holds the open sockets of runners and administrators
-- (`src/worker/runner-hub.ts`). A socket carries what the hub wrote to it: its tags, its
-- attachment, whether it was closed and the messages that it was sent. What the runtime does, which
-- sockets it lists under a tag and on which sockets `send` throws, is a parameter.
pub mod Fetch
mod Past
pub mod Sole
pub mod Delivery
pub mod Online
pub mod Events
use task_hub.Shared.{
  ℕ, suc, Bool, true, false, Option, none, some, List, [], ◌∷◌, ◌++◌, String, ◌==◌, if◌then◌else◌,
  nat_eq, take, filter, head?, any, length, not,
}
use task_hub.Shared.Sort.{sort}
use task_hub.Shared.Text.{code_units, text_lt}
use task_hub.Types.Json.{Value, bool, str, obj, no_fields, field, get}

pub data Attachment : Type 0 where
  runner_attachment : String → Attachment
  admin_attachment : Attachment

-- A tag is cut by UTF-16 code units, so it is kept as these.
pub record Socket : Type 0 where
  pub socket_id : ℕ
  pub tags : List (List ℕ)
  pub attachment : Option Attachment
  pub closed : Bool
  pub sent : List Value

pub record SocketRuntime : Type 0 where
  -- `ctx.getWebSockets(tag)`, among the sockets that were accepted.
  pub get_web_sockets : List ℕ → List Socket → List Socket
  -- Whether `socket.send` returns.
  pub send_works : ℕ → Bool

pub record Presence : Type 0 where
  pub online_runner_ids : List String
  pub runner_connections : ℕ
  pub admin_connections : ℕ

abbrev pub runner_role : List ℕ
runner_role = code_units "runner"

abbrev pub admin_role : List ℕ
admin_role = code_units "admin"

-- `runner:${runnerId.slice(0, MAX_TAG_LENGTH - prefix.length)}`
unfoldable pub runner_tag : String → List ℕ
runner_tag runner_id = code_units "runner:" ++ take 249 (code_units runner_id)

-- `attachment?.role === "runner" && attachment.runnerId === runnerId`
abbrev pub is_attached_to : String → Socket → Bool
is_attached_to runner_id socket = elim socket.attachment [
  | none ↦ false
  | some (runner_attachment attached) ↦ attached == runner_id
  | some admin_attachment ↦ false
]

-- A socket is written to through its identity.
unfoldable pub update_socket : ℕ → (Socket → Socket) → List Socket → List Socket
update_socket socket_id change [] = []
update_socket socket_id change (s ∷ ss) =
    let rest = update_socket socket_id change ss in
    if nat_eq s.socket_id socket_id then change s ∷ rest else s ∷ rest

abbrev pub detached : Socket → Socket
detached s = record s { attachment = none }

-- `existing.serializeAttachment(null); existing.close(1000, "replaced")`
abbrev pub replaced : Socket → Socket
replaced s = record s { attachment = none; closed = true }

abbrev pub shut : Socket → Socket
shut s = record s { closed = true }

abbrev pub received : Value → Socket → Socket
received message s = record s { sent = s.sent ++ message ∷ [] }

pub replace_each : List Socket → List Socket → List Socket
unfolding update_socket
replace_each [] hub = hub
replace_each (s ∷ ss) hub = replace_each ss (update_socket s.socket_id replaced hub)

-- `value === text`
abbrev pub is_text : String → Value → Bool
is_text text (str s) = s == text
is_text text _ = false

abbrev pub task_available : String → Value
task_available task_id =
    obj (field "type" (str "task_available") (field "taskId" (str task_id) no_fields))

abbrev pub presence_changed : String → Bool → Value
presence_changed runner_id online = obj (
    field "type" (str "runner_presence_changed")
      (field "runnerId" (str runner_id) (field "online" (bool online) no_fields)))

-- Only the fields that an event of this type has are passed on.
pub project_admin_event : Value → Value
project_admin_event event =
    if is_text "task_changed" (get "type" event)
    then obj (
        field "type" (str "task_changed") (
          field "taskId" (get "taskId" event) (
            field "runnerId" (get "runnerId" event)
              (field "status" (get "status" event) no_fields))))
    else obj (
        field "type" (str "runner_presence_changed")
          (field "runnerId" (get "runnerId" event) (field "online" (get "online" event) no_fields)))

-- `[...new Set(xs)]`, the order aside: one of each.
pub distinct : List String → List String
distinct [] = []
distinct (x ∷ xs) = let rest = distinct xs in if any (λ y. y == x) rest then rest else x ∷ rest

-- The runner of an attachment, as a list of at most one.
abbrev pub attached_runner : Option Attachment → List String
attached_runner none = []
attached_runner (some (runner_attachment runner_id)) = runner_id ∷ []
attached_runner (some admin_attachment) = []

abbrev pub is_admin : Socket → Bool
is_admin socket = elim socket.attachment [
  | none ↦ false
  | some (runner_attachment runner_id) ↦ false
  | some admin_attachment ↦ true
]

pub runners_of : List Socket → List String
runners_of [] = []
runners_of (s ∷ ss) = attached_runner s.attachment ++ runners_of ss

abbrev pub attachment_of : Option Socket → Option Attachment
attachment_of none = none
attachment_of (some s) = s.attachment

-- The attachment of a socket, as `readAttachment` reads it.
pub read_attachment : ℕ → List Socket → Option Attachment
read_attachment socket_id hub =
    attachment_of (head? (filter (λ s. nat_eq s.socket_id socket_id) hub))

-- A socket as `acceptWebSocket` takes it.
abbrev pub accepted : ℕ → List (List ℕ) → Attachment → Socket
accepted socket_id tags attachment = record {
  socket_id = socket_id;
  tags = tags;
  attachment = some attachment;
  closed = false;
  sent = [];
}

pub accept_admin : ℕ → List Socket → List Socket
accept_admin socket_id hub = hub ++ accepted socket_id (admin_role ∷ []) admin_attachment ∷ []

module _ (runtime : SocketRuntime) where
  -- The number of sockets on which `send` returned. The others are closed.
  unfoldable pub send_event : List Socket → Value → List Socket → ℕ × List Socket
  unfolding update_socket
  send_event [] message hub = (0, hub)
  send_event (s ∷ ss) message hub =
      let works = runtime.send_works s.socket_id in
      let (delivered, after) =
        send_event ss message
          (update_socket s.socket_id (if works then received message else shut) hub) in
      (if works then suc delivered else delivered, after)

  unfoldable pub get_runner_web_sockets : String → List Socket → List Socket
  unfolding runner_tag
  get_runner_web_sockets runner_id hub =
      filter (is_attached_to runner_id) (runtime.get_web_sockets (runner_tag runner_id) hub)

  pub broadcast_admin_event : Value → List Socket → ℕ × List Socket
  unfolding send_event project_admin_event
  broadcast_admin_event event hub =
      send_event (runtime.get_web_sockets admin_role hub) (project_admin_event event) hub

  unfoldable pub notify_task_available : String → String → List Socket → ℕ × List Socket
  unfolding send_event get_runner_web_sockets
  notify_task_available runner_id task_id hub =
      send_event (get_runner_web_sockets runner_id hub) (task_available task_id) hub

  pub accept_runner : ℕ → String → List Socket → List Socket
  unfolding get_runner_web_sockets replace_each broadcast_admin_event runner_tag
  accept_runner socket_id runner_id hub =
      (broadcast_admin_event (presence_changed runner_id true) (
        replace_each (get_runner_web_sockets runner_id hub) hub
        ++ accepted socket_id (runner_role ∷ runner_tag runner_id ∷ [])
            (runner_attachment runner_id)
          ∷ [])).1

  -- `online_runner_ids` is sorted by the default order of texts.
  pub get_presence : List Socket → Presence
  unfolding distinct runners_of
  get_presence hub = record {
    online_runner_ids =
        sort (λ a b. not (text_lt b a))
          (distinct (runners_of (runtime.get_web_sockets runner_role hub)));
    runner_connections = length (runners_of (runtime.get_web_sockets runner_role hub));
    admin_connections = length (filter is_admin (runtime.get_web_sockets admin_role hub));
  }

  -- The runner of a socket that is gone is offline if none of its other sockets is attached.
  pub announce_offline : Option Attachment → List Socket → List Socket
  unfolding get_runner_web_sockets broadcast_admin_event
  announce_offline none hub = hub
  announce_offline (some admin_attachment) hub = hub
  announce_offline (some (runner_attachment runner_id)) hub =
      if nat_eq (length (get_runner_web_sockets runner_id hub)) 0
      then (broadcast_admin_event (presence_changed runner_id false) hub).1
      else hub

  pub handle_disconnected_socket : ℕ → List Socket → List Socket
  unfolding read_attachment update_socket announce_offline
  handle_disconnected_socket socket_id hub =
      announce_offline (read_attachment socket_id hub) (update_socket socket_id detached hub)

  pub web_socket_close : ℕ → List Socket → List Socket
  unfolding handle_disconnected_socket
  web_socket_close socket_id hub = handle_disconnected_socket socket_id hub

  pub web_socket_error : ℕ → List Socket → List Socket
  unfolding handle_disconnected_socket update_socket
  web_socket_error socket_id hub =
      update_socket socket_id shut (handle_disconnected_socket socket_id hub)
