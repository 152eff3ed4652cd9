-- ===== src/Worker/Link.antt =====
-- The worker's side of the Runner Hub (`durableObjectHubStub`, `deliveredCount`,
-- `forwardHubUpgrade` and `broadcastBestEffort` of `src/worker/index.ts`), over the state of the two:
-- the task store and the hub's sockets.
pub mod Alike
use task_hub.Shared.{
  ◌≡◌, ap, ℕ, Bool, true, false, Option, none, some, List, ◌&&◌, String, leb, if◌then◌else◌,
}
use task_hub.Shared.Dict.{Dict}
use task_hub.Types.{TaskStatus, TaskRecord, Result, ok, err, internal}
use task_hub.Types.Json.{Value, undefined, int, str, obj, no_fields, field, get}
use task_hub.Types.Names.{status_name}
use task_hub.Platform.{Platform}
use task_hub.Action.{Action, pure, raise, lift, ◌>>=◌}
use task_hub.Hub.{Socket, SocketRuntime}
use task_hub.Hub.Fetch.{
  HubRequest, HubResponse, json_response, text_response, switching_protocols, fetch,
}
use task_hub.Worker.Request.{forwarded_headers, connect_request}

-- The task store and the sockets of the Runner Hub.
pub record World (S : Type 0) : Type 0 where
  pub store : S
  pub hub : List Socket

-- The runtime between the worker and the hub: the hub's own runtime, and whether a request to the
-- Durable Object is answered. Otherwise `stub.fetch` throws.
pub record HubLink : Type 0 where
  pub sockets : SocketRuntime
  pub answers : HubRequest → Bool

-- `response.json()` of a status from 200 to 299.
abbrev pub answered_json : HubResponse → Option Value
answered_json (json_response value status) =
    if leb 200 status && leb status 299 then some value else none
answered_json (text_response message status) = none
answered_json (switching_protocols protocol) = none

abbrev is_number_value : Value → Bool
is_number_value (int n) = true
is_number_value _ = false

-- `deliveredCount`, whose number no caller uses.
abbrev pub check_delivered : HubResponse → Result (Unit {0})
check_delivered response = elim (answered_json response) [
  | none ↦ err (internal "Runner Hub notification failed")
  | some body ↦
      if is_number_value (get "delivered" body)
      then ok tt
      else err (internal "Runner Hub returned an invalid response")
]

abbrev pub task_changed : (task_id runner_id : String) → TaskStatus → Value
task_changed task_id runner_id status = obj (
    field "type" (str "task_changed") (
      field "taskId" (str task_id)
        (field "runnerId" (str runner_id) (field "status" (str (status_name status)) no_fields))))

-- The body is written by `JSON.stringify` here and read by `request.json()` there.
abbrev pub internal_request : Platform → String → Value → HubRequest
internal_request platform path body = record {
  method = "POST";
  path = path;
  upgrade = none;
  role = none;
  runner_id = none;
  body = elim (platform.parse_json (platform.stringify body)) [ none ↦ undefined | some v ↦ v ];
}

module _ {S : Type 0} where
  abbrev pub on_store : {A : Type 0} → Action S A → Action (World S) A
  on_store m w = let (r, s) = m w.store in (r, record w { store = s })

  pub on_store_lem :
      {A : Type 0} (m : Action S A) (w : World S) {r : Result A} {s : S}
      → m w.store ≡ (r, s)
      → on_store m w ≡ (r, record w { store = s })
  on_store_lem m w e = ap (λ p. (p.0, record w { store = p.1 })) e

  abbrev reached : World S → HubResponse × List Socket → Result HubResponse × World S
  reached w (response, hub) = (ok response, record w { hub = hub })

  -- `try { await m; } catch {}`
  abbrev pub best_effort : Action (World S) (Unit {0}) → Action (World S) (Unit {0})
  best_effort m w = (ok tt, (m w).1)

module _ {S : Type 0} (platform : Platform) (link : HubLink) (socket_id : ℕ) where
  unfoldable pub stub_fetch : HubRequest → Action (World S) HubResponse
  unfolding fetch
  stub_fetch request w =
      if link.answers request
      then reached w (fetch link.sockets socket_id request w.hub)
      else (err (internal "Durable Object unavailable"), w)

  unfoldable pub notify_stub : (runner_id task_id : String) → Action (World S) (Unit {0})
  unfolding stub_fetch
  notify_stub runner_id task_id = do
    response ← stub_fetch (
        internal_request platform "/task-available"
          (obj (field "runnerId" (str runner_id) (field "taskId" (str task_id) no_fields))))
    lift (check_delivered response)

  unfoldable pub broadcast_stub : Value → Action (World S) (Unit {0})
  unfolding stub_fetch
  broadcast_stub event = do
    response ← stub_fetch (internal_request platform "/admin-event" event)
    lift (check_delivered response)

  unfoldable pub presence_stub : Action (World S) Value
  unfolding stub_fetch
  presence_stub = do
    response ← stub_fetch (record {
      method = "GET";
      path = "/presence";
      upgrade = none;
      role = none;
      runner_id = none;
      body = undefined;
    })
    elim (answered_json response) [
      | none ↦ raise (internal "Runner Hub presence failed")
      | some value ↦ pure value
    ]

  -- What an administrator is told of a task, unless the hub cannot be reached.
  unfoldable pub broadcast_best_effort : TaskRecord → Action (World S) (Unit {0})
  unfolding broadcast_stub
  broadcast_best_effort task =
      best_effort (broadcast_stub (task_changed task.task_id task.runner_id task.status))

  unfoldable pub forward_hub_upgrade :
      Dict String → String → Option String → Action (World S) HubResponse
  unfolding stub_fetch forwarded_headers connect_request
  forward_hub_upgrade headers role runner_id =
      stub_fetch (connect_request (forwarded_headers headers role runner_id))
