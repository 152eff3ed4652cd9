-- ===== src/Tests/WorkerWitnesses.antt =====
-- The theorems on the worker's routes and its queue, at requests to a store with one runner.
use task_hub.Shared.{◌≡◌, refl, ap, true, false, Option, none, some, [], ◌∷◌, String}
use task_hub.Shared.Dict.{Dict, lookup, insert, remove}
use task_hub.Shared.Text.{split_on, trim, trim_start}
use task_hub.Types.{RunnerRecord, ok}
use task_hub.Types.Json.{Value, str, obj, field, no_fields}
use task_hub.InMemory.{InMemory}
use task_hub.InMemory.Listing.{in_memory}
use task_hub.Hub.{accept_runner, accept_admin}
use task_hub.Hub.Fetch.{switching_protocols, fetch as hub_fetch, upgrade, upgrade_runner}
use task_hub.Service.Runs.{IsAccepted}
use task_hub.Worker.Request.{
  decoded, HttpRequest, Env, Moment, without_bearer, bearer_token, admin_socket_ticket, segments,
  forwarded_headers, connect_request,
}
use task_hub.Worker.Link.{World, HubLink, stub_fetch, forward_hub_upgrade}
use task_hub.Worker.Response.{configured, failure, from_hub}
use task_hub.Worker.Route.{match_path, admin_route, route}
use task_hub.Worker.Fetch.{fetch, serve_route, serve_runner_events, serve_admin_events, guard_admin}
use task_hub.Worker.Fetch.Guards.{fetch-unauthorized}
use task_hub.Worker.Fetch.Forward.{upgrade_request, connect_request-forwarded}
use task_hub.Worker.Fetch.Sockets.{fetch-runner_socket, fetch-admin_socket}
use task_hub.Worker.Fetch.Advisory.{without_sockets, fetch-advisory}
use mathlib.Core.Path.{subst}
use task_hub.Security.{constant_time_string_equal, equal_units, accumulate}
use task_hub.Security.Ticket.{verify_admin_socket_ticket}
use task_hub.Service.{authenticate_runner_connection}
use task_hub.Tests.{toy}
use task_hub.Tests.Scenario.{service}
use task_hub.Tests.HubWitnesses.{toy_runtime}
use task_hub.Tests.Witnesses.{two_tasks, one_claimed}

abbrev pub link : HubLink
link = record { sockets = toy_runtime; answers = λ request. true }

abbrev pub broken_link : HubLink
broken_link = record { sockets = toy_runtime; answers = λ request. false }

abbrev pub env : Env
env = record { webhook_secret = none; registration_token = some "reg"; admin_token = some "admin" }

abbrev pub moment : Moment
moment = record { now = 5000; later = 5001; uuid = "u9"; nonce = "n"; socket_id = 7 }

abbrev pub request : String → String → Dict String → Option Value → HttpRequest
request method path headers body = record {
  method = method;
  path = path;
  parameters = [];
  headers = headers;
  body = body;
}

abbrev pub world : InMemory → World InMemory
world s = record { store = s; hub = [] }

-- What the requests below are evaluated with.
unfoldable pub worker : Unit {0}
unfolding fetch serve_route route match_path segments admin_route split_on guard_admin
    serve_runner_events serve_admin_events bearer_token without_bearer trim_start lookup insert
    remove forwarded_headers connect_request stub_fetch forward_hub_upgrade hub_fetch upgrade
    upgrade_runner admin_socket_ticket trim
worker = tt

abbrev wrong_token : HttpRequest
wrong_token = request "POST" "/api/admin/tasks" (("authorization", "Bearer wrong") ∷ []) none

abbrev token_in : Option String → String
token_in none = ""
token_in (some token) = token

fetch-unauthorized_example :
    fetch (in_memory toy) toy link env moment wrong_token (world two_tasks)
    ≡ some (failure "unauthorized" 401, world two_tasks)
unfolding worker verify_admin_socket_ticket constant_time_string_equal equal_units accumulate
fetch-unauthorized_example =
    fetch-unauthorized (in_memory toy) toy link env moment wrong_token refl
      (λ token e.
        subst
          (λ t.
            (constant_time_string_equal (bearer_token wrong_token) t ≡ false)
            × (verify_admin_socket_ticket toy t 5000 (admin_socket_ticket wrong_token) ≡ false))
          (ap token_in e) (refl, refl))
      (world two_tasks)

connect_request-forwarded_example :
    connect_request (
      forwarded_headers
        (("x-task-hub-runner-id", "r2") ∷ ("upgrade", "websocket") ∷ [])
        "runner"
        (some "r1"))
    ≡ upgrade_request (some "websocket") "runner" (some "r1")
unfolding worker
connect_request-forwarded_example =
    connect_request-forwarded (("x-task-hub-runner-id", "r2") ∷ ("upgrade", "websocket") ∷ [])
      "runner" (some "r1")

abbrev events_request : HttpRequest
events_request =
    request "GET" "/runners/r1/events"
      (("authorization", "Bearer ab")
        ∷ ("upgrade", "websocket")
        ∷ ("x-task-hub-runner-id", "r2")
        ∷ [])
      none

abbrev with_socket : World InMemory
with_socket = record { store = two_tasks; hub = accept_runner toy_runtime 7 "r1" [] }

events_answered :
    fetch (in_memory toy) toy link env moment events_request (world two_tasks)
    ≡ some (from_hub (switching_protocols none), with_socket)
unfolding worker service authenticate_runner_connection
events_answered = refl

fetch-runner_socket_example :
    (runner_id : String) × (decoded toy "r1" ≡ ok runner_id)
    × (runner : RunnerRecord) × IsAccepted toy two_tasks runner_id
        (bearer_token events_request)
        runner
    × (with_socket.hub ≡ accept_runner toy_runtime 7 runner_id [])
    × (two_tasks ≡ two_tasks)
unfolding worker
fetch-runner_socket_example =
    fetch-runner_socket toy link env moment events_request none (world two_tasks) with_socket "r1"
      refl events_answered

abbrev ticket_request : HttpRequest
ticket_request =
    request "GET" "/api/admin/events"
      (("upgrade", "websocket")
        ∷ ("sec-websocket-protocol", "taskhub-admin, 6000.n.363030302e6e")
        ∷ [])
      none

abbrev with_admin : World InMemory
with_admin = record { store = two_tasks; hub = accept_admin 7 [] }

ticket_answered :
    fetch (in_memory toy) toy link env moment ticket_request (world two_tasks)
    ≡ some (from_hub (switching_protocols (some "taskhub-admin")), with_admin)
unfolding worker service verify_admin_socket_ticket constant_time_string_equal equal_units
    accumulate
ticket_answered = refl

fetch-admin_socket_example :
    (token : String) × (configured (some "admin") ≡ some token)
    × (verify_admin_socket_ticket toy token 5000 (admin_socket_ticket ticket_request) ≡ true)
    × (with_admin.hub ≡ accept_admin 7 [])
    × (two_tasks ≡ two_tasks)
unfolding worker
fetch-admin_socket_example =
    fetch-admin_socket (in_memory toy) toy link env moment ticket_request (some "taskhub-admin")
      (world two_tasks) with_admin refl ticket_answered

abbrev pub beat_body : Value
beat_body = obj (field "leaseId" (str "lease_u1") (field "runnerId" (str "r1") no_fields))

abbrev pub beat_request : String → HttpRequest
beat_request token =
    request "POST" "/tasks/task_b/heartbeat" (("authorization", token) ∷ []) (some beat_body)

fetch-advisory_example :
    without_sockets
      (fetch (in_memory toy) toy link env moment (beat_request "Bearer ab") (world one_claimed))
    ≡ without_sockets (
        fetch
          (in_memory toy)
          toy
          broken_link
          env
          moment
          (beat_request "Bearer ab")
          (record { store = one_claimed; hub = accept_admin 7 [] }))
unfolding worker
fetch-advisory_example =
    fetch-advisory (in_memory toy) toy link broken_link env moment (beat_request "Bearer ab")
      (world one_claimed) (record { store = one_claimed; hub = accept_admin 7 [] }) refl refl
