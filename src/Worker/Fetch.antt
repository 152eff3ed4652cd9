-- ===== src/Worker/Fetch.antt =====
-- `fetch` of the worker (`src/worker/index.ts`): who may take a route, and the answer to an error.
pub mod Guards
pub mod Advisory
pub mod Forward
pub mod Sockets
pub mod Reports
use task_hub.Shared.Dict.{Dict}
use task_hub.Shared.{ℕ, Bool, not, Option, none, some, String, if◌then◌else◌}
use task_hub.Types.{Result, ok, err}
use task_hub.Platform.{Platform}
use task_hub.Action.{Action, pure, lift, ◌>>=◌, ◌>>◌}
use task_hub.Store.{TaskStore}
use task_hub.Security.{constant_time_string_equal}
use task_hub.Security.Ticket.{verify_admin_socket_ticket}
use task_hub.Service.{authenticate_runner_connection}
use task_hub.Worker.Request.{HttpRequest, Env, Moment, bearer_token, admin_socket_ticket, decoded}
use task_hub.Worker.Link.{World, HubLink, on_store, forward_hub_upgrade}
use task_hub.Worker.Response.{
  Response, admin_page, from_hub, failure, error_response, service_options, configured,
}
use task_hub.Worker.Admin.{serve_admin}
use task_hub.Worker.Runner.{
  serve_registration, serve_claim, serve_beat, serve_logs, serve_completion,
}
use task_hub.Worker.Route.{
  AdminRoute, Route, page, admin_events, registration, missing, admin, runner_events, claim, beat,
  log, complete, route,
}

-- The hub's answer to the upgrade, as it is.
abbrev pub forwarded_to_hub :
    {S : Type 0}
    → Platform
    → HubLink
    → ℕ
    → Dict String
    → String
    → Option String
    → Action (World S) Response
forwarded_to_hub platform link socket_id headers role runner_id = do
  response ← forward_hub_upgrade platform link socket_id headers role runner_id
  pure (from_hub response)

-- What only the holder of a secret may do, where one is configured.
module _ {S : Type 0} where
  abbrev pub guarded_by :
      Option String
      → (String → Bool)
      → (String → Action (World S) Response)
      → Action (World S) Response
  guarded_by none passes inside = pure (failure "unauthorized" 401)
  guarded_by (some token) passes inside =
      if not (passes token) then pure (failure "unauthorized" 401) else inside token

  abbrev pub guarded :
      Option String
      → (String → Bool)
      → (String → Action (World S) Response)
      → Action (World S) Response
  guarded secret = guarded_by (configured secret)

-- `none` where the model leaves open what the source does on an ill-typed body.
abbrev pub answered : {S : Type 0} → Result Response × World S → Option (Response × World S)
answered (ok response, w) = some (response, w)
answered (err e, w) = elim (error_response e) [ none ↦ none | some response ↦ some (response, w) ]

module _ {S : Type 0} (store : TaskStore S) (platform : Platform) (link : HubLink) (env : Env)
    (moment : Moment) (request : HttpRequest) where
  abbrev pub to_hub : String → Option String → Action (World S) Response
  to_hub = forwarded_to_hub platform link moment.socket_id request.headers

  unfoldable pub serve_admin_events : Action (World S) Response
  serve_admin_events =
      guarded env.admin_token
        (λ token.
          verify_admin_socket_ticket platform token moment.now (admin_socket_ticket request))
        (λ token. to_hub "admin" none)

  unfoldable pub serve_runner_events : String → Action (World S) Response
  serve_runner_events text = do
    runner_id ← lift (decoded platform text)
    on_store (
        authenticate_runner_connection store platform (service_options env) runner_id
          (bearer_token request))
    to_hub "runner" (some runner_id)

  unfoldable pub guard_admin : AdminRoute → Action (World S) Response
  guard_admin r =
      guarded env.admin_token (constant_time_string_equal (bearer_token request))
        (λ token. serve_admin store platform link env moment request token r)

  unfoldable pub serve_route : Route → Action (World S) Response
  serve_route page = pure admin_page
  serve_route admin_events = serve_admin_events
  serve_route (runner_events text) = serve_runner_events text
  serve_route (admin r) = guard_admin r
  serve_route registration = serve_registration store platform link env moment request
  serve_route (claim text) = serve_claim store platform link env moment request text
  serve_route (beat text) = serve_beat store platform link env moment request text
  serve_route (log text) = serve_logs store platform link env moment request text
  serve_route (complete text) = serve_completion store platform link env moment request text
  serve_route missing = pure (failure "not found" 404)

  unfoldable pub fetch : World S → Option (Response × World S)
  unfolding serve_route route
  fetch w = answered (serve_route (route request) w)
