-- ===== src/Worker/Runner.antt =====
-- The runner's routes (`fetch` of `src/worker/index.ts`): its registration, its claims, and what it
-- reports of a task.
use task_hub.Shared.{true, not, Option, none, some, String, ◌==◌, if◌then◌else◌}
use task_hub.Types.{ClaimResponse, TaskRecord, leased}
use task_hub.Types.Json.{bool, str, obj, no_fields, field}
use task_hub.Platform.{Platform}
use task_hub.Action.{Action, pure, lift, ◌>>=◌, ◌>>◌}
use task_hub.Store.{TaskStore}
use task_hub.Service.{register_runner, claim_task, heartbeat, append_logs, complete_task}
use task_hub.Service.Records.{ServiceOptions}
use task_hub.Worker.Request.{HttpRequest, Env, Moment, bearer_token}
use task_hub.Worker.Link.{
  World, HubLink, on_store, best_effort, task_changed, broadcast_stub, broadcast_best_effort,
}
use task_hub.Worker.Bodies.{parse_body, property, holder_given, entries_given, completion_given}
use task_hub.Worker.Response.{
  Response, json, of_value, of_claim, of_task, failure, service_options, configured,
}

module _ {S : Type 0} (store : TaskStore S) (platform : Platform) (link : HubLink) (env : Env)
    (moment : Moment) (request : HttpRequest) where
  abbrev options : ServiceOptions
  options = service_options env

  abbrev pub register_with : Action (World S) Response
  register_with = do
    body ← lift (parse_body request)
    runner ← on_store (register_runner store platform options moment.now moment.uuid body)
    pure (
        json
          (of_value (
            obj
              (field "runnerId" (str runner.runner_id) (field "name" (str runner.name) no_fields))))
          201)

  -- The registration is off where no token is set.
  abbrev pub register_under : Option String → Action (World S) Response
  register_under none = pure (failure "runner registration is disabled" 401)
  register_under (some token) =
      if not (bearer_token request == token)
      then pure (failure "invalid runner registration token" 401)
      else register_with

  unfoldable pub serve_registration : Action (World S) Response
  serve_registration = register_under (configured env.registration_token)

  -- An administrator is told of a task that was claimed.
  abbrev pub tell_claimed : String → Option ClaimResponse → Action (World S) (Unit {0})
  tell_claimed runner_id none = pure tt
  tell_claimed runner_id (some claimed) = best_effort (
      broadcast_stub platform link moment.socket_id (task_changed claimed.task_id runner_id leased))

  -- The runner id is the segment of the path as it is.
  unfoldable pub serve_claim : String → Action (World S) Response
  serve_claim runner_id = do
    claimed ←
        on_store (
          claim_task store platform options moment.now moment.uuid runner_id (bearer_token request))
    tell_claimed runner_id claimed
    pure (json (of_claim claimed) 200)

  abbrev pub tell_and_answer : TaskRecord → Action (World S) Response
  tell_and_answer task = do
    broadcast_best_effort platform link moment.socket_id task
    pure (json (of_task task) 200)

  unfoldable pub serve_beat : String → Action (World S) Response
  serve_beat task_id = do
    body ← lift (parse_body request)
    holder ← lift (holder_given body)
    task ← on_store (
        heartbeat store platform options moment.now task_id holder.lease_id holder.runner_id
          (bearer_token request))
    tell_and_answer task

  unfoldable pub serve_logs : String → Action (World S) Response
  serve_logs task_id = do
    body ← lift (parse_body request)
    holder ← lift (holder_given body)
    entries_value ← lift (property "entries" body)
    entries ← lift (entries_given entries_value)
    on_store (
        append_logs store platform options task_id holder.lease_id holder.runner_id
          (bearer_token request) entries)
    pure (json (of_value (obj (field "ok" (bool true) no_fields))) 200)

  unfoldable pub serve_completion : String → Action (World S) Response
  serve_completion task_id = do
    body ← lift (parse_body request)
    holder ← lift (holder_given body)
    input ← lift (completion_given body)
    task ← on_store (
        complete_task store platform options moment.now moment.later moment.uuid task_id
          holder.lease_id holder.runner_id (bearer_token request) input)
    tell_and_answer task
