-- ===== src/Worker/Admin.antt =====
-- The administrator's routes (`handleAdminRequest` of `src/worker/index.ts`, and the making of a
-- ticket).
use task_hub.Shared.{Option, String}
use task_hub.Shared.Dict.{lookup}
use task_hub.Types.{RunnerStatus, TaskStatus, TaskType, RunnerListQuery, TaskListQuery}
use task_hub.Types.Json.{Value, str, obj, no_fields, field}
use task_hub.Types.Names.{status_name}
use task_hub.Platform.{Platform}
use task_hub.Action.{Action, pure, lift, ◌>>=◌}
use task_hub.Store.{TaskStore}
use task_hub.Security.Ticket.{create_admin_socket_ticket}
use task_hub.Service.{
  submit_task, list_runners, get_runner_view, list_tasks, get_task_for_admin, get_task_logs,
}
use task_hub.Service.Records.{ServiceOptions}
use task_hub.Worker.Request.{
  HttpRequest, Env, Moment, parse_status, parse_type, parse_runner_status, parse_limit, decoded,
}
use task_hub.Worker.Link.{World, HubLink, on_store, presence_stub}
use task_hub.Worker.Bodies.{parse_body}
use task_hub.Worker.Response.{
  Response, json, of_value, of_ticket, of_task, of_detail, of_runners, of_tasks, of_logs, failure,
  found_or_missing, service_options,
}
use task_hub.Worker.Route.{
  AdminRoute, ticket, presence, runner_list, task_list, submission, unknown, runner_detail,
  task_logs, task_detail,
}

-- The queries, from the parameters of the request.
module _ (request : HttpRequest) where
  abbrev pub runner_query : Option RunnerStatus → Value → RunnerListQuery
  runner_query status limit = record {
    status = status;
    limit = limit;
    cursor = lookup "cursor" request.parameters;
  }

  abbrev pub task_query : Option TaskStatus → Option TaskType → Value → TaskListQuery
  task_query status type limit = record {
    runner_id = lookup "runnerId" request.parameters;
    status = status;
    type = type;
    limit = limit;
    cursor = lookup "cursor" request.parameters;
  }

module _ {S : Type 0} (store : TaskStore S) (platform : Platform) (link : HubLink) (env : Env)
    (moment : Moment) (request : HttpRequest) where
  abbrev options : ServiceOptions
  options = service_options env

  unfoldable pub serve_admin : String → AdminRoute → Action (World S) Response
  unfolding presence_stub
  serve_admin secret ticket =
      pure
        (json (of_ticket (create_admin_socket_ticket platform secret moment.now moment.nonce)) 200)
  serve_admin secret presence = do
    value ← presence_stub platform link moment.socket_id
    pure (json (of_value value) 200)
  serve_admin secret runner_list = do
    status ← lift (parse_runner_status request)
    limit ← lift (parse_limit request)
    found ←
        on_store
          (list_runners store platform options moment.now (runner_query request status limit))
    pure (json (of_runners found) 200)
  serve_admin secret (runner_detail text) = do
    runner_id ← lift (decoded platform text)
    found ← on_store (get_runner_view store platform options moment.now runner_id)
    pure (found_or_missing of_detail found)
  serve_admin secret task_list = do
    status ← lift (parse_status request)
    type ← lift (parse_type request)
    limit ← lift (parse_limit request)
    found ← on_store (list_tasks store platform options (task_query request status type limit))
    pure (json (of_tasks found) 200)
  serve_admin secret submission = do
    body ← lift (parse_body request)
    task ← on_store (submit_task store platform options moment.now moment.uuid body)
    pure (
        json
          (of_value (
            obj (
              field "taskId" (str task.task_id)
                (field "status" (str (status_name task.status)) no_fields))))
          202)
  serve_admin secret (task_logs text) = do
    task_id ← lift (decoded platform text)
    found ← on_store (get_task_logs store platform options task_id)
    pure (found_or_missing of_logs found)
  serve_admin secret (task_detail text) = do
    task_id ← lift (decoded platform text)
    found ← on_store (get_task_for_admin store platform options task_id)
    pure (found_or_missing of_task found)
  serve_admin secret unknown = pure (failure "not found" 404)
