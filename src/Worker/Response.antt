-- ===== src/Worker/Response.antt =====
-- The answers of the worker (`json` and the end of `fetch` in `src/worker/index.ts`).
use task_hub.Shared.{ℕ, Option, none, some, String, if◌then◌else◌}
use task_hub.Shared.Text.{is_empty}
use task_hub.Types.{
  TaskRecord, RunnerView, RunnerDetail, ClaimResponse, TaskLogResult, Page, Error, validation,
  authentication, not_found, internal, untyped,
}
use task_hub.Types.Json.{Value, str, obj, no_fields, field}
use task_hub.Security.Ticket.{AdminTicket}
use task_hub.Service.Records.{ServiceOptions}
use task_hub.Hub.Fetch.{HubResponse}
use task_hub.Worker.Request.{Env}

-- What `json(...)` writes.
pub data Payload : Type 0 where
  of_value : Value → Payload
  of_ticket : AdminTicket → Payload
  of_claim : Option ClaimResponse → Payload
  of_task : TaskRecord → Payload
  of_detail : RunnerDetail → Payload
  of_runners : Page RunnerView → Payload
  of_tasks : Page TaskRecord → Payload
  of_logs : TaskLogResult → Payload

pub data Response : Type 0 where
  json : Payload → ℕ → Response
  admin_page : Response
  from_hub : HubResponse → Response

abbrev pub failure : String → ℕ → Response
failure message status = json (of_value (obj (field "error" (str message) no_fields))) status

-- `found ? json(found) : json({ error: "not found" }, 404)`
abbrev pub found_or_missing : {A : Type 0} → (A → Payload) → Option A → Response
found_or_missing to none = failure "not found" 404
found_or_missing to (some a) = json (to a) 200

-- The answer to an error; on `untyped` the model says nothing.
abbrev pub error_response : Error → Option Response
error_response (validation message) = some (failure message 400)
error_response (authentication message) = some (failure message 401)
error_response (not_found message) = some (failure "not found" 404)
error_response (internal message) = some (failure "internal server error" 500)
error_response untyped = none

-- `options.webhookSecret ?? "dev-webhook-secret"`
abbrev pub service_options : Env → ServiceOptions
service_options env = record {
  lease_seconds = 90;
  webhook_secret = elim env.webhook_secret [ none ↦ "dev-webhook-secret" | some s ↦ s ];
}

-- A secret that is set and not empty.
abbrev pub configured : Option String → Option String
configured none = none
configured (some secret) = if is_empty secret then none else some secret
