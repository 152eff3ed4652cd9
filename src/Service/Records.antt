-- ===== src/Service/Records.antt =====
-- task-service.ts: the records that the operations of TaskHubService put in the store or return,
-- each from the record that stood there.
use Prim.Native.String.{◌++◌}
use task_hub.Shared.{
  true, ℕ, ◌+◌, ◌*◌, Bool, false, ◌&&◌, Option, none, some, [], String, ◌==◌, if◌then◌else◌,
}
use task_hub.Shared.Int.{pos}
use task_hub.Shared.Text.{is_empty, trim}
use task_hub.Types.{
  Instant, queued, pending_runner, leased, running, failed, RunnerRecord, TaskRecord, ClaimResponse,
  CompleteTaskInput, WebhookPayload, WebhookDelivery,
}
use task_hub.Types.Json.{Value, undefined, int, str, obj, no_fields, field}
use task_hub.Types.Names.{type_name, status_name, includes_type}
use task_hub.Platform.{Platform}
use task_hub.Security.{hash_runner_credential, hmac_hex}
use task_hub.Service.Submit.{Submission}
use task_hub.Service.Register.{Registration}

-- The options of the constructor; left out they are 90 seconds and "dev-webhook-secret".
pub record ServiceOptions : Type 0 where
  pub lease_seconds : ℕ
  pub webhook_secret : String

abbrev pub default_options : ServiceOptions
default_options = record { lease_seconds = 90; webhook_secret = "dev-webhook-secret" }

-- `a || b` on texts: the first that is not empty.
abbrev pub or_else : Option String → String → String
or_else none other = other
or_else (some s) other = if is_empty s then other else s

-- `a ?? b`
abbrev pub default_to : {A : Type 0} → Option A → A → A
default_to none other = other
default_to (some a) other = a

abbrev pub mapped : {A B : Type 0} → (A → B) → Option A → Option B
mapped f none = none
mapped f (some a) = some (f a)

abbrev pub joined : {A B : Type 0} → (A → Option B) → Option A → Option B
joined f none = none
joined f (some a) = f a

-- `JSON.stringify` leaves out a field whose value is `undefined`.
abbrev pub or_undefined : {A : Type 0} → (A → Value) → Option A → Value
or_undefined f none = undefined
or_undefined f (some a) = f a

abbrev pub webhook_value : WebhookPayload → Value
webhook_value payload = obj (
    field "taskId" (str payload.task_id) (
      field "runnerId" (str payload.runner_id) (
        field "status" (str (status_name payload.status)) (
          field "result" (or_undefined (λ v. v) payload.result) (
            field "exitCode" (or_undefined int payload.exit_code)
              (field "error" (or_undefined str payload.error) no_fields))))))

-- The record that `registerRunner` puts, over the one that stood there.
abbrev pub registered :
    (platform : Platform) → Instant → String → Registration → Option RunnerRecord → RunnerRecord
registered platform now runner_id registration previous = record {
  runner_id = runner_id;
  name =
      or_else (mapped trim registration.name)
        (or_else (mapped (λ (r : RunnerRecord). r.name) previous) runner_id);
  credential_hash = hash_runner_credential platform registration.credential;
  platform = registration.platform;
  labels = registration.labels;
  task_types = registration.task_types;
  capabilities = registration.capabilities;
  last_heartbeat_at = joined (λ (r : RunnerRecord). r.last_heartbeat_at) previous;
  created_at = default_to (mapped (λ (r : RunnerRecord). r.created_at) previous) now;
  updated_at = now;
}

-- The record that `submitTask` puts.
abbrev pub queued_task : Instant → String → Submission → TaskRecord
queued_task now uuid submission = record {
  task_id = "task_" ++ uuid;
  runner_id = submission.runner_id;
  type = submission.type;
  name = submission.name;
  payload = submission.payload;
  status = queued;
  timeout_seconds = submission.timeout_seconds;
  priority = default_to submission.priority (pos 0);
  callback_url = submission.callback_url;
  idempotency_key = submission.idempotency_key;
  lease_id = none;
  lease_expires_at = none;
  result = none;
  exit_code = none;
  error = none;
  created_at = now;
  updated_at = now;
}

abbrev pub failed_with : Instant → String → TaskRecord → TaskRecord
failed_with now message task = record task {
  status = failed;
  error = some message;
  updated_at = now;
}

-- The record that `processQueuedTask` puts. It does not look at the task's status.
abbrev pub dispatched : Instant → Option RunnerRecord → TaskRecord → TaskRecord
dispatched now none task =
    failed_with now ("runner " ++ task.runner_id ++ " is not registered") task
dispatched now (some runner) task =
    if includes_type runner.task_types task.type
    then record task { status = pending_runner; updated_at = now }
    else failed_with now
        ("runner " ++ task.runner_id ++ " does not support task type " ++ type_name task.type) task

abbrev pub lease_end : ServiceOptions → Instant → Instant
lease_end options now = now + options.lease_seconds * 1000

abbrev pub leased_task : ServiceOptions → Instant → String → TaskRecord → TaskRecord
leased_task options now uuid task = record task {
  status = leased;
  lease_id = some ("lease_" ++ uuid);
  lease_expires_at = some (lease_end options now);
  updated_at = now;
}

abbrev pub claim_response : ServiceOptions → Instant → String → TaskRecord → ClaimResponse
claim_response options now uuid task = record {
  task_id = task.task_id;
  lease_id = "lease_" ++ uuid;
  lease_expires_at = lease_end options now;
  type = task.type;
  payload = task.payload;
  timeout_seconds = task.timeout_seconds;
  workspace_policy = record {
    max_bytes = 1024 * 1024 * 1024;
    allowed_paths = [];
    artifact_upload_prefix = "tasks/" ++ task.task_id ++ "/artifacts/";
  };
}

abbrev pub running_task : ServiceOptions → Instant → TaskRecord → TaskRecord
running_task options now task = record task {
  status = running;
  lease_expires_at = some (lease_end options now);
  updated_at = now;
}

-- `leaseId` is kept.
abbrev pub completed_task : Instant → CompleteTaskInput → TaskRecord → TaskRecord
completed_task now input task = record task {
  status = input.status;
  exit_code = input.exit_code;
  result = input.result;
  error = input.error;
  lease_expires_at = none;
  updated_at = now;
}

-- `===` on two lease ids, each of which can be `undefined`.
abbrev pub same_lease : Option String → Option String → Bool
same_lease none none = true
same_lease none (some given) = false
same_lease (some held) none = false
same_lease (some held) (some given) = held == given

-- The test of `requireLease`. A request whose body has no `leaseId` passes none.
abbrev pub holds_lease : Option String → String → TaskRecord → Bool
holds_lease lease_id runner_id task =
    task.runner_id == runner_id && same_lease task.lease_id lease_id

-- What `recordWebhookDelivery` sends of a task, and the delivery that it saves. `url` is the task's
-- callback.
abbrev pub webhook_payload : TaskRecord → CompleteTaskInput → WebhookPayload
webhook_payload task input = record {
  task_id = task.task_id;
  runner_id = task.runner_id;
  status = input.status;
  result = task.result;
  exit_code = task.exit_code;
  error = task.error;
}

abbrev pub webhook_delivery :
    Platform → ServiceOptions → Instant → String → String → WebhookPayload → WebhookDelivery
webhook_delivery platform options now uuid url payload = record {
  event_id = "evt_" ++ uuid;
  event_type = "task." ++ status_name payload.status;
  callback_url = url;
  payload = payload;
  signature = hmac_hex platform options.webhook_secret (platform.stringify (webhook_value payload));
  created_at = now;
}
