-- ===== src/Service/Outcome.antt =====
-- What `heartbeat` and `completeTask` of `src/worker/task-service.ts` make of a task and of the store,
-- field by field.
use Prim.Native.String.{◌++◌}
use mathlib.Core.List.{◌++◌ as append}
use task_hub.Shared.{
  ◌≡◌, ◌≢◌, refl, false, true, ◌+◌, ◌*◌, Option, none, some, [], ◌∷◌, String, arith, Bool-cases,
  inl, inr,
}
use task_hub.Shared.Text.{is_empty}
use task_hub.Shared.Dict.{lookup, insert, lookup-insert_self, lookup-insert_ne}
use task_hub.Types.{
  Instant, running, RunnerRecord, TaskRecord, CompleteTaskInput, WebhookDelivery, ok,
}
use task_hub.Types.Names.{status_name}
use task_hub.Platform.{Platform}
use task_hub.Security.{hmac_hex}
use task_hub.InMemory.{InMemory, touched}
use task_hub.InMemory.Listing.{in_memory}
use task_hub.Service.{complete_task}
use task_hub.Service.Records.{
  ServiceOptions, running_task, completed_task, webhook_value, webhook_delivery, webhook_payload,
}
use task_hub.Service.Runs.{with_task, with_heartbeat}
use task_hub.Service.Changes.{SameSubmission}
use task_hub.Service.Leases.{HoldsLease, with_delivery, complete_task-held}

-- The second store has this task under its id, and all other tasks as they were.
pub record Stores (s t : InMemory) (task : TaskRecord) : Type 0 where
  pub stored : lookup task.task_id t.tasks ≡ some task
  pub others : (id : String) → task.task_id ≢ id → lookup id t.tasks ≡ lookup id s.tasks

inserted-Stores :
    (s t : InMemory) (task : TaskRecord)
    → t.tasks ≡ insert task.task_id task s.tasks
    → Stores s t task
inserted-Stores s t task e = record {
  stored = rw e (lookup-insert_self task.task_id task s.tasks);
  others = λ id other. rw e (lookup-insert_ne task.task_id id task s.tasks other);
}

-- The task runs under its old lease, which ends `lease_seconds` from now. The outcome that it may have
-- and what was submitted stay.
pub record IsRunning (options : ServiceOptions) (now : Instant) (old new : TaskRecord)
    : Type 0 where
  pub status : new.status ≡ running
  pub lease_id : new.lease_id ≡ old.lease_id
  pub lease_expires_at : new.lease_expires_at ≡ some (now + options.lease_seconds * 1000)
  pub result : new.result ≡ old.result
  pub exit_code : new.exit_code ≡ old.exit_code
  pub error : new.error ≡ old.error
  pub updated_at : new.updated_at ≡ now
  pub submission : SameSubmission old new

-- A heartbeat from `s` to `t`: the task runs, the runner was active now, and nothing else is touched.
pub record IsBeat (options : ServiceOptions) (now : Instant) (runner_id : String)
    (old new : TaskRecord) (s t : InMemory) : Type 0 where
  pub runs : IsRunning options now old new
  pub stores : Stores s t new
  pub active :
      (runner : RunnerRecord) × (lookup runner_id t.runners ≡ some runner)
      × (runner.last_heartbeat_at ≡ some now)
  pub other_runners : (id : String) → runner_id ≢ id → lookup id t.runners ≡ lookup id s.runners
  pub queue : t.enqueued_task_ids ≡ s.enqueued_task_ids
  pub logs : t.log_batches ≡ s.log_batches
  pub deliveries : t.webhook_deliveries ≡ s.webhook_deliveries

pub running_task-IsBeat :
    (options : ServiceOptions) (now : Instant) (runner_id : String) (runner : RunnerRecord)
    (task : TaskRecord) (s : InMemory)
    → IsBeat options now runner_id task
        (running_task options now task)
        s
        (with_task (running_task options now task) (with_heartbeat now runner_id runner s))
running_task-IsBeat options now runner_id runner task s = record {
  runs = ground arith;
  stores =
      inserted-Stores s
        (with_task (running_task options now task) (with_heartbeat now runner_id runner s))
        (running_task options now task) refl;
  active = (touched now runner, lookup-insert_self runner_id (touched now runner) s.runners, refl);
  other_runners = λ id other. lookup-insert_ne runner_id id (touched now runner) s.runners other;
  queue = refl;
  logs = refl;
  deliveries = refl;
}

-- The task has the outcome that was given, and no lease that could run out. What was submitted stays.
pub record IsCompleted (now : Instant) (input : CompleteTaskInput) (old new : TaskRecord)
    : Type 0 where
  pub status : new.status ≡ input.status
  pub exit_code : new.exit_code ≡ input.exit_code
  pub result : new.result ≡ input.result
  pub error : new.error ≡ input.error
  pub lease_id : new.lease_id ≡ old.lease_id
  pub lease_expires_at : new.lease_expires_at ≡ none
  pub updated_at : new.updated_at ≡ now
  pub submission : SameSubmission old new

pub completed_task-IsCompleted :
    (now : Instant) (input : CompleteTaskInput) (task : TaskRecord)
    → IsCompleted now input task (completed_task now input task)
completed_task-IsCompleted now input task = ground arith

-- The delivery tells the callback the outcome of the task, signed with the secret.
pub record TellsOutcome (platform : Platform) (options : ServiceOptions) (later : Instant)
    (uuid url : String) (input : CompleteTaskInput) (old : TaskRecord) (delivery : WebhookDelivery)
    : Type 0 where
  pub event_id : delivery.event_id ≡ "evt_" ++ uuid
  pub event_type : delivery.event_type ≡ "task." ++ status_name input.status
  pub callback_url : delivery.callback_url ≡ url
  pub task_id : delivery.payload.task_id ≡ old.task_id
  pub runner_id : delivery.payload.runner_id ≡ old.runner_id
  pub status : delivery.payload.status ≡ input.status
  pub result : delivery.payload.result ≡ input.result
  pub exit_code : delivery.payload.exit_code ≡ input.exit_code
  pub error : delivery.payload.error ≡ input.error
  pub signature :
      delivery.signature
      ≡ hmac_hex platform options.webhook_secret
          (platform.stringify (webhook_value delivery.payload))
  pub created_at : delivery.created_at ≡ later

-- What a completion adds to the deliveries: one if the task has a callback that is not empty, and
-- none otherwise.
pub data Notifies (platform : Platform) (options : ServiceOptions) (later : Instant) (uuid : String)
    (input : CompleteTaskInput) (old : TaskRecord) (s t : InMemory) : Type 0 where
  silent :
      ((url : String) → old.callback_url ≡ some url → is_empty url ≡ true)
      → t.webhook_deliveries ≡ s.webhook_deliveries
      → Notifies platform options later uuid input old s t
  tells :
      (url : String) (delivery : WebhookDelivery)
      → old.callback_url ≡ some url
      → is_empty url ≡ false
      → TellsOutcome platform options later uuid url input old delivery
      → t.webhook_deliveries ≡ append s.webhook_deliveries (delivery ∷ [])
      → Notifies platform options later uuid input old s t

module _ (platform : Platform) (options : ServiceOptions) (later : Instant) (uuid : String)
    (input : CompleteTaskInput) where
  told :
      (now : Instant) (url : String) (task : TaskRecord)
      → TellsOutcome platform options later uuid url input task (
          webhook_delivery platform options later uuid url
            (webhook_payload (completed_task now input task) input))
  told now url task = ground arith

  -- What `with_delivery` leaves beside the deliveries.
  pub with_delivery-kept :
      (url : Option String) (task : TaskRecord) (s : InMemory)
      → ((with_delivery platform options later uuid input url task s).tasks ≡ s.tasks)
        × ((with_delivery platform options later uuid input url task s).runners ≡ s.runners)
        × ((with_delivery platform options later uuid input url task s).enqueued_task_ids
            ≡ s.enqueued_task_ids)
        × ((with_delivery platform options later uuid input url task s).log_batches ≡ s.log_batches)
  with_delivery-kept none task s = (refl, refl, refl, refl)
  with_delivery-kept (some url) task s = (ground arith, ground arith, ground arith, ground arith)

  with_delivery-Notifies :
      (now : Instant) (callback : Option String) (task : TaskRecord) (s m : InMemory)
      → task.callback_url ≡ callback
      → m.webhook_deliveries ≡ s.webhook_deliveries
      → Notifies platform options later uuid input task s (
          with_delivery platform options later uuid input callback
            (completed_task now input task)
            m)
  with_delivery-Notifies now none task s m e same = silent (λ url f. cc) same
  with_delivery-Notifies now (some url) task s m e same = elim (Bool-cases (is_empty url)) [
    | inl empty ↦ silent (λ other f. cc) (ground arith)
    | inr full ↦
        tells url
          (webhook_delivery platform options later uuid url
            (webhook_payload (completed_task now input task) input))
          e full (told now url task) (rw (full, same) refl)
  ]

-- A completion from `s` to `t`: the task has the outcome, the callback is told, and nothing else is
-- touched.
pub record Completes (platform : Platform) (options : ServiceOptions) (now later : Instant)
    (uuid : String) (input : CompleteTaskInput) (old new : TaskRecord) (s t : InMemory)
    : Type 0 where
  pub done : IsCompleted now input old new
  pub stores : Stores s t new
  pub notifies : Notifies platform options later uuid input old s t
  pub runners : t.runners ≡ s.runners
  pub queue : t.enqueued_task_ids ≡ s.enqueued_task_ids
  pub logs : t.log_batches ≡ s.log_batches

module _ (platform : Platform) (options : ServiceOptions) (s : InMemory) (task_id : String)
    (lease_id : Option String) (runner_id credential : String) where
  -- The holder's completion, in whatever status the task is, answers the task with the status, the
  -- exit code, the result and the error that were given, without an end of its lease, and otherwise
  -- as it was. That task is stored, no other task, no runner, log or queued id changes, and if the
  -- task has a callback that is not empty, one delivery is added that tells it this outcome under
  -- its signature; otherwise none.
  pub complete_task-Completes :
      (now later : Instant) (uuid : String) (input : CompleteTaskInput) (runner : RunnerRecord)
      (task : TaskRecord)
      → HoldsLease platform s task_id lease_id runner_id credential runner task
      → (new : TaskRecord) × (t : InMemory) × (complete_task
            (in_memory platform)
            platform
            options
            now
            later
            uuid
            task_id
            lease_id
            runner_id
            credential
            input
            s
          ≡ (ok new, t))
        × Completes platform options now later uuid input task new s t
  complete_task-Completes now later uuid input runner task h =
      let new = completed_task now input task in
      let t =
        with_delivery platform options later uuid input task.callback_url new (with_task new s) in
      let (tasks, runners, queue, logs) =
        with_delivery-kept platform options later uuid input task.callback_url new
          (with_task new s) in
      (
        new,
        t,
        complete_task-held platform options s task_id lease_id runner_id credential h now later uuid
            input,
        record {
          done = completed_task-IsCompleted now input task;
          stores = inserted-Stores s t new tasks;
          notifies =
              with_delivery-Notifies platform options later uuid input now task.callback_url task s
                (with_task new s) refl refl;
          runners = runners;
          queue = queue;
          logs = logs;
        },
      )
