-- ===== src/Service/Changes.antt =====
-- What an operation of the service can do to the in-memory store: a few kinds of change, and the
-- facts about a task that no change touches.
use task_hub.Shared.{◌≡◌, ◌≢◌, Option, none, some, [], ◌∷◌, ◌++◌, String, In}
use task_hub.Shared.Dict.{lookup, insert, values, Keyed}
use task_hub.Types.{queued, leased, RunnerRecord, TaskRecord, WebhookDelivery}
use task_hub.InMemory.{InMemory, LogBatch}

-- The fields that a task keeps from its submission on.
pub record SameSubmission (old new : TaskRecord) : Type 0 where
  pub task_id : new.task_id ≡ old.task_id
  pub runner_id : new.runner_id ≡ old.runner_id
  pub type : new.type ≡ old.type
  pub name : new.name ≡ old.name
  pub payload : new.payload ≡ old.payload
  pub timeout_seconds : new.timeout_seconds ≡ old.timeout_seconds
  pub priority : new.priority ≡ old.priority
  pub callback_url : new.callback_url ≡ old.callback_url
  pub idempotency_key : new.idempotency_key ≡ old.idempotency_key
  pub created_at : new.created_at ≡ old.created_at

-- A task that is leased names its lease.
abbrev pub HasLease : TaskRecord → Type 0
HasLease task = task.status ≡ leased → (lease_id : String) × (task.lease_id ≡ some lease_id)

abbrev pub KeyIsFree : Option String → InMemory → Type 0
KeyIsFree key s =
    (other : TaskRecord) (k : String)
    → In other (values s.tasks)
    → key ≡ some k
    → other.idempotency_key ≢ some k

abbrev pub task_id_of : TaskRecord → String
task_id_of task = task.task_id

abbrev pub runner_id_of : RunnerRecord → String
runner_id_of runner = runner.runner_id

-- One change, from `s` to `s'`.
pub data Change (s s' : InMemory) : Type 0 where
  puts_runner :
      (runner : RunnerRecord)
      → s' ≡ record s { runners = insert runner.runner_id runner s.runners }
      → Change s s'
  adds_task :
      (task : TaskRecord)
      → lookup task.task_id s.tasks ≡ none
      → task.status ≡ queued
      → KeyIsFree task.idempotency_key s
      → s' ≡ record s {
        tasks = insert task.task_id task s.tasks;
        enqueued_task_ids = s.enqueued_task_ids ++ task.task_id ∷ [];
      }
      → Change s s'
  updates_task :
      (old new : TaskRecord)
      → lookup old.task_id s.tasks ≡ some old
      → SameSubmission old new
      → HasLease new
      → s' ≡ record s { tasks = insert new.task_id new s.tasks }
      → Change s s'
  adds_logs :
      (batch : LogBatch) (task : TaskRecord)
      → lookup batch.task_id s.tasks ≡ some task
      → s' ≡ record s { log_batches = s.log_batches ++ batch ∷ [] }
      → Change s s'
  adds_delivery :
      (delivery : WebhookDelivery) (task : TaskRecord)
      → lookup delivery.payload.task_id s.tasks ≡ some task
      → s' ≡ record s { webhook_deliveries = s.webhook_deliveries ++ delivery ∷ [] }
      → Change s s'

-- A sequence of changes.
pub data Changes (s : InMemory) : InMemory → Type 0 where
  unchanged : Changes s s
  then_change : {t u : InMemory} → Changes s t → Change t u → Changes s u

pub Changes-trans : {s t u : InMemory} → Changes s t → Changes t u → Changes s u
Changes-trans h unchanged = h
Changes-trans h (then_change k c) = then_change (Changes-trans h k) c

-- Each record stands under its own id, and under no other.
pub record IsKeyed (s : InMemory) : Type 0 where
  pub runners : Keyed runner_id_of s.runners
  pub tasks : Keyed task_id_of s.tasks
