-- ===== src/InMemory.antt =====
-- in-memory-store.ts: the store of the repository's tests. A record that is put or read is copied
-- there, so no two parts of the program share one, and the model needs no references.
pub mod Claimable
pub mod Listing
pub mod Pages
pub mod Parts
use task_hub.Shared.{
  ℕ, ◌+◌, ◌-◌, Bool, true, false, Option, none, some, List, [], ◌∷◌, ◌++◌, map, String, ◌==◌, ltb,
  leb, nat_eq, ◌||◌, ◌&&◌, filter, take, head?, last?, length, if◌then◌else◌,
}
use task_hub.Shared.Int.{ltb_ℤ}
use task_hub.Shared.Dict.{Dict, lookup, insert, values}
use task_hub.Shared.Sort.{sort}
use task_hub.Shared.Text.{code_units, is_empty, units_lt}
use task_hub.Types.{
  Instant, TaskStatus, queued, pending_runner, leased, running, succeeded, failed, canceled,
  expired, online, stale, offline, RunnerStatus, RunnerRecord, RunnerView, CurrentTask, TaskRecord,
  TaskCursor, RunnerStoreListQuery, TaskStoreListQuery, Page, LogEntry, TaskLogResult,
  WebhookDelivery, Result, ok, err,
}
use task_hub.Types.Names.{status_eq, type_eq, runner_status_eq}
use task_hub.Platform.{Platform}
use task_hub.Pagination.{
  encode_runner_cursor, encode_task_cursor, decode_runner_cursor, decode_task_cursor,
}
use task_hub.Action.{Action, pure, gets, modify, lift, ◌>>=◌}
use task_hub.Store.{TaskStore}

pub record LogBatch : Type 0 where
  pub task_id : String
  pub lease_id : Option String
  pub entries : List LogEntry

pub record InMemory : Type 0 where
  pub runners : Dict RunnerRecord
  pub tasks : Dict TaskRecord
  pub enqueued_task_ids : List String
  pub log_batches : List LogBatch
  pub webhook_deliveries : List WebhookDelivery

abbrev pub empty_store : InMemory
empty_store = record {
  runners = [];
  tasks = [];
  enqueued_task_ids = [];
  log_batches = [];
  webhook_deliveries = [];
}

unfoldable pub put_runner : RunnerRecord → Action InMemory (Unit {0})
put_runner runner = modify (λ s. record s { runners = insert runner.runner_id runner s.runners })

unfoldable pub get_runner : String → Action InMemory (Option RunnerRecord)
get_runner runner_id = gets (λ s. lookup runner_id s.runners)

abbrev pub touched : Instant → RunnerRecord → RunnerRecord
touched timestamp runner = record runner {
  last_heartbeat_at = some timestamp;
  updated_at = timestamp;
}

unfoldable pub touch_runner_heartbeat : String → Instant → Action InMemory (Unit {0})
touch_runner_heartbeat runner_id timestamp = modify (λ s. elim (lookup runner_id s.runners) [
  | none ↦ s
  | some runner ↦ record s { runners = insert runner_id (touched timestamp runner) s.runners }
])

unfoldable pub put_task : TaskRecord → Action InMemory (Unit {0})
put_task task = modify (λ s. record s { tasks = insert task.task_id task s.tasks })

unfoldable pub get_task : String → Action InMemory (Option TaskRecord)
get_task task_id = gets (λ s. lookup task_id s.tasks)

-- `task.idempotencyKey === idempotencyKey`
abbrev pub has_key : String → TaskRecord → Bool
has_key key task = elim task.idempotency_key [ none ↦ false | some k ↦ k == key ]

unfoldable pub find_task_by_idempotency_key : String → Action InMemory (Option TaskRecord)
find_task_by_idempotency_key key = gets (λ s. head? (filter (has_key key) (values s.tasks)))

unfoldable pub enqueue_task : String → Action InMemory (Unit {0})
enqueue_task task_id =
    modify (λ s. record s { enqueued_task_ids = s.enqueued_task_ids ++ task_id ∷ [] })

-- The filter of `findClaimableTask`. Only a `leased` task comes back when its lease runs out.
abbrev pub lease_is_over : Option Instant → Instant → Bool
lease_is_over none now = false
lease_is_over (some expires_at) now = leb expires_at now

abbrev pub is_open_for : TaskStatus → Option Instant → Instant → Bool
is_open_for pending_runner expires_at now = true
is_open_for leased expires_at now = lease_is_over expires_at now
is_open_for _ expires_at now = false

pub is_claimable : String → Instant → TaskRecord → Bool
is_claimable runner_id now task =
    task.runner_id == runner_id && is_open_for task.status task.lease_expires_at now

-- `b.priority - a.priority || a.createdAt.localeCompare(b.createdAt)`
pub claim_order : TaskRecord → TaskRecord → Bool
claim_order a b =
    if ltb_ℤ b.priority a.priority
    then true
    else if ltb_ℤ a.priority b.priority
    then false
    else leb a.created_at b.created_at

pub claim_candidates : String → Instant → InMemory → List TaskRecord
unfolding is_claimable claim_order
claim_candidates runner_id now s =
    sort claim_order (filter (is_claimable runner_id now) (values s.tasks))

unfoldable pub find_claimable_task : String → Instant → Action InMemory (Option TaskRecord)
unfolding claim_candidates
find_claimable_task runner_id now = gets (λ s. head? (claim_candidates runner_id now s))

abbrev pub is_in_progress : TaskStatus → Bool
is_in_progress leased = true
is_in_progress running = true
is_in_progress _ = false

pub current_tasks : String → InMemory → List TaskRecord
current_tasks runner_id s =
    sort (λ a b. leb b.updated_at a.updated_at)
      (filter (λ task. task.runner_id == runner_id && is_in_progress task.status) (values s.tasks))

unfoldable pub find_current_task : String → Action InMemory (Option TaskRecord)
unfolding current_tasks
find_current_task runner_id = gets (λ s. head? (current_tasks runner_id s))

-- `now - heartbeat` stops at 0 for a heartbeat from the future, which is online as well.
unfoldable pub activity : Option Instant → Instant → RunnerStatus
activity none now = offline
activity (some heartbeat) now =
    if leb (now - heartbeat) 15000
    then online
    else if leb (now - heartbeat) 60000
    then stale
    else offline

abbrev pub pick : TaskRecord → CurrentTask
pick task = record {
  task_id = task.task_id;
  name = task.name;
  status = task.status;
  updated_at = task.updated_at;
}

abbrev pub pick_current : Option TaskRecord → Option CurrentTask
pick_current none = none
pick_current (some task) = some (pick task)

pub runner_view : RunnerRecord → Option TaskRecord → Instant → RunnerView
unfolding activity
runner_view runner current_task now = record {
  runner_id = runner.runner_id;
  name = runner.name;
  platform = runner.platform;
  labels = runner.labels;
  task_types = runner.task_types;
  capabilities = runner.capabilities;
  last_heartbeat_at = runner.last_heartbeat_at;
  status = activity runner.last_heartbeat_at now;
  current_task = pick_current current_task;
  created_at = runner.created_at;
  updated_at = runner.updated_at;
}

abbrev pub view_in : InMemory → Instant → RunnerRecord → RunnerView
view_in s now runner = runner_view runner (head? (current_tasks runner.runner_id s)) now

unfoldable pub get_runner_view : String → Instant → Action InMemory (Option RunnerView)
unfolding runner_view current_tasks
get_runner_view runner_id now = gets (λ s. elim (lookup runner_id s.runners) [
  | none ↦ none
  | some runner ↦ some (view_in s now runner)
])

unfoldable pub save_logs : String → Option String → List LogEntry → Action InMemory (Unit {0})
save_logs task_id lease_id entries = modify (λ s. record s {
  log_batches =
      s.log_batches ++ record { task_id = task_id; lease_id = lease_id; entries = entries } ∷ [];
})

unfoldable pub save_webhook_delivery : WebhookDelivery → Action InMemory (Unit {0})
save_webhook_delivery delivery =
    modify (λ s. record s { webhook_deliveries = s.webhook_deliveries ++ delivery ∷ [] })

-- `flatMap`
abbrev pub entries_of : List LogBatch → List LogEntry
entries_of [] = []
entries_of (batch ∷ batches) = batch.entries ++ entries_of batches

module _ (platform : Platform) where
  unfoldable pub get_task_logs : String → Action InMemory TaskLogResult
  get_task_logs task_id = gets (λ s. record {
    entries =
        sort (λ a b. platform.locale_le a.timestamp b.timestamp)
          (entries_of (filter (λ batch. batch.task_id == task_id) s.log_batches));
    invalid_objects = 0;
  })
