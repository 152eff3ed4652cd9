-- ===== src/Service.antt =====
-- task-service.ts: TaskHubService over any TaskStore. `now` is what `this.now()` returns and `uuid`
-- what `randomUUID()` does, at each place where the source calls them.
pub mod Submit
pub mod Register
pub mod Records
pub mod Changes
pub mod Keeps
pub mod Invariant
pub mod Runs
pub mod Claiming
pub mod Leases
pub mod Outcome
pub mod Steps
pub mod LeaseSteps
pub mod Lifecycle
pub mod Exclusive
pub mod Hazards
pub mod Listing
pub mod Unclaimed
use Prim.Native.String.{◌++◌}
use task_hub.Shared.{ℕ, Bool, not, ◌&&◌, Option, none, some, List, String, leb, if◌then◌else◌}
use task_hub.Shared.Int.{pos}
use task_hub.Shared.Text.{is_empty}
use task_hub.Types.{
  Instant, RunnerRecord, RunnerView, RunnerDetail, TaskRecord, ClaimResponse, LogEntry,
  TaskLogResult, CompleteTaskInput, RunnerListQuery, TaskListQuery, TaskStoreListQuery, Page,
  validation, authentication, not_found, Result, ok, err,
}
use task_hub.Types.Json.{Value, undefined, int}
use task_hub.Platform.{Platform}
use task_hub.Action.{Action, pure, lift, or_raise, raise_if, ◌>>=◌, ◌>>◌}
use task_hub.Store.{TaskStore}
use task_hub.Security.{verify_runner_credential}
use Submit.{Submission, validate_submission}
use Register.{Registration, validate_registration}
use Records.{
  ServiceOptions, or_else, registered, queued_task, dispatched, leased_task, claim_response,
  running_task, completed_task, holds_lease, webhook_payload, webhook_delivery,
}

-- `normalizeLimit`
unfoldable pub normalize_limit : Value → Result ℕ
normalize_limit undefined = ok 50
normalize_limit (int (pos n)) =
    if leb 1 n && leb n 100
    then ok n
    else err (validation "limit must be an integer between 1 and 100")
normalize_limit _ = err (validation "limit must be an integer between 1 and 100")

module _ {S : Type 0} (store : TaskStore S) (platform : Platform) (options : ServiceOptions) where
  pub require_task : String → Action S TaskRecord
  require_task task_id = do
    found ← store.get_task task_id
    or_raise found (not_found ("task " ++ task_id ++ " not found"))

  unfoldable pub require_lease : String → Option String → String → Action S TaskRecord
  unfolding require_task
  require_lease task_id lease_id runner_id = do
    task ← require_task task_id
    raise_if (not (holds_lease lease_id runner_id task)) (validation "invalid task lease")
    pure task

  abbrev credential_fits : String → Option RunnerRecord → Option RunnerRecord
  credential_fits credential none = none
  credential_fits credential (some runner) =
      if verify_runner_credential platform credential runner.credential_hash
      then some runner
      else none

  unfoldable pub authenticate_runner : String → String → Action S RunnerRecord
  authenticate_runner runner_id credential = do
    found ← store.get_runner runner_id
    or_raise (credential_fits credential found) (authentication "invalid runner credential")

  pub update_task : TaskRecord → Action S TaskRecord
  update_task task = do store.put_task task; pure task

  -- `registerRunner` and `submitTask` once the body has passed its tests.
  unfoldable pub register_checked : Instant → String → Registration → Action S RunnerRecord
  register_checked now uuid registration = do
    let runner_id = or_else registration.runner_id ("runner_" ++ uuid)
    previous ← store.get_runner runner_id
    let runner = registered platform now runner_id registration previous
    store.put_runner runner
    pure runner

  unfoldable pub register_runner : Instant → String → Value → Action S RunnerRecord
  unfolding register_checked
  register_runner now uuid input = do
    registration ← lift (validate_registration input)
    register_checked now uuid registration

  -- `input.idempotencyKey ? findTaskByIdempotencyKey(...) : undefined`
  pub find_submitted : Option String → Action S (Option TaskRecord)
  find_submitted none = pure none
  find_submitted (some key) = store.find_task_by_idempotency_key key

  pub enqueue_new : TaskRecord → Action S TaskRecord
  enqueue_new task = do store.put_task task; store.enqueue_task task.task_id; pure task

  unfoldable pub submit_checked : Instant → String → Submission → Action S TaskRecord
  unfolding find_submitted enqueue_new
  submit_checked now uuid submission = do
    existing ← find_submitted submission.idempotency_key
    elim existing [ some task ↦ pure task | none ↦ enqueue_new (queued_task now uuid submission) ]

  unfoldable pub submit_task : Instant → String → Value → Action S TaskRecord
  unfolding submit_checked
  submit_task now uuid input = do
    submission ← lift (validate_submission platform input)
    submit_checked now uuid submission

  unfoldable pub process_queued_task : Instant → String → Action S TaskRecord
  unfolding require_task update_task
  process_queued_task now task_id = do
    task ← require_task task_id
    runner ← store.get_runner task.runner_id
    update_task (dispatched now runner task)

  pub grant_lease : Instant → String → TaskRecord → Action S (Option ClaimResponse)
  unfolding update_task
  grant_lease now uuid task = do
    update_task (leased_task options now uuid task)
    pure (some (claim_response options now uuid task))

  unfoldable pub claim_task : Instant → String → String → String → Action S (Option ClaimResponse)
  unfolding grant_lease
  claim_task now uuid runner_id credential = do
    authenticate_runner runner_id credential
    store.touch_runner_heartbeat runner_id now
    found ← store.find_claimable_task runner_id now
    elim found [ none ↦ pure none | some task ↦ grant_lease now uuid task ]

  unfoldable pub authenticate_runner_connection : String → String → Action S (Unit {0})
  authenticate_runner_connection runner_id credential = do
    authenticate_runner runner_id credential
    pure tt

  unfoldable pub heartbeat :
      Instant → String → Option String → String → String → Action S TaskRecord
  unfolding update_task
  heartbeat now task_id lease_id runner_id credential = do
    authenticate_runner runner_id credential
    task ← require_lease task_id lease_id runner_id
    store.touch_runner_heartbeat runner_id now
    update_task (running_task options now task)

  unfoldable pub append_logs :
      String → Option String → String → String → List LogEntry → Action S (Unit {0})
  append_logs task_id lease_id runner_id credential entries = do
    authenticate_runner runner_id credential
    require_lease task_id lease_id runner_id
    store.save_logs task_id lease_id entries

  -- `if (completed.callbackUrl)`: a missing and an empty text are skipped.
  pub record_delivery :
      Instant → String → TaskRecord → CompleteTaskInput → Option String → Action S (Unit {0})
  record_delivery later uuid task input none = pure tt
  record_delivery later uuid task input (some url) =
      if is_empty url
      then pure tt
      else store.save_webhook_delivery
          (webhook_delivery platform options later uuid url (webhook_payload task input))

  -- `later` is the second call of the clock, for the delivery.
  unfoldable pub complete_task :
      Instant
      → Instant
      → String
      → String
      → Option String
      → String
      → String
      → CompleteTaskInput
      → Action S TaskRecord
  unfolding update_task record_delivery
  complete_task now later uuid task_id lease_id runner_id credential input = do
    authenticate_runner runner_id credential
    task ← require_lease task_id lease_id runner_id
    completed ← update_task (completed_task now input task)
    record_delivery later uuid completed input completed.callback_url
    pure completed

  unfoldable pub list_runners : Instant → RunnerListQuery → Action S (Page RunnerView)
  unfolding normalize_limit
  list_runners now query = do
    limit ← lift (normalize_limit query.limit)
    store.list_runner_views
        (record { status = query.status; limit = limit; cursor = query.cursor; now = now })

  abbrev recent : String → TaskStoreListQuery
  recent runner_id = record {
    runner_id = some runner_id;
    status = none;
    type = none;
    limit = 20;
    cursor = none;
  }

  pub with_recent_tasks : RunnerView → String → Action S (Option RunnerDetail)
  with_recent_tasks view runner_id = do
    page ← store.list_tasks (recent runner_id)
    pure (some (record { view = view; recent_tasks = page.items }))

  unfoldable pub get_runner_view : Instant → String → Action S (Option RunnerDetail)
  unfolding with_recent_tasks
  get_runner_view now runner_id = do
    view ← store.get_runner_view runner_id now
    elim view [ none ↦ pure none | some found ↦ with_recent_tasks found runner_id ]

  unfoldable pub list_tasks : TaskListQuery → Action S (Page TaskRecord)
  unfolding normalize_limit
  list_tasks query = do
    limit ← lift (normalize_limit query.limit)
    store.list_tasks (record {
      runner_id = query.runner_id;
      status = query.status;
      type = query.type;
      limit = limit;
      cursor = query.cursor;
    })

  unfoldable pub get_task_for_admin : String → Action S (Option TaskRecord)
  get_task_for_admin task_id = store.get_task task_id

  pub logs_of : String → Action S (Option TaskLogResult)
  logs_of task_id = do logs ← store.get_task_logs task_id; pure (some logs)

  unfoldable pub get_task_logs : String → Action S (Option TaskLogResult)
  unfolding logs_of
  get_task_logs task_id = do
    task ← store.get_task task_id
    elim task [ none ↦ pure none | some found ↦ logs_of task_id ]
