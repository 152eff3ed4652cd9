-- ===== src/Store.antt =====
-- The interface TaskStore of types.ts, over a state of type `S`.
use task_hub.Shared.{Option, List, String}
use task_hub.Types.{
  Instant, RunnerRecord, RunnerView, TaskRecord, RunnerStoreListQuery, TaskStoreListQuery, Page,
  LogEntry, TaskLogResult, WebhookDelivery,
}
use task_hub.Action.{Action}

pub record TaskStore (S : Type 0) : Type 0 where
  pub put_runner : RunnerRecord → Action S (Unit {0})
  pub get_runner : String → Action S (Option RunnerRecord)
  pub get_runner_view : String → Instant → Action S (Option RunnerView)
  pub list_runner_views : RunnerStoreListQuery → Action S (Page RunnerView)
  pub touch_runner_heartbeat : String → Instant → Action S (Unit {0})
  pub put_task : TaskRecord → Action S (Unit {0})
  pub get_task : String → Action S (Option TaskRecord)
  pub find_task_by_idempotency_key : String → Action S (Option TaskRecord)
  pub enqueue_task : String → Action S (Unit {0})
  pub find_claimable_task : String → Instant → Action S (Option TaskRecord)
  pub list_tasks : TaskStoreListQuery → Action S (Page TaskRecord)
  pub find_current_task : String → Action S (Option TaskRecord)
  pub save_logs : String → Option String → List LogEntry → Action S (Unit {0})
  pub get_task_logs : String → Action S TaskLogResult
  pub save_webhook_delivery : WebhookDelivery → Action S (Unit {0})
