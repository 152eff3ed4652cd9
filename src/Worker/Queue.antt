-- ===== src/Worker/Queue.antt =====
-- The consumer of the queue of submissions (`queue` of `src/worker/index.ts`).
pub mod Batches
use task_hub.Shared.{ℕ, List, [], ◌∷◌, String}
use task_hub.Types.{Instant, TaskStatus, TaskRecord, pending_runner, Result, ok, err}
use task_hub.Platform.{Platform}
use task_hub.Action.{Action, pure, ◌>>=◌, ◌>>◌}
use task_hub.Store.{TaskStore}
use task_hub.Service.{process_queued_task}
use task_hub.Service.Records.{default_options}
use task_hub.Worker.Link.{World, HubLink, on_store, best_effort, notify_stub, broadcast_best_effort}

-- A message of a batch: the task that it names, and what the clock gives when it is handled.
pub record Message : Type 0 where
  pub task_id : String
  pub now : Instant

module _ {S : Type 0} (store : TaskStore S) (platform : Platform) (link : HubLink)
    (socket_id : ℕ) where
  -- The runner of a task that waits for it is told, if the hub can be reached.
  abbrev pub notify_pending : TaskStatus → TaskRecord → Action (World S) (Unit {0})
  notify_pending pending_runner task =
      best_effort (notify_stub platform link socket_id task.runner_id task.task_id)
  notify_pending _ task = pure tt

  unfoldable pub handle_message : Message → Action (World S) (Unit {0})
  unfolding process_queued_task
  handle_message message = do
    task ← on_store (process_queued_task store platform default_options message.now message.task_id)
    notify_pending task.status task
    broadcast_best_effort platform link socket_id task

  -- The messages that were acknowledged, in order. The batch ends at an error, which `queue` throws.
  unfoldable pub queue : List Message → World S → (List Message × Result (Unit {0})) × World S
  unfolding handle_message
  queue [] w = (([], ok tt), w)
  queue (message ∷ messages) w =
      let (r, w') = handle_message message w in
      let ((acked, end), w'') = queue messages w' in
      elim r [ ok u ↦ ((message ∷ acked, end), w'') | err e ↦ (([], err e), w') ]
