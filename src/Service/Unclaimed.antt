-- ===== src/Service/Unclaimed.antt =====
-- A heartbeat that names no lease (`requireLease` of `src/worker/task-service.ts`), for a task that
-- nobody has claimed.
use task_hub.Shared.{◌≡◌, true, none, some, String, arith, ==-refl}
use task_hub.Shared.Dict.{lookup}
use task_hub.Types.{Instant, RunnerRecord, TaskRecord, ok}
use task_hub.Platform.{Platform}
use task_hub.InMemory.{InMemory}
use task_hub.InMemory.Listing.{in_memory}
use task_hub.Service.{heartbeat}
use task_hub.Service.Records.{ServiceOptions, running_task, holds_lease}
use task_hub.Service.Runs.{IsAccepted, with_task, with_heartbeat}
use task_hub.Service.Leases.{heartbeat-held}
use task_hub.Service.Outcome.{IsBeat, running_task-IsBeat}

module _ (platform : Platform) (options : ServiceOptions) (s : InMemory)
    (task_id runner_id credential : String) where
  unleased :
      (task : TaskRecord)
      → task.runner_id ≡ runner_id
      → task.lease_id ≡ none
      → holds_lease none runner_id task ≡ true
  unleased task owned free = rw (holds_lease, owned, free, ==-refl runner_id) (ground arith)

  -- The runner of a task that was never claimed can send a heartbeat that names no lease. It
  -- succeeds, and the task that is stored then has the status "running" and the end of a lease, though
  -- it has no lease id and no claim was made for it. The runner was active, and nothing else changes.
  pub heartbeat_unclaimed :
      (now : Instant) (runner : RunnerRecord) (task : TaskRecord)
      → IsAccepted platform s runner_id credential runner
      → lookup task_id s.tasks ≡ some task
      → task.runner_id ≡ runner_id
      → task.lease_id ≡ none
      → (new : TaskRecord) × (t : InMemory) × (heartbeat
            (in_memory platform)
            platform
            options
            now
            task_id
            none
            runner_id
            credential
            s
          ≡ (ok new, t))
        × IsBeat options now runner_id task new s t
        × (new.lease_id ≡ none)
  heartbeat_unclaimed now runner task known found owned free =
      let new = running_task options now task in
      (
        new,
        with_task new (with_heartbeat now runner_id runner s),
        heartbeat-held platform options s task_id none runner_id credential
            (record { accepted = known; found = found; held = unleased task owned free }) now,
        running_task-IsBeat options now runner_id runner task s,
        free,
      )
