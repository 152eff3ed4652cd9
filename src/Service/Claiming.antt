-- ===== src/Service/Claiming.antt =====
-- `claimTask` over the in-memory store: what it answers and the store that it leaves, by branch.
use task_hub.Shared.{◌≡◌, refl, none, some, String, head?, arith}
use task_hub.Types.{Instant, RunnerRecord, TaskRecord, ok, err, authentication}
use task_hub.Platform.{Platform}
use task_hub.InMemory.{
  InMemory, claim_candidates, touch_runner_heartbeat, put_task, find_claimable_task,
}
use task_hub.InMemory.Listing.{in_memory}
use task_hub.InMemory.Claimable.{claim_candidates_of_tasks}
use task_hub.Service.{claim_task}
use task_hub.Service.Records.{ServiceOptions, leased_task, claim_response}
use task_hub.Service.Runs.{
  with_task, with_heartbeat, IsRefused, IsAccepted, authenticate-known, authenticate-refused,
}

module _ (platform : Platform) (options : ServiceOptions) (s : InMemory) where
  module _ (now : Instant) (uuid runner_id credential : String) where
    pub claim-refused :
        IsRefused platform s runner_id credential
        → claim_task (in_memory platform) platform options now uuid runner_id credential s
          ≡ (err (authentication "invalid runner credential"), s)
    unfolding claim_task
    claim-refused h = ground (arith, authenticate-refused platform options s runner_id credential h)

    pub claim-nothing :
        {runner : RunnerRecord}
        → IsAccepted platform s runner_id credential runner
        → head? (claim_candidates runner_id now s) ≡ none
        → claim_task (in_memory platform) platform options now uuid runner_id credential s
          ≡ (ok none, with_heartbeat now runner_id runner s)
    unfolding claim_task touch_runner_heartbeat find_claimable_task
    claim-nothing {runner} h e = ground (
      arith,
      authenticate-known platform options s runner_id credential h,
      claim_candidates_of_tasks runner_id now (with_heartbeat now runner_id runner s) s refl,
    )

    -- An accepted claim of a runner for whom some task waits is answered with the lease of the
    -- first one. Then the task is leased, the runner's heartbeat is now, and nothing else of the
    -- store has changed.
    pub claim-granted :
        {runner : RunnerRecord} {task : TaskRecord}
        → IsAccepted platform s runner_id credential runner
        → head? (claim_candidates runner_id now s) ≡ some task
        → claim_task (in_memory platform) platform options now uuid runner_id credential s ≡ (
          ok (some (claim_response options now uuid task)),
          with_task (leased_task options now uuid task) (with_heartbeat now runner_id runner s),
        )
    unfolding claim_task touch_runner_heartbeat find_claimable_task put_task
    claim-granted {runner} h e = ground (
      arith,
      authenticate-known platform options s runner_id credential h,
      claim_candidates_of_tasks runner_id now (with_heartbeat now runner_id runner s) s refl,
    )
