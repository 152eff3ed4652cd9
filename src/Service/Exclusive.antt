-- ===== src/Service/Exclusive.antt =====
-- A lease is held by one claim at a time.
use mathlib.Core.Path.{subst}
use task_hub.Shared.{◌<◌, ◌≡◌, ◌≢◌, refl, ap, inl, inr, some, String, arith, head?, Option-cases}
use task_hub.Shared.Dict.{lookup, lookup-insert_self, Keyed-lookup, insert-Keyed}
use task_hub.Types.{Instant, RunnerRecord, TaskRecord, ClaimResponse, ok}
use task_hub.Platform.{Platform}
use task_hub.InMemory.{InMemory, touched, claim_candidates}
use task_hub.InMemory.Listing.{in_memory}
use task_hub.InMemory.Claimable.{IsWaiting, pending, timed_out}
use task_hub.Service.{claim_task}
use task_hub.Service.Records.{ServiceOptions, leased_task, claim_response, lease_end}
use task_hub.Service.Runs.{with_task, with_heartbeat, authentication-cases, IsAccepted}
use task_hub.Service.Claiming.{claim-refused, claim-nothing, claim-granted}
use task_hub.Service.Changes.{IsKeyed, task_id_of, runner_id_of}
use task_hub.Service.Steps.{candidate-found, candidate-waits}

-- What a claim that grants a lease has done: the caller is the registered runner, and the task was
-- the first of those that waited for it.
pub record Granted (platform : Platform) (options : ServiceOptions) (s : InMemory) (now : Instant)
    (uuid runner_id credential : String) (response : ClaimResponse) (s' : InMemory) : Type 0 where
  pub runner : RunnerRecord
  pub task : TaskRecord
  pub accepted : IsAccepted platform s runner_id credential runner
  pub first : head? (claim_candidates runner_id now s) ≡ some task
  pub response_eq : response ≡ claim_response options now uuid task
  pub store_eq :
      s' ≡ with_task (leased_task options now uuid task) (with_heartbeat now runner_id runner s)

module _ (platform : Platform) (options : ServiceOptions) where
  -- A claim that returns a lease was granted so.
  pub claim-Granted :
      (s s' : InMemory) (now : Instant) (uuid runner_id credential : String)
      (response : ClaimResponse)
      → claim_task (in_memory platform) platform options now uuid runner_id credential s
        ≡ (ok (some response), s')
      → Granted platform options s now uuid runner_id credential response s'
  claim-Granted s s' now uuid runner_id credential response e =
      elim (authentication-cases platform s runner_id credential) [
        | inl refused ↦ cc (claim-refused platform options s now uuid runner_id credential refused)
        | inr (runner, known, fits) ↦
            elim (Option-cases (head? (claim_candidates runner_id now s))) [
              | inl f ↦
                  cc
                    (claim-nothing platform options s now uuid runner_id credential (known, fits) f)
              | inr (task, f) ↦
                  let granted =
                    claim-granted platform options s now uuid runner_id credential (known, fits)
                      f in
                  record {
                    runner = runner;
                    task = task;
                    accepted = (known, fits);
                    first = f;
                    response_eq = ground (arith, granted);
                    store_eq = ground (arith, granted);
                  }
            ]
      ]

  Granted-IsKeyed :
      {s s' : InMemory} {now : Instant} {uuid runner_id credential : String}
      {response : ClaimResponse}
      → IsKeyed s
      → Granted platform options s now uuid runner_id credential response s'
      → IsKeyed s'
  Granted-IsKeyed {s} {now} {uuid} {runner_id} h g =
      let same : g.runner.runner_id ≡ runner_id =
        Keyed-lookup runner_id_of runner_id g.runner s.runners h.runners g.accepted.0 in
      rw g.store_eq (record {
        runners =
            insert-Keyed runner_id_of runner_id (touched now g.runner) s.runners h.runners same;
        tasks =
            insert-Keyed task_id_of g.task.task_id (leased_task options now uuid g.task) s.tasks
              h.tasks refl;
      })

  pub Granted-task :
      {s s' : InMemory} {now : Instant} {uuid runner_id credential : String}
      {response : ClaimResponse}
      (g : Granted platform options s now uuid runner_id credential response s')
      → lookup g.task.task_id s'.tasks ≡ some (leased_task options now uuid g.task)
  Granted-task {s} {now} {uuid} g =
      rw g.store_eq
        (lookup-insert_self g.task.task_id (leased_task options now uuid g.task) s.tasks)

  -- A task under a lease that runs on waits for nobody.
  leased-waits_not :
      (runner_id : String) (now now' : Instant) (uuid : String) (task : TaskRecord)
      → now' < lease_end options now
      → ¬ IsWaiting runner_id now' (leased_task options now uuid task)
  leased-waits_not runner_id now now' uuid task early (pending e f) = cc
  leased-waits_not runner_id now now' uuid task early (timed_out at e f g h) = ground arith

  -- Until its lease runs out no other claim is given the task: two claims in a row that both return
  -- a lease, the second before the first lease ends, return different tasks.
  pub claim_exclusive :
      (s s₁ s₂ : InMemory) (now now' : Instant)
      (uuid uuid' runner_id runner_id' credential credential' : String)
      (first second : ClaimResponse)
      → IsKeyed s
      → claim_task (in_memory platform) platform options now uuid runner_id credential s
        ≡ (ok (some first), s₁)
      → claim_task (in_memory platform) platform options now' uuid' runner_id' credential' s₁
        ≡ (ok (some second), s₂)
      → now' < first.lease_expires_at
      → second.task_id ≢ first.task_id
  claim_exclusive s s₁ s₂ now now' uuid uuid' runner_id runner_id' credential credential' first
        second keyed e f early same =
      let g = claim-Granted s s₁ now uuid runner_id credential first e in
      let g' = claim-Granted s₁ s₂ now' uuid' runner_id' credential' second f in
      let here : g'.task.task_id ≡ g.task.task_id = cc (
        ap (λ (r : ClaimResponse). r.task_id) g.response_eq,
        ap (λ (r : ClaimResponse). r.task_id) g'.response_eq,
      ) in
      let found : lookup g'.task.task_id s₁.tasks ≡ some g'.task =
        candidate-found runner_id' now' s₁ g'.task (Granted-IsKeyed keyed g) g'.first in
      let is_leased : g'.task ≡ leased_task options now uuid g.task =
        cc (ap (λ (k : String). lookup k s₁.tasks) here, Granted-task g) in
      let early' : now' < lease_end options now =
        subst (λ (r : ClaimResponse). now' < r.lease_expires_at) g.response_eq early in
      leased-waits_not runner_id' now now' uuid g.task early' (
        subst (IsWaiting runner_id' now') is_leased
          (candidate-waits runner_id' now' s₁ g'.task g'.first))
