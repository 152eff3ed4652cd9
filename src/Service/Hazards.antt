-- ===== src/Service/Hazards.antt =====
-- What the checks of the service leave open, and what they rule out.
use Prim.Native.String.{◌++◌}
use mathlib.Core.Path.{subst}
use task_hub.Shared.{◌≡◌, ◌≢◌, ◌∙◌, sym, ap, false, Option, none, some, List, String, arith, eq_iff}
use task_hub.Shared.Dict.{lookup, lookup_of_In, Keyed-lookup}
use task_hub.Types.{
  Instant, running, RunnerRecord, TaskRecord, ClaimResponse, CompleteTaskInput, LogEntry, ok, err,
  validation,
}
use task_hub.Platform.{Platform}
use task_hub.InMemory.{InMemory, find_claimable_task}
use task_hub.InMemory.Listing.{in_memory}
use task_hub.InMemory.Claimable.{IsWaiting, pending, timed_out, find_claimable_task_best}
use task_hub.Service.{claim_task, heartbeat, append_logs, complete_task}
use task_hub.Service.Records.{ServiceOptions, holds_lease, leased_task, running_task}
use task_hub.Service.Runs.{IsAccepted, with_task, with_heartbeat}
use task_hub.Service.Leases.{HoldsLease, wrong_lease, lease_calls-Refused, heartbeat-held}
use task_hub.Service.Outcome.{IsBeat, Completes, running_task-IsBeat, complete_task-Completes}
use task_hub.Service.Changes.{IsKeyed, task_id_of}
use task_hub.Service.Exclusive.{claim-Granted, Granted-task}

-- A running task is never found for a claim, whatever time has passed since its lease ran out.
pub running_task-not_claimable :
    (s : InMemory) (runner_id : String) (now : Instant) (task found : TaskRecord)
    → IsKeyed s
    → lookup task.task_id s.tasks ≡ some task
    → task.status ≡ running
    → (find_claimable_task runner_id now s).0 ≡ ok (some found)
    → found.task_id ≢ task.task_id
running_task-not_claimable s runner_id now task found keyed there is_running e same =
    let (stored, waits, best) = find_claimable_task_best runner_id now s found e in
    let again : found ≡ task =
      cc (lookup_of_In task_id_of found s.tasks keyed.tasks stored, same) in
    not_waiting waits again
  where
    not_waiting : IsWaiting runner_id now found → ¬ (found ≡ task)
    not_waiting (pending e f) again = cc (ap (λ (t : TaskRecord). t.status) again)
    not_waiting (timed_out at e f g h) again = cc (ap (λ (t : TaskRecord). t.status) again)

module _ (platform : Platform) (options : ServiceOptions) where
  other_lease :
      (lease_id : Option String) (runner_id : String) (now : Instant) (uuid : String)
      (task : TaskRecord)
      → lease_id ≢ some ("lease_" ++ uuid)
      → holds_lease lease_id runner_id (leased_task options now uuid task) ≡ false
  other_lease none runner_id now uuid task other = ground (arith, eq_iff task.runner_id runner_id)
  other_lease (some given) runner_id now uuid task other =
      ground (arith, eq_iff task.runner_id runner_id, eq_iff ("lease_" ++ uuid) given)

  -- After a claim every other lease of the task is dead: a heartbeat, a log upload or a completion
  -- under it, by any runner with a good credential, is answered "invalid task lease" and writes
  -- nothing.
  pub stale_lease-refused :
      (s s' : InMemory) (now now' later : Instant) (uuid uuid' claimant secret : String)
      (response : ClaimResponse) (lease_id : Option String) (runner_id credential : String)
      (runner : RunnerRecord) (entries : List LogEntry) (input : CompleteTaskInput)
      → claim_task (in_memory platform) platform options now uuid claimant secret s
        ≡ (ok (some response), s')
      → lease_id ≢ some response.lease_id
      → IsAccepted platform s' runner_id credential runner
      → (heartbeat
            (in_memory platform)
            platform
            options
            now'
            response.task_id
            lease_id
            runner_id
            credential
            s'
          ≡ (err (validation "invalid task lease"), s'))
        × (append_logs
              (in_memory platform)
              platform
              options
              response.task_id
              lease_id
              runner_id
              credential
              entries
              s'
            ≡ (err (validation "invalid task lease"), s'))
        × (complete_task
              (in_memory platform)
              platform
              options
              now'
              later
              uuid'
              response.task_id
              lease_id
              runner_id
              credential
              input
              s'
            ≡ (err (validation "invalid task lease"), s'))
  stale_lease-refused s s' now now' later uuid uuid' claimant secret response lease_id runner_id
        credential runner entries input e other accepted =
      let g = claim-Granted platform options s s' now uuid claimant secret response e in
      let here : lookup response.task_id s'.tasks ≡ some (leased_task options now uuid g.task) =
        ap (λ (r : ClaimResponse). lookup r.task_id s'.tasks) g.response_eq
        ∙ Granted-task platform options g in
      let differs : lease_id ≢ some ("lease_" ++ uuid) =
        λ same. other (same ∙ sym (ap (λ (r : ClaimResponse). some r.lease_id) g.response_eq)) in
      lease_calls-Refused platform options s' response.task_id lease_id runner_id credential now'
        later uuid' entries input (validation "invalid task lease")
        (wrong_lease runner accepted (leased_task options now uuid g.task) here
          (other_lease lease_id runner_id now uuid g.task differs))

  module _ (s : InMemory) (task_id : String) (lease_id : Option String)
      (runner_id credential : String) where
    -- The holder of a lease holds it after its completion too.
    completed-HoldsLease :
        (now later : Instant) (uuid : String) (input : CompleteTaskInput) {runner : RunnerRecord}
        {task done : TaskRecord} {t : InMemory}
        → IsKeyed s
        → HoldsLease platform s task_id lease_id runner_id credential runner task
        → Completes platform options now later uuid input task done s t
        → HoldsLease platform t task_id lease_id runner_id credential runner done
    completed-HoldsLease now later uuid input {runner} {task} {done} {t} keyed h c =
        let own : task.task_id ≡ task_id =
          Keyed-lookup task_id_of task_id task s.tasks keyed.tasks h.found in
        record {
          accepted = (ap (lookup runner_id) c.runners ∙ h.accepted.0, h.accepted.1);
          found =
              subst (λ k. lookup k t.tasks ≡ some done) (c.done.submission.task_id ∙ own)
                c.stores.stored;
          held = rw (holds_lease, c.done.submission.runner_id, c.done.lease_id) h.held;
        }

    -- A completion is not final: the runner that completed a task, with whatever status, can still
    -- send a heartbeat under the same lease. It succeeds, the stored task has the status "running"
    -- again, the end of a lease and still the outcome of the completion, and no other task changes.
    pub completion_not_final :
        (now later now' : Instant) (uuid : String) (input : CompleteTaskInput)
        (runner : RunnerRecord) (task : TaskRecord)
        → IsKeyed s
        → HoldsLease platform s task_id lease_id runner_id credential runner task
        → (done again : TaskRecord) × (t u : InMemory) × (complete_task
              (in_memory platform)
              platform
              options
              now
              later
              uuid
              task_id
              lease_id
              runner_id
              credential
              input
              s
            ≡ (ok done, t))
          × Completes platform options now later uuid input task done s t
          × (heartbeat
                (in_memory platform)
                platform
                options
                now'
                task_id
                lease_id
                runner_id
                credential
                t
              ≡ (ok again, u))
          × IsBeat options now' runner_id done again t u
    completion_not_final now later now' uuid input runner task keyed h =
        let (done, t, ends, completes) =
          complete_task-Completes platform options s task_id lease_id runner_id credential now later
            uuid input runner task h in
        let again = running_task options now' done in
        (
          done,
          again,
          t,
          with_task again (with_heartbeat now' runner_id runner t),
          ends,
          completes,
          heartbeat-held platform options t task_id lease_id runner_id credential
              (completed-HoldsLease now later uuid input keyed h completes) now',
          running_task-IsBeat options now' runner_id runner done t,
        )
