-- ===== src/Service/Steps.antt =====
-- Each operation of the service over the in-memory store is a sequence of changes.
use Prim.Native.String.{◌++◌}
use task_hub.Shared.{
  ◌≡◌, ◌∙◌, ap, refl, inl, inr, Option, none, some, String, In, filter, filter-In, head?, arith,
  eq_iff, Bool-cases, Option-cases,
}
use task_hub.Shared.Dict.{lookup, values, lookup_of_In, Keyed-lookup}
use task_hub.Types.{Instant, RunnerRecord, TaskRecord, Result-cases}
use task_hub.Types.Json.{Value}
use task_hub.Types.Names.{includes_type}
use task_hub.Platform.{Platform}
use task_hub.InMemory.{
  InMemory, has_key, touched, claim_candidates, put_runner, get_runner, find_claimable_task,
}
use task_hub.InMemory.Listing.{in_memory}
use task_hub.InMemory.Claimable.{IsWaiting, find_claimable_task_best, head-eq-none}
use task_hub.Service.{register_runner, submit_checked, submit_task, process_queued_task, claim_task}
use task_hub.Service.Submit.{Submission, validate_submission}
use task_hub.Service.Register.{validate_registration}
use task_hub.Service.Records.{ServiceOptions, queued_task, dispatched, leased_task}
use task_hub.Service.Runs.{
  with_new_task, with_heartbeat, submit_checked-unkeyed, submit_checked-new, submit_checked-old,
  process-missing, process-found, authentication-cases,
}
use task_hub.Service.Claiming.{claim-refused, claim-nothing, claim-granted}
use task_hub.Service.Changes.{
  SameSubmission, HasLease, KeyIsFree, task_id_of, runner_id_of, Change, puts_runner, adds_task,
  updates_task, Changes, unchanged, then_change, IsKeyed,
}

-- No task of the store has the key that a search did not find.
free_key :
    (key : String) (s : InMemory)
    → head? (filter (has_key key) (values s.tasks)) ≡ none
    → KeyIsFree (some key) s
free_key key s e other k i p q =
    let listed : In other (filter (has_key key) (values s.tasks)) =
      filter-In (has_key key) other (values s.tasks) i (ground (arith, eq_iff k key)) in
    rw (head-eq-none (filter (has_key key) (values s.tasks)) e) at listed

pub under_own_key :
    (id : String) (task : TaskRecord) (s : InMemory)
    → IsKeyed s
    → lookup id s.tasks ≡ some task
    → lookup task.task_id s.tasks ≡ some task
under_own_key id task s h e =
    ap (λ k. lookup k s.tasks) (Keyed-lookup task_id_of id task s.tasks h.tasks e) ∙ e

-- A task that may be claimed stands in the store under its own id.
pub candidate-waits :
    (runner_id : String) (now : Instant) (s : InMemory) (task : TaskRecord)
    → head? (claim_candidates runner_id now s) ≡ some task
    → IsWaiting runner_id now task
unfolding find_claimable_task
candidate-waits runner_id now s task e =
    (find_claimable_task_best runner_id now s task (rw e refl)).1

pub candidate-found :
    (runner_id : String) (now : Instant) (s : InMemory) (task : TaskRecord)
    → IsKeyed s
    → head? (claim_candidates runner_id now s) ≡ some task
    → lookup task.task_id s.tasks ≡ some task
unfolding find_claimable_task
candidate-found runner_id now s task h e =
    lookup_of_In task_id_of task s.tasks h.tasks
      (find_claimable_task_best runner_id now s task (rw e refl)).0

module _ (platform : Platform) (options : ServiceOptions) where
  add_queued :
      (now : Instant) (uuid : String) (submission : Submission) (s : InMemory)
      → lookup ("task_" ++ uuid) s.tasks ≡ none
      → KeyIsFree submission.idempotency_key s
      → Changes s (with_new_task (queued_task now uuid submission) s)
  add_queued now uuid submission s fresh free =
      then_change unchanged (adds_task (queued_task now uuid submission) fresh refl free refl)

  submit_checked-Changes :
      (now : Instant) (uuid : String) (submission : Submission) (s : InMemory)
      → lookup ("task_" ++ uuid) s.tasks ≡ none
      → Changes s (submit_checked (in_memory platform) platform options now uuid submission s).1
  submit_checked-Changes now uuid submission s fresh =
      elim (Option-cases submission.idempotency_key) [
        | inl e ↦
            rw (submit_checked-unkeyed platform options s now uuid submission e)
              (add_queued now uuid submission s fresh (rw e (λ other k i p q. cc)))
        | inr (key, e) ↦ elim (Option-cases (head? (filter (has_key key) (values s.tasks)))) [
          | inl f ↦
              rw (submit_checked-new platform options s now uuid submission e f)
                (add_queued now uuid submission s fresh (rw e (free_key key s f)))
          | inr (task, f) ↦
              rw (submit_checked-old platform options s now uuid submission e f) unchanged
        ]
      ]

  pub submit_task-Changes :
      (now : Instant) (uuid : String) (input : Value) (s : InMemory)
      → lookup ("task_" ++ uuid) s.tasks ≡ none
      → Changes s (submit_task (in_memory platform) platform options now uuid input s).1
  unfolding submit_task
  submit_task-Changes now uuid input s fresh =
      elim (Result-cases (validate_submission platform input)) [
        | inl (submission, e) ↦ rw e (submit_checked-Changes now uuid submission s fresh)
        | inr (error, e) ↦ rw e unchanged
      ]

  pub register_runner-Changes :
      (now : Instant) (uuid : String) (input : Value) (s : InMemory)
      → Changes s (register_runner (in_memory platform) platform options now uuid input s).1
  unfolding register_runner get_runner put_runner
  register_runner-Changes now uuid input s = elim (Result-cases (validate_registration input)) [
    | inl (registration, e) ↦ rw e (then_change unchanged (puts_runner _ refl))
    | inr (error, e) ↦ rw e unchanged
  ]

  dispatched-SameSubmission :
      (now : Instant) (runner : Option RunnerRecord) (task : TaskRecord)
      → SameSubmission task (dispatched now runner task)
  dispatched-SameSubmission now runner task = ground arith

  dispatched-HasLease :
      (now : Instant) (runner : Option RunnerRecord) (task : TaskRecord)
      → HasLease (dispatched now runner task)
  dispatched-HasLease now none task h = absurd (cc)
  dispatched-HasLease now (some runner) task h =
      elim (Bool-cases (includes_type runner.task_types task.type)) [
        | inl e ↦ cc (rw e at h)
        | inr e ↦ cc (rw e at h)
      ]

  pub process_queued_task-Changes :
      (now : Instant) (task_id : String) (s : InMemory)
      → IsKeyed s
      → Changes s (process_queued_task (in_memory platform) platform options now task_id s).1
  process_queued_task-Changes now task_id s h = elim (Option-cases (lookup task_id s.tasks)) [
    | inl e ↦ rw (process-missing platform options s now task_id e) unchanged
    | inr (task, e) ↦
        let runner = lookup task.runner_id s.runners in
        rw (process-found platform options s now task_id e) (
          then_change unchanged (
            updates_task task (dispatched now runner task) (under_own_key task_id task s h e)
              (dispatched-SameSubmission now runner task) (dispatched-HasLease now runner task)
              refl))
  ]

  pub put_heartbeat :
      (now : Instant) (runner_id : String) (runner : RunnerRecord) (s : InMemory)
      → IsKeyed s
      → lookup runner_id s.runners ≡ some runner
      → Change s (with_heartbeat now runner_id runner s)
  put_heartbeat now runner_id runner s h e =
      puts_runner (touched now runner)
        (rw (Keyed-lookup runner_id_of runner_id runner s.runners h.runners e) refl)

  pub claim_task-Changes :
      (now : Instant) (uuid runner_id credential : String) (s : InMemory)
      → IsKeyed s
      → Changes s
          (claim_task (in_memory platform) platform options now uuid runner_id credential s).1
  claim_task-Changes now uuid runner_id credential s h =
      elim (authentication-cases platform s runner_id credential) [
        | inl refused ↦
            rw (claim-refused platform options s now uuid runner_id credential refused) unchanged
        | inr (runner, known, fits) ↦
            elim (Option-cases (head? (claim_candidates runner_id now s))) [
              | inl e ↦
                  rw
                    (claim-nothing platform options s now uuid runner_id credential (known, fits) e)
                    (then_change unchanged (put_heartbeat now runner_id runner s h known))
              | inr (task, e) ↦
                  rw
                    (claim-granted platform options s now uuid runner_id credential (known, fits) e)
                    (then_change
                      (then_change unchanged (put_heartbeat now runner_id runner s h known))
                      (updates_task task (leased_task options now uuid task)
                        (candidate-found runner_id now s task h e) (ground arith)
                        (λ p. ("lease_" ++ uuid, refl)) refl))
            ]
      ]
