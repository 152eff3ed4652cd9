-- ===== src/Service/Runs.antt =====
-- What each operation of the service answers over the in-memory store, and the store that it
-- leaves, by the branch that it takes.
use Prim.Native.String.{◌++◌}
use mathlib.Core.List.{◌++◌ as append}
use task_hub.Shared.{
  ◌≡◌, ◌⊎◌, inl, inr, Option-cases, Bool-cases, true, false, Option, none, some, [], ◌∷◌, String,
  filter, head?, arith,
}
use task_hub.Shared.Dict.{lookup, insert, values}
use task_hub.Types.{
  Instant, RunnerRecord, TaskRecord, ok, err, authentication, not_found, validation,
}
use task_hub.Platform.{Platform}
use task_hub.Security.{verify_runner_credential}
use task_hub.InMemory.{
  InMemory, has_key, touched, get_runner, put_task, get_task, find_task_by_idempotency_key,
  enqueue_task,
}
use task_hub.InMemory.Listing.{in_memory}
use task_hub.Service.{submit_checked, process_queued_task, authenticate_runner, require_lease}
use task_hub.Service.Submit.{Submission}
use task_hub.Service.Records.{ServiceOptions, queued_task, dispatched, holds_lease}

abbrev pub with_heartbeat : Instant → String → RunnerRecord → InMemory → InMemory
with_heartbeat now runner_id runner s = record s {
  runners = insert runner_id (touched now runner) s.runners;
}

abbrev pub with_task : TaskRecord → InMemory → InMemory
with_task task s = record s { tasks = insert task.task_id task s.tasks }

abbrev pub with_new_task : TaskRecord → InMemory → InMemory
with_new_task task s = record s {
  tasks = insert task.task_id task s.tasks;
  enqueued_task_ids = append s.enqueued_task_ids (task.task_id ∷ []);
}

module _ (platform : Platform) (s : InMemory) where
  -- The runner is not there, or its credential does not fit.
  abbrev pub IsRefused : String → String → Type 0
  IsRefused runner_id credential =
      (lookup runner_id s.runners ≡ none)
      ⊎ ((runner : RunnerRecord) × (lookup runner_id s.runners ≡ some runner)
          × (verify_runner_credential platform credential runner.credential_hash ≡ false))

  abbrev pub IsAccepted : String → String → RunnerRecord → Type 0
  IsAccepted runner_id credential runner =
      (lookup runner_id s.runners ≡ some runner)
      × (verify_runner_credential platform credential runner.credential_hash ≡ true)

  pub authentication-cases :
      (runner_id credential : String)
      → IsRefused runner_id credential
        ⊎ ((runner : RunnerRecord) × (lookup runner_id s.runners ≡ some runner)
            × (verify_runner_credential platform credential runner.credential_hash ≡ true))
  authentication-cases runner_id credential = elim (Option-cases (lookup runner_id s.runners)) [
    | inl e ↦ inl (inl e)
    | inr (runner, e) ↦
        elim (Bool-cases (verify_runner_credential platform credential runner.credential_hash)) [
          | inl f ↦ inr (runner, e, f)
          | inr f ↦ inl (inr (runner, e, f))
        ]
  ]

module _ (platform : Platform) (options : ServiceOptions) (s : InMemory) where
  pub submit_checked-old :
      (now : Instant) (uuid : String) (submission : Submission) {key : String} {task : TaskRecord}
      → submission.idempotency_key ≡ some key
      → head? (filter (has_key key) (values s.tasks)) ≡ some task
      → submit_checked (in_memory platform) platform options now uuid submission s ≡ (ok task, s)
  unfolding submit_checked find_task_by_idempotency_key
  submit_checked-old now uuid submission e f = ground arith

  pub submit_checked-unkeyed :
      (now : Instant) (uuid : String) (submission : Submission)
      → submission.idempotency_key ≡ none
      → submit_checked (in_memory platform) platform options now uuid submission s
        ≡ (ok (queued_task now uuid submission), with_new_task (queued_task now uuid submission) s)
  unfolding submit_checked put_task enqueue_task
  submit_checked-unkeyed now uuid submission e = ground arith

  pub submit_checked-new :
      (now : Instant) (uuid : String) (submission : Submission) {key : String}
      → submission.idempotency_key ≡ some key
      → head? (filter (has_key key) (values s.tasks)) ≡ none
      → submit_checked (in_memory platform) platform options now uuid submission s
        ≡ (ok (queued_task now uuid submission), with_new_task (queued_task now uuid submission) s)
  unfolding submit_checked find_task_by_idempotency_key put_task enqueue_task
  submit_checked-new now uuid submission e f = ground arith

  pub process-missing :
      (now : Instant) (task_id : String)
      → lookup task_id s.tasks ≡ none
      → process_queued_task (in_memory platform) platform options now task_id s
        ≡ (err (not_found ("task " ++ task_id ++ " not found")), s)
  unfolding process_queued_task get_task
  process-missing now task_id e = ground arith

  pub process-found :
      (now : Instant) (task_id : String) {task : TaskRecord}
      → lookup task_id s.tasks ≡ some task
      → process_queued_task (in_memory platform) platform options now task_id s ≡ (
          let new = dispatched now (lookup task.runner_id s.runners) task in
          (ok new, with_task new s))
  unfolding process_queued_task get_task get_runner put_task
  process-found now task_id e = ground arith

  pub authenticate-known :
      (runner_id credential : String) {runner : RunnerRecord}
      → IsAccepted platform s runner_id credential runner
      → authenticate_runner (in_memory platform) platform options runner_id credential s
        ≡ (ok runner, s)
  unfolding authenticate_runner get_runner
  authenticate-known runner_id credential h = ground arith

  pub authenticate-refused :
      (runner_id credential : String)
      → IsRefused platform s runner_id credential
      → authenticate_runner (in_memory platform) platform options runner_id credential s
        ≡ (err (authentication "invalid runner credential"), s)
  unfolding authenticate_runner get_runner
  authenticate-refused runner_id credential (inl e) = ground arith
  authenticate-refused runner_id credential (inr (runner, e, f)) = ground arith

  pub require_lease-missing :
      (task_id : String) (lease_id : Option String) (runner_id : String)
      → lookup task_id s.tasks ≡ none
      → require_lease (in_memory platform) platform options task_id lease_id runner_id s
        ≡ (err (not_found ("task " ++ task_id ++ " not found")), s)
  unfolding require_lease get_task
  require_lease-missing task_id lease_id runner_id e = ground arith

  pub require_lease-wrong :
      (task_id : String) (lease_id : Option String) (runner_id : String) {task : TaskRecord}
      → lookup task_id s.tasks ≡ some task
      → holds_lease lease_id runner_id task ≡ false
      → require_lease (in_memory platform) platform options task_id lease_id runner_id s
        ≡ (err (validation "invalid task lease"), s)
  unfolding require_lease get_task
  require_lease-wrong task_id lease_id runner_id e f = ground arith

  pub require_lease-held :
      (task_id : String) (lease_id : Option String) (runner_id : String) {task : TaskRecord}
      → lookup task_id s.tasks ≡ some task
      → holds_lease lease_id runner_id task ≡ true
      → require_lease (in_memory platform) platform options task_id lease_id runner_id s
        ≡ (ok task, s)
  unfolding require_lease get_task
  require_lease-held task_id lease_id runner_id e f = ground arith
