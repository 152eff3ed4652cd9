-- ===== src/Service/Leases.antt =====
-- `heartbeat`, `appendLogs` and `completeTask` over the in-memory store: what each
-- answers and the store that it leaves, by the branch that it takes.
use Prim.Native.String.{◌++◌}
use mathlib.Core.List.{◌++◌ as append}
use task_hub.Shared.{
  ◌≡◌, ◌⊎◌, inl, inr, Option-cases, Bool-cases, true, false, Option, none, some, List, [], ◌∷◌,
  String, arith, if◌then◌else◌,
}
use task_hub.Shared.Text.{is_empty}
use task_hub.Shared.Dict.{lookup}
use task_hub.Types.{
  Instant, RunnerRecord, TaskRecord, CompleteTaskInput, LogEntry, ok, err, Error, authentication,
  not_found, validation,
}
use task_hub.Platform.{Platform}
use task_hub.InMemory.{InMemory, touch_runner_heartbeat, put_task, save_logs, save_webhook_delivery}
use task_hub.InMemory.Listing.{in_memory}
use task_hub.Service.{heartbeat, append_logs, complete_task, authenticate_runner, require_lease}
use task_hub.Service.Records.{
  ServiceOptions, running_task, completed_task, holds_lease, webhook_delivery, webhook_payload,
}
use task_hub.Service.Runs.{
  with_task, with_heartbeat, IsRefused, IsAccepted, authentication-cases, authenticate-known,
  authenticate-refused, require_lease-missing, require_lease-wrong, require_lease-held,
}

-- The delivery to the callback is added, unless there is no callback or an empty one.
abbrev pub with_delivery :
    Platform
    → ServiceOptions
    → Instant
    → String
    → CompleteTaskInput
    → Option String
    → TaskRecord
    → InMemory
    → InMemory
with_delivery platform options later uuid input none task s = s
with_delivery platform options later uuid input (some url) task s =
    if is_empty url then s else record s {
      webhook_deliveries =
          append s.webhook_deliveries
            (webhook_delivery platform options later uuid url (webhook_payload task input) ∷ []);
    }

module _ (platform : Platform) (s : InMemory) (task_id : String) (lease_id : Option String)
    (runner_id credential : String) where
  -- How a call under a lease is refused, and with which error.
  pub data LeaseRefusal : Error → Type 0 where
    bad_credential :
        IsRefused platform s runner_id credential
        → LeaseRefusal (authentication "invalid runner credential")
    no_task :
        (runner : RunnerRecord)
        → IsAccepted platform s runner_id credential runner
        → lookup task_id s.tasks ≡ none
        → LeaseRefusal (not_found ("task " ++ task_id ++ " not found"))
    wrong_lease :
        (runner : RunnerRecord)
        → IsAccepted platform s runner_id credential runner
        → (task : TaskRecord) → lookup task_id s.tasks ≡ some task
        → holds_lease lease_id runner_id task ≡ false
        → LeaseRefusal (validation "invalid task lease")

  -- The caller is the registered runner, and the task names it and the lease.
  pub record HoldsLease (runner : RunnerRecord) (task : TaskRecord) : Type 0 where
    pub accepted : IsAccepted platform s runner_id credential runner
    pub found : lookup task_id s.tasks ≡ some task
    pub held : holds_lease lease_id runner_id task ≡ true

  -- Every call under a lease is refused, or made by the holder of the lease.
  pub lease-cases :
      ((error : Error) × LeaseRefusal error)
      ⊎ ((runner : RunnerRecord) × (task : TaskRecord) × HoldsLease runner task)
  lease-cases = elim (authentication-cases platform s runner_id credential) [
    | inl refused ↦ inl (_, bad_credential refused)
    | inr (runner, known, fits) ↦ elim (Option-cases (lookup task_id s.tasks)) [
      | inl e ↦ inl (_, no_task runner (known, fits) e)
      | inr (task, e) ↦ elim (Bool-cases (holds_lease lease_id runner_id task)) [
        | inl held ↦ inr (runner, task, record { accepted = (known, fits); found = e; held = held })
        | inr other ↦ inl (_, wrong_lease runner (known, fits) task e other)
      ]
    ]
  ]

module _ (platform : Platform) (options : ServiceOptions) (s : InMemory) (task_id : String)
    (lease_id : Option String) (runner_id credential : String) where
  abbrev Refused : Error → Type 0
  Refused = LeaseRefusal platform s task_id lease_id runner_id credential

  -- A refused call ends in one of its two checks.
  abbrev Ends : Error → Type 0
  Ends error =
      (authenticate_runner (in_memory platform) platform options runner_id credential s
        ≡ (err error, s))
      ⊎ ((runner : RunnerRecord) × (authenticate_runner (in_memory platform) platform options
              runner_id credential s
            ≡ (ok runner, s))
          × (require_lease (in_memory platform) platform options task_id lease_id runner_id s
              ≡ (err error, s)))

  Refused-Ends : (error : Error) → Refused error → Ends error
  Refused-Ends error (bad_credential r) =
      inl (authenticate-refused platform options s runner_id credential r)
  Refused-Ends error (no_task runner known e) = inr (
    runner,
    authenticate-known platform options s runner_id credential known,
    require_lease-missing platform options s task_id lease_id runner_id e,
  )
  Refused-Ends error (wrong_lease runner known task e f) = inr (
    runner,
    authenticate-known platform options s runner_id credential known,
    require_lease-wrong platform options s task_id lease_id runner_id e f,
  )

  -- A heartbeat, a log upload or a completion whose caller is not the registered runner, whose task
  -- is not there, or whose lease is not the task's, throws that error and writes nothing.
  pub lease_calls-Refused :
      (now later : Instant) (uuid : String) (entries : List LogEntry) (input : CompleteTaskInput)
      (error : Error)
      → Refused error
      → (heartbeat (in_memory platform) platform options now task_id lease_id runner_id credential s
          ≡ (err error, s))
        × (append_logs
              (in_memory platform)
              platform
              options
              task_id
              lease_id
              runner_id
              credential
              entries
              s
            ≡ (err error, s))
        × (complete_task
              (in_memory platform)
              platform
              options
              now
              later
              uuid
              task_id
              lease_id
              runner_id
              credential
              input
              s
            ≡ (err error, s))
  unfolding heartbeat append_logs complete_task
  lease_calls-Refused now later uuid entries input error r = elim (Refused-Ends error r) [
    | inl stop ↦ (ground arith, ground arith, ground arith)
    | inr (runner, go, stop) ↦ (ground arith, ground arith, ground arith)
  ]

  module _ {runner : RunnerRecord} {task : TaskRecord}
      (h : HoldsLease platform s task_id lease_id runner_id credential runner task) where
    passes :
        (authenticate_runner (in_memory platform) platform options runner_id credential s
          ≡ (ok runner, s))
        × (require_lease (in_memory platform) platform options task_id lease_id runner_id s
            ≡ (ok task, s))
    passes = (
      authenticate-known platform options s runner_id credential h.accepted,
      require_lease-held platform options s task_id lease_id runner_id h.found h.held,
    )

    -- The holder's heartbeat marks the task running, extends the lease from now, and records the
    -- runner's activity, whatever the task's status was.
    pub heartbeat-held :
        (now : Instant)
        → heartbeat
            (in_memory platform)
            platform
            options
            now
            task_id
            lease_id
            runner_id
            credential
            s
          ≡ (
            ok (running_task options now task),
            with_task (running_task options now task) (with_heartbeat now runner_id runner s),
          )
    unfolding heartbeat touch_runner_heartbeat put_task
    heartbeat-held now = ground (arith, passes.0, passes.1)

    -- The holder's log upload adds the entries to the task's log and changes no task and no runner.
    pub append_logs-held :
        (entries : List LogEntry)
        → append_logs
            (in_memory platform)
            platform
            options
            task_id
            lease_id
            runner_id
            credential
            entries
            s
          ≡ (
            ok tt,
            record s {
              log_batches =
                  append s.log_batches
                    (record { task_id = task_id; lease_id = lease_id; entries = entries } ∷ []);
            },
          )
    unfolding append_logs save_logs
    append_logs-held entries = ground (arith, passes.0, passes.1)

    -- The holder's completion puts the task with its outcome and answers it. It also adds one
    -- delivery if the task has a callback that is not empty, and none otherwise.
    pub complete_task-held :
        (now later : Instant) (uuid : String) (input : CompleteTaskInput)
        → complete_task
            (in_memory platform)
            platform
            options
            now
            later
            uuid
            task_id
            lease_id
            runner_id
            credential
            input
            s
          ≡ (
            ok (completed_task now input task),
            with_delivery platform options later uuid input task.callback_url
                (completed_task now input task)
                (with_task (completed_task now input task) s),
          )
    unfolding complete_task put_task save_webhook_delivery
    complete_task-held now later uuid input = ground (arith, passes.0, passes.1)
