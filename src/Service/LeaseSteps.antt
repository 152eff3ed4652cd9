-- ===== src/Service/LeaseSteps.antt =====
-- The three operations under a lease are sequences of changes of the in-memory store.
use task_hub.Shared.{
  ◌≡◌, refl, inl, inr, true, Option, none, some, List, [], String, arith, eq_iff, Bool-cases,
  Option-cases,
}
use task_hub.Shared.Text.{is_empty}
use task_hub.Shared.Dict.{lookup, lookup-insert_self}
use task_hub.Types.{Instant, RunnerRecord, TaskRecord, CompleteTaskInput, LogEntry, failed, leased}
use task_hub.Platform.{Platform}
use task_hub.InMemory.{InMemory}
use task_hub.InMemory.Listing.{in_memory}
use task_hub.Service.{heartbeat, append_logs, complete_task}
use task_hub.Service.Records.{
  ServiceOptions, running_task, completed_task, holds_lease, webhook_delivery, webhook_payload,
}
use task_hub.Service.Runs.{with_task, with_heartbeat}
use task_hub.Service.Leases.{
  HoldsLease, with_delivery, lease-cases, lease_calls-Refused, heartbeat-held, append_logs-held,
  complete_task-held,
}
use task_hub.Service.Changes.{
  Change, updates_task, adds_logs, adds_delivery, Changes, Changes-trans, unchanged, then_change,
  IsKeyed,
}
use task_hub.Service.Steps.{under_own_key, put_heartbeat}

-- What the test of a lease has shown.
pub holds_lease-eq :
    (lease_id runner_id : String) (task : TaskRecord)
    → holds_lease (some lease_id) runner_id task ≡ true
    → (task.runner_id ≡ runner_id) × (task.lease_id ≡ some lease_id)
holds_lease-eq lease_id runner_id task h = elim (Option-cases task.lease_id) [
  | inl e ↦ ground arith
  | inr (held, e) ↦ ground (arith, eq_iff task.runner_id runner_id, eq_iff held lease_id)
]

-- A completion that makes the task leased names the lease.
abbrev pub NamesLease : Option String → CompleteTaskInput → Type 0
NamesLease lease_id input = input.status ≡ leased → (named : String) × (lease_id ≡ some named)

-- A delivery speaks of a task of the store.
delivery_change :
    (platform : Platform) (options : ServiceOptions) (later : Instant) (uuid : String)
    (input : CompleteTaskInput) (url : Option String) (task : TaskRecord) (s : InMemory)
    → lookup task.task_id s.tasks ≡ some task
    → Changes s (with_delivery platform options later uuid input url task s)
delivery_change platform options later uuid input none task s e = unchanged
delivery_change platform options later uuid input (some url) task s e =
    elim (Bool-cases (is_empty url)) [
      | inl f ↦ rw f unchanged
      | inr f ↦ rw f (
          then_change unchanged (
            adds_delivery
              (webhook_delivery platform options later uuid url (webhook_payload task input)) task e
              refl))
    ]

module _ (platform : Platform) (options : ServiceOptions) (s : InMemory) (task_id : String)
    (lease_id : Option String) (runner_id credential : String) where
  abbrev no_input : CompleteTaskInput
  no_input = record { status = failed; exit_code = none; result = none; error = none }

  module _ (keyed : IsKeyed s) {runner : RunnerRecord} {task : TaskRecord}
      (h : HoldsLease platform s task_id lease_id runner_id credential runner task) where
    heartbeat_change :
        (now : Instant)
        → Changes s
            (with_task (running_task options now task) (with_heartbeat now runner_id runner s))
    heartbeat_change now =
        then_change
          (then_change unchanged
            (put_heartbeat platform options now runner_id runner s keyed h.accepted.0))
          (updates_task task (running_task options now task)
            (under_own_key task_id task s keyed h.found) (ground arith) (λ p. absurd (cc)) refl)

    completion :
        (now : Instant) (input : CompleteTaskInput)
        → NamesLease lease_id input
        → Change s (with_task (completed_task now input task) s)
    completion now input names =
        updates_task task (completed_task now input task)
          (under_own_key task_id task s keyed h.found) (ground arith)
          (λ p.
            let (named, e) = names p in
            (named, (holds_lease-eq named runner_id task (rw e at h.held)).1))
          refl

    completed_found :
        (now : Instant) (input : CompleteTaskInput)
        → lookup task.task_id (with_task (completed_task now input task) s).tasks
          ≡ some (completed_task now input task)
    completed_found now input =
        lookup-insert_self task.task_id (completed_task now input task) s.tasks

    complete_change :
        (now later : Instant) (uuid : String) (input : CompleteTaskInput)
        → NamesLease lease_id input
        → Changes s (
            with_delivery platform options later uuid input task.callback_url
              (completed_task now input task)
              (with_task (completed_task now input task) s))
    complete_change now later uuid input names =
        Changes-trans (then_change unchanged (completion now input names)) (
          delivery_change platform options later uuid input task.callback_url
            (completed_task now input task) (with_task (completed_task now input task) s)
            (completed_found now input))

  pub heartbeat-Changes :
      (now : Instant)
      → IsKeyed s
      → Changes s
          (heartbeat
            (in_memory platform)
            platform
            options
            now
            task_id
            lease_id
            runner_id
            credential
            s).1
  heartbeat-Changes now keyed =
      elim (lease-cases platform s task_id lease_id runner_id credential) [
        | inl (error, r) ↦
            rw
              (lease_calls-Refused platform options s task_id lease_id runner_id credential now now
                "" [] no_input error r).0
              unchanged
        | inr (runner, task, h) ↦
            rw (heartbeat-held platform options s task_id lease_id runner_id credential h now)
              (heartbeat_change keyed h now)
      ]

  pub append_logs-Changes :
      (entries : List LogEntry)
      → Changes s
          (append_logs
            (in_memory platform)
            platform
            options
            task_id
            lease_id
            runner_id
            credential
            entries
            s).1
  append_logs-Changes entries =
      elim (lease-cases platform s task_id lease_id runner_id credential) [
        | inl (error, r) ↦
            rw
              (lease_calls-Refused platform options s task_id lease_id runner_id credential 0 0 ""
                entries no_input error r).1
              unchanged
        | inr (runner, task, h) ↦
            rw (append_logs-held platform options s task_id lease_id runner_id credential h entries)
              (then_change unchanged (adds_logs _ task h.found refl))
      ]

  pub complete_task-Changes :
      (now later : Instant) (uuid : String) (input : CompleteTaskInput)
      → NamesLease lease_id input
      → IsKeyed s
      → Changes s
          (complete_task
            (in_memory platform)
            platform
            options
            now
            later
            uuid
            task_id
            lease_id
            runner_id
            credential
            input
            s).1
  complete_task-Changes now later uuid input names keyed =
      elim (lease-cases platform s task_id lease_id runner_id credential) [
        | inl (error, r) ↦
            rw
              (lease_calls-Refused platform options s task_id lease_id runner_id credential now
                later uuid [] input error r).2
              unchanged
        | inr (runner, task, h) ↦
            rw
              (complete_task-held platform options s task_id lease_id runner_id credential h now
                later uuid input)
              (complete_change keyed h now later uuid input names)
      ]
