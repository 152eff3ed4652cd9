-- ===== src/Tests/ReportWitnesses.antt =====
-- The theorems on a runner's reports and on the worker's queue, at concrete inputs.
use Prim.Native.String.{◌++◌}
use mathlib.Core.List.{◌++◌ as append}
use task_hub.Shared.{◌≡◌, refl, inr, none, some, [], ◌∷◌, String}
use task_hub.Types.{RunnerRecord, TaskRecord, ok, err, not_found, authentication}
use task_hub.InMemory.{InMemory}
use task_hub.InMemory.Listing.{in_memory}
use task_hub.Service.{heartbeat}
use task_hub.Service.Records.{default_options}
use task_hub.Service.Leases.{bad_credential}
use task_hub.Service.Outcome.{IsBeat}
use task_hub.Service.Unclaimed.{heartbeat_unclaimed}
use task_hub.Worker.Bodies.{Holder, holder_given}
use task_hub.Worker.Response.{Response, json, of_task, service_options}
use task_hub.Worker.Fetch.{fetch}
use task_hub.Worker.Fetch.Advisory.{without_sockets}
use task_hub.Worker.Fetch.Reports.{fetch-beat_held, IsRefusal, a_beat, fetch-report_refused}
use task_hub.Worker.Queue.{Message, queue}
use task_hub.Worker.Queue.Batches.{queue_until, queue_whole, processed}
use task_hub.Tests.{toy}
use task_hub.Tests.Scenario.{service}
use task_hub.Tests.Witnesses.{r1, task_a, task_b, two_tasks, one_claimed, leased_b}
use task_hub.Tests.WorkerWitnesses.{
  link, broken_link, env, moment, world, beat_body, beat_request, worker,
}

heartbeat_unclaimed_example :
    (new : TaskRecord) × (t : InMemory) × (heartbeat
        (in_memory toy)
        toy
        default_options
        6000
        "task_b"
        none
        "r1"
        "ab"
        two_tasks
      ≡ (ok new, t))
    × IsBeat default_options 6000 "r1" task_b new two_tasks t
    × (new.lease_id ≡ none)
unfolding service
heartbeat_unclaimed_example =
    heartbeat_unclaimed toy default_options two_tasks "task_b" "r1" "ab" 6000 r1 task_b (refl, refl)
      refl refl refl

abbrev holder : Holder
holder = record { lease_id = some "lease_u1"; runner_id = "r1" }

abbrev active : RunnerRecord
active = record r1 { last_heartbeat_at = some 4000; updated_at = 4000 }

fetch-beat_held_example :
    (new : TaskRecord) × (t : InMemory) × (without_sockets (
        fetch
          (in_memory toy)
          toy
          broken_link
          env
          moment
          (beat_request "Bearer ab")
          (world one_claimed))
      ≡ some (json (of_task new) 200, t))
    × IsBeat (service_options env) 5000 "r1" leased_b new one_claimed t
unfolding worker service holder_given
fetch-beat_held_example =
    fetch-beat_held toy broken_link env moment (beat_request "Bearer ab") "task_b" beat_body holder
      (world one_claimed) refl refl (record { accepted = (refl, refl); found = refl; held = refl })
      refl

fetch-report_refused_example :
    (response : Response) × IsRefusal "task_b" (authentication "invalid runner credential") response
    × (fetch (in_memory toy) toy link env moment (beat_request "Bearer no") (world one_claimed)
        ≡ some (response, world one_claimed))
unfolding worker service holder_given
fetch-report_refused_example =
    fetch-report_refused toy link env moment (beat_request "Bearer no") "task_b" beat_body holder
      (world one_claimed) refl refl (authentication "invalid runner credential")
      (bad_credential (inr (active, refl, refl))) (a_beat refl)

abbrev message : String → Message
message task_id = record { task_id = task_id; now = 3000 }

queue_until_example :
    ((queue
        (in_memory toy)
        toy
        broken_link
        7
        (append (message "task_a" ∷ []) (message "task_x" ∷ message "task_b" ∷ []))
        (world two_tasks)).0
      ≡ (message "task_a" ∷ [], err (not_found ("task " ++ "task_x" ++ " not found"))))
    × ((queue
          (in_memory toy)
          toy
          broken_link
          7
          (append (message "task_a" ∷ []) (message "task_x" ∷ message "task_b" ∷ []))
          (world two_tasks)).1.store
        ≡ processed toy (message "task_a" ∷ []) two_tasks)
unfolding service
queue_until_example =
    queue_until toy broken_link 7 (message "task_a" ∷ []) (message "task_x") (message "task_b" ∷ [])
      (world two_tasks) ((task_a, refl), tt) refl

queue_whole_example :
    ((queue
        (in_memory toy)
        toy
        link
        7
        (message "task_a" ∷ message "task_b" ∷ [])
        (world two_tasks)).0
      ≡ (message "task_a" ∷ message "task_b" ∷ [], ok tt))
    × ((queue
          (in_memory toy)
          toy
          link
          7
          (message "task_a" ∷ message "task_b" ∷ [])
          (world two_tasks)).1.store
        ≡ processed toy (message "task_a" ∷ message "task_b" ∷ []) two_tasks)
unfolding service
queue_whole_example =
    queue_whole toy link 7 (message "task_a" ∷ message "task_b" ∷ []) (world two_tasks)
      ((task_a, refl), ((task_b, refl), tt))
