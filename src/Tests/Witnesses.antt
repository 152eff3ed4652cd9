-- ===== src/Tests/Witnesses.antt =====
-- The theorems about the service at concrete inputs.
use task_hub.Shared.{◌≡◌, ◌≢◌, ◌↔◌, refl, inr, true, none, some, [], ◌∷◌, String, In, arith, eq_iff}
use task_hub.Shared.Int.{pos}
use task_hub.Shared.Dict.{lookup, values}
use task_hub.Shared.Text.{code_units}
use task_hub.Types.{
  shell, linux, pending_runner, running, TaskRecord, RunnerRecord, ClaimResponse, ok, err,
  authentication, validation,
}
use task_hub.Types.Json.{obj, no_fields}
use task_hub.Security.{constant_time_string_equal}
use task_hub.Security.Compare.{constant_time_string_equal_iff}
use task_hub.InMemory.{InMemory, empty_store}
use task_hub.InMemory.Listing.{in_memory}
use task_hub.InMemory.Claimable.{IsWaiting, Precedes, find_claimable_task_best}
use task_hub.Service.{submit_task, claim_task, heartbeat, append_logs, complete_task}
use task_hub.Service.Submit.{Submission, validate_submission}
use task_hub.Service.Submit.Laws.{IsSubmittable, validate_submission_sound}
use task_hub.Service.Submit.Idempotent.{submit_task_idempotent}
use task_hub.Service.Records.{default_options, leased_task, claim_response}
use task_hub.Service.Runs.{with_task, with_heartbeat}
use task_hub.Service.Changes.{IsKeyed}
use task_hub.Service.Keeps.{Keeps}
use task_hub.Service.Invariant.{IsConsistent}
use task_hub.Service.Leases.{HoldsLease, bad_credential, lease_calls-Refused}
use task_hub.Service.Outcome.{IsBeat, Completes, complete_task-Completes}
use task_hub.Service.Exclusive.{claim_exclusive}
use task_hub.Service.Hazards.{running_task-not_claimable, stale_lease-refused, completion_not_final}
use task_hub.Service.Lifecycle.{
  Call, register, submit, process, claim, complete, perform, Reach, here, next, Reach-IsConsistent,
  Reach-Keeps,
}
use task_hub.Tests.{toy}
use task_hub.Tests.Scenario.{service, registration, body, done}

-- The store with one runner and two pending tasks, the second of a higher priority.
abbrev pub r1 : RunnerRecord
r1 = record {
  runner_id = "r1";
  name = "r1";
  credential_hash = "6162";
  platform = linux;
  labels = [];
  task_types = shell ∷ [];
  capabilities = [];
  last_heartbeat_at = none;
  created_at = 1000;
  updated_at = 1000;
}

abbrev pub task_a : TaskRecord
task_a = record {
  task_id = "task_a";
  runner_id = "r1";
  type = shell;
  name = "backup";
  payload = obj no_fields;
  status = pending_runner;
  timeout_seconds = pos 60;
  priority = pos 1;
  callback_url = some "https://a.example/hook";
  idempotency_key = some "k1";
  lease_id = none;
  lease_expires_at = none;
  result = none;
  exit_code = none;
  error = none;
  created_at = 2000;
  updated_at = 2000;
}

abbrev pub task_b : TaskRecord
task_b = record task_a {
  task_id = "task_b";
  priority = pos 5;
  idempotency_key = none;
  created_at = 3000;
}

abbrev pub two_tasks : InMemory
two_tasks = record {
  runners = ("r1", r1) ∷ [];
  tasks = ("task_a", task_a) ∷ ("task_b", task_b) ∷ [];
  enqueued_task_ids = "task_a" ∷ "task_b" ∷ [];
  log_batches = [];
  webhook_deliveries = [];
}

two_tasks-IsKeyed : IsKeyed two_tasks
unfolding lookup
two_tasks-IsKeyed = record { runners = (refl, refl, tt); tasks = (refl, refl, (refl, refl, tt)) }

-- The stores after one claim, and after two.
abbrev response_b : ClaimResponse
response_b = claim_response default_options 4000 "u1" task_b

abbrev response_a : ClaimResponse
response_a = claim_response default_options 5000 "u2" task_a

abbrev pub one_claimed : InMemory
one_claimed =
    with_task (leased_task default_options 4000 "u1" task_b) (with_heartbeat 4000 "r1" r1 two_tasks)

two_claimed : InMemory
two_claimed = (claim_task (in_memory toy) toy default_options 5000 "u2" "r1" "ab" one_claimed).1

first_claim :
    claim_task (in_memory toy) toy default_options 4000 "u1" "r1" "ab" two_tasks
    ≡ (ok (some response_b), one_claimed)
unfolding service
first_claim = refl

second_claim :
    claim_task (in_memory toy) toy default_options 5000 "u2" "r1" "ab" one_claimed
    ≡ (ok (some response_a), two_claimed)
unfolding service two_claimed
second_claim = refl

claim_exclusive_example : ◌≢◌ {A = String} "task_a" "task_b"
claim_exclusive_example =
    claim_exclusive toy default_options two_tasks one_claimed two_claimed 4000 5000 "u1" "u2" "r1"
      "r1" "ab" "ab" response_b response_a two_tasks-IsKeyed first_claim second_claim (omega arith)

stale_lease-refused_example :
    (heartbeat
        (in_memory toy)
        toy
        default_options
        6000
        "task_b"
        (some "lease_old")
        "r1"
        "ab"
        one_claimed
      ≡ (err (validation "invalid task lease"), one_claimed))
    × (append_logs
          (in_memory toy)
          toy
          default_options
          "task_b"
          (some "lease_old")
          "r1"
          "ab"
          []
          one_claimed
        ≡ (err (validation "invalid task lease"), one_claimed))
    × (complete_task
          (in_memory toy)
          toy
          default_options
          6000
          6001
          "u3"
          "task_b"
          (some "lease_old")
          "r1"
          "ab"
          done
          one_claimed
        ≡ (err (validation "invalid task lease"), one_claimed))
unfolding service
stale_lease-refused_example =
    stale_lease-refused toy default_options two_tasks one_claimed 4000 6000 6001 "u1" "u3" "r1" "ab"
      response_b (some "lease_old") "r1" "ab"
      (record r1 { last_heartbeat_at = some 4000; updated_at = 4000 }) [] done first_claim
      (ground (arith, eq_iff "lease_old" "lease_u1")) (refl, refl)

find_claimable_task_best_example :
    In task_b (values two_tasks.tasks)
    × IsWaiting "r1" 4000 task_b
    × ((other : TaskRecord)
        → In other (values two_tasks.tasks)
        → IsWaiting "r1" 4000 other
        → Precedes task_b other)
unfolding service
find_claimable_task_best_example = find_claimable_task_best "r1" 4000 two_tasks task_b refl

lease_calls-Refused_example :
    (heartbeat
        (in_memory toy)
        toy
        default_options
        6000
        "task_b"
        (some "lease_u1")
        "r1"
        "wrong"
        one_claimed
      ≡ (err (authentication "invalid runner credential"), one_claimed))
    × (append_logs
          (in_memory toy)
          toy
          default_options
          "task_b"
          (some "lease_u1")
          "r1"
          "wrong"
          []
          one_claimed
        ≡ (err (authentication "invalid runner credential"), one_claimed))
    × (complete_task
          (in_memory toy)
          toy
          default_options
          6000
          6001
          "u3"
          "task_b"
          (some "lease_u1")
          "r1"
          "wrong"
          done
          one_claimed
        ≡ (err (authentication "invalid runner credential"), one_claimed))
unfolding service
lease_calls-Refused_example =
    lease_calls-Refused toy default_options one_claimed "task_b" (some "lease_u1") "r1" "wrong" 6000
      6001 "u3" [] done (authentication "invalid runner credential")
      (bad_credential (inr (_, refl, refl)))

abbrev pub leased_b : TaskRecord
leased_b = leased_task default_options 4000 "u1" task_b

abbrev beaten_r1 : RunnerRecord
beaten_r1 = record r1 { last_heartbeat_at = some 4000; updated_at = 4000 }

holder : HoldsLease toy one_claimed "task_b" (some "lease_u1") "r1" "ab" beaten_r1 leased_b
unfolding service
holder = record { accepted = (refl, refl); found = refl; held = refl }

complete_task-Completes_example :
    (new : TaskRecord) × (t : InMemory) × (complete_task
        (in_memory toy)
        toy
        default_options
        6000
        6001
        "u3"
        "task_b"
        (some "lease_u1")
        "r1"
        "ab"
        done
        one_claimed
      ≡ (ok new, t))
    × Completes toy default_options 6000 6001 "u3" done leased_b new one_claimed t
complete_task-Completes_example =
    complete_task-Completes toy default_options one_claimed "task_b" (some "lease_u1") "r1" "ab"
      6000 6001 "u3" done beaten_r1 leased_b holder

one_claimed-IsKeyed : IsKeyed one_claimed
unfolding service
one_claimed-IsKeyed = record { runners = (refl, refl, tt); tasks = (refl, refl, (refl, refl, tt)) }

completion_not_final_example :
    (finished again : TaskRecord) × (t u : InMemory) × (complete_task
        (in_memory toy)
        toy
        default_options
        6000
        6001
        "u3"
        "task_b"
        (some "lease_u1")
        "r1"
        "ab"
        done
        one_claimed
      ≡ (ok finished, t))
    × Completes toy default_options 6000 6001 "u3" done leased_b finished one_claimed t
    × (heartbeat (in_memory toy) toy default_options 9000 "task_b" (some "lease_u1") "r1" "ab" t
        ≡ (ok again, u))
    × IsBeat default_options 9000 "r1" finished again t u
completion_not_final_example =
    completion_not_final toy default_options one_claimed "task_b" (some "lease_u1") "r1" "ab" 6000
      6001 9000 "u3" done beaten_r1 leased_b one_claimed-IsKeyed holder

abbrev one_running : InMemory
one_running = record two_tasks {
  tasks = ("task_a", task_a) ∷ ("task_b", record leased_b { status = running }) ∷ [];
}

one_running-IsKeyed : IsKeyed one_running
unfolding lookup
one_running-IsKeyed = record { runners = (refl, refl, tt); tasks = (refl, refl, (refl, refl, tt)) }

running_task-not_claimable_example : ◌≢◌ {A = String} "task_a" "task_b"
unfolding service
running_task-not_claimable_example =
    running_task-not_claimable one_running "r1" 9000000 (record leased_b { status = running })
      task_a one_running-IsKeyed refl refl refl

abbrev submission : Submission
submission = record {
  runner_id = "r1";
  type = shell;
  name = "backup";
  payload = obj no_fields;
  timeout_seconds = pos 60;
  priority = none;
  callback_url = some "https://a.example/hook";
  idempotency_key = some "k1";
}

validate_body : validate_submission toy body ≡ ok submission
unfolding service
validate_body = refl

validate_submission_sound_example : IsSubmittable toy submission
validate_submission_sound_example = validate_submission_sound toy body submission validate_body

submit_task_idempotent_example :
    (task : TaskRecord) × (s : InMemory) × (submit_task
        (in_memory toy)
        toy
        default_options
        1000
        "u1"
        body
        empty_store
      ≡ (ok task, s))
    × (submit_task (in_memory toy) toy default_options 5000 "u2" body s ≡ (ok task, s))
unfolding lookup
submit_task_idempotent_example =
    submit_task_idempotent toy default_options 1000 5000 "u1" "u2" body submission empty_store "k1"
      validate_body refl refl

constant_time_string_equal_iff_example :
    (constant_time_string_equal "token" "tokens" ≡ true)
    ↔ (code_units "token" ≡ code_units "tokens")
constant_time_string_equal_iff_example = constant_time_string_equal_iff "token" "tokens"

-- A run of five calls, the last four from the store with the runner registered.
abbrev after : Call → InMemory → InMemory
after = perform toy default_options

abbrev submitted : InMemory
submitted = after (submit 2000 "u1" body) (after (register 1000 "u0" registration) empty_store)

submitted-Reach : Reach toy default_options empty_store submitted
unfolding service
submitted-Reach =
    next (next here (register 1000 "u0" registration) tt refl) (submit 2000 "u1" body) refl refl

abbrev completed : InMemory
completed =
    after (complete 6000 6001 "u3" "task_u1" (some "lease_u2") "r1" "secret" done)
      (after (claim 4000 "u2" "r1" "secret") (after (process 3000 "task_u1") submitted))

completed-Reach : Reach toy default_options submitted completed
completed-Reach =
    next (next (next here (process 3000 "task_u1") tt refl) (claim 4000 "u2" "r1" "secret") tt refl)
      (complete 6000 6001 "u3" "task_u1" (some "lease_u2") "r1" "secret" done) (λ e. absurd (cc))
      refl

submitted-IsConsistent : IsConsistent submitted
submitted-IsConsistent = Reach-IsConsistent toy default_options submitted submitted-Reach

Reach-IsConsistent_example : IsConsistent submitted
Reach-IsConsistent_example = Reach-IsConsistent toy default_options submitted submitted-Reach

Reach-Keeps_example : Keeps submitted completed
Reach-Keeps_example =
    Reach-Keeps toy default_options submitted completed submitted-IsConsistent completed-Reach
