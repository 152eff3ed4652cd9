-- ===== src/Tests/Scenario.antt =====
-- One task from its submission to its completion, by evaluation.
use task_hub.Shared.{◌≡◌, refl, none, some, List, [], ◌∷◌, map}
use task_hub.Shared.Int.{pos}
use task_hub.Shared.Dict.{lookup, insert, values}
use task_hub.Shared.Sort.{sort, insert_sorted}
use task_hub.Shared.Text.{trim}
use task_hub.Types.{succeeded, TaskRecord, TaskStatus, CompleteTaskInput}
use task_hub.Types.Json.{
  Value, int, str, obj, arr, no_fields, field, item, no_items, get, is_object, is_plain_object,
  as_string, as_nonempty, as_nonblank, as_integer, optional, every, as_array_of,
}
use task_hub.Types.Names.{as_task_type, as_platform}
use task_hub.Security.{hash_runner_credential, verify_runner_credential, hmac_hex}
use task_hub.InMemory.{
  InMemory, empty_store, put_runner, get_runner, touch_runner_heartbeat, put_task, get_task,
  find_task_by_idempotency_key, enqueue_task, find_claimable_task, save_logs, save_webhook_delivery,
}
use task_hub.Service.{
  register_runner, submit_task, process_queued_task, claim_task, heartbeat, append_logs,
  complete_task, authenticate_runner, require_lease,
}
use task_hub.Service.Submit.{validate_submission, as_payload, as_positive, as_http_url}
use task_hub.Service.Register.{validate_registration}
use task_hub.Service.Records.{default_options}
use task_hub.Service.Lifecycle.{Call, register, submit, process, claim, beat, complete, perform}
use task_hub.Tests.{toy}

abbrev pub registration : Value
registration = obj (
    field "runnerId" (str "r1") (
      field "credential" (str "secret") (
        field "platform" (str "linux") (
          field "labels" (arr no_items) (
            field "taskTypes" (arr (item (str "shell") no_items))
              (field "capabilities" (arr no_items) no_fields))))))

abbrev pub body : Value
body = obj (
    field "runnerId" (str "r1") (
      field "type" (str "shell") (
        field "name" (str "backup") (
          field "payload" (obj no_fields) (
            field "timeoutSeconds" (int (pos 60)) (
              field "callbackUrl" (str "https://a.example/hook")
                (field "idempotencyKey" (str "k1") no_fields)))))))

abbrev pub done : CompleteTaskInput
done = record { status = succeeded; exit_code = some (pos 0); result = none; error = none }

abbrev pub run_all : List Call → InMemory → InMemory
run_all [] s = s
run_all (c ∷ cs) s = run_all cs (perform toy default_options c s)

abbrev pub calls : List Call
calls =
    register 1000 "u0" registration
    ∷ submit 2000 "u1" body
    ∷ process 3000 "task_u1"
    ∷ claim 4000 "u2" "r1" "secret"
    ∷ beat 5000 "task_u1" (some "lease_u2") "r1" "secret"
    ∷ complete 6000 6001 "u3" "task_u1" (some "lease_u2") "r1" "secret" done
    ∷ []

unfoldable pub service : Unit {0}
unfolding perform register_runner submit_task process_queued_task claim_task heartbeat append_logs
    complete_task authenticate_runner require_lease validate_submission validate_registration
    hash_runner_credential verify_runner_credential hmac_hex put_runner get_runner
    touch_runner_heartbeat put_task get_task find_task_by_idempotency_key enqueue_task
    find_claimable_task save_logs save_webhook_delivery lookup insert sort trim get is_object
    is_plain_object as_string as_nonempty as_nonblank as_integer optional every as_array_of
    as_task_type as_platform as_payload as_positive as_http_url insert_sorted
service = tt

statuses : List TaskRecord → List TaskStatus
statuses ts = map (λ t. t.status) ts

completed : statuses (values (run_all calls empty_store).tasks) ≡ succeeded ∷ []
unfolding service statuses
completed = refl
