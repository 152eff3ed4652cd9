-- ===== src/Worker/Fetch/Reports.antt =====
-- The routes by which a runner reports of a task (`fetch` of `src/worker/index.ts`): what they
-- answer and write, by what the service makes of the report.
use task_hub.Shared.{◌≡◌, refl, ap, ◌∙◌, true, none, some, List, [], String}
use Prim.Native.String.{◌++◌}
use task_hub.Types.{
  Error, RunnerRecord, TaskRecord, LogEntry, CompleteTaskInput, ok, err, failed, authentication,
  not_found, validation,
}
use task_hub.Types.Json.{Value, obj, field, no_fields, bool, str}
use task_hub.Platform.{Platform}
use task_hub.Action.{Action, pure, lift, bind-ok, bind-err, ◌>>=◌}
use task_hub.InMemory.{InMemory}
use task_hub.InMemory.Listing.{in_memory}
use task_hub.Service.{heartbeat, append_logs, complete_task}
use task_hub.Service.Records.{ServiceOptions, running_task}
use task_hub.Service.Runs.{with_task, with_heartbeat}
use task_hub.Service.Leases.{
  LeaseRefusal, bad_credential, no_task, wrong_lease, HoldsLease, lease_calls-Refused,
  heartbeat-held,
}
use task_hub.Service.Outcome.{IsBeat, running_task-IsBeat}
use task_hub.Worker.Request.{HttpRequest, Env, Moment, bearer_token}
use task_hub.Worker.Link.{World, HubLink, on_store, on_store_lem, broadcast_best_effort}
use task_hub.Worker.Link.Alike.{broadcast-IsQuiet}
use task_hub.Worker.Bodies.{
  Holder, parse_body, holder_given, property, entries_given, completion_given,
}
use task_hub.Worker.Response.{Response, json, of_value, of_task, service_options}
use task_hub.Worker.Runner.{serve_beat, serve_logs, serve_completion, tell_and_answer}
use task_hub.Worker.Route.{route, beat, log, complete}
use task_hub.Worker.Fetch.{fetch, serve_route, answered}
use task_hub.Worker.Fetch.Advisory.{without_sockets, answered-told, answered_with}

-- A report of a runner on a task, with a body that could be read as what the route casts it to. A
-- heartbeat needs nothing but its holder.
pub data IsReport (request : HttpRequest) (task_id : String) (body : Value) : Type 0 where
  a_beat : route request ≡ beat task_id → IsReport request task_id body
  a_log :
      route request ≡ log task_id
      → (entries_value : Value) (entries : List LogEntry)
      → property "entries" body ≡ ok entries_value
      → entries_given entries_value ≡ ok entries
      → IsReport request task_id body
  a_completion :
      route request ≡ complete task_id
      → (input : CompleteTaskInput) → completion_given body ≡ ok input
      → IsReport request task_id body

-- The answer to a refusal.
pub data IsRefusal (task_id : String) : Error → Response → Type 0 where
  no_credential :
      IsRefusal task_id
        (authentication "invalid runner credential")
        (json (of_value (obj (field "error" (str "invalid runner credential") no_fields))) 401)
  unknown_task :
      IsRefusal task_id
        (not_found ("task " ++ task_id ++ " not found"))
        (json (of_value (obj (field "error" (str "not found") no_fields))) 404)
  not_held :
      IsRefusal task_id
        (validation "invalid task lease")
        (json (of_value (obj (field "error" (str "invalid task lease") no_fields))) 400)

-- Calls that are refused do not look at the outcome.
abbrev no_outcome : CompleteTaskInput
no_outcome = record { status = failed; exit_code = none; result = none; error = none }

module _ (platform : Platform) (link : HubLink) (env : Env) (moment : Moment)
    (request : HttpRequest) (task_id : String) (body : Value) (holder : Holder) (w : World InMemory)
    (read : parse_body request ≡ ok body) (given : holder_given body ≡ ok holder) where
  abbrev options : ServiceOptions
  options = service_options env

  abbrev answers : TaskRecord → Action (World InMemory) Response
  answers = tell_and_answer (in_memory platform) platform link env moment request

  abbrev noted : Action (World InMemory) Response
  noted = pure (json (of_value (obj (field "ok" (bool true) no_fields))) 200)

  abbrev beats : Holder → Action InMemory TaskRecord
  beats h =
      heartbeat (in_memory platform) platform options moment.now task_id h.lease_id h.runner_id
        (bearer_token request)

  abbrev logs : List LogEntry → Holder → Action InMemory (Unit {0})
  logs entries h =
      append_logs (in_memory platform) platform options task_id h.lease_id h.runner_id
        (bearer_token request) entries

  abbrev completes : CompleteTaskInput → Holder → Action InMemory TaskRecord
  completes input h =
      complete_task (in_memory platform) platform options moment.now moment.later moment.uuid
        task_id h.lease_id h.runner_id (bearer_token request) input

  -- Both casts of the body went through: what follows is done with its holder.
  after_holder :
      (f : Value → Holder → Action (World InMemory) Response)
      → (lift (parse_body request) >>= λ b. lift (holder_given b) >>= f b) w ≡ f body holder w
  after_holder f =
      bind-ok (lift (parse_body request)) (λ b. lift (holder_given b) >>= f b)
        (ap (λ r. (r, w)) read)
      ∙ bind-ok (lift (holder_given body)) (f body) (ap (λ r. (r, w)) given)

  told-answer :
      (task : TaskRecord) (u : World InMemory)
      → ((tell_and_answer (in_memory platform) platform link env moment request task u).0
          ≡ ok (json (of_task task) 200))
        × ((tell_and_answer (in_memory platform) platform link env moment request task u).1.store
            ≡ u.store)
  unfolding broadcast_best_effort
  told-answer task u = (refl, (broadcast-IsQuiet platform link moment.socket_id task).quiet u)

  module _ {runner : RunnerRecord} {task : TaskRecord}
      (h : HoldsLease platform w.store task_id holder.lease_id holder.runner_id
        (bearer_token request)
        runner
        task) where
    beat-served :
        ((serve_beat (in_memory platform) platform link env moment request task_id w).0
          ≡ ok (json (of_task (running_task options moment.now task)) 200))
        × ((serve_beat (in_memory platform) platform link env moment request task_id w).1.store
            ≡ with_task
                (running_task options moment.now task)
                (with_heartbeat moment.now holder.runner_id runner w.store))
    unfolding serve_beat
    beat-served =
        let run =
          after_holder (λ b given_holder. on_store (beats given_holder) >>= answers)
          ∙ bind-ok (on_store (beats holder)) answers (
              on_store_lem (beats holder) w (
                heartbeat-held platform options w.store task_id holder.lease_id holder.runner_id
                  (bearer_token request) h moment.now)) in
        let (reply, store) = told-answer (running_task options moment.now task) _ in
        (ap (λ r. r.0) run ∙ reply, ap (λ r. r.1.store) run ∙ store)

    -- A heartbeat of the lease's holder, in whatever status the task is and whatever the hub does, is
    -- answered with status 200 and the task, which now has the status "running" and the end of the
    -- lease put off to 90 seconds from now. The store has that task, the runner was active now, and
    -- no other task or runner changes.
    pub fetch-beat_held :
        route request ≡ beat task_id
        → (new : TaskRecord) × (t : InMemory) × (without_sockets
              (fetch (in_memory platform) platform link env moment request w)
            ≡ some (json (of_task new) 200, t))
          × IsBeat options moment.now holder.runner_id task new w.store t
    unfolding fetch serve_route
    fetch-beat_held taken = (
      running_task options moment.now task,
      with_task (running_task options moment.now task)
          (with_heartbeat moment.now holder.runner_id runner w.store),
      rw taken (
          answered-told (serve_beat (in_memory platform) platform link env moment request task_id w)
          ∙ ap answered_with (λ i. (beat-served.0 i, beat-served.1 i))),
      running_task-IsBeat options moment.now holder.runner_id runner task w.store,
    )

  module _ {error : Error}
      (r : LeaseRefusal platform w.store task_id holder.lease_id holder.runner_id
        (bearer_token request)
        error) where
    beat-refused :
        serve_beat (in_memory platform) platform link env moment request task_id w ≡ (err error, w)
    unfolding serve_beat
    beat-refused =
        let refused =
          (lease_calls-Refused platform options w.store task_id holder.lease_id holder.runner_id
            (bearer_token request) moment.now moment.later moment.uuid [] no_outcome error r).0 in
        after_holder (λ b h. on_store (beats h) >>= answers)
        ∙ bind-err (on_store (beats holder)) answers (on_store_lem (beats holder) w refused)

    logs-refused :
        (entries_value : Value) (entries : List LogEntry)
        → property "entries" body ≡ ok entries_value
        → entries_given entries_value ≡ ok entries
        → serve_logs (in_memory platform) platform link env moment request task_id w
          ≡ (err error, w)
    unfolding serve_logs
    logs-refused entries_value entries found listed =
        let refused =
          (lease_calls-Refused platform options w.store task_id holder.lease_id holder.runner_id
            (bearer_token request) moment.now moment.later moment.uuid entries no_outcome error
            r).1 in
        after_holder (λ b h. lift (property "entries" b) >>= λ v.
        lift (entries_given v) >>= λ es. on_store (logs es h) >>= λ u. noted)
        ∙ (bind-ok (lift (property "entries" body))
              (λ v. lift (entries_given v) >>= λ es. on_store (logs es holder) >>= λ u. noted)
              (ap (λ q. (q, w)) found)
            ∙ (bind-ok (lift (entries_given entries_value))
                  (λ es. on_store (logs es holder) >>= λ u. noted) (ap (λ q. (q, w)) listed)
                ∙ bind-err (on_store (logs entries holder)) (λ u. noted)
                    (on_store_lem (logs entries holder) w refused)))

    completion-refused :
        (input : CompleteTaskInput)
        → completion_given body ≡ ok input
        → serve_completion (in_memory platform) platform link env moment request task_id w
          ≡ (err error, w)
    unfolding serve_completion
    completion-refused input whole =
        let refused =
          (lease_calls-Refused platform options w.store task_id holder.lease_id holder.runner_id
            (bearer_token request) moment.now moment.later moment.uuid [] input error r).2 in
        after_holder
          (λ b h. lift (completion_given b) >>= λ c. on_store (completes c h) >>= answers)
        ∙ (bind-ok (lift (completion_given body)) (λ c. on_store (completes c holder) >>= answers)
              (ap (λ q. (q, w)) whole)
            ∙ bind-err (on_store (completes input holder)) answers
                (on_store_lem (completes input holder) w refused))

    -- Every report that is refused answers the error and leaves the world as it was.
    report-refused :
        IsReport request task_id body
        → fetch (in_memory platform) platform link env moment request w ≡ answered (err error, w)
    unfolding fetch serve_route
    report-refused (a_beat taken) = rw taken (ap answered beat-refused)
    report-refused (a_log taken entries_value entries found listed) =
        rw taken (ap answered (logs-refused entries_value entries found listed))
    report-refused (a_completion taken input whole) =
        rw taken (ap answered (completion-refused input whole))

  -- A heartbeat, a log upload or a completion whose body could be read is refused if its caller is not
  -- the registered runner (status 401), its task is not there (404) or the task is not held by this
  -- runner under this lease (400). The answer names the error, but for a missing task, and neither
  -- the task store nor the hub changes.
  pub fetch-report_refused :
      (error : Error)
      → LeaseRefusal platform w.store task_id holder.lease_id holder.runner_id
          (bearer_token request)
          error
      → IsReport request task_id body
      → (response : Response) × IsRefusal task_id error response
        × (fetch (in_memory platform) platform link env moment request w ≡ some (response, w))
  fetch-report_refused error (bad_credential h) report =
      (_, no_credential, report-refused (bad_credential h) report)
  fetch-report_refused error (no_task runner h k) report =
      (_, unknown_task, report-refused (no_task runner h k) report)
  fetch-report_refused error (wrong_lease runner h task k l) report =
      (_, not_held, report-refused (wrong_lease runner h task k l) report)
