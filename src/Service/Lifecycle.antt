-- ===== src/Service/Lifecycle.antt =====
-- Runs of the service: any sequence of calls of its operations over the in-memory store, with the
-- clocks, the random ids and the arguments of each call.
use Prim.Native.String.{◌++◌}
use task_hub.Shared.{◌≡◌, none, List, Option, String}
use task_hub.Shared.Dict.{lookup}
use task_hub.Types.{Instant, CompleteTaskInput, LogEntry}
use task_hub.Types.Json.{Value}
use task_hub.Platform.{Platform}
use task_hub.InMemory.{InMemory, empty_store}
use task_hub.InMemory.Listing.{in_memory}
use task_hub.Service.{
  register_runner, submit_task, process_queued_task, claim_task, heartbeat, append_logs,
  complete_task,
}
use task_hub.Service.Records.{ServiceOptions}
use task_hub.Service.Changes.{Changes, IsKeyed}
use task_hub.Service.Keeps.{Keeps, Changes-Keeps, SameSubmission-trans, SameSubmission-refl}
use task_hub.Service.Invariant.{IsConsistent, Changes-IsConsistent}
use task_hub.Service.Steps.{
  register_runner-Changes, submit_task-Changes, process_queued_task-Changes, claim_task-Changes,
}
use task_hub.Service.LeaseSteps.{
  NamesLease, heartbeat-Changes, append_logs-Changes, complete_task-Changes,
}

-- A call of an operation that can write.
pub data Call : Type 0 where
  register : (now : Instant) (uuid : String) (input : Value) → Call
  submit : (now : Instant) (uuid : String) (input : Value) → Call
  process : (now : Instant) (task_id : String) → Call
  claim : (now : Instant) (uuid runner_id credential : String) → Call
  beat :
      (now : Instant) (task_id : String) (lease_id : Option String) (runner_id credential : String)
      → Call
  log :
      (task_id : String) (lease_id : Option String) (runner_id credential : String)
      (entries : List LogEntry)
      → Call
  complete :
      (now later : Instant) (uuid task_id : String) (lease_id : Option String)
      (runner_id credential : String) (input : CompleteTaskInput)
      → Call

-- `randomUUID` gives a submission an id that no task has, and a completion that names no lease does
-- not make the task leased.
abbrev pub IsProper : Call → InMemory → Type 0
IsProper (submit now uuid input) s = lookup ("task_" ++ uuid) s.tasks ≡ none
IsProper (complete now later uuid task_id lease_id runner_id credential input) s =
    NamesLease lease_id input
IsProper _ s = Unit

module _ (platform : Platform) (options : ServiceOptions) where
  -- The store that a call leaves, whether it returns or throws.
  unfoldable pub perform : Call → InMemory → InMemory
  perform (register now uuid input) s =
      (register_runner (in_memory platform) platform options now uuid input s).1
  perform (submit now uuid input) s =
      (submit_task (in_memory platform) platform options now uuid input s).1
  perform (process now task_id) s =
      (process_queued_task (in_memory platform) platform options now task_id s).1
  perform (claim now uuid runner_id credential) s =
      (claim_task (in_memory platform) platform options now uuid runner_id credential s).1
  perform (beat now task_id lease_id runner_id credential) s =
      (heartbeat (in_memory platform) platform options now task_id lease_id runner_id credential
        s).1
  perform (log task_id lease_id runner_id credential entries) s =
      (append_logs (in_memory platform) platform options task_id lease_id runner_id credential
        entries s).1
  perform (complete now later uuid task_id lease_id runner_id credential input) s =
      (complete_task (in_memory platform) platform options now later uuid task_id lease_id runner_id
        credential input s).1

  perform-Changes : (c : Call) (s : InMemory) → IsKeyed s → IsProper c s → Changes s (perform c s)
  unfolding perform
  perform-Changes (register now uuid input) s h f =
      register_runner-Changes platform options now uuid input s
  perform-Changes (submit now uuid input) s h f =
      submit_task-Changes platform options now uuid input s f
  perform-Changes (process now task_id) s h f =
      process_queued_task-Changes platform options now task_id s h
  perform-Changes (claim now uuid runner_id credential) s h f =
      claim_task-Changes platform options now uuid runner_id credential s h
  perform-Changes (beat now task_id lease_id runner_id credential) s h f =
      heartbeat-Changes platform options s task_id lease_id runner_id credential now h
  perform-Changes (log task_id lease_id runner_id credential entries) s h f =
      append_logs-Changes platform options s task_id lease_id runner_id credential entries
  perform-Changes (complete now later uuid task_id lease_id runner_id credential input) s h f =
      complete_task-Changes platform options s task_id lease_id runner_id credential now later uuid
        input f h

  -- The stores that a sequence of calls can reach from `s`.
  pub data Reach (s : InMemory) : InMemory → Type 0 where
    here : Reach s s
    next : {t u : InMemory} → Reach s t → (c : Call) → IsProper c t → u ≡ perform c t → Reach s u

  Reach-IsConsistent_from : {s t : InMemory} → Reach s t → IsConsistent s → IsConsistent t
  Reach-IsConsistent_from here h = h
  Reach-IsConsistent_from (next {t} r c fresh e) h =
      let before : IsConsistent t = Reach-IsConsistent_from r h in
      rw e (Changes-IsConsistent t (perform c t) (perform-Changes c t before.keyed fresh) before)

  empty-IsConsistent : IsConsistent empty_store
  empty-IsConsistent = record {
    keyed = record { runners = tt; tasks = tt };
    leases = λ task i. elim i [ ];
    queue = λ id i. elim i [ ];
    logs = λ batch i. elim i [ ];
    deliveries = λ delivery i. elim i [ ];
    keys = λ a b key i j. elim i [ ];
  }

  -- Whatever registrations, submissions, consumer's calls, claims, heartbeats, log uploads and
  -- completions are made from the empty store, in whatever order and with whatever clocks and
  -- arguments, a missing lease id too, if each submission gets a new id and no completion without a
  -- lease id has the status "leased": the store is consistent. Records stand under their own ids, a
  -- leased task names its lease, the queue, the logs and the deliveries speak of tasks that are
  -- there, and no two tasks share an idempotency key.
  pub Reach-IsConsistent : (s : InMemory) → Reach empty_store s → IsConsistent s
  Reach-IsConsistent s r = Reach-IsConsistent_from r empty-IsConsistent

  -- From a consistent store, no sequence of these calls, under the same two conditions, loses a task
  -- or changes what was submitted of it:
  -- its id, runner, type, name, payload, timeout, priority, callback, idempotency key and creation.
  pub Reach-Keeps : (s t : InMemory) → IsConsistent s → Reach s t → Keeps s t
  Reach-Keeps s t h here id task e = (task, e, SameSubmission-refl task)
  Reach-Keeps s t h (next {t = m} r c fresh same) id task e =
      let (middle, found, kept) = Reach-Keeps s m h r id task e in
      let (later, found', kept') =
        Changes-Keeps m (perform c m)
          (perform-Changes c m (Reach-IsConsistent_from r h).keyed fresh) id middle found in
      (later, rw same found', SameSubmission-trans task middle later kept kept')
