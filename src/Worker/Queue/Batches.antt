-- ===== src/Worker/Queue/Batches.antt =====
-- What becomes of the messages of a batch (`queue` of `src/worker/index.ts`), with the in-memory
-- store.
use Prim.Native.String.{◌++◌}
use mathlib.Core.List.{◌++◌ as append}
use task_hub.Shared.{
  ◌≡◌, refl, sym, ap, ◌∙◌, ℕ, inl, inr, Bool-cases, none, some, List, [], ◌∷◌, All, ◌==◌,
}
use task_hub.Shared.Dict.{lookup, lookup-insert}
use task_hub.Types.{Error, TaskRecord, TaskStatus, pending_runner, Result, ok, err, not_found}
use task_hub.Platform.{Platform}
use task_hub.Action.{Action, bind-ok, bind-err, ◌>>◌}
use task_hub.InMemory.{InMemory}
use task_hub.InMemory.Listing.{in_memory}
use task_hub.Service.{process_queued_task}
use task_hub.Service.Records.{default_options, dispatched}
use task_hub.Service.Runs.{with_task, process-missing, process-found}
use task_hub.Worker.Link.{World, HubLink, on_store, on_store_lem, broadcast_best_effort}
use task_hub.Worker.Link.Alike.{
  IsQuiet, IsQuiet-bind, best_effort-IsQuiet, notify_stub-IsQuiet, broadcast-IsQuiet,
}
use task_hub.Worker.Queue.{Message, notify_pending, handle_message, queue}

-- The message's task is in the store.
abbrev pub IsStored : InMemory → Message → Type 0
IsStored s message = (task : TaskRecord) × (lookup message.task_id s.tasks ≡ some task)

module _ (platform : Platform) where
  abbrev process : Message → Action InMemory TaskRecord
  process message =
      process_queued_task (in_memory platform) platform default_options message.now message.task_id

  -- `processQueuedTask` for each message in turn.
  abbrev pub processed : List Message → InMemory → InMemory
  processed [] s = s
  processed (message ∷ messages) s = processed messages (process message s).1

  process-IsStored :
      (s : InMemory) (message other : Message)
      → IsStored s message
      → IsStored s other
      → IsStored
          (process_queued_task
            (in_memory platform)
            platform
            default_options
            message.now
            message.task_id
            s).1
          other
  process-IsStored s message other (task, e) (task', e') =
      let new = dispatched message.now (lookup task.runner_id s.runners) task in
      rw (process-found platform default_options s message.now message.task_id e)
        (elim (Bool-cases (new.task_id == other.task_id)) [
          | inl same ↦ (new, lookup-insert new.task_id _ new s.tasks ∙ rw same refl)
          | inr differs ↦ (task', lookup-insert new.task_id _ new s.tasks ∙ rw differs e')
        ])

  process-All :
      (s : InMemory) (message : Message) (others : List Message)
      → IsStored s message
      → All (IsStored s) others
      → All (IsStored (process message s).1) others
  process-All s message [] h k = tt
  process-All s message (other ∷ others) h (k, ks) =
      (process-IsStored s message other h k, process-All s message others h ks)

  module _ (link : HubLink) (socket_id : ℕ) where
    notify_pending-IsQuiet :
        (status : TaskStatus) (task : TaskRecord)
        → IsQuiet (notify_pending (in_memory platform) platform link socket_id status task)
    notify_pending-IsQuiet pending_runner task =
        best_effort-IsQuiet
          (notify_stub-IsQuiet platform link socket_id task.runner_id task.task_id)
    notify_pending-IsQuiet status task = record { quiet = λ w. refl }

    notify_pending-ok :
        (status : TaskStatus) (task : TaskRecord) (w : World InMemory)
        → (notify_pending (in_memory platform) platform link socket_id status task w).0 ≡ ok tt
    notify_pending-ok pending_runner task w = refl
    notify_pending-ok status task w = refl

    abbrev told : TaskRecord → Action (World InMemory) (Unit {0})
    told task = do
      notify_pending (in_memory platform) platform link socket_id task.status task
      broadcast_best_effort platform link socket_id task

    told-ok : (task : TaskRecord) (w : World InMemory) → (told task w).0 ≡ ok tt
    unfolding broadcast_best_effort
    told-ok task w =
        let notify = notify_pending (in_memory platform) platform link socket_id task.status task in
        ap (λ (r : Result (Unit {0}) × World InMemory). r.0)
          (bind-ok notify (λ u. broadcast_best_effort platform link socket_id task)
            (ap (λ r. (r, (notify w).1)) (notify_pending-ok task.status task w)))

    told-IsQuiet : (task : TaskRecord) → IsQuiet (told task)
    told-IsQuiet task =
        IsQuiet-bind (notify_pending-IsQuiet task.status task)
          (λ u. broadcast-IsQuiet platform link socket_id task)

    -- A message of a stored task is handled, whatever the hub does.
    handle_message-stored :
        (message : Message) (w : World InMemory)
        → IsStored w.store message
        → ((handle_message (in_memory platform) platform link socket_id message w).0 ≡ ok tt)
          × ((handle_message (in_memory platform) platform link socket_id message w).1.store
              ≡ (process message w.store).1)
    unfolding handle_message
    handle_message-stored message w (task, e) =
        let new = dispatched message.now (lookup task.runner_id w.store.runners) task in
        let found = process-found platform default_options w.store message.now message.task_id e in
        let w₁ : World InMemory = record w { store = with_task new w.store } in
        let handled =
          bind-ok (on_store (process message)) told (on_store_lem (process message) w found) in
        (
          ap (λ r. r.0) handled ∙ told-ok new w₁,
          ap (λ r. r.1.store) handled ∙ ((told-IsQuiet new).quiet w₁ ∙ sym (ap (λ r. r.1) found)),
        )

    handle_message-missing :
        (message : Message) (w : World InMemory)
        → lookup message.task_id w.store.tasks ≡ none
        → handle_message (in_memory platform) platform link socket_id message w
          ≡ (err (not_found ("task " ++ message.task_id ++ " not found")), w)
    unfolding handle_message
    handle_message-missing message w e = bind-err (on_store (process message)) told (
        on_store_lem (process message) w
          (process-missing platform default_options w.store message.now message.task_id e))

    abbrev consume :
        List Message → World InMemory → (List Message × Result (Unit {0})) × World InMemory
    consume = queue (in_memory platform) platform link socket_id

    queue-handled :
        (first : Message) (messages : List Message) (w : World InMemory)
        → let w' = (handle_message (in_memory platform) platform link socket_id first w).1 in
          (handle_message (in_memory platform) platform link socket_id first w).0 ≡ ok tt
          → consume (first ∷ messages) w ≡ (
            (first ∷ (consume messages w').0.0, (consume messages w').0.1),
            (consume messages w').1,
          )
    unfolding queue
    queue-handled first messages w done = rw (queue, done) refl

    queue-failed :
        (first : Message) (messages : List Message) (w : World InMemory) (error : Error)
        → handle_message (in_memory platform) platform link socket_id first w ≡ (err error, w)
        → consume (first ∷ messages) w ≡ (([], err error), w)
    unfolding queue
    queue-failed first messages w error e =
        rw (queue, ap (λ r. r.0) e) (ap (λ u. (([], err error), u)) (ap (λ r. r.1) e))

    -- The messages at the head of a batch whose tasks are stored are acknowledged in order, whatever
    -- the hub does, and the store is what `processQueuedTask` makes of it for each in turn. At the
    -- first message whose task is not in the store the batch ends with the error: that message and
    -- those after it are not acknowledged, and write nothing.
    pub queue_until :
        (before : List Message) (message : Message) (after : List Message) (w : World InMemory)
        → All (IsStored w.store) before
        → lookup message.task_id (processed before w.store).tasks ≡ none
        → ((consume (append before (message ∷ after)) w).0
            ≡ (before, err (not_found ("task " ++ message.task_id ++ " not found"))))
          × ((consume (append before (message ∷ after)) w).1.store ≡ processed before w.store)
    queue_until [] message after w h e =
        rw (queue-failed message after w _ (handle_message-missing message w e)) (refl, refl)
    queue_until (first ∷ before) message after w (h, hs) e =
        let (done, store) = handle_message-stored first w h in
        let w' = (handle_message (in_memory platform) platform link socket_id first w).1 in
        let rest =
          queue_until before message after w' (rw store (process-All w.store first before h hs))
            (rw store e) in
        rw (queue-handled first (append before (message ∷ after)) w done)
          (ap (λ p. (first ∷ p.0, p.1)) rest.0, rest.1 ∙ ap (processed before) store)

    -- A batch of which every message's task is stored is acknowledged whole, whatever the hub does,
    -- and the store is then what `processQueuedTask` makes of it for each message in turn.
    pub queue_whole :
        (messages : List Message) (w : World InMemory)
        → All (IsStored w.store) messages
        → ((consume messages w).0 ≡ (messages, ok tt))
          × ((consume messages w).1.store ≡ processed messages w.store)
    unfolding queue
    queue_whole [] w h = (refl, refl)
    queue_whole (first ∷ messages) w (h, hs) =
        let (done, store) = handle_message-stored first w h in
        let w' = (handle_message (in_memory platform) platform link socket_id first w).1 in
        let rest = queue_whole messages w' (rw store (process-All w.store first messages h hs)) in
        rw (queue-handled first messages w done)
          (ap (λ p. (first ∷ p.0, p.1)) rest.0, rest.1 ∙ ap (processed messages) store)
