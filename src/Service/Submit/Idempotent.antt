-- ===== src/Service/Submit/Idempotent.antt =====
-- A submission that is repeated with its idempotency key gives the task of the first.
use Prim.Native.String.{◌++◌}
use mathlib.Core.List.{◌++◌ as append}
use task_hub.Shared.{
  ◌≡◌, refl, inl, inr, Bool, true, none, some, List, [], ◌∷◌, String, arith, filter, head?,
  Bool-cases, Option-cases, ==-refl,
}
use task_hub.Shared.Dict.{lookup, values, values-insert_new}
use task_hub.Types.{Instant, TaskRecord, ok}
use task_hub.Types.Json.{Value}
use task_hub.Platform.{Platform}
use task_hub.InMemory.{InMemory, has_key}
use task_hub.InMemory.Listing.{in_memory}
use task_hub.Service.{submit_task, submit_checked}
use task_hub.Service.Submit.{Submission, validate_submission}
use task_hub.Service.Records.{ServiceOptions, queued_task}
use task_hub.Service.Runs.{submit_checked-new, submit_checked-old, with_new_task}

-- The last element that passes is the first, where none before it does.
head-filter-append :
    {A : Type 0} (p : A → Bool) (xs : List A) (x : A)
    → head? (filter p xs) ≡ none
    → p x ≡ true
    → head? (filter p (append xs (x ∷ []))) ≡ some x
head-filter-append p [] x h e = rw e refl
head-filter-append p (y ∷ ys) x h e = elim (Bool-cases (p y)) [
  | inl f ↦ cc (rw f at h)
  | inr f ↦ rw f (head-filter-append p ys x (rw f at h) e)
]

has_key_of :
    (key : String) (task : TaskRecord) → task.idempotency_key ≡ some key → has_key key task ≡ true
has_key_of key task e = ground (arith, ==-refl key)

module _ (platform : Platform) (options : ServiceOptions) where
  submit_task-checked :
      (now : Instant) (uuid : String) (input : Value) {submission : Submission} (s : InMemory)
      → validate_submission platform input ≡ ok submission
      → submit_task (in_memory platform) platform options now uuid input s
        ≡ submit_checked (in_memory platform) platform options now uuid submission s
  unfolding submit_task
  submit_task-checked now uuid input s e = rw e refl

  -- Once a key's task is in the store, every submission with the key answers it and writes nothing.
  first_then :
      (now : Instant) (uuid : String) (submission : Submission) (s : InMemory) {key : String}
      → submission.idempotency_key ≡ some key
      → lookup ("task_" ++ uuid) s.tasks ≡ none
      → (task : TaskRecord) × (s' : InMemory) × (submit_checked
            (in_memory platform)
            platform
            options
            now
            uuid
            submission
            s
          ≡ (ok task, s'))
        × (head? (filter (has_key key) (values s'.tasks)) ≡ some task)
  first_then now uuid submission s {key} e fresh =
      elim (Option-cases (head? (filter (has_key key) (values s.tasks)))) [
        | inr (task, f) ↦
            (task, s, submit_checked-old platform options s now uuid submission e f, f)
        | inl f ↦
            let new = queued_task now uuid submission in
            (
              new,
              with_new_task new s,
              submit_checked-new platform options s now uuid submission e f,
              rw (values-insert_new ("task_" ++ uuid) new s.tasks fresh)
                  (head-filter-append (has_key key) (values s.tasks) new f (has_key_of key new e)),
            )
      ]

  -- An accepted body with an idempotency key can be sent again at any later time, with any other
  -- random id: both calls return the same task, and the second leaves the store as the first did.
  pub submit_task_idempotent :
      (now now' : Instant) (uuid uuid' : String) (input : Value) (submission : Submission)
      (s : InMemory) (key : String)
      → validate_submission platform input ≡ ok submission
      → submission.idempotency_key ≡ some key
      → lookup ("task_" ++ uuid) s.tasks ≡ none
      → (task : TaskRecord) × (s' : InMemory) × (submit_task
            (in_memory platform)
            platform
            options
            now
            uuid
            input
            s
          ≡ (ok task, s'))
        × (submit_task (in_memory platform) platform options now' uuid' input s' ≡ (ok task, s'))
  submit_task_idempotent now now' uuid uuid' input submission s key e f fresh =
      let (task, s', first, there) = first_then now uuid submission s f fresh in
      (
        task,
        s',
        rw (submit_task-checked now uuid input s e) first,
        rw (submit_task-checked now' uuid' input s' e)
            (submit_checked-old platform options s' now' uuid' submission f there),
      )
