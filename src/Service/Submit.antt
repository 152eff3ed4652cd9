-- ===== src/Service/Submit.antt =====
-- task-service.ts, `submitTask` up to its look into the store: the tests of the request's body.
pub mod Laws
pub mod Idempotent
use task_hub.Shared.{Bool, true, false, not, ◌||◌, Option, none, some, String, ◌==◌, if◌then◌else◌}
use task_hub.Shared.Int.{ℤ, pos, leb_ℤ}
use task_hub.Types.{TaskType, Error, validation, Result, ok, err}
use task_hub.Types.Json.{
  Value, str, obj, get, is_object, is_plain_object, as_nonempty, as_nonblank, as_integer, optional,
}
use task_hub.Types.Names.{as_task_type}
use task_hub.Platform.{Platform}

-- What the tests let through, with the types that they establish.
pub record Submission : Type 0 where
  pub runner_id : String
  pub type : TaskType
  pub name : String
  pub payload : Value
  pub timeout_seconds : ℤ
  pub priority : Option ℤ
  pub callback_url : Option String
  pub idempotency_key : Option String

infixl 5 ◌>>=◌ ◌>>◌
abbrev pub ◌>>=◌ : {A B : Type 0} → Result A → (A → Result B) → Result B
ok a >>= f = f a
err e >>= f = err e

abbrev pub ◌>>◌ : {B : Type 0} → Result (Unit {0}) → Result B → Result B
m >> k = m >>= λ _. k

-- `if (!test) throw new ValidationError(message);`
abbrev pub require : Bool → String → Result (Unit {0})
require true message = ok tt
require false message = err (validation message)

-- The same for a test that narrows the type.
abbrev pub narrow : {A : Type 0} → Option A → String → Result A
narrow (some a) message = ok a
narrow none message = err (validation message)

-- A positive integer.
unfoldable pub as_positive : Value → Option ℤ
unfolding as_integer
as_positive v = elim (as_integer v) [
  | none ↦ none
  | some n ↦ if leb_ℤ n (pos 0) then none else some n
]

unfoldable pub as_payload : Value → Option Value
unfolding is_plain_object
as_payload v = if is_plain_object v then some v else none

module _ (platform : Platform) where
  -- `isHttpUrl`
  pub is_http_url : String → Bool
  is_http_url text = elim (platform.url_protocol text) [
    | none ↦ false
    | some protocol ↦ protocol == "http:" || protocol == "https:"
  ]

  unfoldable pub as_http_url : Value → Option String
  unfolding is_http_url
  as_http_url (str text) = if is_http_url text then some text else none
  as_http_url _ = none

  unfoldable pub validate_submission : Value → Result Submission
  validate_submission input = do
    require (is_object input) "invalid task submission"
    runner_id ← narrow (as_nonblank (get "runnerId" input)) "runnerId is required"
    type ← narrow (as_task_type (get "type" input)) "invalid task type"
    name ← narrow (as_nonblank (get "name" input)) "task name is required"
    payload ← narrow (as_payload (get "payload" input)) "task payload must be an object"
    timeout_seconds ←
        narrow (as_positive (get "timeoutSeconds" input))
          "timeoutSeconds must be a positive integer"
    priority ← narrow (optional as_integer (get "priority" input)) "priority must be an integer"
    callback_url ←
        narrow (optional as_http_url (get "callbackUrl" input)) "callbackUrl must be an HTTP URL"
    idempotency_key ←
        narrow (optional as_nonempty (get "idempotencyKey" input))
          "idempotencyKey must be a non-empty string"
    ok (record {
      runner_id = runner_id;
      type = type;
      name = name;
      payload = payload;
      timeout_seconds = timeout_seconds;
      priority = priority;
      callback_url = callback_url;
      idempotency_key = idempotency_key;
    })
