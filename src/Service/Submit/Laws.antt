-- ===== src/Service/Submit/Laws.antt =====
-- The tests of `submitTask` on the request's body: what they establish, and what passes them.
use task_hub.Shared.{
  ◌≡◌, refl, ◌⊎◌, inl, inr, true, false, Option, none, some, String, arith, eq_iff, Option-cases,
}
use task_hub.Shared.Int.{ℤ, pos, ◌≤ℤ◌}
use task_hub.Shared.Text.{is_empty, trim}
use task_hub.Types.{ok}
use task_hub.Types.Json.{
  Value, undefined, int, str, obj, field, no_fields, get, is_object, is_plain_object, as_nonempty,
  as_nonblank, as_integer, optional,
}
use task_hub.Types.Names.{type_name, as_task_type, task_type_of-type_name}
use task_hub.Platform.{Platform}
use task_hub.Service.Submit.{
  Submission, as_positive, as_payload, is_http_url, as_http_url, validate_submission,
}

abbrev IsNonblank : String → Type 0
IsNonblank s = is_empty (trim s) ≡ false

-- A value that is missing, or has the property.
abbrev pub IfGiven : {A : Type 0} → (A → Type 0) → Option A → Type 0
IfGiven P none = Unit
IfGiven P (some a) = P a

abbrev pub given : {A : Type 0} → (A → Value) → Option A → Value
given f none = undefined
given f (some a) = f a

-- The body of a request that asks for a submission.
abbrev pub request_body : Submission → Value
request_body submission = obj (
    field "runnerId" (str submission.runner_id) (
      field "type" (str (type_name submission.type)) (
        field "name" (str submission.name) (
          field "payload" submission.payload (
            field "timeoutSeconds" (int submission.timeout_seconds) (
              field "priority" (given int submission.priority) (
                field "callbackUrl" (given str submission.callback_url)
                  (field "idempotencyKey" (given str submission.idempotency_key) no_fields))))))))

module _ (platform : Platform) where
  -- What the service promises of an accepted submission.
  pub record IsSubmittable (submission : Submission) : Type 0 where
    pub runner_id : IsNonblank submission.runner_id
    pub name : IsNonblank submission.name
    pub payload : is_plain_object submission.payload ≡ true
    pub timeout_seconds : pos 1 ≤ℤ submission.timeout_seconds
    pub callback_url :
        IfGiven
          (λ url.
            (platform.url_protocol url ≡ some "http:")
            ⊎ (platform.url_protocol url ≡ some "https:"))
          submission.callback_url
    pub idempotency_key : IfGiven (λ key. is_empty key ≡ false) submission.idempotency_key

  is_http_url-protocol :
      (url : String)
      → is_http_url platform url ≡ true
      → (platform.url_protocol url ≡ some "http:") ⊎ (platform.url_protocol url ≡ some "https:")
  unfolding is_http_url
  is_http_url-protocol url h = elim (Option-cases (platform.url_protocol url)) [
    | inl e ↦ ground arith
    | inr (protocol, e) ↦ ground (arith, eq_iff protocol "http:", eq_iff protocol "https:")
  ]

  protocol-is_http_url :
      (url : String)
      → (platform.url_protocol url ≡ some "http:") ⊎ (platform.url_protocol url ≡ some "https:")
      → is_http_url platform url ≡ true
  unfolding is_http_url
  protocol-is_http_url url (inl e) = ground arith
  protocol-is_http_url url (inr e) = ground arith

  nonblank_lem : (v : Value) (s : String) → as_nonblank v ≡ some s → IsNonblank s
  unfolding as_nonblank
  nonblank_lem v s h = ground arith

  payload_lem : (v w : Value) → as_payload v ≡ some w → is_plain_object w ≡ true
  unfolding as_payload
  payload_lem v w h = ground arith

  positive_lem : (v : Value) (n : ℤ) → as_positive v ≡ some n → pos 1 ≤ℤ n
  unfolding as_positive
  positive_lem v n h = ground arith

  url_lem :
      (v : Value) (url : Option String)
      → optional (as_http_url platform) v ≡ some url
      → IfGiven
          (λ u.
            (platform.url_protocol u ≡ some "http:") ⊎ (platform.url_protocol u ≡ some "https:"))
          url
  unfolding optional as_http_url
  url_lem v none h = tt
  url_lem v (some url) h = is_http_url-protocol url (ground arith)

  key_lem :
      (v : Value) (key : Option String)
      → optional as_nonempty v ≡ some key
      → IfGiven (λ k. is_empty k ≡ false) key
  unfolding optional as_nonempty
  key_lem v none h = tt
  key_lem v (some key) h = ground arith

  -- A submission that passed has been read off the body's fields, each by its test.
  pub record ReadFrom (input : Value) (submission : Submission) : Type 0 where
    pub runner_id : as_nonblank (get "runnerId" input) ≡ some submission.runner_id
    pub type : as_task_type (get "type" input) ≡ some submission.type
    pub name : as_nonblank (get "name" input) ≡ some submission.name
    pub payload : as_payload (get "payload" input) ≡ some submission.payload
    pub timeout_seconds : as_positive (get "timeoutSeconds" input) ≡ some submission.timeout_seconds
    pub priority : optional as_integer (get "priority" input) ≡ some submission.priority
    pub callback_url :
        optional (as_http_url platform) (get "callbackUrl" input) ≡ some submission.callback_url
    pub idempotency_key :
        optional as_nonempty (get "idempotencyKey" input) ≡ some submission.idempotency_key

  pub validate_submission-ReadFrom :
      (input : Value) (submission : Submission)
      → validate_submission platform input ≡ ok submission
      → ReadFrom input submission
  unfolding validate_submission
  validate_submission-ReadFrom input submission h = record {
    runner_id = ground arith;
    type = ground arith;
    name = ground arith;
    payload = ground arith;
    timeout_seconds = ground arith;
    priority = ground arith;
    callback_url = ground arith;
    idempotency_key = ground arith;
  }

  -- A body that passes the tests gives a submission that is as promised.
  pub validate_submission_sound :
      (input : Value) (submission : Submission)
      → validate_submission platform input ≡ ok submission
      → IsSubmittable submission
  validate_submission_sound input submission h =
      let reads = validate_submission-ReadFrom input submission h in
      record {
        runner_id = nonblank_lem (get "runnerId" input) submission.runner_id reads.runner_id;
        name = nonblank_lem (get "name" input) submission.name reads.name;
        payload = payload_lem (get "payload" input) submission.payload reads.payload;
        timeout_seconds =
            positive_lem (get "timeoutSeconds" input) submission.timeout_seconds
              reads.timeout_seconds;
        callback_url = url_lem (get "callbackUrl" input) submission.callback_url reads.callback_url;
        idempotency_key =
            key_lem (get "idempotencyKey" input) submission.idempotency_key reads.idempotency_key;
      }

  ReadFrom-validate_submission :
      (input : Value) (submission : Submission)
      → is_object input ≡ true
      → ReadFrom input submission
      → validate_submission platform input ≡ ok submission
  unfolding validate_submission
  ReadFrom-validate_submission input submission o r = ground (
    arith, r.runner_id, r.type, r.name, r.payload, r.timeout_seconds, r.priority, r.callback_url,
    r.idempotency_key,
  )

  given_url :
      (url : Option String)
      → IfGiven
          (λ u.
            (platform.url_protocol u ≡ some "http:") ⊎ (platform.url_protocol u ≡ some "https:"))
          url
      → optional (as_http_url platform) (given str url) ≡ some url
  unfolding optional as_http_url
  given_url none h = refl
  given_url (some url) h = ground (arith, protocol-is_http_url url h)

  given_key :
      (key : Option String)
      → IfGiven (λ k. is_empty k ≡ false) key
      → optional as_nonempty (given str key) ≡ some key
  unfolding optional as_nonempty
  given_key none h = refl
  given_key (some key) h = ground arith

  given_int : (n : Option ℤ) → optional as_integer (given int n) ≡ some n
  unfolding optional as_integer
  given_int none = refl
  given_int (some n) = refl

  -- The body that spells out a submission which is as promised passes the tests, and gives it back.
  pub validate_submission-request_body :
      (submission : Submission)
      → IsSubmittable submission
      → validate_submission platform (request_body submission) ≡ ok submission
  unfolding get is_object as_nonblank as_task_type as_payload as_positive
  validate_submission-request_body submission h =
      ReadFrom-validate_submission (request_body submission) submission refl (record {
        runner_id = ground (arith, h.runner_id);
        type = task_type_of-type_name submission.type;
        name = ground (arith, h.name);
        payload = ground (arith, h.payload);
        timeout_seconds = ground (arith, h.timeout_seconds);
        priority = given_int submission.priority;
        callback_url = given_url submission.callback_url h.callback_url;
        idempotency_key = given_key submission.idempotency_key h.idempotency_key;
      })
