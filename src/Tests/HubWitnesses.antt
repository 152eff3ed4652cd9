-- ===== src/Tests/HubWitnesses.antt =====
-- The theorems on the Runner Hub, at a runtime that lists every accepted socket of a tag and on
-- which `send` throws on socket 3.
use task_hub.Shared.{
  ◌≡◌, refl, ◌⊎◌, ◌≢◌, inl, inr, ℕ, Bool, Bool-cases, true, not, some, List, [], ◌∷◌, String, arith,
  filter, any, In, In-filter, filter-In, nat_eq,
}
use task_hub.Types.Json.{Value, undefined, str, obj, field, no_fields, get, is_object}
use task_hub.Security.{equal_units, accumulate}
use task_hub.Security.Compare.{equal_units_iff}
use task_hub.Hub.{
  runner_attachment, Socket, SocketRuntime, runner_role, runner_tag, is_attached_to, update_socket,
  task_available, project_admin_event, send_event, get_runner_web_sockets, notify_task_available,
  accepted,
}
use task_hub.Hub.Fetch.{
  HubRequest, HubEvent, requested, disconnected, perform_all, is_admin_hub_event,
}
use task_hub.Hub.Sole.{ListsByTag, IsSole, perform_all-IsSole}
use task_hub.Hub.Delivery.{notify_task_available-addressed}
use task_hub.Hub.Events.{IsForeign, project_admin_event-foreign}

abbrev has_tag : List ℕ → Socket → Bool
has_tag tag s = any (equal_units tag) s.tags

abbrev pub toy_runtime : SocketRuntime
toy_runtime = record {
  get_web_sockets = λ tag hub. filter (has_tag tag) hub;
  send_works = λ socket_id. not (nat_eq socket_id 3);
}

any-In : (tag : List ℕ) (tags : List (List ℕ)) → any (equal_units tag) tags ≡ true → In tag tags
any-In tag [] h = ground arith
any-In tag (x ∷ xs) h = elim (Bool-cases (equal_units tag x)) [
  | inl e ↦ inl ((equal_units_iff tag x).0 e)
  | inr e ↦ inr (any-In tag xs (rw e at h))
]

In-any : (tag : List ℕ) (tags : List (List ℕ)) → In tag tags → any (equal_units tag) tags ≡ true
In-any tag [] k = elim k [ ]
In-any tag (x ∷ xs) (inl same) = rw ((equal_units_iff tag x).1 same) refl
In-any tag (x ∷ xs) (inr k) = elim (Bool-cases (equal_units tag x)) [
  | inl e ↦ rw e refl
  | inr e ↦ rw e (In-any tag xs k)
]

toy_runtime-ListsByTag : ListsByTag toy_runtime
toy_runtime-ListsByTag = record {
  listed = λ tag hub s k. let (l, e) = In-filter (has_tag tag) s hub k in (l, any-In tag s.tags e);
  lists = λ tag hub s k l is_open. filter-In (has_tag tag) s hub k (In-any tag s.tags l);
}

abbrev connect : String → HubRequest
connect runner_id = record {
  method = "GET";
  path = "/connect";
  upgrade = some "WebSocket";
  role = some "runner";
  runner_id = some runner_id;
  body = undefined;
}

-- The runner connects twice, the old socket closes, then the new one.
abbrev events : List HubEvent
events =
    requested 1 (connect "r1") ∷ requested 2 (connect "r1") ∷ disconnected 1 ∷ disconnected 2 ∷ []

perform_all-IsSole_example : IsSole (perform_all toy_runtime events [])
perform_all-IsSole_example = perform_all-IsSole toy_runtime toy_runtime-ListsByTag events

abbrev socket : ℕ → String → Socket
socket socket_id runner_id =
    accepted socket_id (runner_role ∷ runner_tag runner_id ∷ []) (runner_attachment runner_id)

abbrev two_sockets : List Socket
two_sockets = socket 1 "r1" ∷ socket 2 "r2" ∷ []

abbrev told : Socket
told = record (socket 1 "r1") { sent = task_available "t1" ∷ [] }

told-In : In told (notify_task_available toy_runtime "r1" "t1" two_sockets).1
unfolding notify_task_available get_runner_web_sockets send_event update_socket runner_tag
    equal_units accumulate
told-In = inl refl

notify_task_available-addressed_example :
    (In told two_sockets
      × ((target : Socket)
          → In target (get_runner_web_sockets toy_runtime "r1" two_sockets)
          → target.socket_id ≢ 1))
    ⊎ ((target : Socket) × In target two_sockets
        × (is_attached_to "r1" target ≡ true)
        × (target.socket_id ≡ 1)
        × (toy_runtime.send_works 1 ≡ true → In (task_available "t1") told.sent))
notify_task_available-addressed_example =
    notify_task_available-addressed toy_runtime "r1" "t1" two_sockets told toy_runtime-ListsByTag
      told-In

first_listed : In (socket 1 "r1") (get_runner_web_sockets toy_runtime "r1" two_sockets)
unfolding get_runner_web_sockets runner_tag equal_units accumulate
first_listed = inl refl

-- An event with a field that it should not have.
abbrev changed : Value
changed = obj (
    field "type" (str "task_changed") (
      field "taskId" (str "t1") (
        field "runnerId" (str "r1")
          (field "status" (str "running") (field "payload" (str "secret") no_fields)))))

payload-IsForeign : IsForeign "payload"
payload-IsForeign = record {
  not_type = refl;
  not_runner_id = refl;
  not_task_id = refl;
  not_status = refl;
  not_online = refl;
}

project_admin_event-foreign_example : get "payload" (project_admin_event changed) ≡ undefined
project_admin_event-foreign_example =
    project_admin_event-foreign changed "payload" payload-IsForeign

changed-accepted : is_admin_hub_event changed ≡ true
unfolding is_admin_hub_event is_object get
changed-accepted = refl
