-- ===== src/Hub/Events.antt =====
-- What an administrator is told (`projectAdminEvent` and `isAdminHubEvent` of
-- `src/worker/runner-hub.ts`).
use task_hub.Shared.{◌≡◌, refl, inl, inr, Bool-cases, true, false, String, arith, ◌==◌, eq_iff}
use task_hub.Types.Json.{Value, undefined, str, get, is_object}
use task_hub.Hub.{project_admin_event, is_text}
use task_hub.Hub.Fetch.{is_admin_hub_event}

-- A field that no event has.
pub record IsForeign (k : String) : Type 0 where
  pub not_type : ("type" == k) ≡ false
  pub not_runner_id : ("runnerId" == k) ≡ false
  pub not_task_id : ("taskId" == k) ≡ false
  pub not_status : ("status" == k) ≡ false
  pub not_online : ("online" == k) ≡ false

-- Whatever value is sent on to the administrators, they see no field of it beside the type, the
-- runner, the task, the status and whether the runner is online.
pub project_admin_event-foreign :
    (event : Value) (k : String) → IsForeign k → get k (project_admin_event event) ≡ undefined
unfolding project_admin_event get
project_admin_event-foreign event k h =
    elim (Bool-cases (is_text "task_changed" (get "type" event))) [
      | inl e ↦ rw (e, h.not_type, h.not_task_id, h.not_runner_id, h.not_status) refl
      | inr e ↦ rw (e, h.not_type, h.not_runner_id, h.not_online) refl
    ]

is_text-not_other :
    (v : Value) → is_text "task_changed" v ≡ true → is_text "runner_presence_changed" v ≡ false
is_text-not_other (str s) h = rw ((eq_iff s "task_changed").0 h) refl
is_text-not_other undefined h = ground (arith, h)
is_text-not_other _ h = ground (arith, h)

-- An event that the hub accepts is accepted as well once it is projected.
pub project_admin_event-accepted :
    (event : Value)
    → is_admin_hub_event event ≡ true
    → is_admin_hub_event (project_admin_event event) ≡ true
unfolding project_admin_event is_admin_hub_event get is_object
project_admin_event-accepted event h =
    elim (Bool-cases (is_text "task_changed" (get "type" event))) [
      | inl e ↦ rw e (ground (arith, h, e, is_text-not_other (get "type" event) e))
      | inr e ↦ rw e (ground (arith, h, e))
    ]
