-- ===== src/AdminPage/Realtime.antt =====
-- The answers to the administration page's requests, and the events of its socket
-- (`runSelfcheck`, `connectRealtime`, `api` and `handleRealtimeEvent` of `src/worker/admin-page.ts`).
use task_hub.Shared.{
  ℕ, ◌+◌, Bool, true, false, Option, none, some, List, [], ◌∷◌, ◌||◌, ◌&&◌, not, String, map,
  filter, leb, nat_eq, ◌==◌, if◌then◌else◌,
}
use task_hub.Shared.Text.{is_empty}
use task_hub.Types.Json.{Value, str, get}
use task_hub.AdminPage.View.{Browser, is_truthy}
use task_hub.AdminPage.State.{
  selfcheck_listing, unheeded, Continuation, presence, runners_page, tasks_page, task_detail,
  task_logs, selfcheck, events_ticket, Call, Tab, with_state, with_document,
}
use task_hub.AdminPage.Render.{render_runners, has}
use task_hub.AdminPage.Session.{sign_out, schedule_reconnect}
use task_hub.AdminPage.Loads.{load_tasks, load_runners, select_task}
use task_hub.AdminPage.Settle.{
  Body, error_body, ticket_body, Outcome, returned, threw, type_error, end_selfcheck,
  resume_presence, resume_runners, resume_tasks, resume_selection,
}

unfoldable pub resume_selfcheck : Outcome → Tab → Tab
unfolding load_tasks
resume_selfcheck (threw message) tab = end_selfcheck (some message) tab
resume_selfcheck (returned body) tab =
    load_tasks selfcheck_listing (with_state (record tab.state { task_cursor = "" }) tab)

-- `catch` of `connectRealtime`.
abbrev pub realtime_failed : (epoch : ℕ) → (message : String) → Tab → Tab
realtime_failed epoch message tab =
    if nat_eq epoch tab.state.session_epoch && not (message == "unauthorized")
    then schedule_reconnect tab
    else tab

-- `new WebSocket(...)`
unfoldable pub open_socket : (epoch : ℕ) → Tab → Tab
open_socket epoch tab = record tab {
  state = record tab.state { socket = some tab.fresh };
  sockets =
      record { socket_id = tab.fresh; epoch = epoch; is_closing = false; is_heard = true }
      ∷ tab.sockets;
  fresh = tab.fresh + 1;
}

-- The calls that are left when the one of a number has ended.
abbrev pub remove_call : ℕ → List Call → List Call
remove_call id [] = []
remove_call id (c ∷ calls) = if nat_eq c.call_id id then calls else c ∷ remove_call id calls

abbrev pub without_call : Call → Tab → Tab
without_call call tab = record tab { calls = remove_call call.call_id tab.calls }

abbrev pub reject : Tab → Tab
reject tab =
    with_document (record tab.document { auth_error = "The admin token was rejected." }) tab

-- `api` on an answer with the status 401, before it throws.
abbrev pub rejected : Call → Tab → Tab
rejected call tab =
    if nat_eq call.request_epoch tab.state.session_epoch && call.request_token == tab.state.token
    then reject (sign_out tab)
    else tab

abbrev pub mark_response : Call → Bool → Call → Call
mark_response call is_ok c =
    if nat_eq c.call_id call.call_id then record c { response_ok = some is_ok } else c

-- `body.error || "Request failed"`
abbrev pub failure_message : Body → String
failure_message (error_body (some message)) = if is_empty message then "Request failed" else message
failure_message _ = "Request failed"

abbrev pub outcome_of : Bool → Body → Outcome
outcome_of true body = returned body
outcome_of false body = threw (failure_message body)

abbrev pub with_online : String → Bool → List String → List String
with_online runner_id true ids = if has runner_id ids then ids else runner_id ∷ ids
with_online runner_id false ids = filter (λ i. not (i == runner_id)) ids

abbrev pub presence_told : String → Bool → Tab → Tab
presence_told runner_id online tab =
    let s = tab.state in
    render_runners (
      with_state
        (record s {
          online_runner_ids = with_online runner_id online s.online_runner_ids;
          presence_loaded = true;
        })
        tab)

module _ (browser : Browser) where
  abbrev pub ticket_issued : (epoch : ℕ) → (ticket : String) → Tab → Tab
  ticket_issued epoch ticket tab =
      if not (nat_eq epoch tab.state.session_epoch) || tab.document.is_hidden
      then tab
      else elim tab.state.socket [
        | some id ↦ tab
        | none ↦
            if browser.is_protocol ticket
            then open_socket epoch tab
            else realtime_failed epoch "SyntaxError" tab
      ]

  unfoldable pub resume_ticket : (epoch : ℕ) → Outcome → Tab → Tab
  unfolding open_socket schedule_reconnect
  resume_ticket epoch (threw message) tab = realtime_failed epoch message tab
  resume_ticket epoch (returned (ticket_body ticket)) tab = ticket_issued epoch ticket tab
  resume_ticket epoch (returned _) tab = realtime_failed epoch type_error tab

  -- What follows `await api(...)`, in each function that calls it.
  unfoldable pub resume : Continuation → Outcome → Tab → Tab
  unfolding resume_selfcheck resume_ticket resume_presence resume_runners resume_tasks
      resume_selection
  resume (presence awaiting epoch) = resume_presence awaiting epoch
  resume (runners_page awaiting generation epoch before) =
      resume_runners awaiting generation epoch before
  resume (tasks_page awaiting generation epoch) = resume_tasks browser awaiting generation epoch
  resume (task_detail selection generation epoch task_id) =
      resume_selection browser selection generation epoch task_id
  resume (task_logs selection generation epoch task_id) =
      resume_selection browser selection generation epoch task_id
  resume selfcheck = resume_selfcheck
  resume (events_ticket epoch) = resume_ticket epoch

  -- `fetch` of `api` returned a response with a status.
  unfoldable pub response_arrived : (status : ℕ) → Call → Tab → Tab
  unfolding resume sign_out
  response_arrived status call tab =
      if nat_eq status 401
      then resume call.continuation (threw "unauthorized") (rejected call (without_call call tab))
      else record tab {
        calls = map (mark_response call (leb 200 status && leb status 299)) tab.calls;
      }

  -- `fetch` of `api`, or `response.json()`, threw.
  unfoldable pub request_failed : (message : String) → Call → Tab → Tab
  unfolding resume
  request_failed message call tab = resume call.continuation (threw message) (without_call call tab)

  -- `response.json()` of `api` returned a body.
  unfoldable pub body_arrived : Body → Call → Tab → Tab
  unfolding resume
  body_arrived body call tab = elim call.response_ok [
    | none ↦ tab
    | some is_ok ↦ resume call.continuation (outcome_of is_ok body) (without_call call tab)
  ]

  abbrev pub task_told : String → Tab → Tab
  task_told task_id tab =
      let asked = load_tasks unheeded (load_runners unheeded tab) in
      if task_id == asked.state.selected_task_id then select_task browser task_id asked else asked

  abbrev pub told_task : (type : String) → (task_id : Value) → Tab → Tab
  told_task type (str task_id) tab = if type == "task_changed" then task_told task_id tab else tab
  told_task type _ tab = tab

  abbrev pub event_told : (type runner_id task_id : Value) → (online : Bool) → Tab → Tab
  event_told (str type) (str runner_id) task_id online tab =
      if type == "runner_presence_changed"
      then presence_told runner_id online tab
      else told_task type task_id tab
  event_told (str type) _ task_id online tab = told_task type task_id tab
  event_told _ runner_id task_id online tab = tab

  -- `handleRealtimeEvent`: the message is `none` where `JSON.parse` throws.
  unfoldable pub handle_realtime_event : Option Value → Tab → Tab
  unfolding render_runners load_tasks load_runners select_task get
  handle_realtime_event none tab = tab
  handle_realtime_event (some event) tab =
      event_told (get "type" event) (get "runnerId" event) (get "taskId" event)
        (is_truthy (get "online" event)) tab
