-- ===== src/AdminPage/Loads.antt =====
-- What the administration page asks the worker for (`loadPresence`, `loadRunners`, `loadTasks`,
-- `refreshAll`, `connect`, `selectTask` and `runSelfcheck` of `src/worker/admin-page.ts`, up to their
-- first answer).
use Prim.Native.String.{◌++◌}
use task_hub.Shared.{
  ℕ, ◌+◌, Bool, true, false, Option, none, some, List, [], ◌∷◌, String, map, nat_eq, if◌then◌else◌,
}
use task_hub.Shared.Int.{pos}
use task_hub.Shared.Text.{is_empty}
use task_hub.Types.Json.{Value, int, str, obj, no_fields, field}
use task_hub.AdminPage.View.{Browser, loading}
use task_hub.AdminPage.State.{
  State, Request, Awaiting, refresh, presence, runners_page, tasks_page, task_detail, task_logs,
  selfcheck, Caller, connecting, Refresh, Tab, with_state, with_document,
}
use task_hub.AdminPage.Render.{set_connection, render_tasks}
use task_hub.AdminPage.Session.{api, get_request}

unfoldable pub load_presence : Awaiting → Tab → Tab
unfolding api
load_presence awaiting tab =
    api (get_request "/api/admin/presence" []) (presence awaiting tab.state.session_epoch) tab

-- A parameter that is left out if its text is empty.
abbrev pub parameter : String → String → List (String × String) → List (String × String)
parameter name value rest = if is_empty value then rest else (name, value) ∷ rest

abbrev pub runners_request : (cursor : String) → Request
runners_request cursor =
    get_request "/api/admin/runners" (("limit", "100") ∷ parameter "cursor" cursor [])

unfoldable pub load_runners : Awaiting → Tab → Tab
unfolding api
load_runners awaiting tab =
    let s = tab.state in
    let generation : ℕ = s.runner_request_generation + 1 in
    api (runners_request "") (runners_page awaiting generation s.session_epoch [])
      (with_state (record s { runner_request_generation = generation }) tab)

abbrev pub tasks_request : Tab → Request
tasks_request tab =
    let s = tab.state in
    get_request "/api/admin/tasks" (
      ("limit", "50")
      ∷ parameter "runnerId" s.selected_runner_id
          (parameter "status" tab.document.status_filter (parameter "cursor" s.task_cursor [])))

unfoldable pub load_tasks : Awaiting → Tab → Tab
unfolding api
load_tasks awaiting tab =
    let s = tab.state in
    let generation : ℕ = s.task_request_generation + 1 in
    api (tasks_request tab) (tasks_page awaiting generation s.session_epoch)
      (with_state (record s { task_request_generation = generation }) tab)

abbrev pub is_epoch : ℕ → Option ℕ → Bool
is_epoch epoch none = false
is_epoch epoch (some e) = nat_eq e epoch

-- The refresh that a call of `refreshAll` joins: one of this session that has not ended.
unfoldable pub joined_refresh : State → Option ℕ
joined_refresh s = if is_epoch s.session_epoch s.refresh_epoch then s.refresh_promise else none

abbrev pub add_caller : ℕ → Caller → Refresh → Refresh
add_caller id caller r =
    if nat_eq r.refresh_id id then record r { callers = caller ∷ r.callers } else r

unfoldable pub join_refresh : ℕ → Caller → Tab → Tab
join_refresh id caller tab = record tab { refreshes = map (add_caller id caller) tab.refreshes }

unfoldable pub start_refresh : Caller → Tab → Tab
unfolding load_presence load_runners load_tasks
start_refresh caller tab =
    let id = tab.fresh in
    let epoch = tab.state.session_epoch in
    let opened = set_connection false "Refreshing" (record tab { fresh = id + 1 }) in
    let asked =
      load_tasks (refresh id) (load_runners (refresh id) (load_presence (refresh id) opened)) in
    record asked {
      state = record asked.state { refresh_promise = some id; refresh_epoch = some epoch };
      refreshes =
          record { refresh_id = id; epoch = epoch; left = 3; callers = caller ∷ [] }
          ∷ asked.refreshes;
    }

unfoldable pub refresh_all : Caller → Tab → Tab
unfolding joined_refresh join_refresh start_refresh
refresh_all caller tab = elim (joined_refresh tab.state) [
  | some id ↦ join_refresh id caller tab
  | none ↦ start_refresh caller tab
]

unfoldable pub connect : Tab → Tab
unfolding refresh_all
connect tab =
    refresh_all (connecting tab.state.session_epoch tab.state.token)
      (with_document (record tab.document { auth_error = "" }) tab)

module _ (browser : Browser) where
  abbrev pub task_path : (task_id : String) → String
  task_path task_id = "/api/admin/tasks/" ++ browser.encode_uri_component task_id

  unfoldable pub select_task : String → Tab → Tab
  unfolding render_tasks api
  select_task task_id tab =
      let s = tab.state in
      let generation : ℕ = s.detail_request_generation + 1 in
      let id = tab.fresh in
      let drawn = render_tasks browser (record tab {
        state = record s { selected_task_id = task_id; detail_request_generation = generation };
        fresh = id + 1;
        selections = record { selection_id = id; task = none; logs = none } ∷ tab.selections;
      }) in
      api (get_request (task_path task_id ++ "/logs") [])
        (task_logs id generation s.session_epoch task_id)
        (api (get_request (task_path task_id) [])
          (task_detail id generation s.session_epoch task_id)
          (with_document (record drawn.document { detail = loading }) drawn))

abbrev pub selfcheck_body : (runner_id : String) → Value
selfcheck_body runner_id = obj (
    field "runnerId" (str runner_id) (
      field "type" (str "selfcheck") (
        field "name" (str "Console self-check")
          (field "payload" (obj no_fields) (field "timeoutSeconds" (int (pos 60)) no_fields)))))

unfoldable pub run_selfcheck : Tab → Tab
unfolding api
run_selfcheck tab =
    let runner_id = tab.state.selected_runner_id in
    if is_empty runner_id
    then tab
    else api
        (record {
          method = "POST";
          path = "/api/admin/tasks";
          query = [];
          body = selfcheck_body runner_id;
        })
        selfcheck (with_document (record tab.document { selfcheck_disabled = true }) tab)
