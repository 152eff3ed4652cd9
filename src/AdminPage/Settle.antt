-- ===== src/AdminPage/Settle.antt =====
-- What the administration page does with an answer (`src/worker/admin-page.ts`): the rest of each
-- function from the `api(...)` that it awaits, and of `api` from its `fetch`. What follows within one
-- task of the browser is one function here: no other answer or event comes between.
use mathlib.Core.List.{◌++◌}
use task_hub.Shared.{
  ℕ, ◌-◌, Bool, true, false, Option, none, some, List, [], ◌∷◌, ◌&&◌, not, String, map, filter,
  head?, any, leb, nat_eq, ◌==◌, if◌then◌else◌,
}
use task_hub.Shared.Text.{is_empty}
use task_hub.Types.{RunnerView, TaskRecord, TaskLogResult, Page}
use task_hub.Types.Names.{status_name}
use task_hub.AdminPage.View.{Browser, failed, shown, render_detail, or_empty, badge_text}
use task_hub.AdminPage.State.{
  State, Awaiting, refresh, selfcheck_listing, unheeded, runners_page, Caller, connecting,
  unheeding, Refresh, Selection, Tab, with_state, with_document,
}
use task_hub.AdminPage.Render.{
  render_runners, render_runner_filter, render_tasks, set_connection, show_task_error,
}
use task_hub.AdminPage.Session.{api, connect_realtime}
use task_hub.AdminPage.Loads.{is_epoch, runners_request}

-- The JSON of an answer: of a failure with its `error`, or what the route of the request answers.
pub data Body : Type 0 where
  error_body : Option String → Body
  presence_body : (online_runner_ids : List String) → Body
  runners_body : Page RunnerView → Body
  tasks_body : Page TaskRecord → Body
  task_body : TaskRecord → Body
  logs_body : TaskLogResult → Body
  submitted_body : Body
  ticket_body : String → Body

-- How `await api(...)` ends.
pub data Outcome : Type 0 where
  returned : Body → Outcome
  threw : (message : String) → Outcome

-- The message of the exception when a body is not what the route answers.
abbrev pub type_error : String
type_error = "TypeError"

-- `run-selfcheck` after the `finally` of `runSelfcheck`.
abbrev pub enable_selfcheck : Tab → Tab
enable_selfcheck tab =
    with_document
      (record tab.document { selfcheck_disabled = is_empty tab.state.selected_runner_id }) tab

-- `runSelfcheck` after `await loadTasks()`, and where it or the request threw.
abbrev pub end_selfcheck : Option String → Tab → Tab
end_selfcheck none tab = enable_selfcheck tab
end_selfcheck (some message) tab = enable_selfcheck (show_task_error message tab)

-- `connect` after its refresh.
unfoldable pub connected : Option String → Caller → Tab → Tab
unfolding connect_realtime
connected error unheeding tab = tab
connected none (connecting epoch token) tab =
    let s = tab.state in
    if nat_eq epoch s.session_epoch && token == s.token
    then connect_realtime
        (with_document (record tab.document { auth_view_hidden = true; app_hidden = false }) tab)
    else tab
connected (some message) (connecting epoch token) tab =
    if nat_eq epoch tab.state.session_epoch && not (message == "unauthorized")
    then with_document (record tab.document { auth_error = message }) tab
    else tab

unfoldable pub connected_each : Option String → List Caller → Tab → Tab
unfolding connected
connected_each error [] tab = tab
connected_each error (caller ∷ callers) tab =
    connected_each error callers (connected error caller tab)

-- What a refresh tells of the connection, if its session is the current one.
abbrev pub refresh_shown : Option String → (epoch : ℕ) → Tab → Tab
refresh_shown none epoch tab =
    if nat_eq epoch tab.state.session_epoch then set_connection true "Connected" tab else tab
refresh_shown (some message) epoch tab =
    if nat_eq epoch tab.state.session_epoch then set_connection false "Unavailable" tab else tab

-- `finally` of `refreshAll`.
abbrev pub forget_refresh : ℕ → State → State
forget_refresh id s =
    if is_epoch id s.refresh_promise
    then record s { refresh_promise = none; refresh_epoch = none }
    else s

unfoldable pub end_refresh : Option String → Refresh → Tab → Tab
unfolding connected_each
end_refresh error r tab =
    let ended = record tab {
      refreshes = filter (λ q. not (nat_eq q.refresh_id r.refresh_id)) tab.refreshes;
    } in
    let seen = refresh_shown error r.epoch ended in
    connected_each error r.callers (with_state (forget_refresh r.refresh_id seen.state) seen)

abbrev pub one_less : ℕ → Refresh → Refresh
one_less id r = if nat_eq r.refresh_id id then record r { left = r.left - 1 } else r

-- `Promise.all` of the three loaders: the first that throws ends it, or the last that returns.
abbrev pub loader_ended : Option String → Option Refresh → Tab → Tab
loader_ended error none tab = tab
loader_ended none (some r) tab =
    if leb r.left 1
    then end_refresh none r tab
    else record tab { refreshes = map (one_less r.refresh_id) tab.refreshes }
loader_ended (some message) (some r) tab = end_refresh (some message) r tab

abbrev pub find_refresh : ℕ → List Refresh → Option Refresh
find_refresh id [] = none
find_refresh id (r ∷ rs) = if nat_eq r.refresh_id id then some r else find_refresh id rs

-- What a loader's end leads to, with the message if it threw.
unfoldable pub finish : Option String → Awaiting → Tab → Tab
unfolding end_refresh
finish error unheeded tab = tab
finish error selfcheck_listing tab = end_selfcheck error tab
finish error (refresh id) tab = loader_ended error (find_refresh id tab.refreshes) tab

unfoldable pub resume_presence : Awaiting → (epoch : ℕ) → Outcome → Tab → Tab
unfolding finish render_runners
resume_presence awaiting epoch (returned (presence_body ids)) tab =
    if nat_eq epoch tab.state.session_epoch
    then finish none awaiting (
        render_runners
          (with_state (record tab.state { online_runner_ids = ids; presence_loaded = true }) tab))
    else finish none awaiting tab
resume_presence awaiting epoch (threw message) tab = finish (some message) awaiting tab
resume_presence awaiting epoch (returned _) tab = finish (some type_error) awaiting tab

-- The selected runner, unless it is not among the runners any more.
abbrev pub kept_selection : String → List RunnerView → String
kept_selection runner_id runners =
    if any (λ runner. runner.runner_id == runner_id) runners then runner_id else ""

-- `loadRunners` with all the pages read.
unfoldable pub runners_loaded : List RunnerView → Tab → Tab
unfolding render_runners render_runner_filter
runners_loaded runners tab =
    let s = tab.state in
    render_runner_filter (
      render_runners (
        with_state
          (record s {
            runners = runners;
            selected_runner_id = kept_selection s.selected_runner_id runners;
          })
          tab))

unfoldable pub resume_runners :
    Awaiting → (generation epoch : ℕ) → List RunnerView → Outcome → Tab → Tab
unfolding finish api runners_loaded
resume_runners awaiting generation epoch before (returned (runners_body page)) tab =
    let s = tab.state in
    let runners = before ++ page.items in
    let cursor = or_empty page.next_cursor in
    if nat_eq generation s.runner_request_generation && nat_eq epoch s.session_epoch
    then if is_empty cursor
      then finish none awaiting (runners_loaded runners tab)
      else api (runners_request cursor) (runners_page awaiting generation epoch runners) tab
    else finish none awaiting tab
resume_runners awaiting generation epoch before (threw message) tab =
    finish (some message) awaiting tab
resume_runners awaiting generation epoch before (returned _) tab =
    finish (some type_error) awaiting tab

abbrev pub tasks_failed : Awaiting → (is_current : Bool) → (message : String) → Tab → Tab
tasks_failed awaiting is_current message tab =
    if is_current
    then finish (some message) awaiting (show_task_error message tab)
    else finish none awaiting tab

module _ (browser : Browser) where
  unfoldable pub tasks_loaded : Page TaskRecord → Tab → Tab
  unfolding render_tasks
  tasks_loaded page tab =
      let cursor = or_empty page.next_cursor in
      render_tasks browser (
        with_document
          (record tab.document { next_page_disabled = is_empty cursor; task_error = none })
          (with_state (record tab.state { tasks = page.items; next_cursor = cursor }) tab))

  unfoldable pub resume_tasks : Awaiting → (generation epoch : ℕ) → Outcome → Tab → Tab
  unfolding finish tasks_loaded
  resume_tasks awaiting generation epoch outcome tab =
      let s = tab.state in
      let is_current =
        nat_eq generation s.task_request_generation && nat_eq epoch s.session_epoch in
      elim outcome [
        | threw message ↦ tasks_failed awaiting is_current message tab
        | returned body ↦ elim body [
          | tasks_body page ↦
              finish none awaiting (if is_current then tasks_loaded page tab else tab)
          | _ ↦ tasks_failed awaiting is_current type_error tab
        ]
      ]

  -- `renderDetail`
  abbrev show_detail : TaskRecord → TaskLogResult → Tab → Tab
  show_detail task logs tab =
      with_document
        (record tab.document {
          detail = shown (render_detail browser task logs);
          detail_status = some (badge_text (status_name task.status));
        })
        tab

abbrev pub find_selection : ℕ → List Selection → Option Selection
find_selection id selections = head? (filter (λ w. nat_eq w.selection_id id) selections)

abbrev put_selection : Selection → Tab → Tab
put_selection w tab = record tab {
  selections = map (λ v. if nat_eq v.selection_id w.selection_id then w else v) tab.selections;
}

abbrev without_selection : ℕ → Tab → Tab
without_selection id tab = record tab {
  selections = filter (λ w. not (nat_eq w.selection_id id)) tab.selections;
}

-- The rest of `selectTask`, with its variables.
module _ (browser : Browser) (selection generation epoch : ℕ) (task_id : String) where
  abbrev is_latest_selection : State → Bool
  is_latest_selection s =
      nat_eq generation s.detail_request_generation && nat_eq epoch s.session_epoch

  -- Once both requests are answered.
  abbrev selection_loaded : TaskRecord → TaskLogResult → Tab → Tab
  selection_loaded task logs tab =
      let rest = without_selection selection tab in
      if is_latest_selection tab.state && task_id == tab.state.selected_task_id
      then show_detail browser task logs rest
      else rest

  abbrev selection_failed : String → Tab → Tab
  selection_failed message tab =
      let rest = without_selection selection tab in
      if is_latest_selection tab.state
      then with_document (record tab.document { detail = failed message }) rest
      else rest

  abbrev selection_answered : Outcome → Selection → Tab → Tab
  selection_answered (returned (task_body task)) w tab = elim w.logs [
    | none ↦ put_selection (record w { task = some task }) tab
    | some logs ↦ selection_loaded task logs tab
  ]
  selection_answered (returned (logs_body logs)) w tab = elim w.task [
    | none ↦ put_selection (record w { logs = some logs }) tab
    | some task ↦ selection_loaded task logs tab
  ]
  selection_answered (threw message) w tab = selection_failed message tab
  selection_answered (returned _) w tab = selection_failed type_error tab

  -- An answer after the selection failed finds nothing that waits for it.
  unfoldable pub resume_selection : Outcome → Tab → Tab
  unfolding render_detail badge_text
  resume_selection outcome tab = elim (find_selection selection tab.selections) [
    | none ↦ tab
    | some w ↦ selection_answered outcome w tab
  ]
