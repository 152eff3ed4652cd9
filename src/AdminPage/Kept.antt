-- ===== src/AdminPage/Kept.antt =====
-- The operations of the administration page that leave its session, its sockets, its timer and its
-- calls as they are: what it draws, what it asks for, and what it does with most answers
-- (`src/worker/admin-page.ts`).
use task_hub.Shared.{
  ℕ, ◌≤◌, ◌≡◌, refl, ap, inl, inr, Bool, true, false, Option, none, some, List, ◌==◌, String, arith,
  In, ◌||◌, Option-cases, if◌then◌else◌,
}
use task_hub.Shared.Text.{is_empty}
use task_hub.Types.{RunnerView, TaskRecord, Page}
use task_hub.Types.Json.{Value, str, get}
use task_hub.AdminPage.View.{Browser, is_truthy}
use task_hub.AdminPage.State.{
  Request, Awaiting, unheeded, Continuation, Call, Caller, PageSocket, Timer, Tab,
}
use task_hub.AdminPage.Render.{render_runners, render_runner_filter, render_tasks}
use task_hub.AdminPage.Session.{api, ask_ticket, connect_realtime}
use task_hub.AdminPage.Loads.{
  load_presence, load_runners, load_tasks, joined_refresh, join_refresh, start_refresh, refresh_all,
  select_task, run_selfcheck,
}
use task_hub.AdminPage.Settle.{
  Outcome, returned, threw, end_selfcheck, runners_loaded, tasks_loaded, resume_selection,
}
use task_hub.AdminPage.Realtime.{
  resume_selfcheck, task_told, presence_told, told_task, event_told, handle_realtime_event,
}
use task_hub.AdminPage.Wiring.{IsKept, IsKept-refl, IsKept-trans}

-- What such an operation leaves alone, beside the calls.
pub record Wires : Type 0 where
  pub session_epoch : ℕ
  pub token : String
  pub socket : Option ℕ
  pub reconnect_timer : ℕ
  pub sockets : List PageSocket
  pub timers : List Timer
  pub is_hidden : Bool
  pub auth_view_hidden : Bool
  pub app_hidden : Bool

abbrev pub wires : Tab → Wires
wires tab = record {
  session_epoch = tab.state.session_epoch;
  token = tab.state.token;
  socket = tab.state.socket;
  reconnect_timer = tab.state.reconnect_timer;
  sockets = tab.sockets;
  timers = tab.timers;
  is_hidden = tab.document.is_hidden;
  auth_view_hidden = tab.document.auth_view_hidden;
  app_hidden = tab.document.app_hidden;
}

grown-IsKept :
    (before after : Tab)
    → wires after ≡ wires before
    → before.fresh ≤ after.fresh
    → ((c : Call) → In c before.calls → In c after.calls)
    → IsKept before after
grown-IsKept before after e more keeps = record {
  same_epoch = ap (λ (w : Wires). w.session_epoch) e;
  same_token = ap (λ (w : Wires). w.token) e;
  same_socket = ap (λ (w : Wires). w.socket) e;
  same_timer = ap (λ (w : Wires). w.reconnect_timer) e;
  same_sockets = ap (λ (w : Wires). w.sockets) e;
  same_timers = ap (λ (w : Wires). w.timers) e;
  same_is_hidden = ap (λ (w : Wires). w.is_hidden) e;
  same_auth_view = ap (λ (w : Wires). w.auth_view_hidden) e;
  same_app_hidden = ap (λ (w : Wires). w.app_hidden) e;
  more_fresh = more;
  keeps_calls = keeps;
}

-- Of an operation that adds no call either.
pub same-IsKept :
    (before after : Tab)
    → wires after ≡ wires before
    → after.fresh ≡ before.fresh
    → after.calls ≡ before.calls
    → IsKept before after
same-IsKept before after e f g = grown-IsKept before after e (omega arith) (λ c k. rw g k)

pub if-IsKept :
    {before : Tab} (b : Bool) (x y : Tab)
    → IsKept before x
    → IsKept before y
    → IsKept before (if b then x else y)
if-IsKept true x y h k = h
if-IsKept false x y h k = k

pub render_runners-IsKept : (tab : Tab) → IsKept tab (render_runners tab)
unfolding render_runners
render_runners-IsKept tab = same-IsKept tab _ refl refl refl

pub api-IsKept : (r : Request) (k : Continuation) (tab : Tab) → IsKept tab (api r k tab)
unfolding api
api-IsKept r k tab = grown-IsKept tab _ refl (omega arith) (λ c m. inr m)

pub load_presence-IsKept : (w : Awaiting) (tab : Tab) → IsKept tab (load_presence w tab)
unfolding load_presence
load_presence-IsKept w tab = api-IsKept _ _ tab

pub load_runners-IsKept : (w : Awaiting) (tab : Tab) → IsKept tab (load_runners w tab)
unfolding load_runners api
load_runners-IsKept w tab = grown-IsKept tab _ refl (omega arith) (λ c m. inr m)

pub load_tasks-IsKept : (w : Awaiting) (tab : Tab) → IsKept tab (load_tasks w tab)
unfolding load_tasks api
load_tasks-IsKept w tab = grown-IsKept tab _ refl (omega arith) (λ c m. inr m)

start_refresh-IsKept : (caller : Caller) (tab : Tab) → IsKept tab (start_refresh caller tab)
unfolding start_refresh api load_presence load_runners load_tasks
start_refresh-IsKept caller tab = grown-IsKept tab _ refl (omega arith) (λ c m. inr (inr (inr m)))

pub refresh_all-IsKept : (caller : Caller) (tab : Tab) → IsKept tab (refresh_all caller tab)
unfolding refresh_all join_refresh
refresh_all-IsKept caller tab = elim (Option-cases (joined_refresh tab.state)) [
  | inl e ↦ rw (refresh_all, e) (start_refresh-IsKept caller tab)
  | inr (id, e) ↦ rw (refresh_all, e) (same-IsKept tab _ refl refl refl)
]

pub select_task-IsKept :
    (browser : Browser) (task_id : String) (tab : Tab)
    → IsKept tab (select_task browser task_id tab)
unfolding select_task api render_tasks
select_task-IsKept browser task_id tab = grown-IsKept tab _ refl (omega arith) (λ c m. inr (inr m))

pub run_selfcheck-IsKept : (tab : Tab) → IsKept tab (run_selfcheck tab)
unfolding run_selfcheck api
run_selfcheck-IsKept tab =
    if-IsKept (is_empty tab.state.selected_runner_id) tab _ (IsKept-refl tab)
      (grown-IsKept tab _ refl (omega arith) (λ c m. inr m))

pub end_selfcheck-IsKept :
    (error : Option String) (tab : Tab) → IsKept tab (end_selfcheck error tab)
end_selfcheck-IsKept none tab = same-IsKept tab _ refl refl refl
end_selfcheck-IsKept (some e) tab = same-IsKept tab _ refl refl refl

pub runners_loaded-IsKept :
    (runners : List RunnerView) (tab : Tab) → IsKept tab (runners_loaded runners tab)
unfolding runners_loaded render_runners render_runner_filter
runners_loaded-IsKept runners tab = same-IsKept tab _ refl refl refl

pub tasks_loaded-IsKept :
    (browser : Browser) (page : Page TaskRecord) (tab : Tab)
    → IsKept tab (tasks_loaded browser page tab)
unfolding tasks_loaded render_tasks
tasks_loaded-IsKept browser page tab = same-IsKept tab _ refl refl refl

pub resume_selfcheck-IsKept : (o : Outcome) (tab : Tab) → IsKept tab (resume_selfcheck o tab)
unfolding resume_selfcheck load_tasks api
resume_selfcheck-IsKept (threw e) tab = end_selfcheck-IsKept (some e) tab
resume_selfcheck-IsKept (returned b) tab = grown-IsKept tab _ refl (omega arith) (λ c m. inr m)

pub resume_selection-wires :
    (browser : Browser) (selection generation epoch : ℕ) (task_id : String) (o : Outcome)
    (tab : Tab)
    → (wires (resume_selection browser selection generation epoch task_id o tab) ≡ wires tab)
      × ((resume_selection browser selection generation epoch task_id o tab).fresh ≡ tab.fresh)
      × ((resume_selection browser selection generation epoch task_id o tab).calls ≡ tab.calls)
unfolding resume_selection
resume_selection-wires browser selection generation epoch task_id (threw e) tab = ground arith
resume_selection-wires browser selection generation epoch task_id (returned b) tab = ground arith

module _ (browser : Browser) where
  task_told-IsKept : (task_id : String) (tab : Tab) → IsKept tab (task_told browser task_id tab)
  task_told-IsKept task_id tab =
      let first = load_runners-IsKept unheeded tab in
      let both = IsKept-trans first (load_tasks-IsKept unheeded (load_runners unheeded tab)) in
      if-IsKept
        (task_id == (load_tasks unheeded (load_runners unheeded tab)).state.selected_task_id) _ _
        (IsKept-trans both
          (select_task-IsKept browser task_id (load_tasks unheeded (load_runners unheeded tab))))
        both

  presence_told-IsKept :
      (runner_id : String) (online : Bool) (tab : Tab)
      → IsKept tab (presence_told runner_id online tab)
  unfolding render_runners
  presence_told-IsKept runner_id online tab = same-IsKept tab _ refl refl refl

  told_task-IsKept :
      (type : String) (v : Value) (tab : Tab) → IsKept tab (told_task browser type v tab)
  told_task-IsKept type (str task_id) tab =
      if-IsKept (type == "task_changed") _ _ (task_told-IsKept task_id tab) (IsKept-refl tab)
  told_task-IsKept type _ tab = IsKept-refl tab

  event_told-IsKept :
      (type runner_id task_id : Value) (online : Bool) (tab : Tab)
      → IsKept tab (event_told browser type runner_id task_id online tab)
  event_told-IsKept (str type) (str runner_id) task_id online tab =
      if-IsKept (type == "runner_presence_changed") _ _ (presence_told-IsKept runner_id online tab)
        (told_task-IsKept type task_id tab)
  event_told-IsKept (str type) _ task_id online tab = told_task-IsKept type task_id tab
  event_told-IsKept _ runner_id task_id online tab = IsKept-refl tab

  pub handle_realtime_event-IsKept :
      (message : Option Value) (tab : Tab) → IsKept tab (handle_realtime_event browser message tab)
  unfolding handle_realtime_event
  handle_realtime_event-IsKept none tab = IsKept-refl tab
  handle_realtime_event-IsKept (some event) tab =
      event_told-IsKept (get "type" event) (get "runnerId" event) (get "taskId" event)
        (is_truthy (get "online" event)) tab

ask_ticket-IsKept : (socket : Option ℕ) (tab : Tab) → IsKept tab (ask_ticket socket tab)
ask_ticket-IsKept (some id) tab = IsKept-refl tab
ask_ticket-IsKept none tab = api-IsKept _ _ tab

pub connect_realtime-IsKept : (tab : Tab) → IsKept tab (connect_realtime tab)
unfolding connect_realtime
connect_realtime-IsKept tab =
    if-IsKept (is_empty tab.state.token || tab.document.is_hidden) tab _ (IsKept-refl tab)
      (ask_ticket-IsKept tab.state.socket tab)
