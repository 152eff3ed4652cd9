-- ===== src/AdminPage/Events.antt =====
-- What happens to the administration page (`src/worker/admin-page.ts`): its handlers of the document,
-- of its socket, of its timer and of the answers, and the page as it is opened.
use task_hub.Shared.{
  ℕ, ◌+◌, Bool, true, false, Option, none, some, List, [], ◌∷◌, ◌&&◌, not, String, map, filter, any,
  nat_eq, ◌==◌, if◌then◌else◌,
}
use task_hub.Shared.Text.{is_empty, trim}
use task_hub.Types.Json.{Value}
use task_hub.AdminPage.View.{Browser, Document, unselected}
use task_hub.AdminPage.State.{
  State, unheeded, Call, unheeding, PageSocket, Tab, with_state, with_document, initial_state,
}
use task_hub.AdminPage.Render.{render_runners, choose_runner, set_connection}
use task_hub.AdminPage.Session.{sign_out, close_realtime, connect_realtime, schedule_reconnect}
use task_hub.AdminPage.Loads.{connect, refresh_all, load_tasks, select_task, run_selfcheck}
use task_hub.AdminPage.Settle.{Body}
use task_hub.AdminPage.Realtime.{
  response_arrived, request_failed, body_arrived, handle_realtime_event,
}

-- The tasks of the browser that run a handler of the page. A call, a socket and a timer are named by
-- their numbers; an answer comes as its status, then as its body.
pub data Event : Type 0 where
  submitted : (input : String) → Event
  refresh_clicked sign_out_clicked selfcheck_clicked next_page_clicked : Event
  runner_filter_changed status_filter_changed runner_clicked task_clicked : String → Event
  visibility_changed : (is_hidden : Bool) → Event
  responded : (call : ℕ) → (status : ℕ) → Event
  failed_to_fetch : (call : ℕ) → (message : String) → Event
  body_read : (call : ℕ) → Body → Event
  socket_opened socket_failed socket_closed : (socket : ℕ) → Event
  socket_message : (socket : ℕ) → Option Value → Event
  timer_fired : (timer : ℕ) → Event

-- The handler of "submit".
unfoldable pub submit_token : String → Tab → Tab
unfolding connect trim
submit_token input tab =
    let token = trim input in
    connect (record tab {
      state = record tab.state { session_epoch = tab.state.session_epoch + 1; token = token };
      document = record tab.document { token_input = input };
      stored_token = some token;
    })

-- The handlers of the filters, of "Next page" and of a runner in the list, up to `loadTasks()`.
abbrev pub with_runner_filter : String → Tab → Tab
with_runner_filter runner_id tab = render_runners (record tab {
  state = record tab.state { selected_runner_id = runner_id; task_cursor = "" };
  document = record tab.document { runner_filter = runner_id };
})

abbrev pub with_status_filter : String → Tab → Tab
with_status_filter status tab = record tab {
  state = record tab.state { task_cursor = "" };
  document = record tab.document { status_filter = status };
}

abbrev pub with_next_page : Tab → Tab
with_next_page tab = with_state (record tab.state { task_cursor = tab.state.next_cursor }) tab

abbrev pub with_runner_clicked : String → Tab → Tab
with_runner_clicked runner_id tab =
    let s = tab.state in
    let selected = if runner_id == s.selected_runner_id then "" else runner_id in
    render_runners (
      choose_runner (with_state (record s { selected_runner_id = selected; task_cursor = "" }) tab))

unfoldable pub change_visibility : Bool → Tab → Tab
unfolding close_realtime refresh_all connect_realtime
change_visibility is_hidden tab =
    let seen = with_document (record tab.document { is_hidden = is_hidden }) tab in
    if is_hidden
    then close_realtime seen
    else if is_empty tab.state.token
    then seen
    else connect_realtime (refresh_all unheeding seen)

abbrev pub find_call : ℕ → List Call → Option Call
find_call id [] = none
find_call id (c ∷ calls) = if nat_eq c.call_id id then some c else find_call id calls

abbrev pub find_socket : ℕ → List PageSocket → Option PageSocket
find_socket id [] = none
find_socket id (s ∷ sockets) = if nat_eq s.socket_id id then some s else find_socket id sockets

abbrev pub is_current_socket : PageSocket → State → Bool
is_current_socket socket s = elim s.socket [ none ↦ false | some id ↦ nat_eq id socket.socket_id ]

-- `onopen`
unfoldable pub open_handler : PageSocket → Tab → Tab
unfolding refresh_all
open_handler socket tab =
    if is_current_socket socket tab.state && nat_eq socket.epoch tab.state.session_epoch
    then refresh_all unheeding (
        set_connection true "Connected"
          (with_state (record tab.state { reconnect_attempt = 0 }) tab))
    else tab

-- `onclose`, unless it was taken away.
unfoldable pub close_handler : PageSocket → Tab → Tab
unfolding schedule_reconnect
close_handler socket tab =
    if socket.is_heard && is_current_socket socket tab.state
    then schedule_reconnect (with_state (record tab.state { socket = none }) tab)
    else tab

abbrev pub closing : ℕ → PageSocket → PageSocket
closing id socket =
    if nat_eq socket.socket_id id then record socket { is_closing = true } else socket

abbrev pub without_socket : ℕ → Tab → Tab
without_socket id tab = record tab {
  sockets = filter (λ s. not (nat_eq s.socket_id id)) tab.sockets;
}

abbrev pub on_call : (Call → Tab → Tab) → ℕ → Tab → Tab
on_call handler id tab = elim (find_call id tab.calls) [ none ↦ tab | some call ↦ handler call tab ]

abbrev pub on_socket : (PageSocket → Tab → Tab) → ℕ → Tab → Tab
on_socket handler id tab = elim (find_socket id tab.sockets) [
  | none ↦ tab
  | some socket ↦ handler socket tab
]

-- The callback of the timer that `scheduleReconnect` sets.
unfoldable pub fire_timer : ℕ → Tab → Tab
unfolding connect_realtime
fire_timer id tab =
    if not (any (λ t. nat_eq t.timer_id id) tab.timers)
    then tab
    else connect_realtime (record tab {
      state = record tab.state { reconnect_timer = 0 };
      timers = filter (λ t. not (nat_eq t.timer_id id)) tab.timers;
    })

module _ (browser : Browser) where
  -- `onmessage`
  unfoldable pub message_handler : Option Value → PageSocket → Tab → Tab
  unfolding handle_realtime_event
  message_handler message socket tab =
      if is_current_socket socket tab.state && nat_eq socket.epoch tab.state.session_epoch
      then handle_realtime_event browser message tab
      else tab

  unfoldable pub handle : Event → Tab → Tab
  unfolding submit_token refresh_all sign_out run_selfcheck render_runners load_tasks select_task
      change_visibility response_arrived request_failed body_arrived open_handler close_handler
      message_handler fire_timer
  handle (submitted input) tab =
      if tab.document.auth_view_hidden then tab else submit_token input tab
  handle refresh_clicked tab = refresh_all unheeding tab
  handle sign_out_clicked tab = sign_out tab
  handle selfcheck_clicked tab = run_selfcheck tab
  handle next_page_clicked tab = load_tasks unheeded (with_next_page tab)
  handle (runner_filter_changed runner_id) tab =
      load_tasks unheeded (with_runner_filter runner_id tab)
  handle (status_filter_changed status) tab = load_tasks unheeded (with_status_filter status tab)
  handle (runner_clicked runner_id) tab = load_tasks unheeded (with_runner_clicked runner_id tab)
  handle (task_clicked task_id) tab = select_task browser task_id tab
  handle (visibility_changed is_hidden) tab = change_visibility is_hidden tab
  handle (responded id status) tab = on_call (response_arrived browser status) id tab
  handle (failed_to_fetch id message) tab = on_call (request_failed browser message) id tab
  handle (body_read id body) tab = on_call (body_arrived browser body) id tab
  handle (socket_opened id) tab = on_socket open_handler id tab
  handle (socket_failed id) tab = record tab { sockets = map (closing id) tab.sockets }
  handle (socket_closed id) tab =
      on_socket (λ socket t. close_handler socket (without_socket id t)) id tab
  handle (socket_message id message) tab = on_socket (message_handler message) id tab
  handle (timer_fired id) tab = fire_timer id tab

  unfoldable pub handle_all : List Event → Tab → Tab
  unfolding handle
  handle_all [] tab = tab
  handle_all (e ∷ es) tab = handle_all es (handle e tab)

-- The elements as the markup has them, without the lines that stand in the lists until they are drawn.
abbrev pub initial_document : (is_hidden : Bool) → Document
initial_document is_hidden = record {
  is_hidden = is_hidden;
  auth_view_hidden = false;
  app_hidden = true;
  auth_error = "";
  token_input = "";
  is_connected = false;
  connection_label = "Connecting";
  runner_filter = "";
  status_filter = "";
  filter_options = ("All runners", "") ∷ [];
  runner_count = 0;
  runner_list = [];
  task_count = 0;
  task_rows = [];
  next_page_disabled = true;
  selfcheck_disabled = true;
  task_error = none;
  detail = unselected;
  detail_status = none;
}

abbrev pub token_of : Option String → String
token_of none = ""
token_of (some token) = token

-- The page before its script has run to the end, and as it is opened.
abbrev pub unopened : (stored_token : Option String) → (is_hidden : Bool) → Tab
unopened stored_token is_hidden = record {
  state = initial_state (token_of stored_token);
  document = initial_document is_hidden;
  stored_token = stored_token;
  calls = [];
  refreshes = [];
  selections = [];
  sockets = [];
  timers = [];
  fresh = 1;
}

unfoldable pub opened : Option String → Bool → Tab
unfolding connect
opened stored_token is_hidden =
    let tab = unopened stored_token is_hidden in
    if is_empty tab.state.token then tab else connect tab
