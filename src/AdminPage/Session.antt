-- ===== src/AdminPage/Session.antt =====
-- The session of the administration page (`api`, `signOut`, `closeRealtime`, `connectRealtime` and
-- `scheduleReconnect` of `src/worker/admin-page.ts`): how requests are sent, how a session ends, and
-- how its socket is opened again.
use Prim.Native.String.{◌++◌}
use task_hub.Shared.{
  ℕ, ◌+◌, ◌-◌, min, true, false, Option, none, some, List, [], ◌∷◌, ◌||◌, not, String, map, filter,
  length, nat_eq, if◌then◌else◌,
}
use task_hub.Shared.Text.{is_empty}
use task_hub.Types.Json.{undefined}
use task_hub.AdminPage.View.{Document, unselected}
use task_hub.AdminPage.State.{
  State, Request, Call, Continuation, events_ticket, PageSocket, Timer, Tab, with_document,
}
use task_hub.AdminPage.Render.{set_connection}

abbrev pub get_request : (path : String) → List (String × String) → Request
get_request path query = record { method = "GET"; path = path; query = query; body = undefined }

-- `api(...)` up to the answer: the request carries the token and the epoch of now.
unfoldable pub api : Request → Continuation → Tab → Tab
api request continuation tab = record tab {
  calls =
      record {
        call_id = tab.fresh;
        request_epoch = tab.state.session_epoch;
        request_token = tab.state.token;
        request = request;
        response_ok = none;
        continuation = continuation;
      }
      ∷ tab.calls;
  fresh = tab.fresh + 1;
}

-- The header that `api` sends.
abbrev pub authorization : Call → String
authorization call = "Bearer " ++ call.request_token

abbrev pub clear_timeout : ℕ → List Timer → List Timer
clear_timeout timer = filter (λ t. not (nat_eq t.timer_id timer))

abbrev pub silence : ℕ → PageSocket → PageSocket
silence id socket =
    if nat_eq socket.socket_id id
    then record socket { is_closing = true; is_heard = false }
    else socket

-- `socket.onclose = null; socket.close();`
abbrev pub close_socket : Option ℕ → List PageSocket → List PageSocket
close_socket none sockets = sockets
close_socket (some id) sockets = map (silence id) sockets

unfoldable pub close_realtime : Tab → Tab
close_realtime tab =
    let s = tab.state in
    record tab {
      state = record s { reconnect_timer = 0; socket = none };
      timers = clear_timeout s.reconnect_timer tab.timers;
      sockets = close_socket s.socket tab.sockets;
    }

abbrev pub signed_out_state : State → State
signed_out_state s = record s {
  session_epoch = s.session_epoch + 1;
  token = "";
  runners = [];
  tasks = [];
  online_runner_ids = [];
  presence_loaded = false;
  selected_runner_id = "";
  selected_task_id = "";
  task_cursor = "";
  next_cursor = "";
  runner_request_generation = s.runner_request_generation + 1;
  task_request_generation = s.task_request_generation + 1;
  detail_request_generation = s.detail_request_generation + 1;
  refresh_epoch = none;
  refresh_promise = none;
}

abbrev pub signed_out_document : Document → Document
signed_out_document d = record d {
  app_hidden = true;
  auth_view_hidden = false;
  token_input = "";
  detail = unselected;
  detail_status = none;
}

unfoldable pub sign_out : Tab → Tab
unfolding close_realtime
sign_out tab =
    let closed =
      close_realtime (record tab { state = signed_out_state tab.state; stored_token = none }) in
    with_document (signed_out_document closed.document) closed

-- The request for a ticket, unless there is a socket.
abbrev pub ask_ticket : (socket : Option ℕ) → Tab → Tab
ask_ticket (some id) tab = tab
ask_ticket none tab =
    api
      (record { method = "POST"; path = "/api/admin/events-ticket"; query = []; body = undefined })
      (events_ticket tab.state.session_epoch) tab

-- `connectRealtime` up to the answer with the ticket.
unfoldable pub connect_realtime : Tab → Tab
unfolding api
connect_realtime tab =
    let s = tab.state in
    if is_empty s.token || tab.document.is_hidden then tab else ask_ticket s.socket tab

abbrev pub delays : List ℕ
delays = 1000 ∷ 2000 ∷ 5000 ∷ 10000 ∷ 30000 ∷ 60000 ∷ []

abbrev pub nth : ℕ → List ℕ → ℕ
nth i [] = 0
nth ℕ.zero (d ∷ ds) = d
nth (ℕ.suc i) (d ∷ ds) = nth i ds

unfoldable pub reconnect_delay : (attempt : ℕ) → ℕ
reconnect_delay attempt = nth (min attempt (length delays - 1)) delays

unfoldable pub schedule_reconnect : Tab → Tab
unfolding reconnect_delay
schedule_reconnect tab =
    let s = tab.state in
    let cleared = clear_timeout s.reconnect_timer tab.timers in
    if is_empty s.token || tab.document.is_hidden
    then record tab { timers = cleared }
    else set_connection false "Reconnecting" (record tab {
      state = record s { reconnect_attempt = s.reconnect_attempt + 1; reconnect_timer = tab.fresh };
      timers =
          record { timer_id = tab.fresh; delay = reconnect_delay s.reconnect_attempt } ∷ cleared;
      fresh = tab.fresh + 1;
    })
