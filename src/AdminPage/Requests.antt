-- ===== src/AdminPage/Requests.antt =====
-- What the administration page sends is what the worker takes, and a new session on an open socket
-- (`runSelfcheck`, `connectRealtime` and the handler of "submit" of `src/worker/admin-page.ts`).
use task_hub.Shared.{
  ℕ, ◌+◌, ◌≤◌, ◌≡◌, ◌≢◌, refl, Bool, true, false, Option, none, some, [], ◌∷◌, String, arith,
  nat_eq, ◌&&◌, ◌||◌, if◌then◌else◌,
}
use task_hub.Shared.Int.{pos}
use task_hub.Shared.Text.{is_empty, trim}
use task_hub.Types.{TaskType, ok}
use task_hub.Types.Json.{
  Value, obj, no_fields, get, is_object, is_plain_object, as_nonblank, as_integer, optional,
}
use task_hub.Types.Names.{as_task_type}
use task_hub.Platform.{Platform}
use task_hub.Service.Submit.{Submission, validate_submission, as_payload, as_positive}
use task_hub.AdminPage.State.{connecting, Call, selfcheck, PageSocket, Tab}
use task_hub.AdminPage.View.{Browser}
use task_hub.AdminPage.Session.{api, ask_ticket, connect_realtime}
use task_hub.AdminPage.Loads.{
  run_selfcheck, selfcheck_body, start_refresh, load_presence, load_runners, load_tasks,
}
use task_hub.AdminPage.Events.{submit_token, is_current_socket, open_handler, message_handler}
use task_hub.AdminPage.Stale.{not_eq}
use task_hub.AdminPage.Timely.{past, IsTimely}
use task_hub.AdminPage.Timely.Sessions.{submitted_tab, submit_token_lem}

-- The self-check of a runner, as the service takes it.
abbrev pub selfcheck_submission : (runner_id : String) → Submission
selfcheck_submission runner_id = record {
  runner_id = runner_id;
  type = TaskType.selfcheck;
  name = "Console self-check";
  payload = obj no_fields;
  timeout_seconds = pos 60;
  priority = none;
  callback_url = none;
  idempotency_key = none;
}

nonblank-nonempty : (s : String) → is_empty (trim s) ≡ false → is_empty s ≡ false
unfolding trim
nonblank-nonempty String.[] h = h
nonblank-nonempty (String.◌∷◌ c s) h = refl

-- The call that the button makes.
abbrev pub selfcheck_call : Tab → Call
selfcheck_call tab = record {
  call_id = tab.fresh;
  request_epoch = tab.state.session_epoch;
  request_token = tab.state.token;
  request = record {
    method = "POST";
    path = "/api/admin/tasks";
    query = [];
    body = selfcheck_body tab.state.selected_runner_id;
  };
  response_ok = none;
  continuation = selfcheck;
}

-- With a runner selected whose id is not blank, "Run self-check" posts one request to the tasks under
-- the session's token, and its body passes all tests of the service, on every platform, as a
-- self-check of that runner.
pub run_selfcheck-accepted :
    (platform : Platform) (tab : Tab)
    → is_empty (trim tab.state.selected_runner_id) ≡ false
    → ((run_selfcheck tab).calls ≡ selfcheck_call tab ∷ tab.calls)
      × (validate_submission platform (selfcheck_call tab).request.body
          ≡ ok (selfcheck_submission tab.state.selected_runner_id))
unfolding run_selfcheck api validate_submission get is_object as_nonblank as_task_type as_payload
    as_positive as_integer is_plain_object trim optional
run_selfcheck-accepted platform tab h =
    let k = nonblank-nonempty tab.state.selected_runner_id h in
    (rw (run_selfcheck, k) refl, rw h refl)

held : (id : ℕ) (socket : Option ℕ) (tab : Tab) → socket ≡ some id → ask_ticket socket tab ≡ tab
held id none tab e = cc
held id (some x) tab e = refl

either : (b : Bool) (x y : Tab) → y ≡ x → (if b then x else y) ≡ x
either true x y e = refl
either false x y e = e

-- A page that holds the socket of another session.
module _ (browser : Browser) (tab : Tab) (s : PageSocket) (id : ℕ)
    (holds : tab.state.socket ≡ some id) (other : s.epoch ≢ tab.state.session_epoch) where
  ignored : (is_current_socket s tab.state && nat_eq s.epoch tab.state.session_epoch) ≡ false
  ignored = let e = not_eq s.epoch tab.state.session_epoch other in ground (arith, e)

  connect_realtime-held : connect_realtime tab ≡ tab
  unfolding connect_realtime
  connect_realtime-held =
      either (is_empty tab.state.token || tab.document.is_hidden) tab _
        (held id tab.state.socket tab holds)

  message_handler-held : (m : Option Value) → message_handler browser m s tab ≡ tab
  unfolding message_handler
  message_handler-held m = rw (message_handler, ignored) refl

  open_handler-held : open_handler s tab ≡ tab
  unfolding open_handler
  open_handler-held = rw (open_handler, ignored) refl

-- A form that is submitted while the page holds the socket of an earlier session keeps that socket for
-- the new session. On the page that this leaves, connecting asks for no ticket, and neither a message
-- of that socket, whatever it says, nor its opening changes anything.
pub submit_token-deaf :
    (browser : Browser) (input : String) (tab : Tab) (s : PageSocket) (m : Option Value)
    → IsTimely (past tab)
    → tab.state.socket ≡ some s.socket_id
    → s.epoch ≤ tab.state.session_epoch
    → ((submit_token input tab).state.socket ≡ some s.socket_id)
      × (connect_realtime (submit_token input tab) ≡ submit_token input tab)
      × (message_handler browser m s (submit_token input tab) ≡ submit_token input tab)
      × (open_handler s (submit_token input tab) ≡ submit_token input tab)
unfolding start_refresh load_presence load_runners load_tasks api
submit_token-deaf browser input tab s m h e old =
    let after =
      start_refresh (connecting (tab.state.session_epoch + 1) (trim input))
        (submitted_tab input tab) in
    let other : s.epoch ≢ tab.state.session_epoch + 1 = λ f. absurd (omega (arith, f, old)) in
    rw (submit_token_lem input tab h) (
      e,
      connect_realtime-held browser after s s.socket_id e other,
      message_handler-held browser after s s.socket_id e other m,
      open_handler-held browser after s s.socket_id e other,
    )
