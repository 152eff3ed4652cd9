-- ===== src/AdminPage/Timely/Reaching.antt =====
-- However the administration page is used from its opening on, its sessions are kept apart (the
-- handlers of `src/worker/admin-page.ts`).
use task_hub.Shared.{
  ℕ, ◌≡◌, refl, inl, inr, Bool, true, false, Option, none, List, [], ◌∷◌, String, ◌&&◌, not, In,
  nat_eq, Bool-cases, Option-cases, any, filter,
}
use task_hub.Shared.Text.{is_empty}
use task_hub.Types.Json.{Value}
use task_hub.AdminPage.View.{Browser}
use task_hub.AdminPage.State.{unheeded, Call, unheeding, connecting, PageSocket, Tab}
use task_hub.AdminPage.Render.{render_runners}
use task_hub.AdminPage.Session.{close_realtime}
use task_hub.AdminPage.Loads.{connect, refresh_all, load_tasks}
use task_hub.AdminPage.Realtime.{response_arrived, request_failed, body_arrived}
use task_hub.AdminPage.Events.{
  submit_token, Event, submitted, refresh_clicked, sign_out_clicked, selfcheck_clicked,
  next_page_clicked, runner_filter_changed, status_filter_changed, runner_clicked, task_clicked,
  visibility_changed, responded, failed_to_fetch, body_read, socket_opened, socket_failed,
  socket_closed, socket_message, timer_fired, with_runner_filter, with_status_filter,
  with_next_page, with_runner_clicked, change_visibility, find_call, find_socket, is_current_socket,
  open_handler, close_handler, without_socket, message_handler, on_call, on_socket, fire_timer,
  handle, handle_all, opened, unopened,
}
use task_hub.AdminPage.Timely.{past, IsTimely, unheeded-IsAwaited}
use task_hub.AdminPage.Timely.Changes.{if-IsTimely}
use task_hub.AdminPage.Timely.Asking.{
  load_tasks-IsTimely, refresh_all-IsTimely, unheeding-IsOfSession,
}
use task_hub.AdminPage.Timely.Sessions.{
  select_task-IsTimely, run_selfcheck-IsTimely, connect_realtime-IsTimely,
  schedule_reconnect-IsTimely, sign_out-IsTimely, submit_token-IsTimely,
}
use task_hub.AdminPage.Timely.Resuming.{handle_realtime_event-IsTimely}
use task_hub.AdminPage.Timely.Handling.{
  find_call-In, response_arrived-IsTimely, request_failed-IsTimely, body_arrived-IsTimely,
}

-- A load of the tasks on a page that has the same past.
relisted-IsTimely :
    (before tab : Tab)
    → past tab ≡ past before
    → IsTimely (past before)
    → IsTimely (past (load_tasks unheeded tab))
relisted-IsTimely before tab e h =
    load_tasks-IsTimely unheeded tab (unheeded-IsAwaited (past tab)) (rw e h)

refreshed-IsTimely : (tab : Tab) → IsTimely (past tab) → IsTimely (past (refresh_all unheeding tab))
refreshed-IsTimely tab h =
    refresh_all-IsTimely unheeding tab (unheeding-IsOfSession tab.state.session_epoch) h

change_visibility-IsTimely :
    (is_hidden : Bool) (tab : Tab)
    → IsTimely (past tab)
    → IsTimely (past (change_visibility is_hidden tab))
unfolding change_visibility close_realtime
change_visibility-IsTimely true tab h = h
change_visibility-IsTimely false tab h = elim (Bool-cases (is_empty tab.state.token)) [
  | inl e ↦ rw (change_visibility, e) h
  | inr e ↦
      rw (change_visibility, e)
        (connect_realtime-IsTimely _ (
          refreshed-IsTimely (record tab { document = record tab.document { is_hidden = false } })
            h))
]

open_handler-IsTimely :
    (s : PageSocket) (tab : Tab) → IsTimely (past tab) → IsTimely (past (open_handler s tab))
unfolding open_handler
open_handler-IsTimely s tab h =
    elim (Bool-cases (is_current_socket s tab.state && nat_eq s.epoch tab.state.session_epoch)) [
      | inl e ↦
          rw (open_handler, e)
            (refreshed-IsTimely
              (record tab {
                state = record tab.state { reconnect_attempt = 0 };
                document = record tab.document {
                  is_connected = true;
                  connection_label = "Connected";
                };
              })
              h)
      | inr e ↦ rw (open_handler, e) h
    ]

close_handler-IsTimely :
    (s : PageSocket) (tab : Tab) → IsTimely (past tab) → IsTimely (past (close_handler s tab))
unfolding close_handler
close_handler-IsTimely s tab h = elim (Bool-cases (s.is_heard && is_current_socket s tab.state)) [
  | inl e ↦
      rw (close_handler, e)
        (schedule_reconnect-IsTimely (record tab { state = record tab.state { socket = none } }) h)
  | inr e ↦ rw (close_handler, e) h
]

module _ (browser : Browser) where
  message_handler-IsTimely :
      (m : Option Value) (s : PageSocket) (tab : Tab)
      → IsTimely (past tab)
      → IsTimely (past (message_handler browser m s tab))
  unfolding message_handler
  message_handler-IsTimely m s tab h =
      elim (Bool-cases (is_current_socket s tab.state && nat_eq s.epoch tab.state.session_epoch)) [
        | inl e ↦ rw (message_handler, e) (handle_realtime_event-IsTimely browser m tab h)
        | inr e ↦ rw (message_handler, e) h
      ]

  on_call-IsTimely :
      (f : Call → Tab → Tab) (id : ℕ) (tab : Tab)
      → ((c : Call) → In c tab.calls → IsTimely (past (f c tab)))
      → IsTimely (past tab)
      → IsTimely (past (on_call f id tab))
  on_call-IsTimely f id tab k h = elim (Option-cases (find_call id tab.calls)) [
    | inl e ↦ rw (on_call, e) h
    | inr (c, e) ↦ rw (on_call, e) (k c (find_call-In id c tab.calls e))
  ]

  on_socket-IsTimely :
      (f : PageSocket → Tab → Tab) (id : ℕ) (tab : Tab)
      → ((s : PageSocket) → IsTimely (past (f s tab)))
      → IsTimely (past tab)
      → IsTimely (past (on_socket f id tab))
  on_socket-IsTimely f id tab k h = elim (Option-cases (find_socket id tab.sockets)) [
    | inl e ↦ rw (on_socket, e) h
    | inr (s, e) ↦ rw (on_socket, e) (k s)
  ]

  fire_timer-IsTimely :
      (id : ℕ) (tab : Tab) → IsTimely (past tab) → IsTimely (past (fire_timer id tab))
  unfolding fire_timer
  fire_timer-IsTimely id tab h =
      elim (Bool-cases (not (any (λ t. nat_eq t.timer_id id) tab.timers))) [
        | inl e ↦ rw (fire_timer, e) h
        | inr e ↦
            rw (fire_timer, e)
              (connect_realtime-IsTimely
                (record tab {
                  state = record tab.state { reconnect_timer = 0 };
                  timers = filter (λ t. not (nat_eq t.timer_id id)) tab.timers;
                })
                h)
      ]

  pub handle-IsTimely :
      (e : Event) (tab : Tab) → IsTimely (past tab) → IsTimely (past (handle browser e tab))
  unfolding handle render_runners
  handle-IsTimely (submitted input) tab h =
      if-IsTimely tab.document.auth_view_hidden tab (submit_token input tab) h
        (submit_token-IsTimely input tab h)
  handle-IsTimely refresh_clicked tab h = refreshed-IsTimely tab h
  handle-IsTimely sign_out_clicked tab h = sign_out-IsTimely tab h
  handle-IsTimely selfcheck_clicked tab h = run_selfcheck-IsTimely tab h
  handle-IsTimely next_page_clicked tab h = relisted-IsTimely tab (with_next_page tab) refl h
  handle-IsTimely (runner_filter_changed r) tab h =
      relisted-IsTimely tab (with_runner_filter r tab) refl h
  handle-IsTimely (status_filter_changed s) tab h =
      relisted-IsTimely tab (with_status_filter s tab) refl h
  handle-IsTimely (runner_clicked r) tab h =
      relisted-IsTimely tab (with_runner_clicked r tab) refl h
  handle-IsTimely (task_clicked t) tab h = select_task-IsTimely browser t tab h
  handle-IsTimely (visibility_changed is_hidden) tab h = change_visibility-IsTimely is_hidden tab h
  handle-IsTimely (responded id status) tab h =
      on_call-IsTimely (response_arrived browser status) id tab
        (λ c m. response_arrived-IsTimely browser status c tab m h) h
  handle-IsTimely (failed_to_fetch id message) tab h =
      on_call-IsTimely (request_failed browser message) id tab
        (λ c m. request_failed-IsTimely browser message c tab m h) h
  handle-IsTimely (body_read id body) tab h =
      on_call-IsTimely (body_arrived browser body) id tab
        (λ c m. body_arrived-IsTimely browser body c tab m h) h
  handle-IsTimely (socket_opened id) tab h =
      on_socket-IsTimely open_handler id tab (λ s. open_handler-IsTimely s tab h) h
  handle-IsTimely (socket_failed id) tab h = h
  handle-IsTimely (socket_closed id) tab h =
      on_socket-IsTimely (λ s t. close_handler s (without_socket id t)) id tab
        (λ s. close_handler-IsTimely s (without_socket id tab) h) h
  handle-IsTimely (socket_message id m) tab h =
      on_socket-IsTimely (message_handler browser m) id tab
        (λ s. message_handler-IsTimely m s tab h) h
  handle-IsTimely (timer_fired id) tab h = fire_timer-IsTimely id tab h

  pub handle_all-IsTimely :
      (es : List Event) (tab : Tab)
      → IsTimely (past tab)
      → IsTimely (past (handle_all browser es tab))
  unfolding handle_all
  handle_all-IsTimely [] tab h = h
  handle_all-IsTimely (e ∷ es) tab h =
      handle_all-IsTimely es (handle browser e tab) (handle-IsTimely e tab h)

unopened-IsTimely :
    (token : Option String) (is_hidden : Bool) → IsTimely (past (unopened token is_hidden))
unopened-IsTimely token is_hidden = record {
  asked_before = λ c m. elim m [ ];
  same_token = λ c m. elim m [ ];
  same_epoch = λ c e m. elim m [ ];
  awaited_before = λ c id m. elim m [ ];
  linked = λ c r m. elim m [ ];
  refresh_before = λ r m. elim m [ ];
  caller_epoch = λ r epoch t m. elim m [ ];
  promised = λ id e. cc;
  promised_epoch = λ r m. elim m [ ];
  session_known = λ e f. cc;
}

pub opened-IsTimely :
    (token : Option String) (is_hidden : Bool) → IsTimely (past (opened token is_hidden))
unfolding opened connect
opened-IsTimely token is_hidden =
    let tab = unopened token is_hidden in
    elim (Bool-cases (is_empty tab.state.token)) [
      | inl e ↦ rw (opened, e) (unopened-IsTimely token is_hidden)
      | inr e ↦
          rw (opened, e)
            (refresh_all-IsTimely (connecting tab.state.session_epoch tab.state.token) tab
              (λ epoch t f. cc) (unopened-IsTimely token is_hidden))
    ]
