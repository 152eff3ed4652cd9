-- ===== src/AdminPage/Reached.antt =====
-- However the administration page is used, it keeps in touch with the worker (all that happens to the
-- page of `src/worker/admin-page.ts`).
use task_hub.Shared.{◌≡◌, false, refl, inl, Bool, Option, List, [], ◌∷◌, String, ◌&&◌, nat_eq, All}
use task_hub.Shared.Text.{is_empty}
use task_hub.Types.Json.{Value}
use task_hub.AdminPage.View.{Browser}
use task_hub.AdminPage.State.{unheeding, connecting, PageSocket, Tab}
use task_hub.AdminPage.Loads.{connect}
use task_hub.AdminPage.Settle.{threw}
use task_hub.AdminPage.Realtime.{response_arrived, request_failed, body_arrived}
use task_hub.AdminPage.Events.{
  Event, submitted, refresh_clicked, sign_out_clicked, selfcheck_clicked, next_page_clicked,
  runner_filter_changed, status_filter_changed, runner_clicked, task_clicked, visibility_changed,
  responded, failed_to_fetch, body_read, socket_opened, socket_failed, socket_closed,
  socket_message, timer_fired, submit_token, with_runner_filter, with_status_filter, with_next_page,
  with_runner_clicked, is_current_socket, open_handler, close_handler, without_socket,
  message_handler, handle, handle_all, opened, unopened,
}
use task_hub.AdminPage.Wiring.{
  IsLinked, IsWired, IsLive, IsKept, IsKept-refl, IsKept-IsWired, IsKept-IsLive, IsSafe,
  IsKept-IsSafe, if-IsSafe,
}
use task_hub.AdminPage.Kept.{
  same-IsKept, if-IsKept, refresh_all-IsKept, select_task-IsKept, run_selfcheck-IsKept,
  handle_realtime_event-IsKept,
}
use task_hub.AdminPage.Timely.{past, IsTimely}
use task_hub.AdminPage.Timely.Reaching.{handle-IsTimely, opened-IsTimely}
use task_hub.AdminPage.Closing.{closed-IsSafe, failed-IsSafe, fire_timer-IsSafe}
use task_hub.AdminPage.Answers.{
  went_on-IsWired, went_on-IsLive, response_arrived-IsWired, response_arrived-IsLive,
  body_arrived-IsWired, body_arrived-IsLive,
}
use task_hub.AdminPage.Reach.{
  submitted-IsSafe, signed_out-IsSafe, change_visibility-IsSafe, open_handler-IsSafe, listed-IsSafe,
  on_socket-IsSafe, on_call-IsSafe, on_call-IsWired, shut_or, IsPlain,
}

module _ (browser : Browser) where
  message_handler-IsSafe :
      (m : Option Value) (s : PageSocket) (tab : Tab) → IsSafe tab (message_handler browser m s tab)
  unfolding message_handler
  message_handler-IsSafe m s tab =
      if-IsSafe (is_current_socket s tab.state && nat_eq s.epoch tab.state.session_epoch) _ tab
        (IsKept-IsSafe (handle_realtime_event-IsKept browser m tab))
        (IsKept-IsSafe (IsKept-refl tab))

  handle-IsSafe :
      (e : Event) (tab : Tab) → IsPlain e → IsTimely (past tab) → IsSafe tab (handle browser e tab)
  unfolding handle request_failed
  handle-IsSafe (submitted input) tab p h =
      shut_or (submit_token input tab) tab.document.auth_view_hidden (submitted-IsSafe input tab)
  handle-IsSafe refresh_clicked tab p h = IsKept-IsSafe (refresh_all-IsKept unheeding tab)
  handle-IsSafe sign_out_clicked tab p h = signed_out-IsSafe tab
  handle-IsSafe selfcheck_clicked tab p h = IsKept-IsSafe (run_selfcheck-IsKept tab)
  handle-IsSafe next_page_clicked tab p h =
      listed-IsSafe tab (with_next_page tab) (same-IsKept tab _ refl refl refl)
  handle-IsSafe (runner_filter_changed r) tab p h =
      listed-IsSafe tab (with_runner_filter r tab) (same-IsKept tab _ refl refl refl)
  handle-IsSafe (status_filter_changed s) tab p h =
      listed-IsSafe tab (with_status_filter s tab) (same-IsKept tab _ refl refl refl)
  handle-IsSafe (runner_clicked r) tab p h =
      listed-IsSafe tab (with_runner_clicked r tab) (same-IsKept tab _ refl refl refl)
  handle-IsSafe (task_clicked t) tab p h = IsKept-IsSafe (select_task-IsKept browser t tab)
  handle-IsSafe (visibility_changed is_hidden) tab p h = change_visibility-IsSafe is_hidden tab
  handle-IsSafe (responded id status) tab p h =
      on_call-IsSafe (response_arrived browser status) id tab (λ c f. record {
        wired = response_arrived-IsWired id c tab f browser status;
        live = response_arrived-IsLive id c tab f browser status h;
      })
  handle-IsSafe (failed_to_fetch id message) tab p h =
      on_call-IsSafe (request_failed browser message) id tab (λ c f. record {
        wired = went_on-IsWired id c tab f browser (threw message);
        live = went_on-IsLive id c tab f browser (threw message) (inl p);
      })
  handle-IsSafe (body_read id b) tab p h = on_call-IsSafe (body_arrived browser b) id tab (λ c f.
      record {
        wired = body_arrived-IsWired id c tab f browser b;
        live = body_arrived-IsLive id c tab f browser b p;
      })
  handle-IsSafe (socket_opened id) tab p h =
      on_socket-IsSafe open_handler id tab (λ s f. open_handler-IsSafe s tab)
  handle-IsSafe (socket_failed id) tab p h = failed-IsSafe id tab
  handle-IsSafe (socket_closed id) tab p h =
      on_socket-IsSafe (λ s t. close_handler s (without_socket id t)) id tab
        (λ s f. closed-IsSafe id s tab f)
  handle-IsSafe (socket_message id m) tab p h =
      on_socket-IsSafe (message_handler browser m) id tab (λ s f. message_handler-IsSafe m s tab)
  handle-IsSafe (timer_fired id) tab p h = fire_timer-IsSafe id tab

  handle-IsWired :
      (e : Event) (tab : Tab) → IsTimely (past tab) → IsWired tab → IsWired (handle browser e tab)
  unfolding handle request_failed
  handle-IsWired (failed_to_fetch id message) tab h w =
      on_call-IsWired (request_failed browser message) id tab w
        (λ c f. went_on-IsWired id c tab f browser (threw message) w)
  handle-IsWired (body_read id b) tab h w =
      on_call-IsWired (body_arrived browser b) id tab w
        (λ c f. body_arrived-IsWired id c tab f browser b w)
  handle-IsWired (submitted i) tab h w = (handle-IsSafe (submitted i) tab tt h).wired w
  handle-IsWired refresh_clicked tab h w = (handle-IsSafe refresh_clicked tab tt h).wired w
  handle-IsWired sign_out_clicked tab h w = (handle-IsSafe sign_out_clicked tab tt h).wired w
  handle-IsWired selfcheck_clicked tab h w = (handle-IsSafe selfcheck_clicked tab tt h).wired w
  handle-IsWired next_page_clicked tab h w = (handle-IsSafe next_page_clicked tab tt h).wired w
  handle-IsWired (runner_filter_changed r) tab h w =
      (handle-IsSafe (runner_filter_changed r) tab tt h).wired w
  handle-IsWired (status_filter_changed s) tab h w =
      (handle-IsSafe (status_filter_changed s) tab tt h).wired w
  handle-IsWired (runner_clicked r) tab h w = (handle-IsSafe (runner_clicked r) tab tt h).wired w
  handle-IsWired (task_clicked t) tab h w = (handle-IsSafe (task_clicked t) tab tt h).wired w
  handle-IsWired (visibility_changed v) tab h w =
      (handle-IsSafe (visibility_changed v) tab tt h).wired w
  handle-IsWired (responded id n) tab h w = (handle-IsSafe (responded id n) tab tt h).wired w
  handle-IsWired (socket_opened id) tab h w = (handle-IsSafe (socket_opened id) tab tt h).wired w
  handle-IsWired (socket_failed id) tab h w = (handle-IsSafe (socket_failed id) tab tt h).wired w
  handle-IsWired (socket_closed id) tab h w = (handle-IsSafe (socket_closed id) tab tt h).wired w
  handle-IsWired (socket_message id m) tab h w =
      (handle-IsSafe (socket_message id m) tab tt h).wired w
  handle-IsWired (timer_fired id) tab h w = (handle-IsSafe (timer_fired id) tab tt h).wired w

  handled-IsWired :
      (es : List Event) (tab : Tab)
      → IsTimely (past tab)
      → IsWired tab
      → IsWired (handle_all browser es tab)
  unfolding handle_all
  handled-IsWired [] tab h w = w
  handled-IsWired (e ∷ es) tab h w =
      handled-IsWired es (handle browser e tab) (handle-IsTimely browser e tab h)
        (handle-IsWired e tab h w)

  handled-IsLive :
      (es : List Event) (tab : Tab)
      → All IsPlain es
      → IsTimely (past tab)
      → IsWired tab
      → IsLive tab
      → IsLive (handle_all browser es tab)
  unfolding handle_all
  handled-IsLive [] tab p h w l = l
  handled-IsLive (e ∷ es) tab p h w l =
      handled-IsLive es (handle browser e tab) p.1 (handle-IsTimely browser e tab h)
        (handle-IsWired e tab h w) ((handle-IsSafe e tab p.0 h).live w l)

unopened-IsWired : (token : Option String) (is_hidden : Bool) → IsWired (unopened token is_hidden)
unopened-IsWired token is_hidden = record {
  sole = λ s m. elim m [ ];
  heard = λ s m. elim m [ ];
  there = λ id e. cc;
  sockets_before = λ s m. elim m [ ];
  one_view = λ e. refl;
  one_timer = inl refl;
}

-- Opening the page asks for its data at most.
opened-IsKept :
    (token : Option String) (is_hidden : Bool)
    → IsKept (unopened token is_hidden) (opened token is_hidden)
unfolding opened connect
opened-IsKept token is_hidden =
    let tab = unopened token is_hidden in
    if-IsKept (is_empty tab.state.token) tab (connect tab) (IsKept-refl tab)
      (refresh_all-IsKept (connecting tab.state.session_epoch tab.state.token) tab)

module _ (browser : Browser) (token : Option String) (is_hidden : Bool) (es : List Event) where
  -- However the page was used since it was opened: every socket but the one that the state names is
  -- closing; of that one the page hears when it closes; there is no timer or only the one that the
  -- state names, which waits between one second and one minute; and the form and the console are
  -- not both shown.
  pub handle_all-IsWired : IsWired (handle_all browser es (opened token is_hidden))
  handle_all-IsWired =
      handled-IsWired browser es (opened token is_hidden) (opened-IsTimely token is_hidden)
        (IsKept-IsWired (opened-IsKept token is_hidden) (unopened-IsWired token is_hidden))

  -- However the page was used since it was opened, if no failure but the status 401 has the message
  -- "unauthorized": while the console is shown on a visible page with a token, the state names a
  -- socket, or a timer is set to open one, or a request for a ticket of this session is not answered.
  pub handle_all-IsLinked :
      All IsPlain es
      → (handle_all browser es (opened token is_hidden)).document.app_hidden ≡ false
      → (handle_all browser es (opened token is_hidden)).document.is_hidden ≡ false
      → is_empty (handle_all browser es (opened token is_hidden)).state.token ≡ false
      → IsLinked (handle_all browser es (opened token is_hidden))
  handle_all-IsLinked p =
      handled-IsLive browser es (opened token is_hidden) p (opened-IsTimely token is_hidden)
        (IsKept-IsWired (opened-IsKept token is_hidden) (unopened-IsWired token is_hidden))
        (IsKept-IsLive (opened-IsKept token is_hidden) (λ shown. cc))
