-- ===== src/Tests/AdminPageWitnesses.antt =====
-- The theorems about the administration page at concrete inputs.
use task_hub.Shared.{◌≡◌, refl, arith, true, false, none, some, List, [], ◌∷◌}
use task_hub.Shared.Text.{trim}
use task_hub.Types.{ok}
use task_hub.Types.Json.{undefined}
use task_hub.Tests.{toy}
use task_hub.Service.Submit.{validate_submission}
use task_hub.AdminPage.View.{Browser}
use task_hub.AdminPage.State.{Call, refresh, tasks_page, PageSocket, Tab}
use task_hub.AdminPage.Session.{sign_out, connect_realtime}
use task_hub.AdminPage.Loads.{run_selfcheck}
use task_hub.AdminPage.Settle.{presence_body, runners_body, tasks_body, ticket_body}
use task_hub.AdminPage.Events.{
  Event, responded, failed_to_fetch, body_read, sign_out_clicked, runner_filter_changed,
  visibility_changed, submit_token, message_handler, open_handler, handle, handle_all, opened,
}
use task_hub.AdminPage.Wiring.{IsWired, IsLinked}
use task_hub.AdminPage.Timely.Reaching.{handle_all-IsTimely, opened-IsTimely}
use task_hub.AdminPage.Stale.{effects, status}
use task_hub.AdminPage.Outdated.{answer-stale}
use task_hub.AdminPage.Realtime.{reject}
use task_hub.AdminPage.Rejection.{rejection-signed_out}
use task_hub.AdminPage.Reached.{handle_all-IsWired, handle_all-IsLinked}
use task_hub.AdminPage.Requests.{
  selfcheck_submission, selfcheck_call, run_selfcheck-accepted, submit_token-deaf,
}

abbrev browser : Browser
browser = record {
  locale_string = λ t. "then";
  stringify_indented = λ v. "{}";
  encode_uri_component = λ s. s;
  is_protocol = λ s. true;
}

abbrev first_page : Tab
first_page = opened (some "secret") false

-- The three answers to the first refresh, then the ticket.
abbrev signed_in : List Event
signed_in =
    responded 2 200
    ∷ body_read 2 (presence_body ("r1" ∷ []))
    ∷ responded 4 200
    ∷ responded 3 200
    ∷ body_read 3 (runners_body (record { items = []; next_cursor = none }))
    ∷ body_read 4 (tasks_body (record { items = []; next_cursor = none }))
    ∷ responded 5 200
    ∷ body_read 5 (ticket_body "t")
    ∷ []

handle_all-IsWired_example : IsWired (handle_all browser signed_in first_page)
handle_all-IsWired_example = handle_all-IsWired browser (some "secret") false signed_in

handle_all-IsLinked_example : IsLinked (handle_all browser signed_in first_page)
unfolding handle_all opened
handle_all-IsLinked_example =
    handle_all-IsLinked browser (some "secret") false signed_in
      (tt, (refl, (tt, (tt, (refl, (refl, (tt, (refl, tt)))))))) refl refl refl

-- The request for the tasks of the first refresh.
abbrev tasks_call : Call
tasks_call = record {
  call_id = 4;
  request_epoch = 0;
  request_token = "secret";
  request = record {
    method = "GET";
    path = "/api/admin/tasks";
    query = ("limit", "50") ∷ [];
    body = undefined;
  };
  response_ok = none;
  continuation = tasks_page (refresh 1) 1 0;
}

abbrev signed_out : Tab
signed_out = handle_all browser (sign_out_clicked ∷ []) first_page

answer-stale_example : effects (handle browser (responded 4 401) signed_out) ≡ effects signed_out
unfolding handle_all opened
answer-stale_example =
    answer-stale browser (some "secret") false (sign_out_clicked ∷ []) 4 tasks_call
      (responded 4 401) refl (λ e. absurd (omega (arith, e))) refl (status 401)

rejection-signed_out_example :
    effects (handle browser (responded 4 401) (handle_all browser [] first_page))
    ≡ effects (reject (sign_out (handle_all browser [] first_page)))
unfolding handle_all opened
rejection-signed_out_example =
    rejection-signed_out browser (some "secret") false [] 4 tasks_call refl refl refl

abbrev filtered : Tab
filtered = handle_all browser (runner_filter_changed "r1" ∷ []) first_page

run_selfcheck-accepted_example :
    ((run_selfcheck filtered).calls ≡ selfcheck_call filtered ∷ filtered.calls)
    × (validate_submission toy (selfcheck_call filtered).request.body
        ≡ ok (selfcheck_submission filtered.state.selected_runner_id))
unfolding handle_all opened trim
run_selfcheck-accepted_example = run_selfcheck-accepted toy filtered refl

-- The first refresh failed, so the form is shown; the page was hidden and shown again, and got a
-- ticket.
abbrev half_open : List Event
half_open =
    failed_to_fetch 2 "Failed to fetch"
    ∷ visibility_changed true
    ∷ visibility_changed false
    ∷ responded 9 200
    ∷ body_read 9 (ticket_body "t")
    ∷ []

abbrev half_page : Tab
half_page = handle_all browser half_open first_page

abbrev its_socket : PageSocket
its_socket = record { socket_id = 10; epoch = 0; is_closing = false; is_heard = true }

submit_token-deaf_example :
    ((submit_token "other" half_page).state.socket ≡ some 10)
    × (connect_realtime (submit_token "other" half_page) ≡ submit_token "other" half_page)
    × (message_handler browser none its_socket (submit_token "other" half_page)
        ≡ submit_token "other" half_page)
    × (open_handler its_socket (submit_token "other" half_page) ≡ submit_token "other" half_page)
unfolding handle_all opened
submit_token-deaf_example =
    submit_token-deaf browser "other" half_page its_socket none
      (handle_all-IsTimely browser half_open first_page (opened-IsTimely (some "secret") false))
      refl (omega arith)
