-- ===== src/AdminPage/Timely/Sessions.antt =====
-- What the administration page asks for on its own, and how its sessions begin and end
-- (`selectTask`, `runSelfcheck`, `connectRealtime`, `signOut` and the handler of "submit" of
-- `src/worker/admin-page.ts`).
use task_hub.Shared.{
  Option, ℕ, ◌+◌, ◌≤◌, ◌≡◌, refl, inl, inr, false, none, some, List, String, ◌||◌, arith, nat_eq,
  Bool-cases, Option-cases,
}
use task_hub.Shared.Text.{is_empty, trim}
use task_hub.AdminPage.View.{Browser}
use task_hub.AdminPage.State.{Continuation, Call, connecting, State, Tab}
use task_hub.AdminPage.Session.{
  api, ask_ticket, connect_realtime, schedule_reconnect, close_realtime, sign_out,
}
use task_hub.AdminPage.Loads.{
  joined_refresh, start_refresh, refresh_all, connect, select_task, run_selfcheck,
}
use task_hub.AdminPage.Render.{render_tasks}
use task_hub.AdminPage.Events.{submit_token}
use task_hub.AdminPage.Timely.{kept_epoch, awaited_by, past, IsTimely, IsReady}
use task_hub.AdminPage.Timely.Changes.{
  if-IsTimely, next_session-IsTimely, sent-IsTimely, fresh-IsTimely,
}
use task_hub.AdminPage.Timely.Asking.{api-IsTimely, start_refresh-IsTimely}

pub select_task-IsTimely :
    (browser : Browser) (task_id : String) (tab : Tab)
    → IsTimely (past tab)
    → IsTimely (past (select_task browser task_id tab))
unfolding select_task render_tasks api
select_task-IsTimely browser task_id tab h =
    let p = record (past tab) { fresh = tab.fresh + 1 } in
    let h0 = fresh-IsTimely (past tab) (tab.fresh + 1) (omega arith) h in
    let ready : (k : Continuation)
        → kept_epoch k ≡ some tab.state.session_epoch
        → awaited_by k ≡ none
        → (n : ℕ) (cs : List Call) → IsReady (record p { calls = cs; fresh = n }) k =
      λ k e f n cs. record {
        now = λ x g. ground (arith, e, g);
        known = λ x g. cc (f, g);
        of_session = λ r m g. cc (f, g);
      } in
    sent-IsTimely _ _ refl refl (ready _ refl refl _ _)
      (sent-IsTimely p _ refl refl (ready _ refl refl _ _) h0)

pub run_selfcheck-IsTimely : (tab : Tab) → IsTimely (past tab) → IsTimely (past (run_selfcheck tab))
unfolding run_selfcheck api
run_selfcheck-IsTimely tab h = elim (Bool-cases (is_empty tab.state.selected_runner_id)) [
  | inl e ↦ rw (run_selfcheck, e) h
  | inr e ↦
      rw (run_selfcheck, e)
        (sent-IsTimely (past tab) _ refl refl
          (record { now = λ x g. cc; known = λ x g. cc; of_session = λ r m g. cc }) h)
]

ask_ticket-IsTimely :
    (socket : Option ℕ) (tab : Tab) → IsTimely (past tab) → IsTimely (past (ask_ticket socket tab))
ask_ticket-IsTimely (some id) tab h = h
ask_ticket-IsTimely none tab h =
    api-IsTimely _ _ tab (record { now = λ x g. cc; known = λ x g. cc; of_session = λ r m g. cc }) h

pub connect_realtime-IsTimely :
    (tab : Tab) → IsTimely (past tab) → IsTimely (past (connect_realtime tab))
unfolding connect_realtime
connect_realtime-IsTimely tab h =
    if-IsTimely (is_empty tab.state.token || tab.document.is_hidden) tab
      (ask_ticket tab.state.socket tab) h (ask_ticket-IsTimely tab.state.socket tab h)

pub schedule_reconnect-IsTimely :
    (tab : Tab) → IsTimely (past tab) → IsTimely (past (schedule_reconnect tab))
unfolding schedule_reconnect
schedule_reconnect-IsTimely tab h =
    elim (Bool-cases (is_empty tab.state.token || tab.document.is_hidden)) [
      | inl e ↦ rw (schedule_reconnect, e) h
      | inr e ↦
          rw (schedule_reconnect, e) (fresh-IsTimely (past tab) (tab.fresh + 1) (omega arith) h)
    ]

pub sign_out-IsTimely : (tab : Tab) → IsTimely (past tab) → IsTimely (past (sign_out tab))
unfolding sign_out close_realtime
sign_out-IsTimely tab h = next_session-IsTimely (past tab) "" h

-- A new session joins no refresh of an earlier one.
unjoined :
    (s : State) (token : String)
    → ((e : ℕ) → s.refresh_epoch ≡ some e → e ≤ s.session_epoch)
    → joined_refresh (record s { session_epoch = s.session_epoch + 1; token = token }) ≡ none
unfolding joined_refresh
unjoined s token known = elim (Option-cases s.refresh_epoch) [
  | inl e ↦ rw (joined_refresh, e) refl
  | inr (x, e) ↦
      let low = known x e in
      let f : nat_eq x (s.session_epoch + 1) ≡ false = ground arith in
      rw (joined_refresh, e, f) refl
]

-- The page on which `submit` starts its refresh.
abbrev pub submitted_tab : String → Tab → Tab
submitted_tab input tab = record tab {
  state = record tab.state { session_epoch = tab.state.session_epoch + 1; token = trim input };
  document = record tab.document { token_input = input; auth_error = "" };
  stored_token = some (trim input);
}

pub submit_token_lem :
    (input : String) (tab : Tab)
    → IsTimely (past tab)
    → submit_token input tab
      ≡ start_refresh
          (connecting (tab.state.session_epoch + 1) (trim input))
          (submitted_tab input tab)
unfolding submit_token connect refresh_all
submit_token_lem input tab h =
    rw (submit_token, connect, refresh_all, unjoined tab.state (trim input) h.session_known) refl

pub submit_token-IsTimely :
    (input : String) (tab : Tab) → IsTimely (past tab) → IsTimely (past (submit_token input tab))
submit_token-IsTimely input tab h = rw (submit_token_lem input tab h) (
    start_refresh-IsTimely (connecting (tab.state.session_epoch + 1) (trim input))
      (submitted_tab input tab) (λ epoch token e. cc)
      (next_session-IsTimely (past tab) (trim input) h))
