-- ===== src/AdminPage/Timely/Resuming.antt =====
-- Whatever answer the administration page goes on with, its sessions are kept apart (the rest of each
-- function after `await api(...)` in `src/worker/admin-page.ts`).
use task_hub.Shared.{
  ℕ, ◌+◌, ◌≡◌, ap, inl, inr, Bool, Option, none, some, List, String, ◌&&◌, ◌||◌, not, arith, nat_eq,
  ◌==◌, Bool-cases, Option-cases,
}
use task_hub.Shared.Text.{is_empty}
use task_hub.Types.{RunnerView}
use task_hub.Types.Json.{Value, str, get}
use task_hub.AdminPage.View.{Browser, or_empty, is_truthy}
use task_hub.AdminPage.State.{
  Awaiting, selfcheck_listing, unheeded, Continuation, presence, runners_page, tasks_page,
  task_detail, task_logs, selfcheck, events_ticket, Tab,
}
use task_hub.AdminPage.Render.{render_runners, render_runner_filter, render_tasks}
use task_hub.AdminPage.Loads.{load_runners, load_tasks}
use task_hub.AdminPage.Settle.{
  presence_body, runners_body, tasks_body, ticket_body, Outcome, returned, threw, type_error,
  resume_presence, runners_loaded, resume_runners, tasks_loaded, resume_tasks, resume_selection,
}
use task_hub.AdminPage.Realtime.{
  resume_selfcheck, realtime_failed, open_socket, ticket_issued, resume_ticket, resume, task_told,
  told_task, event_told, handle_realtime_event,
}
use task_hub.AdminPage.Timely.{
  kept_epoch, Past, past, IsTimely, IsReady, unheeded-IsAwaited, selfcheck_listing-IsAwaited,
}
use task_hub.AdminPage.Timely.Changes.{fresh-IsTimely}
use task_hub.AdminPage.Timely.Asking.{api-IsTimely, load_runners-IsTimely, load_tasks-IsTimely}
use task_hub.AdminPage.Timely.Sessions.{select_task-IsTimely, schedule_reconnect-IsTimely}
use task_hub.AdminPage.Timely.Answers.{finish-IsTimely}

-- A continuation of this session may still ask for more.
abbrev pub IsStillReady : Past → Continuation → Type 0
IsStillReady p k = kept_epoch k ≡ some p.session_epoch → IsReady p k

resume_presence-IsTimely :
    (w : Awaiting) (epoch : ℕ) (o : Outcome) (tab : Tab)
    → IsTimely (past tab)
    → IsTimely (past (resume_presence w epoch o tab))
unfolding resume_presence render_runners
resume_presence-IsTimely w epoch (threw e) tab h = finish-IsTimely (some e) w tab h
resume_presence-IsTimely w epoch (returned (presence_body ids)) tab h =
    elim (Bool-cases (nat_eq epoch tab.state.session_epoch)) [
      | inl e ↦ rw (resume_presence, e) (finish-IsTimely none w _ h)
      | inr e ↦ rw (resume_presence, e) (finish-IsTimely none w tab h)
    ]
resume_presence-IsTimely w epoch (returned _) tab h = finish-IsTimely (some type_error) w tab h

resume_runners-IsTimely :
    (w : Awaiting) (generation epoch : ℕ) (before : List RunnerView) (o : Outcome) (tab : Tab)
    → IsStillReady (past tab) (runners_page w generation epoch before)
    → IsTimely (past tab)
    → IsTimely (past (resume_runners w generation epoch before o tab))
unfolding resume_runners runners_loaded render_runners render_runner_filter
resume_runners-IsTimely w generation epoch before (threw e) tab k h =
    finish-IsTimely (some e) w tab h
resume_runners-IsTimely w generation epoch before (returned (runners_body page)) tab k h =
    let s = tab.state in
    elim (Bool-cases
      (nat_eq generation s.runner_request_generation && nat_eq epoch s.session_epoch)) [
        | inr e ↦ rw (resume_runners, e) (finish-IsTimely none w tab h)
        | inl e ↦ elim (Bool-cases (is_empty (or_empty page.next_cursor))) [
          | inl f ↦ rw (resume_runners, e, f) (finish-IsTimely none w _ h)
          | inr f ↦
              let q : epoch ≡ s.session_epoch = ground (arith, e) in
              let ready = k (ap some q) in
              rw (resume_runners, e, f)
                (api-IsTimely _ _ tab
                  (record { now = ready.now; known = ready.known; of_session = ready.of_session })
                  h)
        ]
      ]
resume_runners-IsTimely w generation epoch before (returned _) tab k h =
    finish-IsTimely (some type_error) w tab h

module _ (browser : Browser) where
  resume_tasks-IsTimely :
      (w : Awaiting) (generation epoch : ℕ) (o : Outcome) (tab : Tab)
      → IsTimely (past tab)
      → IsTimely (past (resume_tasks browser w generation epoch o tab))
  unfolding resume_tasks tasks_loaded render_tasks
  resume_tasks-IsTimely w generation epoch (returned (tasks_body page)) tab h =
      let s = tab.state in
      elim (Bool-cases
        (nat_eq generation s.task_request_generation && nat_eq epoch s.session_epoch)) [
          | inl e ↦ rw (resume_tasks, e) (finish-IsTimely none w _ h)
          | inr e ↦ rw (resume_tasks, e) (finish-IsTimely none w tab h)
        ]
  resume_tasks-IsTimely w generation epoch (threw m) tab h =
      let s = tab.state in
      elim (Bool-cases
        (nat_eq generation s.task_request_generation && nat_eq epoch s.session_epoch)) [
          | inl e ↦ rw (resume_tasks, e) (finish-IsTimely (some m) w _ h)
          | inr e ↦ rw (resume_tasks, e) (finish-IsTimely none w tab h)
        ]
  resume_tasks-IsTimely w generation epoch (returned _) tab h =
      let s = tab.state in
      elim (Bool-cases
        (nat_eq generation s.task_request_generation && nat_eq epoch s.session_epoch)) [
          | inl e ↦ rw (resume_tasks, e) (finish-IsTimely (some type_error) w _ h)
          | inr e ↦ rw (resume_tasks, e) (finish-IsTimely none w tab h)
        ]

  resume_selection-past :
      (selection generation epoch : ℕ) (task_id : String) (o : Outcome) (tab : Tab)
      → past (resume_selection browser selection generation epoch task_id o tab) ≡ past tab
  unfolding resume_selection
  resume_selection-past selection generation epoch task_id (threw e) tab = ground arith
  resume_selection-past selection generation epoch task_id (returned b) tab = ground arith

  realtime_failed-IsTimely :
      (epoch : ℕ) (message : String) (tab : Tab)
      → IsTimely (past tab)
      → IsTimely (past (realtime_failed epoch message tab))
  realtime_failed-IsTimely epoch message tab h =
      elim (Bool-cases (nat_eq epoch tab.state.session_epoch && not (message == "unauthorized"))) [
        | inl e ↦ rw e (schedule_reconnect-IsTimely tab h)
        | inr e ↦ rw e h
      ]

  ticket_issued-IsTimely :
      (epoch : ℕ) (ticket : String) (tab : Tab)
      → IsTimely (past tab)
      → IsTimely (past (ticket_issued browser epoch ticket tab))
  unfolding open_socket
  ticket_issued-IsTimely epoch ticket tab h =
      elim (Bool-cases (not (nat_eq epoch tab.state.session_epoch) || tab.document.is_hidden)) [
        | inl e ↦ rw e h
        | inr e ↦ elim (Option-cases tab.state.socket) [
          | inr (id, f) ↦ rw (e, f) h
          | inl f ↦ elim (Bool-cases (browser.is_protocol ticket)) [
            | inl g ↦ rw (e, f, g) (fresh-IsTimely (past tab) (tab.fresh + 1) (omega arith) h)
            | inr g ↦ rw (e, f, g) (realtime_failed-IsTimely epoch "SyntaxError" tab h)
          ]
        ]
      ]

  resume_ticket-IsTimely :
      (epoch : ℕ) (o : Outcome) (tab : Tab)
      → IsTimely (past tab)
      → IsTimely (past (resume_ticket browser epoch o tab))
  unfolding resume_ticket
  resume_ticket-IsTimely epoch (threw e) tab h = realtime_failed-IsTimely epoch e tab h
  resume_ticket-IsTimely epoch (returned (ticket_body t)) tab h =
      ticket_issued-IsTimely epoch t tab h
  resume_ticket-IsTimely epoch (returned _) tab h = realtime_failed-IsTimely epoch type_error tab h

  resume_selfcheck-IsTimely :
      (o : Outcome) (tab : Tab) → IsTimely (past tab) → IsTimely (past (resume_selfcheck o tab))
  unfolding resume_selfcheck
  resume_selfcheck-IsTimely (threw e) tab h = h
  resume_selfcheck-IsTimely (returned b) tab h =
      load_tasks-IsTimely selfcheck_listing
        (record tab { state = record tab.state { task_cursor = "" } })
        (selfcheck_listing-IsAwaited (past tab)) h

  pub resume-IsTimely :
      (k : Continuation) (o : Outcome) (tab : Tab)
      → IsStillReady (past tab) k
      → IsTimely (past tab)
      → IsTimely (past (resume browser k o tab))
  unfolding resume
  resume-IsTimely (presence w e) o tab k h = resume_presence-IsTimely w e o tab h
  resume-IsTimely (runners_page w g e before) o tab k h =
      resume_runners-IsTimely w g e before o tab k h
  resume-IsTimely (tasks_page w g e) o tab k h = resume_tasks-IsTimely w g e o tab h
  resume-IsTimely (task_detail selection g e task_id) o tab k h =
      rw (resume_selection-past selection g e task_id o tab) h
  resume-IsTimely (task_logs selection g e task_id) o tab k h =
      rw (resume_selection-past selection g e task_id o tab) h
  resume-IsTimely selfcheck o tab k h = resume_selfcheck-IsTimely o tab h
  resume-IsTimely (events_ticket e) o tab k h = resume_ticket-IsTimely e o tab h

  task_told-IsTimely :
      (task_id : String) (tab : Tab)
      → IsTimely (past tab)
      → IsTimely (past (task_told browser task_id tab))
  task_told-IsTimely task_id tab h =
      let t1 = load_runners unheeded tab in
      let t2 = load_tasks unheeded t1 in
      let h1 = load_runners-IsTimely unheeded tab (unheeded-IsAwaited (past tab)) h in
      let h2 = load_tasks-IsTimely unheeded t1 (unheeded-IsAwaited (past t1)) h1 in
      elim (Bool-cases (task_id == t2.state.selected_task_id)) [
        | inl e ↦ rw e (select_task-IsTimely browser task_id t2 h2)
        | inr e ↦ rw e h2
      ]

  told_task-IsTimely :
      (type : String) (v : Value) (tab : Tab)
      → IsTimely (past tab)
      → IsTimely (past (told_task browser type v tab))
  told_task-IsTimely type (str task_id) tab h = elim (Bool-cases (type == "task_changed")) [
    | inl e ↦ rw e (task_told-IsTimely task_id tab h)
    | inr e ↦ rw e h
  ]
  told_task-IsTimely type _ tab h = h

  event_told-IsTimely :
      (type runner_id task_id : Value) (online : Bool) (tab : Tab)
      → IsTimely (past tab)
      → IsTimely (past (event_told browser type runner_id task_id online tab))
  unfolding render_runners
  event_told-IsTimely (str type) (str runner_id) task_id online tab h =
      elim (Bool-cases (type == "runner_presence_changed")) [
        | inl e ↦ rw e h
        | inr e ↦ rw e (told_task-IsTimely type task_id tab h)
      ]
  event_told-IsTimely (str type) _ task_id online tab h = told_task-IsTimely type task_id tab h
  event_told-IsTimely _ runner_id task_id online tab h = h

  pub handle_realtime_event-IsTimely :
      (message : Option Value) (tab : Tab)
      → IsTimely (past tab)
      → IsTimely (past (handle_realtime_event browser message tab))
  unfolding handle_realtime_event
  handle_realtime_event-IsTimely none tab h = h
  handle_realtime_event-IsTimely (some event) tab h =
      event_told-IsTimely (get "type" event) (get "runnerId" event) (get "taskId" event)
        (is_truthy (get "online" event)) tab h
