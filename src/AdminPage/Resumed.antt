-- ===== src/AdminPage/Resumed.antt =====
-- An answer to the request for a ticket links the administration page again (`connectRealtime` and
-- `runSelfcheck` of `src/worker/admin-page.ts`), and so does every other leave it linked.
use task_hub.Shared.{
  ℕ, ◌≡◌, ◌≢◌, ◌⊎◌, refl, ap, inl, inr, Bool, true, false, Option, none, some, String, ◌&&◌, ◌||◌,
  not, arith, nat_eq, nat_eq_iff, ◌==◌, Bool-cases, if◌then◌else◌,
}
use task_hub.AdminPage.View.{Browser}
use task_hub.AdminPage.State.{
  Awaiting, Continuation, presence, runners_page, tasks_page, task_detail, task_logs, selfcheck,
  events_ticket, Tab,
}
use task_hub.AdminPage.Render.{show_task_error}
use task_hub.AdminPage.Session.{schedule_reconnect}
use task_hub.AdminPage.Settle.{
  tasks_body, ticket_body, Outcome, returned, threw, type_error, tasks_loaded, tasks_failed,
  resume_tasks,
}
use task_hub.AdminPage.Realtime.{realtime_failed, open_socket, ticket_issued, resume_ticket, resume}
use task_hub.AdminPage.Wiring.{IsWired, by_socket, IsLive, IsKept-refl, IsSafe, IsKept-IsSafe}
use task_hub.AdminPage.Kept.{
  if-IsKept, same-IsKept, tasks_loaded-IsKept, resume_selection-wires, resume_selfcheck-IsKept,
}
use task_hub.AdminPage.Lifeline.{if-IsWired, schedule_reconnect-IsWired, schedule_reconnect-IsLive}
use task_hub.AdminPage.Sockets.{open_socket-IsWired}
use task_hub.AdminPage.Settling.{
  finish-IsSafe, finished-IsSafe, resume_presence-IsSafe, resume_runners-IsSafe,
}

if-IsLive : (b : Bool) (x y : Tab) → (b ≡ true → IsLive x) → IsLive y → IsLive (if b then x else y)
if-IsLive true x y h k = h refl
if-IsLive false x y h k = k

-- The epoch of a request for a ticket.
ticket_epoch : Continuation → ℕ
ticket_epoch (events_ticket e) = e
ticket_epoch _ = 0

epoch_differs : (e n : ℕ) → nat_eq e n ≡ false → events_ticket e ≢ events_ticket n
unfolding ticket_epoch
epoch_differs e n f g = let h : e ≡ n = ap ticket_epoch g in absurd (ground (arith, f, h))

tasks_failed-IsSafe :
    (w : Awaiting) (is_current : Bool) (message : String) (tab : Tab)
    → IsSafe tab (tasks_failed w is_current message tab)
tasks_failed-IsSafe w true message tab =
    finished-IsSafe (some message) w tab (show_task_error message tab)
      (same-IsKept tab _ refl refl refl)
tasks_failed-IsSafe w false message tab = finish-IsSafe none w tab

-- An outcome that is not taken for the rejection of the token.
abbrev pub IsHeeded : Outcome → Type 0
IsHeeded (returned body) = Unit {0}
IsHeeded (threw message) = (message == "unauthorized") ≡ false

module _ (browser : Browser) where
  resume_tasks-IsSafe :
      (w : Awaiting) (generation epoch : ℕ) (o : Outcome) (tab : Tab)
      → IsSafe tab (resume_tasks browser w generation epoch o tab)
  unfolding resume_tasks
  resume_tasks-IsSafe w generation epoch (threw m) tab =
      tasks_failed-IsSafe w
        (nat_eq generation tab.state.task_request_generation
          && nat_eq epoch tab.state.session_epoch)
        m tab
  resume_tasks-IsSafe w generation epoch (returned (tasks_body page)) tab =
      finished-IsSafe none w tab _ (
        if-IsKept
          (nat_eq generation tab.state.task_request_generation
            && nat_eq epoch tab.state.session_epoch)
          (tasks_loaded browser page tab) tab (tasks_loaded-IsKept browser page tab)
          (IsKept-refl tab))
  resume_tasks-IsSafe w generation epoch (returned _) tab =
      tasks_failed-IsSafe w
        (nat_eq generation tab.state.task_request_generation
          && nat_eq epoch tab.state.session_epoch)
        type_error tab

  -- Every continuation but that of the request for a ticket.
  resume-IsSafe :
      (k : Continuation) (o : Outcome) (tab : Tab)
      → ((epoch : ℕ) → k ≢ events_ticket epoch)
      → IsSafe tab (resume browser k o tab)
  unfolding resume
  resume-IsSafe (presence w e) o tab h = resume_presence-IsSafe w e o tab
  resume-IsSafe (runners_page w g e before) o tab h = resume_runners-IsSafe w g e before o tab
  resume-IsSafe (tasks_page w g e) o tab h = resume_tasks-IsSafe w g e o tab
  resume-IsSafe (task_detail selection g e task_id) o tab h =
      let (a, b, c) = resume_selection-wires browser selection g e task_id o tab in
      IsKept-IsSafe (same-IsKept tab _ a b c)
  resume-IsSafe (task_logs selection g e task_id) o tab h =
      let (a, b, c) = resume_selection-wires browser selection g e task_id o tab in
      IsKept-IsSafe (same-IsKept tab _ a b c)
  resume-IsSafe selfcheck o tab h = IsKept-IsSafe (resume_selfcheck-IsKept o tab)
  resume-IsSafe (events_ticket e) o tab h = absurd (h e refl)

  realtime_failed-IsWired :
      (epoch : ℕ) (message : String) (tab : Tab)
      → IsWired tab
      → IsWired (realtime_failed epoch message tab)
  realtime_failed-IsWired epoch message tab w =
      if-IsWired (nat_eq epoch tab.state.session_epoch && not (message == "unauthorized"))
        (schedule_reconnect tab) tab (schedule_reconnect-IsWired tab w) w

  realtime_failed-IsLive :
      (epoch : ℕ) (message : String) (tab : Tab)
      → epoch ≡ tab.state.session_epoch
      → (message == "unauthorized") ≡ false
      → IsWired tab
      → IsLive (realtime_failed epoch message tab)
  realtime_failed-IsLive epoch message tab e f w =
      let g : nat_eq epoch tab.state.session_epoch ≡ true =
        (nat_eq_iff epoch tab.state.session_epoch).1 e in
      rw (g, f) (schedule_reconnect-IsLive tab w)

  ticket_issued-IsWired :
      (epoch : ℕ) (ticket : String) (tab : Tab)
      → IsWired tab
      → IsWired (ticket_issued browser epoch ticket tab)
  ticket_issued-IsWired epoch ticket tab w =
      if-IsWired (not (nat_eq epoch tab.state.session_epoch) || tab.document.is_hidden) tab _ w
        (socket_given tab.state.socket refl)
    where
      socket_given :
          (socket : Option ℕ)
          → tab.state.socket ≡ socket
          → IsWired (elim socket [
            | some id ↦ tab
            | none ↦
                if browser.is_protocol ticket
                then open_socket epoch tab
                else realtime_failed epoch "SyntaxError" tab
          ])
      socket_given (some id) e = w
      socket_given none e =
          if-IsWired (browser.is_protocol ticket) (open_socket epoch tab) _
            (open_socket-IsWired epoch tab e w) (realtime_failed-IsWired epoch "SyntaxError" tab w)

  ticket_issued-IsLive :
      (epoch : ℕ) (ticket : String) (tab : Tab)
      → epoch ≡ tab.state.session_epoch
      → IsWired tab
      → IsLive (ticket_issued browser epoch ticket tab)
  unfolding open_socket
  ticket_issued-IsLive epoch ticket tab e w =
      if-IsLive (not (nat_eq epoch tab.state.session_epoch) || tab.document.is_hidden) tab _
        (λ f shown visible token. absurd (ground (arith, e, f, visible)))
        (socket_given tab.state.socket refl)
    where
      socket_given :
          (socket : Option ℕ)
          → tab.state.socket ≡ socket
          → IsLive (elim socket [
            | some id ↦ tab
            | none ↦
                if browser.is_protocol ticket
                then open_socket epoch tab
                else realtime_failed epoch "SyntaxError" tab
          ])
      socket_given (some id) f = λ shown visible token. by_socket id f
      socket_given none f =
          if-IsLive (browser.is_protocol ticket) (open_socket epoch tab) _
            (λ g shown visible token. by_socket tab.fresh refl)
            (realtime_failed-IsLive epoch "SyntaxError" tab e refl w)

  pub resume_ticket-IsWired :
      (epoch : ℕ) (o : Outcome) (tab : Tab)
      → IsWired tab
      → IsWired (resume_ticket browser epoch o tab)
  unfolding resume_ticket
  resume_ticket-IsWired epoch (threw m) tab w = realtime_failed-IsWired epoch m tab w
  resume_ticket-IsWired epoch (returned (ticket_body t)) tab w = ticket_issued-IsWired epoch t tab w
  resume_ticket-IsWired epoch (returned _) tab w = realtime_failed-IsWired epoch type_error tab w

  resume_ticket-IsLive :
      (epoch : ℕ) (o : Outcome) (tab : Tab)
      → epoch ≡ tab.state.session_epoch
      → IsHeeded o
      → IsWired tab
      → IsLive (resume_ticket browser epoch o tab)
  unfolding resume_ticket
  resume_ticket-IsLive epoch (threw m) tab e h w = realtime_failed-IsLive epoch m tab e h w
  resume_ticket-IsLive epoch (returned (ticket_body t)) tab e h w =
      ticket_issued-IsLive epoch t tab e w
  resume_ticket-IsLive epoch (returned _) tab e h w =
      realtime_failed-IsLive epoch type_error tab e refl w

  -- An answer of an earlier session to the request for a ticket.
  resume_ticket-other :
      (epoch : ℕ) (o : Outcome) (tab : Tab)
      → nat_eq epoch tab.state.session_epoch ≡ false
      → resume_ticket browser epoch o tab ≡ tab
  unfolding resume_ticket
  resume_ticket-other epoch (threw m) tab e = rw e refl
  resume_ticket-other epoch (returned (ticket_body t)) tab e = rw e refl
  resume_ticket-other epoch (returned _) tab e = rw e refl

  pub resume-IsWired :
      (k : Continuation) (o : Outcome) (tab : Tab) → IsWired tab → IsWired (resume browser k o tab)
  unfolding resume
  resume-IsWired (presence w e) o tab h = (resume_presence-IsSafe w e o tab).wired h
  resume-IsWired (runners_page w g e b) o tab h = (resume_runners-IsSafe w g e b o tab).wired h
  resume-IsWired (tasks_page w g e) o tab h = (resume_tasks-IsSafe w g e o tab).wired h
  resume-IsWired (task_detail selection g e task_id) o tab h =
      (resume-IsSafe (task_detail selection g e task_id) o tab (λ x f. cc)).wired h
  resume-IsWired (task_logs selection g e task_id) o tab h =
      (resume-IsSafe (task_logs selection g e task_id) o tab (λ x f. cc)).wired h
  resume-IsWired selfcheck o tab h = (resume-IsSafe selfcheck o tab (λ x f. cc)).wired h
  resume-IsWired (events_ticket e) o tab h = resume_ticket-IsWired e o tab h

  -- The page stays linked if it was, or if it waited for this very ticket.
  pub resume-IsLive :
      (k : Continuation) (o : Outcome) (tab : Tab)
      → IsHeeded o ⊎ (k ≢ events_ticket tab.state.session_epoch)
      → (k ≢ events_ticket tab.state.session_epoch → IsLive tab)
      → IsWired tab
      → IsLive (resume browser k o tab)
  unfolding resume
  resume-IsLive (presence w e) o tab h l wired =
      (resume_presence-IsSafe w e o tab).live wired (l (λ f. cc))
  resume-IsLive (runners_page w g e b) o tab h l wired =
      (resume_runners-IsSafe w g e b o tab).live wired (l (λ f. cc))
  resume-IsLive (tasks_page w g e) o tab h l wired =
      (resume_tasks-IsSafe w g e o tab).live wired (l (λ f. cc))
  resume-IsLive (task_detail selection g e task_id) o tab h l wired =
      (resume-IsSafe (task_detail selection g e task_id) o tab (λ x f. cc)).live wired (l (λ f. cc))
  resume-IsLive (task_logs selection g e task_id) o tab h l wired =
      (resume-IsSafe (task_logs selection g e task_id) o tab (λ x f. cc)).live wired (l (λ f. cc))
  resume-IsLive selfcheck o tab h l wired =
      (resume-IsSafe selfcheck o tab (λ x f. cc)).live wired (l (λ f. cc))
  resume-IsLive (events_ticket e) o tab h l wired =
      elim (Bool-cases (nat_eq e tab.state.session_epoch)) [
        | inl f ↦
            let g : e ≡ tab.state.session_epoch = (nat_eq_iff e tab.state.session_epoch).0 f in
            elim h [
              | inl heeded ↦ resume_ticket-IsLive e o tab g heeded wired
              | inr other ↦ absurd (other (ap events_ticket g))
            ]
        | inr f ↦ rw (resume_ticket-other e o tab f) (l (epoch_differs e tab.state.session_epoch f))
      ]
