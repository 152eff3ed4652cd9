-- ===== src/AdminPage/Outdated.antt =====
-- An answer to a request of an earlier session of the administration page changes nothing (each
-- function after `await api(...)` in `src/worker/admin-page.ts`).
use task_hub.Shared.{
  ℕ, ◌≡◌, ◌≢◌, refl, sym, ap, ◌∙◌, inl, inr, Bool, true, false, Option, none, some, List, [], ◌∷◌,
  String, ◌&&◌, arith, In, nat_eq, Bool-cases, Option-cases,
}
use task_hub.Types.{RunnerView}
use task_hub.AdminPage.View.{Browser}
use task_hub.AdminPage.State.{
  Awaiting, refresh, selfcheck_listing, unheeded, Continuation, presence, runners_page, tasks_page,
  task_detail, task_logs, selfcheck, events_ticket, Call, Refresh, Tab,
}
use task_hub.AdminPage.Loads.{is_epoch}
use task_hub.AdminPage.Settle.{
  presence_body, runners_body, tasks_body, ticket_body, Outcome, returned, threw, type_error,
  find_refresh, resume_presence, resume_runners, resume_tasks, resume_selection,
}
use task_hub.AdminPage.Realtime.{
  resume_ticket, resume, without_call, rejected, outcome_of, response_arrived, request_failed,
  body_arrived,
}
use task_hub.AdminPage.Events.{Event, find_call, on_call, handle, handle_all, opened}
use task_hub.AdminPage.Timely.{kept_epoch, refresh_of, awaited_by, past, IsTimely}
use task_hub.AdminPage.Timely.Handling.{find_call-In}
use task_hub.AdminPage.Timely.Reaching.{handle_all-IsTimely, opened-IsTimely}
use task_hub.AdminPage.Stale.{
  effects, is_of_selfcheck, IsAnswer, status, failure, body, not_eq, IsPast, AwaitsNothing,
  finish-past,
}

module _ (epoch : ℕ) (tab : Tab) (other : epoch ≢ tab.state.session_epoch) where
  not_current : (a b : ℕ) → (nat_eq a b && nat_eq epoch tab.state.session_epoch) ≡ false
  not_current a b = ground (arith, not_eq epoch tab.state.session_epoch other)

  resume_presence-past :
      (w : Awaiting) (o : Outcome)
      → AwaitsNothing tab w
      → effects (resume_presence w epoch o tab) ≡ effects tab
  unfolding resume_presence
  resume_presence-past w (threw e) h = finish-past (some e) w tab h
  resume_presence-past w (returned (presence_body ids)) h =
      rw (resume_presence, not_eq epoch tab.state.session_epoch other) (finish-past none w tab h)
  resume_presence-past w (returned _) h = finish-past (some type_error) w tab h

  resume_runners-past :
      (w : Awaiting) (generation : ℕ) (before : List RunnerView) (o : Outcome)
      → AwaitsNothing tab w
      → effects (resume_runners w generation epoch before o tab) ≡ effects tab
  unfolding resume_runners
  resume_runners-past w generation before (threw e) h = finish-past (some e) w tab h
  resume_runners-past w generation before (returned (runners_body page)) h =
      let e : (nat_eq generation tab.state.runner_request_generation
            && nat_eq epoch tab.state.session_epoch)
          ≡ false =
        not_current generation _ in
      rw (resume_runners, e) (finish-past none w tab h)
  resume_runners-past w generation before (returned _) h = finish-past (some type_error) w tab h

  module _ (browser : Browser) where
    resume_tasks-past :
        (w : Awaiting) (generation : ℕ) (o : Outcome)
        → AwaitsNothing tab w
        → effects (resume_tasks browser w generation epoch o tab) ≡ effects tab
    unfolding resume_tasks
    resume_tasks-past w generation (threw m) h =
        rw (resume_tasks, not_current generation tab.state.task_request_generation)
          (finish-past none w tab h)
    resume_tasks-past w generation (returned (tasks_body page)) h =
        rw (resume_tasks, not_current generation tab.state.task_request_generation)
          (finish-past none w tab h)
    resume_tasks-past w generation (returned _) h =
        rw (resume_tasks, not_current generation tab.state.task_request_generation)
          (finish-past none w tab h)

    resume_selection-past :
        (selection generation : ℕ) (task_id : String) (o : Outcome)
        → effects (resume_selection browser selection generation epoch task_id o tab) ≡ effects tab
    unfolding resume_selection
    resume_selection-past selection generation task_id (threw m) =
        ground (arith, not_current generation tab.state.detail_request_generation)
    resume_selection-past selection generation task_id (returned b) =
        ground (arith, not_current generation tab.state.detail_request_generation)

    resume_ticket-past : (o : Outcome) → effects (resume_ticket browser epoch o tab) ≡ effects tab
    unfolding resume_ticket
    resume_ticket-past (threw m) =
        rw (resume_ticket, not_eq epoch tab.state.session_epoch other) refl
    resume_ticket-past (returned (ticket_body t)) =
        rw (resume_ticket, not_eq epoch tab.state.session_epoch other) refl
    resume_ticket-past (returned _) =
        rw (resume_ticket, not_eq epoch tab.state.session_epoch other) refl

tasks_page-other :
    (w : Awaiting) (generation epoch : ℕ)
    → is_of_selfcheck (tasks_page w generation epoch) ≡ false
    → w ≢ selfcheck_listing
tasks_page-other (refresh id) generation epoch h e = cc
tasks_page-other selfcheck_listing generation epoch h e = cc
tasks_page-other unheeded generation epoch h e = cc

presence-other :
    (w : Awaiting) (epoch : ℕ) → is_of_selfcheck (presence w epoch) ≡ false → w ≢ selfcheck_listing
presence-other (refresh id) epoch h e = cc
presence-other selfcheck_listing epoch h e = cc
presence-other unheeded epoch h e = cc

runners_page-other :
    (w : Awaiting) (generation epoch : ℕ) (before : List RunnerView)
    → is_of_selfcheck (runners_page w generation epoch before) ≡ false
    → w ≢ selfcheck_listing
runners_page-other (refresh id) generation epoch before h e = cc
runners_page-other selfcheck_listing generation epoch before h e = cc
runners_page-other unheeded generation epoch before h e = cc

pub resume-past :
    (browser : Browser) (k : Continuation) (o : Outcome) (tab : Tab)
    → is_of_selfcheck k ≡ false
    → ((e : ℕ) → kept_epoch k ≡ some e → e ≢ tab.state.session_epoch)
    → ((id : ℕ) (r : Refresh)
        → awaited_by k ≡ some id
        → find_refresh id tab.refreshes ≡ some r
        → IsPast tab r)
    → effects (resume browser k o tab) ≡ effects tab
unfolding resume
resume-past browser (presence w e) o tab s h k =
    resume_presence-past e tab (h e refl) w o
      (presence-other w e s, λ id r f g. k id r (ap refresh_of f) g)
resume-past browser (runners_page w g e before) o tab s h k =
    resume_runners-past e tab (h e refl) w g before o
      (runners_page-other w g e before s, λ id r f q. k id r (ap refresh_of f) q)
resume-past browser (tasks_page w g e) o tab s h k =
    resume_tasks-past e tab (h e refl) browser w g o
      (tasks_page-other w g e s, λ id r f q. k id r (ap refresh_of f) q)
resume-past browser (task_detail w g e task_id) o tab s h k =
    resume_selection-past e tab (h e refl) browser w g task_id o
resume-past browser (task_logs w g e task_id) o tab s h k =
    resume_selection-past e tab (h e refl) browser w g task_id o
resume-past browser selfcheck o tab s h k = cc
resume-past browser (events_ticket e) o tab s h k = resume_ticket-past e tab (h e refl) browser o

pub find_refresh-In :
    (id : ℕ) (r : Refresh) (rs : List Refresh)
    → find_refresh id rs ≡ some r
    → In r rs × (r.refresh_id ≡ id)
find_refresh-In id r [] e = cc
find_refresh-In id r (q ∷ rs) e = elim (Bool-cases (nat_eq q.refresh_id id)) [
  | inl f ↦ (inl (ground (arith, e, f)), ground (arith, e, f))
  | inr f ↦ let (m, g) = find_refresh-In id r rs (rw f at e) in (inr m, g)
]

named_id : {id : ℕ} (promise : Option ℕ) → is_epoch id promise ≡ true → promise ≡ some id
named_id none e = cc
named_id (some x) e = ground (arith, e)

-- The refresh that waits for a call of an earlier session is of that session.
awaiting-IsPast :
    (tab : Tab) (c : Call) (id : ℕ) (r : Refresh)
    → IsTimely (past tab)
    → In c tab.calls
    → c.request_epoch ≢ tab.state.session_epoch
    → awaited_by c.continuation ≡ some id
    → find_refresh id tab.refreshes ≡ some r
    → IsPast tab r
awaiting-IsPast tab c id r h m other e f =
    let (n, same) = find_refresh-In id r tab.refreshes f in
    let epoch : r.epoch ≡ c.request_epoch = h.linked c r m n (e ∙ ap some (sym same)) in
    record {
      other = λ g. other (sym epoch ∙ g);
      unnamed = elim (Bool-cases (is_epoch r.refresh_id tab.state.refresh_promise)) [
        | inr g ↦ g
        | inl g ↦
            absurd (other (sym epoch ∙ h.promised_epoch r n (named_id tab.state.refresh_promise g)))
      ];
      callers = λ x token k g. other (sym epoch ∙ sym (h.caller_epoch r x token n k) ∙ g);
    }

module _ (browser : Browser) (tab : Tab) (h : IsTimely (past tab)) (c : Call) (m : In c tab.calls)
    (other : c.request_epoch ≢ tab.state.session_epoch)
    (heeded : is_of_selfcheck c.continuation ≡ false) where
  went_on :
      (o : Outcome) → effects (resume browser c.continuation o (without_call c tab)) ≡ effects tab
  went_on o =
      resume-past browser c.continuation o (without_call c tab) heeded
        (λ e k g. other (sym (h.same_epoch c e m k) ∙ g))
        (λ id r k g.
          let p = awaiting-IsPast tab c id r h m other k g in
          record { other = p.other; unnamed = p.unnamed; callers = p.callers })

  response_arrived-past : (n : ℕ) → effects (response_arrived browser n c tab) ≡ effects tab
  unfolding response_arrived
  response_arrived-past n = elim (Bool-cases (nat_eq n 401)) [
    | inr e ↦ rw (response_arrived, e) refl
    | inl e ↦
        rw (response_arrived, e, rejected, not_eq c.request_epoch tab.state.session_epoch other)
          (went_on (threw "unauthorized"))
  ]

  answered-past :
      (id : ℕ) {e : Event}
      → find_call id tab.calls ≡ some c
      → IsAnswer id e
      → effects (handle browser e tab) ≡ effects tab
  unfolding handle request_failed body_arrived
  answered-past id f (status n) = rw (handle, on_call, f) (response_arrived-past n)
  answered-past id f (failure message) =
      rw (handle, on_call, f, request_failed) (went_on (threw message))
  answered-past id f (body b) = elim (Option-cases c.response_ok) [
    | inl e ↦ rw (handle, on_call, f, body_arrived, e) refl
    | inr (is_ok, e) ↦ rw (handle, on_call, f, body_arrived, e) (went_on (outcome_of is_ok b))
  ]

-- However the page was used since it was opened: an answer to a request of an earlier session than
-- the present one, on which `runSelfcheck` does not wait, changes neither the state nor the document
-- nor the stored token nor the sockets nor the timers, and asks for nothing, whether it is a status
-- (401 too), a failure or a body.
pub answer-stale :
    (browser : Browser) (token : Option String) (is_hidden : Bool) (es : List Event) (id : ℕ)
    (c : Call) (e : Event)
    → find_call id (handle_all browser es (opened token is_hidden)).calls ≡ some c
    → c.request_epoch ≢ (handle_all browser es (opened token is_hidden)).state.session_epoch
    → is_of_selfcheck c.continuation ≡ false
    → IsAnswer id e
    → effects (handle browser e (handle_all browser es (opened token is_hidden)))
      ≡ effects (handle_all browser es (opened token is_hidden))
answer-stale browser token is_hidden es id c e f other heeded answer =
    let tab = handle_all browser es (opened token is_hidden) in
    answered-past browser tab
      (handle_all-IsTimely browser es (opened token is_hidden) (opened-IsTimely token is_hidden)) c
      (find_call-In id c tab.calls f) other heeded id f answer
