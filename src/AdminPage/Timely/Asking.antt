-- ===== src/AdminPage/Timely/Asking.antt =====
-- What the administration page asks for is of its session (`api`, the loaders, `refreshAll`,
-- `selectTask` and `runSelfcheck` of `src/worker/admin-page.ts`).
use task_hub.Shared.{
  ℕ, ◌+◌, ◌<◌, ◌≡◌, ◌≢◌, refl, sym, ap, ◌∙◌, inl, inr, none, some, List, [], ◌∷◌, String, arith, In,
  nat_eq, Bool-cases, Option-cases, map,
}
use task_hub.Types.{RunnerView}
use task_hub.AdminPage.State.{
  Request, Awaiting, refresh, Continuation, presence, runners_page, tasks_page, Caller, connecting,
  unheeding, Refresh, State, Tab,
}
use task_hub.AdminPage.Session.{api}
use task_hub.AdminPage.Loads.{
  load_presence, load_runners, load_tasks, joined_refresh, join_refresh, add_caller, start_refresh,
  refresh_all,
}
use task_hub.AdminPage.Timely.{Past, past, IsTimely, IsReady, IsAwaited}
use task_hub.AdminPage.Timely.Changes.{
  sent-IsTimely, fresh-IsTimely, refreshes-IsTimely, forgotten, forgotten-IsTimely, named-IsTimely,
}

pub api-IsTimely :
    (r : Request) (k : Continuation) (tab : Tab)
    → IsReady (past tab) k
    → IsTimely (past tab)
    → IsTimely (past (api r k tab))
unfolding api
api-IsTimely r k tab ready h = sent-IsTimely (past tab) _ refl refl ready h

pub presence-IsReady :
    (p : Past) (w : Awaiting) → IsAwaited p w → IsReady p (presence w p.session_epoch)
presence-IsReady p w a = record { now = λ e f. cc; known = a.known; of_session = a.of_session }

pub runners_page-IsReady :
    (p : Past) (w : Awaiting) (generation : ℕ) (before : List RunnerView)
    → IsAwaited p w
    → IsReady p (runners_page w generation p.session_epoch before)
runners_page-IsReady p w generation before a = record {
  now = λ e f. cc;
  known = a.known;
  of_session = a.of_session;
}

pub tasks_page-IsReady :
    (p : Past) (w : Awaiting) (generation : ℕ)
    → IsAwaited p w
    → IsReady p (tasks_page w generation p.session_epoch)
tasks_page-IsReady p w generation a = record {
  now = λ e f. cc;
  known = a.known;
  of_session = a.of_session;
}

module _ (w : Awaiting) (tab : Tab) where
  pub load_presence-IsTimely :
      IsAwaited (past tab) w → IsTimely (past tab) → IsTimely (past (load_presence w tab))
  unfolding load_presence
  load_presence-IsTimely a h = api-IsTimely _ _ tab (presence-IsReady (past tab) w a) h

  pub load_runners-IsTimely :
      IsAwaited (past tab) w → IsTimely (past tab) → IsTimely (past (load_runners w tab))
  unfolding load_runners api
  load_runners-IsTimely a h =
      sent-IsTimely (past tab) _ refl refl (runners_page-IsReady (past tab) w _ [] a) h

  pub load_tasks-IsTimely :
      IsAwaited (past tab) w → IsTimely (past tab) → IsTimely (past (load_tasks w tab))
  unfolding load_tasks api
  load_tasks-IsTimely a h =
      sent-IsTimely (past tab) _ refl refl (tasks_page-IsReady (past tab) w _ a) h

-- A number that no refresh has yet waits for no one's requests.
new-IsAwaited :
    (p : Past) (id : ℕ)
    → id < p.fresh
    → ((r : Refresh) → In r p.refreshes → r.refresh_id ≢ id)
    → IsAwaited p (refresh id)
new-IsAwaited p id low other = record {
  known = λ x e. ground (arith, e, low);
  of_session = λ r m e. absurd (other r m (cc e));
}

-- A caller with an epoch has that of the session.
abbrev pub IsOfSession : ℕ → Caller → Type 0
IsOfSession session caller =
    (epoch : ℕ) (token : String) → caller ≡ connecting epoch token → epoch ≡ session

pub unheeding-IsOfSession : (session : ℕ) → IsOfSession session unheeding
unheeding-IsOfSession session epoch token e = cc

-- Whatever refresh was named before.
pub start_refresh-IsTimely :
    (caller : Caller) (tab : Tab)
    → IsOfSession tab.state.session_epoch caller
    → IsTimely (forgotten (past tab))
    → IsTimely (past (start_refresh caller tab))
unfolding start_refresh load_presence load_runners load_tasks api
start_refresh-IsTimely caller tab c h =
    let id : ℕ = tab.fresh in
    let other : (r : Refresh) → In r tab.refreshes → r.refresh_id ≢ id =
      λ r m e. let low = h.refresh_before r m in absurd (omega (arith, e)) in
    let t0 = record tab {
      state = record tab.state { refresh_promise = none; refresh_epoch = none };
      fresh = id + 1;
    } in
    let t1 = load_presence (refresh id) t0 in
    let t2 = load_runners (refresh id) t1 in
    let t3 = load_tasks (refresh id) t2 in
    let h0 = fresh-IsTimely (forgotten (past tab)) (id + 1) (omega arith) h in
    let h1 =
      load_presence-IsTimely (refresh id) t0 (new-IsAwaited (past t0) id (omega arith) other) h0 in
    let h2 =
      load_runners-IsTimely (refresh id) t1 (new-IsAwaited (past t1) id (omega arith) other) h1 in
    let h3 =
      load_tasks-IsTimely (refresh id) t2 (new-IsAwaited (past t2) id (omega arith) other) h2 in
    named-IsTimely (past t3)
      (record { refresh_id = id; epoch = tab.state.session_epoch; left = 3; callers = caller ∷ [] })
      refl (omega arith)
      (λ epoch token m. elim m [ inl e ↦ c epoch token (sym e) | inr n ↦ elim n [ ] ])
      (λ call m e. elim m [
        | inl q ↦ rw q refl
        | inr n ↦ elim n [
          | inl q ↦ rw q refl
          | inr o ↦ elim o [
            | inl q ↦ rw q refl
            | inr old ↦ let low = h.awaited_before call id old e in absurd (omega arith)
          ]
        ]
      ])
      other h3

joined :
    (id : ℕ) (caller : Caller) (session : ℕ) (rs : List Refresh)
    → IsOfSession session caller
    → ((q : Refresh) → In q rs → q.refresh_id ≡ id → q.epoch ≡ session)
    → ((q : Refresh) (epoch : ℕ) (token : String)
        → In q rs
        → In (connecting epoch token) q.callers
        → epoch ≡ q.epoch)
    → (r : Refresh) → In r (map (add_caller id caller) rs)
    → (q : Refresh) × In q rs
      × (q.refresh_id ≡ r.refresh_id)
      × (q.epoch ≡ r.epoch)
      × ((epoch : ℕ) (token : String) → In (connecting epoch token) r.callers → epoch ≡ r.epoch)
joined id caller session [] c same old r m = elim m [ ]
joined id caller session (q ∷ rs) c same old r (inl e) =
    elim (Bool-cases (nat_eq q.refresh_id id)) [
      | inl f ↦
          let g : q.epoch ≡ session = same q (inl refl) (ground (arith, f)) in
          rw (e, f)
            (
              q,
              inl refl,
              refl,
              refl,
              λ epoch token m. elim m [
                | inl k ↦ c epoch token (sym k) ∙ sym g
                | inr n ↦ old q epoch token (inl refl) n
              ],
            )
      | inr f ↦ rw (e, f) (q, inl refl, refl, refl, λ epoch token m. old q epoch token (inl refl) m)
    ]
joined id caller session (q ∷ rs) c same old r (inr m) =
    let (p, n, e, f, g) =
      joined id caller session rs c (λ x k. same x (inr k)) (λ x y z k. old x y z (inr k)) r m in
    (p, inr n, e, f, g)

joined_refresh-promised :
    (s : State) (id : ℕ) → joined_refresh s ≡ some id → s.refresh_promise ≡ some id
unfolding joined_refresh
joined_refresh-promised s id e = ground (arith, e)

-- A refresh that has one more caller of its session.
join_refresh-IsTimely :
    (id : ℕ) (caller : Caller) (tab : Tab)
    → IsOfSession tab.state.session_epoch caller
    → tab.state.refresh_promise ≡ some id
    → IsTimely (past tab)
    → IsTimely (past (join_refresh id caller tab))
unfolding join_refresh
join_refresh-IsTimely id caller tab c e h =
    refreshes-IsTimely (past tab) (map (add_caller id caller) tab.refreshes)
      (λ r m.
        joined id caller tab.state.session_epoch tab.refreshes c
          (λ q n f. h.promised_epoch q n (e ∙ ap some (sym f))) h.caller_epoch r m)
      h

pub refresh_all-IsTimely :
    (caller : Caller) (tab : Tab)
    → IsOfSession tab.state.session_epoch caller
    → IsTimely (past tab)
    → IsTimely (past (refresh_all caller tab))
unfolding refresh_all
refresh_all-IsTimely caller tab c h = elim (Option-cases (joined_refresh tab.state)) [
  | inl e ↦
      rw (refresh_all, e) (start_refresh-IsTimely caller tab c (forgotten-IsTimely (past tab) h))
  | inr (id, e) ↦
      rw (refresh_all, e)
        (join_refresh-IsTimely id caller tab c (joined_refresh-promised tab.state id e) h)
]
