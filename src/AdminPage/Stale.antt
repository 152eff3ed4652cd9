-- ===== src/AdminPage/Stale.antt =====
-- An answer to a request of an earlier session of the administration page (the tests on
-- `sessionEpoch` in `src/worker/admin-page.ts`).
use task_hub.Shared.{
  ℕ, ◌≡◌, ◌≢◌, refl, inl, inr, Bool, true, false, Option, none, some, List, [], ◌∷◌, String, not,
  arith, In, nat_eq, leb, Bool-cases, filter,
}
use task_hub.AdminPage.View.{Document}
use task_hub.AdminPage.State.{
  State, Awaiting, refresh, selfcheck_listing, unheeded, Continuation, presence, runners_page,
  tasks_page, selfcheck, Caller, connecting, unheeding, Refresh, PageSocket, Timer, Tab,
}
use task_hub.AdminPage.Loads.{is_epoch}
use task_hub.AdminPage.Settle.{
  Body, connected, connected_each, refresh_shown, end_refresh, find_refresh, loader_ended, finish,
}
use task_hub.AdminPage.Events.{Event, responded, failed_to_fetch, body_read}

-- What the user sees of the page and what it does: `fresh` counts all that it asked for, opened or
-- set.
pub record Effects : Type 0 where
  pub state : State
  pub document : Document
  pub stored_token : Option String
  pub sockets : List PageSocket
  pub timers : List Timer
  pub fresh : ℕ

abbrev pub effects : Tab → Effects
effects tab = record {
  state = tab.state;
  document = tab.document;
  stored_token = tab.stored_token;
  sockets = tab.sockets;
  timers = tab.timers;
  fresh = tab.fresh;
}

-- `runSelfcheck` goes on with the answer.
abbrev pub is_of_selfcheck : Continuation → Bool
is_of_selfcheck selfcheck = true
is_of_selfcheck (presence selfcheck_listing epoch) = true
is_of_selfcheck (runners_page selfcheck_listing generation epoch before) = true
is_of_selfcheck (tasks_page selfcheck_listing generation epoch) = true
is_of_selfcheck _ = false

-- The events by which a call is answered.
pub data IsAnswer (id : ℕ) : Event → Type 0 where
  status : (n : ℕ) → IsAnswer id (responded id n)
  failure : (message : String) → IsAnswer id (failed_to_fetch id message)
  body : (b : Body) → IsAnswer id (body_read id b)

pub not_eq : (a b : ℕ) → a ≢ b → nat_eq a b ≡ false
not_eq a b h = elim (Bool-cases (nat_eq a b)) [ inl e ↦ absurd (h (ground (arith, e))) | inr e ↦ e ]

-- A refresh of another session.
pub record IsPast (tab : Tab) (r : Refresh) : Type 0 where
  pub other : r.epoch ≢ tab.state.session_epoch
  pub unnamed : is_epoch r.refresh_id tab.state.refresh_promise ≡ false
  pub callers :
      (epoch : ℕ) (token : String)
      → In (connecting epoch token) r.callers
      → epoch ≢ tab.state.session_epoch

connected_each-past :
    (error : Option String) (callers : List Caller) (tab : Tab)
    → ((epoch : ℕ) (token : String)
        → In (connecting epoch token) callers
        → epoch ≢ tab.state.session_epoch)
    → connected_each error callers tab ≡ tab
unfolding connected_each connected
connected_each-past error [] tab h = refl
connected_each-past error (unheeding ∷ cs) tab h =
    connected_each-past error cs tab (λ e t m. h e t (inr m))
connected_each-past none (connecting epoch token ∷ cs) tab h =
    let e = not_eq epoch tab.state.session_epoch (h epoch token (inl refl)) in
    rw (connected_each, connected, e) (connected_each-past none cs tab (λ x t m. h x t (inr m)))
connected_each-past (some message) (connecting epoch token ∷ cs) tab h =
    let e = not_eq epoch tab.state.session_epoch (h epoch token (inl refl)) in
    rw (connected_each, connected, e)
      (connected_each-past (some message) cs tab (λ x t m. h x t (inr m)))

refresh_shown-past :
    (error : Option String) (epoch : ℕ) (tab : Tab)
    → epoch ≢ tab.state.session_epoch
    → refresh_shown error epoch tab ≡ tab
refresh_shown-past none epoch tab h = rw (not_eq epoch tab.state.session_epoch h) refl
refresh_shown-past (some e) epoch tab h = rw (not_eq epoch tab.state.session_epoch h) refl

end_refresh-past :
    (error : Option String) (r : Refresh) (tab : Tab)
    → IsPast tab r
    → effects (end_refresh error r tab) ≡ effects tab
unfolding end_refresh
end_refresh-past error r tab h =
    let ended = record tab {
      refreshes = filter (λ q. not (nat_eq q.refresh_id r.refresh_id)) tab.refreshes;
    } in
    rw
      (
        end_refresh,
        refresh_shown-past error r.epoch ended h.other,
        h.unnamed,
        connected_each-past error r.callers ended h.callers,
      )
      refl

loader_ended-past :
    (error : Option String) (o : Option Refresh) (tab : Tab)
    → ((r : Refresh) → o ≡ some r → IsPast tab r)
    → effects (loader_ended error o tab) ≡ effects tab
loader_ended-past none none tab h = refl
loader_ended-past (some e) none tab h = refl
loader_ended-past none (some r) tab h = elim (Bool-cases (leb r.left 1)) [
  | inl e ↦ rw e (end_refresh-past none r tab (h r refl))
  | inr e ↦ rw e refl
]
loader_ended-past (some e) (some r) tab h = end_refresh-past (some e) r tab (h r refl)

-- No refresh of this session waits for a loader.
abbrev pub AwaitsNothing : Tab → Awaiting → Type 0
AwaitsNothing tab w =
    (w ≢ selfcheck_listing)
    × ((id : ℕ) (r : Refresh)
        → w ≡ refresh id
        → find_refresh id tab.refreshes ≡ some r
        → IsPast tab r)

pub finish-past :
    (error : Option String) (w : Awaiting) (tab : Tab)
    → AwaitsNothing tab w
    → effects (finish error w tab) ≡ effects tab
unfolding finish
finish-past error unheeded tab h = refl
finish-past error selfcheck_listing tab h = absurd (h.0 refl)
finish-past error (refresh id) tab h =
    loader_ended-past error (find_refresh id tab.refreshes) tab (λ r e. h.1 id r refl e)
