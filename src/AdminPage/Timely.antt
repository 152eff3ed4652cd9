-- ===== src/AdminPage/Timely.antt =====
-- The sessions that the administration page's requests and refreshes belong to: the epochs that
-- `api`, the loaders and `refreshAll` of `src/worker/admin-page.ts` keep in their variables.
pub mod Asking
pub mod Sessions
pub mod Changes
pub mod Answers
pub mod Resuming
pub mod Handling
pub mod Reaching
use task_hub.Shared.{
  ℕ, ◌+◌, ◌≤◌, ◌<◌, ◌≡◌, ◌≢◌, ◌⊎◌, refl, sym, ◌∙◌, inl, inr, Bool, true, false, Option, none, some,
  List, [], ◌∷◌, String, arith, In, nat_eq, if◌then◌else◌,
}
use task_hub.AdminPage.State.{
  Awaiting, refresh, selfcheck_listing, unheeded, Continuation, presence, runners_page, tasks_page,
  task_detail, task_logs, selfcheck, events_ticket, Call, Caller, connecting, Refresh, Tab,
}

-- The epoch among the variables of a continuation.
abbrev pub kept_epoch : Continuation → Option ℕ
kept_epoch (presence awaiting epoch) = some epoch
kept_epoch (runners_page awaiting generation epoch before) = some epoch
kept_epoch (tasks_page awaiting generation epoch) = some epoch
kept_epoch (task_detail selection generation epoch task_id) = some epoch
kept_epoch (task_logs selection generation epoch task_id) = some epoch
kept_epoch selfcheck = none
kept_epoch (events_ticket epoch) = some epoch

abbrev pub refresh_of : Awaiting → Option ℕ
refresh_of (refresh id) = some id
refresh_of selfcheck_listing = none
refresh_of unheeded = none

-- The refresh that waits for a continuation.
abbrev pub awaited_by : Continuation → Option ℕ
awaited_by (presence awaiting epoch) = refresh_of awaiting
awaited_by (runners_page awaiting generation epoch before) = refresh_of awaiting
awaited_by (tasks_page awaiting generation epoch) = refresh_of awaiting
awaited_by _ = none

-- The part of the page that these epochs depend on.
pub record Past : Type 0 where
  pub session_epoch : ℕ
  pub token : String
  pub refresh_promise : Option ℕ
  pub refresh_epoch : Option ℕ
  pub calls : List Call
  pub refreshes : List Refresh
  pub fresh : ℕ

abbrev pub past : Tab → Past
past tab = record {
  session_epoch = tab.state.session_epoch;
  token = tab.state.token;
  refresh_promise = tab.state.refresh_promise;
  refresh_epoch = tab.state.refresh_epoch;
  calls = tab.calls;
  refreshes = tab.refreshes;
  fresh = tab.fresh;
}

-- A call was sent in this session, with its token, or in an earlier one; the refresh that waits for
-- it is of the same session, and so are its callers and the refresh that `refreshPromise` names.
pub record IsTimely (p : Past) : Type 0 where
  pub asked_before : (c : Call) → In c p.calls → c.request_epoch ≤ p.session_epoch
  pub same_token :
      (c : Call) → In c p.calls → c.request_epoch ≡ p.session_epoch → c.request_token ≡ p.token
  pub same_epoch :
      (c : Call) (e : ℕ) → In c p.calls → kept_epoch c.continuation ≡ some e → e ≡ c.request_epoch
  pub awaited_before :
      (c : Call) (id : ℕ) → In c p.calls → awaited_by c.continuation ≡ some id → id < p.fresh
  pub linked :
      (c : Call) (r : Refresh)
      → In c p.calls
      → In r p.refreshes
      → awaited_by c.continuation ≡ some r.refresh_id
      → r.epoch ≡ c.request_epoch
  pub refresh_before : (r : Refresh) → In r p.refreshes → r.refresh_id < p.fresh
  pub caller_epoch :
      (r : Refresh) (epoch : ℕ) (token : String)
      → In r p.refreshes
      → In (connecting epoch token) r.callers
      → epoch ≡ r.epoch
  pub promised : (id : ℕ) → p.refresh_promise ≡ some id → p.refresh_epoch ≡ some p.session_epoch
  pub promised_epoch :
      (r : Refresh)
      → In r p.refreshes
      → p.refresh_promise ≡ some r.refresh_id
      → r.epoch ≡ p.session_epoch
  pub session_known : (e : ℕ) → p.refresh_epoch ≡ some e → e ≤ p.session_epoch

-- A continuation that a request of now may have.
pub record IsReady (p : Past) (k : Continuation) : Type 0 where
  pub now : (e : ℕ) → kept_epoch k ≡ some e → e ≡ p.session_epoch
  pub known : (id : ℕ) → awaited_by k ≡ some id → id < p.fresh
  pub of_session :
      (r : Refresh)
      → In r p.refreshes
      → awaited_by k ≡ some r.refresh_id
      → r.epoch ≡ p.session_epoch

-- Of an awaiting loader.
pub record IsAwaited (p : Past) (w : Awaiting) : Type 0 where
  pub known : (id : ℕ) → refresh_of w ≡ some id → id < p.fresh
  pub of_session :
      (r : Refresh)
      → In r p.refreshes
      → refresh_of w ≡ some r.refresh_id
      → r.epoch ≡ p.session_epoch

pub unheeded-IsAwaited : (p : Past) → IsAwaited p unheeded
unheeded-IsAwaited p = record { known = λ id e. cc; of_session = λ r m e. cc }

pub selfcheck_listing-IsAwaited : (p : Past) → IsAwaited p selfcheck_listing
selfcheck_listing-IsAwaited p = record { known = λ id e. cc; of_session = λ r m e. cc }
