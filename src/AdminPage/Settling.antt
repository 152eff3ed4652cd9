-- ===== src/AdminPage/Settling.antt =====
-- Whatever answer the administration page goes on with, it keeps in touch with the worker (the rest of
-- each function after `await api(...)` in `src/worker/admin-page.ts`).
use task_hub.Shared.{
  ℕ, refl, true, false, Option, none, some, List, [], ◌∷◌, String, ◌&&◌, not, arith, nat_eq, ◌==◌,
  leb, filter,
}
use mathlib.Core.List.{◌++◌}
use task_hub.Shared.Text.{is_empty}
use task_hub.Types.{RunnerView}
use task_hub.AdminPage.View.{or_empty}
use task_hub.AdminPage.State.{
  Awaiting, refresh, selfcheck_listing, unheeded, runners_page, Caller, connecting, unheeding,
  Refresh, Tab, with_state,
}
use task_hub.AdminPage.Render.{render_runners}
use task_hub.AdminPage.Session.{connect_realtime}
use task_hub.AdminPage.Loads.{runners_request}
use task_hub.AdminPage.Settle.{
  presence_body, runners_body, Outcome, returned, threw, type_error, connected, connected_each,
  refresh_shown, forget_refresh, end_refresh, find_refresh, loader_ended, finish, resume_presence,
  runners_loaded, resume_runners,
}
use task_hub.AdminPage.Wiring.{
  IsWired, IsKept, IsKept-refl, IsKept-trans, IsKept-IsWired, IsSafe, IsKept-IsSafe, IsSafe-trans,
  if-IsSafe,
}
use task_hub.AdminPage.Kept.{
  if-IsKept, same-IsKept, api-IsKept, end_selfcheck-IsKept, render_runners-IsKept,
  runners_loaded-IsKept, connect_realtime-IsKept,
}
use task_hub.AdminPage.Lifeline.{connect_realtime-IsLive}

IsSafe-refl : (tab : Tab) → IsSafe tab tab
IsSafe-refl tab = IsKept-IsSafe (IsKept-refl tab)

-- The console is shown instead of the form.
abbrev entered : Tab → Tab
entered tab = record tab {
  document = record tab.document { auth_view_hidden = true; app_hidden = false };
}

entered-IsWired : (tab : Tab) → IsWired tab → IsWired (entered tab)
entered-IsWired tab w = record {
  sole = w.sole;
  heard = w.heard;
  there = w.there;
  sockets_before = w.sockets_before;
  one_view = λ e. cc;
  one_timer = w.one_timer;
}

connected-IsSafe :
    (error : Option String) (caller : Caller) (tab : Tab) → IsSafe tab (connected error caller tab)
unfolding connected
connected-IsSafe none unheeding tab = IsSafe-refl tab
connected-IsSafe (some e) unheeding tab = IsSafe-refl tab
connected-IsSafe none (connecting epoch token) tab =
    if-IsSafe (nat_eq epoch tab.state.session_epoch && token == tab.state.token)
      (connect_realtime (entered tab)) tab
      (record {
        wired = λ w. IsKept-IsWired (connect_realtime-IsKept (entered tab)) (entered-IsWired tab w);
        live = λ w l. connect_realtime-IsLive (entered tab);
      })
      (IsSafe-refl tab)
connected-IsSafe (some message) (connecting epoch token) tab =
    if-IsSafe (nat_eq epoch tab.state.session_epoch && not (message == "unauthorized")) _ tab
      (IsKept-IsSafe (same-IsKept tab _ refl refl refl)) (IsSafe-refl tab)

connected_each-IsSafe :
    (error : Option String) (callers : List Caller) (tab : Tab)
    → IsSafe tab (connected_each error callers tab)
unfolding connected_each
connected_each-IsSafe error [] tab = IsSafe-refl tab
connected_each-IsSafe error (c ∷ cs) tab =
    IsSafe-trans (connected-IsSafe error c tab)
      (connected_each-IsSafe error cs (connected error c tab))

refresh_shown-IsKept :
    (error : Option String) (epoch : ℕ) (tab : Tab) → IsKept tab (refresh_shown error epoch tab)
refresh_shown-IsKept none epoch tab =
    if-IsKept (nat_eq epoch tab.state.session_epoch) _ tab (same-IsKept tab _ refl refl refl)
      (IsKept-refl tab)
refresh_shown-IsKept (some e) epoch tab =
    if-IsKept (nat_eq epoch tab.state.session_epoch) _ tab (same-IsKept tab _ refl refl refl)
      (IsKept-refl tab)

forget-IsKept : (id : ℕ) (tab : Tab) → IsKept tab (with_state (forget_refresh id tab.state) tab)
forget-IsKept id tab = same-IsKept tab _ (ground arith) refl refl

end_refresh-IsSafe :
    (error : Option String) (r : Refresh) (tab : Tab) → IsSafe tab (end_refresh error r tab)
unfolding end_refresh
end_refresh-IsSafe error r tab =
    let ended = record tab {
      refreshes = filter (λ q. not (nat_eq q.refresh_id r.refresh_id)) tab.refreshes;
    } in
    let seen = refresh_shown error r.epoch ended in
    let kept : IsKept tab (with_state (forget_refresh r.refresh_id seen.state) seen) =
      IsKept-trans (same-IsKept tab ended refl refl refl) (
        IsKept-trans (refresh_shown-IsKept error r.epoch ended)
          (forget-IsKept r.refresh_id seen)) in
    IsSafe-trans (IsKept-IsSafe kept) (connected_each-IsSafe error r.callers _)

loader_ended-IsSafe :
    (error : Option String) (o : Option Refresh) (tab : Tab) → IsSafe tab (loader_ended error o tab)
loader_ended-IsSafe none none tab = IsSafe-refl tab
loader_ended-IsSafe (some e) none tab = IsSafe-refl tab
loader_ended-IsSafe none (some r) tab =
    if-IsSafe (leb r.left 1) (end_refresh none r tab) _ (end_refresh-IsSafe none r tab)
      (IsKept-IsSafe (same-IsKept tab _ refl refl refl))
loader_ended-IsSafe (some e) (some r) tab = end_refresh-IsSafe (some e) r tab

pub finish-IsSafe :
    (error : Option String) (w : Awaiting) (tab : Tab) → IsSafe tab (finish error w tab)
unfolding finish
finish-IsSafe error unheeded tab = IsSafe-refl tab
finish-IsSafe error selfcheck_listing tab = IsKept-IsSafe (end_selfcheck-IsKept error tab)
finish-IsSafe error (refresh id) tab = loader_ended-IsSafe error (find_refresh id tab.refreshes) tab

-- A loader that ends after it changed nothing of the links.
pub finished-IsSafe :
    (error : Option String) (w : Awaiting) (before tab : Tab)
    → IsKept before tab
    → IsSafe before (finish error w tab)
finished-IsSafe error w before tab k = IsSafe-trans (IsKept-IsSafe k) (finish-IsSafe error w tab)

pub resume_presence-IsSafe :
    (w : Awaiting) (epoch : ℕ) (o : Outcome) (tab : Tab)
    → IsSafe tab (resume_presence w epoch o tab)
unfolding resume_presence
resume_presence-IsSafe w epoch (threw e) tab = finish-IsSafe (some e) w tab
resume_presence-IsSafe w epoch (returned (presence_body ids)) tab =
    let drawn = record tab {
      state = record tab.state { online_runner_ids = ids; presence_loaded = true };
    } in
    if-IsSafe (nat_eq epoch tab.state.session_epoch) (finish none w (render_runners drawn))
      (finish none w tab)
      (finished-IsSafe none w tab (render_runners drawn)
        (IsKept-trans (same-IsKept tab drawn refl refl refl) (render_runners-IsKept drawn)))
      (finish-IsSafe none w tab)
resume_presence-IsSafe w epoch (returned _) tab = finish-IsSafe (some type_error) w tab

pub resume_runners-IsSafe :
    (w : Awaiting) (generation epoch : ℕ) (before : List RunnerView) (o : Outcome) (tab : Tab)
    → IsSafe tab (resume_runners w generation epoch before o tab)
unfolding resume_runners
resume_runners-IsSafe w generation epoch before (threw e) tab = finish-IsSafe (some e) w tab
resume_runners-IsSafe w generation epoch before (returned (runners_body page)) tab =
    let s = tab.state in
    let runners = before ++ page.items in
    if-IsSafe (nat_eq generation s.runner_request_generation && nat_eq epoch s.session_epoch) _
      (finish none w tab)
      (if-IsSafe (is_empty (or_empty page.next_cursor)) (finish none w (runners_loaded runners tab))
        _
        (finished-IsSafe none w tab (runners_loaded runners tab)
          (runners_loaded-IsKept runners tab))
        (IsKept-IsSafe (
          api-IsKept (runners_request (or_empty page.next_cursor))
            (runners_page w generation epoch runners) tab)))
      (finish-IsSafe none w tab)
resume_runners-IsSafe w generation epoch before (returned _) tab =
    finish-IsSafe (some type_error) w tab
