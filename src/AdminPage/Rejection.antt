-- ===== src/AdminPage/Rejection.antt =====
-- An answer with the status 401 to a request of the present session of the administration page (`api`
-- and `signOut` of `src/worker/admin-page.ts`).
use task_hub.Shared.{
  ℕ, ◌≡◌, refl, sym, ap, ◌∙◌, Bool, true, false, Option, some, List, String, ◌&&◌, arith, In,
  nat_eq, nat_eq_iff, eq_iff, ◌==◌,
}
use task_hub.AdminPage.View.{Browser}
use task_hub.AdminPage.State.{Call, Refresh, Tab}
use task_hub.AdminPage.Session.{sign_out, close_realtime}
use task_hub.AdminPage.Settle.{threw, find_refresh}
use task_hub.AdminPage.Realtime.{without_call, reject, response_arrived}
use task_hub.AdminPage.Events.{Event, responded, find_call, on_call, handle, handle_all, opened}
use task_hub.AdminPage.Timely.{awaited_by, past, IsTimely}
use task_hub.AdminPage.Timely.Handling.{find_call-In}
use task_hub.AdminPage.Timely.Reaching.{handle_all-IsTimely, opened-IsTimely}
use task_hub.AdminPage.Stale.{effects, is_of_selfcheck, IsPast}
use task_hub.AdminPage.Outdated.{resume-past, find_refresh-In}

module _ (tab : Tab) (h : IsTimely (past tab)) (c : Call) (m : In c tab.calls)
    (now : c.request_epoch ≡ tab.state.session_epoch) where
  -- The test on the session and the token passes.
  is_current :
      (nat_eq c.request_epoch tab.state.session_epoch && c.request_token == tab.state.token) ≡ true
  is_current =
      let e = (nat_eq_iff c.request_epoch tab.state.session_epoch).1 now in
      let f = (eq_iff c.request_token tab.state.token).1 (h.same_token c m now) in rw (e, f) refl

  -- The refresh that waits for the call is of the session that is over.
  over-IsPast :
      (id : ℕ) (r : Refresh)
      → awaited_by c.continuation ≡ some id
      → find_refresh id tab.refreshes ≡ some r
      → IsPast (reject (sign_out (without_call c tab))) r
  unfolding sign_out close_realtime
  over-IsPast id r e f =
      let (n, same) = find_refresh-In id r tab.refreshes f in
      let epoch : r.epoch ≡ tab.state.session_epoch =
        h.linked c r m n (e ∙ ap some (sym same)) ∙ now in
      record {
        other = λ g. absurd (omega (arith, epoch, g));
        unnamed = refl;
        callers = λ x token k g.
            let old = h.caller_epoch r x token n k in absurd (omega (arith, epoch, old, g));
      }

  rejected_lem :
      (browser : Browser)
      → is_of_selfcheck c.continuation ≡ false
      → effects (response_arrived browser 401 c tab) ≡ effects (reject (sign_out tab))
  unfolding response_arrived sign_out close_realtime
  rejected_lem browser heeded =
      rw (response_arrived, is_current)
        (resume-past browser c.continuation (threw "unauthorized")
          (reject (sign_out (without_call c tab))) heeded
          (λ e k g. let kept = h.same_epoch c e m k in absurd (omega (arith, kept, now, g)))
          over-IsPast)

-- However the page was used since it was opened: the status 401 for a request of the present session,
-- on which `runSelfcheck` does not wait, leaves the page as "Sign out" does, but for the message that
-- the token was rejected; what went on with the request changes nothing more.
pub rejection-signed_out :
    (browser : Browser) (token : Option String) (is_hidden : Bool) (es : List Event) (id : ℕ)
    (c : Call)
    → find_call id (handle_all browser es (opened token is_hidden)).calls ≡ some c
    → c.request_epoch ≡ (handle_all browser es (opened token is_hidden)).state.session_epoch
    → is_of_selfcheck c.continuation ≡ false
    → effects (handle browser (responded id 401) (handle_all browser es (opened token is_hidden)))
      ≡ effects (reject (sign_out (handle_all browser es (opened token is_hidden))))
unfolding handle
rejection-signed_out browser token is_hidden es id c f now heeded =
    let tab = handle_all browser es (opened token is_hidden) in
    rw (handle, on_call, f)
      (rejected_lem tab
        (handle_all-IsTimely browser es (opened token is_hidden) (opened-IsTimely token is_hidden))
        c (find_call-In id c tab.calls f) now browser heeded)
