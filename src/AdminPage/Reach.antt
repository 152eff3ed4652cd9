-- ===== src/AdminPage/Reach.antt =====
-- However the administration page is used, it keeps in touch with the worker (the handlers and the
-- answers of `src/worker/admin-page.ts`).
use task_hub.Shared.{
  arith, ℕ, ◌+◌, ◌≡◌, refl, inl, inr, Bool, true, false, some, String, ◌&&◌, nat_eq, ◌==◌,
  Bool-cases, Option-cases, if◌then◌else◌,
}
use task_hub.Shared.Text.{is_empty, trim}
use task_hub.AdminPage.State.{unheeded, unheeding, connecting, Call, PageSocket, Tab}
use task_hub.AdminPage.Session.{sign_out, close_realtime}
use task_hub.AdminPage.Loads.{connect, refresh_all, load_tasks}
use task_hub.AdminPage.Realtime.{failure_message}
use task_hub.AdminPage.Events.{
  Event, failed_to_fetch, body_read, submit_token, change_visibility, find_call, find_socket,
  is_current_socket, open_handler, on_call, on_socket,
}
use task_hub.AdminPage.Wiring.{
  rewired, IsWired, IsKept, IsKept-refl, IsKept-trans, IsKept-IsWired, IsSafe, IsKept-IsSafe,
  if-IsSafe,
}
use task_hub.AdminPage.Kept.{
  same-IsKept, load_tasks-IsKept, refresh_all-IsKept, connect_realtime-IsKept,
}
use task_hub.AdminPage.Timely.Sessions.{submitted_tab}
use task_hub.AdminPage.Lifeline.{connect_realtime-IsLive}
use task_hub.AdminPage.Sockets.{close_realtime-IsWired, sign_out-IsWired}

pub submitted-IsSafe :
    (input : String) (tab : Tab)
    → tab.document.auth_view_hidden ≡ false
    → IsSafe tab (submit_token input tab)
unfolding submit_token connect
submitted-IsSafe input tab e = record {
  wired = λ w. IsKept-IsWired (refresh_all-IsKept _ (submitted_tab input tab)) (begun-IsWired w);
  live = λ w l shown.
      let k =
        refresh_all-IsKept (connecting (tab.state.session_epoch + 1) (trim input))
          (submitted_tab input tab) in
      cc (w.one_view e, k.same_app_hidden, shown);
}
  where
    begun-IsWired : IsWired tab → IsWired (submitted_tab input tab)
    begun-IsWired w = rewired refl refl refl refl refl refl (omega arith) w

pub signed_out-IsSafe : (tab : Tab) → IsSafe tab (sign_out tab)
unfolding sign_out close_realtime
signed_out-IsSafe tab = record { wired = λ w. sign_out-IsWired tab w; live = λ w l shown. cc }

abbrev with_visibility : Bool → Tab → Tab
with_visibility is_hidden tab = record tab {
  document = record tab.document { is_hidden = is_hidden };
}

turned-IsWired :
    (is_hidden : Bool) (tab : Tab) → IsWired tab → IsWired (with_visibility is_hidden tab)
turned-IsWired is_hidden tab w = rewired refl refl refl refl refl refl (omega arith) w

abbrev opened_tab : Tab → Tab
opened_tab tab = record tab {
  state = record tab.state { reconnect_attempt = 0 };
  document = record tab.document { is_connected = true; connection_label = "Connected" };
}

-- A page that becomes hidden, or visible again.
pub change_visibility-IsSafe :
    (is_hidden : Bool) (tab : Tab) → IsSafe tab (change_visibility is_hidden tab)
unfolding change_visibility close_realtime
change_visibility-IsSafe true tab = record {
  wired = λ w. close_realtime-IsWired (with_visibility true tab) (turned-IsWired true tab w);
  live = λ w l shown visible. cc;
}
change_visibility-IsSafe false tab = elim (Bool-cases (is_empty tab.state.token)) [
  | inl e ↦
      rw (change_visibility, e)
        (record {
          wired = λ w. turned-IsWired false tab w;
          live = λ w l shown visible token. cc (e, token);
        })
  | inr e ↦
      rw (change_visibility, e)
        (record {
          wired = λ w.
              IsKept-IsWired
                (IsKept-trans (refresh_all-IsKept unheeding (with_visibility false tab))
                  (connect_realtime-IsKept (refresh_all unheeding (with_visibility false tab))))
                (turned-IsWired false tab w);
          live = λ w l. connect_realtime-IsLive (refresh_all unheeding (with_visibility false tab));
        })
]

pub open_handler-IsSafe : (s : PageSocket) (tab : Tab) → IsSafe tab (open_handler s tab)
unfolding open_handler
open_handler-IsSafe s tab =
    if-IsSafe (is_current_socket s tab.state && nat_eq s.epoch tab.state.session_epoch)
      (refresh_all unheeding (opened_tab tab)) tab
      (IsKept-IsSafe (
        IsKept-trans (same-IsKept tab (opened_tab tab) refl refl refl)
          (refresh_all-IsKept unheeding (opened_tab tab))))
      (IsKept-IsSafe (IsKept-refl tab))

pub listed-IsSafe : (before tab : Tab) → IsKept before tab → IsSafe before (load_tasks unheeded tab)
listed-IsSafe before tab k = IsKept-IsSafe (IsKept-trans k (load_tasks-IsKept unheeded tab))

pub on_socket-IsSafe :
    (f : PageSocket → Tab → Tab) (id : ℕ) (tab : Tab)
    → ((s : PageSocket) → find_socket id tab.sockets ≡ some s → IsSafe tab (f s tab))
    → IsSafe tab (on_socket f id tab)
on_socket-IsSafe f id tab k = elim (Option-cases (find_socket id tab.sockets)) [
  | inl e ↦ rw (on_socket, e) (IsKept-IsSafe (IsKept-refl tab))
  | inr (s, e) ↦ rw (on_socket, e) (k s e)
]

pub on_call-IsSafe :
    (f : Call → Tab → Tab) (id : ℕ) (tab : Tab)
    → ((c : Call) → find_call id tab.calls ≡ some c → IsSafe tab (f c tab))
    → IsSafe tab (on_call f id tab)
on_call-IsSafe f id tab k = elim (Option-cases (find_call id tab.calls)) [
  | inl e ↦ rw (on_call, e) (IsKept-IsSafe (IsKept-refl tab))
  | inr (c, e) ↦ rw (on_call, e) (k c e)
]

pub on_call-IsWired :
    (f : Call → Tab → Tab) (id : ℕ) (tab : Tab)
    → IsWired tab
    → ((c : Call) → find_call id tab.calls ≡ some c → IsWired (f c tab))
    → IsWired (on_call f id tab)
on_call-IsWired f id tab w k = elim (Option-cases (find_call id tab.calls)) [
  | inl e ↦ rw (on_call, e) w
  | inr (c, e) ↦ rw (on_call, e) (k c e)
]

pub shut_or :
    {tab : Tab} (next : Tab) (b : Bool)
    → (b ≡ false → IsSafe tab next)
    → IsSafe tab (if b then tab else next)
shut_or {tab} next true h = IsKept-IsSafe (IsKept-refl tab)
shut_or next false h = h refl

-- No failure but the status 401 has the message "unauthorized".
abbrev pub IsPlain : Event → Type 0
IsPlain (failed_to_fetch id message) = (message == "unauthorized") ≡ false
IsPlain (body_read id b) = (failure_message b == "unauthorized") ≡ false
IsPlain _ = Unit {0}
