-- ===== src/AdminPage/Wiring.antt =====
-- How the administration page keeps in touch with the worker: its socket, its timer and the request
-- for a ticket (`connectRealtime`, `scheduleReconnect` and `closeRealtime` of
-- `src/worker/admin-page.ts`), and the operations that leave these alone.

use task_hub.Shared.{
  ℕ, ◌≤◌, ◌<◌, ◌≡◌, ◌≢◌, ◌⊎◌, refl, sym, ◌∙◌, inl, inr, true, false, Bool, if◌then◌else◌, some, [],
  ◌∷◌, arith, In,
}
use task_hub.Shared.Text.{is_empty}
use task_hub.AdminPage.State.{events_ticket, Call, PageSocket, Tab}

-- The page hears of the closing of its socket, and every other socket is closing; there is at most
-- one timer, the one that `reconnectTimer` names, and it waits between one second and one minute.
pub record IsWired (tab : Tab) : Type 0 where
  pub sole :
      (s : PageSocket)
      → In s tab.sockets
      → s.is_closing ≡ false
      → tab.state.socket ≡ some s.socket_id
  pub heard :
      (s : PageSocket) → In s tab.sockets → s.is_heard ≡ false → tab.state.socket ≢ some s.socket_id
  pub there :
      (id : ℕ)
      → tab.state.socket ≡ some id
      → (s : PageSocket) × In s tab.sockets × (s.socket_id ≡ id) × (s.is_heard ≡ true)
  pub sockets_before : (s : PageSocket) → In s tab.sockets → s.socket_id < tab.fresh
  -- The form and the console are not shown together.
  pub one_view : tab.document.auth_view_hidden ≡ false → tab.document.app_hidden ≡ true
  pub one_timer :
      (tab.timers ≡ [])
      ⊎ ((delay : ℕ) × (tab.timers
            ≡ record { timer_id = tab.state.reconnect_timer; delay = delay } ∷ [])
          × (1000 ≤ delay)
          × (delay ≤ 60000))

-- The page has its socket, or will try to open one: a timer is set, or a ticket was asked for in this
-- session and the answer is still to come.
pub data IsLinked (tab : Tab) : Type 0 where
  by_socket : (id : ℕ) → tab.state.socket ≡ some id → IsLinked tab
  by_timer :
      (delay : ℕ)
      → tab.timers ≡ record { timer_id = tab.state.reconnect_timer; delay = delay } ∷ []
      → IsLinked tab
  by_ticket :
      (call : Call)
      → In call tab.calls
      → call.continuation ≡ events_ticket tab.state.session_epoch
      → IsLinked tab

-- Of a page that shows the console, is visible and has a token.
abbrev pub IsLive : Tab → Type 0
IsLive tab =
    tab.document.app_hidden ≡ false
    → tab.document.is_hidden ≡ false
    → is_empty tab.state.token ≡ false
    → IsLinked tab

-- An operation that leaves the session, the sockets and the timer alone, and every call.
pub record IsKept (before after : Tab) : Type 0 where
  pub same_epoch : after.state.session_epoch ≡ before.state.session_epoch
  pub same_token : after.state.token ≡ before.state.token
  pub same_socket : after.state.socket ≡ before.state.socket
  pub same_timer : after.state.reconnect_timer ≡ before.state.reconnect_timer
  pub same_sockets : after.sockets ≡ before.sockets
  pub same_timers : after.timers ≡ before.timers
  pub same_is_hidden : after.document.is_hidden ≡ before.document.is_hidden
  pub same_auth_view : after.document.auth_view_hidden ≡ before.document.auth_view_hidden
  pub same_app_hidden : after.document.app_hidden ≡ before.document.app_hidden
  pub more_fresh : before.fresh ≤ after.fresh
  pub keeps_calls : (c : Call) → In c before.calls → In c after.calls

pub IsKept-refl : (tab : Tab) → IsKept tab tab
IsKept-refl tab = record {
  same_epoch = refl;
  same_token = refl;
  same_socket = refl;
  same_timer = refl;
  same_sockets = refl;
  same_timers = refl;
  same_is_hidden = refl;
  same_auth_view = refl;
  same_app_hidden = refl;
  more_fresh = omega arith;
  keeps_calls = λ c k. k;
}

pub IsKept-trans : {a b c : Tab} → IsKept a b → IsKept b c → IsKept a c
IsKept-trans h k = record {
  same_epoch = cc;
  same_token = cc;
  same_socket = cc;
  same_timer = cc;
  same_sockets = cc;
  same_timers = cc;
  same_is_hidden = cc;
  same_auth_view = cc;
  same_app_hidden = cc;
  more_fresh = omega arith;
  keeps_calls = λ c m. k.keeps_calls c (h.keeps_calls c m);
}

-- It is the sockets, the timers and the two views that count.
pub rewired :
    {a b : Tab}
    → b.state.socket ≡ a.state.socket
    → b.state.reconnect_timer ≡ a.state.reconnect_timer
    → b.sockets ≡ a.sockets
    → b.timers ≡ a.timers
    → b.document.auth_view_hidden ≡ a.document.auth_view_hidden
    → b.document.app_hidden ≡ a.document.app_hidden
    → a.fresh ≤ b.fresh
    → IsWired a
    → IsWired b
rewired socket timer sockets timers auth_view app more w = record {
  sole = λ s m o. socket ∙ w.sole s (rw sockets at m) o;
  heard = λ s m o e. w.heard s (rw sockets at m) o (sym socket ∙ e);
  there = λ id e. let (s, m, f, g) = w.there id (sym socket ∙ e) in (s, rw sockets m, f, g);
  sockets_before = λ s m. let h = w.sockets_before s (rw sockets at m) in omega arith;
  one_view = λ e. app ∙ w.one_view (sym auth_view ∙ e);
  one_timer = elim w.one_timer [
    | inl e ↦ inl (timers ∙ e)
    | inr (d, e, low, high) ↦ inr (d, rw timer (timers ∙ e), low, high)
  ];
}

pub IsKept-IsWired : {a b : Tab} → IsKept a b → IsWired a → IsWired b
IsKept-IsWired k =
    rewired k.same_socket k.same_timer k.same_sockets k.same_timers k.same_auth_view
      k.same_app_hidden k.more_fresh

pub IsKept-IsLinked : {a b : Tab} → IsKept a b → IsLinked a → IsLinked b
IsKept-IsLinked k (by_socket id e) = by_socket id (k.same_socket ∙ e)
IsKept-IsLinked k (by_timer d e) = by_timer d (rw k.same_timer (k.same_timers ∙ e))
IsKept-IsLinked k (by_ticket c m e) = by_ticket c (k.keeps_calls c m) (rw k.same_epoch e)

pub IsKept-IsLive : {a b : Tab} → IsKept a b → IsLive a → IsLive b
IsKept-IsLive k l shown visible token =
    IsKept-IsLinked k (
      l (sym k.same_app_hidden ∙ shown) (sym k.same_is_hidden ∙ visible) (rw k.same_token at token))

-- What an operation keeps of the two.
pub record IsSafe (before after : Tab) : Type 0 where
  pub wired : IsWired before → IsWired after
  pub live : IsWired before → IsLive before → IsLive after

pub IsKept-IsSafe : {a b : Tab} → IsKept a b → IsSafe a b
IsKept-IsSafe k = record { wired = IsKept-IsWired k; live = λ w l. IsKept-IsLive k l }

pub IsSafe-trans : {a b c : Tab} → IsSafe a b → IsSafe b c → IsSafe a c
IsSafe-trans h k = record {
  wired = λ w. k.wired (h.wired w);
  live = λ w l. k.live (h.wired w) (h.live w l);
}

pub if-IsSafe :
    {before : Tab} (b : Bool) (x y : Tab)
    → IsSafe before x
    → IsSafe before y
    → IsSafe before (if b then x else y)
if-IsSafe true x y h k = h
if-IsSafe false x y h k = k
