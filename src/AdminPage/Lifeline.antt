-- ===== src/AdminPage/Lifeline.antt =====
-- What the administration page does with its socket and its timer keeps it in touch with the worker
-- (`connectRealtime`, `scheduleReconnect`, `closeRealtime` and the handlers of the socket in
-- `src/worker/admin-page.ts`).
use task_hub.Shared.{
  ℕ, ◌+◌, ◌≤◌, ◌≡◌, refl, inl, inr, Bool, true, false, Option, none, some, [], ◌∷◌, ◌||◌, arith,
  Bool-cases, if◌then◌else◌,
}
use task_hub.Shared.Text.{is_empty}
use task_hub.AdminPage.State.{Tab}
use task_hub.AdminPage.Session.{
  api, ask_ticket, clear_timeout, connect_realtime, reconnect_delay, schedule_reconnect,
}
use task_hub.AdminPage.Wiring.{IsWired, IsLinked, by_socket, by_timer, by_ticket, IsLive}
use task_hub.Shared.Text.Split.{nat_eq_refl}
use task_hub.AdminPage.Backoff.{reconnect_delay_bounds}
use task_hub.AdminPage.Render.{set_connection}

pub if-IsWired : (b : Bool) (x y : Tab) → IsWired x → IsWired y → IsWired (if b then x else y)
if-IsWired true x y h k = h
if-IsWired false x y h k = k

pub cleared : (tab : Tab) → IsWired tab → clear_timeout tab.state.reconnect_timer tab.timers ≡ []
cleared tab w = elim w.one_timer [
  | inl e ↦ rw e refl
  | inr (d, e, low, high) ↦ rw (e, nat_eq_refl tab.state.reconnect_timer) refl
]

-- A page without a timer, and one with a new timer.
unset-IsWired : (tab : Tab) → IsWired tab → IsWired (record tab { timers = [] })
unset-IsWired tab w = record {
  sole = w.sole;
  heard = w.heard;
  there = w.there;
  sockets_before = w.sockets_before;
  one_view = w.one_view;
  one_timer = inl refl;
}

abbrev set_timer : ℕ → Tab → Tab
set_timer delay tab = set_connection false "Reconnecting" (record tab {
  state = record tab.state {
    reconnect_attempt = tab.state.reconnect_attempt + 1;
    reconnect_timer = tab.fresh;
  };
  timers = record { timer_id = tab.fresh; delay = delay } ∷ [];
  fresh = tab.fresh + 1;
})

set_timer-IsWired :
    (delay : ℕ) (tab : Tab)
    → 1000 ≤ delay
    → delay ≤ 60000
    → IsWired tab
    → IsWired (set_timer delay tab)
set_timer-IsWired delay tab low high w = record {
  sole = w.sole;
  heard = w.heard;
  there = w.there;
  sockets_before = λ s m. let h = w.sockets_before s m in omega arith;
  one_view = w.one_view;
  one_timer = inr (delay, refl, low, high);
}

pub schedule_reconnect-IsWired : (tab : Tab) → IsWired tab → IsWired (schedule_reconnect tab)
unfolding schedule_reconnect
schedule_reconnect-IsWired tab w =
    let delay = reconnect_delay tab.state.reconnect_attempt in
    let (low, high, rest) = reconnect_delay_bounds tab.state.reconnect_attempt in
    rw (schedule_reconnect, cleared tab w)
      (if-IsWired (is_empty tab.state.token || tab.document.is_hidden) (record tab { timers = [] })
        (set_timer delay tab) (unset-IsWired tab w) (set_timer-IsWired delay tab low high w))

not_both : (a b : Bool) → a ≡ false → b ≡ false → (a || b) ≡ false
not_both a b e f = rw (e, f) refl

pub schedule_reconnect-IsLive : (tab : Tab) → IsWired tab → IsLive (schedule_reconnect tab)
unfolding schedule_reconnect
schedule_reconnect-IsLive tab w =
    elim (Bool-cases (is_empty tab.state.token || tab.document.is_hidden)) [
      | inl e ↦
          rw (schedule_reconnect, e) (λ shown visible token. cc (e, not_both _ _ token visible))
      | inr e ↦
          rw (schedule_reconnect, e, cleared tab w)
            (λ shown visible token. by_timer (reconnect_delay tab.state.reconnect_attempt) refl)
    ]

asked-IsLinked :
    (socket : Option ℕ) (tab : Tab) → tab.state.socket ≡ socket → IsLinked (ask_ticket socket tab)
unfolding api
asked-IsLinked (some id) tab e = by_socket id e
asked-IsLinked none tab e = by_ticket _ (inl refl) refl

-- Whatever link the page had.
pub connect_realtime-IsLive : (tab : Tab) → IsLive (connect_realtime tab)
unfolding connect_realtime
connect_realtime-IsLive tab =
    elim (Bool-cases (is_empty tab.state.token || tab.document.is_hidden)) [
      | inl e ↦ rw (connect_realtime, e) (λ shown visible token. cc (e, not_both _ _ token visible))
      | inr e ↦
          rw (connect_realtime, e) (λ shown visible token. asked-IsLinked tab.state.socket tab refl)
    ]
