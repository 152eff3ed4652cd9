-- ===== src/AdminPage/Sockets.antt =====
-- The sockets and the timer of the administration page as they open, close and fire
-- (`closeRealtime`, `signOut`, `connectRealtime` and the handlers of the socket in
-- `src/worker/admin-page.ts`).
use task_hub.Shared.{
  ℕ, ◌<◌, ◌≡◌, refl, inl, inr, true, false, Option, none, some, List, [], ◌∷◌, arith, In,
  Bool-cases, map,
}
use task_hub.AdminPage.State.{PageSocket, Tab}
use task_hub.AdminPage.Session.{silence, close_socket, close_realtime, sign_out}
use task_hub.AdminPage.Realtime.{open_socket}
use task_hub.AdminPage.Wiring.{IsWired}
use task_hub.AdminPage.Lifeline.{cleared}

silenced :
    (id : ℕ) (s : PageSocket) (sockets : List PageSocket)
    → In s (map (silence id) sockets)
    → (t : PageSocket) × In t sockets × (s ≡ silence id t)
silenced id s [] m = elim m [ ]
silenced id s (t ∷ ts) (inl e) = (t, inl refl, e)
silenced id s (t ∷ ts) (inr m) = let (u, n, e) = silenced id s ts m in (u, inr n, e)

silence_id : (id : ℕ) (t : PageSocket) → (silence id t).socket_id ≡ t.socket_id
silence_id id t = ground arith

-- With no socket and no timer.
abbrev disconnected : Tab → Tab
disconnected tab = record tab {
  state = record tab.state { reconnect_timer = 0; socket = none };
  timers = [];
  sockets = close_socket tab.state.socket tab.sockets;
}

all_closing :
    (socket : Option ℕ) (sockets : List PageSocket)
    → ((s : PageSocket) → In s sockets → s.is_closing ≡ false → socket ≡ some s.socket_id)
    → (s : PageSocket) → In s (close_socket socket sockets)
    → s.is_closing ≡ true
all_closing none sockets h s m = elim (Bool-cases s.is_closing) [
  | inl e ↦ e
  | inr e ↦ absurd (cc (h s m e))
]
all_closing (some id) sockets h s m =
    let (t, n, e) = silenced id s sockets m in
    elim (Bool-cases t.is_closing) [
      | inl f ↦ rw e (ground (arith, f))
      | inr f ↦ let g = h t n f in rw e (ground (arith, g))
    ]

closed_before :
    (socket : Option ℕ) (sockets : List PageSocket) (n : ℕ)
    → ((s : PageSocket) → In s sockets → s.socket_id < n)
    → (s : PageSocket) → In s (close_socket socket sockets)
    → s.socket_id < n
closed_before none sockets n h s m = h s m
closed_before (some id) sockets n h s m =
    let (t, k, e) = silenced id s sockets m in rw (e, silence_id id t) (h t k)

disconnected-IsWired : (tab : Tab) → IsWired tab → IsWired (disconnected tab)
disconnected-IsWired tab w = record {
  sole = λ s m o. absurd (cc (all_closing tab.state.socket tab.sockets w.sole s m, o));
  heard = λ s m o e. cc;
  there = λ id e. cc;
  sockets_before = closed_before tab.state.socket tab.sockets tab.fresh w.sockets_before;
  one_view = w.one_view;
  one_timer = inl refl;
}

pub close_realtime-IsWired : (tab : Tab) → IsWired tab → IsWired (close_realtime tab)
unfolding close_realtime
close_realtime-IsWired tab w = rw (close_realtime, cleared tab w) (disconnected-IsWired tab w)

pub sign_out-IsWired : (tab : Tab) → IsWired tab → IsWired (sign_out tab)
unfolding sign_out close_realtime
sign_out-IsWired tab w =
    let d = close_realtime-IsWired tab w in
    record {
      sole = d.sole;
      heard = d.heard;
      there = d.there;
      sockets_before = d.sockets_before;
      one_view = λ e. refl;
      one_timer = elim d.one_timer [ inl e ↦ inl e | inr q ↦ inr q ];
    }

pub open_socket-IsWired :
    (epoch : ℕ) (tab : Tab)
    → tab.state.socket ≡ none
    → IsWired tab
    → IsWired (open_socket epoch tab)
unfolding open_socket
open_socket-IsWired epoch tab e w = record {
  sole = λ s m o. elim m [ inl q ↦ rw q refl | inr n ↦ absurd (cc (w.sole s n o, e)) ];
  heard = λ s m o f. elim m [
    | inl q ↦ cc (q, o)
    | inr n ↦ let low = w.sockets_before s n in absurd (ground (arith, f, low))
  ];
  there = λ id f. (_, inl refl, ground (arith, f), refl);
  sockets_before = λ s m. elim m [
    | inl q ↦ rw q (omega arith)
    | inr n ↦ let low = w.sockets_before s n in omega arith
  ];
  one_view = w.one_view;
  one_timer = w.one_timer;
}
