-- ===== src/AdminPage/Closing.antt =====
-- A socket of the administration page that closes or fails, and the timer that fires (the handlers in
-- `connectRealtime` and `scheduleReconnect` of `src/worker/admin-page.ts`).
use task_hub.Shared.{
  ℕ, ◌≡◌, ◌≢◌, refl, sym, ap, ◌∙◌, inl, inr, true, false, Option, none, some, List, [], ◌∷◌, ◌&&◌,
  not, arith, In, In-filter, filter-In, nat_eq, Bool-cases, map, any, filter,
}
use task_hub.AdminPage.State.{PageSocket, Tab}
use task_hub.AdminPage.Events.{
  find_socket, is_current_socket, close_handler, closing, without_socket, fire_timer,
}
use task_hub.AdminPage.Wiring.{
  IsWired, by_socket, by_timer, by_ticket, IsLive, IsSafe, IsKept-IsWired,
}
use task_hub.AdminPage.Kept.{connect_realtime-IsKept}
use task_hub.AdminPage.Lifeline.{
  schedule_reconnect-IsWired, schedule_reconnect-IsLive, connect_realtime-IsLive,
}

find_socket-In :
    (id : ℕ) (s : PageSocket) (sockets : List PageSocket)
    → find_socket id sockets ≡ some s
    → In s sockets × (s.socket_id ≡ id)
find_socket-In id s [] e = cc
find_socket-In id s (t ∷ ts) e = elim (Bool-cases (nat_eq t.socket_id id)) [
  | inl f ↦ (inl (ground (arith, e, f)), ground (arith, e, f))
  | inr f ↦ let (m, g) = find_socket-In id s ts (rw f at e) in (inr m, g)
]

-- A socket that closes, and that the page does not hold.
without-IsWired :
    (id : ℕ) (tab : Tab)
    → tab.state.socket ≢ some id
    → IsWired tab
    → IsWired (without_socket id tab)
without-IsWired id tab other w = record {
  sole = λ s m o. w.sole s (In-filter (λ s. not (nat_eq s.socket_id id)) s tab.sockets m).0 o;
  heard = λ s m o. w.heard s (In-filter (λ s. not (nat_eq s.socket_id id)) s tab.sockets m).0 o;
  there = λ x e.
      let (s, m, f, g) = w.there x e in
      let differs : not (nat_eq s.socket_id id) ≡ true = elim (Bool-cases (nat_eq s.socket_id id)) [
        | inl q ↦ absurd (other (e ∙ ap some (ground (arith, f, q))))
        | inr q ↦ rw q refl
      ] in
      (s, filter-In (λ s. not (nat_eq s.socket_id id)) s tab.sockets m differs, f, g);
  sockets_before =
      λ s m. w.sockets_before s (In-filter (λ s. not (nat_eq s.socket_id id)) s tab.sockets m).0;
  one_view = w.one_view;
  one_timer = w.one_timer;
}

-- The socket of the page closes.
abbrev unlinked : ℕ → Tab → Tab
unlinked id tab = record tab {
  state = record tab.state { socket = none };
  sockets = filter (λ s. not (nat_eq s.socket_id id)) tab.sockets;
}

unlinked-IsWired :
    (id : ℕ) (tab : Tab) → tab.state.socket ≡ some id → IsWired tab → IsWired (unlinked id tab)
unlinked-IsWired id tab e w = record {
  sole = λ s m o.
      let (n, differs) = In-filter (λ s. not (nat_eq s.socket_id id)) s tab.sockets m in
      let q : id ≡ s.socket_id = ground (arith, w.sole s n o, e) in
      absurd (ground (arith, differs, q));
  heard = λ s m o f. cc;
  there = λ x f. cc;
  sockets_before =
      λ s m. w.sockets_before s (In-filter (λ s. not (nat_eq s.socket_id id)) s tab.sockets m).0;
  one_view = w.one_view;
  one_timer = w.one_timer;
}

current_socket :
    (s : PageSocket) (socket : Option ℕ)
    → elim socket [ none ↦ false | some id ↦ nat_eq id s.socket_id ] ≡ true
    → socket ≡ some s.socket_id
current_socket s none e = cc
current_socket s (some id) e = ground (arith, e)

other_socket :
    (s : PageSocket) (socket : Option ℕ)
    → elim socket [ none ↦ false | some id ↦ nat_eq id s.socket_id ] ≡ false
    → socket ≢ some s.socket_id
other_socket s none e f = cc
other_socket s (some id) e f = ground (arith, e, f)

without-IsLive : (id : ℕ) (tab : Tab) → IsLive tab → IsLive (without_socket id tab)
without-IsLive id tab l shown visible token = elim (l shown visible token) [
  | by_socket x e ↦ by_socket x e
  | by_timer d e ↦ by_timer d e
  | by_ticket c m e ↦ by_ticket c m e
]

-- `onclose`
pub closed-IsSafe :
    (id : ℕ) (s : PageSocket) (tab : Tab)
    → find_socket id tab.sockets ≡ some s
    → IsSafe tab (close_handler s (without_socket id tab))
unfolding close_handler
closed-IsSafe id s tab e =
    let (m, f) = find_socket-In id s tab.sockets e in
    elim (Bool-cases (s.is_heard && is_current_socket s tab.state)) [
      | inl g ↦
          let held : tab.state.socket ≡ some id =
            current_socket s tab.state.socket (ground (arith, g)) ∙ ap some f in
          rw (close_handler, g)
            (record {
              wired = λ w.
                  schedule_reconnect-IsWired (unlinked id tab) (unlinked-IsWired id tab held w);
              live = λ w l.
                  schedule_reconnect-IsLive (unlinked id tab) (unlinked-IsWired id tab held w);
            })
      | inr g ↦
          rw (close_handler, g)
            (record {
              wired = λ w.
                  without-IsWired id tab
                    (λ q. elim (Bool-cases s.is_heard) [
                      | inl k ↦
                          other_socket s tab.state.socket (ground (arith, g, k))
                            (q ∙ ap some (sym f))
                      | inr k ↦ w.heard s m k (q ∙ ap some (sym f))
                    ])
                    w;
              live = λ w l. without-IsLive id tab l;
            })
    ]

failed :
    (id : ℕ) (s : PageSocket) (sockets : List PageSocket)
    → In s (map (closing id) sockets)
    → (t : PageSocket) × In t sockets × (s ≡ closing id t)
failed id s [] m = elim m [ ]
failed id s (t ∷ ts) (inl e) = (t, inl refl, e)
failed id s (t ∷ ts) (inr m) = let (u, n, e) = failed id s ts m in (u, inr n, e)

In-failed :
    (id : ℕ) (t : PageSocket) (sockets : List PageSocket)
    → In t sockets
    → In (closing id t) (map (closing id) sockets)
In-failed id t [] m = elim m [ ]
In-failed id t (s ∷ ts) (inl e) = inl (ap (closing id) e)
In-failed id t (s ∷ ts) (inr m) = inr (In-failed id t ts m)

closing_id : (id : ℕ) (t : PageSocket) → (closing id t).socket_id ≡ t.socket_id
closing_id id t = ground arith

closing_heard : (id : ℕ) (t : PageSocket) → (closing id t).is_heard ≡ t.is_heard
closing_heard id t = ground arith

-- `onerror`
pub failed-IsSafe :
    (id : ℕ) (tab : Tab) → IsSafe tab (record tab { sockets = map (closing id) tab.sockets })
failed-IsSafe id tab = record {
  wired = λ w. record {
    sole = λ s m o.
        let (t, n, e) = failed id s tab.sockets m in
        elim (Bool-cases t.is_closing) [
          | inl f ↦ absurd (ground (arith, e, f, o))
          | inr f ↦
              w.sole t n f
              ∙ ap some (sym (ap (λ (x : PageSocket). x.socket_id) e ∙ closing_id id t))
        ];
    heard = λ s m o f.
        let (t, n, e) = failed id s tab.sockets m in
        w.heard t n (sym (ap (λ (x : PageSocket). x.is_heard) e ∙ closing_heard id t) ∙ o)
          (f ∙ ap some (ap (λ (x : PageSocket). x.socket_id) e ∙ closing_id id t));
    there = λ x e.
        let (s, m, f, g) = w.there x e in
        (closing id s, In-failed id s tab.sockets m, closing_id id s ∙ f, closing_heard id s ∙ g);
    sockets_before = λ s m.
        let (t, n, e) = failed id s tab.sockets m in rw (e, closing_id id t) (w.sockets_before t n);
    one_view = w.one_view;
    one_timer = w.one_timer;
  };
  live = λ w l shown visible token. elim (l shown visible token) [
    | by_socket x e ↦ by_socket x e
    | by_timer d e ↦ by_timer d e
    | by_ticket c m e ↦ by_ticket c m e
  ];
}

-- The timer fired.
abbrev unarmed : ℕ → Tab → Tab
unarmed id tab = record tab {
  state = record tab.state { reconnect_timer = 0 };
  timers = filter (λ t. not (nat_eq t.timer_id id)) tab.timers;
}

unarmed-IsWired :
    (id : ℕ) (tab : Tab)
    → any (λ t. nat_eq t.timer_id id) tab.timers ≡ true
    → IsWired tab
    → IsWired (unarmed id tab)
unarmed-IsWired id tab e w = record {
  sole = w.sole;
  heard = w.heard;
  there = w.there;
  sockets_before = w.sockets_before;
  one_view = w.one_view;
  one_timer = elim w.one_timer [
    | inl f ↦ cc (rw f at e)
    | inr (d, f, low, high) ↦
        let g : nat_eq tab.state.reconnect_timer id ≡ true = ground (arith, rw f at e) in
        inl (rw (f, g) refl)
  ];
}

pub fire_timer-IsSafe : (id : ℕ) (tab : Tab) → IsSafe tab (fire_timer id tab)
unfolding fire_timer
fire_timer-IsSafe id tab = elim (Bool-cases (any (λ t. nat_eq t.timer_id id) tab.timers)) [
  | inl e ↦
      rw (fire_timer, e)
        (record {
          wired = λ w.
              IsKept-IsWired (connect_realtime-IsKept (unarmed id tab))
                (unarmed-IsWired id tab e w);
          live = λ w l. connect_realtime-IsLive (unarmed id tab);
        })
  | inr e ↦ rw (fire_timer, e) (record { wired = λ w. w; live = λ w l. l })
]
