-- ===== src/AdminPage/Timely/Answers.antt =====
-- What the administration page does with an answer keeps its sessions apart (the rest of `api`, of the
-- loaders and of `refreshAll` of `src/worker/admin-page.ts`).
use task_hub.Shared.{
  ℕ, ◌≡◌, refl, inl, inr, Bool, Option, none, some, List, [], ◌∷◌, String, ◌&&◌, not, arith, In,
  In-filter, nat_eq, leb, ◌==◌, Bool-cases, map, filter,
}
use task_hub.AdminPage.State.{
  Awaiting, refresh, selfcheck_listing, unheeded, Caller, connecting, unheeding, Refresh, Tab,
}
use task_hub.AdminPage.Loads.{is_epoch}
use task_hub.AdminPage.Settle.{
  connected, connected_each, refresh_shown, forget_refresh, end_refresh, one_less, find_refresh,
  loader_ended, finish,
}
use task_hub.AdminPage.Timely.{past, IsTimely}
use task_hub.AdminPage.Timely.Changes.{refreshes-IsTimely, forgotten-IsTimely}
use task_hub.AdminPage.Timely.Sessions.{connect_realtime-IsTimely}

connected-IsTimely :
    (error : Option String) (caller : Caller) (tab : Tab)
    → IsTimely (past tab)
    → IsTimely (past (connected error caller tab))
unfolding connected
connected-IsTimely none unheeding tab h = h
connected-IsTimely (some e) unheeding tab h = h
connected-IsTimely none (connecting epoch token) tab h =
    elim (Bool-cases (nat_eq epoch tab.state.session_epoch && token == tab.state.token)) [
      | inl e ↦ rw (connected, e) (connect_realtime-IsTimely _ h)
      | inr e ↦ rw (connected, e) h
    ]
connected-IsTimely (some message) (connecting epoch token) tab h =
    elim (Bool-cases (nat_eq epoch tab.state.session_epoch && not (message == "unauthorized"))) [
      | inl e ↦ rw (connected, e) h
      | inr e ↦ rw (connected, e) h
    ]

connected_each-IsTimely :
    (error : Option String) (callers : List Caller) (tab : Tab)
    → IsTimely (past tab)
    → IsTimely (past (connected_each error callers tab))
unfolding connected_each
connected_each-IsTimely error [] tab h = h
connected_each-IsTimely error (c ∷ cs) tab h =
    connected_each-IsTimely error cs (connected error c tab) (connected-IsTimely error c tab h)

-- Some of the refreshes.
filtered-IsTimely :
    (f : Refresh → Bool) (tab : Tab)
    → IsTimely (past tab)
    → IsTimely (past (record tab { refreshes = filter f tab.refreshes }))
filtered-IsTimely f tab h =
    refreshes-IsTimely (past tab) (filter f tab.refreshes)
      (λ r m.
        let (n, e) = In-filter f r tab.refreshes m in
        (r, n, refl, refl, λ epoch token k. h.caller_epoch r epoch token n k))
      h

shown-past :
    (error : Option String) (epoch : ℕ) (tab : Tab)
    → past (refresh_shown error epoch tab) ≡ past tab
shown-past none epoch tab = ground arith
shown-past (some e) epoch tab = ground arith

forget-IsTimely :
    (id : ℕ) (tab : Tab)
    → IsTimely (past tab)
    → IsTimely (past (record tab { state = forget_refresh id tab.state }))
forget-IsTimely id tab h = elim (Bool-cases (is_epoch id tab.state.refresh_promise)) [
  | inl e ↦ rw e (forgotten-IsTimely (past tab) h)
  | inr e ↦ rw e h
]

end_refresh-IsTimely :
    (error : Option String) (r : Refresh) (tab : Tab)
    → IsTimely (past tab)
    → IsTimely (past (end_refresh error r tab))
unfolding end_refresh
end_refresh-IsTimely error r tab h =
    let ended = record tab {
      refreshes = filter (λ q. not (nat_eq q.refresh_id r.refresh_id)) tab.refreshes;
    } in
    let seen = refresh_shown error r.epoch ended in
    connected_each-IsTimely error r.callers
      (record seen { state = forget_refresh r.refresh_id seen.state })
      (forget-IsTimely r.refresh_id seen (
        rw (shown-past error r.epoch ended)
          (filtered-IsTimely (λ q. not (nat_eq q.refresh_id r.refresh_id)) tab h)))

less :
    (id : ℕ) (rs : List Refresh)
    → ((q : Refresh) (epoch : ℕ) (token : String)
        → In q rs
        → In (connecting epoch token) q.callers
        → epoch ≡ q.epoch)
    → (r : Refresh) → In r (map (one_less id) rs)
    → (q : Refresh) × In q rs
      × (q.refresh_id ≡ r.refresh_id)
      × (q.epoch ≡ r.epoch)
      × ((epoch : ℕ) (token : String) → In (connecting epoch token) r.callers → epoch ≡ r.epoch)
less id [] old r m = elim m [ ]
less id (q ∷ rs) old r (inl e) = elim (Bool-cases (nat_eq q.refresh_id id)) [
  | inl f ↦ rw (e, f) (q, inl refl, refl, refl, λ epoch token m. old q epoch token (inl refl) m)
  | inr f ↦ rw (e, f) (q, inl refl, refl, refl, λ epoch token m. old q epoch token (inl refl) m)
]
less id (q ∷ rs) old r (inr m) =
    let (p, n, e, f, g) = less id rs (λ x y z k. old x y z (inr k)) r m in (p, inr n, e, f, g)

loader_ended-IsTimely :
    (error : Option String) (r : Option Refresh) (tab : Tab)
    → IsTimely (past tab)
    → IsTimely (past (loader_ended error r tab))
loader_ended-IsTimely none none tab h = h
loader_ended-IsTimely (some e) none tab h = h
loader_ended-IsTimely none (some r) tab h = elim (Bool-cases (leb r.left 1)) [
  | inl e ↦ rw e (end_refresh-IsTimely none r tab h)
  | inr e ↦ rw e (
      refreshes-IsTimely (past tab) (map (one_less r.refresh_id) tab.refreshes)
        (less r.refresh_id tab.refreshes h.caller_epoch) h)
]
loader_ended-IsTimely (some e) (some r) tab h = end_refresh-IsTimely (some e) r tab h

pub finish-IsTimely :
    (error : Option String) (w : Awaiting) (tab : Tab)
    → IsTimely (past tab)
    → IsTimely (past (finish error w tab))
unfolding finish
finish-IsTimely error unheeded tab h = h
finish-IsTimely none selfcheck_listing tab h = h
finish-IsTimely (some e) selfcheck_listing tab h = h
finish-IsTimely error (refresh id) tab h =
    loader_ended-IsTimely error (find_refresh id tab.refreshes) tab h
