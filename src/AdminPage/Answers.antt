-- ===== src/AdminPage/Answers.antt =====
-- Whatever answer comes to the administration page, it keeps in touch with the worker (`api` of
-- `src/worker/admin-page.ts`).
use task_hub.Shared.{
  ℕ, ◌+◌, ◌≡◌, ◌≢◌, ◌⊎◌, refl, sym, ap, ◌∙◌, inl, inr, Bool, true, false, some, List, [], ◌∷◌, ◌&&◌,
  arith, In, nat_eq, nat_eq_iff, eq_iff, ◌==◌, leb, Bool-cases, Option-cases, map,
}
use task_hub.AdminPage.View.{Browser}
use task_hub.AdminPage.State.{events_ticket, Call, Tab}
use task_hub.AdminPage.Session.{sign_out}
use task_hub.AdminPage.Settle.{Body, Outcome, threw}
use task_hub.AdminPage.Realtime.{
  without_call, reject, mark_response, failure_message, outcome_of, resume, response_arrived,
  body_arrived,
}
use task_hub.AdminPage.Events.{find_call}
use task_hub.AdminPage.Wiring.{
  rewired, IsWired, by_socket, by_timer, by_ticket, IsLive, IsKept-IsWired,
}
use task_hub.AdminPage.Kept.{same-IsKept}
use task_hub.AdminPage.Timely.{kept_epoch, past, IsTimely}
use task_hub.AdminPage.Timely.Handling.{In-remove_call, find_call-In}
use task_hub.AdminPage.Lifeline.{if-IsWired}
use task_hub.AdminPage.Sockets.{sign_out-IsWired}
use task_hub.AdminPage.Resumed.{IsHeeded, resume-IsWired, resume-IsLive}

find_call-id : (id : ℕ) (c : Call) (cs : List Call) → find_call id cs ≡ some c → c.call_id ≡ id
find_call-id id c [] e = cc
find_call-id id c (d ∷ cs) e = elim (Bool-cases (nat_eq d.call_id id)) [
  | inl f ↦ ground (arith, e, f)
  | inr f ↦ find_call-id id c cs (rw f at e)
]

both : (a b : Bool) → a ≡ true → b ≡ true → (a && b) ≡ true
both a b e f = rw (e, f) refl

In-map : (g : Call → Call) (c : Call) (cs : List Call) → In c cs → In (g c) (map g cs)
In-map g c [] m = elim m [ ]
In-map g c (d ∷ cs) (inl e) = inl (ap g e)
In-map g c (d ∷ cs) (inr m) = inr (In-map g c cs m)

mark_continuation :
    (c : Call) (is_ok : Bool) (d : Call) → (mark_response c is_ok d).continuation ≡ d.continuation
mark_continuation c is_ok d = ground arith

heeded :
    (is_ok : Bool) (b : Body)
    → (failure_message b == "unauthorized") ≡ false
    → IsHeeded (outcome_of is_ok b)
heeded true b h = tt
heeded false b h = h

module _ (id : ℕ) (c : Call) (tab : Tab) (f : find_call id tab.calls ≡ some c) where
  -- The other calls stay.
  left-IsLive :
      c.continuation ≢ events_ticket tab.state.session_epoch
      → IsLive tab
      → IsLive (without_call c tab)
  left-IsLive other l shown visible token = elim (l shown visible token) [
    | by_socket x e ↦ by_socket x e
    | by_timer d e ↦ by_timer d e
    | by_ticket d m e ↦ elim (In-remove_call c.call_id d tab.calls m) [
      | inl n ↦ by_ticket d n e
      | inr g ↦
          let same : some c ≡ some d =
            sym f ∙ ap (λ i. find_call i tab.calls) (sym (find_call-id id c tab.calls f)) ∙ g in
          absurd (other (cc (same, e)))
    ]
  ]

  left-IsWired : IsWired tab → IsWired (without_call c tab)
  left-IsWired w = rewired refl refl refl refl refl refl (omega arith) w

  module _ (browser : Browser) where
    pub went_on-IsLive :
        (o : Outcome)
        → IsHeeded o ⊎ (c.continuation ≢ events_ticket tab.state.session_epoch)
        → IsWired tab
        → IsLive tab
        → IsLive (resume browser c.continuation o (without_call c tab))
    went_on-IsLive o h w l =
        resume-IsLive browser c.continuation o (without_call c tab) h (λ other. left-IsLive other l)
          (left-IsWired w)

    pub went_on-IsWired :
        (o : Outcome) → IsWired tab → IsWired (resume browser c.continuation o (without_call c tab))
    went_on-IsWired o w =
        resume-IsWired browser c.continuation o (without_call c tab) (left-IsWired w)

    over-IsWired : IsWired tab → IsWired (reject (sign_out (without_call c tab)))
    over-IsWired w =
        IsKept-IsWired (same-IsKept (sign_out (without_call c tab)) _ refl refl refl)
          (sign_out-IsWired (without_call c tab) (left-IsWired w))

    rejected_now :
        IsTimely (past tab)
        → (nat_eq c.request_epoch tab.state.session_epoch && c.request_token == tab.state.token)
          ≡ false
        → c.continuation ≢ events_ticket tab.state.session_epoch
    rejected_now h g e =
        let m = find_call-In id c tab.calls f in
        let now : c.request_epoch ≡ tab.state.session_epoch =
          sym (h.same_epoch c tab.state.session_epoch m (ap kept_epoch e)) in
        let epoch = (nat_eq_iff c.request_epoch tab.state.session_epoch).1 now in
        let token = (eq_iff c.request_token tab.state.token).1 (h.same_token c m now) in
        cc (g, both _ _ epoch token)

    rejected_later :
        IsTimely (past tab) → c.continuation ≢ events_ticket (tab.state.session_epoch + 1)
    rejected_later h e =
        let m = find_call-In id c tab.calls f in
        let later = h.same_epoch c (tab.state.session_epoch + 1) m (ap kept_epoch e) in
        let old = h.asked_before c m in absurd (omega arith)

    pub response_arrived-IsWired :
        (status : ℕ) → IsWired tab → IsWired (response_arrived browser status c tab)
    unfolding response_arrived
    response_arrived-IsWired status w =
        if-IsWired (nat_eq status 401) _ _
          (resume-IsWired browser c.continuation (threw "unauthorized") _ (
            if-IsWired
              (nat_eq c.request_epoch tab.state.session_epoch && c.request_token == tab.state.token)
              _ _ (over-IsWired w) (left-IsWired w)))
          (marked-IsWired w)
      where
        marked-IsWired :
            IsWired tab
            → IsWired (record tab {
              calls = map (mark_response c (leb 200 status && leb status 299)) tab.calls;
            })
        marked-IsWired w = rewired refl refl refl refl refl refl (omega arith) w

    pub response_arrived-IsLive :
        (status : ℕ)
        → IsTimely (past tab)
        → IsWired tab
        → IsLive tab
        → IsLive (response_arrived browser status c tab)
    unfolding response_arrived sign_out
    response_arrived-IsLive status h w l = elim (Bool-cases (nat_eq status 401)) [
      | inr e ↦
          rw (response_arrived, e)
            (λ shown visible token. elim (l shown visible token) [
              | by_socket x q ↦ by_socket x q
              | by_timer d q ↦ by_timer d q
              | by_ticket d m q ↦
                  by_ticket (mark_response c (leb 200 status && leb status 299) d)
                    (In-map (mark_response c (leb 200 status && leb status 299)) d tab.calls m)
                    (mark_continuation c (leb 200 status && leb status 299) d ∙ q)
            ])
      | inl e ↦
          elim (Bool-cases (
            nat_eq c.request_epoch tab.state.session_epoch && c.request_token == tab.state.token)) [
              | inl g ↦
                  rw (response_arrived, e, g)
                    (resume-IsLive browser c.continuation (threw "unauthorized")
                      (reject (sign_out (without_call c tab))) (inr (rejected_later h))
                      (λ other shown. cc) (over-IsWired w))
              | inr g ↦
                  rw (response_arrived, e, g)
                    (went_on-IsLive (threw "unauthorized") (inr (rejected_now h g)) w l)
            ]
    ]

    pub body_arrived-IsLive :
        (b : Body)
        → (failure_message b == "unauthorized") ≡ false
        → IsWired tab
        → IsLive tab
        → IsLive (body_arrived browser b c tab)
    unfolding body_arrived
    body_arrived-IsLive b h w l = elim (Option-cases c.response_ok) [
      | inl e ↦ rw (body_arrived, e) l
      | inr (is_ok, e) ↦
          rw (body_arrived, e) (went_on-IsLive (outcome_of is_ok b) (inl (heeded is_ok b h)) w l)
    ]

    pub body_arrived-IsWired : (b : Body) → IsWired tab → IsWired (body_arrived browser b c tab)
    unfolding body_arrived
    body_arrived-IsWired b w = elim (Option-cases c.response_ok) [
      | inl e ↦ rw (body_arrived, e) w
      | inr (is_ok, e) ↦ rw (body_arrived, e) (went_on-IsWired (outcome_of is_ok b) w)
    ]
