-- ===== src/AdminPage/Timely/Handling.antt =====
-- Whatever happens to the administration page, its sessions are kept apart (the handlers of
-- `src/worker/admin-page.ts`).
use task_hub.Shared.{
  ℕ, ◌+◌, ◌≡◌, ◌⊎◌, refl, sym, ◌∙◌, inl, inr, Bool, some, List, [], ◌∷◌, String, ◌&&◌, arith, In,
  nat_eq, leb, ◌==◌, Bool-cases, Option-cases, map,
}
use task_hub.AdminPage.View.{Browser}
use task_hub.AdminPage.State.{Call, Tab}
use task_hub.AdminPage.Settle.{Body, threw}
use task_hub.AdminPage.Realtime.{
  remove_call, without_call, mark_response, outcome_of, response_arrived, request_failed,
  body_arrived,
}
use task_hub.AdminPage.Events.{find_call}
use task_hub.AdminPage.Timely.{Past, past, IsTimely}
use task_hub.AdminPage.Timely.Changes.{calls-IsTimely}
use task_hub.AdminPage.Timely.Sessions.{sign_out-IsTimely}
use task_hub.AdminPage.Timely.Resuming.{IsStillReady, resume-IsTimely}

pub remove_call-In : (id : ℕ) (c : Call) (cs : List Call) → In c (remove_call id cs) → In c cs
remove_call-In id c [] m = elim m [ ]
remove_call-In id c (d ∷ cs) m = elim (Bool-cases (nat_eq d.call_id id)) [
  | inl e ↦ inr (rw e at m)
  | inr e ↦ elim (rw e at m) [ inl q ↦ inl q | inr n ↦ inr (remove_call-In id c cs n) ]
]

-- A call that is there is the one that is found, or is left when that one is removed.
pub In-remove_call :
    (id : ℕ) (c : Call) (cs : List Call)
    → In c cs
    → In c (remove_call id cs) ⊎ (find_call id cs ≡ some c)
In-remove_call id c [] m = elim m [ ]
In-remove_call id c (d ∷ cs) m = elim (Bool-cases (nat_eq d.call_id id)) [
  | inl e ↦ elim m [ inl q ↦ inr (rw (e, q) refl) | inr n ↦ inl (rw e n) ]
  | inr e ↦ elim m [
    | inl q ↦ inl (rw e (inl q))
    | inr n ↦ elim (In-remove_call id c cs n) [ inl k ↦ inl (rw e (inr k)) | inr k ↦ inr (rw e k) ]
  ]
]

pub find_call-In : (id : ℕ) (c : Call) (cs : List Call) → find_call id cs ≡ some c → In c cs
find_call-In id c [] e = cc
find_call-In id c (d ∷ cs) e = elim (Bool-cases (nat_eq d.call_id id)) [
  | inl f ↦ inl (ground (arith, e, f))
  | inr f ↦ inr (find_call-In id c cs (rw f at e))
]

without_call-IsTimely :
    (c : Call) (tab : Tab) → IsTimely (past tab) → IsTimely (past (without_call c tab))
without_call-IsTimely c tab h =
    calls-IsTimely (past tab) (remove_call c.call_id tab.calls)
      (λ d m. (d, remove_call-In c.call_id d tab.calls m, refl, refl, refl)) h

-- A call of this session may still ask for more when it is answered.
asked-IsStillReady :
    (p : Past) (c : Call)
    → In c p.calls
    → IsTimely p
    → IsStillReady (record p { calls = remove_call c.call_id p.calls }) c.continuation
asked-IsStillReady p c m h e =
    let now : c.request_epoch ≡ p.session_epoch = sym (h.same_epoch c p.session_epoch m e) in
    record {
      now = λ x g. ground (arith, e, g);
      known = λ id g. h.awaited_before c id m g;
      of_session = λ r n g. h.linked c r m n g ∙ now;
    }

marked :
    (browser : Browser) (c : Call) (is_ok : Bool) (d : Call) (cs : List Call)
    → In d (map (mark_response c is_ok) cs)
    → (x : Call) × In x cs
      × (x.request_epoch ≡ d.request_epoch)
      × (x.request_token ≡ d.request_token)
      × (x.continuation ≡ d.continuation)
marked browser c is_ok d [] m = elim m [ ]
marked browser c is_ok d (x ∷ cs) (inl e) = elim (Bool-cases (nat_eq x.call_id c.call_id)) [
  | inl f ↦ rw (e, f) (x, inl refl, refl, refl, refl)
  | inr f ↦ rw (e, f) (x, inl refl, refl, refl, refl)
]
marked browser c is_ok d (x ∷ cs) (inr m) =
    let (y, n, e, f, g) = marked browser c is_ok d cs m in (y, inr n, e, f, g)

module _ (browser : Browser) where
  pub response_arrived-IsTimely :
      (status : ℕ) (c : Call) (tab : Tab)
      → In c tab.calls
      → IsTimely (past tab)
      → IsTimely (past (response_arrived browser status c tab))
  unfolding response_arrived
  response_arrived-IsTimely status c tab m h = elim (Bool-cases (nat_eq status 401)) [
    | inr e ↦
        rw (response_arrived, e)
          (calls-IsTimely (past tab) _
            (λ d n. marked browser c (leb 200 status && leb status 299) d tab.calls n) h)
    | inl e ↦
        rw (response_arrived, e)
          (elim (Bool-cases (
            nat_eq c.request_epoch tab.state.session_epoch && c.request_token == tab.state.token)) [
              | inl f ↦ rw f (
                  resume-IsTimely browser c.continuation (threw "unauthorized") _
                    (λ g.
                      let old = h.asked_before c m in
                      let same = h.same_epoch c (tab.state.session_epoch + 1) m g in
                      absurd (omega arith))
                    (sign_out-IsTimely (without_call c tab) (without_call-IsTimely c tab h)))
              | inr f ↦ rw f (
                  resume-IsTimely browser c.continuation (threw "unauthorized") (without_call c tab)
                    (asked-IsStillReady (past tab) c m h) (without_call-IsTimely c tab h))
            ])
  ]

  pub request_failed-IsTimely :
      (message : String) (c : Call) (tab : Tab)
      → In c tab.calls
      → IsTimely (past tab)
      → IsTimely (past (request_failed browser message c tab))
  unfolding request_failed
  request_failed-IsTimely message c tab m h =
      resume-IsTimely browser c.continuation (threw message) (without_call c tab)
        (asked-IsStillReady (past tab) c m h) (without_call-IsTimely c tab h)

  pub body_arrived-IsTimely :
      (body : Body) (c : Call) (tab : Tab)
      → In c tab.calls
      → IsTimely (past tab)
      → IsTimely (past (body_arrived browser body c tab))
  unfolding body_arrived
  body_arrived-IsTimely body c tab m h = elim (Option-cases c.response_ok) [
    | inl e ↦ rw (body_arrived, e) h
    | inr (ok, e) ↦
        rw (body_arrived, e)
          (resume-IsTimely browser c.continuation (outcome_of ok body) (without_call c tab)
            (asked-IsStillReady (past tab) c m h) (without_call-IsTimely c tab h))
  ]
