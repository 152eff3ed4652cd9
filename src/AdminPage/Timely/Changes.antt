-- ===== src/AdminPage/Timely/Changes.antt =====
-- The steps that keep the sessions of the administration page apart: a request, a refresh, the end of
-- one, and a new session (`src/worker/admin-page.ts`).
use task_hub.Shared.{
  ℕ, ◌+◌, ◌≤◌, ◌<◌, ◌≡◌, ◌≢◌, refl, sym, ◌∙◌, inl, inr, Bool, true, false, none, some, List, ◌∷◌,
  String, arith, In, if◌then◌else◌,
}
use task_hub.AdminPage.State.{Call, connecting, Refresh, Tab}
use task_hub.AdminPage.Timely.{awaited_by, Past, past, IsTimely, IsReady}

-- A request of now.
abbrev pub sent : Call → Past → Past
sent c p = record p { calls = c ∷ p.calls; fresh = p.fresh + 1 }

pub sent-IsTimely :
    (p : Past) (c : Call)
    → c.request_epoch ≡ p.session_epoch
    → c.request_token ≡ p.token
    → IsReady p c.continuation
    → IsTimely p
    → IsTimely (sent c p)
sent-IsTimely p c e f k h = record {
  asked_before = λ d m. elim m [ inl q ↦ rw (q, e) (omega arith) | inr n ↦ h.asked_before d n ];
  same_token = λ d m g. elim m [ inl q ↦ rw q f | inr n ↦ h.same_token d n g ];
  same_epoch = λ d x m g. elim m [
    | inl q ↦ rw q (k.now x (rw q at g) ∙ sym e)
    | inr n ↦ h.same_epoch d x n g
  ];
  awaited_before = λ d id m g. elim m [
    | inl q ↦ let low = k.known id (rw q at g) in omega arith
    | inr n ↦ let low = h.awaited_before d id n g in omega arith
  ];
  linked = λ d r m n g. elim m [
    | inl q ↦ rw q (k.of_session r n (rw q at g) ∙ sym e)
    | inr o ↦ h.linked d r o n g
  ];
  refresh_before = λ r m. let low = h.refresh_before r m in omega arith;
  caller_epoch = h.caller_epoch;
  promised = h.promised;
  promised_epoch = h.promised_epoch;
  session_known = h.session_known;
}

pub if-IsTimely :
    (b : Bool) (x y : Tab)
    → IsTimely (past x)
    → IsTimely (past y)
    → IsTimely (past (if b then x else y))
if-IsTimely true x y h k = h
if-IsTimely false x y h k = k

-- Numbers are only ever taken.
pub fresh-IsTimely :
    (p : Past) (n : ℕ) → p.fresh ≤ n → IsTimely p → IsTimely (record p { fresh = n })
fresh-IsTimely p n le h = record {
  asked_before = h.asked_before;
  same_token = h.same_token;
  same_epoch = h.same_epoch;
  awaited_before = λ d id m g. let low = h.awaited_before d id m g in omega arith;
  linked = h.linked;
  refresh_before = λ r m. let low = h.refresh_before r m in omega arith;
  caller_epoch = h.caller_epoch;
  promised = h.promised;
  promised_epoch = h.promised_epoch;
  session_known = h.session_known;
}

-- Calls that stood there before, but for what is known of their answers.
pub calls-IsTimely :
    (p : Past) (cs : List Call)
    → ((c : Call)
        → In c cs
        → (d : Call) × In d p.calls
          × (d.request_epoch ≡ c.request_epoch)
          × (d.request_token ≡ c.request_token)
          × (d.continuation ≡ c.continuation))
    → IsTimely p
    → IsTimely (record p { calls = cs })
calls-IsTimely p cs old h = record {
  asked_before = λ c m. let (d, n, e, f, g) = old c m in rw (← e) (h.asked_before d n);
  same_token = λ c m q. let (d, n, e, f, g) = old c m in sym f ∙ h.same_token d n (e ∙ q);
  same_epoch = λ c x m q. let (d, n, e, f, g) = old c m in h.same_epoch d x n (rw g q) ∙ e;
  awaited_before = λ c id m q. let (d, n, e, f, g) = old c m in h.awaited_before d id n (rw g q);
  linked = λ c r m o q. let (d, n, e, f, g) = old c m in h.linked d r n o (rw g q) ∙ e;
  refresh_before = h.refresh_before;
  caller_epoch = h.caller_epoch;
  promised = h.promised;
  promised_epoch = h.promised_epoch;
  session_known = h.session_known;
}

-- Refreshes that stood there before, with callers of their sessions.
pub refreshes-IsTimely :
    (p : Past) (rs : List Refresh)
    → ((r : Refresh)
        → In r rs
        → (q : Refresh) × In q p.refreshes
          × (q.refresh_id ≡ r.refresh_id)
          × (q.epoch ≡ r.epoch)
          × ((epoch : ℕ) (token : String)
              → In (connecting epoch token) r.callers
              → epoch ≡ r.epoch))
    → IsTimely p
    → IsTimely (record p { refreshes = rs })
refreshes-IsTimely p rs old h = record {
  asked_before = h.asked_before;
  same_token = h.same_token;
  same_epoch = h.same_epoch;
  awaited_before = h.awaited_before;
  linked = λ c r m n g. let (q, o, e, f, k) = old r n in sym f ∙ h.linked c q m o (rw e g);
  refresh_before = λ r m. let (q, o, e, f, k) = old r m in rw (← e) (h.refresh_before q o);
  caller_epoch = λ r epoch token m n. let (q, o, e, f, k) = old r m in k epoch token n;
  promised = h.promised;
  promised_epoch = λ r m g. let (q, o, e, f, k) = old r m in sym f ∙ h.promised_epoch q o (rw e g);
  session_known = h.session_known;
}

-- No refresh is named any more; the session may be a later one.
abbrev pub forgotten : Past → Past
forgotten p = record p { refresh_promise = none; refresh_epoch = none }

pub forgotten-IsTimely : (p : Past) → IsTimely p → IsTimely (forgotten p)
forgotten-IsTimely p h = record {
  asked_before = h.asked_before;
  same_token = h.same_token;
  same_epoch = h.same_epoch;
  awaited_before = h.awaited_before;
  linked = h.linked;
  refresh_before = h.refresh_before;
  caller_epoch = h.caller_epoch;
  promised = λ id e. cc;
  promised_epoch = λ r m e. cc;
  session_known = λ e f. cc;
}

abbrev pub next_session : String → Past → Past
next_session token p = record (forgotten p) { session_epoch = p.session_epoch + 1; token = token }

pub next_session-IsTimely :
    (p : Past) (token : String) → IsTimely p → IsTimely (next_session token p)
next_session-IsTimely p token h = record {
  asked_before = λ c m. let low = h.asked_before c m in omega arith;
  same_token = λ c m e. let low = h.asked_before c m in absurd (omega arith);
  same_epoch = h.same_epoch;
  awaited_before = h.awaited_before;
  linked = h.linked;
  refresh_before = h.refresh_before;
  caller_epoch = h.caller_epoch;
  promised = λ id e. cc;
  promised_epoch = λ r m e. cc;
  session_known = λ e f. cc;
}

-- A new refresh, whose number no other has.
abbrev pub named : Refresh → Past → Past
named r p = record p {
  refresh_promise = some r.refresh_id;
  refresh_epoch = some p.session_epoch;
  refreshes = r ∷ p.refreshes;
}

pub named-IsTimely :
    (p : Past) (r : Refresh)
    → r.epoch ≡ p.session_epoch
    → r.refresh_id < p.fresh
    → ((epoch : ℕ) (token : String) → In (connecting epoch token) r.callers → epoch ≡ r.epoch)
    → ((c : Call)
        → In c p.calls
        → awaited_by c.continuation ≡ some r.refresh_id
        → c.request_epoch ≡ p.session_epoch)
    → ((q : Refresh) → In q p.refreshes → q.refresh_id ≢ r.refresh_id)
    → IsTimely p
    → IsTimely (named r p)
named-IsTimely p r e low callers awaiting other h = record {
  asked_before = h.asked_before;
  same_token = h.same_token;
  same_epoch = h.same_epoch;
  awaited_before = h.awaited_before;
  linked = λ c q m n g. elim n [
    | inl same ↦ rw same (e ∙ sym (awaiting c m (rw same at g)))
    | inr o ↦ h.linked c q m o g
  ];
  refresh_before = λ q m. elim m [ inl same ↦ rw same low | inr n ↦ h.refresh_before q n ];
  caller_epoch = λ q epoch token m n. elim m [
    | inl same ↦ rw same (callers epoch token (rw same at n))
    | inr o ↦ h.caller_epoch q epoch token o n
  ];
  promised = λ id g. refl;
  promised_epoch = λ q m g. elim m [ inl same ↦ rw same e | inr n ↦ absurd (other q n (cc g)) ];
  session_known = λ x g. ground (arith, g);
}
