-- ===== src/Hub/Online.antt =====
-- Who is online (`getPresence` of `src/worker/runner-hub.ts`).
use task_hub.Shared.{
  ◌≡◌, refl, sym, ap, ◌↔◌, inl, inr, Bool-cases, true, Option, none, some, List, [], ◌∷◌, String,
  arith, In, In-append, In-left, In-right, any, eq_iff, ◌==◌, not,
}
use task_hub.Shared.Sort.{In-sort, sort-In}
use task_hub.Shared.Text.{text_lt}
use task_hub.Hub.{
  Attachment, runner_attachment, admin_attachment, Socket, SocketRuntime, runner_role,
  attached_runner, distinct, runners_of, get_presence,
}

any_same-In : (x : String) (xs : List String) → any (λ y. y == x) xs ≡ true → In x xs
any_same-In x [] h = ground arith
any_same-In x (y ∷ xs) h = elim (Bool-cases (y == x)) [
  | inl e ↦ inl (sym ((eq_iff y x).0 e))
  | inr e ↦ inr (any_same-In x xs (rw e at h))
]

In-distinct : (x : String) (xs : List String) → In x (distinct xs) → In x xs
unfolding distinct
In-distinct x [] k = k
In-distinct x (y ∷ ys) k = elim (Bool-cases (any (λ z. z == y) (distinct ys))) [
  | inl e ↦ inr (In-distinct x ys (rw e at k))
  | inr e ↦ elim (rw e at k) [ inl same ↦ inl same | inr l ↦ inr (In-distinct x ys l) ]
]

distinct-In : (x : String) (xs : List String) → In x xs → In x (distinct xs)
unfolding distinct
distinct-In x [] k = k
distinct-In x (y ∷ ys) (inr k) = elim (Bool-cases (any (λ z. z == y) (distinct ys))) [
  | inl e ↦ rw e (distinct-In x ys k)
  | inr e ↦ rw e (inr (distinct-In x ys k))
]
distinct-In x (y ∷ ys) (inl same) = elim (Bool-cases (any (λ z. z == y) (distinct ys))) [
  | inl e ↦ rw (e, same) (any_same-In y (distinct ys) e)
  | inr e ↦ rw e (inl same)
]

attached_runner_iff :
    (x : String) (attachment : Option Attachment)
    → In x (attached_runner attachment) ↔ (attachment ≡ some (runner_attachment x))
attached_runner_iff x none = (λ k. elim k [ ], λ e. ground (arith, e))
attached_runner_iff x (some (runner_attachment y)) = (
  λ k. elim k [ inl same ↦ ap (λ z. some (runner_attachment z)) (sym same) | inr l ↦ elim l [ ] ],
  λ e. inl (ground (arith, e)),
)
attached_runner_iff x (some admin_attachment) = (λ k. elim k [ ], λ e. ground (arith, e))

runners_of-In :
    (x : String) (ss : List Socket) (s : Socket)
    → In s ss
    → s.attachment ≡ some (runner_attachment x)
    → In x (runners_of ss)
unfolding runners_of
runners_of-In x [] s k e = elim k [ ]
runners_of-In x (y ∷ ys) s (inl same) e =
    In-left x (attached_runner y.attachment) (runners_of ys)
      ((attached_runner_iff x y.attachment).1 (rw same at e))
runners_of-In x (y ∷ ys) s (inr k) e =
    In-right x (attached_runner y.attachment) (runners_of ys) (runners_of-In x ys s k e)

In-runners_of :
    (x : String) (ss : List Socket)
    → In x (runners_of ss)
    → (s : Socket) × In s ss × (s.attachment ≡ some (runner_attachment x))
unfolding runners_of
In-runners_of x [] k = elim k [ ]
In-runners_of x (y ∷ ys) k = elim (In-append x (attached_runner y.attachment) (runners_of ys) k) [
  | inl l ↦ (y, inl refl, (attached_runner_iff x y.attachment).0 l)
  | inr l ↦ let (s, m, e) = In-runners_of x ys l in (s, inr m, e)
]

-- A runner is named online exactly when a socket that the runtime lists under the runners' tag is
-- attached to it.
pub get_presence-online_iff :
    (runtime : SocketRuntime) (hub : List Socket) (runner_id : String)
    → In runner_id (get_presence runtime hub).online_runner_ids ↔ (
        (s : Socket) × In s (runtime.get_web_sockets runner_role hub)
        × (s.attachment ≡ some (runner_attachment runner_id)))
unfolding get_presence
get_presence-online_iff runtime hub runner_id = (
  λ k. In-runners_of runner_id (runtime.get_web_sockets runner_role hub) (
      In-distinct runner_id (runners_of (runtime.get_web_sockets runner_role hub)) (
        In-sort (λ a b. not (text_lt b a)) runner_id
          (distinct (runners_of (runtime.get_web_sockets runner_role hub))) k)),
  λ (s, k, e).
      sort-In (λ a b. not (text_lt b a)) runner_id
        (distinct (runners_of (runtime.get_web_sockets runner_role hub)))
        (distinct-In runner_id (runners_of (runtime.get_web_sockets runner_role hub))
          (runners_of-In runner_id (runtime.get_web_sockets runner_role hub) s k e)),
)
