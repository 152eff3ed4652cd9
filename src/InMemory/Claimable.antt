-- ===== src/InMemory/Claimable.antt =====
-- `findClaimableTask`: which tasks a runner is given, and in which order.
use task_hub.Shared.{
  ◌≤◌, ◌≡◌, ◌↔◌, refl, ◌⊎◌, inl, inr, true, false, Option, none, some, List, [], ◌∷◌, String, arith,
  eq_iff, In, All-In, In-filter, filter-In, head?, leb→le, Option-cases,
}
use task_hub.Shared.Int.{◌≤ℤ◌}
use task_hub.Shared.Dict.{values}
use task_hub.Shared.Sort.{IsSorted, In-sort, sort-In, sort-IsSorted}
use task_hub.Types.{Instant, TaskStatus, pending_runner, leased, TaskRecord, ok}
use task_hub.InMemory.{
  InMemory, is_open_for, is_claimable, claim_order, claim_candidates, find_claimable_task,
}

-- A task waits for the runner: it is assigned to it, and either pending or held under a lease that
-- has run out.
pub data IsWaiting (runner_id : String) (now : Instant) (task : TaskRecord) : Type 0 where
  pending : task.runner_id ≡ runner_id → task.status ≡ pending_runner → IsWaiting runner_id now task
  timed_out :
      (expires_at : Instant)
      → task.runner_id ≡ runner_id
      → task.status ≡ leased
      → task.lease_expires_at ≡ some expires_at
      → expires_at ≤ now
      → IsWaiting runner_id now task

-- `first` is served before `second`, or may be: it has a higher priority, or the same and is no
-- younger.
abbrev pub Precedes : TaskRecord → TaskRecord → Type 0
Precedes first second =
    (second.priority ≤ℤ first.priority)
    × (second.priority ≡ first.priority → first.created_at ≤ second.created_at)

pub is_open_for-cases :
    (status : TaskStatus) (expires_at : Option Instant) (now : Instant)
    → is_open_for status expires_at now ≡ true
    → (status ≡ pending_runner)
      ⊎ ((at : Instant) × (status ≡ leased) × (expires_at ≡ some at) × (at ≤ now))
is_open_for-cases pending_runner expires_at now h = inl refl
is_open_for-cases leased none now h = cc
is_open_for-cases leased (some at) now h = inr (at, refl, refl, leb→le at now h)
is_open_for-cases _ expires_at now h = cc

pub is_claimable-IsWaiting :
    (runner_id : String) (now : Instant) (task : TaskRecord)
    → is_claimable runner_id now task ≡ true
    → IsWaiting runner_id now task
unfolding is_claimable
is_claimable-IsWaiting runner_id now task h =
    let mine : task.runner_id ≡ runner_id = ground (arith, eq_iff task.runner_id runner_id) in
    elim (is_open_for-cases task.status task.lease_expires_at now (ground arith)) [
      | inl e ↦ pending mine e
      | inr (at, e, f, g) ↦ timed_out at mine e f g
    ]

pub IsWaiting-is_claimable :
    (runner_id : String) (now : Instant) (task : TaskRecord)
    → IsWaiting runner_id now task
    → is_claimable runner_id now task ≡ true
unfolding is_claimable
IsWaiting-is_claimable runner_id now task (pending e f) =
    ground (arith, eq_iff task.runner_id runner_id)
IsWaiting-is_claimable runner_id now task (timed_out at e f g h) =
    ground (arith, eq_iff task.runner_id runner_id)

claim_order_total : (x y : TaskRecord) → claim_order x y ≡ false → claim_order y x ≡ true
unfolding claim_order
claim_order_total x y h = ground arith

claim_order_trans :
    (x y z : TaskRecord) → claim_order x y ≡ true → claim_order y z ≡ true → claim_order x z ≡ true
unfolding claim_order
claim_order_trans x y z h k = ground arith

claim_order-Precedes : (x y : TaskRecord) → claim_order x y ≡ true → Precedes x y
unfolding claim_order
claim_order-Precedes x y h = ground arith

pub head-eq-some :
    {A : Type 0} (xs : List A) (x : A) → head? xs ≡ some x → (rest : List A) × (xs ≡ x ∷ rest)
head-eq-some [] x e = cc
head-eq-some (y ∷ ys) x e = (ys, cc)

pub head-eq-none : {A : Type 0} (xs : List A) → head? xs ≡ none → xs ≡ []
head-eq-none [] e = refl
head-eq-none (y ∷ ys) e = cc

candidates-IsSorted :
    (runner_id : String) (now : Instant) (s : InMemory)
    → IsSorted claim_order (claim_candidates runner_id now s)
unfolding claim_candidates
candidates-IsSorted runner_id now s =
    sort-IsSorted claim_order claim_order_total claim_order_trans _

candidates-In :
    (runner_id : String) (now : Instant) (s : InMemory) (task : TaskRecord)
    → In task (claim_candidates runner_id now s)
    → In task (values s.tasks) × IsWaiting runner_id now task
unfolding claim_candidates
candidates-In runner_id now s task h =
    let (stored, passed) =
      In-filter (is_claimable runner_id now) task (values s.tasks) (In-sort claim_order task _ h) in
    (stored, is_claimable-IsWaiting runner_id now task passed)

In-candidates :
    (runner_id : String) (now : Instant) (s : InMemory) (task : TaskRecord)
    → In task (values s.tasks)
    → IsWaiting runner_id now task
    → In task (claim_candidates runner_id now s)
unfolding claim_candidates
In-candidates runner_id now s task h w = sort-In claim_order task _ (
    filter-In (is_claimable runner_id now) task (values s.tasks) h
      (IsWaiting-is_claimable runner_id now task w))

-- In a sorted list that begins with `x` everything comes after `x`.
sorted-head :
    (x y : TaskRecord) (rest : List TaskRecord)
    → IsSorted claim_order (x ∷ rest)
    → In y (x ∷ rest)
    → (y ≡ x) ⊎ (claim_order x y ≡ true)
sorted-head x y rest h (inl same) = inl same
sorted-head x y rest h (inr k) = inr (All-In (λ z. claim_order x z ≡ true) y rest h.0 k)

Precedes-refl : (x : TaskRecord) → Precedes x x
Precedes-refl x = ground arith

-- The task that a claim is given stands in the store and waits for this runner, and no other task
-- that waits for it has a higher priority, or the same priority and an earlier creation.
pub find_claimable_task_best :
    (runner_id : String) (now : Instant) (s : InMemory) (task : TaskRecord)
    → (find_claimable_task runner_id now s).0 ≡ ok (some task)
    → In task (values s.tasks)
      × IsWaiting runner_id now task
      × ((other : TaskRecord)
          → In other (values s.tasks)
          → IsWaiting runner_id now other
          → Precedes task other)
unfolding find_claimable_task
find_claimable_task_best runner_id now s task h =
    let (rest, e) = head-eq-some (claim_candidates runner_id now s) task (ground arith) in
    let (stored, waits) = candidates-In runner_id now s task (rw e (inl refl)) in
    (
      stored,
      waits,
      λ other k w.
          elim (sorted-head task other rest (rw e at (candidates-IsSorted runner_id now s))
            (rw e at (In-candidates runner_id now s other k w))) [
              | inl same ↦ rw same (Precedes-refl task)
              | inr before ↦ claim_order-Precedes task other before
            ],
    )

-- A claim finds nothing exactly when no task of the store waits for the runner.
pub find_claimable_task-none_iff :
    (runner_id : String) (now : Instant) (s : InMemory)
    → ((find_claimable_task runner_id now s).0 ≡ ok none)
      ↔ ((task : TaskRecord) → In task (values s.tasks) → ¬ IsWaiting runner_id now task)
unfolding find_claimable_task
find_claimable_task-none_iff runner_id now s = (
  λ h task k w.
      rw (head-eq-none (claim_candidates runner_id now s) (ground arith)) at
        (In-candidates runner_id now s task k w),
  λ none_waits. elim (Option-cases (head? (claim_candidates runner_id now s))) [
    | inl e ↦ rw e refl
    | inr (task, e) ↦
        let (rest, same) = head-eq-some (claim_candidates runner_id now s) task e in
        let (stored, waits) = candidates-In runner_id now s task (rw same (inl refl)) in
        absurd (none_waits task stored waits)
  ],
)

-- Who may claim what depends on the tasks alone.
pub claim_candidates_of_tasks :
    (runner_id : String) (now : Instant) (s t : InMemory)
    → s.tasks ≡ t.tasks
    → claim_candidates runner_id now s ≡ claim_candidates runner_id now t
unfolding claim_candidates
claim_candidates_of_tasks runner_id now s t e = rw e refl
