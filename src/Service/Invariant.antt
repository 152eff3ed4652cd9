-- ===== src/Service/Invariant.antt =====
-- The invariant of the in-memory store under the service's changes.
use task_hub.Shared.{
  ◌≡◌, refl, ◌⊎◌, inl, inr, some, List, [], ◌∷◌, ◌++◌, String, In, In-append, arith,
}
use task_hub.Shared.Dict.{insert, values, lookup-insert_self, In-insert, In-lookup, insert-Keyed}
use task_hub.Types.{TaskRecord, WebhookDelivery}
use task_hub.InMemory.{InMemory, LogBatch}
use task_hub.Service.Changes.{
  HasLease, task_id_of, runner_id_of, Change, puts_runner, adds_task, updates_task, adds_logs,
  adds_delivery, Changes, unchanged, then_change, IsKeyed,
}
use task_hub.Service.Keeps.{Known, Keeps, Change-Keeps, Known-Keeps}

-- The store is consistent: records stand under their own ids; a leased task names its lease; the queue, the logs and the deliveries speak of tasks that are there; and no two tasks
-- share an idempotency key.
pub record IsConsistent (s : InMemory) : Type 0 where
  pub keyed : IsKeyed s
  pub leases : (task : TaskRecord) → In task (values s.tasks) → HasLease task
  pub queue : (id : String) → In id s.enqueued_task_ids → Known id s
  pub logs : (batch : LogBatch) → In batch s.log_batches → Known batch.task_id s
  pub deliveries :
      (delivery : WebhookDelivery)
      → In delivery s.webhook_deliveries
      → Known delivery.payload.task_id s
  pub keys :
      (a b : TaskRecord) (key : String)
      → In a (values s.tasks)
      → In b (values s.tasks)
      → a.idempotency_key ≡ some key
      → b.idempotency_key ≡ some key
      → a.task_id ≡ b.task_id

Change-IsKeyed : (s s' : InMemory) → Change s s' → IsKeyed s → IsKeyed s'
Change-IsKeyed s s' (puts_runner runner e) h = rw e (record {
  runners = insert-Keyed runner_id_of runner.runner_id runner s.runners h.runners refl;
  tasks = h.tasks;
})
Change-IsKeyed s s' (adds_logs batch t k e) h =
    rw e (record { runners = h.runners; tasks = h.tasks })
Change-IsKeyed s s' (adds_delivery delivery t k e) h =
    rw e (record { runners = h.runners; tasks = h.tasks })
Change-IsKeyed s s' (adds_task new fresh st key e) h = rw e (record {
  runners = h.runners;
  tasks = insert-Keyed task_id_of new.task_id new s.tasks h.tasks refl;
})
Change-IsKeyed s s' (updates_task old new found same lease e) h = rw e (record {
  runners = h.runners;
  tasks = insert-Keyed task_id_of new.task_id new s.tasks h.tasks refl;
})

-- A task of the store after a change was put by it, or was there before.
abbrev Arrives : (s s' : InMemory) → TaskRecord → Type 0
Arrives s s' new =
    (task : TaskRecord) → In task (values s'.tasks) → (task ≡ new) ⊎ In task (values s.tasks)

inserted-Arrives :
    (s s' : InMemory) (new : TaskRecord)
    → s'.tasks ≡ insert new.task_id new s.tasks
    → Arrives s s' new
inserted-Arrives s s' new e task h = In-insert task new.task_id new s.tasks (rw e at h)

Change-leases :
    (s s' : InMemory)
    → Change s s'
    → ((task : TaskRecord) → In task (values s.tasks) → HasLease task)
    → (task : TaskRecord) → In task (values s'.tasks)
    → HasLease task
Change-leases s s' (puts_runner runner e) h task i = h task (rw e at i)
Change-leases s s' (adds_logs batch t k e) h task i = h task (rw e at i)
Change-leases s s' (adds_delivery delivery t k e) h task i = h task (rw e at i)
Change-leases s s' (adds_task new fresh st key e) h task i =
    elim (inserted-Arrives s s' new (ground arith) task i) [
      | inl same ↦ ground arith
      | inr there ↦ h task there
    ]
Change-leases s s' (updates_task old new found same lease e) h task i =
    elim (inserted-Arrives s s' new (ground arith) task i) [
      | inl same ↦ rw same lease
      | inr there ↦ h task there
    ]

-- What a change adds to the end of a log is known, and the rest was there before.
module _ (s s' : InMemory) (keeps : Keeps s s') {A : Type 0} (id_of : A → String) where
  Known-same :
      (olds news : List A)
      → news ≡ olds
      → ((a : A) → In a olds → Known (id_of a) s)
      → (a : A) → In a news
      → Known (id_of a) s'
  Known-same olds news e h a i = Known-Keeps s s' (id_of a) keeps (h a (rw e at i))

  Known-more :
      (olds news : List A) (last : A)
      → news ≡ olds ++ last ∷ []
      → Known (id_of last) s'
      → ((a : A) → In a olds → Known (id_of a) s)
      → (a : A) → In a news
      → Known (id_of a) s'
  Known-more olds news last e k h a i = elim (In-append a olds (last ∷ []) (rw e at i)) [
    | inl old ↦ Known-Keeps s s' (id_of a) keeps (h a old)
    | inr (inl same) ↦ rw same k
    | inr (inr none_left) ↦ elim none_left [ ]
  ]

module _ (s s' : InMemory) (keeps : Keeps s s') (h : IsConsistent s) where
  Change-queue : Change s s' → (id : String) → In id s'.enqueued_task_ids → Known id s'
  Change-queue (adds_task new fresh st key e) =
      Known-more s s' keeps (λ id. id) s.enqueued_task_ids s'.enqueued_task_ids new.task_id (rw e)
        (new, rw e (lookup-insert_self new.task_id new s.tasks)) h.queue
  Change-queue (puts_runner runner e) =
      Known-same s s' keeps (λ id. id) s.enqueued_task_ids s'.enqueued_task_ids (rw e) h.queue
  Change-queue (adds_logs batch t k e) =
      Known-same s s' keeps (λ id. id) s.enqueued_task_ids s'.enqueued_task_ids (rw e) h.queue
  Change-queue (adds_delivery d t k e) =
      Known-same s s' keeps (λ id. id) s.enqueued_task_ids s'.enqueued_task_ids (rw e) h.queue
  Change-queue (updates_task old new found same lease e) =
      Known-same s s' keeps (λ id. id) s.enqueued_task_ids s'.enqueued_task_ids (rw e) h.queue

  Change-logs : Change s s' → (batch : LogBatch) → In batch s'.log_batches → Known batch.task_id s'
  Change-logs (adds_logs batch t k e) =
      Known-more s s' keeps (λ b. b.task_id) s.log_batches s'.log_batches batch (rw e) (t, rw e k)
        h.logs
  Change-logs (puts_runner runner e) =
      Known-same s s' keeps (λ b. b.task_id) s.log_batches s'.log_batches (rw e) h.logs
  Change-logs (adds_task new fresh st key e) =
      Known-same s s' keeps (λ b. b.task_id) s.log_batches s'.log_batches (rw e) h.logs
  Change-logs (adds_delivery d t k e) =
      Known-same s s' keeps (λ b. b.task_id) s.log_batches s'.log_batches (rw e) h.logs
  Change-logs (updates_task old new found same lease e) =
      Known-same s s' keeps (λ b. b.task_id) s.log_batches s'.log_batches (rw e) h.logs

  Change-deliveries :
      Change s s'
      → (delivery : WebhookDelivery) → In delivery s'.webhook_deliveries
      → Known delivery.payload.task_id s'
  Change-deliveries (adds_delivery d t k e) =
      Known-more s s' keeps (λ d. d.payload.task_id) s.webhook_deliveries s'.webhook_deliveries d
        (rw e) (t, rw e k) h.deliveries
  Change-deliveries (puts_runner runner e) =
      Known-same s s' keeps (λ d. d.payload.task_id) s.webhook_deliveries s'.webhook_deliveries
        (rw e) h.deliveries
  Change-deliveries (adds_task new fresh st key e) =
      Known-same s s' keeps (λ d. d.payload.task_id) s.webhook_deliveries s'.webhook_deliveries
        (rw e) h.deliveries
  Change-deliveries (adds_logs batch t k e) =
      Known-same s s' keeps (λ d. d.payload.task_id) s.webhook_deliveries s'.webhook_deliveries
        (rw e) h.deliveries
  Change-deliveries (updates_task old new found same lease e) =
      Known-same s s' keeps (λ d. d.payload.task_id) s.webhook_deliveries s'.webhook_deliveries
        (rw e) h.deliveries

abbrev DistinctKeys : InMemory → Type 0
DistinctKeys s =
    (a b : TaskRecord) (key : String)
    → In a (values s.tasks)
    → In b (values s.tasks)
    → a.idempotency_key ≡ some key
    → b.idempotency_key ≡ some key
    → a.task_id ≡ b.task_id

Change-keys : (s s' : InMemory) → Change s s' → DistinctKeys s → DistinctKeys s'
Change-keys s s' (puts_runner runner e) h a b key i j p q = h a b key (rw e at i) (rw e at j) p q
Change-keys s s' (adds_logs batch t k e) h a b key i j p q = h a b key (rw e at i) (rw e at j) p q
Change-keys s s' (adds_delivery d t k e) h a b key i j p q = h a b key (rw e at i) (rw e at j) p q
Change-keys s s' (adds_task new fresh st free e) h a b key i j p q =
    elim (inserted-Arrives s s' new (rw e) a i) [
      | inl a_new ↦ elim (inserted-Arrives s s' new (rw e) b j) [
        | inl b_new ↦ cc
        | inr b_old ↦ absurd (free b key b_old (rw a_new at p) q)
      ]
      | inr a_old ↦ elim (inserted-Arrives s s' new (rw e) b j) [
        | inl b_new ↦ absurd (free a key a_old (rw b_new at q) p)
        | inr b_old ↦ h a b key a_old b_old p q
      ]
    ]
Change-keys s s' (updates_task old new found same lease e) h a b key i j p q =
    elim (inserted-Arrives s s' new (rw e) a i) [
      | inl a_new ↦ elim (inserted-Arrives s s' new (rw e) b j) [
        | inl b_new ↦ cc
        | inr b_old ↦
            cc (same.task_id, h old b key (In-lookup _ old s.tasks found) b_old (ground arith) q)
      ]
      | inr a_old ↦ elim (inserted-Arrives s s' new (rw e) b j) [
        | inl b_new ↦
            cc (same.task_id, h a old key a_old (In-lookup _ old s.tasks found) p (ground arith))
        | inr b_old ↦ h a b key a_old b_old p q
      ]
    ]

pub Change-IsConsistent : (s s' : InMemory) → Change s s' → IsConsistent s → IsConsistent s'
Change-IsConsistent s s' c h =
    let keeps : Keeps s s' = Change-Keeps s s' c in
    record {
      keyed = Change-IsKeyed s s' c h.keyed;
      leases = Change-leases s s' c h.leases;
      queue = Change-queue s s' keeps h c;
      logs = Change-logs s s' keeps h c;
      deliveries = Change-deliveries s s' keeps h c;
      keys = Change-keys s s' c h.keys;
    }

pub Changes-IsConsistent : (s s' : InMemory) → Changes s s' → IsConsistent s → IsConsistent s'
Changes-IsConsistent s s' unchanged h = h
Changes-IsConsistent s s' (then_change {t} c last) h =
    Change-IsConsistent t s' last (Changes-IsConsistent s t c h)
