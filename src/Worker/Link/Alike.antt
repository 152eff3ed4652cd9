-- ===== src/Worker/Link/Alike.antt =====
-- Actions of the worker compared at different hubs (`broadcastBestEffort` and the stub of the hub
-- in `src/worker/index.ts`).
use mathlib.Core.Path.{subst}
use task_hub.Shared.{
  if◌then◌else◌, ℕ, ◌≡◌, refl, sym, ap, ◌∙◌, Bool, Bool-cases, inl, inr, true, false, List, String,
}
use task_hub.Types.{TaskRecord, Result, ok, err}
use task_hub.Platform.{Platform}
use task_hub.Action.{Action, pure, raise, lift, ◌>>=◌}
use task_hub.Hub.{Socket}
use task_hub.Hub.Fetch.{HubRequest}
use task_hub.Types.Json.{Value}
use task_hub.Worker.Link.{
  World, HubLink, on_store, best_effort, stub_fetch, broadcast_stub, broadcast_best_effort,
  notify_stub, check_delivered,
}

module _ {S : Type 0} where
  -- What is left of an answer without the sockets.
  abbrev pub told : {A : Type 0} → A × World S → A × S
  told (a, w) = (a, w.store)

  abbrev pub at : S → List Socket → World S
  at s hub = record { store = s; hub = hub }

  -- The two answer alike and leave the same task store, whatever the sockets are.
  pub record Alike {A : Type 0} (m m' : Action (World S) A) : Type 0 where
    pub alike : (s : S) (hub hub' : List Socket) → told (m (at s hub)) ≡ told (m' (at s hub'))

  -- The task store is as it was.
  pub record IsQuiet {A : Type 0} (m : Action (World S) A) : Type 0 where
    pub quiet : (w : World S) → (m w).1.store ≡ w.store

  pub Alike-pure : {A : Type 0} (a : A) → Alike (pure a) (pure a)
  Alike-pure a = record { alike = λ s hub hub'. refl }

  pub Alike-if :
      {A : Type 0} {m m' n n' : Action (World S) A} (b : Bool)
      → Alike m m'
      → Alike n n'
      → Alike (if b then m else n) (if b then m' else n')
  Alike-if true h k = h
  Alike-if false h k = k

  pub best_effort-IsQuiet : {m : Action (World S) (Unit {0})} → IsQuiet m → IsQuiet (best_effort m)
  best_effort-IsQuiet h = record { quiet = h.quiet }

  pub Alike-best_effort :
      {m m' : Action (World S) (Unit {0})}
      → IsQuiet m
      → IsQuiet m'
      → Alike (best_effort m) (best_effort m')
  Alike-best_effort h h' = record {
    alike = λ s hub hub'. ap (λ t. (ok tt, t)) (h.quiet (at s hub) ∙ sym (h'.quiet (at s hub')));
  }

module _ {S A B : Type 0} where
  -- A bind from what its first action answered.
  abbrev next : (A → Action (World S) B) → Result A × World S → Result B × World S
  next g (r, w) = elim r [ ok a ↦ g a w | err error ↦ raise error w ]

  next-told :
      {f f' : A → Action (World S) B}
      → ((a : A) → Alike (f a) (f' a))
      → (r : Result A) (t : S) (hub hub' : List Socket)
      → told (next f (r, at t hub)) ≡ told (next f' (r, at t hub'))
  next-told k (ok a) t hub hub' = (k a).alike t hub hub'
  next-told k (err error) t hub hub' = refl

  next-store :
      {f : A → Action (World S) B}
      → ((a : A) → IsQuiet (f a))
      → (r : Result A) (w : World S) → (next f (r, w)).1.store ≡ w.store
  next-store k (ok a) w = (k a).quiet w
  next-store k (err error) w = refl

  pub Alike-bind :
      {m m' : Action (World S) A} {f f' : A → Action (World S) B}
      → Alike m m'
      → ((a : A) → Alike (f a) (f' a))
      → Alike (m >>= f) (m' >>= f')
  Alike-bind {m} {m'} {f} {f'} h k = record {
    alike = λ s hub hub'.
        let before = m (at s hub) in
        let after = (m' (at s hub')).1.hub in
        subst
          (λ (p : Result A × S). told ((m >>= f) (at s hub)) ≡ told (next f' (p.0, at p.1 after)))
          (h.alike s hub hub') (next-told k before.0 before.1.store before.1.hub after);
  }

  pub after_lift :
      (r : Result A) {f f' : A → Action (World S) B}
      → ((a : A) → Alike (f a) (f' a))
      → Alike (lift r >>= f) (lift r >>= f')
  after_lift r k = Alike-bind (record { alike = λ s hub hub'. refl }) k

  pub after_store :
      (m : Action S A) {f f' : A → Action (World S) B}
      → ((a : A) → Alike (f a) (f' a))
      → Alike (on_store m >>= f) (on_store m >>= f')
  after_store m k = Alike-bind (record { alike = λ s hub hub'. refl }) k

  pub IsQuiet-bind :
      {m : Action (World S) A} {f : A → Action (World S) B}
      → IsQuiet m
      → ((a : A) → IsQuiet (f a))
      → IsQuiet (m >>= f)
  IsQuiet-bind {m} {f} h k = record { quiet = λ w. next-store k (m w).0 (m w).1 ∙ h.quiet w }

module _ {S : Type 0} (platform : Platform) (link : HubLink) (socket_id : ℕ) where
  stub_fetch-IsQuiet :
      (request : HubRequest) → IsQuiet {S = S} (stub_fetch platform link socket_id request)
  unfolding stub_fetch
  stub_fetch-IsQuiet request = record {
    quiet = λ w. elim (Bool-cases (link.answers request)) [
      | inl e ↦ rw (stub_fetch, e) refl
      | inr e ↦ rw (stub_fetch, e) refl
    ];
  }

  lift-IsQuiet : {A : Type 0} (r : Result A) → IsQuiet {S = S} (lift r)
  lift-IsQuiet r = record { quiet = λ w. refl }

  pub broadcast_stub-IsQuiet :
      (event : Value) → IsQuiet {S = S} (broadcast_stub platform link socket_id event)
  unfolding broadcast_stub
  broadcast_stub-IsQuiet event =
      IsQuiet-bind (stub_fetch-IsQuiet _) (λ response. lift-IsQuiet (check_delivered response))

  pub notify_stub-IsQuiet :
      (runner_id task_id : String)
      → IsQuiet {S = S} (notify_stub platform link socket_id runner_id task_id)
  unfolding notify_stub
  notify_stub-IsQuiet runner_id task_id =
      IsQuiet-bind (stub_fetch-IsQuiet _) (λ response. lift-IsQuiet (check_delivered response))

  pub broadcast-IsQuiet :
      (task : TaskRecord) → IsQuiet {S = S} (broadcast_best_effort platform link socket_id task)
  unfolding broadcast_best_effort
  broadcast-IsQuiet task = best_effort-IsQuiet (broadcast_stub-IsQuiet _)

module _ {S : Type 0} (platform : Platform) (link link' : HubLink) (socket_id : ℕ) where
  pub broadcast-Alike :
      (task : TaskRecord)
      → Alike {S = S}
          (broadcast_best_effort platform link socket_id task)
          (broadcast_best_effort platform link' socket_id task)
  unfolding broadcast_best_effort
  broadcast-Alike task =
      Alike-best_effort (broadcast_stub-IsQuiet platform link socket_id _)
        (broadcast_stub-IsQuiet platform link' socket_id _)
