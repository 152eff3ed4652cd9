-- ===== src/Hub/Past.antt =====
-- What the hub's operations leave of the sockets that it had (`src/worker/runner-hub.ts`): all but an
-- accepted socket is an old one, with its tags, and attached as before or no longer.
use mathlib.Core.Path.{subst}
use task_hub.Shared.{
  ◌≡◌, refl, sym, ap, ◌⊎◌, inl, inr, ◌≢◌, ℕ, Bool, Bool-cases, true, false, Option, none, some,
  List, [], ◌∷◌, String, arith, nat_eq, nat_eq_iff, length, In, if◌then◌else◌,
}
use task_hub.Types.Json.{Value}
use task_hub.Hub.{
  Attachment, runner_attachment, admin_attachment, Socket, SocketRuntime, admin_role, update_socket,
  detached, replaced, shut, received, replace_each, project_admin_event, presence_changed,
  task_available, send_event, get_runner_web_sockets, broadcast_admin_event, notify_task_available,
  announce_offline, read_attachment, handle_disconnected_socket, web_socket_close, web_socket_error,
}

-- What a socket was before: it keeps its identity and tags, is never attached or opened again.
pub record Was (before after : Socket) : Type 0 where
  pub same_id : after.socket_id ≡ before.socket_id
  pub same_tags : after.tags ≡ before.tags
  pub same_attachment : (after.attachment ≡ none) ⊎ (after.attachment ≡ before.attachment)
  pub stays_closed : after.closed ≡ false → before.closed ≡ false

pub Was-refl : (s : Socket) → Was s s
Was-refl s = record {
  same_id = refl;
  same_tags = refl;
  same_attachment = inr refl;
  stays_closed = λ e. e;
}

pub Was-trans : {a b c : Socket} → Was a b → Was b c → Was a c
Was-trans {a} {b} {c} h k = record {
  same_id = cc (h.same_id, k.same_id);
  same_tags = cc (h.same_tags, k.same_tags);
  same_attachment = ground (arith, h.same_attachment, k.same_attachment);
  stays_closed = λ e. h.stays_closed (k.stays_closed e);
}

-- Every socket of the second list was one of the first.
pub record Shrinks (before after : List Socket) : Type 0 where
  pub past : (s : Socket) → In s after → (was : Socket) × In was before × Was was s

pub Shrinks-refl : (hub : List Socket) → Shrinks hub hub
Shrinks-refl hub = record { past = λ s k. (s, k, Was-refl s) }

pub Shrinks-trans : {a b c : List Socket} → Shrinks a b → Shrinks b c → Shrinks a c
Shrinks-trans f g = record {
  past = λ s k.
      let (t, l, was) = g.past s k in let (u, m, was') = f.past t l in (u, m, Was-trans was' was);
}

-- What an update makes of a list: each socket is an updated one, or another that is untouched.
pub update_socket-cases :
    (socket_id : ℕ) (change : Socket → Socket) (hub : List Socket) (s : Socket)
    → In s (update_socket socket_id change hub)
    → (was : Socket) × In was hub
      × ((was.socket_id ≡ socket_id) × (s ≡ change was) ⊎ (was.socket_id ≢ socket_id) × (s ≡ was))
unfolding update_socket
update_socket-cases socket_id change [] s k = elim k [ ]
update_socket-cases socket_id change (x ∷ xs) s k =
    elim (Bool-cases (nat_eq x.socket_id socket_id)) [
      | inl e ↦ elim (rw e at k) [
        | inl same ↦ (x, inl refl, inl ((nat_eq_iff _ _).0 e, same))
        | inr deep ↦
            let (was, l, how) = update_socket-cases socket_id change xs s deep in (was, inr l, how)
      ]
      | inr e ↦ elim (rw e at k) [
        | inl same ↦ (x, inl refl, inr (λ f. absurd (ground (arith, e, f)), same))
        | inr deep ↦
            let (was, l, how) = update_socket-cases socket_id change xs s deep in (was, inr l, how)
      ]
    ]

pub update_socket-Shrinks :
    (socket_id : ℕ) (change : Socket → Socket)
    → ((s : Socket) → Was s (change s))
    → (hub : List Socket) → Shrinks hub (update_socket socket_id change hub)
update_socket-Shrinks socket_id change h hub = record {
  past = λ s k.
      let (was, l, how) = update_socket-cases socket_id change hub s k in
      elim how [
        | inl (_, e) ↦ (was, l, subst (λ (x : Socket). Was was x) (sym e) (h was))
        | inr (_, e) ↦ (was, l, subst (λ (x : Socket). Was was x) (sym e) (Was-refl was))
      ];
}

replaced-Was : (s : Socket) → Was s (replaced s)
replaced-Was s = record {
  same_id = refl;
  same_tags = refl;
  same_attachment = inl refl;
  stays_closed = λ e. ground arith;
}

detached-Was : (s : Socket) → Was s (detached s)
detached-Was s = record {
  same_id = refl;
  same_tags = refl;
  same_attachment = inl refl;
  stays_closed = λ e. e;
}

pub shut-Was : (s : Socket) → Was s (shut s)
shut-Was s = record {
  same_id = refl;
  same_tags = refl;
  same_attachment = inr refl;
  stays_closed = λ e. ground arith;
}

pub sent-Was :
    (works : Bool) (message : Value) (s : Socket)
    → Was s ((if works then received message else shut) s)
sent-Was false message s = shut-Was s
sent-Was true message s = record {
  same_id = refl;
  same_tags = refl;
  same_attachment = inr refl;
  stays_closed = λ e. e;
}

pub replace_each-Shrinks : (ss hub : List Socket) → Shrinks hub (replace_each ss hub)
unfolding replace_each
replace_each-Shrinks [] hub = Shrinks-refl hub
replace_each-Shrinks (s ∷ ss) hub =
    Shrinks-trans (update_socket-Shrinks s.socket_id replaced replaced-Was hub)
      (replace_each-Shrinks ss (update_socket s.socket_id replaced hub))

-- A socket that was updated to have no attachment has none.
updated-none :
    (socket_id : ℕ) (change : Socket → Socket)
    → ((s : Socket) → (change s).attachment ≡ none)
    → (hub : List Socket) (s : Socket) → In s (update_socket socket_id change hub)
    → s.socket_id ≡ socket_id
    → s.attachment ≡ none
updated-none socket_id change h hub s k e =
    let (was, l, how) = update_socket-cases socket_id change hub s k in
    elim how [
      | inl (_, same) ↦ cc (ap (λ (x : Socket). x.attachment) same, h was)
      | inr (other, same) ↦ absurd (other (cc (ap (λ (x : Socket). x.socket_id) same, e)))
    ]

-- A socket that has no attachment has none later.
pub past-none :
    {before after : Socket} → Was before after → before.attachment ≡ none → after.attachment ≡ none
past-none was e = elim was.same_attachment [ inl f ↦ f | inr f ↦ cc (e, f) ]

pub replace_each-none :
    (ss hub : List Socket) (t s : Socket)
    → In t ss
    → In s (replace_each ss hub)
    → s.socket_id ≡ t.socket_id
    → s.attachment ≡ none
unfolding replace_each
replace_each-none [] hub t s k l e = elim k [ ]
replace_each-none (x ∷ xs) hub t s (inr k) l e =
    replace_each-none xs (update_socket x.socket_id replaced hub) t s k l e
replace_each-none (x ∷ xs) hub t s (inl same) l e =
    let (mid, m, was) =
      (replace_each-Shrinks xs (update_socket x.socket_id replaced hub)).past s l in
    past-none was (
      updated-none x.socket_id replaced (λ y. refl) hub mid m
        (cc (was.same_id, e, ap (λ (y : Socket). y.socket_id) same)))

module _ (runtime : SocketRuntime) where
  send_event-Shrinks :
      (ss : List Socket) (message : Value) (hub : List Socket)
      → Shrinks hub (send_event runtime ss message hub).1
  unfolding send_event
  send_event-Shrinks [] message hub = Shrinks-refl hub
  send_event-Shrinks (s ∷ ss) message hub =
      let works = runtime.send_works s.socket_id in
      Shrinks-trans
        (update_socket-Shrinks s.socket_id (if works then received message else shut)
          (sent-Was works message) hub)
        (send_event-Shrinks ss message
          (update_socket s.socket_id (if works then received message else shut) hub))

  pub broadcast_admin_event-Shrinks :
      (event : Value) (hub : List Socket) → Shrinks hub (broadcast_admin_event runtime event hub).1
  unfolding broadcast_admin_event
  broadcast_admin_event-Shrinks event hub =
      send_event-Shrinks (runtime.get_web_sockets admin_role hub) (project_admin_event event) hub

  pub notify_task_available-Shrinks :
      (runner_id task_id : String) (hub : List Socket)
      → Shrinks hub (notify_task_available runtime runner_id task_id hub).1
  unfolding notify_task_available
  notify_task_available-Shrinks runner_id task_id hub =
      send_event-Shrinks (get_runner_web_sockets runtime runner_id hub) (task_available task_id) hub

  announce_offline-Shrinks :
      (attachment : Option Attachment) (hub : List Socket)
      → Shrinks hub (announce_offline runtime attachment hub)
  unfolding announce_offline
  announce_offline-Shrinks none hub = Shrinks-refl hub
  announce_offline-Shrinks (some admin_attachment) hub = Shrinks-refl hub
  announce_offline-Shrinks (some (runner_attachment runner_id)) hub =
      elim (Bool-cases (nat_eq (length (get_runner_web_sockets runtime runner_id hub)) 0)) [
        | inl e ↦ rw e (broadcast_admin_event-Shrinks (presence_changed runner_id false) hub)
        | inr e ↦ rw e (Shrinks-refl hub)
      ]

  handle_disconnected_socket-Shrinks :
      (socket_id : ℕ) (hub : List Socket)
      → Shrinks hub (handle_disconnected_socket runtime socket_id hub)
  unfolding handle_disconnected_socket
  handle_disconnected_socket-Shrinks socket_id hub =
      Shrinks-trans (update_socket-Shrinks socket_id detached detached-Was hub) (
        announce_offline-Shrinks (read_attachment socket_id hub)
          (update_socket socket_id detached hub))

  -- The socket was shut by the other side.
  pub web_socket_close-Shrinks :
      (socket_id : ℕ) (hub : List Socket)
      → Shrinks hub (web_socket_close runtime socket_id (update_socket socket_id shut hub))
  unfolding web_socket_close
  web_socket_close-Shrinks socket_id hub =
      Shrinks-trans (update_socket-Shrinks socket_id shut shut-Was hub)
        (handle_disconnected_socket-Shrinks socket_id (update_socket socket_id shut hub))

  pub web_socket_error-Shrinks :
      (socket_id : ℕ) (hub : List Socket) → Shrinks hub (web_socket_error runtime socket_id hub)
  unfolding web_socket_error
  web_socket_error-Shrinks socket_id hub =
      Shrinks-trans (handle_disconnected_socket-Shrinks socket_id hub) (
        update_socket-Shrinks socket_id shut shut-Was
          (handle_disconnected_socket runtime socket_id hub))
