-- ===== src/Hub/Delivery.antt =====
-- Who is sent what (`notifyTaskAvailable`, `projectAdminEvent` and `webSocketClose` of
-- `src/worker/runner-hub.ts`).
use mathlib.Core.List.{◌++◌}
use task_hub.Shared.{
  ◌≡◌, refl, sym, ap, ◌⊎◌, inl, inr, ℕ, Bool-cases, true, none, List, [], ◌∷◌, String, In,
  In-append, In-filter, ◌≢◌, if◌then◌else◌, nat_eq, nat_eq_iff,
}
use task_hub.Types.Json.{Value}
use task_hub.Hub.{
  runner_attachment, Socket, SocketRuntime, is_attached_to, update_socket, detached, shut, received,
  task_available, send_event, get_runner_web_sockets, notify_task_available, accept_runner,
  read_attachment, announce_offline, handle_disconnected_socket, web_socket_close, replace_each,
  accepted, runner_role, runner_tag, presence_changed,
}
use task_hub.Hub.Past.{
  sent-Was, update_socket-cases, replace_each-none, past-none, broadcast_admin_event-Shrinks,
}
use task_hub.Hub.Sole.{ListsByTag}

In-last : (message : Value) (sent : List Value) → In message (sent ++ message ∷ [])
In-last message [] = inl refl
In-last message (x ∷ xs) = inr (In-last message xs)

module _ (runtime : SocketRuntime) where
  -- A socket after the sending: it is an untouched one, or one of those that were to be sent to,
  -- and then it got the message unless `send` threw.
  send_event-cases :
      (ss : List Socket) (message : Value) (hub : List Socket) (s : Socket)
      → In s (send_event runtime ss message hub).1
      → (In s hub × ((target : Socket) → In target ss → target.socket_id ≢ s.socket_id))
        ⊎ ((target : Socket) × In target ss
            × (target.socket_id ≡ s.socket_id)
            × (runtime.send_works s.socket_id ≡ true → In message s.sent))
  unfolding send_event
  send_event-cases [] message hub s k = inl (k, λ target l. elim l [ ])
  send_event-cases (x ∷ xs) message hub s k =
      let works = runtime.send_works x.socket_id in
      let change = if works then received message else shut in
      elim (send_event-cases xs message (update_socket x.socket_id change hub) s k) [
        | inr (target, l, e, got) ↦ inr (target, inr l, e, got)
        | inl (l, others) ↦
            let (was, m, how) = update_socket-cases x.socket_id change hub s l in
            elim how [
              | inr (other, same) ↦
                  inl (rw same m, rw same (no_target was other (rw same at others)))
              | inl (here, same) ↦ inr (updated was here same)
            ]
      ]
    where
      no_target :
          (was : Socket)
          → was.socket_id ≢ x.socket_id
          → ((target : Socket) → In target xs → target.socket_id ≢ was.socket_id)
          → (target : Socket) → In target (x ∷ xs)
          → target.socket_id ≢ was.socket_id
      no_target was other others target (inl same) e =
          other (cc (e, ap (λ (y : Socket). y.socket_id) same))
      no_target was other others target (inr l) e = others target l e

      updated :
          (was : Socket)
          → was.socket_id ≡ x.socket_id
          → s ≡ (if runtime.send_works x.socket_id then received message else shut) was
          → (target : Socket) × In target (x ∷ xs)
            × (target.socket_id ≡ s.socket_id)
            × (runtime.send_works s.socket_id ≡ true → In message s.sent)
      updated was here same =
          let id : s.socket_id ≡ x.socket_id = cc (
            ap (λ (y : Socket). y.socket_id) same,
            (sent-Was (runtime.send_works x.socket_id) message was).same_id,
            here,
          ) in
          (x, inl refl, sym id, λ works. rw (same, rw id at works) (In-last message was.sent))

  -- After a notification each socket is as it was or it was addressed. It is as it was only if it
  -- has the id of no socket that the runtime lists for this runner. If it was addressed, its id is
  -- that of a socket of the hub which is attached to this runner, and the notification is among the
  -- messages that it was sent, unless `send` throws on it.
  pub notify_task_available-addressed :
      (runner_id task_id : String) (hub : List Socket) (s : Socket)
      → ListsByTag runtime
      → In s (notify_task_available runtime runner_id task_id hub).1
      → (In s hub
          × ((target : Socket)
              → In target (get_runner_web_sockets runtime runner_id hub)
              → target.socket_id ≢ s.socket_id))
        ⊎ ((target : Socket) × In target hub
            × (is_attached_to runner_id target ≡ true)
            × (target.socket_id ≡ s.socket_id)
            × (runtime.send_works s.socket_id ≡ true → In (task_available task_id) s.sent))
  unfolding notify_task_available get_runner_web_sockets
  notify_task_available-addressed runner_id task_id hub s lawful k =
      elim (send_event-cases (get_runner_web_sockets runtime runner_id hub) (task_available task_id)
        hub s k) [
          | inl l ↦ inl l
          | inr (target, l, e, got) ↦
              let (m, attached) =
                In-filter (is_attached_to runner_id) target
                  (runtime.get_web_sockets (runner_tag runner_id) hub) l in
              inr (target, (lawful.listed (runner_tag runner_id) hub target m).0, attached, e, got)
        ]

  -- A socket none of whose entries is attached reads as having no attachment.
  read_attachment-none :
      (socket_id : ℕ) (hub : List Socket)
      → ((s : Socket) → In s hub → s.socket_id ≡ socket_id → s.attachment ≡ none)
      → read_attachment socket_id hub ≡ none
  unfolding read_attachment
  read_attachment-none socket_id [] h = refl
  read_attachment-none socket_id (x ∷ xs) h = elim (Bool-cases (nat_eq x.socket_id socket_id)) [
    | inl e ↦ rw e (h x (inl refl) ((nat_eq_iff x.socket_id socket_id).0 e))
    | inr e ↦ rw e (read_attachment-none socket_id xs (λ s k. h s (inr k)))
  ]

  -- A socket that `acceptRunner` replaced has no attachment after it.
  accept_runner-replaced :
      (socket_id : ℕ) (runner_id : String) (hub : List Socket) (old s : Socket)
      → In old (get_runner_web_sockets runtime runner_id hub)
      → old.socket_id ≢ socket_id
      → In s (accept_runner runtime socket_id runner_id hub)
      → s.socket_id ≡ old.socket_id
      → s.attachment ≡ none
  unfolding accept_runner
  accept_runner-replaced socket_id runner_id hub old s k other l e =
      let mid = replace_each (get_runner_web_sockets runtime runner_id hub) hub in
      let new =
        accepted socket_id (runner_role ∷ runner_tag runner_id ∷ [])
          (runner_attachment runner_id) in
      let (s', m, was) =
        (broadcast_admin_event-Shrinks runtime (presence_changed runner_id true)
            (mid ++ new ∷ [])).past
          s l in
      elim (In-append s' mid (new ∷ []) m) [
        | inl n ↦ past-none was (
            replace_each-none (get_runner_web_sockets runtime runner_id hub) hub old s' k n
              (cc (was.same_id, e)))
        | inr (inl same) ↦
            absurd (other (cc (was.same_id, e, ap (λ (y : Socket). y.socket_id) same)))
        | inr (inr n) ↦ elim n [ ]
      ]

  -- When a runner connects again, its old sockets are replaced. The close event of an old one that
  -- then arrives takes its attachment away and does nothing else: no administrator is told that
  -- the runner is offline.
  pub replaced_close-silent :
      (socket_id : ℕ) (runner_id : String) (hub : List Socket) (old : Socket)
      → In old (get_runner_web_sockets runtime runner_id hub)
      → old.socket_id ≢ socket_id
      → web_socket_close runtime old.socket_id (accept_runner runtime socket_id runner_id hub)
        ≡ update_socket old.socket_id detached (accept_runner runtime socket_id runner_id hub)
  unfolding web_socket_close handle_disconnected_socket announce_offline
  replaced_close-silent socket_id runner_id hub old k other =
      let gone =
        read_attachment-none old.socket_id (accept_runner runtime socket_id runner_id hub)
          (λ s l e. accept_runner-replaced socket_id runner_id hub old s k other l e) in
      rw gone refl
