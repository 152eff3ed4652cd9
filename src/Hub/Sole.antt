-- ===== src/Hub/Sole.antt =====
-- At most one open socket is attached to a runner, whatever happens to the hub
-- (`acceptRunner` and `fetch` of `src/worker/runner-hub.ts`).
use mathlib.Core.List.{◌++◌}
use task_hub.Shared.{
  ◌≡◌, refl, inl, inr, ℕ, Bool, true, false, Option, none, some, List, [], ◌∷◌, String, arith, In,
  In-append, filter-In, ==-refl, ◌==◌, if◌then◌else◌, ◌&&◌, not, ◌||◌,
}
use task_hub.Shared.Text.{is_empty}
use task_hub.Types.Json.{get}
use task_hub.Hub.{
  runner_attachment, admin_attachment, Socket, SocketRuntime, runner_role, admin_role, runner_tag,
  is_attached_to, replace_each, presence_changed, get_runner_web_sockets, accepted, accept_runner,
  accept_admin,
}
use task_hub.Hub.Fetch.{
  HubRequest, HubResponse, HubEvent, requested, disconnected, failed_socket, fetch, upgrade,
  upgrade_runner, handle_task_available, handle_admin_event, perform_hub, perform_all,
  is_task_notification, is_admin_hub_event, text_of, is_websocket, has_text,
}
use task_hub.Hub.Past.{
  Was, Shrinks, replace_each-Shrinks, replace_each-none, broadcast_admin_event-Shrinks,
  notify_task_available-Shrinks, web_socket_close-Shrinks, web_socket_error-Shrinks,
}

-- What the runtime's documentation says of `getWebSockets`: it lists sockets that were accepted with
-- the tag, and of these all that are not closed.
pub record ListsByTag (runtime : SocketRuntime) : Type 0 where
  pub listed :
      (tag : List ℕ) (hub : List Socket) (s : Socket)
      → In s (runtime.get_web_sockets tag hub)
      → In s hub × In tag s.tags
  pub lists :
      (tag : List ℕ) (hub : List Socket) (s : Socket)
      → In s hub
      → In tag s.tags
      → s.closed ≡ false
      → In s (runtime.get_web_sockets tag hub)

-- An attached runner's socket carries the runner's tag, and no two open sockets are attached to the
-- same runner.
pub record IsSole (hub : List Socket) : Type 0 where
  pub tagged :
      (s : Socket) (runner_id : String)
      → In s hub
      → s.attachment ≡ some (runner_attachment runner_id)
      → In (runner_tag runner_id) s.tags
  pub sole :
      (a b : Socket) (runner_id : String)
      → In a hub
      → In b hub
      → a.attachment ≡ some (runner_attachment runner_id)
      → b.attachment ≡ some (runner_attachment runner_id)
      → a.closed ≡ false
      → b.closed ≡ false
      → a.socket_id ≡ b.socket_id

pub empty-IsSole : IsSole []
empty-IsSole = record { tagged = λ s runner_id k. elim k [ ]; sole = λ a b runner_id k. elim k [ ] }

-- A socket that is attached was attached to the same before.
past-attached :
    {before after : Socket} (runner_id : String)
    → Was before after
    → after.attachment ≡ some (runner_attachment runner_id)
    → before.attachment ≡ some (runner_attachment runner_id)
past-attached runner_id was e = elim was.same_attachment [
  | inl f ↦ ground (arith, e, f)
  | inr f ↦ cc (e, f)
]

attached-is :
    (s : Socket) (runner_id : String)
    → s.attachment ≡ some (runner_attachment runner_id)
    → is_attached_to runner_id s ≡ true
attached-is s runner_id e = rw e (==-refl runner_id)

Shrinks-IsSole : {before after : List Socket} → Shrinks before after → IsSole before → IsSole after
Shrinks-IsSole h is_sole = record {
  tagged = λ s runner_id k e.
      let (s', l, was) = h.past s k in
      rw was.same_tags (is_sole.tagged s' runner_id l (past-attached runner_id was e));
  sole = λ a b runner_id k l e f open_a open_b.
      let (a', k', was_a) = h.past a k in
      let (b', l', was_b) = h.past b l in
      cc (
        was_a.same_id,
        was_b.same_id,
        is_sole.sole a' b' runner_id k' l' (past-attached runner_id was_a e)
            (past-attached runner_id was_b f) (was_a.stays_closed open_a)
            (was_b.stays_closed open_b),
      );
}

module _ (runtime : SocketRuntime) (lawful : ListsByTag runtime) where
  -- Once the runner's sockets are replaced, none that is open is attached to it.
  replaced-open_not :
      (runner_id : String) (hub : List Socket) (s : Socket)
      → IsSole hub
      → In s (replace_each (get_runner_web_sockets runtime runner_id hub) hub)
      → s.attachment ≡ some (runner_attachment runner_id)
      → ¬ (s.closed ≡ false)
  unfolding get_runner_web_sockets
  replaced-open_not runner_id hub s is_sole k e is_open =
      let (s', l, was) =
        (replace_each-Shrinks (get_runner_web_sockets runtime runner_id hub) hub).past s k in
      let attached = past-attached runner_id was e in
      let listed =
        lawful.lists (runner_tag runner_id) hub s' l (is_sole.tagged s' runner_id l attached)
          (was.stays_closed is_open) in
      let target =
        filter-In (is_attached_to runner_id) s' (runtime.get_web_sockets (runner_tag runner_id) hub)
          listed (attached-is s' runner_id attached) in
      let gone =
        replace_each-none (get_runner_web_sockets runtime runner_id hub) hub s' s target k
          was.same_id in
      ground (arith, gone, e)

  -- A new socket of another role, or of a runner none of whose sockets is open, may be accepted.
  accepted-IsSole :
      (hub : List Socket) (new : Socket)
      → ((runner_id : String)
          → new.attachment ≡ some (runner_attachment runner_id)
          → In (runner_tag runner_id) new.tags
            × ((s : Socket)
                → In s hub
                → s.attachment ≡ some (runner_attachment runner_id)
                → ¬ (s.closed ≡ false)))
      → IsSole hub
      → IsSole (hub ++ new ∷ [])
  accepted-IsSole hub new alone is_sole = record {
    tagged = λ s runner_id k e. elim (In-append s hub (new ∷ []) k) [
      | inl l ↦ is_sole.tagged s runner_id l e
      | inr (inl same) ↦ rw same ((alone runner_id (rw same at e)).0)
      | inr (inr l) ↦ elim l [ ]
    ];
    sole = λ a b runner_id k l e f open_a open_b. elim (In-append a hub (new ∷ []) k) [
      | inl k' ↦ elim (In-append b hub (new ∷ []) l) [
        | inl l' ↦ is_sole.sole a b runner_id k' l' e f open_a open_b
        | inr (inl same) ↦ absurd ((alone runner_id (rw same at f)).1 a k' e open_a)
        | inr (inr l') ↦ elim l' [ ]
      ]
      | inr (inl same) ↦ elim (In-append b hub (new ∷ []) l) [
        | inl l' ↦ absurd ((alone runner_id (rw same at e)).1 b l' f open_b)
        | inr (inl also) ↦ cc (same, also)
        | inr (inr l') ↦ elim l' [ ]
      ]
      | inr (inr k') ↦ elim k' [ ]
    ];
  }

  accept_runner-IsSole :
      (socket_id : ℕ) (runner_id : String) (hub : List Socket)
      → IsSole hub
      → IsSole (accept_runner runtime socket_id runner_id hub)
  unfolding accept_runner
  accept_runner-IsSole socket_id runner_id hub is_sole =
      let mid = replace_each (get_runner_web_sockets runtime runner_id hub) hub in
      let new =
        accepted socket_id (runner_role ∷ runner_tag runner_id ∷ [])
          (runner_attachment runner_id) in
      Shrinks-IsSole
        (broadcast_admin_event-Shrinks runtime (presence_changed runner_id true) (mid ++ new ∷ []))
        (accepted-IsSole mid new
          (λ other e.
            let same : runner_id ≡ other = ground (arith, e) in
            rw (← same) (inr (inl refl), λ s k f. replaced-open_not runner_id hub s is_sole k f))
          (Shrinks-IsSole (replace_each-Shrinks (get_runner_web_sockets runtime runner_id hub) hub)
            is_sole))

  accept_admin-IsSole :
      (socket_id : ℕ) (hub : List Socket) → IsSole hub → IsSole (accept_admin socket_id hub)
  unfolding accept_admin
  accept_admin-IsSole socket_id hub is_sole =
      accepted-IsSole hub (accepted socket_id (admin_role ∷ []) admin_attachment)
        (λ other e. ground (arith, e)) is_sole

  -- Both branches of a handler keep the hub so.
  either :
      (b : Bool) (x y : HubResponse × List Socket)
      → IsSole x.1
      → IsSole y.1
      → IsSole (if b then x else y).1
  either true x y h k = h
  either false x y h k = k

  upgrade_runner-IsSole :
      (socket_id : ℕ) (given : Option String) (hub : List Socket)
      → IsSole hub
      → IsSole (upgrade_runner runtime socket_id given hub).1
  unfolding upgrade_runner
  upgrade_runner-IsSole socket_id none hub is_sole = is_sole
  upgrade_runner-IsSole socket_id (some runner_id) hub is_sole =
      either (is_empty runner_id) _ _ is_sole (accept_runner-IsSole socket_id runner_id hub is_sole)

  upgrade-IsSole :
      (socket_id : ℕ) (request : HubRequest) (hub : List Socket)
      → IsSole hub
      → IsSole (upgrade runtime socket_id request hub).1
  unfolding upgrade
  upgrade-IsSole socket_id request hub is_sole =
      either (has_text "admin" request.role) _ _ (accept_admin-IsSole socket_id hub is_sole) (
        either (has_text "runner" request.role) _ _
          (upgrade_runner-IsSole socket_id request.runner_id hub is_sole) is_sole)

  fetch-IsSole :
      (socket_id : ℕ) (request : HubRequest) (hub : List Socket)
      → IsSole hub
      → IsSole (fetch runtime socket_id request hub).1
  unfolding fetch handle_task_available handle_admin_event
  fetch-IsSole socket_id request hub is_sole =
      either (request.path == "/task-available" && request.method == "POST") _ _
        (either (is_task_notification request.body) _ _
          (Shrinks-IsSole
            (notify_task_available-Shrinks runtime (text_of (get "runnerId" request.body))
              (text_of (get "taskId" request.body)) hub)
            is_sole)
          is_sole)
        (either (request.path == "/admin-event" && request.method == "POST") _ _
          (either (is_admin_hub_event request.body) _ _
            (Shrinks-IsSole (broadcast_admin_event-Shrinks runtime request.body hub) is_sole)
            is_sole)
          (either (request.path == "/presence" && request.method == "GET") _ _ is_sole (
            either (not (request.method == "GET") || not (is_websocket request.upgrade)) _ _ is_sole
              (upgrade-IsSole socket_id request hub is_sole))))

  perform_hub-IsSole :
      (event : HubEvent) (hub : List Socket) → IsSole hub → IsSole (perform_hub runtime event hub)
  perform_hub-IsSole (requested socket_id request) hub is_sole =
      fetch-IsSole socket_id request hub is_sole
  perform_hub-IsSole (disconnected socket_id) hub is_sole =
      Shrinks-IsSole (web_socket_close-Shrinks runtime socket_id hub) is_sole
  perform_hub-IsSole (failed_socket socket_id) hub is_sole =
      Shrinks-IsSole (web_socket_error-Shrinks runtime socket_id hub) is_sole

  perform_all-IsSole_from :
      (events : List HubEvent) (hub : List Socket)
      → IsSole hub
      → IsSole (perform_all runtime events hub)
  perform_all-IsSole_from [] hub is_sole = is_sole
  perform_all-IsSole_from (event ∷ events) hub is_sole =
      perform_all-IsSole_from events (perform_hub runtime event hub)
        (perform_hub-IsSole event hub is_sole)

  -- Whatever requests, closings and failures of sockets the hub sees, in whatever order: a socket
  -- that is attached to a runner carries its tag, and no two open sockets are attached to the same
  -- runner. The runtime lists the open sockets of a tag and no socket without it.
  pub perform_all-IsSole : (events : List HubEvent) → IsSole (perform_all runtime events [])
  perform_all-IsSole events = perform_all-IsSole_from events [] empty-IsSole
