-- ===== src/Worker/Fetch/Sockets.antt =====
-- The sockets that the worker lets through to the hub (`fetch` of `src/worker/index.ts`), by whom.
use task_hub.Shared.{◌≡◌, refl, sym, ap, ◌∙◌, inl, inr, true, Option, none, some, String, arith}
use task_hub.Types.{Error, RunnerRecord, Result, Result-cases, ok, err, authentication}
use task_hub.Platform.{Platform}
use task_hub.Action.{Action, lift, bind-ok, ◌>>◌}
use task_hub.InMemory.{InMemory}
use task_hub.InMemory.Listing.{in_memory}
use task_hub.Service.{authenticate_runner_connection}
use task_hub.Service.Runs.{
  IsAccepted, IsRefused, authentication-cases, authenticate-known, authenticate-refused,
}
use task_hub.Hub.{accept_runner, accept_admin}
use task_hub.Hub.Fetch.{switching_protocols}
use task_hub.Worker.Request.{HttpRequest, Env, Moment, bearer_token, admin_socket_ticket, decoded}
use task_hub.Worker.Link.{World, HubLink, on_store, on_store_lem}
use task_hub.Worker.Response.{Response, from_hub, service_options, configured}
use task_hub.Worker.Fetch.Guards.{guarded-cases}
use task_hub.Store.{TaskStore}
use task_hub.Security.Ticket.{verify_admin_socket_ticket}
use task_hub.Worker.Route.{runner_events, admin_events, route}
use task_hub.Worker.Fetch.{
  serve_admin_events, answered, forwarded_to_hub, fetch, serve_route, serve_runner_events,
}
use task_hub.Worker.Fetch.Forward.{runner_accepted, admin_accepted, answered-switched}

module _ (platform : Platform) (link : HubLink) (env : Env) (moment : Moment)
    (request : HttpRequest) (text : String) (w : World InMemory) where
  abbrev served : Result Response × World InMemory
  served = serve_runner_events (in_memory platform) platform link env moment request text w

  abbrev connects : String → Action InMemory (Unit {0})
  connects runner_id =
      authenticate_runner_connection (in_memory platform) platform (service_options env) runner_id
        (bearer_token request)

  abbrev goes_on : String → Action (World InMemory) Response
  goes_on runner_id =
      forwarded_to_hub platform link moment.socket_id request.headers "runner" (some runner_id)

  served-undecoded : (e : Error) → decoded platform text ≡ err e → served ≡ (err e, w)
  unfolding serve_runner_events
  served-undecoded e f = ground (arith, f)

  served-refused :
      (runner_id : String)
      → decoded platform text ≡ ok runner_id
      → IsRefused platform w.store runner_id (bearer_token request)
      → served ≡ (err (authentication "invalid runner credential"), w)
  unfolding serve_runner_events authenticate_runner_connection
  served-refused runner_id f refused =
      let stop =
        authenticate-refused platform (service_options env) w.store runner_id (bearer_token request)
          refused in
      ground (arith, f, stop)

  served-accepted :
      (runner_id : String) {runner : RunnerRecord}
      → decoded platform text ≡ ok runner_id
      → IsAccepted platform w.store runner_id (bearer_token request) runner
      → served
        ≡ forwarded_to_hub platform link moment.socket_id request.headers "runner"
            (some runner_id)
            w
  unfolding serve_runner_events authenticate_runner_connection
  served-accepted runner_id f known =
      let go =
        authenticate-known platform (service_options env) w.store runner_id (bearer_token request)
          known in
      let connected : connects runner_id w.store ≡ (ok tt, w.store) = ground (arith, go) in
      bind-ok (lift (decoded platform text)) (λ id. on_store (connects id) >> goes_on id)
        (ap (λ r. (r, w)) f)
      ∙ bind-ok (on_store (connects runner_id)) (λ _. goes_on runner_id)
          (on_store_lem (connects runner_id) w connected)

module _ (platform : Platform) (link : HubLink) (env : Env) (moment : Moment)
    (request : HttpRequest) (protocol : Option String) (w w' : World InMemory) where
  -- A runner's request for a socket that is answered with a switch of protocols carries the
  -- credential of the registered runner whose decoded id stands in its path. The hub has accepted
  -- the socket for that runner, as it does when it replaces the runner's old sockets, whatever role
  -- and runner id the request's headers claim. The task store is as it was.
  pub fetch-runner_socket :
      (text : String)
      → route request ≡ runner_events text
      → fetch (in_memory platform) platform link env moment request w
        ≡ some (from_hub (switching_protocols protocol), w')
      → (runner_id : String) × (decoded platform text ≡ ok runner_id)
        × (runner : RunnerRecord) × IsAccepted platform w.store runner_id
            (bearer_token request)
            runner
        × (w'.hub ≡ accept_runner link.sockets moment.socket_id runner_id w.hub)
        × (w'.store ≡ w.store)
  unfolding fetch serve_route
  fetch-runner_socket text taken e =
      let reply : answered (served platform link env moment request text w)
          ≡ some (from_hub (switching_protocols protocol), w') =
        ap answered (rw taken refl) ∙ e in
      elim (Result-cases (decoded platform text)) [
        | inl (runner_id, f) ↦
            elim (authentication-cases platform w.store runner_id (bearer_token request)) [
              | inl refused ↦ absurd (
                  ground (
                    arith,
                    reply,
                    served-refused platform link env moment request text w runner_id f refused,
                  ))
              | inr (runner, found, fits) ↦
                  let (hub, store) =
                    answered-switched platform link moment.socket_id request.headers "runner"
                      (some runner_id) protocol w w'
                      (ap answered (
                          sym (
                            served-accepted platform link env moment request text w runner_id f
                              (found, fits)))
                        ∙ reply) in
                  (
                    runner_id,
                    f,
                    runner,
                    (found, fits),
                    runner_accepted link.sockets moment.socket_id _ protocol w.hub w'.hub runner_id
                        hub,
                    store,
                  )
            ]
        | inr (error, f) ↦ absurd (
            ground (arith, reply, served-undecoded platform link env moment request text w error f))
      ]

module _ {S : Type 0} (store : TaskStore S) (platform : Platform) (link : HubLink) (env : Env)
    (moment : Moment) (request : HttpRequest) (protocol : Option String) (w w' : World S) where
  -- An administrator's request for a socket that is answered with a switch of protocols carries a
  -- ticket which the configured token's holder signed and which has not expired. The hub has
  -- accepted a socket of an administrator, and the task store is as it was.
  pub fetch-admin_socket :
      route request ≡ admin_events
      → fetch store platform link env moment request w
        ≡ some (from_hub (switching_protocols protocol), w')
      → (token : String) × (configured env.admin_token ≡ some token)
        × (verify_admin_socket_ticket platform token moment.now (admin_socket_ticket request)
            ≡ true)
        × (w'.hub ≡ accept_admin moment.socket_id w.hub)
        × (w'.store ≡ w.store)
  unfolding fetch serve_route serve_admin_events
  fetch-admin_socket taken e =
      let reply : answered (serve_admin_events store platform link env moment request w)
          ≡ some (from_hub (switching_protocols protocol), w') =
        ap answered (rw taken refl) ∙ e in
      elim (guarded-cases env.admin_token
        (λ token.
          verify_admin_socket_ticket platform token moment.now (admin_socket_ticket request))
        (λ token. forwarded_to_hub platform link moment.socket_id request.headers "admin" none) w) [
          | inl refused ↦ absurd (ground (arith, reply, refused))
          | inr (token, f, fits, inside) ↦
              let (hub, kept) =
                answered-switched platform link moment.socket_id request.headers "admin" none
                  protocol w w' (ap answered (sym inside) ∙ reply) in
              (
                token,
                f,
                fits,
                admin_accepted link.sockets moment.socket_id _ protocol w.hub w'.hub hub,
                kept,
              )
        ]
