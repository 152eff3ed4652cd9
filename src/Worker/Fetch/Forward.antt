-- ===== src/Worker/Fetch/Forward.antt =====
-- The upgrade that the worker forwards to the hub (`forwardHubUpgrade` of `src/worker/index.ts`): what
-- the hub reads of it, and what it did where the worker answers with a switch of protocols.
use task_hub.Shared.{
  ◌≡◌, sym, ap, ◌∙◌, ℕ, inl, inr, Bool-cases, Option, none, some, List, String, arith,
  if◌then◌else◌,
}
use task_hub.Shared.Dict.{Dict, lookup, lookup-insert, lookup-remove}
use task_hub.Shared.Text.{is_empty}
use task_hub.Types.{Result, ok, err, validation, authentication, not_found, internal, untyped}
use task_hub.Types.Json.{undefined}
use task_hub.Platform.{Platform}
use task_hub.Action.{pure, ◌>>=◌}
use task_hub.Hub.{Socket, SocketRuntime, accept_runner, accept_admin}
use task_hub.Hub.Fetch.{
  HubRequest, HubResponse, switching_protocols, fetch as hub_fetch, upgrade, upgrade_runner,
  is_websocket,
}
use task_hub.Worker.Request.{forwarded_headers, connect_request}
use task_hub.Worker.Link.{World, HubLink, stub_fetch, forward_hub_upgrade}
use task_hub.Worker.Response.{Response, from_hub}
use task_hub.Worker.Fetch.{answered, forwarded_to_hub}

-- An empty runner id counts as none.
abbrev pub nonempty : Option String → Option String
nonempty none = none
nonempty (some text) = if is_empty text then none else some text

abbrev pub upgrade_request : Option String → String → Option String → HubRequest
upgrade_request upgrade role runner_id = record {
  method = "GET";
  path = "/connect";
  upgrade = upgrade;
  role = some role;
  runner_id = runner_id;
  body = undefined;
}

-- Whatever headers the client sends, the hub reads the role and the runner id that the worker gives,
-- a missing id for an empty one, and of the client's own headers only `upgrade`.
pub connect_request-forwarded :
    (headers : Dict String) (role : String) (runner_id : Option String)
    → connect_request (forwarded_headers headers role runner_id)
      ≡ upgrade_request (lookup "upgrade" headers) role (nonempty runner_id)
unfolding connect_request forwarded_headers
connect_request-forwarded headers role none = simp (lookup-insert, lookup-remove)
connect_request-forwarded headers role (some runner_id) = elim (Bool-cases (is_empty runner_id)) [
  | inl e ↦ rw e (simp (lookup-insert, lookup-remove))
  | inr e ↦ rw e (simp (lookup-insert, lookup-remove))
]

module _ (runtime : SocketRuntime) (socket_id : ℕ) (header : Option String)
    (protocol : Option String) (hub hub' : List Socket) where
  pub runner_accepted :
      (runner_id : String)
      → hub_fetch runtime socket_id
          (upgrade_request header "runner" (nonempty (some runner_id)))
          hub
        ≡ (switching_protocols protocol, hub')
      → hub' ≡ accept_runner runtime socket_id runner_id hub
  unfolding hub_fetch upgrade upgrade_runner
  runner_accepted runner_id e = elim (Bool-cases (is_websocket header)) [
    | inl f ↦ elim (Bool-cases (is_empty runner_id)) [
      | inl g ↦ absurd (ground (arith, rw (f, g) at e))
      | inr g ↦ ap (λ r. r.1) (sym (rw (f, g, upgrade_runner, g) at e))
    ]
    | inr f ↦ absurd (ground (arith, rw f at e))
  ]

  pub admin_accepted :
      hub_fetch runtime socket_id (upgrade_request header "admin" none) hub
        ≡ (switching_protocols protocol, hub')
      → hub' ≡ accept_admin socket_id hub
  unfolding hub_fetch upgrade
  admin_accepted e = elim (Bool-cases (is_websocket header)) [
    | inl f ↦ ap (λ r. r.1) (sym (rw f at e))
    | inr f ↦ absurd (ground (arith, rw f at e))
  ]

module _ {S : Type 0} (response : HubResponse) (w w' : World S) where
  abbrev or_given : Result HubResponse → HubResponse
  or_given (ok r) = r
  or_given (err error) = response

  abbrev hub_answer : Option (Response × World S) → HubResponse × World S
  hub_answer (some (from_hub r, w)) = (r, w)
  hub_answer _ = (response, w')

  answered-from_hub :
      (m : Result HubResponse × World S)
      → answered (◌>>=◌ (λ _. m) (λ r. pure (from_hub r)) w) ≡ some (from_hub response, w')
      → m ≡ (ok response, w')
  answered-from_hub (ok r, u) e =
      ap (λ (p : HubResponse × World S). (ok p.0, p.1)) (ap hub_answer e)
  answered-from_hub (err (validation message), u) e = absurd (ground (arith, e))
  answered-from_hub (err (authentication message), u) e = absurd (ground (arith, e))
  answered-from_hub (err (not_found message), u) e = absurd (ground (arith, e))
  answered-from_hub (err (internal message), u) e = absurd (ground (arith, e))
  answered-from_hub (err untyped, u) e = absurd (ground (arith, e))

module _ {S : Type 0} (platform : Platform) (link : HubLink) (socket_id : ℕ) where
  stub_fetch-answered :
      (request : HubRequest) (response : HubResponse) (w w' : World S)
      → stub_fetch platform link socket_id request w ≡ (ok response, w')
      → (hub_fetch link.sockets socket_id request w.hub ≡ (response, w'.hub)) × (w'.store ≡ w.store)
  unfolding stub_fetch
  stub_fetch-answered request response w w' e = elim (Bool-cases (link.answers request)) [
    | inl f ↦
        let h = rw (stub_fetch, f) at e in
        (ap (λ r. (or_given response w w' r.0, r.1.hub)) h, sym (ap (λ r. r.1.store) h))
    | inr f ↦ absurd (ground (arith, rw (stub_fetch, f) at e))
  ]

  -- What the worker answers with a switch of protocols, the hub did.
  pub answered-switched :
      (headers : Dict String) (role : String) (runner_id protocol : Option String) (w w' : World S)
      → answered (forwarded_to_hub platform link socket_id headers role runner_id w)
        ≡ some (from_hub (switching_protocols protocol), w')
      → (hub_fetch link.sockets socket_id
            (upgrade_request (lookup "upgrade" headers) role (nonempty runner_id))
            w.hub
          ≡ (switching_protocols protocol, w'.hub))
        × (w'.store ≡ w.store)
  unfolding forward_hub_upgrade
  answered-switched headers role runner_id protocol w w' e =
      let passed =
        answered-from_hub (switching_protocols protocol) w w'
          (forward_hub_upgrade platform link socket_id headers role runner_id w) e in
      stub_fetch-answered (upgrade_request (lookup "upgrade" headers) role (nonempty runner_id))
        (switching_protocols protocol) w w'
        (ap (λ request. stub_fetch platform link socket_id request w)
            (sym (connect_request-forwarded headers role runner_id))
          ∙ passed)
