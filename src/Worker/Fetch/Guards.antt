-- ===== src/Worker/Fetch/Guards.antt =====
-- Who may take the routes of administrators and the sockets (`fetch` of `src/worker/index.ts`).
use Prim.Native.String.{◌++◌}
use text.Mathlib.Text.{starts_with}
use text.Mathlib.TextLemmas.{append_assoc}
use text.Mathlib.TextEquality.{starts_with_iff}
use task_hub.Shared.Text.Split.{lacks, split_on-append}
use task_hub.Shared.{
  ◌≡◌, refl, eq_iff, ◌∷◌, [], ◌&&◌, ◌||◌, sym, ap, ◌∙◌, ◌⊎◌, inl, inr, Bool, Bool-cases,
  Option-cases, true, false, Option, none, some, String, ◌==◌, arith, if◌then◌else◌,
}
use task_hub.Shared.Text.{split_on}
use task_hub.Platform.{Platform}
use task_hub.Action.{Action}
use task_hub.Store.{TaskStore}
use task_hub.Security.{constant_time_string_equal}
use task_hub.Security.Ticket.{verify_admin_socket_ticket}
use task_hub.Worker.Request.{HttpRequest, Env, Moment, bearer_token, admin_socket_ticket, segments}
use task_hub.Worker.Link.{World, HubLink}
use task_hub.Worker.Response.{Response, failure, configured}
use task_hub.Worker.Route.{
  Route, page, runner_events, matched, routed, admin_events, admin, route, match_path, admin_route,
}
use task_hub.Types.{ok}
use task_hub.Worker.Fetch.{answered, guarded, fetch, serve_route, serve_admin_events, guard_admin}

split_on-admin :
    (rest : String) → split_on 47 ("/api/admin/" ++ rest) ≡ "" ∷ "api" ∷ "admin" ∷ split_on 47 rest
unfolding lacks
split_on-admin rest =
    rw
      (
        append_assoc "" "/api/admin/" rest,
        append_assoc "/" "api/admin/" rest,
        append_assoc "api" "/admin/" rest,
        append_assoc "/" "admin/" rest,
        append_assoc "admin" "/" rest,
      )
      (split_on-append "/" "" ("api" ++ ("/" ++ ("admin" ++ ("/" ++ rest)))) refl
        ∙ ap (◌∷◌ "") (
            split_on-append "/" "api" ("admin" ++ ("/" ++ rest)) refl
            ∙ ap (◌∷◌ "api") (split_on-append "/" "admin" rest refl)))

picks :
    (first second under : Bool) (events : Option String) (a other : Route)
    → first ≡ false
    → events ≡ none
    → under ≡ true
    → let taken =
        if first
        then page
        else if second
        then admin_events
        else routed events runner_events (if under then a else other) in
      (taken ≡ admin_events) ⊎ (taken ≡ a)
picks first true under events a other e f g = rw e (inl refl)
picks first false under events a other e f g = rw (e, f, g) (inr refl)

module _ (request : HttpRequest) (under : starts_with request.path "/api/admin/" ≡ true) where
  other_path :
      (text : String) → starts_with text "/api/admin/" ≡ false → request.path == text ≡ false
  other_path text e = elim (Bool-cases (request.path == text)) [
    | inl same ↦ absurd (
        ground (
          arith,
          sym under
              ∙ (ap (λ p. starts_with p "/api/admin/") ((eq_iff request.path text).0 same) ∙ e),
        ))
    | inr other ↦ other
  ]

  no_page :
      request.method == "GET" && (request.path == "/admin" || request.path == "/admin/") ≡ false
  no_page = rw (other_path "/admin" refl, other_path "/admin/" refl) (ground arith)

  no_events : matched request (request.method == "GET") ("" ∷ "runners" ∷ []) ("events" ∷ []) ≡ none
  unfolding segments match_path
  no_events = elim (Bool-cases (request.method == "GET")) [
    | inl get ↦
        let (rest, e) = (starts_with_iff request.path "/api/admin/").0 under in
        rw (get, ← e, split_on-admin rest) refl
    | inr other ↦ rw other refl
  ]

  -- A path under `/api/admin/` leads to the stream of events or to a route of administrators.
  route-admin : (route request ≡ admin_events) ⊎ (route request ≡ admin (admin_route request))
  unfolding route
  route-admin = picks _ _ _ _ _ _ no_page no_events under

guarded-refused :
    {S : Type 0} (secret : Option String) (passes : String → Bool)
    (inside : String → Action (World S) Response) (w : World S)
    → ((token : String) → configured secret ≡ some token → passes token ≡ false)
    → guarded secret passes inside w ≡ (ok (failure "unauthorized" 401), w)
guarded-refused secret passes inside w h = elim (Option-cases (configured secret)) [
  | inl e ↦ rw (guarded, e) refl
  | inr (token, e) ↦ rw (guarded, e, h token e) refl
]

-- Whoever is not refused has passed the test under the configured secret.
pub guarded-cases :
    {S : Type 0} (secret : Option String) (passes : String → Bool)
    (inside : String → Action (World S) Response) (w : World S)
    → (guarded secret passes inside w ≡ (ok (failure "unauthorized" 401), w))
      ⊎ ((token : String) × (configured secret ≡ some token)
          × (passes token ≡ true)
          × (guarded secret passes inside w ≡ inside token w))
guarded-cases secret passes inside w = elim (Option-cases (configured secret)) [
  | inl e ↦ inl (rw (guarded, e) refl)
  | inr (token, e) ↦ elim (Bool-cases (passes token)) [
    | inl f ↦ inr (token, e, f, rw (guarded, e, f) refl)
    | inr f ↦ inl (rw (guarded, e, f) refl)
  ]
]

module _ {S : Type 0} (store : TaskStore S) (platform : Platform) (link : HubLink) (env : Env)
    (moment : Moment) (request : HttpRequest) where
  -- Neither the token nor the ticket of the request is good.
  abbrev pub IsUnauthorized : Type 0
  IsUnauthorized =
      (token : String)
      → configured env.admin_token ≡ some token
      → (constant_time_string_equal (bearer_token request) token ≡ false)
        × (verify_admin_socket_ticket platform token moment.now (admin_socket_ticket request)
            ≡ false)

  -- A request under `/api/admin/` that carries neither the administrator's token nor a ticket that
  -- is accepted is answered with status 401, whatever its method, and it changes neither the task
  -- store nor the hub. Without a configured token that is every such request.
  pub fetch-unauthorized :
      starts_with request.path "/api/admin/" ≡ true
      → IsUnauthorized
      → (w : World S)
      → fetch store platform link env moment request w ≡ some (failure "unauthorized" 401, w)
  unfolding fetch serve_route serve_admin_events guard_admin
  fetch-unauthorized under refused w = elim (route-admin request under) [
    | inl e ↦
        rw e (ap answered (guarded-refused env.admin_token _ _ w (λ token h. (refused token h).1)))
    | inr e ↦
        rw e (ap answered (guarded-refused env.admin_token _ _ w (λ token h. (refused token h).0)))
  ]
