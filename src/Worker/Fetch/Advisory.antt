-- ===== src/Worker/Fetch/Advisory.antt =====
-- What the routes take from the hub (`broadcastBestEffort` and `fetch` of `src/worker/index.ts`).
use task_hub.Shared.{
  ◌≡◌, refl, sym, ◌∙◌, not, ◌==◌, Bool, true, false, Option, none, some, ap, String, arith,
}
use task_hub.Types.{
  ClaimResponse, Result, ok, err, validation, authentication, not_found, internal, untyped,
}
use task_hub.Platform.{Platform}
use task_hub.Action.{Action}
use task_hub.Store.{TaskStore}
use task_hub.Service.{
  list_runners, list_tasks, submit_task, get_runner_view, get_task_logs, get_task_for_admin,
  claim_task, heartbeat, complete_task, append_logs, register_runner,
}
use task_hub.Service.Records.{ServiceOptions}
use task_hub.Types.{TaskRecord}
use task_hub.Worker.Request.{
  HttpRequest, Env, Moment, bearer_token, decoded, parse_status, parse_type, parse_limit,
  parse_runner_status,
}
use task_hub.Worker.Link.{World, HubLink}
use task_hub.Worker.Link.Alike.{
  told, at, Alike, after_lift, after_store, Alike-pure, Alike-if, Alike-best_effort, Alike-bind,
  broadcast-Alike, broadcast_stub-IsQuiet,
}
use task_hub.Worker.Response.{
  Response, error_response, json, of_runners, of_tasks, of_task, service_options, configured,
}
use task_hub.Worker.Admin.{serve_admin, runner_query, task_query}
use task_hub.Worker.Bodies.{parse_body, holder_given, property, entries_given, completion_given}
use task_hub.Worker.Runner.{
  register_with, register_under, tell_claimed, tell_and_answer, serve_registration, serve_claim,
  serve_beat, serve_logs, serve_completion,
}
use task_hub.Worker.Route.{
  AdminRoute, ticket, presence, runner_list, task_list, submission, unknown, runner_detail,
  task_logs, task_detail, Route, page, admin_events, registration, missing, admin, runner_events,
  claim, beat, log, complete, route,
}
use task_hub.Worker.Fetch.{answered, fetch, serve_route, guard_admin, guarded, guarded_by}

-- The routes whose answer is the hub's.
abbrev pub asks_hub : Route → Bool
asks_hub admin_events = true
asks_hub (runner_events text) = true
asks_hub (admin presence) = true
asks_hub _ = false

module _ {S : Type 0} where
  abbrev pub without_sockets : Option (Response × World S) → Option (Response × S)
  without_sockets none = none
  without_sockets (some answer) = some (told answer)

  abbrev pub kept : S → Option Response → Option (Response × S)
  kept s none = none
  kept s (some response) = some (response, s)

  abbrev pub answered_with : Result Response × S → Option (Response × S)
  answered_with (ok response, s) = some (response, s)
  answered_with (err error, s) = kept s (error_response error)

  pub answered-told :
      (p : Result Response × World S) → without_sockets (answered p) ≡ answered_with (told p)
  answered-told (ok response, w) = refl
  answered-told (err (validation message), w) = refl
  answered-told (err (authentication message), w) = refl
  answered-told (err (not_found message), w) = refl
  answered-told (err (internal message), w) = refl
  answered-told (err untyped, w) = refl

module _ {S : Type 0} (store : TaskStore S) (platform : Platform) (link link' : HubLink) (env : Env)
    (moment : Moment) (request : HttpRequest) where
  abbrev options : ServiceOptions
  options = service_options env

  admin-Alike :
      (secret : String) (r : AdminRoute)
      → asks_hub (admin r) ≡ false
      → Alike
          (serve_admin store platform link env moment request secret r)
          (serve_admin store platform link' env moment request secret r)
  unfolding serve_admin
  admin-Alike secret ticket h = Alike-pure _
  admin-Alike secret presence h = absurd (ground arith)
  admin-Alike secret runner_list h = after_lift (parse_runner_status request) (λ status.
      after_lift (parse_limit request) (λ limit.
        after_store
          (list_runners store platform options moment.now (runner_query request status limit))
          (λ found. Alike-pure (json (of_runners found) 200))))
  admin-Alike secret task_list h = after_lift (parse_status request) (λ status.
      after_lift (parse_type request) (λ type. after_lift (parse_limit request) (λ limit.
        after_store (list_tasks store platform options (task_query request status type limit))
          (λ found. Alike-pure (json (of_tasks found) 200)))))
  admin-Alike secret submission h = after_lift (parse_body request) (λ body.
      after_store (submit_task store platform options moment.now moment.uuid body)
        (λ task. Alike-pure _))
  admin-Alike secret unknown h = Alike-pure _
  admin-Alike secret (runner_detail text) h = after_lift (decoded platform text) (λ runner_id.
      after_store (get_runner_view store platform options moment.now runner_id)
        (λ found. Alike-pure _))
  admin-Alike secret (task_logs text) h = after_lift (decoded platform text) (λ task_id.
      after_store (get_task_logs store platform options task_id) (λ found. Alike-pure _))
  admin-Alike secret (task_detail text) h = after_lift (decoded platform text) (λ task_id.
      after_store (get_task_for_admin store platform options task_id) (λ found. Alike-pure _))

  register_with-Alike :
      Alike
        (register_with store platform link env moment request)
        (register_with store platform link' env moment request)
  register_with-Alike = after_lift (parse_body request) (λ body.
      after_store (register_runner store platform options moment.now moment.uuid body)
        (λ runner. Alike-pure _))

  registration-Alike :
      Alike
        (serve_registration store platform link env moment request)
        (serve_registration store platform link' env moment request)
  unfolding serve_registration
  registration-Alike = under (configured env.registration_token)
    where
      under :
          (secret : Option String)
          → Alike
              (register_under store platform link env moment request secret)
              (register_under store platform link' env moment request secret)
      under none = Alike-pure _
      under (some token) =
          Alike-if (not (bearer_token request == token)) (Alike-pure _) register_with-Alike

  claim-Alike :
      (runner_id : String)
      → Alike
          (serve_claim store platform link env moment request runner_id)
          (serve_claim store platform link' env moment request runner_id)
  unfolding serve_claim
  claim-Alike runner_id =
      after_store
        (claim_task store platform options moment.now moment.uuid runner_id (bearer_token request))
        (λ claimed. Alike-bind (told_claimed claimed) (λ u. Alike-pure _))
    where
      told_claimed :
          (claimed : Option ClaimResponse)
          → Alike
              (tell_claimed store platform link env moment request runner_id claimed)
              (tell_claimed store platform link' env moment request runner_id claimed)
      told_claimed none = Alike-pure tt
      told_claimed (some claimed) =
          Alike-best_effort (broadcast_stub-IsQuiet platform link moment.socket_id _)
            (broadcast_stub-IsQuiet platform link' moment.socket_id _)

  answer-Alike :
      (task : TaskRecord)
      → Alike
          (tell_and_answer store platform link env moment request task)
          (tell_and_answer store platform link' env moment request task)
  answer-Alike task =
      Alike-bind (broadcast-Alike platform link link' moment.socket_id task)
        (λ u. Alike-pure (json (of_task task) 200))

  beat-Alike :
      (task_id : String)
      → Alike
          (serve_beat store platform link env moment request task_id)
          (serve_beat store platform link' env moment request task_id)
  unfolding serve_beat
  beat-Alike task_id = after_lift (parse_body request) (λ body.
      after_lift (holder_given body) (λ holder.
        after_store
          (heartbeat store platform options moment.now task_id holder.lease_id holder.runner_id
            (bearer_token request))
          answer-Alike))

  completion-Alike :
      (task_id : String)
      → Alike
          (serve_completion store platform link env moment request task_id)
          (serve_completion store platform link' env moment request task_id)
  unfolding serve_completion
  completion-Alike task_id = after_lift (parse_body request) (λ body.
      after_lift (holder_given body) (λ holder. after_lift (completion_given body) (λ input.
        after_store
          (complete_task store platform options moment.now moment.later moment.uuid task_id
            holder.lease_id holder.runner_id (bearer_token request) input)
          answer-Alike)))

  logs-Alike :
      (task_id : String)
      → Alike
          (serve_logs store platform link env moment request task_id)
          (serve_logs store platform link' env moment request task_id)
  unfolding serve_logs
  logs-Alike task_id = after_lift (parse_body request) (λ body.
      after_lift (holder_given body) (λ holder. after_lift (property "entries" body) (λ value.
        after_lift (entries_given value) (λ entries.
          after_store
            (append_logs store platform options task_id holder.lease_id holder.runner_id
              (bearer_token request) entries)
            (λ u. Alike-pure _)))))

  guarded-Alike :
      (passes : String → Bool) (m m' : String → Action (World S) Response)
      → ((token : String) → Alike (m token) (m' token))
      → Alike (guarded env.admin_token passes m) (guarded env.admin_token passes m')
  guarded-Alike passes m m' h = under (configured env.admin_token)
    where
      under :
          (secret : Option String)
          → Alike (guarded_by secret passes m) (guarded_by secret passes m')
      under none = Alike-pure _
      under (some token) = Alike-if (not (passes token)) (Alike-pure _) (h token)

  route-Alike :
      (r : Route)
      → asks_hub r ≡ false
      → Alike
          (serve_route store platform link env moment request r)
          (serve_route store platform link' env moment request r)
  unfolding serve_route guard_admin
  route-Alike page h = Alike-pure _
  route-Alike admin_events h = absurd (ground arith)
  route-Alike (runner_events text) h = absurd (ground arith)
  route-Alike (admin r) h = guarded-Alike _ _ _ (λ token. admin-Alike token r h)
  route-Alike registration h = registration-Alike
  route-Alike (claim text) h = claim-Alike text
  route-Alike (beat text) h = beat-Alike text
  route-Alike (log text) h = logs-Alike text
  route-Alike (complete text) h = completion-Alike text
  route-Alike missing h = Alike-pure _

  -- Apart from the sockets and the question who is online, the answer to a request and the task
  -- store that it leaves do not depend on the hub: they are the same whether or not the hub answers,
  -- and whichever sockets it holds.
  pub fetch-advisory :
      (w w' : World S)
      → asks_hub (route request) ≡ false
      → w.store ≡ w'.store
      → without_sockets (fetch store platform link env moment request w)
        ≡ without_sockets (fetch store platform link' env moment request w')
  unfolding fetch
  fetch-advisory w w' h e =
      let served = serve_route store platform link env moment request (route request) in
      let served' = serve_route store platform link' env moment request (route request) in
      answered-told (served w)
      ∙ (ap answered_with (
            (route-Alike (route request) h).alike w.store w.hub w'.hub
            ∙ ap (λ s. told (served' (at s w'.hub))) e)
          ∙ sym (answered-told (served' w')))
