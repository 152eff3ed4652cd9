-- ===== src/Worker/Route.antt =====
-- Which branch of `fetch` and `handleAdminRequest` a request takes (`src/worker/index.ts`): the tests
-- on its method and its path, in the order of the source.
use text.Mathlib.Text.{starts_with}
use task_hub.Shared.{
  Bool, true, false, Option, none, some, List, [], ◌∷◌, ◌&&◌, ◌||◌, String, ◌==◌, if◌then◌else◌,
}
use task_hub.Shared.Text.{is_empty}
use task_hub.Worker.Request.{HttpRequest, segments}

pub data AdminRoute : Type 0 where
  ticket presence runner_list task_list submission unknown : AdminRoute
  runner_detail task_logs task_detail : String → AdminRoute

pub data Route : Type 0 where
  page admin_events registration missing : Route
  admin : AdminRoute → Route
  runner_events claim beat log complete : String → Route

abbrev same_texts : List String → List String → Bool
same_texts [] [] = true
same_texts [] (t ∷ ts) = false
same_texts (s ∷ ss) [] = false
same_texts (s ∷ ss) (t ∷ ts) = s == t && same_texts ss ts

-- `^…/([^/]+)…$`: one segment that is not empty, between those before and those after.
unfoldable pub match_path : (before after path : List String) → Option String
match_path [] after [] = none
match_path [] after (part ∷ path) =
    if is_empty part then none else if same_texts path after then some part else none
match_path (text ∷ before) after [] = none
match_path (text ∷ before) after (part ∷ path) =
    if part == text then match_path before after path else none

-- The route of a path that matched, or else the next.
abbrev pub routed : {R : Type 0} → Option String → (String → R) → R → R
routed none to other = other
routed (some part) to other = to part

module _ (request : HttpRequest) where
  abbrev is_get : Bool
  is_get = request.method == "GET"

  abbrev is_post : Bool
  is_post = request.method == "POST"

  -- A match of the path, if the method is right as well.
  abbrev pub matched : Bool → List String → List String → Option String
  matched false before after = none
  matched true before after = match_path before after (segments request)

  -- `handleAdminRequest`, and the ticket's branch that `fetch` has before it.
  unfoldable pub admin_route : AdminRoute
  unfolding match_path segments
  admin_route =
      if request.path == "/api/admin/events-ticket" && is_post
      then ticket
      else if request.path == "/api/admin/presence" && is_get
      then presence
      else if request.path == "/api/admin/runners" && is_get
      then runner_list
      else routed (matched is_get ("" ∷ "api" ∷ "admin" ∷ "runners" ∷ []) []) runner_detail (
          if request.path == "/api/admin/tasks" && is_get
          then task_list
          else if request.path == "/api/admin/tasks" && is_post
          then submission
          else routed (matched is_get ("" ∷ "api" ∷ "admin" ∷ "tasks" ∷ []) ("logs" ∷ [])) task_logs
              (routed (matched is_get ("" ∷ "api" ∷ "admin" ∷ "tasks" ∷ []) []) task_detail
                unknown))

  -- The routes of runners, which come last.
  abbrev runner_route : Route
  runner_route =
      if is_post && request.path == "/runners/register"
      then registration
      else routed (matched is_post ("" ∷ "runners" ∷ []) ("claim" ∷ [])) claim (
          routed (matched is_post ("" ∷ "tasks" ∷ []) ("heartbeat" ∷ [])) beat (
            routed (matched is_post ("" ∷ "tasks" ∷ []) ("logs" ∷ [])) log
              (routed (matched is_post ("" ∷ "tasks" ∷ []) ("complete" ∷ [])) complete missing)))

  unfoldable pub route : Route
  unfolding match_path segments admin_route
  route =
      if is_get && (request.path == "/admin" || request.path == "/admin/")
      then page
      else if is_get && request.path == "/api/admin/events"
      then admin_events
      else routed (matched is_get ("" ∷ "runners" ∷ []) ("events" ∷ [])) runner_events
          (if starts_with request.path "/api/admin/" then admin admin_route else runner_route)
