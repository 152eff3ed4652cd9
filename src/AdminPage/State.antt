-- ===== src/AdminPage/State.antt =====
-- What the script of the administration page keeps (`state` of `src/worker/admin-page.ts`), and what
-- its runtime holds for it: the requests that are not answered, the promises that wait for them, the
-- sockets and the timers.
use task_hub.Shared.{ℕ, Bool, Option, none, List, [], String}
use task_hub.Types.{RunnerView, TaskRecord, TaskLogResult}
use task_hub.Types.Json.{Value}
use task_hub.AdminPage.View.{Document}

-- A socket, a timer or a promise is known by a number; the timer 0 and the promise and the socket
-- `none` stand for no such thing, and so does the epoch `none` for -1.
pub record State : Type 0 where
  pub token : String
  pub runners : List RunnerView
  pub tasks : List TaskRecord
  pub online_runner_ids : List String
  pub presence_loaded : Bool
  pub selected_runner_id : String
  pub selected_task_id : String
  pub task_cursor : String
  pub next_cursor : String
  pub socket : Option ℕ
  pub reconnect_timer : ℕ
  pub reconnect_attempt : ℕ
  pub runner_request_generation : ℕ
  pub task_request_generation : ℕ
  pub detail_request_generation : ℕ
  pub session_epoch : ℕ
  pub refresh_epoch : Option ℕ
  pub refresh_promise : Option ℕ

-- Who awaits the promise of a loader: the refresh of a number, `runSelfcheck`, or nobody that acts on
-- how it ends.
pub data Awaiting : Type 0 where
  refresh : ℕ → Awaiting
  selfcheck_listing unheeded : Awaiting

-- What follows an answer: the rest of the function that called `api`, with the local variables that
-- are live there. `task_detail` and `task_logs` name the selection that waits for both, and have the
-- variables of `selectTask`.
pub data Continuation : Type 0 where
  presence : Awaiting → (epoch : ℕ) → Continuation
  runners_page : Awaiting → (generation epoch : ℕ) → List RunnerView → Continuation
  tasks_page : Awaiting → (generation epoch : ℕ) → Continuation
  task_detail task_logs : (selection generation epoch : ℕ) → (task_id : String) → Continuation
  selfcheck : Continuation
  events_ticket : (epoch : ℕ) → Continuation

pub record Request : Type 0 where
  pub method : String
  pub path : String
  pub query : List (String × String)
  pub body : Value

-- A call of `api`: `response_ok` is `none` until the status of the answer is known.
pub record Call : Type 0 where
  pub call_id : ℕ
  pub request_epoch : ℕ
  pub request_token : String
  pub request : Request
  pub response_ok : Option Bool
  pub continuation : Continuation

-- Who awaits a refresh: `connect`, with its variables, or nobody that acts on how it ends.
pub data Caller : Type 0 where
  connecting : (epoch : ℕ) (token : String) → Caller
  unheeding : Caller

-- A refresh that has not ended: `left` of its three loaders have not.
pub record Refresh : Type 0 where
  pub refresh_id : ℕ
  pub epoch : ℕ
  pub left : ℕ
  pub callers : List Caller

-- The `Promise.all` of `selectTask`, with what it has of the task and its logs.
pub record Selection : Type 0 where
  pub selection_id : ℕ
  pub task : Option TaskRecord
  pub logs : Option TaskLogResult

-- A socket of the page with the session that its handlers keep: `is_closing` once `close` was
-- called, `is_heard` while `onclose` is set.
pub record PageSocket : Type 0 where
  pub socket_id : ℕ
  pub epoch : ℕ
  pub is_closing : Bool
  pub is_heard : Bool

pub record Timer : Type 0 where
  pub timer_id : ℕ
  pub delay : ℕ

-- The page in its tab of the browser: `stored_token` is the token in the session's storage, and `fresh` a number that no call,
-- promise, socket or timer has.
pub record Tab : Type 0 where
  pub state : State
  pub document : Document
  pub stored_token : Option String
  pub calls : List Call
  pub refreshes : List Refresh
  pub selections : List Selection
  pub sockets : List PageSocket
  pub timers : List Timer
  pub fresh : ℕ

abbrev pub with_state : State → Tab → Tab
with_state s tab = record tab { state = s }

abbrev pub with_document : Document → Tab → Tab
with_document d tab = record tab { document = d }

abbrev pub initial_state : (token : String) → State
initial_state token = record {
  token = token;
  runners = [];
  tasks = [];
  online_runner_ids = [];
  presence_loaded = Bool.false;
  selected_runner_id = "";
  selected_task_id = "";
  task_cursor = "";
  next_cursor = "";
  socket = none;
  reconnect_timer = 0;
  reconnect_attempt = 0;
  runner_request_generation = 0;
  task_request_generation = 0;
  detail_request_generation = 0;
  session_epoch = 0;
  refresh_epoch = none;
  refresh_promise = none;
}
