-- ===== src/Lib.antt =====
-- Task Hub: a task queue on Cloudflare Workers. Operators submit tasks for a named runner through
-- the administration routes; the queue's consumer makes a task pending if the runner can do it; the
-- runner claims the task under a lease of 90 seconds, renews the lease by heartbeats, uploads logs
-- and completes the task; the service records the outcome and a signed delivery for the callback.
-- The state machine is the class TaskHubService, over a store that the interface TaskStore hides.
--
-- Files, and the code that each models (paths from the repository's root):
-- - Types, Types/Json, Types/Names: src/worker/types.ts and errors.ts, the values of unknown type
--   that requests carry, and the spelling of the enumerations.
-- - Platform: what the worker takes from its runtime (digests, JSON, base64, dates, URLs,
--   collation), as a parameter of all that uses it.
-- - Security, Security/Compare: src/worker/security.ts, hashing and the comparison of credentials.
--   Security/Ticket, Security/Ticket/RoundTrip: the tickets of administrators' sockets.
-- - Pagination: src/worker/pagination.ts, the cursors.
-- - Action: an async method, as a function from a state to a result or an error and a new state.
-- - Store: the interface TaskStore. InMemory and InMemory/Listing: src/worker/in-memory-store.ts,
--   one function for each method. InMemory/Claimable: which task a claim is given.
--   InMemory/Pages, InMemory/Parts and Service/Listing: what a page of a listing holds.
-- - D1: the tables of cloudflare/migrations, and the rows of src/worker/d1-store.ts as records.
--   D1/Statements, D1/Listing, D1/Runners and D1/Views: its statements on tasks and deliveries, its
--   listing of tasks, its statements on runners and on their views. D1/Logs, D1/Logs/RoundTrip: the
--   objects of the logs. D1/Tasks and D1/Claims: what the statements on tasks have in common with
--   the in-memory store. D1/Pages and D1/ListedRows: the rows on a page of tasks.
-- - Service: src/worker/task-service.ts, one function for each method, over any TaskStore.
--   Service/Submit and Service/Register hold the tests of the two request bodies, Service/Records
--   the records that the methods put. Service/Runs, Service/Claiming and Service/Leases say what
--   each method does over the in-memory store on each branch; Service/Changes reduces the methods to
--   a few kinds of change, by Service/Steps and Service/LeaseSteps; Service/Outcome says field by field
--   what a heartbeat and a completion write; Service/Keeps, Service/Invariant
--   and Service/Lifecycle are about every sequence of calls; Service/Exclusive, Service/Hazards
--   and Service/Unclaimed are about leases.
-- - Hub, Hub/Fetch: src/worker/runner-hub.ts, the Durable Object with the open sockets, and its
--   `fetch`. Hub/Past, Hub/Sole, Hub/Delivery, Hub/Online and Hub/Events are about it.
-- - Worker: src/worker/index.ts. Worker/Request reads paths, headers and queries, Worker/Bodies the
--   bodies; Worker/Route says which branch of `fetch` a request takes, Worker/Admin and
--   Worker/Runner do what the branches do, Worker/Response answers, and Worker/Fetch puts these
--   together. Worker/Link is the worker's side of the hub, over a state with the task store and
--   the sockets; Worker/Link/Alike is about what does not depend on the hub. Worker/Queue is the
--   queue's consumer. Worker/Fetch/Guards, Worker/Fetch/Forward, Worker/Fetch/Sockets,
--   Worker/Fetch/Advisory, Worker/Fetch/Reports and Worker/Queue/Batches are about these.
-- - AdminPage: the script in src/worker/admin-page.ts. AdminPage/State is what it keeps and what the
--   browser holds for it; AdminPage/View and AdminPage/Render draw; AdminPage/Session is about the
--   token, the socket and the timer, AdminPage/Loads sends the requests, AdminPage/Settle and
--   AdminPage/Realtime go on with the answers, and AdminPage/Events has the handlers.
--   AdminPage/Timely and its children are about the sessions that requests belong to, with
--   AdminPage/Stale and AdminPage/Outdated on answers that come too late and AdminPage/Rejection on
--   the status 401. AdminPage/Wiring says what it is to be in touch with the worker; AdminPage/Kept,
--   Lifeline, Sockets, Closing, Settling, Resumed, Answers, Reach and Reached follow it through the
--   operations. AdminPage/Backoff is about the waits, and AdminPage/Requests about what the worker
--   takes and a form sent over a socket.
-- - Shared: numbers, lists, integers, texts, the maps and the stable sort of JavaScript.
-- - Tests: a platform to compute with, a scenario, and the theorems at concrete inputs.
--
-- What stands for what. A timestamp is the instant in milliseconds, for the text of toISOString;
-- the order of these texts is that of the instants. Each call of the clock and of randomUUID is an
-- argument, except that in a request all calls before the last of a completion read the same
-- instant. A number of a request is an integer or a text for any other number. A Map is an
-- association list in insertion order. Recursion is on lists and texts. Only the decimal text of a
-- number takes fuel: the number itself, which is at least the count of its digits. A method runs
-- to its end before the next begins: two requests that interleave at an await are not modelled.
-- Whether the Durable Object answers is a function of the request, so a hub that is down is one
-- that answers none. Where a route casts a body to a type and the body is not of it, the model has
-- no answer, except where the source's behaviour is the same for every such body: a missing lease
-- id, and in a completion any of the statuses of a task, are kept. A completion whose "error" or
-- "exitCode" is null, as the runner program sends the error of a success, is such a body: the source
-- stores the null, which its type does not have, and the model leaves the answer open.
--
-- A statement of the database is a function on tables whose rows stand under their primary keys,
-- and a violated constraint is an internal error. SQLite is free in the order of rows that tie, so
-- the order is a parameter; so are the pages in which the bucket lists its keys, and the loop over
-- them ends with the last. It lists all keys under a prefix, and the database sorts by any total order. The queue and the bucket are bound, as in the deployment. The service
-- is proved over the in-memory store.
--
-- An event of the admin page is one task of the browser with all that follows in it: an answer comes
-- as its status and then as its body, in any order among the requests, and between the two anything
-- else may happen. A promise is the list of what waits for it, with the variables of each function
-- that waits. What is asked, opened or set has a number from one counter. A failure has the message
-- that the browser gives; a body is one that some route answers, and one of another route than the
-- request's throws. The dates in the user's language, the indented JSON, the encoding of a part of a
-- URL and the names that a socket's protocol may have are a parameter; the query of a request is
-- kept as its pairs. The form can be submitted where it is shown.
--
-- Not modelled: of the admin page the markup, the style sheet, the headers that it is served with, the
-- focus and the time of the last refresh; the runner program, which is in Python; and the files of
-- the deployment.
pub mod Shared
pub mod Types
pub mod Platform
pub mod Security
pub mod Action
pub mod AdminPage
pub mod Pagination
pub mod Store
pub mod D1
pub mod InMemory
pub mod Service
pub mod Hub
pub mod Worker
pub mod Tests
