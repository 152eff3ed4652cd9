-- ===== src/AdminPage.antt =====
-- The administration console in the browser (`src/worker/admin-page.ts`): the script of the page that
-- the worker serves at `/admin`.
pub mod State
pub mod View
pub mod Render
pub mod Session
pub mod Loads
pub mod Settle
pub mod Realtime
pub mod Events
pub mod Wiring
pub mod Kept
pub mod Timely
pub mod Stale
pub mod Outdated
pub mod Rejection
pub mod Backoff
pub mod Lifeline
pub mod Sockets
pub mod Closing
pub mod Settling
pub mod Resumed
pub mod Answers
pub mod Reach
pub mod Reached
pub mod Requests
