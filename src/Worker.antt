-- ===== src/Worker.antt =====
-- The worker's entry points (`src/worker/index.ts`): the requests, and the batches of the queue.
pub mod Request
pub mod Link
pub mod Bodies
pub mod Route
pub mod Response
pub mod Admin
pub mod Runner
pub mod Fetch
pub mod Queue
