-- ===== src/Pipeline.antt =====
-- The work queue and state machine of internal/pipeline: the states, the rows and the queries of
-- internal/store/pipeline.sql.go, the queue that calls them and the worker that drives it.
pub mod State
pub mod Row
pub mod Table
pub mod Queue
pub mod Ops
pub mod Worker
mod Examples
