-- ===== src/Ingest.antt =====
-- internal/ingest: the postings of a source become canonical rows, and what a poll does not see.
pub mod Rows
pub mod Store
pub mod Upsert
pub mod Run
pub mod Ghost
pub mod Health
pub mod Runner
pub mod Requeue
mod Examples
mod RunnerExamples
