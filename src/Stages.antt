-- ===== src/Stages.antt =====
-- internal/stages: the stages around the pipeline.
pub mod Sweep
pub mod Normalizer
pub mod Deduper
mod Examples
mod HandlerExamples
