-- ===== src/Dedupe.antt =====
-- internal/dedupe: whether two postings are the same job.
pub mod Tokens
pub mod SimHash
pub mod Decide
mod Examples
