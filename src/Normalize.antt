-- ===== src/Normalize.antt =====
-- internal/normalize: structure from the raw titles and locations of postings.
pub mod Title
pub mod Location
mod Examples
