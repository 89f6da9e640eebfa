-- ===== src/Feed.antt =====
-- internal/opportunity: the feed of postings.
pub mod Mapping
pub mod List
pub mod Ordering
pub mod Windows
pub mod Paging
pub mod Scope
mod Examples
