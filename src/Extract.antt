-- ===== src/Extract.antt =====
-- internal/extract: the extraction of log ranges.
pub mod Deps
pub mod Example
pub mod Chunker
pub mod Records
pub mod Range
pub mod Follow
pub mod Backfill
pub mod Client
