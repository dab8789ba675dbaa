-- ===== src/Store.antt =====
-- The store of internal/database/database.go: the tables of events with what is derived from them,
-- and the flags in memory that say which of it may be used.
pub mod Defs
pub mod Rules
pub mod Deferred
pub mod Succeeding
pub mod FullText
pub mod Indexes
pub mod Datasets
pub mod Tests
