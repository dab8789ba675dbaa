-- ===== src/Ingest.antt =====
-- The import of one input into the store, internal/ingest/ingest.go.
pub mod Import
pub mod Rows
pub mod Imported
pub mod Succeeds
pub mod Order
pub mod Tests
