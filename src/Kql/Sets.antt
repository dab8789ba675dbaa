-- ===== src/Kql/Sets.antt =====
-- internal/database/kql_sets.go: sets of JSON values.
pub mod Key
pub mod Fuel
pub mod Finishes
pub mod Dynamic
pub mod Operations
pub mod Members
pub mod Entries
pub mod Sound
pub mod Raws
pub mod Shown
pub mod Results
pub mod Compare
pub mod Jaccard
pub mod Tests
