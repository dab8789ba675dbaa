-- ===== src/Kql/Array.antt =====
-- The functions on dynamic arrays: internal/database/kql_array_operations.go, kql_array_move.go and
-- kql_array_search.go.
pub mod Elements
pub mod Functions
pub mod Bounds
pub mod Moves
pub mod Slices
pub mod Concat
pub mod Search
pub mod Rows
pub mod Segments
pub mod Copies
pub mod Cells
pub mod Tests
pub mod RowTests
