-- ===== src/Limiter.antt =====
-- internal/api/client_limit.go: how many queries of one client run and wait at once.
-- `Defs` has the limiter and its steps, one for each critical section and channel operation.
pub mod Defs
pub mod Sound
pub mod Enter
pub mod Moves
pub mod Leaves
pub mod Bounds
pub mod Log
mod Tests
