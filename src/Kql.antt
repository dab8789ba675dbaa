-- ===== src/Kql.antt =====
-- The SQL functions that internal/database registers for compiled KQL queries.
pub mod Value
pub mod Ipv4
pub mod Array
pub mod Range
pub mod Join
pub mod Scalar
pub mod Sets
pub mod Punycode
