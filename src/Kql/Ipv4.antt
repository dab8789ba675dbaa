-- ===== src/Kql/Ipv4.antt =====
-- internal/database/kql_ipv4.go, and `parseIPv4Address`, `parseIPv4Range`, `kqlIPv4IsPrivate` of
-- internal/database/sqlite_functions.go. An address is its 32 bits as a number.
pub mod Netip
pub mod Functions
pub mod Blocks
pub mod Cidr
pub mod Round
pub mod Order
pub mod Tests
