-- ===== src/Listing.antt =====
-- internal/monitor/list.go: the list command.
pub mod Rows
pub mod Table
pub mod Scale
pub mod Reads
pub mod Paths
mod Tests
