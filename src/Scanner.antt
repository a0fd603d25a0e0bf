-- ===== src/Scanner.antt =====
-- internal/monitor/scanner.go: the scan engine. The parts follow the source: one file, one folder,
-- one source, the plan, the whole scan. The other children prove.
pub mod File
pub mod Folder
pub mod Source
pub mod Plan
pub mod Scan
pub mod Stable
pub mod Atomicity
pub mod Trail
pub mod Tables
pub mod Success
pub mod Vanished
pub mod Accepted
pub mod Sharing
pub mod Check
pub mod Machine
mod Tests
