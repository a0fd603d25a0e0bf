-- ===== src/Main.antt =====
-- cmd/fmon/main.go: the command line. Parsing the flags of one argument list is the library's.
pub mod Usage
pub mod Args
pub mod Setup
pub mod Run
pub mod Loop
pub mod Ends
pub mod Total
pub mod Codes
pub mod Untouched
mod Tests
