-- ===== src/Scpi/Tests.antt =====
-- The theorems on the SCPI side, applied on benches.
pub mod Bench
mod Commands
mod Server
pub mod Start
