-- ===== src/Scpi.antt =====
-- The SCPI side of the dongle: src/riden_scpi and src/scpi_bridge.
pub mod Parser
pub mod Commands
pub mod Server
pub mod Bridge
pub mod Table
pub mod Start
pub mod Tests
