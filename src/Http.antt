-- ===== src/Http.antt =====
-- The class RidenHttpServer of src/riden_http_server/riden_http_server.cpp.
pub mod Output
pub mod Board
pub mod Rows
pub mod Details
pub mod Root
pub mod Control
pub mod Settings
pub mod Services
pub mod Routes
pub mod Driven
pub mod Clock
pub mod Disconnect
pub mod Saved
pub mod Replies
pub mod Tests
