-- ===== src/Vxi.antt =====
-- The VXI-11 server and the RPC port mapper of src/vxi11_server.
pub mod Cyclic
pub mod Words
pub mod Packets
pub mod Rpc
pub mod Net
pub mod Transport
pub mod Server
pub mod Protocol
pub mod Bind
pub mod Tests
