-- ===== src/Vxi/Tests.antt =====
-- The theorems on the VXI-11 server and the port mapper, applied on a bench.
pub mod Bench
mod Packets
mod Server
pub mod Bind
