-- ===== src/Modbus/Tests.antt =====
-- A bench power supply: the hypotheses on library, power supply and clock hold of it, and the
-- theorems of the driver are applied to it.
pub mod Bench
mod Wait
mod Driver
