-- ===== src/Modbus.antt =====
-- The Modbus RTU driver of the power supply: include/riden_modbus and src/riden_modbus.
pub mod Registers
pub mod Env
pub mod State
pub mod Raw
pub mod Values
pub mod Access
pub mod Readings
pub mod Settings
pub mod Presets
pub mod AllValues
pub mod Begin
pub mod Double
pub mod Tests
