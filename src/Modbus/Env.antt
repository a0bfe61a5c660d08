-- ===== src/Modbus/Env.antt =====
-- What src/riden_modbus uses and does not implement: the arithmetic of `double`, the ModbusRTU
-- library with its serial port, and the clock. Its values are parameters of the driver.
use riden_dongle.Base.{ℕ, Bool, List}

pub record Env : Type 1 where
  -- `double`, its literals (`literal 601 1` is 60.1), and its conversions.
  pub Double : Type 0
  pub literal : ℕ → ℕ → Double
  pub of_nat : ℕ → Double
  pub neg : Double → Double
  pub mul : Double → Double → Double
  pub div : Double → Double → Double
  pub to_u16 : Double → ℕ
  -- The ModbusRTU object, the serial port, the power supply behind it, and the time.
  pub World : Type 0
  -- `SerialRuideng.begin` at a baud rate, then `modbus.begin` with its result, then `client`.
  pub begin_serial : ℕ → World → Bool × World
  -- `modbus.server()`: a transaction is in flight.
  pub server : World → Bool
  -- `delay(1)`, then `modbus.task()`.
  pub tick : World → World
  -- `modbus.task()` alone.
  pub task : World → World
  -- `millis()`, an unsigned 32-bit count.
  pub millis : World → ℕ
  -- `readHreg`, and what it has stored by now at the caller's pointer.
  pub read_hreg : ℕ → ℕ → World → Bool × World
  pub buffer : World → List ℕ
  -- `writeHreg` of one register, and of several.
  pub write_hreg : ℕ → ℕ → World → Bool × World
  pub write_hregs : ℕ → List ℕ → World → Bool × World
