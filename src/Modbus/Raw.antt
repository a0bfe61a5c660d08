-- ===== src/Modbus/Raw.antt =====
-- Raw access to the registers: `wait_for_inactive` and the three transfers of
-- src/riden_modbus/riden_modbus.cpp. An overload on `Register` passes the register's offset.
pub mod Wait
pub mod Device
pub mod Calls
use riden_dongle.Base.{ℕ, zero, suc, ◌+◌, ◌%◌, ◌^◌, Bool, true, false, List, ltb, if◌then◌else◌}
use riden_dongle.Modbus.Env.{Env}
use riden_dongle.Modbus.State.{RidenModbus, Outcome, ok, fail, hung, M, ◌>>=◌, ◌>>◌}

module _ ⦃E : Env⦄ where
  open E use {World, server, tick, millis, read_hreg, buffer, write_hreg, write_hregs}

  -- The loop `while (modbus.server()) { ... }`, at most `fuel` rounds of it.
  unfoldable pub wait_loop : ℕ → ℕ → M E (Unit {0})
  wait_loop zero wait_until s = if server s.bus then hung else ok tt s
  wait_loop (suc fuel) wait_until s =
      let s' = record s { bus = tick s.bus } in
      let rest = wait_loop fuel wait_until s' in
      if server s.bus then if ltb wait_until (millis s'.bus) then fail s' else rest else ok tt s

  -- Each round takes a millisecond at least, so `timeout + 1` rounds pass the time limit.
  unfoldable pub wait_for_inactive : M E (Unit {0})
  wait_for_inactive s =
      if s.initialized
      then wait_loop (suc s.timeout) ((millis s.bus + s.timeout) % 2 ^ 32) s
      else fail s

  -- A call of the library that reports whether it took the request.
  abbrev pub request : (World → Bool × World) → M E (Unit {0})
  request call s =
      let (res, w) = call s.bus in
      if res then ok tt (record s { bus = w }) else fail (record s { bus = w })

  -- What the library has stored at `value` by the time the method returns.
  abbrev pub received : M E (List ℕ)
  received s = ok (buffer s.bus) s

  unfoldable pub read_holding_registers : ℕ → ℕ → M E (List ℕ)
  read_holding_registers start numregs = do
    wait_for_inactive
    request (read_hreg start numregs)
    wait_for_inactive
    received

  unfoldable pub write_holding_register : ℕ → ℕ → M E (Unit {0})
  write_holding_register start value = do
    wait_for_inactive
    request (write_hreg start value)
    wait_for_inactive

  unfoldable pub write_holding_registers : ℕ → List ℕ → M E (Unit {0})
  write_holding_registers start values = do
    wait_for_inactive
    request (write_hregs start values)
    wait_for_inactive
