-- ===== src/Modbus/Begin.antt =====
-- `begin`, `loop`, `is_connected` and `get_type` of src/riden_modbus/riden_modbus.cpp: which power
-- supply answers, and its scale factors and limits.
pub mod Identify
pub mod Within
pub mod Ends
use riden_dongle.Base.{ℕ, Bool, true, false, String, ◌&&◌, leb, ◌==◌, if◌then◌else◌}
use riden_dongle.Modbus.Env.{Env}
use riden_dongle.Modbus.State.{RidenModbus, Outcome, ok, fail, hung, M}
use riden_dongle.Modbus.Raw.{request}
use riden_dongle.Modbus.Readings.{get_id}

-- `lo <= id && id <= hi`
abbrev pub within : ℕ → ℕ → ℕ → Bool
within lo hi id = leb lo id && leb id hi

module _ ⦃E : Env⦄ where
  open E use {literal, begin_serial, task}

  -- The ladder on the id, on an object whose limits have their defaults and that is not initialised.
  unfoldable pub identify : ℕ → M E (Unit {0})
  identify id s =
      if within 60180 60189 id
      then ok tt (record s { type = "RD6018"; i_max = literal 181 1; initialized = true })
      else if within 60120 60124 id
      then ok tt (record s { type = "RD6012"; i_max = literal 121 1; initialized = true })
      else if within 60125 60129 id
      then ok tt (record s {
        type = "RD6012P";
        v_multi = literal 1000 0;
        p_multi = literal 1000 0;
        i_max = literal 121 1;
        initialized = true;
      })
      else if within 60060 60064 id
      then ok tt (record s {
        type = "RD6006";
        i_multi = literal 1000 0;
        i_max = literal 60 1;
        initialized = true;
      })
      else if id == 60065
      then ok tt (record s {
        type = "RD6006P";
        v_multi = literal 1000 0;
        i_multi = literal 10000 0;
        p_multi = literal 1000 0;
        i_max = literal 60 1;
        initialized = true;
      })
      else if id == 60301
      then ok tt (record s { type = "RD6030"; i_max = literal 301 1; initialized = true })
      else if leb 60241 id
      then ok tt (record s { type = "RD6024"; i_max = literal 241 1; initialized = true })
      else fail s

  -- After `get_id`, for which the object pretends to be initialised.
  finish_begin : Outcome (RidenModbus E) ℕ → Outcome (RidenModbus E) (Unit {0})
  finish_begin (ok id t) =
      identify id (record t { initialized = false; v_max = literal 601 1; i_max = literal 60 1 })
  finish_begin (fail t) = fail (record t { initialized = false })
  finish_begin hung = hung

  -- After the serial port and the library have been started.
  start_begin : Outcome (RidenModbus E) (Unit {0}) → Outcome (RidenModbus E) (Unit {0})
  start_begin (ok _ t) = finish_begin (get_id (record t { initialized = true }))
  start_begin (fail t) = fail t
  start_begin hung = hung

  -- The baud rate is that of the stored configuration.
  unfoldable pub begin : ℕ → M E (Unit {0})
  unfolding start_begin finish_begin
  begin uart_baudrate s =
      if s.initialized then ok tt s else start_begin (request (begin_serial uart_baudrate) s)

  -- `loop` tells whether the object is initialised, and if so gives the library a turn.
  unfoldable pub loop : M E (Unit {0})
  loop s = if s.initialized then ok tt (record s { bus = task s.bus }) else fail s

  abbrev pub is_connected : RidenModbus E → Bool
  is_connected s = s.initialized

  abbrev pub get_type : RidenModbus E → String
  get_type s = s.type
