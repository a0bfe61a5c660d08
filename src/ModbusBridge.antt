-- ===== src/ModbusBridge.antt =====
-- The class RidenModbusBridge of src/riden_modbus_bridge/riden_modbus_bridge.cpp: requests of Modbus TCP
-- go to the power supply as raw frames, one at a time, and its answers go back to the client.
pub mod Routes
pub mod Begin
pub mod Clients
pub mod Tests
use riden_dongle.Base.{
  ℕ, zero, suc, ◌+◌, ◌==◌, Bool, true, false, ◌&&◌, List, [], ◌∷◌, Option, none, some,
  if◌then◌else◌,
}
use riden_dongle.Vxi.Net.{Run, done, waiting, overrun, Act, ◌>>=◌}

-- The ModbusRTU library of the driver and the ModbusTCP library. `Code` is `Modbus::ResultCode`, and
-- `FrameArg` is `Modbus::frame_arg_t`.
pub record Link : Type 1 where
  pub World : Type 0
  pub Code : Type 0
  pub ex_success : Code
  pub ex_general_failure : Code
  pub ex_device_failed_to_respond : Code
  pub ex_passthrough : Code
  pub FrameArg : Type 0
  pub arg_slave_id : FrameArg → ℕ
  pub arg_transaction_id : FrameArg → ℕ
  pub arg_ipaddr : FrameArg → ℕ
  pub arg_to_server : FrameArg → Bool
  -- `riden_modbus.modbus.server()`: a transaction is in flight.
  pub server : World → Bool
  -- `delay(1)` and `modbus.task()` up to its call of the raw callback, with what it passes if it calls it,
  -- and what it does with the result of the call.
  pub delay_task : World → Option (FrameArg × List ℕ) × World
  pub end_task : Code → World → World
  pub raw_request : ℕ → List ℕ → World → Bool × World
  -- `modbus.onRaw` of `modbus_rtu_raw_callback` (true), and of no callback.
  pub on_raw : Bool → World → World
  -- `modbus_tcp.onRaw` and `modbus_tcp.server()`.
  pub begin_server : World → World
  -- Calls of `modbus_tcp`, with their arguments in order.
  pub error_response : ℕ → ℕ → Code → World → World
  pub set_transaction_id : ℕ → World → World
  pub raw_response : ℕ → List ℕ → ℕ → World → World

pub record RidenModbusBridge (L : Link) : Type 0 where
  pub initialized : Bool
  pub transaction_id : ℕ
  pub slave_id : ℕ
  pub ip : ℕ
  pub world : L.World

-- The objects of the class, by their addresses, and the static pointer to one of them. The initialized
-- object alone uses the ModbusRTU library, which is in its `world`.
pub record Objects (L : Link) : Type 0 where
  pub one_and_only : Option ℕ
  pub object : ℕ → RidenModbusBridge L

module _ {L : Link} where
  unfoldable pub modbus_rtu_raw_callback :
      L.FrameArg → List ℕ → RidenModbusBridge L → L.Code × RidenModbusBridge L
  modbus_rtu_raw_callback source bytes s =
      let w = L.on_raw false s.world in
      if s.initialized
      then if L.arg_to_server source then (L.ex_passthrough, record s { world = w }) else (
        L.ex_success,
        record s {
          transaction_id = 0;
          slave_id = 0;
          ip = 0;
          world = L.raw_response s.ip bytes s.slave_id (L.set_transaction_id s.transaction_id w);
        },
      )
      else (L.ex_general_failure, s)

  -- The end of `task()`, which has called the callback if it has a frame. The static callback calls
  -- `one_and_only`, which is this object once it is initialized.
  abbrev pub take_frame : Option (L.FrameArg × List ℕ) → RidenModbusBridge L → RidenModbusBridge L
  take_frame none s = s
  take_frame (some (source, bytes)) s =
      let (code, t) = modbus_rtu_raw_callback source bytes s in
      record t { world = L.end_task code t.world }

  -- `delay(1)` and `riden_modbus.modbus.task()`.
  abbrev pub task_round : RidenModbusBridge L → RidenModbusBridge L
  task_round s = let (frame, w) = L.delay_task s.world in take_frame frame (record s { world = w })

  -- `while (riden_modbus.modbus.server())`.
  unfoldable pub wait_for_server : ℕ → Act (RidenModbusBridge L) (Unit {0})
  wait_for_server zero s = if L.server s.world then waiting else done tt s
  wait_for_server (suc polls) s =
      let rest = wait_for_server polls (task_round s) in
      if L.server s.world then rest else done tt s

  -- The branch of a request that is not taken, which reads `data[0]`.
  abbrev pub refuse_request : L.FrameArg → List ℕ → Act (RidenModbusBridge L) L.Code
  refuse_request source [] s = overrun
  refuse_request source (code ∷ bytes) s =
      let failed = L.ex_device_failed_to_respond in
      done failed
        (record s { world = L.error_response (L.arg_slave_id source) code failed s.world })

  abbrev pub send_request : L.FrameArg → List ℕ → Act (RidenModbusBridge L) L.Code
  send_request source bytes s =
      let (taken, w) = L.raw_request (L.arg_slave_id source) bytes s.world in
      if taken
      then done L.ex_success (record s {
        transaction_id = L.arg_transaction_id source;
        slave_id = L.arg_slave_id source;
        ip = L.arg_ipaddr source;
        world = L.on_raw true w;
      })
      else refuse_request source bytes (record s { world = w })

  unfoldable pub modbus_tcp_raw_callback :
      ℕ → L.FrameArg → List ℕ → Act (RidenModbusBridge L) L.Code
  modbus_tcp_raw_callback polls source bytes s =
      if s.initialized
      then (wait_for_server polls >>= λ _. send_request source bytes) s
      else done L.ex_general_failure s

  abbrev pub begun : ℕ → Objects L → Option ℕ → Bool × Objects L
  begun at f (some other) = (false, f)
  begun at f none =
      let s = f.object at in
      let new = record s { initialized = true; world = L.begin_server s.world } in
      (true, record { one_and_only = some at; object = λ i. if i == at then new else f.object i })

  -- `begin` of the object at an address.
  unfoldable pub begin : ℕ → Objects L → Bool × Objects L
  begin at f = if (f.object at).initialized then (true, f) else begun at f f.one_and_only
