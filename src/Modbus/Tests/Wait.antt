-- ===== src/Modbus/Tests/Wait.antt =====
-- The theorems on waiting and on the raw transfers, on the bench.
use riden_dongle.Base.{◌-◌, ◌^◌, ◌≡◌, refl, true, [], ◌∷◌, arith}
use riden_dongle.Modbus.Env.{Env}
use riden_dongle.Modbus.State.{RidenModbus, hung}
use riden_dongle.Modbus.Raw.{wait_loop, wait_for_inactive, write_holding_registers}
use riden_dongle.Modbus.Raw.Wait.{Ended, wait_for_inactive_ends, wait_loop_at_wrap}
use riden_dongle.Modbus.Raw.Device.{Does, updates, write_holding_registers_lem}
use riden_dongle.Modbus.Tests.Bench.{
  bench, bench-Clocked, bench-Answers, running, running-Ready, counting,
}

-- A transaction is in flight at the start.
abbrev waiting : RidenModbus bench
waiting = record (running counting) {
  bus = record { regs = counting; busy = true; incoming = 5 ∷ []; now = 100 };
}

wait_for_inactive_ends_example : Ended 600 waiting (wait_for_inactive waiting)
wait_for_inactive_ends_example = wait_for_inactive_ends 1 waiting bench-Clocked refl (omega arith)

write_holding_registers_lem_example :
    Does bench-Answers 1
      (write_holding_registers 8 (1200 ∷ 500 ∷ []))
      (running counting)
      tt
      (updates counting 8 (1200 ∷ 500 ∷ []))
write_holding_registers_lem_example =
    write_holding_registers_lem bench-Answers 8 (1200 ∷ 500 ∷ []) (running counting)
      (running-Ready counting 1 (omega arith)) (λ i h. refl)

-- The same bench with a transaction that never ends, and a counter that stands at 7.
instance abbrev stuck : Env
stuck = record bench { server = λ w. true; millis = λ w. 7 }

abbrev stuck_object : RidenModbus stuck
stuck_object = record {
  initialized = true;
  type = "";
  v_multi = bench.literal 100 0;
  i_multi = bench.literal 100 0;
  p_multi = bench.literal 100 0;
  v_in_multi = bench.literal 100 0;
  v_max = bench.literal 61 0;
  i_max = bench.literal 301 1;
  timeout = 500;
  bus = record { regs = counting; busy = true; incoming = []; now = 7 };
}

wait_loop_at_wrap_example : wait_loop ⦃E = stuck⦄ 501 (2 ^ 32 - 1) stuck_object ≡ hung
wait_loop_at_wrap_example =
    wait_loop_at_wrap ⦃E = stuck⦄ 501 stuck_object (λ w. omega arith) (λ w. refl)
