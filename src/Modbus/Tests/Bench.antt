-- ===== src/Modbus/Tests/Bench.antt =====
-- A power supply with plain registers that answers one round after a request.
use riden_dongle.Base.{
  ℕ, suc, ◌+◌, ◌-◌, ◌%◌, ◌^◌, ◌≤◌, ◌<◌, ◌≡◌, refl, inl, inr, Bool, true, false, List, [],
  if◌then◌else◌, arith,
}
use riden_dongle.Modbus.Double
use riden_dongle.Modbus.Double.{Double}
use riden_dongle.Modbus.Env.{Env}
use riden_dongle.Modbus.State.{RidenModbus}
use riden_dongle.Modbus.Raw.Wait.{Clocked}
use riden_dongle.Modbus.Raw.Device.{Answers, InTime, Ready, slice, update, updates}

pub record Bench : Type 0 where
  pub regs : ℕ → ℕ
  pub busy : Bool
  pub incoming : List ℕ
  pub now : ℕ

abbrev later : Bench → Bench
later w = record w { busy = false; now = w.now + 1 }

instance abbrev pub bench : Env
bench = record {
  Double = Double;
  literal = Double.literal;
  of_nat = Double.of_nat;
  neg = Double.neg;
  mul = Double.mul;
  div = Double.div;
  to_u16 = Double.to_u16;
  World = Bench;
  begin_serial = λ baud w. (true, w);
  server = λ w. w.busy;
  tick = later;
  task = later;
  millis = λ w. w.now % 2 ^ 32;
  read_hreg = λ a n w. (true, record w { busy = true; incoming = slice w.regs a n });
  buffer = λ w. w.incoming;
  write_hreg = λ a v w. (true, record w { busy = true; regs = update w.regs a v });
  write_hregs = λ a vs w. (true, record w { busy = true; regs = updates w.regs a vs });
}

pub bench-Clocked : Clocked bench 1
bench-Clocked = record {
  forward = λ w h. (omega arith, omega arith);
  read_time = λ a n w. omega arith;
  write_time = λ a v w. omega arith;
  writes_time = λ a vs w. omega arith;
}

-- Requests that still end before the counter comes near its wrap.
abbrev requests_left : Bench → ℕ
requests_left w = 2 ^ 32 - 1000 - w.now - (if w.busy then 1 else 0)

pub bench-InTime : (w : Bench) → w.busy ≡ true → w.now < 2 ^ 32 - 1000 → InTime bench 500 w
bench-InTime w busy room = inr (omega arith, inl refl)

pub requests_left-later : (w : Bench) → w.busy ≡ true → requests_left (later w) ≡ requests_left w
requests_left-later w busy = ground arith

pub room_left : (w : Bench) → 0 < requests_left w → w.now < 2 ^ 32 - 1000
room_left w room = ground arith

pub requests_left_busy : (v w : Bench) → v.now ≡ w.now → requests_left w ≤ suc (requests_left v)
requests_left_busy v w p = ground arith

abbrev pub bench-Answers : Answers bench 500
bench-Answers = record {
  regs = λ w. w.regs;
  incoming = λ w. w.incoming;
  writable = λ a. true;
  budget = requests_left;
  regs-tick = λ w. refl;
  incoming-tick = λ w. refl;
  budget-tick = requests_left-later;
  deliver = λ w idle. refl;
  read = λ a n w idle room le.
      let v = record w { busy = true; incoming = slice w.regs a n } in
      (refl, refl, refl, bench-InTime v refl (room_left w room), requests_left_busy v w refl);
  write = λ a x w idle room can.
      let v = record w { busy = true; regs = update w.regs a x } in
      (refl, refl, bench-InTime v refl (room_left w room), requests_left_busy v w refl);
  writes = λ a xs w idle room can.
      let v = record w { busy = true; regs = updates w.regs a xs } in
      (refl, refl, bench-InTime v refl (room_left w room), requests_left_busy v w refl);
}

-- An object before `begin`, connected to a power supply with these registers.
abbrev pub fresh : (ℕ → ℕ) → RidenModbus bench
fresh regs = record {
  initialized = false;
  type = "";
  v_multi = Double.literal 100 0;
  i_multi = Double.literal 100 0;
  p_multi = Double.literal 100 0;
  v_in_multi = Double.literal 100 0;
  v_max = Double.literal 61 0;
  i_max = Double.literal 301 1;
  timeout = 500;
  bus = record { regs = regs; busy = false; incoming = []; now = 7 };
}

abbrev pub running : (ℕ → ℕ) → RidenModbus bench
running regs = record (fresh regs) { initialized = true }

pub running-Ready : (regs : ℕ → ℕ) (n : ℕ) → n ≤ 1000 → Ready bench-Answers n (running regs)
running-Ready regs n h = record { on = refl; idle = refl; limit = refl; left = omega arith }

-- Register `a` holds `a + 60000`.
abbrev pub counting : ℕ → ℕ
counting a = a + 60000
