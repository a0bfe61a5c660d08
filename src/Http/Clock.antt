-- ===== src/Http/Clock.antt =====
-- The page of `handle_psu_get` and the 20 bytes that the clock is printed into.
use riden_dongle.Base.{
  ℕ, ◌+◌, ◌≤◌, ◌<◌, ◌≡◌, ◌∙◌, ap, false, List, none, some, get_or, drop, add_ℕ, sub_ℕ, pos, leb,
  if◌then◌else◌, arith,
}
use riden_dongle.Modbus.Env.{Env}
use riden_dongle.Modbus.Values.{values_to_tm}
use riden_dongle.Modbus.Raw.Device.{Answers, Ready, slice}
use riden_dongle.Modbus.Raw.Calls.{Ready-le}
use riden_dongle.Modbus.AllValues.{get_all_values, decode_values, decode_details}
use riden_dongle.Modbus.AllValues.Reading.{get_all_values_lem}
use riden_dongle.Vxi.Net.{done, overrun, ◌>>=◌, bind-done}
use riden_dongle.Http.Output.{page}
use riden_dongle.Http.Board.{Board, Dongle, modbus, call}
use riden_dongle.Http.Details.{int_to_u32, printed_width, clock_length, details_body}
use riden_dongle.Http.Services.{handle_psu_get, psu_reply}
use riden_dongle.Http.Driven.{with_bus, call-Does}

width_2 : (n : ℕ) → n < 100 → printed_width 2 n ≡ 2
width_2 n h = ground arith

width_4 : (n : ℕ) → n < 10000 → printed_width 4 n ≡ 4
width_4 n h = ground arith

part_u32 : (n k : ℕ) → n < 65536 → k ≤ n + 65536 → int_to_u32 (add_ℕ (sub_ℕ n k) k) ≡ n
part_u32 n k h le = ground arith

-- The registers of the clock hold a year of at most four digits, and other parts of at most two.
abbrev pub ClockFits : (ℕ → ℕ) → Type 0
ClockFits regs =
    (regs 48 < 10000)
    × (regs 49 < 100)
    × (regs 50 < 100)
    × (regs 51 < 100)
    × (regs 52 < 100)
    × (regs 53 < 100)

width_2_u32 : (n : ℕ) → n < 100 → printed_width 2 (int_to_u32 (pos n)) ≡ 2
width_2_u32 n h = ap (printed_width 2) {x = int_to_u32 (pos n)} {y = n} (omega arith) ∙ width_2 n h

clock_length-fits :
    (values : List ℕ)
    → get_or values 0 0 < 10000
    → get_or values 1 0 < 100
    → get_or values 2 0 < 100
    → get_or values 3 0 < 100
    → get_or values 4 0 < 100
    → get_or values 5 0 < 100
    → clock_length (values_to_tm values) ≡ 19
unfolding values_to_tm
clock_length-fits values hy hmo hda hh hmi hse = omega (
  arith,
  ap (printed_width 4) (part_u32 (get_or values 0 0) 1900 (omega arith) (omega arith))
      ∙ width_4 _ hy,
  ap (printed_width 2) (part_u32 (get_or values 1 0) 1 (omega arith) (omega arith)) ∙ width_2 _ hmo,
  width_2_u32 _ hda,
  width_2_u32 _ hh,
  width_2_u32 _ hmi,
  width_2_u32 _ hse,
)

module _ ⦃E : Env⦄ {B : Board E} {timeout : ℕ} (d : Answers E timeout) where
  psu_page :
      (s : Dongle E B)
      → Ready d 120 (modbus s)
      → let dt = decode_details (modbus s) (slice (d.regs (modbus s).bus) 0 120) in
        let av = decode_values (modbus s) (slice (d.regs (modbus s).bus) 0 120) (some dt) in
        (w : E.World) × (handle_psu_get s ≡ (
          if leb (clock_length dt.clock) 19
          then done (page (details_body E B.platform av dt)) (with_bus w s)
          else overrun))
        × (E.server w ≡ false)
        × (d.regs w ≡ d.regs (modbus s).bus)
  unfolding handle_psu_get decode_values
  psu_page s r =
      let (w, run, r', same, idle) =
        call-Does d 120 0 (get_all_values false) s (Ready-le d r (omega arith))
          (get_all_values_lem d false (modbus s) r) in
      (
        w,
        (λ i. if r.on i then (call (get_all_values false) >>= psu_reply) s else psu_reply none s)
            ∙ bind-done (call (get_all_values false)) psu_reply s run,
        idle,
        same,
      )

  -- On a connected dongle, with a power supply that answers in time and whose clock registers hold a
  -- year of at most four digits and other parts of at most two: `handle_psu_get` returns the page of the
  -- full reading, its clock stays within the 20 bytes it is printed into, and no register is changed.
  pub psu_lem :
      (s : Dongle E B)
      → Ready d 120 (modbus s)
      → ClockFits (d.regs (modbus s).bus)
      → let dt = decode_details (modbus s) (slice (d.regs (modbus s).bus) 0 120) in
        let av = decode_values (modbus s) (slice (d.regs (modbus s).bus) 0 120) (some dt) in
        (w : E.World) × (handle_psu_get s
          ≡ done (page (details_body E B.platform av dt)) (with_bus w s))
        × (E.server w ≡ false)
        × (d.regs w ≡ d.regs (modbus s).bus)
        × (clock_length dt.clock ≡ 19)
  unfolding decode_details
  psu_lem s r (hy, hmo, hda, hh, hmi, hse) =
      let (w, run, idle, same) = psu_page s r in
      let fits =
        clock_length-fits (drop 48 (slice (d.regs (modbus s).bus) 0 120)) hy hmo hda hh hmi hse in
      (
        w,
        run ∙ (λ i.
            if leb (fits i) 19
            then done
                (page (
                  details_body E B.platform
                    (decode_values (modbus s) (slice (d.regs (modbus s).bus) 0 120)
                      (some (decode_details (modbus s) (slice (d.regs (modbus s).bus) 0 120))))
                    (decode_details (modbus s) (slice (d.regs (modbus s).bus) 0 120))))
                (with_bus w s)
            else overrun),
        idle,
        same,
        fits,
      )
