-- ===== src/Modbus/AllValues/Reading.antt =====
-- `get_all_values` reads the whole register file, 20 registers at a time.
use mathlib.Core.List.{append-nil}
use native.Mathlib.Decide.{dec_le}
use riden_dongle.Base.{
  ℕ, zero, suc, ◌+◌, ◌-◌, ◌≤◌, ◌≡◌, refl, ◌∙◌, ap, inl, inr, Bool, true, false, List, ◌++◌, min,
  none, some, ltb, Bool-cases, if◌then◌else◌, arith,
}
use riden_dongle.Modbus.Env.{Env}
use riden_dongle.Modbus.State.{RidenModbus, ok, ◌>>=◌, return, bind-ok}
use riden_dongle.Modbus.Values.{
  value_to_voltage, value_to_voltage_in, value_to_current, values_to_power, values_to_preset,
}
use riden_dongle.Modbus.Raw.{read_holding_registers}
use riden_dongle.Modbus.Raw.Device.{
  Answers, Ready, Does, slice, slice-append, read_holding_registers_lem,
}
use riden_dongle.Modbus.Raw.Calls.{Ready-bus, Ready-le, Does-bind, Does-le}
use riden_dongle.Modbus.AllValues.{
  read_registers, get_all_values, decode_values, decode_details, total_nof_regs_of,
}

slice-pieces :
    (regs : ℕ → ℕ) (first total : ℕ)
    → slice regs first (min 20 (total - first)) ++ slice regs (first + 20) (total - (first + 20))
      ≡ slice regs first (total - first)
slice-pieces regs first total = elim (dec_le 20 (total - first)) [
  | yes whole ↦
      let piece : min 20 (total - first) ≡ 20 = omega arith in
      let left : total - first ≡ 20 + (total - (first + 20)) = omega arith in
      rw (piece, left) (slice-append regs first 20 (total - (first + 20)))
  | no last ↦
      let piece : min 20 (total - first) ≡ total - first = omega arith in
      let left : total - (first + 20) ≡ 0 = omega arith in rw (piece, left, append-nil)
]

module _ ⦃E : Env⦄ {timeout : ℕ} (d : Answers E timeout) where
  -- The pieces make up the registers from `first` to `total`, each once and in order.
  pub read_registers_lem :
      (fuel first total : ℕ) (s : RidenModbus E)
      → Ready d fuel s
      → total ≤ first + fuel
      → Does d fuel
          (read_registers fuel first total)
          s
          (slice (d.regs s.bus) first (total - first))
          (d.regs s.bus)
  unfolding read_registers
  read_registers_lem zero first total s r enough =
      (s.bus, rw (stop, none_left), r.idle, refl, omega arith)
    where
      stop : ltb first total ≡ false
      stop = ground arith

      none_left : total - first ≡ 0
      none_left = omega arith
  read_registers_lem (suc fuel) first total s r enough = elim (Bool-cases (ltb first total)) [
    | inr done ↦
        let none_left : total - first ≡ 0 = ground arith in
        (s.bus, rw (done, none_left), r.idle, refl, omega arith)
    | inl more ↦
        let (w, run, idle, same, cost) =
          read_holding_registers_lem d first (min 20 (total - first)) s (Ready-le d r (omega arith))
            (omega arith) in
        let (v, run', idle', same', cost') =
          read_registers_lem fuel (first + 20) total (record s { bus = w })
            (Ready-bus d 1 fuel s w (Ready-le d r (omega arith)) idle cost) (omega arith) in
        (
          v,
          rw more (
              bind-ok (read_holding_registers first (min 20 (total - first)))
                (λ values.
                  read_registers fuel (first + 20) total >>= λ others. return (values ++ others))
                s run
              ∙ bind-ok (read_registers fuel (first + 20) total)
                  (λ others. return (slice (d.regs s.bus) first (min 20 (total - first)) ++ others))
                  _ run'
              ∙ ap (λ vs. ok vs (record s { bus = v }))
                  (ap
                      (λ g.
                        slice (d.regs s.bus) first (min 20 (total - first))
                        ++ slice g (first + 20) (total - (first + 20)))
                      same
                    ∙ slice-pieces (d.regs s.bus) first total)),
          idle',
          same' ∙ same,
          omega arith,
        )
  ]

  -- Decoding uses the object's own fields only, not the bus.
  decode_values-bus :
      (s : RidenModbus E) (w : E.World) (values : List ℕ) (subset : Bool)
      → decode_values
          (record s { bus = w })
          values
          (if subset then none else some (decode_details (record s { bus = w }) values))
        ≡ decode_values s values (if subset then none else some (decode_details s values))
  unfolding decode_values decode_details value_to_voltage value_to_voltage_in value_to_current
      values_to_power values_to_preset
  decode_values-bus s w values subset = refl

  -- A reading returns what `decode_values` makes of the registers from 0 on: all 120 of them, or the
  -- 43 of the subset, and then with no details.
  pub get_all_values_lem :
      (subset : Bool) (s : RidenModbus E)
      → Ready d 120 s
      → let values = slice (d.regs s.bus) 0 (total_nof_regs_of subset) in
        Does d 120
          (get_all_values subset)
          s
          (decode_values s values (if subset then none else some (decode_details s values)))
          (d.regs s.bus)
  unfolding get_all_values
  get_all_values_lem true s r =
      Does-bind d 120 (read_registers 43 0 43) _ s
        (Does-le d 43 120 (read_registers 43 0 43) s (omega arith)
          (read_registers_lem 43 0 43 s (Ready-le d r (omega arith)) (omega arith)))
        (λ w. ap (λ av. ok av (record s { bus = w })) (decode_values-bus s w _ true))
  get_all_values_lem false s r =
      Does-bind d 120 (read_registers 120 0 120) _ s
        (read_registers_lem 120 0 120 s r (omega arith))
        (λ w. ap (λ av. ok av (record s { bus = w })) (decode_values-bus s w _ false))
