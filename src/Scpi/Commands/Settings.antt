-- ===== src/Scpi/Commands/Settings.antt =====
-- What the settings do: the register they write, and what they refuse.
use riden_dongle.Base.{
  ℕ, ◌-◌, ◌%◌, ◌≤◌, ◌<◌, ◌≡◌, refl, ap, ◌⊎◌, inl, inr, Bool, true, false, not, Bool-cases, ◌||◌,
  some, ltb, ltb→lt, ltb-false, leb, arith,
}
use riden_dongle.Modbus.Env.{Env}
use riden_dongle.Modbus.State.{RidenModbus, M}
use riden_dongle.Modbus.Values.{voltage_to_value, current_to_value}
use riden_dongle.Modbus.Raw.Device.{Answers, Ready, Does, update, write_holding_register_lem}
use riden_dongle.Modbus.Access.{write_voltage, write_current}
use riden_dongle.Modbus.Readings.{set_voltage_set, set_current_set}
use riden_dongle.Modbus.Settings.{set_brightness}
use riden_dongle.Modbus.Presets.{
  set_preset, set_over_voltage_protection, set_over_current_protection,
  set_preset_over_voltage_protection, set_preset_over_current_protection,
}
use riden_dongle.Scpi.Parser.{
  NumberUnit, unit_none, unit_volt, unit_amper, unit_other, illegal_parameter_value,
  data_type_error, Parser, Reply, res_ok, res_err, perform, report,
}
use riden_dongle.Scpi.Commands.{
  set_number, rcl, display_brightness, source_voltage, source_current, source_voltage_limit,
  source_current_limit, not_volt, not_amper,
}

-- The units that a voltage and a current may have.
abbrev pub in_volt : NumberUnit → Bool
in_volt unit_none = true
in_volt unit_volt = true
in_volt unit_amper = false
in_volt unit_other = false

abbrev pub in_amper : NumberUnit → Bool
in_amper unit_none = true
in_amper unit_volt = false
in_amper unit_amper = true
in_amper unit_other = false

in_volt-not_volt : (u : NumberUnit) → in_volt u ≡ not (not_volt u)
in_volt-not_volt unit_none = refl
in_volt-not_volt unit_volt = refl
in_volt-not_volt unit_amper = refl
in_volt-not_volt unit_other = refl

in_amper-not_amper : (u : NumberUnit) → in_amper u ≡ not (not_amper u)
in_amper-not_amper unit_none = refl
in_amper-not_amper unit_volt = refl
in_amper-not_amper unit_amper = refl
in_amper-not_amper unit_other = refl

module _ ⦃E : Env⦄ {timeout : ℕ} (d : Answers E timeout) (P : Parser E) (s : RidenModbus E)
    (c c' : P.Context) (r : Ready d 1 s) (can : (i : ℕ) → d.writable i ≡ true) where
  -- A command ends well with the context `c'`, after one write of `v` to the register at `a`.
  abbrev pub Sets : Reply E P → ℕ → ℕ → Type 0
  Sets o a v =
      (w : E.World) × (o ≡ res_ok (record s { bus = w }) c')
      × (E.server w ≡ false)
      × (d.regs w ≡ update (d.regs s.bus) a v)

  perform-Sets :
      (m : M E (Unit {0})) (a v : ℕ)
      → Does d 1 m s tt (update (d.regs s.bus) a v)
      → Sets (perform P m s c') a v
  perform-Sets m a v (w, run, idle, same, cost) = (w, ap (report P (λ _ c. c) c') run, idle, same)

  voltage-Does :
      (x : E.Double)
      → Does d 1 (set_voltage_set x) s tt (update (d.regs s.bus) 8 (voltage_to_value s x))
  unfolding set_voltage_set write_voltage
  voltage-Does x = write_holding_register_lem d 8 (voltage_to_value s x) s r (can 8)

  current-Does :
      (x : E.Double)
      → Does d 1 (set_current_set x) s tt (update (d.regs s.bus) 9 (current_to_value s x))
  unfolding set_current_set write_current
  current-Does x = write_holding_register_lem d 9 (current_to_value s x) s r (can 9)

  voltage_limit-Does :
      (x : E.Double)
      → Does d 1
          (set_over_voltage_protection x)
          s
          tt
          (update (d.regs s.bus) 82 (voltage_to_value s x))
  unfolding set_over_voltage_protection set_preset_over_voltage_protection write_voltage
  voltage_limit-Does x = write_holding_register_lem d 82 (voltage_to_value s x) s r (can 82)

  current_limit-Does :
      (x : E.Double)
      → Does d 1
          (set_over_current_protection x)
          s
          tt
          (update (d.regs s.bus) 83 (current_to_value s x))
  unfolding set_over_current_protection set_preset_over_current_protection write_current
  current_limit-Does x = write_holding_register_lem d 83 (current_to_value s x) s r (can 83)

  recall-Does :
      (n : ℕ)
      → (ltb n 1 || leb 9 (n - 1)) ≡ false
      → Does d 1 (set_preset n) s tt (update (d.regs s.bus) 19 n)
  unfolding set_preset
  recall-Does n good = rw good (write_holding_register_lem d 19 n s r (can 19))

  brightness-Does :
      (n : ℕ) → n < 256 → Does d 1 (set_brightness n) s tt (update (d.regs s.bus) 72 n)
  unfolding set_brightness
  brightness-Does n h = rw byte (write_holding_register_lem d 72 n s r (can 72))
    where
      byte : n % 256 ≡ n
      byte = omega arith

  -- Whether a number was taken: its register is set, or the number is refused and nothing is sent.
  abbrev pub Numbered : Bool → Reply E P → ℕ → ℕ → Type 0
  Numbered true o a v = Sets o a v
  Numbered false o a v = o ≡ res_err s (P.error_push data_type_error c')

  set_number-Numbered :
      (wrong : NumberUnit → Bool) (set : E.Double → M E (Unit {0})) (a v : ℕ) (x : E.Double)
      (u : NumberUnit)
      → P.param_number c ≡ (some (x, u), c')
      → Does d 1 (set x) s tt (update (d.regs s.bus) a v)
      → Numbered (not (wrong u)) (set_number P wrong set s c) a v
  set_number-Numbered wrong set a v x u given h = elim (Bool-cases (wrong u)) [
    | inl bad ↦ rw (given, bad) refl
    | inr good ↦ rw (given, good) (perform-Sets (set x) a v h)
  ]

  -- The number that was given is set where it has no unit or the unit of the command, and refused
  -- with a data type error where it has another: the voltage and the current go to registers 8 and 9,
  -- their limits to 82 and 83, each converted by the scale factor of the model, with a power supply
  -- that answers in time and stores every register.
  pub numbers_lem :
      (x : E.Double) (u : NumberUnit)
      → P.param_number c ≡ (some (x, u), c')
      → Numbered (in_volt u) (source_voltage P s c) 8 (voltage_to_value s x)
        × Numbered (in_volt u) (source_voltage_limit P s c) 82 (voltage_to_value s x)
        × Numbered (in_amper u) (source_current P s c) 9 (current_to_value s x)
        × Numbered (in_amper u) (source_current_limit P s c) 83 (current_to_value s x)
  unfolding source_voltage source_voltage_limit source_current source_current_limit
  numbers_lem x u given =
      rw (in_volt-not_volt u, in_amper-not_amper u)
        (
          set_number-Numbered not_volt set_voltage_set 8 _ x u given (voltage-Does x),
          set_number-Numbered not_volt set_over_voltage_protection 82 _ x u given
              (voltage_limit-Does x),
          set_number-Numbered not_amper set_current_set 9 _ x u given (current-Does x),
          set_number-Numbered not_amper set_over_current_protection 83 _ x u given
              (current_limit-Does x),
        )

  -- With a power supply that answers in time and stores every register: a recall takes the numbers 1
  -- to 9 and writes the number to the preset register; the brightness takes 0 to 5 and is written to its
  -- register; any other number is refused as an illegal value, and nothing is sent.
  pub ranges_lem :
      (n : ℕ)
      → P.param_unsigned_int c ≡ (some n, c')
      → let refused = res_err s (P.error_push illegal_parameter_value c') in
        (((1 ≤ n) × (n ≤ 9) × Sets (rcl P s c) 19 n)
          ⊎ (((n < 1) ⊎ (9 < n)) × (rcl P s c ≡ refused)))
        × (((n ≤ 5) × Sets (display_brightness P s c) 72 n)
            ⊎ ((5 < n) × (display_brightness P s c ≡ refused)))
  unfolding rcl display_brightness
  ranges_lem n given = (
    elim (Bool-cases (ltb n 1 || leb 9 (n - 1))) [
      | inl bad ↦ inr (outside bad, rw (given, bad) refl)
      | inr good ↦
          let (lo, hi) = inside good in
          inl (lo, hi, rw (given, good) (perform-Sets (set_preset n) 19 n (recall-Does n good)))
    ],
    elim (Bool-cases (ltb 5 n)) [
      | inl bad ↦ inr (ltb→lt 5 n bad, rw (given, bad) refl)
      | inr good ↦
          let le = ltb-false 5 n good in
          inl (
            le,
            rw (given, good)
                (perform-Sets (set_brightness n) 72 n (brightness-Does n (omega arith))),
          )
    ],
  )
    where
      outside : (ltb n 1 || leb 9 (n - 1)) ≡ true → (n < 1) ⊎ (9 < n)
      outside h = ground arith

      inside : (ltb n 1 || leb 9 (n - 1)) ≡ false → (1 ≤ n) × (n ≤ 9)
      inside h = ground arith
