-- ===== src/Modbus/Presets/RoundTrip.antt =====
-- A stored preset, as a whole and part by part.
use riden_dongle.Base.{ℕ, ◌+◌, ◌*◌, ◌<◌, ◌≡◌, ◌∙◌, ap, true, false, [], ◌∷◌, leb, some, arith}
use riden_dongle.Modbus.Env.{Env}
use riden_dongle.Modbus.State.{RidenModbus, Preset, ◌>>◌, result}
use riden_dongle.Modbus.Values.{
  values_to_preset, preset_to_values, value_to_voltage, value_to_current, voltage_to_value,
  current_to_value,
}
use riden_dongle.Modbus.Raw.Device.{
  Answers, Ready, Does, slice, update, updates, write_holding_register_lem,
  write_holding_registers_lem,
}
use riden_dongle.Modbus.Raw.Calls.{then-result, Ready-le}
use riden_dongle.Modbus.Access.{write_voltage, write_current}
use riden_dongle.Modbus.Presets.{
  store_preset, get_preset, set_preset_voltage_out, set_preset_current_out,
  set_preset_over_voltage_protection, set_preset_over_current_protection,
}
use riden_dongle.Modbus.Presets.Reads.{get_preset-result}

slice-updates_four :
    (g : ℕ → ℕ) (a u v w x : ℕ) → slice (updates g a (u ∷ v ∷ w ∷ x ∷ [])) a 4 ≡ u ∷ v ∷ w ∷ x ∷ []
slice-updates_four g a u v w x = ground arith

allowed : (index : ℕ) → index < 9 → leb 9 index ≡ false
allowed index h = ground arith

-- Four registers written one by one.
slice-update_four :
    (g : ℕ → ℕ) (index u v w x : ℕ)
    → slice
        (update
          (update (update (update g (80 + 4 * index) u) (81 + 4 * index) v) (82 + 4 * index) w)
          (83 + 4 * index)
          x)
        (80 + 4 * index)
        4
      ≡ u ∷ v ∷ w ∷ x ∷ []
slice-update_four g index u v w x = ground arith

-- Each of the four setters writes its own register of the preset.
module _ ⦃E : Env⦄ {timeout : ℕ} (d : Answers E timeout) where
  set_preset_voltage_out_lem :
      (s : RidenModbus E) (index : ℕ) (x : E.Double)
      → Ready d 1 s
      → index < 9
      → d.writable (80 + 4 * index) ≡ true
      → Does d 1
          (set_preset_voltage_out index x)
          s
          tt
          (update (d.regs s.bus) (80 + 4 * index) (voltage_to_value s x))
  unfolding set_preset_voltage_out write_voltage
  set_preset_voltage_out_lem s index x r h can =
      rw (allowed index h)
        (write_holding_register_lem d (80 + 4 * index) (voltage_to_value s x) s r can)

  set_preset_current_out_lem :
      (s : RidenModbus E) (index : ℕ) (x : E.Double)
      → Ready d 1 s
      → index < 9
      → d.writable (81 + 4 * index) ≡ true
      → Does d 1
          (set_preset_current_out index x)
          s
          tt
          (update (d.regs s.bus) (81 + 4 * index) (current_to_value s x))
  unfolding set_preset_current_out write_current
  set_preset_current_out_lem s index x r h can =
      rw (allowed index h)
        (write_holding_register_lem d (81 + 4 * index) (current_to_value s x) s r can)

  set_preset_over_voltage_protection_lem :
      (s : RidenModbus E) (index : ℕ) (x : E.Double)
      → Ready d 1 s
      → index < 9
      → d.writable (82 + 4 * index) ≡ true
      → Does d 1
          (set_preset_over_voltage_protection index x)
          s
          tt
          (update (d.regs s.bus) (82 + 4 * index) (voltage_to_value s x))
  unfolding set_preset_over_voltage_protection write_voltage
  set_preset_over_voltage_protection_lem s index x r h can =
      rw (allowed index h)
        (write_holding_register_lem d (82 + 4 * index) (voltage_to_value s x) s r can)

  set_preset_over_current_protection_lem :
      (s : RidenModbus E) (index : ℕ) (x : E.Double)
      → Ready d 1 s
      → index < 9
      → d.writable (83 + 4 * index) ≡ true
      → Does d 1
          (set_preset_over_current_protection index x)
          s
          tt
          (update (d.regs s.bus) (83 + 4 * index) (current_to_value s x))
  unfolding set_preset_over_current_protection write_current
  set_preset_over_current_protection_lem s index x r h can =
      rw (allowed index h)
        (write_holding_register_lem d (83 + 4 * index) (current_to_value s x) s r can)

module _ ⦃E : Env⦄ {timeout : ℕ} (d : Answers E timeout) (s : RidenModbus E) (r : Ready d 5 s) where
  -- The preset that comes back: each part as its register word can hold it.
  abbrev pub stored : Preset E → Preset E
  stored p = record {
    voltage = value_to_voltage s (voltage_to_value s p.voltage);
    current = value_to_current s (current_to_value s p.current);
    over_voltage_protection = value_to_voltage s (voltage_to_value s p.over_voltage_protection);
    over_current_protection = value_to_current s (current_to_value s p.over_current_protection);
  }

  pub store_preset-Does :
      (index : ℕ) (p : Preset E)
      → index < 9
      → ((i : ℕ) → d.writable i ≡ true)
      → Does d 1
          (store_preset index p)
          s
          tt
          (updates (d.regs s.bus) (80 + 4 * index) (preset_to_values s p))
  unfolding store_preset
  store_preset-Does index p h can = rw (allowed index h) (
      write_holding_registers_lem d (80 + 4 * index) (preset_to_values s p) s
        (Ready-le d r (omega arith)) (λ i h'. can (80 + 4 * index + i)))

  -- A preset stored at an index below 9 is read back with its four parts in their places, each
  -- rounded as its register word holds it.
  pub store_preset-get_preset :
      (index : ℕ) (p : Preset E)
      → index < 9
      → ((i : ℕ) → d.writable i ≡ true)
      → result ((store_preset index p >> get_preset index) s) ≡ some (stored p)
  unfolding preset_to_values values_to_preset value_to_voltage value_to_current
  store_preset-get_preset index p h can =
      then-result d (store_preset index p) (get_preset index) s 4 r
        (store_preset-Does index p h can)
        (λ w r' same.
          get_preset-result d (record s { bus = w }) (Ready-le d r' (omega arith)) index h
          ∙ ap (λ g. some (values_to_preset (record s { bus = w }) (slice g (80 + 4 * index) 4)))
              same
          ∙ ap (λ vs. some (values_to_preset (record s { bus = w }) vs))
              (slice-updates_four (d.regs s.bus) (80 + 4 * index) (voltage_to_value s p.voltage)
                (current_to_value s p.current) (voltage_to_value s p.over_voltage_protection)
                (current_to_value s p.over_current_protection)))

  -- The four setters of the parts, one after the other, leave the preset that `store_preset` does.
  pub parts-get_preset :
      (index : ℕ) (p : Preset E)
      → index < 9
      → ((i : ℕ) → d.writable i ≡ true)
      → result (
          (set_preset_voltage_out index p.voltage
              >> (set_preset_current_out index p.current
                  >> (set_preset_over_voltage_protection index p.over_voltage_protection
                      >> (set_preset_over_current_protection index p.over_current_protection
                          >> get_preset index))))
            s)
        ≡ some (stored p)
  unfolding values_to_preset value_to_voltage value_to_current voltage_to_value current_to_value
  parts-get_preset index p h can =
      then-result d (set_preset_voltage_out index p.voltage) _ s 4 r
        (set_preset_voltage_out_lem d s index p.voltage (Ready-le d r (omega arith)) h (can _))
        (λ w₁ r₁ e₁.
          then-result d (set_preset_current_out index p.current) _ _ 3 r₁
            (set_preset_current_out_lem d _ index p.current (Ready-le d r₁ (omega arith)) h (can _))
            (λ w₂ r₂ e₂.
              then-result d (set_preset_over_voltage_protection index p.over_voltage_protection) _ _
                2 r₂
                (set_preset_over_voltage_protection_lem d _ index p.over_voltage_protection
                  (Ready-le d r₂ (omega arith)) h (can _))
                (λ w₃ r₃ e₃.
                  then-result d (set_preset_over_current_protection index p.over_current_protection)
                    _ _ 1 r₃
                    (set_preset_over_current_protection_lem d _ index p.over_current_protection
                      (Ready-le d r₃ (omega arith)) h (can _))
                    (λ w₄ r₄ e₄.
                      get_preset-result d (record s { bus = w₄ }) r₄ index h
                      ∙ ap
                          (λ g.
                            some (
                              values_to_preset (record s { bus = w₄ })
                                (slice g (80 + 4 * index) 4)))
                          (e₄
                            ∙ ap (λ g. update g (83 + 4 * index) x)
                                (e₃
                                  ∙ ap (λ g. update g (82 + 4 * index) w)
                                      (e₂ ∙ ap (λ g. update g (81 + 4 * index) v) e₁)))
                      ∙ ap (λ vs. some (values_to_preset (record s { bus = w₄ }) vs))
                          (slice-update_four (d.regs s.bus) index u v w x)))))
    where
      u : ℕ
      u = voltage_to_value s p.voltage

      v : ℕ
      v = current_to_value s p.current

      w : ℕ
      w = voltage_to_value s p.over_voltage_protection

      x : ℕ
      x = current_to_value s p.over_current_protection
