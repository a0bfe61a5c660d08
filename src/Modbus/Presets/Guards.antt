-- ===== src/Modbus/Presets/Guards.antt =====
-- Which preset indices the driver takes.
use riden_dongle.Base.{
  ℕ, ◌+◌, ◌*◌, ◌-◌, ◌≤◌, ◌<◌, ◌≡◌, ◌⊎◌, inl, inr, true, false, some, ltb, leb, ◌||◌, arith,
}
use riden_dongle.Modbus.Env.{Env}
use riden_dongle.Modbus.State.{RidenModbus, Preset, fail, result}
use riden_dongle.Modbus.Values.{values_to_preset, preset_to_values}
use riden_dongle.Modbus.Raw.Device.{
  Answers, Ready, Does, slice, update, updates, write_holding_register_lem,
}
use riden_dongle.Modbus.Raw.Calls.{Ready-le}
use riden_dongle.Modbus.Presets.Reads.{get_preset-result}
use riden_dongle.Modbus.Presets.RoundTrip.{store_preset-Does}
use riden_dongle.Modbus.Presets.{
  set_preset, store_preset, get_preset, set_preset_voltage_out, get_preset_voltage_out,
  set_preset_current_out, get_preset_current_out, set_preset_over_voltage_protection,
  get_preset_over_voltage_protection, set_preset_over_current_protection,
  get_preset_over_current_protection,
}

module _ ⦃E : Env⦄ where
  -- Each of the ten operations on stored presets returns false and leaves the object and the bus alone.
  abbrev pub Refuses : ℕ → RidenModbus E → Preset E → E.Double → Type 0
  Refuses index s p x =
      (store_preset index p s ≡ fail s)
      × (get_preset index s ≡ fail s)
      × (set_preset_voltage_out index x s ≡ fail s)
      × (get_preset_voltage_out index s ≡ fail s)
      × (set_preset_current_out index x s ≡ fail s)
      × (get_preset_current_out index s ≡ fail s)
      × (set_preset_over_voltage_protection index x s ≡ fail s)
      × (get_preset_over_voltage_protection index s ≡ fail s)
      × (set_preset_over_current_protection index x s ≡ fail s)
      × (get_preset_over_current_protection index s ≡ fail s)

  stored_presets_refuse :
      (index : ℕ) (s : RidenModbus E) (p : Preset E) (x : E.Double)
      → 9 ≤ index
      → Refuses index s p x
  unfolding store_preset get_preset set_preset_voltage_out get_preset_voltage_out
      set_preset_current_out get_preset_current_out set_preset_over_voltage_protection
      get_preset_over_voltage_protection set_preset_over_current_protection
      get_preset_over_current_protection
  stored_presets_refuse index s p x h = (
    rw refused,
    rw refused,
    rw refused,
    rw refused,
    rw refused,
    rw refused,
    rw refused,
    rw refused,
    rw refused,
    rw refused,
  )
    where
      refused : leb 9 index ≡ true
      refused = ground arith

  -- A recall outside 1 to 9 returns false and leaves the object and the bus alone.
  set_preset_refuses :
      (index : ℕ) (s : RidenModbus E) → (index < 1) ⊎ (9 < index) → set_preset index s ≡ fail s
  unfolding set_preset
  set_preset_refuses index s h = ground arith

-- With a power supply that answers in time, a recall of 1 to 9 writes the index to the preset
-- register and nothing else; a recall of any other index is refused and nothing is sent.
set_preset_lem :
    ⦃E : Env⦄ {timeout : ℕ} (d : Answers E timeout) (s : RidenModbus E) (index : ℕ)
    → Ready d 1 s
    → d.writable 19 ≡ true
    → ((1 ≤ index)
        × (index ≤ 9)
        × Does d 1 (set_preset index) s tt (update (d.regs s.bus) 19 index))
      ⊎ (((index < 1) ⊎ (9 < index)) × (set_preset index s ≡ fail s))
unfolding set_preset
set_preset_lem d s index r can = elim in_range [
  | inl (lo, hi) ↦ inl (lo, hi, rw (allowed lo hi) (write_holding_register_lem d 19 index s r can))
  | inr out ↦ inr (out, set_preset_refuses index s out)
]
  where
    in_range : ((1 ≤ index) × (index ≤ 9)) ⊎ ((index < 1) ⊎ (9 < index))
    in_range = omega arith

    allowed : 1 ≤ index → index ≤ 9 → (ltb index 1 || leb 9 (index - 1)) ≡ false
    allowed lo hi = ground arith

module _ ⦃E : Env⦄ {timeout : ℕ} (d : Answers E timeout) (s : RidenModbus E) (r : Ready d 5 s) where
  abbrev pub Recalls : ℕ → Type 0
  Recalls index = Does d 1 (set_preset index) s tt (update (d.regs s.bus) 19 index)

  -- The preset is written to four registers from 80 + 4 * index on, and is read from them.
  abbrev pub Stores : ℕ → Preset E → Type 0
  Stores index p =
      Does d 1 (store_preset index p) s tt
        (updates (d.regs s.bus) (80 + 4 * index) (preset_to_values s p))
      × (result (get_preset index s)
          ≡ some (values_to_preset s (slice (d.regs s.bus) (80 + 4 * index) 4)))

  -- With a power supply that answers in time and stores every register, what an index means to the
  -- operations on presets. From 1 to 8 it is recalled, by writing it to register 19, and a preset is
  -- stored and read at it; 0 is stored and read, but its recall is refused; 9, which is M9, is recalled, but
  -- the ten operations that store and read presets and their parts refuse it; and all refuse any other. An
  -- operation that refuses returns false and leaves the object and the bus alone.
  pub presets_by_index :
      (index : ℕ) (p : Preset E) (x : E.Double)
      → ((i : ℕ) → d.writable i ≡ true)
      → ((1 ≤ index) × (index ≤ 8) × Recalls index × Stores index p)
        ⊎ (((index ≡ 0) × (set_preset index s ≡ fail s) × Stores index p)
            ⊎ (((index ≡ 9) × Recalls index × Refuses index s p x)
                ⊎ ((9 < index) × (set_preset index s ≡ fail s) × Refuses index s p x)))
  presets_by_index index p x can = elim range [
    | inl (lo, hi) ↦ inl (lo, hi, recalls lo (omega arith), stores (omega arith))
    | inr (inl none_set) ↦
        inr (inl (none_set, set_preset_refuses index s (inl (omega arith)), stores (omega arith)))
    | inr (inr (inl last)) ↦ inr (
        inr (
          inl (
            last,
            recalls (omega arith) (omega arith),
            stored_presets_refuse index s p x (omega arith),
          )))
    | inr (inr (inr above)) ↦ inr (
        inr (
          inr (
            above,
            set_preset_refuses index s (inr above),
            stored_presets_refuse index s p x (omega arith),
          )))
  ]
    where
      range : ((1 ≤ index) × (index ≤ 8)) ⊎ ((index ≡ 0) ⊎ ((index ≡ 9) ⊎ (9 < index)))
      range = omega arith

      recalls : 1 ≤ index → index ≤ 9 → Recalls index
      recalls lo hi = elim (set_preset_lem d s index (Ready-le d r (omega arith)) (can 19)) [
        | inl (lo', hi', does) ↦ does
        | inr (inl few, refused) ↦ absurd (omega arith)
        | inr (inr many, refused) ↦ absurd (omega arith)
      ]

      stores : index < 9 → Stores index p
      stores h = (
        store_preset-Does d s r index p h can,
        get_preset-result d s (Ready-le d r (omega arith)) index h,
      )
