-- ===== src/Scpi/Table/Untouched.antt =====
-- What each query of RidenScpi does to the registers: nothing.
use riden_dongle.Base.{
  ℕ, ◌≤◌, ◌%◌, ◌≡◌, refl, ◌∙◌, ap, sym, Bool, true, false, List, Option, none, some, ℤ, pos, arith,
  if◌then◌else◌,
}
use mathlib.Core.Path.{subst}
use riden_dongle.Modbus.Env.{Env}
use riden_dongle.Modbus.State.{RidenModbus, ok, M, ◌>>=◌, bind-ok, return}
use riden_dongle.Modbus.Values.{
  values_to_tm, values_to_temperature, values_to_power, value_to_protection, value_to_output_mode,
}
use riden_dongle.Modbus.Raw.{read_holding_registers}
use riden_dongle.Modbus.Raw.Device.{Answers, Ready, Does, read_holding_registers_lem}
use riden_dongle.Modbus.Access.{
  read_word, read_voltage, read_current, read_power, read_boolean, with_self,
}
use riden_dongle.Modbus.Access.Reads.{read_word_lem}
use riden_dongle.Modbus.Readings.{
  get_system_temperature_celsius, get_probe_temperature_celsius, get_protection, get_output_mode,
}
use riden_dongle.Modbus.Settings.{get_clock, get_language, get_brightness}
use riden_dongle.Scpi.Parser.{Parser, Reply, res_ok, res_err, stuck, query, report}
use riden_dongle.Scpi.Commands.{
  eq_int, result_choice, language_options, temperature_options, report_mode, measure_choice,
  temperature_choice, display_brightness_q, display_language_q, output_mode_q,
  measure_temperature_q,
}

module _ ⦃E : Env⦄ {timeout : ℕ} (d : Answers E timeout) (s : RidenModbus E) (r : Ready d 1 s) where
  -- A call that returns true and leaves the registers.
  abbrev Reads {ℓ} : {A : Type ℓ} → M E A → Type ℓ
  Reads {A = A} m = (v : A) × (t : RidenModbus E) × (m s ≡ ok v t) × (d.regs t.bus ≡ d.regs s.bus)

  Reads-bind {ℓ κ} :
      {A : Type ℓ} {B : Type κ} (m : M E A) (f : A → M E B) {v : A}
      → Does d 1 m s v (d.regs s.bus)
      → ((t : RidenModbus E) → (b : B) × (f v t ≡ ok b t))
      → Reads (m >>= f)
  Reads-bind m f {v} (w, run, idle, same, cost) k =
      let (b, e) = k (record s { bus = w }) in
      (b, record s { bus = w }, bind-ok m f s run ∙ e, same)

  Reads-word {ℓ} :
      {A : Type ℓ} (a : ℕ) (f : ℕ → M E A)
      → ((v : ℕ) (t : RidenModbus E) → (b : A) × (f v t ≡ ok b t))
      → Reads (read_word a >>= f)
  Reads-word a f k = Reads-bind (read_word a) f (read_word_lem d s r a) (k _)

  Reads-block {ℓ} :
      {A : Type ℓ} (a n : ℕ) (f : List ℕ → M E A)
      → n ≤ 20
      → ((v : List ℕ) (t : RidenModbus E) → (b : A) × (f v t ≡ ok b t))
      → Reads (read_holding_registers a n >>= f)
  Reads-block a n f le k =
      Reads-bind (read_holding_registers a n) f (read_holding_registers_lem d a n s r le) (k _)

  Reads-just : (a : ℕ) → Reads (read_word a)
  Reads-just a =
      let (w, run, idle, same, cost) = read_word_lem d s r a in (_, record s { bus = w }, run, same)

  module _ (P : Parser E) where
    -- A command that ends, and leaves the registers as they were.
    abbrev pub Untouched : Reply E P → Type 0
    Untouched (res_ok t c) = d.regs t.bus ≡ d.regs s.bus
    Untouched (res_err t c) = d.regs t.bus ≡ d.regs s.bus
    Untouched stuck = ⊥

    pub query-Untouched {ℓ} :
        {A : Type ℓ} (m : M E A) (f : A → P.Context → P.Context) (c : P.Context)
        → Reads m
        → Untouched (query P m f s c)
    query-Untouched m f c (v, t, run, same) = subst Untouched (sym (ap (report P f c) run)) same

    pub mode-Untouched : (c : P.Context) → Untouched (output_mode_q P s c)
    unfolding output_mode_q get_output_mode
    mode-Untouched c =
        let (v, t, run, same) =
          Reads-word 17 (λ v. return (value_to_output_mode v)) (λ v t. (_, refl)) in
        subst Untouched (sym (ap (report_mode P c) run)) same

    pub celsius-Untouched : (choice : ℤ) (c : P.Context) → Untouched (measure_choice P choice s c)
    unfolding get_system_temperature_celsius get_probe_temperature_celsius
    celsius-Untouched choice c = go (eq_int choice (pos 0))
      where
        go :
            (b : Bool)
            → Untouched (
                (if b
                    then query P get_system_temperature_celsius P.result_double
                    else query P get_probe_temperature_celsius P.result_double)
                  s c)
        go true = query-Untouched get_system_temperature_celsius P.result_double c (
            Reads-block 4 2 (λ v. return (values_to_temperature v)) (omega arith)
              (λ v t. (_, refl)))
        go false = query-Untouched get_probe_temperature_celsius P.result_double c (
            Reads-block 34 2 (λ v. return (values_to_temperature v)) (omega arith)
              (λ v t. (_, refl)))

    pub temperature-Untouched : (c : P.Context) → Untouched (measure_temperature_q P s c)
    unfolding measure_temperature_q
    temperature-Untouched c = go (P.param_choice temperature_options c)
      where
        go : (o : Option ℤ × P.Context) → Untouched (temperature_choice P s o)
        go (none, c) = refl
        go (some choice, c) = celsius-Untouched choice c

    pub boolean-Untouched :
        (a : ℕ) (c : P.Context) → Untouched (query P (read_boolean a) P.result_bool s c)
    unfolding read_boolean
    boolean-Untouched a c =
        query-Untouched (read_boolean a) P.result_bool c (Reads-word a _ (λ v t. (_, refl)))

    pub voltage-Untouched :
        (a : ℕ) (c : P.Context) → Untouched (query P (read_voltage a) P.result_double s c)
    unfolding read_voltage
    voltage-Untouched a c =
        query-Untouched (read_voltage a) P.result_double c (Reads-word a _ (λ v t. (_, refl)))

    pub current-Untouched :
        (a : ℕ) (c : P.Context) → Untouched (query P (read_current a) P.result_double s c)
    unfolding read_current
    current-Untouched a c =
        query-Untouched (read_current a) P.result_double c (Reads-word a _ (λ v t. (_, refl)))

    pub power-Untouched :
        (a : ℕ) (c : P.Context) → Untouched (query P (read_power a) P.result_double s c)
    unfolding read_power
    power-Untouched a c = query-Untouched (read_power a) P.result_double c (
        Reads-block a 2 (λ v. with_self (λ t. values_to_power t v)) (omega arith)
          (λ v t. (_, refl)))

    pub protection-Untouched :
        (f : _ → P.Context → P.Context) (c : P.Context) → Untouched (query P get_protection f s c)
    unfolding get_protection
    protection-Untouched f c =
        query-Untouched get_protection f c
          (Reads-word 16 (λ v. return (value_to_protection v)) (λ v t. (_, refl)))

    pub clock-Untouched :
        (f : _ → P.Context → P.Context) (c : P.Context) → Untouched (query P get_clock f s c)
    unfolding get_clock
    clock-Untouched f c =
        query-Untouched get_clock f c
          (Reads-block 48 6 (λ v. return (values_to_tm v)) (omega arith) (λ v t. (_, refl)))

    pub word-Untouched :
        (c : P.Context)
        → Untouched (display_brightness_q P s c) × Untouched (display_language_q P s c)
    unfolding display_brightness_q display_language_q get_brightness get_language
    word-Untouched c = (
      query-Untouched get_brightness P.result_uint8 c
          (Reads-word 72 (λ v. return (v % 256)) (λ v t. (_, refl))),
      query-Untouched get_language (λ language. result_choice P language_options (pos language)) c
          (Reads-just 71),
    )
