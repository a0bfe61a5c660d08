-- ===== src/Scpi/Start/Identified.antt =====
-- The strings by which RidenScpi identifies the instrument once it has begun.
use riden_dongle.Base.{
  ℕ, ◌+◌, ◌*◌, ◌/◌, ◌%◌, ◌^◌, ◌<◌, ◌≤◌, ◌≡◌, refl, ◌∙◌, ap, true, false, List, ◌∷◌, ◌++◌, some,
  length, ltb, length-append, get_or, if◌then◌else◌, arith,
}
use riden_dongle.Base.Memory.{Holds, Holds-updates, Holds-updates_before}
use riden_dongle.Base.Text.{codes}
use riden_dongle.Base.Decimal.{
  decimal, padded, bound, value_from, value-padded, value-digits_of, length-padded,
  length-decimal_2, length-decimal_3, Digits, digits_of-Digits, padded-Digits, padded_at_least,
}
use riden_dongle.Modbus.Env.{Env}
use riden_dongle.Modbus.State.{RidenModbus, return}
use riden_dongle.Modbus.Raw.{read_holding_registers}
use riden_dongle.Modbus.Raw.Device.{Answers, Ready, Does, read_holding_registers_lem}
use riden_dongle.Modbus.Raw.Calls.{Does-bind, Ready-bus, Ready-le}
use riden_dongle.Modbus.Access.Reads.{read_word_lem}
use riden_dongle.Modbus.Readings.{get_serial_number, get_firmware_version}
use riden_dongle.Vxi.Net.{done, overrun}
use riden_dongle.Scpi.Server.{Socket, RidenScpi}
use riden_dongle.Scpi.Start.{
  Identity, Libraries, identify, identity_fits, version_text, asked, start, with_serial,
  with_version, begin,
}

identity_fits_lem :
    (type : List ℕ) (serial_number firmware_version : ℕ)
    → length type ≤ 20
    → serial_number < 1000000000
    → firmware_version < 65536
    → identity_fits type serial_number firmware_version ≡ true
identity_fits_lem type serial_number firmware_version ht hs hv =
    rw (length-append (decimal (firmware_version / 100)) (b'.' ∷ decimal (firmware_version % 100)))
      (ground (
        arith,
        length-padded 8 serial_number hs (omega arith),
        length-decimal_3 (firmware_version / 100) (omega arith),
        length-decimal_3 (firmware_version % 100) (omega arith),
      ))

module _ ⦃E : Env⦄ {timeout : ℕ} (d : Answers E timeout) where
  -- The serial number in two registers.
  abbrev pub serial_of : (ℕ → ℕ) → ℕ
  serial_of regs = (regs 1 * 65536 + regs 2) % 2 ^ 32

  get_serial_number_lem :
      (s : RidenModbus E)
      → Ready d 1 s
      → Does d 1 get_serial_number s (serial_of (d.regs s.bus)) (d.regs s.bus)
  unfolding get_serial_number
  get_serial_number_lem s r =
      Does-bind d 1 (read_holding_registers 1 2)
        (λ value. return ((get_or value 0 0 * 65536 + get_or value 1 0) % 2 ^ 32)) s
        (read_holding_registers_lem d 1 2 s r (omega arith)) (λ w. refl)

  get_firmware_version_lem :
      (s : RidenModbus E)
      → Ready d 1 s
      → Does d 1 get_firmware_version s (d.regs s.bus 3) (d.regs s.bus)
  unfolding get_firmware_version
  get_firmware_version_lem s r = read_word_lem d s r 3

  -- `begin` of RidenScpi the first time, on a driver that is connected to a power supply that answers in
  -- time, whose type has at most 19 characters, whose serial number has at most nine digits and whose
  -- version register is a word: it hands on three strings and returns true. They hold the type; the
  -- serial number of the registers in decimal digits, eight of them at least; and the version
  -- divided by 100 and its remainder, in decimal digits on either side of a point, the remainder without
  -- a zero before it, so that one below 10 has one digit. The registers stay.
  pub begin_identifies :
      {S : Socket} {C : Type 0} (L : Libraries S (RidenModbus E × C)) (i : Identity)
      (s : RidenScpi S (RidenModbus E × C))
      → i.initialized ≡ false
      → Ready d 2 s.device.0
      → length (codes s.device.0.type) ≤ 19
      → i.idn2 (length (codes s.device.0.type)) ≡ 0
      → let regs = d.regs s.device.0.bus in
        serial_of regs < 1000000000
        → regs 3 < 65536
        → (j : Identity) × (w : E.World) × (begin L (i, s)
            ≡ start L j (record s { device = (record s.device.0 { bus = w }, s.device.1) }))
          × Holds j.idn2 0 (codes s.device.0.type)
          × ((digits : List ℕ) × Holds j.idn3 0 digits
              × Digits digits
              × (8 ≤ length digits)
              × (value_from 0 digits ≡ serial_of regs))
          × ((whole : List ℕ) × (rest : List ℕ) × Holds j.idn4 0 (whole ++ b'.' ∷ rest)
              × Digits whole
              × Digits rest
              × (value_from 0 whole ≡ regs 3 / 100)
              × (value_from 0 rest ≡ regs 3 % 100)
              × (length rest ≡ (if ltb (regs 3 % 100) 10 then 1 else 2)))
          × (d.regs w ≡ regs)
  unfolding begin bound
  begin_identifies L i s off r short blank small word =
      let m = s.device.0 in
      let type = codes m.type in
      let regs = d.regs m.bus in
      let serial = serial_of regs in
      let (w₁, run₁, idle₁, same₁, cost₁) = get_serial_number_lem m (Ready-le d r (omega arith)) in
      let m₁ = record m { bus = w₁ } in
      let s₁ = record s { device = (m₁, s.device.1) } in
      let (w₂, run₂, idle₂, same₂, cost₂) =
        get_firmware_version_lem m₁ (Ready-bus d 1 1 m w₁ r idle₁ cost₁) in
      let s₂ = record s { device = (record m { bus = w₂ }, s.device.1) } in
      (
        identify type serial (regs 3) i,
        w₂,
        (λ k.
              if off k
              then done true (i, s)
              else with_serial L type i (asked L (run₁ k) (2 ^ 32) s))
            ∙ (λ k. with_version L type serial i (asked L (run₂ k) (2 ^ 16) s₁))
            ∙ ap (λ g. with_version L type serial i (some (g 3, s₂))) same₁
            ∙ (λ k.
                if identity_fits_lem type serial (regs 3) (omega arith) small word k
                then start L (identify type serial (regs 3) i) s₂
                else overrun),
        Holds-updates_before i.idn2 0 type (ap i.idn2 (omega arith) ∙ blank),
        (
          padded 8 serial,
          Holds-updates i.idn3 0 (padded 8 serial),
          padded-Digits 8 serial,
          padded_at_least 8 serial,
          value-padded 8 serial (omega arith),
        ),
        (
          decimal (regs 3 / 100),
          decimal (regs 3 % 100),
          Holds-updates i.idn4 0 (version_text (regs 3)),
          digits_of-Digits 10 (regs 3 / 100),
          digits_of-Digits 10 (regs 3 % 100),
          value-digits_of 10 (regs 3 / 100) (omega arith),
          value-digits_of 10 (regs 3 % 100) (omega arith),
          length-decimal_2 (regs 3 % 100) (omega arith),
        ),
        same₂ ∙ same₁,
      )
