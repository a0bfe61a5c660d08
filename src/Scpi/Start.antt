-- ===== src/Scpi/Start.antt =====
-- `begin` of RidenScpi (src/riden_scpi/riden_scpi.cpp): the strings that identify the instrument, and
-- the start of the parser and of the socket.
pub mod Identified
use riden_dongle.Base.{
  ℕ, ◌+◌, ◌/◌, ◌%◌, ◌^◌, Bool, true, false, ◌&&◌, List, [], ◌∷◌, ◌++◌, Option, none, some, length,
  leb, if◌then◌else◌,
}
use riden_dongle.Base.Memory.{updates}
use riden_dongle.Base.Text.{codes}
use riden_dongle.Base.Decimal.{decimal, padded}
use riden_dongle.Modbus.Env.{Env}
use riden_dongle.Modbus.State.{RidenModbus, Outcome, ok, fail, hung}
use riden_dongle.Modbus.Begin.{get_type}
use riden_dongle.Modbus.Readings.{get_serial_number, get_firmware_version}
use riden_dongle.Vxi.Net.{Run, done, waiting, overrun, Act}
use riden_dongle.Scpi.Server.{Socket, RidenScpi}

-- The members of RidenScpi that `begin` alone uses: `idn2` has 20 bytes, `idn3` and `idn4` have 10.
pub record Identity : Type 0 where
  pub initialized : Bool
  pub idn2 : ℕ → ℕ
  pub idn3 : ℕ → ℕ
  pub idn4 : ℕ → ℕ

-- As they are constructed.
abbrev pub blank_identity : Identity
blank_identity = record { initialized = false; idn2 = λ i. 0; idn3 = λ i. 0; idn4 = λ i. 0 }

-- `SCPI_Init`, which is given the three strings, the start of the listening socket, and what local
-- variables hold.
pub record Libraries (S : Socket) (D : Type 0) : Type 0 where
  pub scpi_init : (ℕ → ℕ) → (ℕ → ℕ) → (ℕ → ℕ) → RidenScpi S D → RidenScpi S D
  pub begin_server : S.World → S.World
  pub stack : S.World → ℕ

-- What `%u.%u` prints of a version.
abbrev pub version_text : ℕ → List ℕ
version_text firmware_version =
    decimal (firmware_version / 100) ++ b'.' ∷ decimal (firmware_version % 100)

-- `memcpy(idn2, type.c_str(), type.length())`, then `sprintf` into `idn3` and `idn4`.
abbrev pub identify : List ℕ → ℕ → ℕ → Identity → Identity
identify type serial_number firmware_version s = record s {
  idn2 = updates s.idn2 0 type;
  idn3 = updates s.idn3 0 (padded 8 serial_number ++ 0 ∷ []);
  idn4 = updates s.idn4 0 (version_text firmware_version ++ 0 ∷ []);
}

-- Whether the three stay within their arrays.
abbrev pub identity_fits : List ℕ → ℕ → ℕ → Bool
identity_fits type serial_number firmware_version =
    leb (length type) 20
    && leb (length (padded 8 serial_number)) 9
    && leb (length (version_text firmware_version)) 9

module _ ⦃E : Env⦄ {S : Socket} {C : Type 0} (L : Libraries S (RidenModbus E × C)) where
  abbrev pub State : Type 0
  State = Identity × RidenScpi S (RidenModbus E × C)

  -- A word that the driver reports, or what the local variable holds where it fails.
  abbrev pub asked :
      Outcome (RidenModbus E) ℕ
      → ℕ
      → RidenScpi S (RidenModbus E × C)
      → Option (ℕ × RidenScpi S (RidenModbus E × C))
  asked (ok n t) limit s = some (n, record s { device = (t, s.device.1) })
  asked (fail t) limit s = some (L.stack s.world % limit, record s { device = (t, s.device.1) })
  asked hung limit s = none

  abbrev pub start : Identity → RidenScpi S (RidenModbus E × C) → Run State Bool
  start i s =
      let t = L.scpi_init i.idn2 i.idn3 i.idn4 s in
      done true (record i { initialized = true }, record t { world = L.begin_server t.world })

  abbrev pub with_version :
      List ℕ → ℕ → Identity → Option (ℕ × RidenScpi S (RidenModbus E × C)) → Run State Bool
  with_version type serial_number i none = waiting
  with_version type serial_number i (some (firmware_version, s)) =
      if identity_fits type serial_number firmware_version
      then start (identify type serial_number firmware_version i) s
      else overrun

  abbrev pub with_serial :
      List ℕ → Identity → Option (ℕ × RidenScpi S (RidenModbus E × C)) → Run State Bool
  with_serial type i none = waiting
  with_serial type i (some (serial_number, s)) =
      with_version type serial_number i (asked (get_firmware_version s.device.0) (2 ^ 16) s)

  unfoldable pub begin : Act State Bool
  begin (i, s) =
      let type = codes (get_type s.device.0) in
      let started = with_serial type i (asked (get_serial_number s.device.0) (2 ^ 32) s) in
      if i.initialized then done true (i, s) else started
