-- ===== src/Scpi/Bridge.antt =====
-- The class SCPI_handler of src/scpi_bridge/scpi_bridge.h: RidenScpi as the SCPI handler of the VXI-11
-- server, with a parser whose `SCPI_Input` runs the commands in the input buffer to their end.
pub mod Control
use riden_dongle.Base.{ℕ, Bool, List, [], Option, none, some}
use riden_dongle.Vxi.Net.{Handler, Run, done, waiting, overrun, Act}
use riden_dongle.Scpi.Server.{
  Socket, RidenScpi, claim_external_control, release_external_control, read, write,
}

module _ (S : Socket) (D : Type 0) (scpi_input : RidenScpi S D → RidenScpi S D) where
  -- With such a parser a write always ends, so that the last two cases do not arise.
  abbrev pub after_write : RidenScpi S D → Run (RidenScpi S D) (Unit {0}) → RidenScpi S D
  after_write s (done a t) = t
  after_write s waiting = s
  after_write s overrun = s

  -- What `read` stores; an error leaves the length that the caller has set, 0.
  abbrev pub bytes_of : Option (List ℕ) × RidenScpi S D → List ℕ × RidenScpi S D
  bytes_of (none, t) = ([], t)
  bytes_of (some bytes, t) = (bytes, t)

  abbrev pub scpi_handler : Handler
  scpi_handler = record {
    State = RidenScpi S D;
    write = λ bytes s. after_write s (write (λ t. done tt (scpi_input t)) bytes s);
    read = λ max_len s. bytes_of (read max_len s);
    claim_control = claim_external_control;
    release_control = release_external_control;
  }
