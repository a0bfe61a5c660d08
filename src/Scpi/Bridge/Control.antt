-- ===== src/Scpi/Bridge/Control.antt =====
-- Who has the parser: the VXI-11 server over the raw socket.
use riden_dongle.Base.{ℕ, ◌≡◌, refl, true, false}
use riden_dongle.Vxi.Net.{Net, done, Act}
use riden_dongle.Vxi.Server.{VxiServer}
use riden_dongle.Vxi.Server.Loop.{begin_next-scpi}
use riden_dongle.Vxi.Server as Vxi
use riden_dongle.Scpi.Server.{Socket, RidenScpi, loop}
use riden_dongle.Scpi.Bridge.{scpi_handler}

module _ {N : Net} {S : Socket} {D : Type 0} (scpi_input : RidenScpi S D → RidenScpi S D) where
  -- When the client of a VXI-11 link that has claimed control is lost, the round of the VXI-11 loop
  -- leaves control claimed, and the next round of the raw socket's loop stops its client and
  -- serves nobody.
  pub lost_link_blocks :
      (polls : ℕ) (v : VxiServer N (scpi_handler S D scpi_input))
      (parse : Act (RidenScpi S D) (Unit {0}))
      → N.client v.connection.world ≡ true
      → N.connected v.connection.world ≡ false
      → v.scpi.external_control ≡ true
      → S.client v.scpi.world ≡ true
      → (t : VxiServer N (scpi_handler S D scpi_input)) × (Vxi.loop polls v ≡ done tt t)
        × (t.scpi.external_control ≡ true)
        × (loop parse t.scpi ≡ done tt (record t.scpi { world = S.stop t.scpi.world }))
  unfolding Vxi.loop loop
  lost_link_blocks polls v parse client lost control raw =
      let kept = begin_next-scpi v in
      (Vxi.begin_next v, rw (client, lost) refl, rw kept control, rw kept (rw (control, raw) refl))
