-- ===== src/Main/Offline.antt =====
-- A station that has found no power supply: what is not started and not served.
use riden_dongle.Base.{◌≡◌, false}
use riden_dongle.Modbus.Env.{Env}
use riden_dongle.Vxi.Bind.{BindServer}
use riden_dongle.Scpi.Start.{Identity}
use riden_dongle.Config.{begin as config_begin}
use riden_dongle.Http.Board.{Board}
use riden_dongle.Main.{Machine, Station}

module _ ⦃E : Env⦄ {B : Board E} {M : Machine E B} where
  -- RidenScpi and the port mapper as they were.
  abbrev Same : Identity → BindServer B.net M.udp → Station E B M → Type 0
  Same i b s = (s.identity ≡ i) × (s.rpc_bind_server ≡ b)

  abbrev Unserved : Identity → BindServer B.net M.udp → Station E B M → Type 0
  Unserved i b s = (s.connected ≡ false) × Same i b s

  -- Only a station that ends connected has started its servers.
  abbrev Started : Identity → BindServer B.net M.udp → Station E B M → Type 0
  Started i b s = s.connected ≡ false → Same i b s
