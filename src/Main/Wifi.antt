-- ===== src/Main/Wifi.antt =====
-- `connect_wifi` of src/main.cpp: the configuration portal, the time and the services of the network.
use riden_dongle.Base.{Bool, true, false, String, Option, none, some, if◌then◌else◌}
use text.Mathlib.Text.{◌==◌}
use riden_dongle.Modbus.Env.{Env}
use riden_dongle.Vxi.Net.{done, waiting, Act, ◌>>=◌, ◌>>◌, modify, return}
use riden_dongle.Config.{get_and_reset_config_portal_on_boot}
use riden_dongle.Config.Timezones.{get_timezone_spec}
use riden_dongle.Http.Output.{Text}
use riden_dongle.Http.Board.{Board, Dongle, on_platform}
use riden_dongle.Http.Settings.{on_config}
use riden_dongle.Main.{Machine}

module _ ⦃E : Env⦄ {B : Board E} (M : Machine E B) where
  open E use {Double}

  abbrev pub manage : Bool → Option (Text Double) → Act (Dongle E B) Bool
  manage force hostname s =
      let (connected, w) =
        if force
        then M.start_config_portal hostname s.platform
        else M.auto_connect hostname s.platform in
      done connected (record s { platform = w })

  -- The time from the network, where the time zone has a specification.
  abbrev pub ask_time : String → B.platform.World → B.platform.World
  ask_time tz w = if tz == "" then w else M.config_time tz w

  -- Without mDNS it waits for ever.
  abbrev pub announce : Option (Text Double) → Act (Dongle E B) (Unit {0})
  announce none s = done tt s
  announce (some hostname) s =
      let (started, w) = M.mdns_begin hostname s.platform in
      if started
      then done tt (record s { platform = ask_time (get_timezone_spec s.config) w })
      else waiting

  abbrev pub start_services : Option (Text Double) → Act (Dongle E B) Bool
  start_services hostname = do
    modify (on_platform M.keep_alive)
    announce hostname
    modify (on_platform (M.ota_begin hostname))
    return true

  -- The portal, or the network that is known, and the services on it.
  abbrev pub join : Bool → Option (Text Double) → Act (Dongle E B) Bool
  join force hostname = do
    wifi_connected ← manage force hostname
    (if wifi_connected then start_services hostname else return false)

  unfoldable pub connect_wifi : Option (Text Double) → Act (Dongle E B) Bool
  connect_wifi hostname = do
    force ← on_config get_and_reset_config_portal_on_boot
    join force hostname
