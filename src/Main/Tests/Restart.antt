-- ===== src/Main/Tests/Restart.antt =====
-- Restarts after the settings have been saved.
use riden_dongle.Base.{◌≡◌, refl, true, false, some, none, arith}
use riden_dongle.Base.Text.{codes}
use riden_dongle.Modbus.Tests.Bench.{bench}
use riden_dongle.Vxi.Net.{done}
use riden_dongle.Config.{RidenConfig, commit, begin, set_config_portal_on_boot}
use riden_dongle.Config.Loading.{with_settings}
use riden_dongle.Config.Timezones.{timezones, get_timezone}
use riden_dongle.Config.Timezones.Africa.{africa}
use riden_dongle.Config.Timezones.America.{america}
use riden_dongle.Config.Timezones.Asia.{asia}
use riden_dongle.Config.Timezones.Europe.{europe}
use riden_dongle.Config.Timezones.Oceans.{oceans}
use riden_dongle.Config.Timezones.Zone.{zone}
use riden_dongle.Config.Tests.{chip, chip-Keeps, saved_chip}
use riden_dongle.Http.Output.{lit, page}
use riden_dongle.Http.Board.{Request}
use riden_dongle.Http.Settings.{
  posted, send_redirect_self, handle_config_post, portal_body, rebooted, handle_reboot_dongle_get,
}
use riden_dongle.Http.Tests.{bench_platform, tokyo}
use riden_dongle.Main.Wifi.{join, connect_wifi}
use riden_dongle.Main.Network.{chosen_zone, portal_restart}
use riden_dongle.Main.Tests.{machine, plain}

abbrev zoned : RidenConfig chip
zoned = saved_chip (posted bench_platform tokyo plain.config)

zoned-commit : commit (posted bench_platform tokyo plain.config) ≡ done true zoned
unfolding commit
zoned-commit = refl

tokyo-timezone : get_timezone 285 ≡ some (zone "Asia/Tokyo" "JST-9")
unfolding timezones africa america asia europe oceans
tokyo-timezone = refl

chosen_zone_example :
    let found =
      with_settings
        (codes "Asia/Tokyo")
        false
        115200
        (record zoned { world = chip.begin 512 zoned.world }) in
    (handle_config_post tokyo plain
      ≡ done (send_redirect_self (codes "/config/")) (record plain { config = zoned }))
    × (begin zoned ≡ done true found)
    × (connect_wifi machine (some (lit "RD6006-00000001")) (record plain { config = found })
        ≡ done true
            (record plain { config = found; platform = record { was_reset = false; waited = 1 } }))
chosen_zone_example =
    chosen_zone machine chip-Keeps tokyo plain plain zoned zoned 285 (zone "Asia/Tokyo" "JST-9")
      (lit "RD6006-00000001") plain.platform plain.platform tokyo-timezone refl refl zoned-commit
      refl refl refl

-- The request for the portal.
abbrev portal_request : Request
portal_request = record { arg = λ name. codes "true"; uri = codes "/reboot/dongle/" }

abbrev asked : RidenConfig chip
asked = saved_chip (set_config_portal_on_boot plain.config)

asked-commit : commit (set_config_portal_on_boot plain.config) ≡ done true asked
unfolding commit
asked-commit = refl

abbrev found : RidenConfig chip
found =
    with_settings (codes "Etc/UTC") true 115200
      (record asked { world = chip.begin 512 asked.world })

abbrev opened : RidenConfig chip
opened = saved_chip (record found { config_portal_on_boot = false })

opened-commit : commit (record found { config_portal_on_boot = false }) ≡ done true opened
unfolding commit
opened-commit = refl

abbrev later : RidenConfig chip
later =
    with_settings (codes "Etc/UTC") false 115200
      (record opened { world = chip.begin 512 opened.world })

portal_restart_example :
    (handle_reboot_dongle_get portal_request plain
      ≡ done
          (page (portal_body (record plain { config = asked })))
          (rebooted (record plain { config = asked })))
    × (begin asked ≡ done true found)
    × (connect_wifi machine none (record plain { config = found })
        ≡ join machine true none (record plain { config = opened }))
    × (begin opened ≡ done true later)
    × (connect_wifi machine none (record plain { config = later })
        ≡ join machine false none (record plain { config = later }))
portal_restart_example =
    portal_restart machine chip-Keeps portal_request none plain plain plain asked asked opened
      opened refl (omega arith) asked-commit refl opened-commit refl
