-- ===== src/Main/Network.antt =====
-- What the web server saves and `connect_wifi` finds after a restart.
use riden_dongle.Base.{
  ℕ, ◌%◌, ◌^◌, ◌<◌, [], ◌∷◌, ◌≡◌, refl, ◌∙◌, ap, Bool, true, false, Option, some, if◌then◌else◌,
}
use riden_dongle.Base.Text.{codes, same}
use riden_dongle.Modbus.Env.{Env}
use riden_dongle.Vxi.Net.{done, waiting, overrun, ◌>>◌, modify, return, bind-done}
use riden_dongle.Config.{
  RidenConfig, c_str, commit, begin, set_config_portal_on_boot, get_and_reset_config_portal_on_boot,
}
use riden_dongle.Config.Loading.{Keeps, with_settings, not_reset}
use riden_dongle.Config.Restart.{portal_once}
use riden_dongle.Config.Timezones.{get_timezone, get_timezone_spec}
use riden_dongle.Config.Timezones.Zone.{Timezone}
use riden_dongle.Config.Timezones.Lookup.{c_str-timezone, get_timezone_spec-timezone}
use riden_dongle.Http.Output.{Text, static, html_rebooting_dongle_body, page}
use riden_dongle.Http.Board.{Board, Dongle, Request, on_platform}
use riden_dongle.Http.Settings.{
  posted, on_config, send_redirect_self, handle_config_post, portal_body, rebooted,
  reboot_to_portal, handle_reboot_dongle_get,
}
use riden_dongle.Http.Saved.{config_post_restart}
use riden_dongle.Main.{Machine}
use riden_dongle.Main.Wifi.{manage, ask_time, announce, start_services, join, connect_wifi}

module _ ⦃E : Env⦄ {B : Board E} (M : Machine E B) where
  open E use {Double}

  -- The services on a network with mDNS, where the settings name a time zone.
  services_lem :
      (hostname : Text Double) (s : Dongle E B) (tz : _) (w : B.platform.World)
      → M.mdns_begin hostname (M.keep_alive s.platform) ≡ (true, w)
      → get_timezone_spec s.config ≡ tz
      → start_services M (some hostname) s
        ≡ done true (record s { platform = M.ota_begin (some hostname) (ask_time M tz w) })
  services_lem hostname s tz w named spec =
      bind-done (announce M (some hostname))
        (λ _. modify (on_platform (M.ota_begin (some hostname))) >> return true)
        (on_platform M.keep_alive s)
        (λ i.
          if (named i).0
          then done tt (record s { platform = ask_time M (spec i) (named i).1 })
          else waiting)

  -- `connect_wifi` goes by what the settings say.
  portal_lem :
      (hostname : Option (Text Double)) (s : Dongle E B) (force : Bool) (c : RidenConfig B.eeprom)
      → get_and_reset_config_portal_on_boot s.config ≡ done force c
      → connect_wifi M hostname s ≡ join M force hostname (record s { config = c })
  unfolding connect_wifi
  portal_lem hostname s force c on =
      bind-done (on_config get_and_reset_config_portal_on_boot) (λ force. join M force hostname) s
        (λ i. elim (on i) [
          | done a t ↦ done a (record s { config = t })
          | waiting ↦ waiting
          | overrun ↦ overrun
        ])

  -- `connect_wifi` where the portal is not asked for and the network is found.
  connect_lem :
      (hostname : Text Double) (s : Dongle E B) (tz : _) (w₁ w₂ : B.platform.World)
      → s.config.config_portal_on_boot ≡ false
      → M.auto_connect (some hostname) s.platform ≡ (true, w₁)
      → M.mdns_begin hostname (M.keep_alive w₁) ≡ (true, w₂)
      → get_timezone_spec s.config ≡ tz
      → connect_wifi M (some hostname) s
        ≡ done true (record s { platform = M.ota_begin (some hostname) (ask_time M tz w₂) })
  connect_lem hostname s tz w₁ w₂ off joined named spec =
      portal_lem (some hostname) s false s.config (not_reset s.config off)
      ∙ bind-done (manage M false (some hostname))
          (λ connected. if connected then start_services M (some hostname) else return false) s
          (λ i. done (joined i).0 (record s { platform = (joined i).1 }))
      ∙ services_lem hostname (record s { platform = w₁ }) tz w₂ named spec

  -- The posted time zone of an entry of the table, saved by `handle_config_post` on an EEPROM that keeps
  -- what it has committed, with no portal asked for: `begin` at a restart has that time zone, and where
  -- the network is joined and mDNS starts, `connect_wifi` returns true and has asked for the time with
  -- the specification of that entry, unless it is empty.
  pub chosen_zone :
      (k : Keeps B.eeprom) (request : Request) (s t : Dongle E B) (c u : RidenConfig B.eeprom)
      (i : ℕ) (z : Timezone) (hostname : Text Double) (w₁ w₂ : B.platform.World)
      → get_timezone i ≡ some z
      → request.arg "timezone" ≡ codes z.name
      → s.config.config_portal_on_boot ≡ false
      → commit (posted B.platform request s.config) ≡ done true c
      → u.world ≡ c.world
      → M.auto_connect (some hostname) t.platform ≡ (true, w₁)
      → M.mdns_begin hostname (M.keep_alive w₁) ≡ (true, w₂)
      → let found =
          with_settings
            (codes z.name)
            false
            (B.platform.strtoull (request.arg "uart_baudrate") % 2 ^ 32)
            (record u { world = B.eeprom.begin 512 c.world }) in
        (handle_config_post request s
          ≡ done (send_redirect_self request.uri) (record s { config = c }))
        × (begin u ≡ done true found)
        × (connect_wifi M (some hostname) (record t { config = found })
            ≡ done true (record t {
              config = found;
              platform = M.ota_begin (some hostname) (ask_time M z.tz w₂);
            }))
  chosen_zone k request s t c u i z hostname w₁ w₂ entry chosen off saved restart joined named =
      let found =
        with_settings (codes z.name) false
          (B.platform.strtoull (request.arg "uart_baudrate") % 2 ^ 32)
          (record u { world = B.eeprom.begin 512 c.world }) in
      let (posts, loads) = config_post_restart k request s c u saved restart in
      (
        posts,
        loads ∙ (λ j. done true (
            with_settings ((ap c_str chosen ∙ c_str-timezone i z entry) j) (off j)
              (B.platform.strtoull (request.arg "uart_baudrate") % 2 ^ 32)
              (record u { world = B.eeprom.begin 512 c.world }))),
        connect_lem hostname (record t { config = found }) z.tz w₁ w₂ refl joined named
            (get_timezone_spec-timezone found i z entry refl),
      )

  reboot_lem :
      (request : Request) (s : Dongle E B) (c : RidenConfig B.eeprom)
      → request.arg "config_portal" ≡ codes "true"
      → commit (set_config_portal_on_boot s.config) ≡ done true c
      → handle_reboot_dongle_get request s
        ≡ done (page (portal_body (record s { config = c }))) (rebooted (record s { config = c }))
  unfolding handle_reboot_dongle_get
  reboot_lem request s c asked saved =
      (λ i.
        if same (asked i) (codes "true")
        then reboot_to_portal s
        else done (page (static html_rebooting_dongle_body ∷ [])) (rebooted s))
      ∙ bind-done (on_config commit) (λ success. λ t. done (page (portal_body t)) (rebooted t))
          (record s { config = set_config_portal_on_boot s.config })
          (λ i. elim (saved i) [
            | done a t ↦ done a (record s { config = t })
            | waiting ↦ waiting
            | overrun ↦ overrun
          ])

  -- A reboot into the configuration portal, on an EEPROM that keeps what it has committed and with a baud
  -- rate of 32 bits: where `handle_reboot_dongle_get` saves the request, `begin` finds it at the restart
  -- and `connect_wifi` starts the portal, with the request taken back in the settings; where that is
  -- saved too, `connect_wifi` joins the known network at the next restart.
  pub portal_restart :
      (k : Keeps B.eeprom) (request : Request) (hostname : Option (Text Double))
      (s t t' : Dongle E B) (c u v x : RidenConfig B.eeprom)
      → request.arg "config_portal" ≡ codes "true"
      → s.config.uart_baudrate < 2 ^ 32
      → commit (set_config_portal_on_boot s.config) ≡ done true c
      → u.world ≡ c.world
      → let found =
          with_settings
            (c_str s.config.tz_name)
            true
            s.config.uart_baudrate
            (record u { world = B.eeprom.begin 512 c.world }) in
        commit (record found { config_portal_on_boot = false }) ≡ done true v
        → x.world ≡ v.world
        → let later =
            with_settings
              (c_str (c_str s.config.tz_name))
              false
              s.config.uart_baudrate
              (record x { world = B.eeprom.begin 512 v.world }) in
          (handle_reboot_dongle_get request s
            ≡ done
                (page (portal_body (record s { config = c })))
                (rebooted (record s { config = c })))
          × (begin u ≡ done true found)
          × (connect_wifi M hostname (record t { config = found })
              ≡ join M true hostname (record t { config = v }))
          × (begin x ≡ done true later)
          × (connect_wifi M hostname (record t' { config = later })
              ≡ join M false hostname (record t' { config = later }))
  portal_restart k request hostname s t t' c u v x asked small saved restart reset again =
      let (loads, opens, reloads, stays) =
        portal_once k (set_config_portal_on_boot s.config) c u v x small refl saved restart reset
          again in
      (
        reboot_lem request s c asked saved,
        loads,
        portal_lem hostname (record t { config = _ }) true v opens,
        reloads,
        portal_lem hostname (record t' { config = _ }) false _ stays,
      )
