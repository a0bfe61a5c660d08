-- ===== src/Http/Saved.antt =====
-- Settings that are posted, and what a restart finds of them.
use riden_dongle.Base.{◌%◌, ◌^◌, ◌≤◌, ◌≡◌, true, length, arith}
use riden_dongle.Modbus.Env.{Env}
use riden_dongle.Vxi.Net.{done, waiting, overrun, return, bind-done, bind-overrun}
use riden_dongle.Config.{RidenConfig, c_str, commit, begin}
use riden_dongle.Config.Image.{commit_overrun}
use riden_dongle.Config.Loading.{Keeps, with_settings}
use riden_dongle.Config.Restart.{commit-begin}
use riden_dongle.Http.Board.{Board, Dongle, Request}
use riden_dongle.Http.Settings.{posted, on_config, send_redirect_self, handle_config_post}

module _ ⦃E : Env⦄ {B : Board E} where
  -- With an EEPROM that keeps what it has committed: where saving the posted settings succeeds,
  -- `handle_config_post` returns with the redirection and the settings in force, and `begin` at a restart
  -- has the time zone of the request as C reads it, its baud rate modulo 2^32, and the portal flag as it
  -- was.
  pub config_post_restart :
      (k : Keeps B.eeprom) (request : Request) (s : Dongle E B) (c u : RidenConfig B.eeprom)
      → commit (posted B.platform request s.config) ≡ done true c
      → u.world ≡ c.world
      → (handle_config_post request s
          ≡ done (send_redirect_self request.uri) (record s { config = c }))
        × (begin u
            ≡ done true (
                with_settings
                  (c_str (request.arg "timezone"))
                  s.config.config_portal_on_boot
                  (B.platform.strtoull (request.arg "uart_baudrate") % 2 ^ 32)
                  (record u { world = B.eeprom.begin 512 c.world })))
  unfolding handle_config_post
  config_post_restart k request s c u saved restart =
      let t = record s { config = posted B.platform request s.config } in
      (
        bind-done (on_config commit) (λ success. return (send_redirect_self request.uri)) t
            (λ i. elim (saved i) [
              | done a x ↦ done a (record t { config = x })
              | waiting ↦ waiting
              | overrun ↦ overrun
            ]),
        commit-begin k (posted B.platform request s.config) c u (omega arith) saved restart,
      )

  -- A posted time zone of 100 bytes or more is copied beyond the end of its array.
  pub config_post_overrun :
      (request : Request) (s : Dongle E B)
      → 100 ≤ length (c_str (request.arg "timezone"))
      → handle_config_post request s ≡ overrun
  unfolding handle_config_post
  config_post_overrun request s long =
      let t = record s { config = posted B.platform request s.config } in
      bind-overrun (on_config commit) (λ success. return (send_redirect_self request.uri)) t
        (λ i. elim (commit_overrun (posted B.platform request s.config) long i) [
          | done a x ↦ done a (record t { config = x })
          | waiting ↦ waiting
          | overrun ↦ overrun
        ])
