-- ===== src/Http/Services.antt =====
-- The remaining requests: the details of the supply, the firmware update, identification and speed.
use riden_dongle.Base.{
  ℕ, zero, suc, ◌+◌, ◌-◌, ◌*◌, ◌/◌, ◌%◌, ◌^◌, Bool, true, false, String, List, [], ◌∷◌, ◌++◌,
  Option, none, some, leb, if◌then◌else◌,
}
use riden_dongle.Modbus.Env.{Env}
use riden_dongle.Modbus.Begin.{is_connected, get_type}
use riden_dongle.Modbus.Readings.{get_voltage_set}
use riden_dongle.Modbus.AllValues.{AllValues, Details, get_all_values}
use riden_dongle.Vxi.Net.{done, overrun, Act, ◌>>=◌}
use riden_dongle.Http.Output.{
  Text, lit, bytes, static, fixed, html_header, html_footer, html_no_connection_body,
  html_control_body, html_dongle_update_1, html_dongle_update_2, html_rebooting_dongle_update_body,
  Sent, send, content_length_unknown, contents, page,
}
use riden_dongle.Http.Board.{Platform, Board, Dongle, modbus, call, on_platform}
use riden_dongle.Http.Details.{clock_length, details_body}
use riden_dongle.Http.Root.{
  local_ip, firmware_version_string, serial_number_string, vxi_visa_resource, scpi_visa_resource,
}

-- `server.upload()`.
pub data UploadStatus : Type 0 where
  upload_file_start upload_file_write upload_file_end upload_file_aborted : UploadStatus

pub record Upload : Type 0 where
  pub status : UploadStatus
  pub buf : List ℕ

-- `(ESP.getFreeSketchSpace() - 0x1000) & 0xFFFFF000`, on 32 bits.
abbrev pub max_sketch_space : ℕ → ℕ
max_sketch_space free = (free + 2 ^ 32 - 4096) % 2 ^ 32 / 4096 * 4096

module _ {D : Type 0} (P : Platform D) where
  abbrev pub update_begun : Bool × P.World → P.World
  update_begun (true, w) = w
  update_begun (false, w) = P.update_end false w

  abbrev pub upload_step : UploadStatus → List ℕ → P.World → P.World
  upload_step upload_file_start buf w =
      let stopped = P.stop_all w in
      update_begun (P.update_begin (max_sketch_space (P.free_sketch_space stopped)) stopped)
  upload_step upload_file_write buf w = (P.update_write buf w).1
  upload_step upload_file_end buf w = P.update_end true w
  upload_step upload_file_aborted buf w = P.update_end false w

abbrev pub qps : (E : Env) → ℕ → ℕ → E.Double
qps E start end =
    E.div (E.mul (E.literal 1000 0) (E.of_nat 100)) (E.of_nat ((end + 2 ^ 32 - start) % 2 ^ 32))

module _ ⦃E : Env⦄ {B : Board E} where
  open E use {Double, millis}

  -- Printing the clock into its 20 bytes comes before the rest of the page; the other members are set
  -- where the reading is a full one.
  abbrev pub details_page : AllValues E → Option (Details E) → Act (Dongle E B) (List (Sent Double))
  details_page av none s = overrun
  details_page av (some dt) s =
      if leb (clock_length dt.clock) 19
      then done (page (details_body E B.platform av dt)) s
      else overrun

  abbrev pub psu_reply : Option (AllValues E) → Act (Dongle E B) (List (Sent Double))
  psu_reply none s = done (page (static html_no_connection_body ∷ [])) s
  psu_reply (some av) s = details_page av av.details s

  unfoldable pub handle_psu_get : Act (Dongle E B) (List (Sent Double))
  handle_psu_get s =
      if is_connected (modbus s)
      then (call (get_all_values false) >>= psu_reply) s
      else psu_reply none s

  abbrev pub handle_control_get : Act (Dongle E B) (List (Sent Double))
  handle_control_get s = done (page (static html_control_body ∷ [])) s

  abbrev pub handle_not_found : Act (Dongle E B) (List (Sent Double))
  handle_not_found s = done (send 404 "text/plain" (lit "404: Not found") ∷ []) s

  unfoldable pub handle_firmware_update_post : Upload → Dongle E B → Dongle E B
  handle_firmware_update_post upload s =
      on_platform (λ w. B.platform.yield (upload_step B.platform upload.status upload.buf w)) s

  unfoldable pub finish_firmware_update_post : Act (Dongle E B) (List (Sent Double))
  finish_firmware_update_post s =
      if B.platform.update_has_error s.platform
      then done
          (page (
            static html_dongle_update_1
            ∷ bytes (B.platform.update_error s.platform)
            ∷ static html_dongle_update_2
            ∷ []))
          s
      else done (page (static html_rebooting_dongle_update_body ∷ [])) (
          on_platform (λ w. B.platform.restart (B.platform.stop_client (B.platform.delay 100 w))) s)

  -- The loop of queries, whose results are not looked at.
  abbrev pub query : ℕ → Act (Dongle E B) (Unit {0})
  query zero s = done tt s
  query (suc n) s = (call get_voltage_set >>= λ voltage. query n) s

  unfoldable pub handle_modbus_qps : Act (Dongle E B) (List (Sent Double))
  handle_modbus_qps s =
      let start = millis (modbus s).bus in
      (query 200 >>= λ _. λ t.
          done
            (content_length_unknown
              ∷ send 200 "text/html" (static html_header)
              ∷ contents (
                  lit "<p>Result = "
                  ∷ fixed (qps E start (millis (modbus t).bus)) 1
                  ∷ lit " queries/second</p>"
                  ∷ static html_footer
                  ∷ lit ""
                  ∷ []))
            t)
        s

  abbrev pub lxi_values : String → Text Double → Text Double → Dongle E B → List (Text Double)
  lxi_values model serial firmware s =
      let w = s.platform in
      lit model
      ∷ serial
      ∷ firmware
      ∷ bytes (B.platform.hostname w)
      ∷ bytes (local_ip s)
      ∷ bytes (B.platform.to_string (B.platform.subnet_mask w))
      ∷ bytes (B.platform.mac_address w)
      ∷ bytes (B.platform.to_string (B.platform.gateway_ip w))
      ∷ vxi_visa_resource s
      ∷ scpi_visa_resource s
      ∷ []

  unfoldable pub handle_lxi_identification : Act (Dongle E B) (List (Sent Double))
  handle_lxi_identification s =
      let model = get_type (modbus s) in
      (do
        serial ← serial_number_string
        firmware ← firmware_version_string
        (λ t.
            done
              (content_length_unknown
                ∷ send 200 "text/xml" (lit "")
                ∷ contents (B.platform.render (lxi_values model serial firmware t) ++ lit "" ∷ []))
              t))
        s
