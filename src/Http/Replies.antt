-- ===== src/Http/Replies.antt =====
-- The calls that a request's method makes of the web server form one reply.
use riden_dongle.Base.{
  ℕ, ◌≡◌, refl, ap, sym, Bool, true, false, not, String, List, [], ◌∷◌, ◌++◌, Option, none, some,
  leb, if◌then◌else◌,
}
use mathlib.Core.List.{append_assoc}
use riden_dongle.Base.Text.{codes, same}
use riden_dongle.Modbus.Env.{Env}
use riden_dongle.Modbus.Begin.{is_connected}
use riden_dongle.Vxi.Net.{Run, done, waiting, overrun, Act, ◌>>=◌}
use riden_dongle.Modbus.AllValues.{AllValues, Details, get_all_values}
use riden_dongle.Modbus.Readings.{get_output_on, set_output_on, set_voltage_set, set_current_set}
use riden_dongle.Config.{commit}
use riden_dongle.Http.Output.{
  html_no_connection_body, html_control_body, html_rebooting_dongle_body, html_dongle_update_1,
  html_dongle_update_2, html_rebooting_dongle_update_body, bytes, Text, lit, static, html_footer,
  html_header, Sent, content_length_unknown, send, send_content, contents, page,
}
use riden_dongle.Http.Board.{Board, Dongle, Request, modbus, call}
use riden_dongle.Http.Root.{
  serial_number_string, firmware_version_string, root_body, handle_root_get,
}
use riden_dongle.Http.Control.{
  or_false, status_reply, handle_status_get, set_reply, handle_set_i, handle_set_v, toggle_reply,
  handle_toggle_out,
}
use riden_dongle.Http.Settings.{
  config_body, portal_body, rebooted, on_config, disconnect_if, handle_config_get,
  handle_config_post, handle_disconnect_client_post, handle_reboot_dongle_get,
}
use riden_dongle.Http.Services.{
  query, psu_reply, details_page, handle_psu_get, finish_firmware_update_post, handle_modbus_qps,
  handle_lxi_identification,
}
use riden_dongle.Http.Details.{clock_length, details_body}
use riden_dongle.Http.Routes.{
  Handler, root_get, psu_get, config_get, config_post, control_get, status_get, set_i, set_v,
  toggle_out, disconnect_client_post, reboot_dongle_get, firmware_update_post, lxi_identification,
  modbus_qps, not_found, handle,
}

-- One status line: with the whole content, with nothing but an empty text after it, or with a length
-- that is not known and chunks, of which the last call sends the empty one that ends them.
pub data IsReply {D : Type 0} (sent : List (Sent D)) : Type 0 where
  whole : (code : ℕ) (type : String) (t : Text D) → sent ≡ send code type t ∷ [] → IsReply sent
  ended :
      (code : ℕ) (type : String) (t : Text D)
      → sent ≡ send code type t ∷ send_content (lit "") ∷ []
      → IsReply sent
  chunked :
      (code : ℕ) (type : String) (t : Text D) (body : List (Text D))
      → sent ≡ content_length_unknown ∷ send code type t ∷ contents (body ++ lit "" ∷ [])
      → IsReply sent

page-IsReply : {D : Type 0} (body : List (Text D)) → IsReply (page body)
page-IsReply body = chunked 200 "text/html" (static html_header) (body ++ static html_footer ∷ []) (
    ap (λ b. content_length_unknown ∷ send 200 "text/html" (static html_header) ∷ contents b)
      (sym (append_assoc body (static html_footer ∷ []) (lit "" ∷ []))))

-- A method that returns has sent one reply.
pub data Replies {κ} {D : Type 0} {S : Type κ} : Run S (List (Sent D)) → Type κ where
  replied : {sent : List (Sent D)} {s : S} → IsReply sent → Replies (done sent s)
  waits : Replies waiting
  overruns : Replies overrun

Replies-bind {ℓ κ} :
    {D : Type 0} {S : Type κ} {A : Type ℓ} (m : Act S A) (f : A → Act S (List (Sent D))) (s : S)
    → ((a : A) (t : S) → Replies (f a t))
    → Replies ((m >>= f) s)
Replies-bind {D} {S} {A} m f s h = go (m s)
  where
    go :
        (o : Run S A)
        → Replies (elim o [ done a t ↦ f a t | waiting ↦ waiting | overrun ↦ overrun ])
    go (done a t) = h a t
    go waiting = waits
    go overrun = overruns

Replies-if {κ} :
    {D : Type 0} {S : Type κ} (b : Bool) (x y : Run S (List (Sent D)))
    → Replies x
    → Replies y
    → Replies (if b then x else y)
Replies-if true x y h k = h
Replies-if false x y h k = k

page-Replies {κ} :
    {D : Type 0} {S : Type κ} (body : List (Text D)) (s : S) → Replies (done (page body) s)
page-Replies body s = replied (page-IsReply body)

module _ ⦃E : Env⦄ {B : Board E} where
  status_reply-Replies : (o : Option (AllValues E)) (s : Dongle E B) → Replies (status_reply o s)
  status_reply-Replies none s = replied (ended 500 "text/plain" _ refl)
  status_reply-Replies (some av) s = replied (ended 200 "application/json" _ refl)

  status-Replies : (s : Dongle E B) → Replies (handle_status_get s)
  unfolding handle_status_get
  status-Replies s =
      Replies-if (is_connected (modbus s)) _ _
        (Replies-bind (call (get_all_values true)) status_reply s status_reply-Replies)
        (status_reply-Replies none s)

  set_reply-Replies : (o : Option (Unit {0})) (s : Dongle E B) → Replies (set_reply o s)
  set_reply-Replies none s = replied (whole 500 "text/plain" _ refl)
  set_reply-Replies (some x) s = replied (whole 200 "text/plain" _ refl)

  toggle_reply-Replies : (o : Option (Unit {0})) (s : Dongle E B) → Replies (toggle_reply o s)
  toggle_reply-Replies none s = replied (whole 500 "text/plain" _ refl)
  toggle_reply-Replies (some x) s = status-Replies s

  details_page-Replies :
      (av : AllValues E) (o : Option (Details E)) (s : Dongle E B) → Replies (details_page av o s)
  details_page-Replies av none s = overruns
  details_page-Replies av (some dt) s =
      Replies-if (leb (clock_length dt.clock) 19) _ _
        (page-Replies (details_body E B.platform av dt) s) overruns

  psu_reply-Replies : (o : Option (AllValues E)) (s : Dongle E B) → Replies (psu_reply o s)
  psu_reply-Replies none s = page-Replies (static html_no_connection_body ∷ []) s
  psu_reply-Replies (some av) s = details_page-Replies av av.details s

  -- Whatever the dongle's state, the request and the answers of the power supply: each method that
  -- handles a request and returns has sent one reply, with one status line, and with an empty chunk at
  -- the end where the length was left open.
  pub handle-Replies :
      (rounds : ℕ) (h : Handler) (request : Request) (s : Dongle E B)
      → Replies (handle rounds h request s)
  unfolding handle_root_get handle_set_i handle_set_v handle_toggle_out handle_config_get
      handle_config_post handle_disconnect_client_post handle_reboot_dongle_get handle_psu_get
      finish_firmware_update_post handle_modbus_qps handle_lxi_identification
  handle-Replies rounds root_get request s =
      Replies-if (is_connected (modbus s)) _ _
        (Replies-bind (root_body rounds) _ s (λ body t. page-Replies body t))
        (page-Replies (static html_no_connection_body ∷ []) s)
  handle-Replies rounds psu_get request s =
      Replies-if (is_connected (modbus s)) _ _
        (Replies-bind (call (get_all_values false)) psu_reply s psu_reply-Replies)
        (psu_reply-Replies none s)
  handle-Replies rounds config_get request s = page-Replies (config_body s) s
  handle-Replies rounds config_post request s = Replies-bind (on_config commit) _ _ (λ success t.
      replied (
        chunked 200 "text/html" _
          (lit "<body>"
            ∷ lit "<script>"
            ∷ lit "  location.replace('"
            ∷ bytes request.uri
            ∷ lit "');"
            ∷ lit "</script>"
            ∷ lit "</body>"
            ∷ lit "</html>"
            ∷ [])
          refl))
  handle-Replies rounds control_get request s = page-Replies (static html_control_body ∷ []) s
  handle-Replies rounds status_get request s = status-Replies s
  handle-Replies rounds set_i request s =
      Replies-if (is_connected (modbus s)) _ _
        (Replies-bind (call (set_current_set (B.platform.strtod (request.arg "plain")))) set_reply s
          set_reply-Replies)
        (set_reply-Replies none s)
  handle-Replies rounds set_v request s =
      Replies-if (is_connected (modbus s)) _ _
        (Replies-bind (call (set_voltage_set (B.platform.strtod (request.arg "plain")))) set_reply s
          set_reply-Replies)
        (set_reply-Replies none s)
  handle-Replies rounds toggle_out request s =
      Replies-if (is_connected (modbus s)) _ _
        (Replies-bind (call get_output_on) _ s (λ on t.
          Replies-bind (call (set_output_on (not (or_false on)))) toggle_reply t
            toggle_reply-Replies))
        (replied (whole 500 "text/plain" _ refl))
  handle-Replies rounds disconnect_client_post request s =
      Replies-bind
        (disconnect_if (B.platform.from_string (request.arg "ip")) (request.arg "protocol")) _ s
        (λ x t. replied (chunked 200 "text/html" _ [] refl))
  handle-Replies rounds reboot_dongle_get request s =
      Replies-if (same (request.arg "config_portal") (codes "true")) _ _
        (Replies-bind (on_config commit) _ _
          (λ success t. page-Replies (portal_body t) (rebooted t)))
        (page-Replies (static html_rebooting_dongle_body ∷ []) (rebooted s))
  handle-Replies rounds firmware_update_post request s =
      Replies-if (B.platform.update_has_error s.platform) _ _
        (page-Replies
          (static html_dongle_update_1
            ∷ bytes (B.platform.update_error s.platform)
            ∷ static html_dongle_update_2
            ∷ [])
          s)
        (page-Replies (static html_rebooting_dongle_update_body ∷ []) _)
  handle-Replies rounds lxi_identification request s =
      Replies-bind serial_number_string _ s (λ serial t.
        Replies-bind firmware_version_string _ t
          (λ firmware u. replied (chunked 200 "text/xml" _ _ refl)))
  handle-Replies rounds modbus_qps request s =
      Replies-bind (query 200) _ s
        (λ x t. replied (chunked 200 "text/html" _ (_ ∷ _ ∷ _ ∷ _ ∷ []) refl))
  handle-Replies rounds not_found request s = replied (whole 404 "text/plain" _ refl)
