-- ===== src/Http/Output.antt =====
-- What the handlers hand to the library's web server: texts, and the calls that send them.
use riden_dongle.Base.{ℕ, String, List, [], ◌∷◌, ◌++◌, map}

-- The texts of src/riden_http_server/http_static.h, by their names.
pub data Static : Type 0 where
  html_header html_footer html_no_connection_body html_control_body : Static
  html_config_body_1 html_config_body_2 html_config_body_3 : Static
  html_rebooting_dongle_body html_rebooting_dongle_update_body : Static
  html_dongle_update_1 html_dongle_update_2 : Static
  html_rebooting_dongle_config_portal_body_1 html_rebooting_dongle_config_portal_body_2 : Static

-- A text by how it is put together; the platform does the formatting. `decimal n` is `String(n, 10)`,
-- `fixed x n` is `String(x, n)`, and `printed format arguments` is what `sprintf` makes.
pub data Text (D : Type 0) : Type 0 where
  lit : String → Text D
  bytes : List ℕ → Text D
  static : Static → Text D
  decimal : ℕ → Text D
  fixed : D → ℕ → Text D
  printed : String → List ℕ → Text D
  ◌+t◌ : Text D → Text D → Text D

infixl 65 ◌+t◌
-- `setContentLength(CONTENT_LENGTH_UNKNOWN)`; `send` with a status, a type and a first text; and
-- `sendContent` or `sendContent_P`.
pub data Sent (D : Type 0) : Type 0 where
  content_length_unknown : Sent D
  send : ℕ → String → Text D → Sent D
  send_content : Text D → Sent D

module _ {D : Type 0} where
  abbrev pub contents : List (Text D) → List (Sent D)
  contents ts = map send_content ts

  -- The calls around the body of a page.
  abbrev pub page : List (Text D) → List (Sent D)
  page body =
      content_length_unknown
      ∷ send 200 "text/html" (static html_header)
      ∷ contents (body ++ (static html_footer ∷ lit "" ∷ []))
