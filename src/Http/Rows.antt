-- ===== src/Http/Rows.antt =====
-- Values as texts, and the rows and boxes of the pages.
use riden_dongle.Base.{ℕ, Bool, String, List, [], ◌∷◌, ◌++◌, ◌==◌, if◌then◌else◌}
use riden_dongle.Modbus.Env.{Env}
use riden_dongle.Modbus.State.{
  Protection, ovp, ocp, none_tripped, OutputMode, constant_voltage, constant_current, unknown,
}
use riden_dongle.Http.Output.{Text, lit, bytes, decimal, fixed, ◌+t◌}
use riden_dongle.Http.Board.{Platform}

module _ {D : Type 0} where
  abbrev pub protection_to_string : Protection → Text D
  protection_to_string ovp = lit "OVP"
  protection_to_string ocp = lit "OCP"
  protection_to_string none_tripped = lit "None"

  abbrev pub outputmode_to_string : OutputMode → Text D
  outputmode_to_string constant_voltage = lit "Constant Voltage"
  outputmode_to_string constant_current = lit "Constant Current"
  outputmode_to_string unknown = lit "Unknown"

  abbrev pub language_to_string : ℕ → Text D
  language_to_string language_id =
      if language_id == 0
      then lit "English"
      else if language_id == 1
      then lit "Chinese"
      else if language_id == 2
      then lit "German"
      else if language_id == 3
      then lit "French"
      else if language_id == 4
      then lit "Russian"
      else lit "Unknown (" +t decimal language_id +t lit ")"

  abbrev pub yes_no : Bool → Text D
  yes_no b = lit (if b then "Yes" else "No")

  abbrev pub send_info_row : String → Text D → List (Text D)
  send_info_row key value =
      lit "                    <tr>"
      ∷ lit "                        <th>"
      ∷ lit key
      ∷ lit "</th>"
      ∷ lit "                        <td>"
      ∷ value
      ∷ lit "</td>"
      ∷ lit "                    </tr>"
      ∷ []

  abbrev pub send_client_row : List ℕ → List ℕ → List (Text D)
  send_client_row ip protocol =
      lit "<tr>"
      ∷ lit "<td>"
      ∷ bytes ip
      ∷ lit "</td>"
      ∷ lit "<td>"
      ∷ bytes protocol
      ∷ lit "</td>"
      ∷ lit "<td><form method='post' action='/disconnect_client/'>"
      ∷ (lit "<input type='hidden' name='ip' value='" +t bytes ip +t lit "'>")
      ∷ (lit "<input type='hidden' name='protocol' value='" +t bytes protocol +t lit "'>")
      ∷ lit "<input type='submit' value='Disconnect'>"
      ∷ lit "</form></td>"
      ∷ lit "</tr>"
      ∷ []

  -- The calls around the rows of one table, with the line of its heading.
  abbrev pub box : String → List (Text D) → List (Text D)
  box heading rows =
      lit "        <div class='box'>"
      ∷ lit heading
      ∷ lit "            <table class='info'>"
      ∷ lit "                <tbody>"
      ∷ (rows
          ++ (lit "                </tbody>"
              ∷ lit "            </table>"
              ∷ lit "        </div>"
              ∷ []))

module _ (E : Env) (P : Platform E.Double) where
  open E use {Double, literal, mul}

  abbrev pub voltage_to_string : Double → Text Double
  voltage_to_string voltage =
      if P.less voltage (literal 1 0)
      then fixed (mul voltage (literal 1000 0)) 0 +t lit " mV"
      else fixed voltage 3 +t lit " V"

  abbrev pub current_to_string : Double → Text Double
  current_to_string current =
      if P.less current (literal 1 0)
      then fixed (mul current (literal 1000 0)) 0 +t lit " mA"
      else fixed current 3 +t lit " A"

  abbrev pub power_to_string : Double → Text Double
  power_to_string power =
      if P.less power (literal 1 0)
      then fixed (mul power (literal 1000 0)) 0 +t lit " mW"
      else fixed power 3 +t lit " W"
