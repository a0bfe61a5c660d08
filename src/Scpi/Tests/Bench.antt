-- ===== src/Scpi/Tests/Bench.antt =====
-- A parser that takes every parameter from one number and notes what it is told to write, and a
-- socket that holds what the client has sent and what it was sent.
use riden_dongle.Base.{ℕ, Bool, true, false, Option, none, some, String, ℤ, pos, List, [], ◌∷◌}
use riden_dongle.Modbus.Double
use riden_dongle.Modbus.Double.{Double}
use riden_dongle.Modbus.Tests.Bench.{bench}
use riden_dongle.Scpi.Parser.{unit_volt, ScpiError, Parser}
use riden_dongle.Scpi.Server.{Socket}

pub data Shown : Type 0 where
  shown_double : Double → Shown
  shown_bool : Bool → Shown
  shown_text : String → Shown
  shown_number : ℕ → Shown
  shown_int : ℤ → Shown
  shown_error : ScpiError → Shown

pub record Notes : Type 0 where
  pub argument : ℕ
  pub shown : List Shown

abbrev note : Shown → Notes → Notes
note x c = record c { shown = x ∷ c.shown }

abbrev pub bench_parser : Parser bench
bench_parser = record {
  Context = Notes;
  Parameter = ℕ;
  param_unsigned_int = λ c. (some c.argument, c);
  param_bool = λ c. (some true, c);
  param_number = λ c. (some (Double.literal c.argument 1, unit_volt), c);
  param_choice = λ options c. (some (pos c.argument), c);
  parameter = λ c. (some c.argument, c);
  param_to_choice = λ p options c. (none, c);
  param_to_int = λ p c. (some (pos p), c);
  error_push = λ e c. note (shown_error e) c;
  result_double = λ x c. note (shown_double x) c;
  result_bool = λ b c. note (shown_bool b) c;
  result_text = λ t c. note (shown_text t) c;
  result_mnemonic = λ t c. note (shown_text t) c;
  result_int32 = λ n c. note (shown_int n) c;
  result_uint8 = λ n c. note (shown_number n) c;
  result_uint16 = λ n c. note (shown_number n) c;
}

pub record Line : Type 0 where
  pub is_open : Bool
  pub incoming : List ℕ
  pub sent : List (List ℕ)

abbrev next_byte : Line → List ℕ → Option ℕ × Line
next_byte w [] = (none, w)
next_byte w (b ∷ bytes) = (some b, record w { incoming = bytes })

abbrev pub bench_socket : Socket
bench_socket = record {
  World = Line;
  client = λ w. w.is_open;
  connected = λ w. w.is_open;
  remote_ip = λ w. 0;
  stop = λ w. record w { is_open = false };
  available = λ w. 1;
  read_byte = λ w. next_byte w w.incoming;
  write = λ bytes w. record w { sent = bytes ∷ w.sent };
  flush = λ w. w;
  accept = λ w. (false, w);
  keep_new = λ w. w;
  stop_new = λ w. w;
}
