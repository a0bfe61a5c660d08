-- ===== src/Vxi/Tests/Bench.antt =====
-- A connection that holds what the client has sent and what it was sent, and an instrument that
-- answers what it was told last.
use riden_dongle.Base.{ℕ, Bool, true, false, List, [], ◌∷◌, take, drop, if◌then◌else◌}
use riden_dongle.Vxi.Net.{Net, Handler}
use riden_dongle.Vxi.Protocol.{words}
use riden_dongle.Vxi.Server.{VxiServer}

pub record Wire : Type 0 where
  pub is_open : Bool
  pub is_up : Bool
  pub incoming : List ℕ
  pub sent : List (List ℕ)
  pub port : ℕ

abbrev pub bench_net : Net
bench_net = record {
  World = Wire;
  client = λ w. w.is_open;
  connected = λ w. w.is_up;
  remote_ip = λ w. 0;
  stop = λ w. record w { is_open = false; is_up = false };
  read_bytes = λ n w. (take n w.incoming, record w { incoming = drop n w.incoming });
  available_for_write = λ w. (1, w);
  write = λ bytes w. record w { sent = bytes ∷ w.sent };
  flush = λ w. w;
  accept = λ w. record w { is_open = true; is_up = true };
  stop_server = λ w. w;
  begin_server = λ port w. record w { port = port };
}

pub record Echo : Type 0 where
  pub controlled : Bool
  pub said : List ℕ

abbrev pub echo : Handler
echo = record {
  State = Echo;
  write = λ bytes h. record h { said = bytes };
  read = λ n h. (take n h.said, h);
  claim_control = λ h. if h.controlled then (false, h) else (true, record h { controlled = true });
  release_control = λ h. record h { controlled = false };
}

-- A call of VXI_11_CORE with the transaction 7.
abbrev pub call : ℕ → List ℕ → List ℕ
call procedure parameters = words (7 ∷ 0 ∷ 2 ∷ 395183 ∷ 1 ∷ procedure ∷ 0 ∷ 0 ∷ 0 ∷ 0 ∷ parameters)

abbrev pub idle_wire : Wire
idle_wire = record { is_open = true; is_up = true; incoming = []; sent = []; port = 9010 }

-- A server with that wire and that instrument.
abbrev pub server_with : Wire → Echo → VxiServer bench_net echo
server_with wire h = record {
  connection = record { read_buffer = λ i. 0; send_buffer = λ i. 0; world = wire };
  vxi_port = record { m_data = 9010; m_start = 9010; m_end = 9012 };
  scpi = h;
  outbuffer = λ i. 0;
}
