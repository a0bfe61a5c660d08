-- ===== src/ModbusBridge/Tests.antt =====
-- Runs of the bridge between libraries that note what they are told.
use riden_dongle.Base.{
  ℕ, zero, suc, ◌≡◌, refl, ◌==◌, Bool, true, false, List, [], ◌∷◌, Option, none, some,
  if◌then◌else◌, arith,
}
use riden_dongle.Vxi.Net.{done}
use riden_dongle.ModbusBridge.{Link, RidenModbusBridge, Objects, begin, modbus_tcp_raw_callback}
use riden_dongle.ModbusBridge.Routes.{queued_request, pending}
use riden_dongle.ModbusBridge.Begin.{begin-OnlyOne, Begun}
use riden_dongle.ModbusBridge.Clients.{TcpLibrary}

pub record Arg : Type 0 where
  pub slave : ℕ
  pub transaction : ℕ
  pub address : ℕ
  pub to_server : Bool

-- `rounds` is how long the transaction in flight takes yet.
pub record Desk : Type 0 where
  pub busy : Bool
  pub rounds : ℕ
  pub accepts : Bool
  pub sent : List (List ℕ)

abbrev answer : Arg
answer = record { slave = 1; transaction = 0; address = 0; to_server = false }

abbrev reply : List ℕ
reply = 3 ∷ 2 ∷ 0 ∷ 5 ∷ []

abbrev wait_more : ℕ → Desk → Option (Arg × List ℕ) × Desk
wait_more zero w = (some (answer, reply), w)
wait_more (suc n) w = (none, record w { rounds = n })

abbrev tell : List ℕ → Desk → Desk
tell words w = record w { sent = words ∷ w.sent }

abbrev desk : Link
desk = record {
  World = Desk;
  Code = ℕ;
  ex_success = 0;
  ex_general_failure = 225;
  ex_device_failed_to_respond = 11;
  ex_passthrough = 226;
  FrameArg = Arg;
  arg_slave_id = λ a. a.slave;
  arg_transaction_id = λ a. a.transaction;
  arg_ipaddr = λ a. a.address;
  arg_to_server = λ a. a.to_server;
  server = λ w. w.busy;
  delay_task = λ w. wait_more w.rounds w;
  end_task = λ code w. record w { busy = false };
  raw_request = λ slave bytes w.
      if w.accepts then (true, tell (slave ∷ bytes) (record w { busy = true })) else (false, w);
  on_raw = λ set w. w;
  begin_server = λ w. w;
  error_response = λ slave function code w. tell (slave ∷ function ∷ code ∷ []) w;
  set_transaction_id = λ t w. tell (t ∷ []) w;
  raw_response = λ ip bytes slave w. tell (ip ∷ slave ∷ bytes) w;
}

-- A request with the transaction 8, and the bridge while one with the transaction 7 is in flight.
abbrev source : Arg
source = record { slave = 1; transaction = 8; address = 20; to_server = true }

abbrev request : List ℕ
request = 3 ∷ 0 ∷ 8 ∷ 0 ∷ 1 ∷ []

abbrev bridge : RidenModbusBridge desk
bridge = record {
  initialized = true;
  transaction_id = 7;
  slave_id = 1;
  ip = 10;
  world = record { busy = true; rounds = 1; accepts = true; sent = [] };
}

abbrev idle_bridge : Bool → RidenModbusBridge desk
idle_bridge accepts = record {
  initialized = true;
  transaction_id = 0;
  slave_id = 0;
  ip = 0;
  world = record { busy = false; rounds = 0; accepts = accepts; sent = [] };
}

abbrev answered : Desk
answered = record {
  busy = false;
  rounds = 0;
  accepts = true;
  sent = (10 ∷ 1 ∷ reply) ∷ (7 ∷ []) ∷ [];
}

queued_request_example :
    modbus_tcp_raw_callback 2 source request bridge
    ≡ done 0 (pending source (tell (1 ∷ request) (record answered { busy = true })) bridge)
queued_request_example =
    queued_request 1 2 answer source reply request bridge (record bridge.world { rounds = 0 })
      answered refl refl (omega arith) (refl, refl, (refl, refl)) refl refl refl

abbrev no_bridge : Objects desk
no_bridge = record {
  one_and_only = none;
  object = λ i. record (idle_bridge true) { initialized = false };
}

begin-OnlyOne_example : Begun 4 (begin 4 no_bridge)
begin-OnlyOne_example = begin-OnlyOne 4 no_bridge (λ i h. cc h)

-- Clients that are their addresses and stay connected.
abbrev next : Option ℕ → Option ℕ
next none = none
next (some n) = some (suc n)

abbrev find_ip : ℕ → List (Option ℕ) → Option ℕ
find_ip ip [] = none
find_ip ip (none ∷ rest) = next (find_ip ip rest)
find_ip ip (some c ∷ rest) = let later = next (find_ip ip rest) in if c == ip then some 0 else later

abbrev pub hub : TcpLibrary
hub = record {
  Client = ℕ;
  World = List ℕ;
  connected = λ c w. true;
  remote_ip = λ c w. c;
  flush = λ c w. w;
  delete = λ c w. c ∷ w;
  get_master = λ ip clients w. find_ip ip clients;
}
