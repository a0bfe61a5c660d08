-- ===== src/ModbusBridge/Routes.antt =====
-- Where the bridge sends the answers of the power supply.
use riden_dongle.Base.{
  ℕ, zero, suc, ◌+◌, ◌≤◌, ◌≡◌, refl, ◌∙◌, ap, sym, true, false, List, ◌∷◌, none, some,
  if◌then◌else◌, arith,
}
use riden_dongle.Vxi.Net.{done, ◌>>=◌, bind-done}
use riden_dongle.ModbusBridge.{
  Link, RidenModbusBridge, modbus_rtu_raw_callback, modbus_tcp_raw_callback, wait_for_server,
  send_request, task_round, take_frame,
}

-- From `w` the transaction in flight brings no frame for `k` rounds, and then one that the library
-- passes on in the world `v`.
abbrev pub AnsweredAfter : (L : Link) → ℕ → L.FrameArg → List ℕ → L.World → L.World → Type 0
AnsweredAfter L zero answer reply w v =
    (L.server w ≡ true) × (L.delay_task w ≡ (some (answer, reply), v))
AnsweredAfter L (suc k) answer reply w v =
    (L.server w ≡ true)
    × ((L.delay_task w).0 ≡ none)
    × AnsweredAfter L k answer reply (L.delay_task w).1 v

-- What the TCP end is told when `reply` goes to a client.
abbrev pub answered_to : (L : Link) → ℕ → ℕ → ℕ → List ℕ → L.World → L.World
answered_to L transaction slave ip reply w =
    L.raw_response ip reply slave (L.set_transaction_id transaction (L.on_raw false w))

module _ {L : Link} where
  -- The object that waits for the answer to a request.
  abbrev pub pending : L.FrameArg → L.World → RidenModbusBridge L → RidenModbusBridge L
  pending source w s = record s {
    transaction_id = L.arg_transaction_id source;
    slave_id = L.arg_slave_id source;
    ip = L.arg_ipaddr source;
    world = w;
  }

  -- The object after the answer to its request.
  abbrev pub cleared : L.World → RidenModbusBridge L → RidenModbusBridge L
  cleared w s = record s { transaction_id = 0; slave_id = 0; ip = 0; world = w }

  callback-answer :
      (answer : L.FrameArg) (reply : List ℕ) (s : RidenModbusBridge L)
      → s.initialized ≡ true
      → L.arg_to_server answer ≡ false
      → modbus_rtu_raw_callback answer reply s
        ≡ (L.ex_success, cleared (answered_to L s.transaction_id s.slave_id s.ip reply s.world) s)
  unfolding modbus_rtu_raw_callback
  callback-answer answer reply s on from = rw (on, from) refl

  wait-idle :
      (polls : ℕ) (s : RidenModbusBridge L)
      → L.server s.world ≡ false
      → wait_for_server polls s ≡ done tt s
  unfolding wait_for_server
  wait-idle zero s e = rw e refl
  wait-idle (suc polls) s e = rw e refl

  wait_round :
      (polls : ℕ) (s : RidenModbusBridge L)
      → L.server s.world ≡ true
      → wait_for_server (suc polls) s ≡ wait_for_server polls (task_round s)
  unfolding wait_for_server
  wait_round polls s e = rw e refl

  -- The wait for an earlier transaction ends with its answer at the client that the object names.
  wait-answered :
      (k polls : ℕ) (answer : L.FrameArg) (reply : List ℕ) (s : RidenModbusBridge L) (v w : L.World)
      → s.initialized ≡ true
      → L.arg_to_server answer ≡ false
      → k + 1 ≤ polls
      → AnsweredAfter L k answer reply s.world v
      → w ≡ L.end_task L.ex_success (answered_to L s.transaction_id s.slave_id s.ip reply v)
      → L.server w ≡ false
      → wait_for_server polls s ≡ done tt (cleared w s)
  wait-answered k zero answer reply s v w on from le h e idle = absurd (omega arith)
  wait-answered zero (suc polls) answer reply s v w on from le (busy, frame) e idle =
      wait_round polls s busy
      ∙ ap (λ p. wait_for_server polls (take_frame p.0 (record s { world = p.1 }))) frame
      ∙ ap (λ p. wait_for_server polls (record p.1 { world = L.end_task p.0 p.1.world }))
          (callback-answer answer reply (record s { world = v }) on from)
      ∙ ap (λ x. wait_for_server polls (cleared x s)) (sym e)
      ∙ wait-idle polls (cleared w s) idle
  wait-answered (suc k) (suc polls) answer reply s v w on from le (busy, quiet, h) e idle =
      wait_round polls s busy
      ∙ ap
          (λ x.
            wait_for_server polls (take_frame x (record s { world = (L.delay_task s.world).1 })))
          quiet
      ∙ wait-answered k polls answer reply (record s { world = (L.delay_task s.world).1 }) v w on
          from (omega arith) h e idle

  send-taken :
      (source : L.FrameArg) (request : List ℕ) (s : RidenModbusBridge L)
      → (L.raw_request (L.arg_slave_id source) request s.world).0 ≡ true
      → send_request source request s
        ≡ done L.ex_success (
            pending source
              (L.on_raw true (L.raw_request (L.arg_slave_id source) request s.world).1)
              s)
  send-taken source request s taken = rw taken refl

  callback-on :
      (polls : ℕ) (source : L.FrameArg) (request : List ℕ) (s t : RidenModbusBridge L)
      → s.initialized ≡ true
      → wait_for_server polls s ≡ done tt t
      → modbus_tcp_raw_callback polls source request s ≡ send_request source request t
  unfolding modbus_tcp_raw_callback
  callback-on polls source request s t on run =
      (λ i.
        if on i
        then (wait_for_server polls >>= λ _. send_request source request) s
        else done L.ex_general_failure s)
      ∙ bind-done (wait_for_server polls) (λ _. send_request source request) s run

  -- On an initialized bridge, when a request comes while an earlier one is in flight, and the
  -- answer to that, which is not a frame to a server, comes after `k` rounds within the wait and
  -- leaves the library idle: the answer goes to the client of the earlier request, with its
  -- transaction and slave; then the request, if it is taken, is sent, and the bridge waits for its
  -- answer.
  pub queued_request :
      (k polls : ℕ) (answer source : L.FrameArg) (reply request : List ℕ) (s : RidenModbusBridge L)
      (v w : L.World)
      → s.initialized ≡ true
      → L.arg_to_server answer ≡ false
      → k + 1 ≤ polls
      → AnsweredAfter L k answer reply s.world v
      → w ≡ L.end_task L.ex_success (answered_to L s.transaction_id s.slave_id s.ip reply v)
      → L.server w ≡ false
      → (L.raw_request (L.arg_slave_id source) request w).0 ≡ true
      → modbus_tcp_raw_callback polls source request s
        ≡ done L.ex_success
            (pending source (L.on_raw true (L.raw_request (L.arg_slave_id source) request w).1) s)
  queued_request k polls answer source reply request s v w on from le h e idle taken =
      callback-on polls source request s (cleared w s) on
        (wait-answered k polls answer reply s v w on from le h e idle)
      ∙ send-taken source request (cleared w s) taken

  -- On an initialized bridge, a request that finds the library idle and is taken is sent at once,
  -- and an answer that comes later in any world, and is not a frame to a server, goes to the
  -- client of the request, with its transaction and slave; then nothing is pending.
  pub answered_request :
      (polls : ℕ) (answer source : L.FrameArg) (reply request : List ℕ) (s : RidenModbusBridge L)
      (v : L.World)
      → s.initialized ≡ true
      → L.arg_to_server answer ≡ false
      → L.server s.world ≡ false
      → (L.raw_request (L.arg_slave_id source) request s.world).0 ≡ true
      → (t : RidenModbusBridge L) × (modbus_tcp_raw_callback polls source request s
          ≡ done L.ex_success t)
        × (t.world ≡ L.on_raw true (L.raw_request (L.arg_slave_id source) request s.world).1)
        × (modbus_rtu_raw_callback answer reply (record t { world = v }) ≡ (
          L.ex_success,
          cleared
              (answered_to L
                (L.arg_transaction_id source)
                (L.arg_slave_id source)
                (L.arg_ipaddr source)
                reply
                v)
              s,
        ))
  answered_request polls answer source reply request s v on from idle taken = (
    pending source (L.on_raw true (L.raw_request (L.arg_slave_id source) request s.world).1) s,
    callback-on polls source request s s on (wait-idle polls s idle)
        ∙ send-taken source request s taken,
    refl,
    callback-answer answer reply (pending source v s) on from,
  )

  -- On an initialized bridge, a request that finds the library idle and is not taken is answered
  -- with an error at once: the TCP end is given its slave, its function code and the failure, and
  -- the members of the bridge stay as they were.
  pub refused_request :
      (polls code : ℕ) (source : L.FrameArg) (rest : List ℕ) (s : RidenModbusBridge L)
      → s.initialized ≡ true
      → L.server s.world ≡ false
      → (L.raw_request (L.arg_slave_id source) (code ∷ rest) s.world).0 ≡ false
      → modbus_tcp_raw_callback polls source (code ∷ rest) s
        ≡ done L.ex_device_failed_to_respond (record s {
          world =
              L.error_response
                (L.arg_slave_id source)
                code
                L.ex_device_failed_to_respond
                (L.raw_request (L.arg_slave_id source) (code ∷ rest) s.world).1;
        })
  refused_request polls code source rest s on idle refused =
      callback-on polls source (code ∷ rest) s s on (wait-idle polls s idle) ∙ rw refused refl
