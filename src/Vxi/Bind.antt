-- ===== src/Vxi/Bind.antt =====
-- The class RPC_Bind_Server of src/vxi11_server/rpc_bind_server.cpp: the port mapper on UDP and TCP,
-- with `get_bind_packet` and `send_bind_packet` over UDP.
pub mod Replies
use riden_dongle.Base.{ℕ, ◌+◌, Bool, List, length, ltb, ◌==◌, if◌then◌else◌}
use riden_dongle.Base.Memory.{slice, updates}
use riden_dongle.Vxi.Words.{get_word, set_word}
use riden_dongle.Vxi.Packets.{RpcRequest, rpc_request_offset, BindResponse, bind_response_offset}
use riden_dongle.Vxi.Rpc.{
  RpcStatus, rpc_status_code, Program, program_code, Procedure, procedure_code, Port, port_code,
}
use riden_dongle.Vxi.Net.{Net, Handler, Run, done, waiting, overrun, Act}
use riden_dongle.Vxi.Transport.{Connection, packet, get_packet, send_packet, fill_response_header}
use riden_dongle.Vxi.Server.{VxiServer, available, allocate}

-- The member `udp`: `begin`, `parsePacket`, `read` at most so many bytes, and `beginPacket` to
-- `endPacket` around a `write` to the sender.
pub record Udp : Type 1 where
  pub World : Type 0
  pub begin : ℕ → World → World
  pub parse_packet : World → ℕ × World
  pub read : ℕ → World → List ℕ × World
  pub send : List ℕ → World → World

-- The UDP buffers have no prefix; here four unused bytes stand before them, so that a packet begins
-- where it does in the TCP buffers. `tcp` is the listening socket with the client it accepts.
pub record BindServer (N : Net) (U : Udp) : Type 0 where
  pub udp_read_buffer : ℕ → ℕ
  pub udp_send_buffer : ℕ → ℕ
  pub udp : U.World
  pub tcp : Connection N

-- The status and the port for a request, with the port that the VXI server allocates.
abbrev pub portmap : (ℕ → ℕ) → ℕ → ℕ × ℕ
portmap request port =
    if get_word request (packet (rpc_request_offset RpcRequest.program))
      == program_code Program.portmap
    then if get_word request (packet (rpc_request_offset RpcRequest.procedure))
        == procedure_code Procedure.get_port
      then if port == 0
        then (rpc_status_code RpcStatus.garbage_args, port)
        else (rpc_status_code RpcStatus.success, port)
      else (rpc_status_code RpcStatus.proc_unavail, 0)
    else (rpc_status_code RpcStatus.prog_unavail, 0)

-- `process_request` on the buffers of either transport.
unfoldable pub process_request : ℕ → (ℕ → ℕ) → (ℕ → ℕ) → ℕ → ℕ
process_request port request response =
    let (rc, port) = portmap request port in
    let b = set_word response (packet (bind_response_offset BindResponse.rpc_status)) rc in
    set_word b (packet (bind_response_offset BindResponse.vxi_port)) port

module _ {N : Net} {U : Udp} where
  unfoldable pub begin : BindServer N U → BindServer N U
  begin s = record s {
    udp = U.begin (port_code Port.bind_port) s.udp;
    tcp = record s.tcp { world = N.begin_server (port_code Port.bind_port) s.tcp.world };
  }

  -- `get_bind_packet` over UDP.
  unfoldable pub get_udp_packet : BindServer N U → ℕ × BindServer N U
  get_udp_packet s =
      let (bytes, w) = U.read 64 s.udp in
      (length bytes, record s { udp_read_buffer = updates s.udp_read_buffer 4 bytes; udp = w })

  -- `send_bind_packet` over UDP.
  unfoldable pub send_udp_packet : ℕ → BindServer N U → BindServer N U
  send_udp_packet len s =
      let xid = get_word s.udp_read_buffer (packet (rpc_request_offset RpcRequest.xid)) in
      let b = fill_response_header xid s.udp_send_buffer in
      record s { udp_send_buffer = b; udp = U.send (slice b 4 len) s.udp }

  abbrev pub with_tcp :
      BindServer N U → Run (Connection N) (Unit {0}) → Run (BindServer N U) (Unit {0})
  with_tcp s (done a c) = done a (record s { tcp = c })
  with_tcp s waiting = waiting
  with_tcp s overrun = overrun

module _ {N : Net} {H : Handler} where
  -- A TCP client has been accepted.
  abbrev pub answer_tcp : ℕ → VxiServer N H → ℕ → Act (Connection N) (Unit {0})
  answer_tcp polls vxi len c =
      let processed = record c {
        send_buffer = process_request (allocate vxi) c.read_buffer c.send_buffer;
      } in
      let sent = send_packet N polls 32 28 processed in if ltb 0 len then sent else done tt c

  unfoldable pub serve_tcp : ℕ → VxiServer N H → Act (Connection N) (Unit {0})
  serve_tcp polls vxi c = elim (get_packet N 64 c) [
    | done len d ↦ answer_tcp polls vxi len d
    | waiting ↦ waiting
    | overrun ↦ overrun
  ]

module _ {N : Net} {H : Handler} {U : Udp} where
  -- A datagram is there.
  unfoldable pub serve_udp : VxiServer N H → BindServer N U → BindServer N U
  serve_udp vxi s =
      let (len, t) = get_udp_packet s in
      let processed = record t {
        udp_send_buffer = process_request (allocate vxi) t.udp_read_buffer t.udp_send_buffer;
      } in
      if ltb 0 len then send_udp_packet 28 processed else t

  unfoldable pub loop : ℕ → VxiServer N H → Act (BindServer N U) (Unit {0})
  loop polls vxi s =
      let (size, u) = U.parse_packet s.udp in
      let parsed = record s { udp = u } in
      let c = record s.tcp { world = N.accept s.tcp.world } in
      if available vxi
      then if ltb 0 size
        then done tt (serve_udp vxi parsed)
        else with_tcp parsed (if N.client c.world then serve_tcp polls vxi c else done tt c)
      else done tt s
