-- ===== src/Vxi/Transport.antt =====
-- src/vxi11_server/rpc_packets.cpp: frames of a length word and a packet in a buffer, received and
-- sent over TCP.
pub mod Frame
pub mod Send
pub mod Receive
use riden_dongle.Base.{ℕ, zero, suc, ◌+◌, ◌-◌, ◌%◌, ◌^◌, List, ltb, ◌==◌, if◌then◌else◌, min}
use riden_dongle.Base.Memory.{slice, update, updates}
use riden_dongle.Vxi.Words.{get_word, set_word}
use riden_dongle.Vxi.Packets.{RpcRequest, rpc_request_offset, RpcResponse, rpc_response_offset}
use riden_dongle.Vxi.Rpc.{MsgType, msg_type_code, ReplyState, reply_state_code}
use riden_dongle.Vxi.Net.{Net, Run, done, waiting, overrun, Act, ◌>>=◌, ◌>>◌, return, gets, modify}

-- The read buffer and the send buffer of one kind of connection, `tcp_...` or `vxi_...`, with the
-- connection; the stop, read and write are those of its `client`.
pub record Connection (N : Net) : Type 0 where
  pub read_buffer : ℕ → ℕ
  pub send_buffer : ℕ → ℕ
  pub world : N.World

-- The packet portion follows the four bytes of the prefix.
abbrev pub packet : ℕ → ℕ
packet at = 4 + at

-- An access to the byte at `at` of a buffer of `size` bytes.
abbrev pub touch {κ} : {S : Type κ} → ℕ → ℕ → Act S (Unit {0})
touch size at s = if ltb at size then done tt s else overrun

-- `fill_response_header` on the packet portion of a buffer.
unfoldable pub fill_response_header : ℕ → (ℕ → ℕ) → ℕ → ℕ
fill_response_header xid b =
    let b = set_word b (packet (rpc_response_offset RpcResponse.xid)) xid in
    let b =
      set_word b (packet (rpc_response_offset RpcResponse.msg_type))
        (msg_type_code MsgType.reply) in
    let b =
      set_word b (packet (rpc_response_offset RpcResponse.reply_state))
        (reply_state_code ReplyState.msg_accepted) in
    let b = set_word b (packet (rpc_response_offset RpcResponse.verifier_l)) 0 in
    set_word b (packet (rpc_response_offset RpcResponse.verifier_h)) 0

module _ (N : Net) where
  -- `get_vxi_packet` and `get_bind_packet` over TCP, with the size of the read buffer: the length of
  -- the packet without its FRAG bit, and the packet itself where that is more than 4.
  unfoldable pub get_packet : ℕ → Act (Connection N) ℕ
  get_packet size s =
      let cleared = set_word s.read_buffer 0 0 in
      let (prefix, w) = N.read_bytes 4 s.world in
      let b = updates cleared 0 prefix in
      let len = get_word b 0 % 2 ^ 31 in
      let (bytes, w') = N.read_bytes (min len (size - 4)) w in
      if ltb 4 len
      then done (min len (size - 4)) (record s { read_buffer = updates b 4 bytes; world = w' })
      else done len (record s { read_buffer = b; world = w })

  -- `while ((len & 3) > 0)`: three rounds at most.
  unfoldable pub pad : ℕ → ℕ → ℕ → Act (Connection N) ℕ
  pad zero size len s = if len % 4 == 0 then done len s else waiting
  pad (suc fuel) size len s =
      let rest =
        pad fuel size (len + 1) (record s { send_buffer = update s.send_buffer (packet len) 0 }) in
      if len % 4 == 0 then done len s else if ltb (packet len) size then rest else overrun

  -- `while (tcp.availableForWrite() == 0);`, at most `fuel` polls of it.
  unfoldable pub wait_writable : ℕ → Act (Connection N) (Unit {0})
  wait_writable zero s = waiting
  wait_writable (suc fuel) s =
      let (room, w) = N.available_for_write s.world in
      let rest = wait_writable fuel (record s { world = w }) in
      if room == 0 then rest else done tt (record s { world = w })

  -- `send_vxi_packet` and `send_bind_packet` over TCP: header, padding and prefix, then the frame.
  unfoldable pub send_packet : ℕ → ℕ → ℕ → Act (Connection N) (Unit {0})
  send_packet polls size len = do
    modify (λ s.
        let xid = get_word s.read_buffer (packet (rpc_request_offset RpcRequest.xid)) in
        record s { send_buffer = fill_response_header xid s.send_buffer })
    len ← pad 3 size len
    modify (λ s. record s { send_buffer = set_word s.send_buffer 0 (2 ^ 31 + len % 2 ^ 31) })
    wait_writable polls
    touch size (len + 3)
    modify (λ s. record s { world = N.flush (N.write (slice s.send_buffer 0 (len + 4)) s.world) })
