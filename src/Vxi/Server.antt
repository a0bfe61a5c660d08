-- ===== src/Vxi/Server.antt =====
-- The class VXI_Server of src/vxi11_server/vxi_server.cpp, without its log and mDNS output.
pub mod Dispatch
pub mod Replies
pub mod Queries
pub mod Commands
pub mod Loop
pub mod Overrun
use riden_dongle.Base.{
  ℕ, zero, suc, ◌+◌, ◌-◌, ◌*◌, ◌%◌, ◌^◌, Bool, true, false, not, ◌&&◌, ◌||◌, List, [], ◌∷◌, Option,
  none, some, ltb, leb, ◌==◌, if◌then◌else◌, length,
}
use riden_dongle.Base.Memory.{slice, update, updates, find_nul}
use riden_dongle.Vxi.Cyclic.{Cyclic, is_noncyclic, goto_next}
use riden_dongle.Vxi.Words.{get_word, set_word}
use riden_dongle.Vxi.Packets.{
  RpcRequest, rpc_request_offset, RpcResponse, rpc_response_offset, CreateRequest,
  create_request_offset, CreateResponse, create_response_offset, DestroyResponse,
  destroy_response_offset, ReadResponse, read_response_offset, WriteRequest, write_request_offset,
  WriteResponse, write_response_offset,
}
use riden_dongle.Vxi.Rpc.{
  RpcStatus, rpc_status_code, Program, program_code, Procedure, procedure_code, Error, error_code,
  Reason, reason_code,
}
use riden_dongle.Vxi.Net.{
  Net, Handler, Run, done, waiting, overrun, Act, ◌>>=◌, ◌>>◌, return, gets, modify,
}
use riden_dongle.Vxi.Transport.{Connection, packet, touch, get_packet, send_packet}

-- `VXI_READ_SIZE` and `VXI_SEND_SIZE`.
abbrev pub vxi_size : ℕ
vxi_size = 256

-- `isspace` in the C locale.
abbrev pub isspace : ℕ → Bool
isspace c = (leb 9 c && leb c 13) || (c == 32)

-- `while (len > 0 && isspace(data[len - 1])) len--`, with the data at `base` of the buffer.
abbrev pub trim : (ℕ → ℕ) → ℕ → ℕ → ℕ
trim b base zero = 0
trim b base (suc len) = if isspace (b (base + len)) then trim b base len else suc len

module _ (N : Net) (H : Handler) where
  -- `outbuffer` is what the stack holds where `read` has its local buffer.
  pub record VxiServer : Type 0 where
    pub connection : Connection N
    pub vxi_port : Cyclic
    pub scpi : H.State
    pub outbuffer : ℕ → ℕ

module _ {N : Net} {H : Handler} where
  abbrev pub on_connection {ℓ} : {A : Type ℓ} → Act (Connection N) A → Act (VxiServer N H) A
  on_connection m s = elim (m s.connection) [
    | done a c ↦ done a (record s { connection = c })
    | waiting ↦ waiting
    | overrun ↦ overrun
  ]

  -- A word of the request, and one of the response, by the offset of its field.
  abbrev pub request_word : ℕ → Act (VxiServer N H) ℕ
  request_word at s = done (get_word s.connection.read_buffer (packet at)) s

  abbrev pub respond_word : ℕ → ℕ → Act (VxiServer N H) (Unit {0})
  respond_word at value s =
      let b = set_word s.connection.send_buffer (packet at) value in
      done tt (record s { connection = record s.connection { send_buffer = b } })

  -- A byte of the request that the server overwrites.
  abbrev pub store_byte : ℕ → ℕ → Act (VxiServer N H) (Unit {0})
  store_byte at v = do
    touch vxi_size (packet at)
    modify (λ s.
        let b = update s.connection.read_buffer (packet at) v in
        record s { connection = record s.connection { read_buffer = b } })

  abbrev pub on_world : (N.World → N.World) → VxiServer N H → VxiServer N H
  on_world f s = record s { connection = record s.connection { world = f s.connection.world } }

  unfoldable pub available : VxiServer N H → Bool
  available s = not (N.client s.connection.world)

  unfoldable pub allocate : VxiServer N H → ℕ
  unfolding available
  allocate s = if available s then s.vxi_port.m_data else 0

  -- `begin()` and `begin(true)`.
  unfoldable pub begin : VxiServer N H → VxiServer N H
  begin s = on_world (N.begin_server s.vxi_port.m_data) s

  unfoldable pub begin_next : VxiServer N H → VxiServer N H
  unfolding begin
  begin_next s =
      let stopped = on_world N.stop s in
      if is_noncyclic s.vxi_port
      then stopped
      else begin (record (on_world N.stop_server stopped) { vxi_port = goto_next s.vxi_port })

  -- `strcpy(read_response->data, outbuffer)`, by where the string of `outbuffer` ends.
  abbrev pub copy_until : Option ℕ → Act (VxiServer N H) (Unit {0})
  copy_until none s = overrun
  copy_until (some n) s =
      let at = packet (read_response_offset ReadResponse.bytes) in
      let b = updates s.connection.send_buffer at (slice s.outbuffer 0 (n + 1)) in
      let copied = record s { connection = record s.connection { send_buffer = b } } in
      if ltb (at + n) vxi_size then done tt copied else overrun

  abbrev pub copy_string : Act (VxiServer N H) (Unit {0})
  copy_string s = copy_until (find_nul s.outbuffer 0 256) s

  -- Reading `data[len - 1]` for the first time, where `len > 0`.
  abbrev pub check_last : ℕ → Act (VxiServer N H) (Unit {0})
  check_last len s =
      if leb (packet (write_request_offset WriteRequest.bytes + len)) vxi_size || (len == 0)
      then done tt s
      else overrun

  -- `if (bClose)`.
  abbrev pub close_if : Bool → Act (VxiServer N H) (Unit {0})
  close_if close s = done tt (if close then begin_next s else s)

  module _ (polls : ℕ) where
    abbrev pub send : ℕ → Act (VxiServer N H) (Unit {0})
    send len = on_connection (send_packet N polls vxi_size len)

    abbrev pub respond_create : ℕ → ℕ → Act (VxiServer N H) (Unit {0})
    respond_create error max_receive_size = do
      respond_word (create_response_offset CreateResponse.rpc_status)
          (rpc_status_code RpcStatus.success)
      respond_word (create_response_offset CreateResponse.error) error
      respond_word (create_response_offset CreateResponse.link_id) 0
      respond_word (create_response_offset CreateResponse.abort_port) 0
      respond_word (create_response_offset CreateResponse.max_receive_size) max_receive_size
      send 40

    -- The rest of `create_link`, once control is claimed or refused.
    abbrev pub answer_create : Bool → Act (VxiServer N H) (Unit {0})
    answer_create false = respond_create (error_code Error.out_of_resources) 0
    answer_create true = do
      data_len ← request_word (create_request_offset CreateRequest.data_len)
      store_byte (create_request_offset CreateRequest.bytes + data_len) 0
      respond_create (error_code Error.no_error) (vxi_size - 4)

    unfoldable pub create_link : Act (VxiServer N H) (Unit {0})
    create_link s =
        let (claimed, scpi) = H.claim_control s.scpi in
        answer_create claimed (record s { scpi = scpi })

    unfoldable pub destroy_link : Act (VxiServer N H) (Unit {0})
    destroy_link = do
      respond_word (destroy_response_offset DestroyResponse.rpc_status)
          (rpc_status_code RpcStatus.success)
      respond_word (destroy_response_offset DestroyResponse.error) (error_code Error.no_error)
      send 28
      modify (λ s. record s { scpi = H.release_control s.scpi })

    unfoldable pub read : Act (VxiServer N H) (Unit {0})
    read s =
        let (bytes, scpi) = H.read 256 s.scpi in
        (do
          respond_word (read_response_offset ReadResponse.rpc_status)
              (rpc_status_code RpcStatus.success)
          respond_word (read_response_offset ReadResponse.error) (error_code Error.no_error)
          respond_word (read_response_offset ReadResponse.reason) (reason_code Reason.end)
          respond_word (read_response_offset ReadResponse.data_len) (length bytes % 2 ^ 32)
          copy_string
          send (36 + length bytes))
          (record s { scpi = scpi; outbuffer = updates s.outbuffer 0 bytes })

    unfoldable pub write : Act (VxiServer N H) (Unit {0})
    write = do
      wlen ← request_word (write_request_offset WriteRequest.data_len)
      check_last wlen
      len ← gets (λ s.
          trim s.connection.read_buffer (packet (write_request_offset WriteRequest.bytes)) wlen)
      store_byte (write_request_offset WriteRequest.bytes + len) 0
      modify (λ s.
          let bytes =
            slice s.connection.read_buffer (packet (write_request_offset WriteRequest.bytes)) len in
          record s { scpi = H.write bytes s.scpi })
      respond_word (write_response_offset WriteResponse.rpc_status)
          (rpc_status_code RpcStatus.success)
      respond_word (write_response_offset WriteResponse.error) (error_code Error.no_error)
      respond_word (write_response_offset WriteResponse.size) wlen
      send 32

    -- `rc` is not `SUCCESS`.
    abbrev pub refuse : ℕ → Act (VxiServer N H) Bool
    refuse rc = do
      respond_word (rpc_response_offset RpcResponse.rpc_status) rc
      send 24
      return false

    -- Whether the connection is to be closed.
    unfoldable pub handle_packet : Act (VxiServer N H) Bool
    handle_packet s =
        let b = s.connection.read_buffer in
        let procedure = get_word b (packet (rpc_request_offset RpcRequest.procedure)) in
        if get_word b (packet (rpc_request_offset RpcRequest.program))
          == program_code Program.vxi_11_core
        then if procedure == procedure_code Procedure.vxi_11_create_link
          then (create_link >> return false) s
          else if procedure == procedure_code Procedure.vxi_11_dev_read
          then (read >> return false) s
          else if procedure == procedure_code Procedure.vxi_11_dev_write
          then (write >> return false) s
          else if procedure == procedure_code Procedure.vxi_11_destroy_link
          then (destroy_link >> return true) s
          else refuse (rpc_status_code RpcStatus.proc_unavail) s
        else refuse (rpc_status_code RpcStatus.prog_unavail) s

    -- The branch of `loop` for a client that is connected.
    abbrev pub serve : Act (VxiServer N H) Bool
    serve = do
      len ← on_connection (get_packet N vxi_size)
      (λ t. if ltb 0 len then handle_packet t else done false t)

    unfoldable pub loop : Act (VxiServer N H) (Unit {0})
    loop s =
        let w = s.connection.world in
        if N.client w
        then if N.connected w then (serve >>= close_if) s else close_if true s
        else done tt (on_world N.accept s)

  unfoldable pub get_connected_clients : VxiServer N H → List ℕ
  get_connected_clients s =
      let w = s.connection.world in if N.client w && N.connected w then N.remote_ip w ∷ [] else []

  unfoldable pub disconnect_client : ℕ → VxiServer N H → VxiServer N H
  disconnect_client ip s =
      let w = s.connection.world in
      if N.client w && N.connected w && (N.remote_ip w == ip)
      then record (on_world N.stop s) { scpi = H.release_control s.scpi }
      else s
