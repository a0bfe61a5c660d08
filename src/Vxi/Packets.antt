-- ===== src/Vxi/Packets.antt =====
-- The packet structures of src/vxi11_server/rpc_packets.h: the fields of each in their order, and
-- where in the packet each begins. All fields but the trailing bytes (`data`, `term_char`) are
-- 32-bit words.
use riden_dongle.Base.{ℕ}

-- The words that every request begins with.
pub data RpcRequest : Type 0 where
  xid msg_type rpc_version program program_version procedure credentials_l credentials_h verifier_l
        verifier_h :
      RpcRequest

abbrev pub rpc_request_offset : RpcRequest → ℕ
rpc_request_offset RpcRequest.xid = 0
rpc_request_offset RpcRequest.msg_type = 4
rpc_request_offset RpcRequest.rpc_version = 8
rpc_request_offset RpcRequest.program = 12
rpc_request_offset RpcRequest.program_version = 16
rpc_request_offset RpcRequest.procedure = 20
rpc_request_offset RpcRequest.credentials_l = 24
rpc_request_offset RpcRequest.credentials_h = 28
rpc_request_offset RpcRequest.verifier_l = 32
rpc_request_offset RpcRequest.verifier_h = 36

-- The words that every response begins with.
pub data RpcResponse : Type 0 where
  xid msg_type reply_state verifier_l verifier_h rpc_status : RpcResponse

abbrev pub rpc_response_offset : RpcResponse → ℕ
rpc_response_offset RpcResponse.xid = 0
rpc_response_offset RpcResponse.msg_type = 4
rpc_response_offset RpcResponse.reply_state = 8
rpc_response_offset RpcResponse.verifier_l = 12
rpc_response_offset RpcResponse.verifier_h = 16
rpc_response_offset RpcResponse.rpc_status = 20

pub data BindRequest : Type 0 where
  xid msg_type rpc_version program program_version procedure credentials_l credentials_h verifier_l
        verifier_h getport_program getport_version getport_protocol getport_port :
      BindRequest

abbrev pub bind_request_offset : BindRequest → ℕ
bind_request_offset BindRequest.xid = 0
bind_request_offset BindRequest.msg_type = 4
bind_request_offset BindRequest.rpc_version = 8
bind_request_offset BindRequest.program = 12
bind_request_offset BindRequest.program_version = 16
bind_request_offset BindRequest.procedure = 20
bind_request_offset BindRequest.credentials_l = 24
bind_request_offset BindRequest.credentials_h = 28
bind_request_offset BindRequest.verifier_l = 32
bind_request_offset BindRequest.verifier_h = 36
bind_request_offset BindRequest.getport_program = 40
bind_request_offset BindRequest.getport_version = 44
bind_request_offset BindRequest.getport_protocol = 48
bind_request_offset BindRequest.getport_port = 52

pub data BindResponse : Type 0 where
  xid msg_type reply_state verifier_l verifier_h rpc_status vxi_port : BindResponse

abbrev pub bind_response_offset : BindResponse → ℕ
bind_response_offset BindResponse.xid = 0
bind_response_offset BindResponse.msg_type = 4
bind_response_offset BindResponse.reply_state = 8
bind_response_offset BindResponse.verifier_l = 12
bind_response_offset BindResponse.verifier_h = 16
bind_response_offset BindResponse.rpc_status = 20
bind_response_offset BindResponse.vxi_port = 24

pub data CreateRequest : Type 0 where
  xid msg_type rpc_version program program_version procedure credentials_l credentials_h verifier_l
        verifier_h client_id lock_device lock_timeout data_len bytes :
      CreateRequest

abbrev pub create_request_offset : CreateRequest → ℕ
create_request_offset CreateRequest.xid = 0
create_request_offset CreateRequest.msg_type = 4
create_request_offset CreateRequest.rpc_version = 8
create_request_offset CreateRequest.program = 12
create_request_offset CreateRequest.program_version = 16
create_request_offset CreateRequest.procedure = 20
create_request_offset CreateRequest.credentials_l = 24
create_request_offset CreateRequest.credentials_h = 28
create_request_offset CreateRequest.verifier_l = 32
create_request_offset CreateRequest.verifier_h = 36
create_request_offset CreateRequest.client_id = 40
create_request_offset CreateRequest.lock_device = 44
create_request_offset CreateRequest.lock_timeout = 48
create_request_offset CreateRequest.data_len = 52
create_request_offset CreateRequest.bytes = 56

pub data CreateResponse : Type 0 where
  xid msg_type reply_state verifier_l verifier_h rpc_status error link_id abort_port
        max_receive_size :
      CreateResponse

abbrev pub create_response_offset : CreateResponse → ℕ
create_response_offset CreateResponse.xid = 0
create_response_offset CreateResponse.msg_type = 4
create_response_offset CreateResponse.reply_state = 8
create_response_offset CreateResponse.verifier_l = 12
create_response_offset CreateResponse.verifier_h = 16
create_response_offset CreateResponse.rpc_status = 20
create_response_offset CreateResponse.error = 24
create_response_offset CreateResponse.link_id = 28
create_response_offset CreateResponse.abort_port = 32
create_response_offset CreateResponse.max_receive_size = 36

pub data DestroyRequest : Type 0 where
  xid msg_type rpc_version program program_version procedure credentials_l credentials_h verifier_l
        verifier_h link_id :
      DestroyRequest

abbrev pub destroy_request_offset : DestroyRequest → ℕ
destroy_request_offset DestroyRequest.xid = 0
destroy_request_offset DestroyRequest.msg_type = 4
destroy_request_offset DestroyRequest.rpc_version = 8
destroy_request_offset DestroyRequest.program = 12
destroy_request_offset DestroyRequest.program_version = 16
destroy_request_offset DestroyRequest.procedure = 20
destroy_request_offset DestroyRequest.credentials_l = 24
destroy_request_offset DestroyRequest.credentials_h = 28
destroy_request_offset DestroyRequest.verifier_l = 32
destroy_request_offset DestroyRequest.verifier_h = 36
destroy_request_offset DestroyRequest.link_id = 40

pub data DestroyResponse : Type 0 where
  xid msg_type reply_state verifier_l verifier_h rpc_status error : DestroyResponse

abbrev pub destroy_response_offset : DestroyResponse → ℕ
destroy_response_offset DestroyResponse.xid = 0
destroy_response_offset DestroyResponse.msg_type = 4
destroy_response_offset DestroyResponse.reply_state = 8
destroy_response_offset DestroyResponse.verifier_l = 12
destroy_response_offset DestroyResponse.verifier_h = 16
destroy_response_offset DestroyResponse.rpc_status = 20
destroy_response_offset DestroyResponse.error = 24

pub data ReadRequest : Type 0 where
  xid msg_type rpc_version program program_version procedure credentials_l credentials_h verifier_l
        verifier_h link_id request_size io_timeout lock_timeout flags term_char :
      ReadRequest

abbrev pub read_request_offset : ReadRequest → ℕ
read_request_offset ReadRequest.xid = 0
read_request_offset ReadRequest.msg_type = 4
read_request_offset ReadRequest.rpc_version = 8
read_request_offset ReadRequest.program = 12
read_request_offset ReadRequest.program_version = 16
read_request_offset ReadRequest.procedure = 20
read_request_offset ReadRequest.credentials_l = 24
read_request_offset ReadRequest.credentials_h = 28
read_request_offset ReadRequest.verifier_l = 32
read_request_offset ReadRequest.verifier_h = 36
read_request_offset ReadRequest.link_id = 40
read_request_offset ReadRequest.request_size = 44
read_request_offset ReadRequest.io_timeout = 48
read_request_offset ReadRequest.lock_timeout = 52
read_request_offset ReadRequest.flags = 56
read_request_offset ReadRequest.term_char = 60

pub data ReadResponse : Type 0 where
  xid msg_type reply_state verifier_l verifier_h rpc_status error reason data_len bytes :
      ReadResponse

abbrev pub read_response_offset : ReadResponse → ℕ
read_response_offset ReadResponse.xid = 0
read_response_offset ReadResponse.msg_type = 4
read_response_offset ReadResponse.reply_state = 8
read_response_offset ReadResponse.verifier_l = 12
read_response_offset ReadResponse.verifier_h = 16
read_response_offset ReadResponse.rpc_status = 20
read_response_offset ReadResponse.error = 24
read_response_offset ReadResponse.reason = 28
read_response_offset ReadResponse.data_len = 32
read_response_offset ReadResponse.bytes = 36

pub data WriteRequest : Type 0 where
  xid msg_type rpc_version program program_version procedure credentials_l credentials_h verifier_l
        verifier_h link_id io_timeout lock_timeout flags data_len bytes :
      WriteRequest

abbrev pub write_request_offset : WriteRequest → ℕ
write_request_offset WriteRequest.xid = 0
write_request_offset WriteRequest.msg_type = 4
write_request_offset WriteRequest.rpc_version = 8
write_request_offset WriteRequest.program = 12
write_request_offset WriteRequest.program_version = 16
write_request_offset WriteRequest.procedure = 20
write_request_offset WriteRequest.credentials_l = 24
write_request_offset WriteRequest.credentials_h = 28
write_request_offset WriteRequest.verifier_l = 32
write_request_offset WriteRequest.verifier_h = 36
write_request_offset WriteRequest.link_id = 40
write_request_offset WriteRequest.io_timeout = 44
write_request_offset WriteRequest.lock_timeout = 48
write_request_offset WriteRequest.flags = 52
write_request_offset WriteRequest.data_len = 56
write_request_offset WriteRequest.bytes = 60

pub data WriteResponse : Type 0 where
  xid msg_type reply_state verifier_l verifier_h rpc_status error size : WriteResponse

abbrev pub write_response_offset : WriteResponse → ℕ
write_response_offset WriteResponse.xid = 0
write_response_offset WriteResponse.msg_type = 4
write_response_offset WriteResponse.reply_state = 8
write_response_offset WriteResponse.verifier_l = 12
write_response_offset WriteResponse.verifier_h = 16
write_response_offset WriteResponse.rpc_status = 20
write_response_offset WriteResponse.error = 24
write_response_offset WriteResponse.size = 28
