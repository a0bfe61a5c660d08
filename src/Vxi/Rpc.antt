-- ===== src/Vxi/Rpc.antt =====
-- The codes of the protocol: the enumerations of src/vxi11_server/rpc_enums.h, each with the numbers
-- of its enumerators.
use riden_dongle.Base.{ℕ}

pub data Port : Type 0 where
  bind_port vxi_port_start vxi_port_end : Port

abbrev pub port_code : Port → ℕ
port_code Port.bind_port = 111
port_code Port.vxi_port_start = 9010
port_code Port.vxi_port_end = 9010

pub data MsgType : Type 0 where
  call reply : MsgType

abbrev pub msg_type_code : MsgType → ℕ
msg_type_code MsgType.call = 0
msg_type_code MsgType.reply = 1

pub data ReplyState : Type 0 where
  msg_accepted msg_denied : ReplyState

abbrev pub reply_state_code : ReplyState → ℕ
reply_state_code ReplyState.msg_accepted = 0
reply_state_code ReplyState.msg_denied = 1

pub data RejectStatus : Type 0 where
  rpc_mismatch auth_error : RejectStatus

abbrev pub reject_status_code : RejectStatus → ℕ
reject_status_code RejectStatus.rpc_mismatch = 0
reject_status_code RejectStatus.auth_error = 1

pub data AuthStatus : Type 0 where
  auth_badcred auth_rejectedcred auth_badverf auth_rejectedverf auth_tooweak : AuthStatus

abbrev pub auth_status_code : AuthStatus → ℕ
auth_status_code AuthStatus.auth_badcred = 1
auth_status_code AuthStatus.auth_rejectedcred = 2
auth_status_code AuthStatus.auth_badverf = 3
auth_status_code AuthStatus.auth_rejectedverf = 4
auth_status_code AuthStatus.auth_tooweak = 5

pub data RpcStatus : Type 0 where
  success prog_unavail prog_mismatch proc_unavail garbage_args : RpcStatus

abbrev pub rpc_status_code : RpcStatus → ℕ
rpc_status_code RpcStatus.success = 0
rpc_status_code RpcStatus.prog_unavail = 1
rpc_status_code RpcStatus.prog_mismatch = 2
rpc_status_code RpcStatus.proc_unavail = 3
rpc_status_code RpcStatus.garbage_args = 4

pub data Program : Type 0 where
  portmap vxi_11_core : Program

abbrev pub program_code : Program → ℕ
program_code Program.portmap = 100000
program_code Program.vxi_11_core = 395183

pub data Procedure : Type 0 where
  get_port vxi_11_create_link vxi_11_dev_write vxi_11_dev_read vxi_11_destroy_link : Procedure

abbrev pub procedure_code : Procedure → ℕ
procedure_code Procedure.get_port = 3
procedure_code Procedure.vxi_11_create_link = 10
procedure_code Procedure.vxi_11_dev_write = 11
procedure_code Procedure.vxi_11_dev_read = 12
procedure_code Procedure.vxi_11_destroy_link = 23

pub data Error : Type 0 where
  no_error syntax_error not_accessible invalid_link parameter_error no_channel invalid_operation
        out_of_resources device_locked no_lock_held io_timeout lock_timeout invalid_address abort
        duplicate_channel :
      Error

abbrev pub error_code : Error → ℕ
error_code Error.no_error = 0
error_code Error.syntax_error = 1
error_code Error.not_accessible = 3
error_code Error.invalid_link = 4
error_code Error.parameter_error = 5
error_code Error.no_channel = 6
error_code Error.invalid_operation = 8
error_code Error.out_of_resources = 9
error_code Error.device_locked = 11
error_code Error.no_lock_held = 12
error_code Error.io_timeout = 15
error_code Error.lock_timeout = 17
error_code Error.invalid_address = 21
error_code Error.abort = 23
error_code Error.duplicate_channel = 29

pub data Reason : Type 0 where
  end chr reqcnt : Reason

abbrev pub reason_code : Reason → ℕ
reason_code Reason.end = 4
reason_code Reason.chr = 2
reason_code Reason.reqcnt = 1
