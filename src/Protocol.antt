-- ===== src/Protocol.antt =====
-- protocol.go: the wire format, its writer and its reader. Here the message types and error codes.
pub mod Fixnum
pub mod Make
pub mod Reader
pub mod Read
pub mod Version
use gotalk.Common.{ℕ, Bytes, Bool, ◌||◌, ◌==◌}

abbrev pub protocol_version : ℕ
protocol_version = 1

abbrev pub msg_type_single_req : ℕ
msg_type_single_req = b'r'

abbrev pub msg_type_stream_req : ℕ
msg_type_stream_req = b's'

abbrev pub msg_type_stream_req_part : ℕ
msg_type_stream_req_part = b'p'

abbrev pub msg_type_single_res : ℕ
msg_type_single_res = b'R'

abbrev pub msg_type_stream_res : ℕ
msg_type_stream_res = b'S'

abbrev pub msg_type_error_res : ℕ
msg_type_error_res = b'E'

abbrev pub msg_type_retry_res : ℕ
msg_type_retry_res = b'e'

abbrev pub msg_type_notification : ℕ
msg_type_notification = b'n'

abbrev pub msg_type_heartbeat : ℕ
msg_type_heartbeat = b'h'

abbrev pub msg_type_protocol_error : ℕ
msg_type_protocol_error = b'f'

abbrev pub protocol_error_abnormal : ℕ
protocol_error_abnormal = 0

abbrev pub protocol_error_unsupported : ℕ
protocol_error_unsupported = 1

abbrev pub protocol_error_invalid_msg : ℕ
protocol_error_invalid_msg = 2

abbrev pub protocol_error_timeout : ℕ
protocol_error_timeout = 3

-- What `ReadMsg` returns besides the error. Of a heartbeat `wait` is the load and `size` the time.
pub record Msg : Type 0 where
  pub t : ℕ
  pub id : Bytes
  pub name : Bytes
  pub wait : ℕ
  pub size : ℕ
