-- ===== src/Sock.antt =====
-- sock.go, request.go and response.go: a socket's state, its pending responses, and what it writes.
pub mod Pending
pub mod Wire
pub mod Retry
pub mod Close
pub mod Closing
pub mod Serving
pub mod Streams
pub mod Loop
pub mod Sending
pub mod Setup
pub mod Dialing
pub mod Exchange
use gotalk.Common.{
  ℕ, suc, ◌+◌, ◌-◌, ◌*◌, ◌%◌, ◌^◌, Bool, true, false, not, ◌&&◌, List, [], ◌∷◌, Bytes, length,
  bytes_eq, ltb, leb, ◌==◌, if◌then◌else◌, Option, none, some, Result, ok, err, panic, ◌>>=◌, Error,
  sock_closed, abnormal, unsupported, invalid_msg, protocol_timeout, unknown_error,
  unexpected_streaming_res,
}
use gotalk.Common.Int.{ℤ, pos, negsuc, is_nonpos}
use gotalk.Protocol.{
  msg_type_single_req, msg_type_single_res, msg_type_stream_res, msg_type_error_res,
  msg_type_retry_res, msg_type_protocol_error, protocol_error_abnormal, protocol_error_unsupported,
  protocol_error_invalid_msg, protocol_error_timeout,
}
use gotalk.Protocol.Make.{make_msg}
use gotalk.Protocol.Reader.{Reader, readn}
use gotalk.Protocol.Version.{format_request_id}
use gotalk.Handlers.{FuncId, lookup, insert}

-- A result as `BufferRequest` gets it from its channel. `payload` is the field `Data`, and `wait` is a `time.Duration`.
pub record Response : Type 0 where
  pub t : ℕ
  pub payload : Bytes
  pub wait : ℤ

pub record Request : Type 0 where
  pub t : ℕ
  pub op : Bytes
  pub payload : Bytes

unfoldable pub new_request : Bytes → Bytes → Request
new_request op buf = record { t = msg_type_single_req; op = op; payload = buf }

unfoldable pub is_error : Response → Bool
is_error r = r.t == msg_type_error_res

unfoldable pub is_retry : Response → Bool
is_retry r = r.t == msg_type_retry_res

unfoldable pub is_streaming : Response → Bool
is_streaming r = r.t == msg_type_stream_res

-- What a connection answers to a call, from the calls of `Write` before it, the newest first.
pub record Conn : Type 0 where
  pub write : List Bytes → Bytes → Option Error
  pub close : List Bytes → Option Error

-- `is_open` says that `conn` is not nil, and `is_shutdown` that `shutdownWg` is not; `done_calls`
-- counts the calls of its `Done`. `close_code` and `closex` are 32 bits wide; `close_code` is read as
-- signed. A channel is known by a number, and the channels of requests are numbered as they are made,
-- from `next_chan` on. The logs have the newest first: `delivered` what was sent to the channels of
-- responses, `parts` what was sent to those of requests, where `none` is nil, `notes` the calls of
-- notification handlers, `heartbeats` the calls of `OnHeartbeat`, and `close_codes` the codes that
-- `CloseHandler` was called with, by their bits.
pub record Sock : Type 0 where
  pub is_open : Bool
  pub is_shutdown : Bool
  pub writes : List Bytes
  pub closex : ℕ
  pub close_code : ℕ
  pub next_op_id : ℕ
  pub pending_res : List (Bytes × Option ℕ)
  pub delivered : List (ℕ × Response)
  pub has_close_handler : Bool
  pub close_codes : List ℕ
  pub pending_req : List (Bytes × Option ℕ)
  pub next_chan : ℕ
  pub parts : List (ℕ × Option Bytes)
  pub notes : List (FuncId × Bytes × Bytes)
  pub has_on_heartbeat : Bool
  pub heartbeats : List (ℕ × ℕ)
  pub done_calls : ℕ

-- `delete(m, id)`
unfoldable pub delete : Bytes → List (Bytes × Option ℕ) → List (Bytes × Option ℕ)
delete id [] = []
delete id ((k, v) ∷ m) = if bytes_eq k id then delete id m else (k, v) ∷ delete id m

unfoldable pub register_res_chan : ℕ → Sock → Bytes × Sock
register_res_chan ch s =
    let id = format_request_id s.next_op_id in
    (
      id,
      record s {
        next_op_id = (s.next_op_id + 1) % 2 ^ 32;
        pending_res = insert id (some ch) s.pending_res;
      },
    )

unfoldable pub forget_found : Option ℕ → Bytes → Sock → Sock
forget_found none id s = s
forget_found (some ch) id s = record s { pending_res = delete id s.pending_res }

unfoldable pub forget_res_chan : Bytes → Sock → Sock
forget_res_chan id s = forget_found (lookup id s.pending_res) id s

-- `protocolError(code)`, by the bits of the int32
unfoldable pub protocol_error : ℕ → Error
protocol_error code =
    if code == protocol_error_abnormal
    then abnormal
    else if code == protocol_error_unsupported
    then unsupported
    else if code == protocol_error_invalid_msg
    then invalid_msg
    else if code == protocol_error_timeout
    then protocol_timeout
    else unknown_error

-- `closeCode - 1`
unfoldable pub code_of : ℕ → ℕ
code_of close_code = (close_code + 0xffff_ffff) % 2 ^ 32

unfoldable pub check_close_code : Sock → Option Error
check_close_code s =
    if s.close_code == 0 then none else some (protocol_error (code_of s.close_code))

-- The error of the close code, if there is one, in place of `e`.
unfoldable pub or_close_code : Sock → Error → Error
or_close_code s e = elim (check_close_code s) [ none ↦ e | some closed ↦ closed ]

-- `s.conn.Write(b)`
unfoldable pub write : Conn → Bytes → Sock → Option Error × Sock
write c b s = (c.write s.writes b, record s { writes = b ∷ s.writes })

unfoldable pub write_payload : Conn → Bytes → Option Error × Sock → Option Error × Sock
write_payload c buf (some e, s) = (some e, s)
write_payload c buf (none, s) = if length buf == 0 then (none, s) else write c buf s

unfoldable pub write_msg :
    Conn → ℕ → Bytes → Bytes → ℕ → Bytes → Sock → Result (Option Error × Sock)
write_msg c t id op wait buf s = if not s.is_open then ok (some sock_closed, s) else (do
  msg ← make_msg t id op wait (length buf % 2 ^ 32)
  ok (write_payload c buf (write c msg s)))

-- What `SendRequest` does with the error of `writeMsg`.
unfoldable pub sent : Bytes → Option Error × Sock → Option Error × Sock
sent id (none, s) = (none, s)
sent id (some e, s) = let s' = forget_res_chan id s in (some (or_close_code s' e), s')

unfoldable pub send_request : Conn → Request → ℕ → Sock → Result (Option Error × Sock)
send_request c r ch s = if s.is_shutdown then ok (some sock_closed, s) else (do
  let (id, s1) = register_res_chan ch s
  got ← write_msg c r.t id r.op 0 r.payload s1
  ok (sent id got))
