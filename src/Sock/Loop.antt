-- ===== src/Sock/Loop.antt =====
-- `Read`: the loop that reads messages and serves them.
pub mod Shrinking
pub mod Tidy
pub mod Ends
pub mod Leaving
pub mod Closes
use gotalk.Protocol.Reader.Exact.{stream}
use gotalk.Sock.Pending.{read_response}
use gotalk.Protocol.Read.{read_msg}
use gotalk.Sock.Close.{set_protocol_error, close_error, close}
use gotalk.Common.Int.{ℤ, is_zero, is_nonpos, lt_ℤ, pos}
use gotalk.Sock.Streams.{StreamJob, read_stream_req, read_stream_req_part}
use gotalk.Protocol.Reader.{Reader, readn}
use gotalk.Limits.{Limits, LimitsImpl, make_limits_impl, millisecond}
use gotalk.Protocol.{
  Msg, msg_type_single_req, msg_type_single_res, protocol_error_timeout, msg_type_stream_req,
  msg_type_stream_res, msg_type_error_res, msg_type_retry_res, msg_type_stream_req_part,
  msg_type_notification, msg_type_heartbeat, msg_type_protocol_error, protocol_error_invalid_msg,
}
use gotalk.Sock.Serving.{Job, read_buffer_req}
use gotalk.Sock.{Conn, Sock, protocol_error}
use gotalk.Common.{
  Bytes, Error, Option, ℕ, Bool, List, Result, some, if◌then◌else◌, none, ok, ◌==◌, ◌>>=◌, ◌∷◌, [],
  err, suc, panic, sock_closed, zero, ◌+◌, ◌||◌, eof, not, timeout, ◌&&◌, length, replicate,
  invalid_msg,
}
use gotalk.Handlers.{FuncId}

-- What the loop is given: its connection and what this answers, the random draws and the deadlines by
-- round, the lookups of the socket's handlers, and what the other goroutines do to the socket and its
-- limits before each round. A connection that takes no deadline has none.
pub record Outside : Type 0 where
  pub conn : Conn
  pub is_pipe : Bool
  pub set_read_deadline : Option (ℕ → Option Error)
  pub text : Error → Bytes
  pub has_room : ℕ → Bool
  pub draw : ℕ → ℕ → ℕ
  pub find_buffer : Bytes → Option FuncId
  pub find_stream : Bytes → Option FuncId
  pub find_note : Bytes → Option FuncId
  pub heartbeat_interval : ℤ
  pub between : ℕ → LimitsImpl × Sock → LimitsImpl × Sock

-- A goroutine that the loop starts.
pub data Task : Type 0 where
  buffer_task : Job → Task
  stream_task : StreamJob → Task

-- The loop goes on unless there is an error, or it is left at once with one.
pub data Verdict : Type 0 where
  carry_on : Option Error → Verdict
  leave : Error → Verdict

abbrev pub Handled : Type 0
Handled = Verdict × Option Task × Reader × LimitsImpl × Sock

unfoldable pub with_task {ℓ} : {J : Type ℓ} → (J → Task) → Option J → Option Task
with_task f none = none
with_task f (some j) = some (f j)

-- `readNotification` behind its payload
unfoldable pub call_note :
    FuncId → Bytes → Bytes × Option Error × Reader → Sock → Option Error × Reader × Sock
call_note handler name (buf, some e, r) s = (some e, r, s)
call_note handler name (buf, none, r) s =
    (none, r, record s { notes = (handler, name, buf) ∷ s.notes })

unfoldable pub notify_with :
    Option FuncId → Bytes → ℕ → Reader → Sock → Option Error × Reader × Sock
notify_with none name size r s = ((readn r size).1, (readn r size).2, s)
notify_with (some handler) name size r s = call_note handler name (readn r size) s

unfoldable pub read_notification :
    (Bytes → Option FuncId) → Bytes → ℕ → Reader → Sock → Option Error × Reader × Sock
read_notification find name size r s = notify_with (find name) name size r s

unfoldable pub is_response : ℕ → Bool
is_response t =
    t == msg_type_single_res
    || (t == msg_type_stream_res || (t == msg_type_error_res || t == msg_type_retry_res))

unfoldable pub on_heartbeat : ℕ → ℕ → Sock → Sock
on_heartbeat load time s =
    if s.has_on_heartbeat then record s { heartbeats = (load, time) ∷ s.heartbeats } else s

-- A protocol error from the peer: its code becomes the close code.
unfoldable pub on_protocol_error : Outside → ℕ → Sock → Result Sock
on_protocol_error o code s =
    let s1 = set_protocol_error code s in
    if s1.is_shutdown then ok s1 else (do (e, s2) ← close o.conn o.text o.has_room s1; ok s2)

-- The `switch` on the message's type
unfoldable pub handle_msg : Outside → ℕ → Msg → Reader → LimitsImpl → Sock → Result Handled
handle_msg o n m r lim s =
    if m.t == msg_type_single_req
    then (do
      (e, lim', job, r', s') ←
          read_buffer_req o.conn (o.draw n) o.find_buffer lim m.id m.name m.size r s
      ok (carry_on e, with_task buffer_task job, r', lim', s'))
    else if m.t == msg_type_stream_req
    then (do
      (e, lim', job, r', s') ←
          read_stream_req o.conn (o.draw n) o.find_stream lim m.id m.name m.size r s
      ok (carry_on e, with_task stream_task job, r', lim', s'))
    else if m.t == msg_type_stream_req_part
    then (do
      (e, lim', job, r', s') ← ok (read_stream_req_part lim m.id m.size r s)
      ok (carry_on e, with_task stream_task job, r', lim', s'))
    else if is_response m.t
    then (do
      (e, r', s') ← ok (read_response m.t m.id m.wait m.size r s)
      ok (carry_on e, none, r', lim, s'))
    else if m.t == msg_type_notification
    then (do
      (e, r', s') ← ok (read_notification o.find_note m.name m.size r s)
      ok (carry_on e, none, r', lim, s'))
    else if m.t == msg_type_heartbeat
    then ok (carry_on none, none, r, lim, on_heartbeat m.wait m.size s)
    else if m.t == msg_type_protocol_error
    then (do
      s' ← on_protocol_error o m.size s
      ok (leave (protocol_error m.size), none, r, lim, s'))
    else (do
      (e, s') ← close_error o.conn o.text o.has_room protocol_error_invalid_msg s
      ok (leave invalid_msg, none, r, lim, s'))

-- The end of the connection closes the socket, and so does any failure but a timeout, which is then
-- reported as an end; a timeout closes it with an error, unless it is being shut down.
unfoldable pub on_error : Outside → Error → Sock → Result (Error × Sock)
on_error o timeout s = if s.is_shutdown then ok (timeout, s) else (do
  (e, s') ← close_error o.conn o.text o.has_room protocol_error_timeout s
  ok (timeout, s'))
on_error o _ s = do (e, s') ← close o.conn o.text o.has_room s; ok (eof, s')

-- How a round ends: the loop goes on, is left, or returns at once because of a deadline.
pub data Next : Type 0 where
  again : Option Task → Reader → Bytes → LimitsImpl → Sock → Next
  exit : Option Task → Error → LimitsImpl → Sock → Next
  return_now : Error → LimitsImpl → Sock → Next

unfoldable pub after_msg : Outside → Bytes → Handled → Result Next
after_msg o b (carry_on none, task, r, lim, s) = ok (again task r b lim s)
after_msg o b (carry_on (some e), task, r, lim, s) = do
  (e', s') ← on_error o e s
  ok (exit task e' lim s')
after_msg o b (leave e, task, r, lim, s) = ok (exit task e lim s)

unfoldable pub serve_msg :
    Outside → ℕ → LimitsImpl → Sock → Result (Msg × Reader × Bytes) → Result Next
serve_msg o n lim s (ok (m, r, b)) = handle_msg o n m r lim s >>= after_msg o b
serve_msg o n lim s (err e) = do (e', s') ← on_error o e s; ok (exit none e' lim s')
serve_msg o n lim s panic = panic

-- `SetReadDeadline`, where there is a read timeout and the connection is no pipe
unfoldable pub deadline_error : Outside → ℕ → LimitsImpl → Option Error
deadline_error o n lim =
    if is_zero lim.read_timeout || o.is_pipe
    then none
    else elim o.set_read_deadline [ none ↦ none | some set ↦ set n ]

unfoldable pub turn : Outside → ℕ → Reader → Bytes → LimitsImpl → Sock → Result Next
turn o n r b lim s = elim (deadline_error o n lim) [
  | some e ↦ (do (e', s') ← close o.conn o.text o.has_room s; ok (return_now e lim s'))
  | none ↦ serve_msg o n lim s (read_msg r b)
]

-- Behind the loop: a socket that is shut down is closed, and `Done` is called.
unfoldable pub wind_up : Outside → Error → LimitsImpl → Sock → Result (Error × LimitsImpl × Sock)
wind_up o e lim s =
    if s.is_shutdown
    then (do
      (e', s') ← close o.conn o.text o.has_room s
      ok (e, lim, record s' { done_calls = s'.done_calls + 1 }))
    else ok (e, lim, s)

-- The goroutines started, in order, and the error, or `none` where the fuel runs out.
abbrev pub Ended : Type 0
Ended = Option (List Task × Error × LimitsImpl × Sock)

abbrev pub started : Option Task → List Task → List Task
started none ts = ts
started (some t) ts = t ∷ ts

unfoldable pub and_started : Option Task → Ended → Ended
and_started task none = none
and_started task (some (ts, e, lim, s)) = some (started task ts, e, lim, s)

unfoldable pub read_loop : Outside → ℕ → ℕ → Reader → Bytes → LimitsImpl → Sock → Result Ended
read_loop o zero n r b lim s = ok none
read_loop o (suc fuel) n r b lim s = do
  let (lim0, s0) = o.between n (lim, s)
  next ← turn o n r b lim0 s0
  elim next [
    | again task r' b' lim' s' ↦ (do
      ended ← read_loop o fuel (suc n) r' b' lim' s'
      ok (and_started task ended))
    | exit task e lim' s' ↦ (do
      (e', lim'', s'') ← wind_up o e lim' s'
      ok (some (started task [], e', lim'', s'')))
    | return_now e lim' s' ↦ ok (some ([], e, lim', s'))
  ]

-- Each message takes a byte at least of what the connection will give.
unfoldable pub read : Outside → Option Limits → Reader → Sock → Result Ended
read o limits r s =
    let lim = make_limits_impl limits in
    if s.is_shutdown
    then ok (some ([], sock_closed, lim, s))
    else if not (is_nonpos o.heartbeat_interval)
        && (not o.is_pipe && lt_ℤ o.heartbeat_interval (pos millisecond))
    then panic
    else read_loop o (suc (length (stream r))) 0 r (replicate 128 0) lim s
