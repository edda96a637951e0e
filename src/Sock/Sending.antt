-- ===== src/Sock/Sending.antt =====
-- What a socket's user sends: notifications, requests with encoded values, and streaming requests.
pub mod Parts
use gotalk.Protocol.{msg_type_notification, msg_type_stream_req, msg_type_stream_req_part}
use gotalk.Sock.Retry.{Outcome, answered, Answer, failed_with, buffer_request, refused, waiting}
use gotalk.Sock.{Conn, Sock, register_res_chan, write_msg, forget_res_chan}
use gotalk.Common.{
  Bool, Bytes, Error, Option, Result, if◌then◌else◌, ok, some, ℕ, ◌>>=◌, List, err, length, none,
  sock_closed, false, panic, ◌==◌, [], true,
}

-- `BufferNotify`
unfoldable pub buffer_notify : Conn → Bytes → Bytes → Sock → Result (Option Error × Sock)
buffer_notify c name buf s =
    if s.is_shutdown
    then ok (some sock_closed, s)
    else write_msg c msg_type_notification [] name 0 buf s

unfoldable pub notify_encoded : Conn → Bytes → Result Bytes → Sock → Result (Option Error × Sock)
notify_encoded c name (ok buf) s = buffer_notify c name buf s
notify_encoded c name (err e) s = ok (some e, s)
notify_encoded c name panic s = panic

-- `Notify`; the JSON encoding is `marshal`.
unfoldable pub notify {ℓ} :
    {A : Type ℓ} → (A → Result Bytes) → Conn → Bytes → A → Sock → Result (Option Error × Sock)
notify marshal c name v s = notify_encoded c name (marshal v) s

-- How `Request` ends: as `BufferRequest` does, but with the decoded result.
pub data Reply {ℓ} (B : Type ℓ) : Type ℓ where
  decoded : B → Reply B
  not_decoded : Error → Reply B
  not_encoded : Error → Reply B
  not_answered : Outcome → Reply B

unfoldable pub decode_outcome {ℓ} : {B : Type ℓ} → (Bytes → Result B) → Outcome → Result (Reply B)
decode_outcome unmarshal (answered b) = elim (unmarshal b) [
  | ok v ↦ ok (decoded v)
  | err e ↦ ok (not_decoded e)
  | panic ↦ panic
]
decode_outcome unmarshal (failed_with e) = ok (not_answered (failed_with e))
decode_outcome unmarshal (refused m) = ok (not_answered (refused m))
decode_outcome unmarshal waiting = ok (not_answered waiting)

unfoldable pub request_encoded {ℓ} :
    {B : Type ℓ}
    → (Bytes → Result B)
    → Conn
    → Bytes
    → ℕ
    → List Answer
    → Sock
    → Result Bytes
    → Result (Reply B × Sock)
request_encoded unmarshal c op ch answers s (ok buf) = do
  (out, s') ← buffer_request c op buf ch answers s
  reply ← decode_outcome unmarshal out
  ok (reply, s')
request_encoded unmarshal c op ch answers s (err e) = ok (not_encoded e, s)
request_encoded unmarshal c op ch answers s panic = panic

-- `Request`; the JSON encoding and decoding are `marshal` and `unmarshal`.
unfoldable pub request {ℓ κ} :
    {A : Type ℓ} {B : Type κ}
    → (A → Result Bytes)
    → (Bytes → Result B)
    → Conn
    → Bytes
    → A
    → ℕ
    → List Answer
    → Sock
    → Result (Reply B × Sock)
request marshal unmarshal c op v ch answers s =
    request_encoded unmarshal c op ch answers s (marshal v)

-- `StreamRequest` of request.go
pub record StreamRequest : Type 0 where
  pub op : Bytes
  pub id : Bytes
  pub started : Bool

-- `Sock.StreamRequest`, with the channel for its results
unfoldable pub stream_request : Bytes → ℕ → Sock → StreamRequest × Sock
stream_request op ch s =
    let (id, s') = register_res_chan ch s in (record { op = op; id = id; started = false }, s')

unfoldable pub finalize : StreamRequest → Sock → StreamRequest × Sock
finalize q s = if length q.id == 0 then (q, s) else (record q { id = [] }, forget_res_chan q.id s)

-- A write that failed ends the request.
unfoldable pub or_finalize :
    StreamRequest → Option Error × Sock → Option Error × StreamRequest × Sock
or_finalize q (none, s) = (none, q, s)
or_finalize q (some e, s) = let (q', s') = finalize q s in (some e, q', s')

unfoldable pub write_part :
    Bool → Conn → Bytes → StreamRequest → Sock → Result (Option Error × StreamRequest × Sock)
write_part false c b q s = do
  got ← write_msg c msg_type_stream_req q.id q.op 0 b s
  ok (or_finalize (record q { started = true }) got)
write_part true c b q s = do
  got ← write_msg c msg_type_stream_req_part q.id [] 0 b s
  ok (or_finalize q got)

-- `Write`
unfoldable pub write_request :
    Conn → Bytes → StreamRequest → Sock → Result (Option Error × StreamRequest × Sock)
write_request c b q s = write_part q.started c b q s

-- `End`
unfoldable pub end_request :
    Conn → StreamRequest → Sock → Result (Option Error × StreamRequest × Sock)
end_request c q s = do
  got ← write_msg c msg_type_stream_req_part q.id [] 0 [] s
  ok (or_finalize q got)
