-- ===== src/Sock/Serving.antt =====
-- `readBufferReq`: how a socket serves a request with one payload.
pub mod Balance
use gotalk.Common.{
  ℕ, Bool, true, false, [], ◌∷◌, ◌++◌, Bytes, Option, none, some, Result, ok, ◌>>=◌, Error,
}
use gotalk.Protocol.{msg_type_single_res, msg_type_error_res, msg_type_retry_res}
use gotalk.Protocol.Reader.{Reader, readn}
use gotalk.Limits.{LimitsImpl, inc_buffer_req, dec_buffer_req, wait_buffer_req}
use gotalk.Handlers.{FuncId}
use gotalk.Sock.{Conn, Sock, write_msg}
use gotalk.Sock.Close.{close}

-- A message behind what `readDiscard` read: it is written unless the read failed.
unfoldable pub discard_and_write :
    Conn
    → ℕ
    → Bytes
    → ℕ
    → Bytes
    → Bytes × Option Error × Reader
    → Sock
    → Result (Option Error × Reader × Sock)
discard_and_write c t id wait msg (got, some e, r) s = ok (some e, r, s)
discard_and_write c t id wait msg (got, none, r) s = do
  (e, s') ← write_msg c t id [] wait msg s
  ok (e, r, s')

-- To discard no bytes takes no `Read`.
unfoldable pub respond_error :
    Conn → ℕ → Bytes → Bytes → Reader → Sock → Result (Option Error × Reader × Sock)
respond_error c readz id msg r s = discard_and_write c msg_type_error_res id 0 msg (readn r readz) s

unfoldable pub respond_retry :
    Conn → ℕ → Bytes → ℕ → Bytes → Reader → Sock → Result (Option Error × Reader × Sock)
respond_retry c readz id wait msg r s =
    discard_and_write c msg_type_retry_res id wait msg (readn r readz) s

unfoldable pub respond_ok : Conn → Bytes → Bytes → Sock → Result (Option Error × Sock)
respond_ok c id b s = write_msg c msg_type_single_res id [] 0 b s

-- "request rate limit"
abbrev pub rate_limit_text : Bytes
rate_limit_text =
    b'r' ∷ b'e' ∷ b'q' ∷ b'u' ∷ b'e' ∷ b's' ∷ b't' ∷ b' ' ∷ b'r' ∷ b'a' ∷ b't' ∷ b'e' ∷ b' ' ∷ b'l'
    ∷ b'i' ∷ b'm' ∷ b'i' ∷ b't' ∷ []

-- "unknown operation " and the name in quotes
abbrev pub unknown_text : Bytes → Bytes
unknown_text op =
    (b'u' ∷ b'n' ∷ b'k' ∷ b'n' ∷ b'o' ∷ b'w' ∷ b'n' ∷ b' ' ∷ b'o' ∷ b'p' ∷ b'e' ∷ b'r' ∷ b'a' ∷ b't'
      ∷ b'i' ∷ b'o' ∷ b'n' ∷ b' ' ∷ 34 ∷ [])
    ++ (op ++ (34 ∷ []))

-- What the goroutine of a request is started with.
pub record Job : Type 0 where
  pub handler : FuncId
  pub id : Bytes
  pub op : Bytes
  pub inbuf : Bytes

-- The error, the limits, the goroutine if one is started, the reader and the socket.
abbrev pub Turn : Type 0 → Type 0
Turn J = Option Error × LimitsImpl × Option J × Reader × Sock

unfoldable pub read_payload :
    FuncId → Bytes → Bytes → LimitsImpl → Bytes × Option Error × Reader → Sock → Turn Job
read_payload handler id op lim (inbuf, some e, r) s = (some e, dec_buffer_req lim, none, r, s)
read_payload handler id op lim (inbuf, none, r) s =
    (none, lim, some (record { handler = handler; id = id; op = op; inbuf = inbuf }), r, s)

unfoldable pub with_handler :
    Conn → Option FuncId → Bytes → Bytes → ℕ → LimitsImpl → Reader → Sock → Result (Turn Job)
with_handler c none id op size lim r s = do
  (e, r', s') ← respond_error c size id (unknown_text op) r s
  ok (e, dec_buffer_req lim, none, r', s')
with_handler c (some handler) id op size lim r s =
    ok (read_payload handler id op lim (readn r size) s)

unfoldable pub if_admitted :
    Conn
    → (ℕ → ℕ)
    → (Bytes → Option FuncId)
    → Bytes
    → Bytes
    → ℕ
    → LimitsImpl × Bool
    → Reader
    → Sock
    → Result (Turn Job)
if_admitted c draw find id op size (lim, false) r s = do
  wait ← wait_buffer_req draw lim
  (e, r', s') ← respond_retry c size id wait rate_limit_text r s
  ok (e, lim, none, r', s')
if_admitted c draw find id op size (lim, true) r s = with_handler c (find op) id op size lim r s

-- `find` is the socket's `FindBufferRequestHandler`.
unfoldable pub read_buffer_req :
    Conn
    → (ℕ → ℕ)
    → (Bytes → Option FuncId)
    → LimitsImpl
    → Bytes
    → Bytes
    → ℕ
    → Reader
    → Sock
    → Result (Turn Job)
read_buffer_req c draw find lim id op size r s =
    if_admitted c draw find id op size (inc_buffer_req lim) r s

-- How a handler ends: with a result, with an error of some text, or with a panic of some text.
pub data Reply : Type 0 where
  returned : Bytes → Reply
  failed_with_text : Bytes → Reply
  panicked : Bytes → Reply

-- A response that could not be written closes the socket.
unfoldable pub close_on_error :
    Conn → (Error → Bytes) → (ℕ → Bool) → Option Error × Sock → Result Sock
close_on_error c text has_room (none, s) = ok s
close_on_error c text has_room (some e, s) = do (e', s') ← close c text has_room s; ok s'

unfoldable pub write_reply : Conn → Bytes → Reply → Sock → Result (Option Error × Sock)
write_reply c id (returned b) s = respond_ok c id b s
write_reply c id (failed_with_text m) s = write_msg c msg_type_error_res id [] 0 m s
write_reply c id (panicked m) s = elim s.is_open [
  | true ↦ write_msg c msg_type_error_res id [] 0 m s
  | false ↦ ok (none, s)
]

-- The rest of the goroutine once the handler has ended; the place is given back at last.
unfoldable pub finish_job :
    Conn
    → (Error → Bytes)
    → (ℕ → Bool)
    → Job
    → Reply
    → LimitsImpl
    → Sock
    → Result (LimitsImpl × Sock)
finish_job c text has_room job reply lim s = do
  got ← write_reply c job.id reply s
  s' ← close_on_error c text has_room got
  ok (dec_buffer_req lim, s')
