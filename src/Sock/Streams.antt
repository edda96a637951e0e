-- ===== src/Sock/Streams.antt =====
-- Streaming requests as they are received: `pendingReq`, `readStreamReq`, `readStreamReqPart`, and the
-- `streamWriter` of a handler.
pub mod Writer
pub mod Results
pub mod Lifetime
pub mod Reuse
pub mod Balance
use gotalk.Sock.Serving.{Turn, respond_error, respond_retry, unknown_text, rate_limit_text}
use gotalk.Protocol.Reader.{Reader, readn}
use gotalk.Sock.{Conn, Sock, delete}
use gotalk.Limits.{LimitsImpl, inc_stream_req, stream_req_enabled, dec_stream_req, wait_stream_req}
use gotalk.Handlers.{FuncId, lookup, insert}
use gotalk.Common.{
  Bytes, Option, ℕ, Bool, Error, ◌∷◌, Result, [], some, ◌>>=◌, illegal_message, ok, panic, none,
  ◌+◌, false, if◌then◌else◌, length, true, ◌==◌,
}

-- `getReqChan`
unfoldable pub get_req_chan : Bytes → Sock → Option ℕ
get_req_chan id s = lookup id s.pending_req

unfoldable pub alloc_found : Option ℕ → Bytes → Sock → Result (ℕ × Sock)
alloc_found (some ch) id s = panic
alloc_found none id s = ok (
  s.next_chan,
  record s {
    next_chan = s.next_chan + 1;
    pending_req = insert id (some s.next_chan) s.pending_req;
  },
)

-- Two requests with one id make it panic.
unfoldable pub alloc_req_chan : Bytes → Sock → Result (ℕ × Sock)
alloc_req_chan id s = alloc_found (lookup id s.pending_req) id s

unfoldable pub dealloc_req_chan : Bytes → Sock → Sock
dealloc_req_chan id s = record s { pending_req = delete id s.pending_req }

-- `rch <- b`, by what it does where it does not block: the channel has room for one part, and where
-- nobody takes it out, as behind the end of a handler, the next send blocks for ever. The model has the
-- order of the sends, not the blocking.
unfoldable pub send_part : ℕ → Option Bytes → Sock → Sock
send_part ch b s = record s { parts = (ch, b) ∷ s.parts }

-- What the goroutine of a streaming request is started with.
pub record StreamJob : Type 0 where
  pub handler : FuncId
  pub id : Bytes
  pub op : Bytes
  pub channel : ℕ

-- "stream requests not supported"
abbrev pub not_supported_text : Bytes
not_supported_text =
    b's' ∷ b't' ∷ b'r' ∷ b'e' ∷ b'a' ∷ b'm' ∷ b' ' ∷ b'r' ∷ b'e' ∷ b'q' ∷ b'u' ∷ b'e' ∷ b's' ∷ b't'
    ∷ b's' ∷ b' ' ∷ b'n' ∷ b'o' ∷ b't' ∷ b' ' ∷ b's' ∷ b'u' ∷ b'p' ∷ b'p' ∷ b'o' ∷ b'r' ∷ b't'
    ∷ b'e' ∷ b'd' ∷ []

unfoldable pub start_stream :
    FuncId
    → Bytes
    → Bytes
    → LimitsImpl
    → Bytes × Option Error × Reader
    → Sock
    → Result (Turn StreamJob)
start_stream handler id op lim (inbuf, some e, r) s = ok (some e, dec_stream_req lim, none, r, s)
start_stream handler id op lim (inbuf, none, r) s = do
  (ch, s') ← alloc_req_chan id s
  ok (
    none,
    lim,
    some (record { handler = handler; id = id; op = op; channel = ch }),
    r,
    send_part ch (some inbuf) s',
  )

unfoldable pub with_stream_handler :
    Conn → Option FuncId → Bytes → Bytes → ℕ → LimitsImpl → Reader → Sock → Result (Turn StreamJob)
with_stream_handler c none id op size lim r s = do
  (e, r', s') ← respond_error c size id (unknown_text op) r s
  ok (e, dec_stream_req lim, none, r', s')
with_stream_handler c (some handler) id op size lim r s =
    start_stream handler id op lim (readn r size) s

-- Where streaming requests are enabled the requestor is asked to retry.
unfoldable pub refuse_stream :
    Conn → (ℕ → ℕ) → Bool → Bytes → ℕ → LimitsImpl → Reader → Sock → Result (Turn StreamJob)
refuse_stream c draw true id size lim r s = do
  wait ← wait_stream_req draw lim
  (e, r', s') ← respond_retry c size id wait rate_limit_text r s
  ok (e, lim, none, r', s')
refuse_stream c draw false id size lim r s = do
  (e, r', s') ← respond_error c size id not_supported_text r s
  ok (e, lim, none, r', s')

unfoldable pub if_stream_admitted :
    Conn
    → (ℕ → ℕ)
    → (Bytes → Option FuncId)
    → Bytes
    → Bytes
    → ℕ
    → LimitsImpl × Bool
    → Reader
    → Sock
    → Result (Turn StreamJob)
if_stream_admitted c draw find id op size (lim, false) r s =
    refuse_stream c draw (stream_req_enabled lim) id size lim r s
if_stream_admitted c draw find id op size (lim, true) r s =
    with_stream_handler c (find op) id op size lim r s

-- `find` is the socket's `FindStreamRequestHandler`.
unfoldable pub read_stream_req :
    Conn
    → (ℕ → ℕ)
    → (Bytes → Option FuncId)
    → LimitsImpl
    → Bytes
    → Bytes
    → ℕ
    → Reader
    → Sock
    → Result (Turn StreamJob)
read_stream_req c draw find lim id op size r s =
    if_stream_admitted c draw find id op size (inc_stream_req lim) r s

-- The payload of a part, which is nil where there is none.
unfoldable pub push_part : ℕ → LimitsImpl → Bytes × Option Error × Reader → Sock → Turn StreamJob
push_part ch lim (b, some e, r) s = (some e, dec_stream_req lim, none, r, s)
push_part ch lim (b, none, r) s =
    (none, lim, none, r, send_part ch (if length b == 0 then none else some b) s)

unfoldable pub read_part_for : Option ℕ → LimitsImpl → ℕ → Reader → Sock → Turn StreamJob
read_part_for none lim size r s = (some illegal_message, lim, none, r, s)
read_part_for (some ch) lim size r s = push_part ch lim (readn r size) s

unfoldable pub read_stream_req_part : LimitsImpl → Bytes → ℕ → Reader → Sock → Turn StreamJob
read_stream_req_part lim id size r s = read_part_for (get_req_chan id s) lim size r s
