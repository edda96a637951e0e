-- ===== src/Sock/Streams/Writer.antt =====
-- `streamWriter`: the results that a handler streams, and their end.
use gotalk.Sock.Serving.{close_on_error}
use gotalk.Limits.{LimitsImpl, dec_stream_req}
use gotalk.Sock.Streams.{StreamJob, dealloc_req_chan}
use gotalk.Protocol.{msg_type_stream_res, msg_type_error_res}
use gotalk.Sock.{Conn, Sock, write_msg}
use gotalk.Common.{
  Bool, Bytes, Result, Option, Error, ok, ◌>>=◌, none, [], if◌then◌else◌, true, false, length, ◌==◌,
  ℕ, some,
}

-- `wrote_eos` says that an empty result, which ends the stream, has been written.
pub record StreamWriter : Type 0 where
  pub id : Bytes
  pub wrote_eos : Bool

-- `Write`, and `WriteString` alike; the count of bytes written is that of `b`.
unfoldable pub write_stream :
    Conn → Bytes → StreamWriter × Sock → Result (Option Error × StreamWriter × Sock)
write_stream c b (w, s) = do
  (e, s') ← write_msg c msg_type_stream_res w.id [] 0 b s
  ok (e, (if length b == 0 then record w { wrote_eos = true } else w), s')

unfoldable pub close_unless :
    Bool → Conn → StreamWriter → Sock → Result (Option Error × StreamWriter × Sock)
close_unless true c w s = ok (none, w, s)
close_unless false c w s = do
  (e, s') ← write_msg c msg_type_stream_res w.id [] 0 [] s
  ok (e, record w { wrote_eos = true }, s')

unfoldable pub close_stream :
    Conn → StreamWriter × Sock → Result (Option Error × StreamWriter × Sock)
close_stream c (w, s) = close_unless w.wrote_eos c w s

-- The error of a handler: the request's channel is forgotten, and the text is sent.
unfoldable pub answer_error :
    Conn → (Error → Bytes) → (ℕ → Bool) → Bytes → Option Bytes → Sock → Result Sock
answer_error c text has_room id none s = ok s
answer_error c text has_room id (some m) s = do
  got ← write_msg c msg_type_error_res id [] 0 m (dealloc_req_chan id s)
  close_on_error c text has_room got

-- The rest of a streaming request's goroutine once its handler has ended, with the text of its error
-- or with none, and with the writer as the handler left it.
unfoldable pub finish_stream :
    Conn
    → (Error → Bytes)
    → (ℕ → Bool)
    → StreamJob
    → Option Bytes
    → StreamWriter
    → LimitsImpl
    → Sock
    → Result (LimitsImpl × Sock)
finish_stream c text has_room job failure w lim s = do
  s1 ← answer_error c text has_room job.id failure s
  (e, w', s2) ← close_stream c (w, s1)
  s3 ← close_on_error c text has_room (e, s2)
  ok (dec_stream_req lim, s3)
