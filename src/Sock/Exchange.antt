-- ===== src/Sock/Exchange.antt =====
-- A request from one end of a connection to the other and back, through the read loops of both.
pub mod Serving
pub mod Asking
pub mod RoundTrip
pub mod Orders
use gotalk.Limits.{LimitsImpl}
use gotalk.Sock.Wire.{msg_of, pushed}
use gotalk.Sock.{Sock}
use gotalk.Protocol.{Msg, msg_type_retry_res, msg_type_single_res, msg_type_error_res}
use gotalk.Sock.Serving.{
  returned, Job, failed_with_text, rate_limit_text, finish_job, panicked, unknown_text,
}
use gotalk.Sock.Retry.{Outcome, answered, refused}
use gotalk.Protocol.Make.Fields.{wire}
use gotalk.Handlers.{FuncId}
use gotalk.Sock.Serving.{Reply}
use gotalk.Sock.Loop.{Outside}
use gotalk.Common.{Bool, Bytes, ℕ, Option, Result, [], length, ok, some, ◌++◌, false, none, true}

-- What the handlers do, by function, operation and payload
abbrev pub Run : Type 0
Run = FuncId → Bytes → Bytes → Reply

-- The goroutine that a round of the loop started, if it started one
unfoldable pub finish_started :
    Outside → Run → Option Job → LimitsImpl → Sock → Result (LimitsImpl × Sock)
finish_started o run none lim s = ok (lim, s)
finish_started o run (some job) lim s =
    finish_job o.conn o.text o.has_room job (run job.handler job.op job.inbuf) lim s

-- The type, the wait and the payload of a response
abbrev pub ResponseParts : Type 0
ResponseParts = ℕ × ℕ × Bytes

abbrev pub parts_of_reply : Reply → ResponseParts
parts_of_reply (returned b) = (msg_type_single_res, 0, b)
parts_of_reply (failed_with_text m) = (msg_type_error_res, 0, m)
parts_of_reply (panicked m) = (msg_type_error_res, 0, m)

-- The response that a request deserves
abbrev pub deserved : Bool → Option FuncId → Bytes → Bytes → ℕ → Run → ResponseParts
deserved false found op buf w run = (msg_type_retry_res, w, rate_limit_text)
deserved true none op buf w run = (msg_type_error_res, 0, unknown_text op)
deserved true (some f) op buf w run = parts_of_reply (run f op buf)

-- The message with a response, as it is read and as it is written
abbrev pub response_msg : Bytes → ResponseParts → Msg
response_msg id (t, wait, payload) = msg_of t id [] wait payload

abbrev pub response_wire : Bytes → ResponseParts → Bytes
response_wire id (t, wait, payload) = wire t id [] wait (length payload) ++ payload

abbrev pub answered_sock : Bytes → ResponseParts → Sock → Sock
answered_sock id (t, wait, payload) s = record s {
  writes = pushed (wire t id [] wait (length payload)) payload s.writes;
}

-- How `BufferRequest` goes on with the response: a retry result makes it send the request again.
abbrev pub reply_outcome : Reply → Outcome
reply_outcome (returned b) = answered b
reply_outcome (failed_with_text m) = refused m
reply_outcome (panicked m) = refused m

abbrev pub concluded :
    Bool
    → Option FuncId
    → Bytes
    → Bytes
    → Run
    → Sock
    → Result (Outcome × Sock)
    → Result (Outcome × Sock)
concluded false found op buf run u more = more
concluded true none op buf run u more = ok (refused (unknown_text op), u)
concluded true (some f) op buf run u more = ok (reply_outcome (run f op buf), u)
