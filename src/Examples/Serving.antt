-- ===== src/Examples/Serving.antt =====
-- A socket that serves "echo", with one request let in and one place left.
use gotalk.Common.{
  ℕ, ◌≡◌, refl, arith, true, false, [], ◌∷◌, Bytes, bytes_eq, if◌then◌else◌, Option, none, some, ok,
}
use gotalk.Common.Int.{pos}
use gotalk.Protocol.Reader.{Reader}
use gotalk.Limits.{LimitsImpl, inc_buffer_req, wait_buffer_req, rand_uint32}
use gotalk.Limits.Counter.{IsSound}
use gotalk.Handlers.{FuncId}
use gotalk.Sock.{Conn, Sock}
use gotalk.Sock.Serving.{read_buffer_req}
use gotalk.Sock.Serving.Balance.{Settles, read_buffer_req-Settles}

abbrev connection : Conn
connection = record { write = λ done b. none; close = λ done. none }

abbrev echo : Bytes
echo = b'e' ∷ b'c' ∷ b'h' ∷ b'o' ∷ []

abbrev hi : Bytes
hi = b'h' ∷ b'i' ∷ []

abbrev id : Bytes
id = 1 ∷ 0 ∷ 0 ∷ 0 ∷ []

abbrev find : Bytes → Option FuncId
find op = if bytes_eq op echo then some 3 else none

abbrev least : ℕ → ℕ
least n = 0

abbrev serving : Sock
serving = record {
  is_open = true;
  is_shutdown = false;
  writes = [];
  closex = 0;
  close_code = 0;
  next_op_id = 0;
  pending_res = [];
  delivered = [];
  has_close_handler = false;
  close_codes = [];
  pending_req = [];
  next_chan = 0;
  parts = [];
  notes = [];
  has_on_heartbeat = true;
  heartbeats = [];
  done_calls = 0;
}

abbrev limits : LimitsImpl
limits = record {
  read_timeout = pos 0;
  buffer_limit = record { limit = 2; count = 1 };
  stream_limit = record { limit = 0; count = 0 };
  buffer_min_wait = 500;
  buffer_max_wait = 5000;
  stream_min_wait = 500;
  stream_max_wait = 5000;
}

limits-IsSound : IsSound limits
limits-IsSound = record {
  buffer_count = omega arith;
  stream_count = omega arith;
  buffer_limit = omega arith;
  stream_limit = omega arith;
}

waits : wait_buffer_req least limits ≡ ok 500
unfolding wait_buffer_req rand_uint32
waits = refl

abbrev input : Reader
input =
    record { bytes = b'h' ∷ []; failure = none }
    ∷ record { bytes = b'i' ∷ echo; failure = none }
    ∷ []

read_buffer_req-Settles_example :
    Settles
      (find echo)
      id
      echo
      hi
      echo
      (read_buffer_req connection least find limits id echo 2 input serving)
      (inc_buffer_req limits).1
      limits
      500
      serving
read_buffer_req-Settles_example =
    read_buffer_req-Settles connection least find id echo hi echo input serving (λ done b. refl)
      refl refl (omega arith) (refl, (refl, tt)) refl limits 500 limits-IsSound waits (omega arith)
