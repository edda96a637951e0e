-- ===== src/Examples/Loop.antt =====
-- A socket that reads, the two sides of a handshake, and a request that streams.
use gotalk.Sock.Setup.{is_closed}
use gotalk.Sock.Close.{
  set_protocol_error, close, close_once, close_all, closed_response, error_on_close, has_error,
  int32,
}
use gotalk.Protocol.Read.{
  read_msg, fill_all, fill, header_error, read_fields, read_head, has_id, read_part, has_name,
}
use gotalk.Limits.{make_limits_impl, impl_of}
use gotalk.Sock.Loop.Closes.{read-IsShut}
use gotalk.Sock.Wire.{written}
use gotalk.Sock.Sending.{StreamRequest}
use gotalk.Sock.Wire.Heard.{on_wire, Heard}
use gotalk.Protocol.Reader.Exact.{stream}
use gotalk.Common.Int.{pos}
use gotalk.Sock.{Sock, protocol_error}
use gotalk.Protocol.Fixnum.{
  copy_fixnum, write_digits, r_shift_slice, shift_loop, shift_round, pad_loop, format_uint,
  format_bits, digit, parse_uint, parse_loop, digit_value,
}
use gotalk.Protocol.Reader.{Reader, readn}
use gotalk.Protocol.Version.{protocol_version_buf}
use gotalk.Common.{
  Bytes, false, none, [], ◌++◌, ◌∷◌, ◌≢◌, ok, true, some, ◌≡◌, refl, arith, replicate, ap,
  append-nil, protocol_timeout, inl,
}
use gotalk.Examples.Sockets.{zeros, connection, echo, hi, first_id, idle, echo_wire}
use gotalk.Sock.Loop.{
  Outside, read, read_loop, turn, deadline_error, serve_msg, handle_msg, is_response,
  on_protocol_error, after_msg, wind_up, and_started,
}
use gotalk.Sock.Loop.Ends.{read-rounds}
use gotalk.Sock.Sending.Parts.{send_stream, send_stream-Heard, stream_msgs}

abbrev pub outside : Outside
outside = record {
  conn = connection;
  is_pipe = false;
  set_read_deadline = none;
  text = λ e. [];
  has_room = λ ch. true;
  draw = λ n k. 0;
  find_buffer = λ op. some 3;
  find_stream = λ op. none;
  find_note = λ op. none;
  heartbeat_interval = pos 0;
  between = λ n x. x;
}

-- A request, and the end of the connection in the middle of the next message.
abbrev incoming : Reader
incoming =
    record { bytes = echo_wire ++ hi; failure = none }
    ∷ record { bytes = echo; failure = none }
    ∷ []

read-rounds_example :
    (read_loop outside 100 0 incoming (replicate 128 0) (make_limits_impl none) idle ≢ ok none)
    × (read outside none incoming idle ≢ ok none)
read-rounds_example =
    read-rounds outside 100 0 incoming (replicate 128 0) (make_limits_impl none) none idle
      (omega arith)

abbrev pub version : Bytes
version = b'0' ∷ b'1' ∷ []

pub version_made : protocol_version_buf ≡ ok version
unfolding protocol_version_buf copy_fixnum write_digits r_shift_slice shift_loop shift_round
    pad_loop format_uint format_bits digit
version_made = refl

abbrev pub greeting : Reader
greeting =
    record { bytes = b'0' ∷ []; failure = none }
    ∷ record { bytes = b'1' ∷ echo; failure = none }
    ∷ []

abbrev newer : Reader
newer = record { bytes = b'0' ∷ b'2' ∷ []; failure = none } ∷ []

abbrev heard_by : Reader
heard_by =
    record { bytes = on_wire (stream_msgs first_id echo hi (echo ∷ [])); failure = none }
    ∷ record { bytes = hi; failure = none }
    ∷ []

send_stream-Heard_example :
    (q' : StreamRequest) × (s' : Sock) × (send_stream connection
        (hi ∷ echo ∷ [])
        (record { op = echo; id = first_id; started = false }, idle)
      ≡ ok (none, q', s'))
    × (written s'.writes
        ≡ written idle.writes ++ on_wire (stream_msgs first_id echo hi (echo ∷ [])))
    × Heard heard_by (replicate 21 0) (stream_msgs first_id echo hi (echo ∷ [])) hi
send_stream-Heard_example =
    send_stream-Heard connection echo first_id hi (echo ∷ []) (λ done b. refl) refl (omega arith)
      (omega arith) (omega arith) (omega arith, tt) idle hi (replicate 21 0) heard_by refl
      (refl, (refl, tt))
      (unfold stream in
        ap (λ (v : Bytes). on_wire (stream_msgs first_id echo hi (echo ∷ [])) ++ v) (append-nil hi))
      (omega arith)

-- The peer reports a timeout.
abbrev failing : Reader
failing =
    record { bytes = b'f' ∷ b'0' ∷ b'0' ∷ b'0' ∷ []; failure = none }
    ∷ record { bytes = zeros 4 ++ (b'3' ∷ []); failure = none }
    ∷ []

abbrev failed_sock : Sock
failed_sock = record idle { closex = 1; close_code = 4; close_codes = 4 ∷ [] }

failing_ends :
    read outside none failing idle
    ≡ ok (some ([], protocol_timeout, make_limits_impl none, failed_sock))
unfolding read read_loop turn deadline_error make_limits_impl impl_of serve_msg read_msg fill_all
    fill readn header_error read_fields read_head has_id read_part has_name parse_uint parse_loop
    digit_value handle_msg is_response on_protocol_error set_protocol_error close close_once
    after_msg wind_up close_all closed_response error_on_close has_error int32 and_started
    protocol_error
failing_ends = refl

read-IsShut_example : (is_closed failed_sock ≡ true) × (failed_sock.pending_res ≡ [])
read-IsShut_example =
    read-IsShut outside (λ n x h. h) none failing idle failed_sock [] protocol_timeout
      (make_limits_impl none) refl (omega arith, inl refl) failing_ends
