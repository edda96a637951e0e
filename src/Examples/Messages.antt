-- ===== src/Examples/Messages.antt =====
-- A request "echo" with five bytes of payload, and the other messages, on streams that cut them up.
use gotalk.Common.{
  ℕ, ◌≡◌, refl, arith, inl, inr, [], ◌∷◌, ◌++◌, Bytes, ok, panic, none, replicate, length-replicate,
}
use gotalk.Protocol.{
  Msg, msg_type_single_req, msg_type_protocol_error, msg_type_heartbeat, msg_type_notification,
  protocol_error_timeout, protocol_version,
}
use gotalk.Protocol.Fixnum.{
  write_digits, r_shift_slice, shift_loop, shift_round, pad_loop, format_uint, format_bits, digit,
  copy_fixnum, parse_uint, parse_loop, digit_value,
}
use gotalk.Protocol.Make.{
  put_fixnum, copy_at, put_index, name_size, buf_size, write_id, write_name, write_wait, write_size,
  make_msg, make_heartbeat_msg,
}
use gotalk.Protocol.Make.Fields.{wire}
use gotalk.Protocol.Make.Wire.{make_msg-wire, make_msg-panic}
use gotalk.Protocol.Reader.{Reader, readn}
use gotalk.Protocol.Read.{read_msg, fill, fill_all}
use gotalk.Protocol.Read.Kinds.{ReadsBack}
use gotalk.Protocol.Read.RoundTrip.{read_msg-make_msg, request}
use gotalk.Protocol.Read.Special.{read_msg-make_heartbeat_msg, read_msg-protocol_error, error_msg}
use gotalk.Protocol.Version.{protocol_version_buf, read_version, check_version}

abbrev echo : Bytes
echo = b'e' ∷ b'c' ∷ b'h' ∷ b'o' ∷ []

abbrev hello : Bytes
hello = b'h' ∷ b'e' ∷ b'l' ∷ b'l' ∷ b'o' ∷ []

abbrev request_id : Bytes
request_id = b'0' ∷ b'0' ∷ b'0' ∷ b'1' ∷ []

abbrev zeros : ℕ → Bytes
zeros n = replicate n b'0'

abbrev echo_request : Msg
echo_request = record { t = msg_type_single_req; id = request_id; name = echo; wait = 0; size = 5 }

-- "r0001" "004echo" "00000005"
abbrev echo_bytes : Bytes
echo_bytes = b'r' ∷ request_id ++ (zeros 2 ++ (b'4' ∷ echo ++ (zeros 7 ++ (b'5' ∷ []))))

-- It arrives in two pieces, with an empty read between them.
abbrev echo_stream : Reader
echo_stream =
    record { bytes = b'r' ∷ request_id ++ zeros 1; failure = none }
    ∷ record { bytes = []; failure = none }
    ∷ record { bytes = zeros 1 ++ (b'4' ∷ echo ++ (zeros 7 ++ (b'5' ∷ hello))); failure = none }
    ∷ []

abbrev buffer : Bytes
buffer = replicate 21 0

echo_made : make_msg msg_type_single_req request_id echo 0 5 ≡ ok echo_bytes
unfolding make_msg buf_size name_size write_id write_name write_wait write_size put_fixnum copy_at
    put_index copy_fixnum write_digits r_shift_slice shift_loop shift_round pad_loop format_uint
    format_bits digit
echo_made = refl

read_msg-make_msg_example : ReadsBack echo_request echo_stream buffer hello
read_msg-make_msg_example =
    read_msg-make_msg echo_request echo_stream buffer echo_bytes hello
      (request (inl refl) refl (omega arith) (omega arith) refl) (omega arith) echo_made
      (refl, (refl, (refl, tt))) refl (omega arith)

make_msg-wire_example :
    make_msg msg_type_single_req request_id echo 0 5
    ≡ ok (wire msg_type_single_req request_id echo 0 5)
unfolding name_size
make_msg-wire_example =
    make_msg-wire msg_type_single_req request_id echo 0 5 (inr (omega arith)) (omega arith)
      (omega arith) (omega arith)

long_name : Bytes
long_name = replicate 4096 b'x'

make_msg-panic_example : make_msg msg_type_notification [] long_name 0 5 ≡ panic
unfolding long_name
make_msg-panic_example =
    make_msg-panic msg_type_notification [] long_name 0 5 (inl refl) (λ e. omega (arith, e))
      (omega (arith, length-replicate {A = ℕ} 4096 b'x'))
      (omega (arith, length-replicate {A = ℕ} 4096 b'x'))

abbrev timeout_bytes : Bytes
timeout_bytes = b'f' ∷ zeros 7 ++ (b'3' ∷ [])

timeout_made : make_msg msg_type_protocol_error [] [] 0 protocol_error_timeout ≡ ok timeout_bytes
unfolding make_msg buf_size name_size write_id write_name write_wait write_size put_fixnum copy_at
    put_index copy_fixnum write_digits r_shift_slice shift_loop shift_round pad_loop format_uint
    format_bits digit
timeout_made = refl

abbrev timeout_stream : Reader
timeout_stream = record { bytes = timeout_bytes; failure = none } ∷ []

read_msg-protocol_error_example :
    (s' : Reader) × (b' : Bytes) × (read_msg timeout_stream buffer
      ≡ ok (error_msg protocol_error_timeout, s', b'))
read_msg-protocol_error_example =
    read_msg-protocol_error protocol_error_timeout timeout_stream buffer timeout_bytes []
      (omega arith) timeout_made (refl, tt) refl (omega arith)

abbrev beat_bytes : Bytes
beat_bytes = b'h' ∷ zeros 2 ++ (b'1' ∷ b'0' ∷ zeros 7 ++ (b'9' ∷ []))

beat_made : make_heartbeat_msg 16 9 buffer ≡ ok beat_bytes
unfolding make_heartbeat_msg put_fixnum copy_at put_index copy_fixnum write_digits r_shift_slice
    shift_loop shift_round pad_loop format_uint format_bits digit
beat_made = refl

abbrev beat_stream : Reader
beat_stream = record { bytes = beat_bytes ++ echo_bytes; failure = none } ∷ []

abbrev beat : Msg
beat = record { t = msg_type_heartbeat; id = []; name = []; wait = 16; size = 9 }

read_msg-make_heartbeat_msg_example : ReadsBack beat beat_stream buffer echo_bytes
read_msg-make_heartbeat_msg_example =
    read_msg-make_heartbeat_msg 16 9 buffer beat_stream buffer beat_bytes echo_bytes (omega arith)
      (omega arith) (omega arith) beat_made (refl, tt) refl (omega arith)

abbrev version_bytes : Bytes
version_bytes = b'0' ∷ b'1' ∷ []

abbrev version_stream : Reader
version_stream =
    record { bytes = b'0' ∷ []; failure = none }
    ∷ record { bytes = b'1' ∷ echo; failure = none }
    ∷ []

version_written : protocol_version_buf ≡ ok version_bytes
unfolding protocol_version_buf copy_fixnum write_digits r_shift_slice shift_loop shift_round
    pad_loop format_uint format_bits digit
version_written = refl

version_read :
    read_version version_stream
    ≡ ok (protocol_version, record { bytes = echo; failure = none } ∷ [])
unfolding read_version check_version fill_all fill readn parse_uint parse_loop digit_value
version_read = refl
