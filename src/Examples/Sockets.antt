-- ===== src/Examples/Sockets.antt =====
-- A socket with one request that waits, and the peer's side of its connection.
use gotalk.Common.{
  ℕ, ◌≡◌, refl, arith, true, false, inl, [], ◌∷◌, ◌++◌, Bytes, bytes_eq, if◌then◌else◌, none, some,
  Error, ok, sock_closed, replicate,
}
use gotalk.Common.Int.{pos}
use mathlib.Core.List.{Memᴰ}
use gotalk.Protocol.{
  msg_type_single_req, msg_type_single_res, msg_type_retry_res, protocol_error_timeout,
}
use gotalk.Protocol.Fixnum.{
  write_digits, r_shift_slice, shift_loop, shift_round, pad_loop, format_uint, format_bits, digit,
  copy_fixnum,
}
use gotalk.Protocol.Make.{
  put_fixnum, copy_at, put_index, name_size, buf_size, write_id, write_name, write_wait, write_size,
  make_msg,
}
use gotalk.Protocol.Reader.{Reader, readn}
use gotalk.Protocol.Reader.Exact.{stream}
use gotalk.Protocol.Read.{read_msg}
use gotalk.Protocol.Read.RoundTrip.{request}
use gotalk.Handlers.{lookup}
use gotalk.Sock.{
  Conn, Sock, Response, is_retry, or_close_code, register_res_chan, write_msg, write_payload, write,
  check_close_code, protocol_error,
}
use gotalk.Sock.Retry.{asked_for, failed_with, outcome_of, buffer_request}
use gotalk.Sock.Close.{close_error}
use gotalk.Sock.Pending.{IsNumbered, register_res_chan-fresh}
use gotalk.Sock.Wire.{msg_of, written, write_msg-read}
use gotalk.Sock.Retry.{buffer_request-ends}
use gotalk.Sock.Closing.{close_error-gives}

abbrev pub connection : Conn
connection = record { write = λ done b. none; close = λ done. none }

abbrev pub echo : Bytes
echo = b'e' ∷ b'c' ∷ b'h' ∷ b'o' ∷ []

abbrev pub hi : Bytes
hi = b'h' ∷ b'i' ∷ []

abbrev pub first_id : Bytes
first_id = 0 ∷ 0 ∷ 0 ∷ 0 ∷ []

abbrev pub idle : Sock
idle = record {
  is_open = true;
  is_shutdown = false;
  writes = [];
  closex = 0;
  close_code = 0;
  next_op_id = 0;
  pending_res = [];
  delivered = [];
  has_close_handler = true;
  close_codes = [];
  pending_req = [];
  next_chan = 0;
  parts = [];
  notes = [];
  has_on_heartbeat = true;
  heartbeats = [];
  done_calls = 0;
}

-- Channel 7 waits for the response to the first request.
abbrev asking : Sock
asking = record idle { next_op_id = 1; pending_res = (first_id, some 7) ∷ [] }

abbrev pub zeros : ℕ → Bytes
zeros n = replicate n b'0'

abbrev pub echo_wire : Bytes
echo_wire = b'r' ∷ first_id ++ (zeros 2 ++ (b'4' ∷ echo ++ (zeros 7 ++ (b'2' ∷ []))))

abbrev asked : Sock
asked = record idle { writes = hi ∷ echo_wire ∷ [] }

echo_sent : write_msg connection msg_type_single_req first_id echo 0 hi idle ≡ ok (none, asked)
unfolding write_msg write_payload write make_msg buf_size name_size write_id write_name write_wait
    write_size put_fixnum copy_at put_index copy_fixnum write_digits r_shift_slice shift_loop
    shift_round pad_loop format_uint format_bits digit
echo_sent = refl

abbrev peer : Reader
peer = record { bytes = echo_wire ++ hi; failure = none } ∷ []

write_msg-read_example :
    (r1 : Reader) × (r2 : Reader) × (b' : Bytes) × (read_msg peer (replicate 21 0)
      ≡ ok (msg_of msg_type_single_req first_id echo 0 hi, r1, b'))
    × (readn r1 2 ≡ (hi, none, r2))
    × (stream r2 ≡ [])
write_msg-read_example =
    write_msg-read connection msg_type_single_req first_id echo 0 hi (echo_wire ++ hi) []
      (replicate 21 0) idle asked peer (λ done b. refl) refl
      (request (inl refl) refl (omega arith) (omega arith) refl) (omega arith) echo_sent
      (unfold written in refl) (refl, tt) refl (omega arith)

abbrev retry_soon : Response
retry_soon = record { t = msg_type_retry_res; payload = []; wait = pos 500_000_000 }

abbrev reply : Response
reply = record { t = msg_type_single_res; payload = hi; wait = pos 0 }

buffer_request-ends_example :
    (buffer_request connection echo hi 7
        ((some retry_soon, λ s. s) ∷ (some reply, λ s. s) ∷ [])
        idle
      ≡ ok (
        outcome_of reply,
        asked_for echo hi 7 ((some retry_soon, λ s. s) ∷ (some reply, λ s. s) ∷ []) idle,
      ))
    × (buffer_request connection echo hi 7 ((some retry_soon, λ s. s) ∷ (none, λ s. s) ∷ []) idle
        ≡ ok (
          failed_with (
              or_close_code
                (asked_for echo hi 7 ((some retry_soon, λ s. s) ∷ (none, λ s. s) ∷ []) idle)
                sock_closed),
          asked_for echo hi 7 ((some retry_soon, λ s. s) ∷ (none, λ s. s) ∷ []) idle,
        ))
unfolding is_retry register_res_chan
buffer_request-ends_example =
    buffer_request-ends connection echo hi 7 (λ done b. refl) (omega arith) (omega arith)
      (omega arith) ((some retry_soon, λ s. s) ∷ []) [] reply (λ s. s) idle
      ((refl, refl), refl, (refl, refl)) refl

abbrev reply_stream : Reader
reply_stream = record { bytes = hi ++ echo; failure = none } ∷ []

idle-IsNumbered : IsNumbered idle
unfolding lookup bytes_eq
idle-IsNumbered n h small = refl

register_res_chan-fresh_example :
    IsNumbered (register_res_chan 7 idle).1
    × (lookup (register_res_chan 7 idle).0 idle.pending_res ≡ none)
    × (lookup first_id (register_res_chan 7 idle).1.pending_res ≡ (
        if bytes_eq (register_res_chan 7 idle).0 first_id
        then some 7
        else lookup first_id idle.pending_res))
register_res_chan-fresh_example =
    register_res_chan-fresh 7 first_id idle (omega arith) idle-IsNumbered

abbrev no_text : Error → Bytes
no_text e = []

close_error-gives_example :
    (s' : Sock) × (res : Response) × (close_error connection no_text
        (λ ch. true)
        protocol_error_timeout
        asking
      ≡ ok (some (protocol_error protocol_error_timeout), s'))
    × Memᴰ (7, res) s'.delivered
    × (outcome_of res ≡ failed_with (protocol_error protocol_error_timeout))
    × (s'.pending_res ≡ [])
    × (check_close_code s' ≡ some (protocol_error protocol_error_timeout))
    × (s'.close_codes ≡ (if true then 4 ∷ [] else []))
unfolding lookup bytes_eq
close_error-gives_example =
    close_error-gives connection no_text (λ ch. true) protocol_error_timeout 7 first_id asking refl
      refl (omega arith) (omega arith) refl refl
