-- ===== src/Sock/Close.antt =====
-- `Close` and `CloseError`.
use gotalk.Common.{
  ℕ, ◌+◌, ◌-◌, ◌%◌, ◌^◌, Bool, true, false, not, List, [], ◌∷◌, Bytes, ltb, leb, ◌==◌,
  if◌then◌else◌, Option, none, some, Result, ok, panic, ◌>>=◌, Error, sock_closed,
}
use gotalk.Common.Int.{ℤ, pos, negsuc, is_nonpos}
use gotalk.Protocol.{msg_type_error_res, msg_type_protocol_error}
use gotalk.Protocol.Make.{make_msg}
use gotalk.Sock.{Response, Conn, Sock, protocol_error, code_of, write}

-- An int32 by its bits
unfoldable pub int32 : ℕ → ℤ
int32 n = if ltb n 0x8000_0000 then pos n else negsuc (0xffff_ffff - n)

unfoldable pub set_protocol_error : ℕ → Sock → Sock
set_protocol_error code s = record s { close_code = (code + 1) % 2 ^ 32 }

-- `closeCode > 0` of an int32
unfoldable pub has_error : Sock → Bool
has_error s = not (is_nonpos (int32 s.close_code))

-- The response that `Close` gives to each pending request; `text` is the text of an error.
unfoldable pub closed_response : (Error → Bytes) → Option Error → ℕ → Response
closed_response text e close_code = record {
  t = msg_type_error_res;
  payload = elim e [ none ↦ text sock_closed | some e' ↦ text e' ];
  wait = if close_code == 0 then pos 0 else int32 (code_of close_code);
}

-- A channel without room (`has_room`) gets nothing.
unfoldable pub close_all :
    (ℕ → Bool) → Response → List (Bytes × Option ℕ) → List (ℕ × Response) → List (ℕ × Response)
close_all has_room res [] log = log
close_all has_room res ((id, none) ∷ m) log = close_all has_room res m log
close_all has_room res ((id, some ch) ∷ m) log =
    close_all has_room res m (if has_room ch then (ch, res) ∷ log else log)

unfoldable pub error_on_close : Conn → Sock → Option Error
error_on_close c s =
    if has_error s then some (protocol_error (code_of s.close_code)) else c.close s.writes

-- `Close` behind its test that this is the first call, and with the test that `conn` is not nil.
unfoldable pub close_once :
    Conn → (Error → Bytes) → (ℕ → Bool) → Bool → Bool → Sock → Result (Option Error × Sock)
close_once c text has_room false is_open s = ok (none, s)
close_once c text has_room true false s = panic
close_once c text has_room true true s = ok (
  error_on_close c s,
  record s {
    pending_res = [];
    delivered =
        close_all has_room (closed_response text (error_on_close c s) s.close_code) s.pending_res
          s.delivered;
    close_codes = if s.has_close_handler then s.close_code ∷ s.close_codes else s.close_codes;
  },
)

unfoldable pub close : Conn → (Error → Bytes) → (ℕ → Bool) → Sock → Result (Option Error × Sock)
close c text has_room s =
    let n = (s.closex + 1) % 2 ^ 32 in
    close_once c text has_room (n == 1) s.is_open (record s { closex = n })

-- `CloseError` behind its guard. The error of the write is ignored, and a nil `conn` makes it panic.
unfoldable pub send_error :
    Conn → (Error → Bytes) → (ℕ → Bool) → ℕ → Sock → Result (Option Error × Sock)
send_error c text has_room code s =
    let s1 = set_protocol_error code s in
    make_msg msg_type_protocol_error [] [] 0 code >>= λ msg.
    if not s1.is_open then panic else close c text has_room (write c msg s1).1

-- `code` is an int32 by its bits, and must not be negative.
unfoldable pub close_error :
    Conn → (Error → Bytes) → (ℕ → Bool) → ℕ → Sock → Result (Option Error × Sock)
close_error c text has_room code s =
    if leb 0x8000_0000 code then panic else send_error c text has_room code s
