-- ===== src/Sock/Setup.antt =====
-- How a socket starts and ends: `NewSock`, `Adopt`, `Handshake`, `Shutdown`, and heartbeats.
pub mod Handshaking
use gotalk.Protocol.Make.{make_heartbeat_msg}
use gotalk.Sock.Close.{close}
use gotalk.Protocol.Version.{protocol_version_buf, read_version}
use gotalk.Protocol.Reader.{Reader}
use gotalk.Common.{
  ◌∷◌, Option, Bool, Error, List, false, true, ℕ, Bytes, [], if◌then◌else◌, ltb, some, Result, none,
  sock_closed, ok, ◌>>=◌, err, not, panic,
}
use gotalk.Sock.{Conn, Sock, write}

unfoldable pub new_sock : Sock
new_sock = record {
  is_open = false;
  is_shutdown = false;
  writes = [];
  closex = 0;
  close_code = 0;
  next_op_id = 0;
  pending_res = [];
  delivered = [];
  has_close_handler = false;
  close_codes = [];
  pending_req = [];
  next_chan = 0;
  parts = [];
  notes = [];
  has_on_heartbeat = false;
  heartbeats = [];
  done_calls = 0;
}

-- Nothing has been written to the new connection.
unfoldable pub adopt : Sock → Sock
adopt s = record s { is_open = true; writes = []; close_code = 0; closex = 0 }

-- A handshake that failed closes the socket.
unfoldable pub handshake_failed :
    Conn
    → (Error → Bytes)
    → (ℕ → Bool)
    → Error
    → Reader
    → Sock
    → Result (Option Error × Reader × Sock)
handshake_failed c text has_room e r s = do (e', s') ← close c text has_room s; ok (some e, r, s')

-- The version of the other end, as it was read
unfoldable pub handshake_read :
    Conn
    → (Error → Bytes)
    → (ℕ → Bool)
    → Reader
    → Sock
    → Result (ℕ × Reader)
    → Result (Option Error × Reader × Sock)
handshake_read c text has_room r s (ok (version, r')) = ok (none, r', s)
handshake_read c text has_room r s (err e) = handshake_failed c text has_room e r s
handshake_read c text has_room r s panic = panic

unfoldable pub handshake_written :
    Conn
    → (Error → Bytes)
    → (ℕ → Bool)
    → Reader
    → Option Error × Sock
    → Result (Option Error × Reader × Sock)
handshake_written c text has_room r (some e, s) = handshake_failed c text has_room e r s
handshake_written c text has_room r (none, s) = handshake_read c text has_room r s (read_version r)

-- `Handshake`. After a failure the reader is of no use.
unfoldable pub handshake :
    Conn → (Error → Bytes) → (ℕ → Bool) → Reader → Sock → Result (Option Error × Reader × Sock)
handshake c text has_room r s = protocol_version_buf >>= λ version.
    if not s.is_open then panic else handshake_written c text has_room r (write c version s)

-- `ConnectReader`, up to the goroutine that reads
unfoldable pub connect_reader :
    Conn → (Error → Bytes) → (ℕ → Bool) → Reader → Sock → Result (Option Error × Reader × Sock)
connect_reader c text has_room r s = handshake c text has_room r (adopt s)

unfoldable pub is_closed : Sock → Bool
is_closed s = ltb 0 s.closex

-- What a connection answers to a deadline, or `none` where it takes none.
unfoldable pub deadline_or : Option (Option Error) → Option Error → Option Error
deadline_or none e = e
deadline_or (some e') e = e'

-- `Shutdown`, with the connection's answers to the two deadlines
unfoldable pub shutdown : Option (Option Error) → Option (Option Error) → Sock → Option Error × Sock
shutdown set_read set_write s =
    if s.is_shutdown
    then (some sock_closed, s)
    else (deadline_or set_write (deadline_or set_read none), record s { is_shutdown = true })

-- `SendHeartbeat`, for a load that is scaled to 16 bits, into the caller's buffer
unfoldable pub send_heartbeat : Conn → ℕ → ℕ → Bytes → Sock → Result (Option Error × Sock)
send_heartbeat c load now buf s = do
  msg ← make_heartbeat_msg load now buf
  ok (if s.is_open then write c msg s else (none, s))

-- The loop of `sendHeartbeats`, by what its rounds find: the load and the time, and whether the
-- interval passed before the loop was stopped. A write that fails ends it.
unfoldable pub send_heartbeats :
    Conn → List (ℕ × ℕ × Bool) → Bytes → Sock → Result (Option Error × Sock)
send_heartbeats c [] buf s = ok (none, s)
send_heartbeats c ((load, now, passed) ∷ rounds) buf s = do
  (e, s') ← send_heartbeat c load now buf s
  elim e [
    | some e' ↦ ok (some e', s')
    | none ↦ elim passed [ true ↦ send_heartbeats c rounds buf s' | false ↦ ok (none, s') ]
  ]
