-- ===== src/Sock/Dialing.antt =====
-- sock.go: how a socket gets its connection: `Connect`, `ConnectTLS` and `Pipe`.
pub mod Outcomes
use gotalk.Common.{Bytes, ℕ, Bool, Option, Result, Error, none, some, ok, ◌>>=◌}
use gotalk.Sock.{Sock, Conn}
use gotalk.Sock.Setup.{connect_reader, new_sock, adopt}
use gotalk.Protocol.Reader.{Reader}
use gotalk.Limits.{Limits}
use gotalk.Tls.{TlsConfig, Pool, config_or_default}

-- What `net.Dial` and `tls.Dial` give: a connection, by what it takes and what comes from it, or an error.
pub data Dialed : Type 0 where
  dialed : Conn → Reader → Dialed
  not_dialed : Error → Dialed

-- A goroutine that reads: `go s.Read(limits)`
pub record Reading : Type 0 where
  pub reader : Reader
  pub limits : Option Limits

unfoldable pub reading_unless : Option Error → Reader → Option Limits → Option Reading
reading_unless none r limits = some (record { reader = r; limits = limits })
reading_unless (some e) r limits = none

module _ (text : Error → Bytes) (has_room : ℕ → Bool) where
  unfoldable pub connect_dialed :
      Dialed → Option Limits → Sock → Result (Option Error × Option Reading × Sock)
  connect_dialed (not_dialed e) limits s = ok (some e, none, s)
  connect_dialed (dialed c r) limits s =
      connect_reader c text has_room r s >>= λ x. ok (x.0, reading_unless x.0 x.1 limits, x.2)

  -- `Sock.Connect`
  unfoldable pub connect :
      (Bytes → Bytes → Dialed)
      → Bytes
      → Bytes
      → Option Limits
      → Sock
      → Result (Option Error × Option Reading × Sock)
  connect dial how addr limits s = connect_dialed (dial how addr) limits s

  -- `Sock.ConnectTLS`; `pool` is what `TLSCertPool` gives.
  unfoldable pub connect_tls :
      (Bytes → Bytes → TlsConfig → Dialed)
      → Pool
      → Bytes
      → Bytes
      → Option Limits
      → Option TlsConfig
      → Sock
      → Result (Option Error × Option Reading × Sock)
  connect_tls dial pool how addr limits config s =
      connect_dialed (dial how addr (config_or_default pool config)) limits s

  -- `Connect` and `ConnectTLS` of a new socket; `default_limits` is `DefaultLimits`.
  unfoldable pub connect_new :
      (Bytes → Bytes → Dialed)
      → Option Limits
      → Bytes
      → Bytes
      → Result (Option Error × Option Reading × Sock)
  connect_new dial default_limits how addr = connect dial how addr default_limits new_sock

  unfoldable pub connect_tls_new :
      (Bytes → Bytes → TlsConfig → Dialed)
      → Pool
      → Option Limits
      → Bytes
      → Bytes
      → Option TlsConfig
      → Result (Option Error × Option Reading × Sock)
  connect_tls_new dial pool default_limits how addr config =
      connect_tls dial pool how addr default_limits config new_sock

-- The handlers that `Pipe` uses
unfoldable pub handlers_or_default : ℕ → Option ℕ → ℕ
handlers_or_default default_handlers none = default_handlers
handlers_or_default default_handlers (some h) = h

-- `Pipe`: the handlers, and two sockets that read from the two ends without a handshake
unfoldable pub pipe :
    ℕ → Option ℕ → Option Limits → Reader → Reader → ℕ × (Reading × Sock) × (Reading × Sock)
pipe default_handlers handlers limits r1 r2 = (
  handlers_or_default default_handlers handlers,
  (record { reader = r1; limits = limits }, adopt new_sock),
  (record { reader = r2; limits = limits }, adopt new_sock),
)
