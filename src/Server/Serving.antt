-- ===== src/Server/Serving.antt =====
-- server.go: what `Server.accept` does with a connection.
use gotalk.Sock.Setup.{handshake, adopt, new_sock}
use gotalk.Protocol.Reader.{Reader}
use gotalk.Sock.{Sock}
use gotalk.Limits.{Limits, make_limits_impl}
use gotalk.Common.{Option, Bool, some, Error, none, Result, ok, [], ◌>>=◌}
use gotalk.Sock.Loop.{Outside, Ended, read}

-- `AcceptHandler`, by what it does to the socket
unfoldable pub apply_handler : Option (Sock → Sock) → Sock → Sock
apply_handler none s = s
apply_handler (some f) s = f s

-- A socket that is shaken hands with is served, and else left closed. `o` has the connection, the
-- lookups of the server's handlers and its `HeartbeatInterval`.
unfoldable pub after_handshake :
    Outside
    → Option Limits
    → Option (Sock → Sock)
    → Bool
    → Option Error × Reader × Sock
    → Result Ended
after_handshake o limits on_accept has_on_heartbeat (some e, r, s) =
    ok (some ([], e, make_limits_impl limits, s))
after_handshake o limits on_accept has_on_heartbeat (none, r, s) =
    read o limits r (record (apply_handler on_accept s) { has_on_heartbeat = has_on_heartbeat })

unfoldable pub accept_conn :
    Outside → Option Limits → Option (Sock → Sock) → Bool → Reader → Result Ended
accept_conn o limits on_accept has_on_heartbeat r =
    handshake o.conn o.text o.has_room r (adopt new_sock)
    >>= after_handshake o limits on_accept has_on_heartbeat
