-- ===== src/Examples/Dialing.antt =====
-- A server at a TCP listener, and a socket that connects to one.
use gotalk.Tls.{TlsConfig}
use gotalk.Common.{
  Bytes, List, Option, none, Error, Result, [], ◌∷◌, failed, ok, true, ◌≡◌, refl, Bool, ◌++◌,
}
use gotalk.Server.Listening.{Listener, tcp_listener, waits, panics, serve_at, NetListener}
use gotalk.Server.Listening.Rounds.{undisturbed, returns_or, events_of, serve_at-accept, is_tcp}
use gotalk.Server
use gotalk.Server.{Accepted, temporary, final, accept, sleep, serve, next_delay}
use gotalk.Sock.Dialing.{Dialed, dialed, connect_tls}
use gotalk.Sock.Dialing.Outcomes.{Concludes, connect_tls-Concludes}
use gotalk.Examples.Sockets.{connection, echo, idle}
use gotalk.Examples.Loop.{greeting}

abbrev accepting : List Accepted
accepting = Server.connection 7 ∷ temporary failed ∷ Server.connection 8 ∷ []

abbrev net_listen : Bytes → Bytes → Result NetListener
net_listen how addr = ok (tcp_listener 1)

abbrev closes : Listener → Option Error
closes l = none

serve_at-accept_example :
    (serve_at net_listen 0 none closes [] [] none (undisturbed accepting)
      ≡ ok (
        events_of (is_tcp (tcp_listener 1)) (accept 0 accepting).0,
        returns_or waits (accept 0 accepting).1,
      ))
    × ((a : Accepted) (more : List (Bool × Accepted))
        → serve_at net_listen 0 none closes [] [] none (undisturbed accepting ++ ((true, a) ∷ more))
          ≡ ok (
            events_of (is_tcp (tcp_listener 1)) (accept 0 accepting).0,
            returns_or panics (accept 0 accepting).1,
          ))
serve_at-accept_example =
    serve_at-accept net_listen 0 none closes [] [] none accepting (tcp_listener 1) refl

abbrev dial : Bytes → Bytes → TlsConfig → Dialed
dial how addr config = dialed connection greeting

connect_tls-Concludes_example :
    Concludes
      (dialed connection greeting)
      b'0'
      b'1'
      echo
      none
      idle
      (connect_tls (λ e. []) (λ ch. true) dial [] [] [] none none idle)
connect_tls-Concludes_example =
    connect_tls-Concludes (λ e. []) (λ ch. true) dial [] [] [] none none idle b'0' b'1' echo
      ((λ done b. refl), (refl, (refl, tt)), refl)
