-- ===== src/Server/Listening.antt =====
-- server.go: how a server comes to listen, what it does to a connection that it accepts, and `Close`.
pub mod Rounds
use gotalk.Common.{
  ℕ, Bytes, List, Option, Bool, Result, Error, [], ◌∷◌, ◌++◌, none, some, ok, ◌>>=◌, if◌then◌else◌,
  false, ◌*◌,
}
use gotalk.Server.{
  Accepted, connection, temporary, final, Action, sleep, serve, next_delay, millisecond,
}
use gotalk.Limits.{Limits}
use gotalk.Sock.{Sock}
use gotalk.Tls.{TlsConfig, Pool}

-- What `net.Listen` gives, known by a number
pub data NetListener : Type 0 where
  tcp_listener unix_listener other_listener : ℕ → NetListener

-- A listener, and what the server makes of one
pub data Listener : Type 0 where
  net_listener : NetListener → Listener
  tcp_keep_alive_listener : ℕ → Listener
  tls_listener : Listener → TlsConfig → Listener

pub record Server : Type 0 where
  pub handlers : ℕ
  pub limits : Option Limits
  pub accept_handler : Option (Sock → Sock)
  pub heartbeat_interval : ℕ
  pub has_on_heartbeat : Bool
  pub listener : Option Listener

unfoldable pub wrap_listener : Listener → Listener
wrap_listener (net_listener (tcp_listener l)) = tcp_keep_alive_listener l
wrap_listener (net_listener (unix_listener l)) = net_listener (unix_listener l)
wrap_listener (net_listener (other_listener l)) = net_listener (other_listener l)
wrap_listener (tcp_keep_alive_listener l) = tcp_keep_alive_listener l
wrap_listener (tls_listener l config) = tls_listener l config

unfoldable pub new_server : ℕ → Option Limits → Listener → Server
new_server h limits l = record {
  handlers = h;
  limits = limits;
  accept_handler = none;
  heartbeat_interval = 0;
  has_on_heartbeat = false;
  listener = some l;
}

-- An accepted connection is set to be kept alive, every so many nanoseconds, or the loop does something.
pub data Event : Type 0 where
  keep_alive : ℕ → ℕ → Event
  did : Action → Event

-- What `Accept` of a listener does to the connection that it returns. A TLS listener has it from the one
-- inside.
unfoldable pub settings : Listener → ℕ → List Event
settings (tcp_keep_alive_listener l) c = keep_alive c (30 * 1000 * millisecond) ∷ []
settings (tls_listener l config) c = settings l c
settings (net_listener l) c = []

-- How the loop of `Accept` ends, or that it waits for the listener. A listener that is nil panics.
pub data Stop : Type 0 where
  waits panics : Stop
  returns : Error → Stop

module _ (close_listener : Listener → Option Error) where
  unfoldable pub close_found : Option Listener → Server → Option Error × Server
  close_found none sv = (none, sv)
  close_found (some l) sv = (close_listener l, record sv { listener = none })

  unfoldable pub close_server : Server → Option Error × Server
  close_server sv = close_found sv.listener sv

  abbrev pub closed_if : Bool → Server → Server
  closed_if closes sv = if closes then (close_server sv).1 else sv

  unfoldable pub on_listener :
      Option Listener → (Listener → List Event) → List Event × Stop → List Event × Stop
  on_listener none first rest = ([], panics)
  on_listener (some l) first rest = (first l ++ rest.0, rest.1)

  -- The loop of `Accept`, by what its rounds find: whether another goroutine closes the server before the
  -- round asks the listener, and what that gives.
  unfoldable pub accept_rounds : ℕ → Server → List (Bool × Accepted) → List Event × Stop
  accept_rounds delay sv [] = ([], waits)
  accept_rounds delay sv ((closes, connection c) ∷ rounds) =
      let sv' : Server = closed_if closes sv in
      let rest = accept_rounds delay sv' rounds in
      on_listener sv'.listener (λ l. settings l c ++ (did (serve c) ∷ [])) rest
  accept_rounds delay sv ((closes, temporary e) ∷ rounds) =
      let sv' : Server = closed_if closes sv in
      let rest = accept_rounds (next_delay delay) sv' rounds in
      on_listener sv'.listener (λ l. did (sleep (next_delay delay)) ∷ []) rest
  accept_rounds delay sv ((closes, final e) ∷ rounds) =
      on_listener (closed_if closes sv).listener (λ l. []) ([], returns e)

-- `Addr`
unfoldable pub addr_of : (Listener → Bytes) → Option Listener → Bytes
addr_of address none = []
addr_of address (some l) = address l

unfoldable pub addr : (Listener → Bytes) → Server → Bytes
addr address sv = addr_of address sv.listener

-- `net_listen` is `net.Listen`; `h` and `limits` are `DefaultHandlers` and `DefaultLimits`.
module _ (net_listen : Bytes → Bytes → Result NetListener) (h : ℕ) (limits : Option Limits) where
  unfoldable pub listen : Bytes → Bytes → Result Server
  listen how addr = do
    l ← net_listen how addr
    ok (new_server h limits (wrap_listener (net_listener l)))

  unfoldable pub listen_tls_custom : Bytes → Bytes → TlsConfig → Result Server
  listen_tls_custom how addr config = do
    l ← net_listen how addr
    ok (new_server h limits (tls_listener (wrap_listener (net_listener l)) config))

  -- `load_key_pair` is `tls.LoadX509KeyPair`, and `pool` what `TLSCertPool` gives.
  unfoldable pub listen_tls :
      (Bytes → Bytes → Result Bytes) → Pool → Bytes → Bytes → Bytes → Bytes → Result Server
  listen_tls load_key_pair pool how addr cert_file key_file = do
    cert ← load_key_pair cert_file key_file
    listen_tls_custom how addr
        (record { root_cas = some pool; certificates = cert ∷ []; settings = 0 })

  -- `Serve`
  unfoldable pub serve_at :
      (Listener → Option Error)
      → Bytes
      → Bytes
      → Option (Sock → Sock)
      → List (Bool × Accepted)
      → Result (List Event × Stop)
  serve_at close_listener how addr accept_handler rounds = do
    sv ← listen how addr
    ok (accept_rounds close_listener 0 (record sv { accept_handler = accept_handler }) rounds)

-- What `EnableUnixSocketGC` makes a signal do: `none` where it installs nothing, or else what `Close` does,
-- before the process exits.
unfoldable pub gc_for :
    (Listener → Option Error) → Server → Option Listener → Option (Option Error × Server)
gc_for close_listener sv (some (net_listener (unix_listener l))) =
    some (close_server close_listener sv)
gc_for close_listener sv _ = none

unfoldable pub enable_unix_socket_gc :
    (Listener → Option Error) → Server → Option (Option Error × Server)
enable_unix_socket_gc close_listener sv = gc_for close_listener sv sv.listener
