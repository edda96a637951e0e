-- ===== src/Server/Listening/Rounds.antt =====
-- `Accept` with its listener: what it does to the connections, and what a `Close` beside it does.
use gotalk.Common.{
  Bytes, List, Option, Bool, Error, Result, ◌++◌, [], some, ℕ, ◌∷◌, ◌≡◌, ap, false, none, ok, true,
  ◌∙◌, append_assoc, ◌>>=◌, refl,
}
use gotalk.Server.Listening.{
  Listener, Server, Event, did, settings, Stop, waits, panics, returns, accept_rounds, on_listener,
  close_server, close_found, serve_at, listen, new_server, wrap_listener, NetListener, keep_alive,
  net_listener, tcp_listener, unix_listener, other_listener,
}
use gotalk.Server.{Accepted, connection, temporary, final, accept, Action, sleep, serve, next_delay}
use gotalk.Limits.{Limits}
use gotalk.Sock.{Sock}

-- Rounds beside which nobody closes the server
unfoldable pub undisturbed : List Accepted → List (Bool × Accepted)
undisturbed [] = []
undisturbed (a ∷ rs) = (false, a) ∷ undisturbed rs

-- A connection of a TCP listener is set to be kept alive, every 30 seconds.
abbrev pub is_tcp : NetListener → Bool
is_tcp (tcp_listener l) = true
is_tcp (unix_listener l) = false
is_tcp (other_listener l) = false

abbrev pub kept_alive : Bool → ℕ → List Event
kept_alive true c = keep_alive c 30_000_000_000 ∷ []
kept_alive false c = []

-- What the loop does, with what is done to a connection right before it is served
unfoldable pub events_of : Bool → List Action → List Event
events_of tcp [] = []
events_of tcp (serve c ∷ as_) = kept_alive tcp c ++ (did (serve c) ∷ events_of tcp as_)
events_of tcp (sleep t ∷ as_) = did (sleep t) ∷ events_of tcp as_

settings-kept_alive :
    (n : NetListener) (c : ℕ)
    → settings (wrap_listener (net_listener n)) c ≡ kept_alive (is_tcp n) c
unfolding settings wrap_listener
settings-kept_alive (tcp_listener l) c = refl
settings-kept_alive (unix_listener l) c = refl
settings-kept_alive (other_listener l) c = refl

abbrev pub returns_or : Stop → Option Error → Stop
returns_or stop none = stop
returns_or stop (some e) = returns e

module _ (close_listener : Listener → Option Error) (sv : Server) (l : Listener) (tcp : Bool)
    (open_ : sv.listener ≡ some l) (sets : (c : ℕ) → settings l c ≡ kept_alive tcp c) where
  found :
      (first : Listener → List Event) (rest : List Event × Stop)
      → on_listener close_listener sv.listener first rest ≡ (first l ++ rest.0, rest.1)
  unfolding on_listener
  found first rest = ap (λ o. on_listener close_listener o first rest) open_

  accept_rounds-undisturbed :
      (delay : ℕ) (rs : List Accepted)
      → accept_rounds close_listener delay sv (undisturbed rs)
        ≡ (events_of tcp (accept delay rs).0, returns_or waits (accept delay rs).1)
  unfolding accept_rounds undisturbed accept events_of
  accept_rounds-undisturbed delay [] = refl
  accept_rounds-undisturbed delay (connection c ∷ rs) =
      found (λ l. settings l c ++ (did (serve c) ∷ []))
        (accept_rounds close_listener delay sv (undisturbed rs))
      ∙ ap (λ (p : List Event × Stop). ((settings l c ++ (did (serve c) ∷ [])) ++ p.0, p.1))
          (accept_rounds-undisturbed delay rs)
      ∙ ap (λ es. (es, returns_or waits (accept delay rs).1))
          (append_assoc (settings l c) (did (serve c) ∷ []) (events_of tcp (accept delay rs).0)
            ∙ ap (λ es. es ++ (did (serve c) ∷ events_of tcp (accept delay rs).0)) (sets c))
  accept_rounds-undisturbed delay (temporary e ∷ rs) =
      found (λ l. did (sleep (next_delay delay)) ∷ [])
        (accept_rounds close_listener (next_delay delay) sv (undisturbed rs))
      ∙ ap (λ (p : List Event × Stop). (did (sleep (next_delay delay)) ∷ p.0, p.1))
          (accept_rounds-undisturbed (next_delay delay) rs)
  accept_rounds-undisturbed delay (final e ∷ rs) = found (λ l. []) ([], returns e)

  shut :
      (first : Listener → List Event) (rest : List Event × Stop)
      → on_listener close_listener (close_server close_listener sv).1.listener first rest
        ≡ ([], panics)
  unfolding on_listener close_server close_found
  shut first rest =
      ap (λ o. on_listener close_listener (close_found close_listener o sv).1.listener first rest)
        open_

  close-panics :
      (delay : ℕ) (a : Accepted) (more : List (Bool × Accepted))
      → accept_rounds close_listener delay sv ((true, a) ∷ more) ≡ ([], panics)
  unfolding accept_rounds
  close-panics delay (connection c) more = shut _ _
  close-panics delay (temporary e) more = shut _ _
  close-panics delay (final e) more = shut _ _

  accept_rounds-closed :
      (delay : ℕ) (rs : List Accepted) (a : Accepted) (more : List (Bool × Accepted))
      → accept_rounds close_listener delay sv (undisturbed rs ++ ((true, a) ∷ more))
        ≡ (events_of tcp (accept delay rs).0, returns_or panics (accept delay rs).1)
  unfolding accept_rounds undisturbed accept events_of
  accept_rounds-closed delay [] a more = close-panics delay a more
  accept_rounds-closed delay (connection c ∷ rs) a more =
      found (λ l. settings l c ++ (did (serve c) ∷ []))
        (accept_rounds close_listener delay sv (undisturbed rs ++ ((true, a) ∷ more)))
      ∙ ap (λ (p : List Event × Stop). ((settings l c ++ (did (serve c) ∷ [])) ++ p.0, p.1))
          (accept_rounds-closed delay rs a more)
      ∙ ap (λ es. (es, returns_or panics (accept delay rs).1))
          (append_assoc (settings l c) (did (serve c) ∷ []) (events_of tcp (accept delay rs).0)
            ∙ ap (λ es. es ++ (did (serve c) ∷ events_of tcp (accept delay rs).0)) (sets c))
  accept_rounds-closed delay (temporary e ∷ rs) a more =
      found (λ l. did (sleep (next_delay delay)) ∷ [])
        (accept_rounds close_listener (next_delay delay) sv (undisturbed rs ++ ((true, a) ∷ more)))
      ∙ ap (λ (p : List Event × Stop). (did (sleep (next_delay delay)) ∷ p.0, p.1))
          (accept_rounds-closed (next_delay delay) rs a more)
  accept_rounds-closed delay (final e ∷ rs) a more = found (λ l. []) ([], returns e)

-- Where `net.Listen` gives a listener, `Serve` serves, sleeps and returns an error for what the
-- listener gives just as the loop of `Accept` alone does for it, each connection of a TCP listener
-- being set to be kept alive every 30 seconds right before it is served, and waits where the loop
-- does; and where another goroutine calls `Close` before the loop asks the listener once more, it
-- does the same up to there and then panics, unless it has returned an error by then.
pub serve_at-accept :
    (net_listen : Bytes → Bytes → Result NetListener) (h : ℕ) (limits : Option Limits)
    (close_listener : Listener → Option Error) (how addr : Bytes) (handler : Option (Sock → Sock))
    (rs : List Accepted) (l : NetListener)
    → net_listen how addr ≡ ok l
    → (serve_at net_listen h limits close_listener how addr handler (undisturbed rs)
        ≡ ok (events_of (is_tcp l) (accept 0 rs).0, returns_or waits (accept 0 rs).1))
      × ((a : Accepted) (more : List (Bool × Accepted))
          → serve_at net_listen h limits close_listener how addr handler
              (undisturbed rs ++ ((true, a) ∷ more))
            ≡ ok (events_of (is_tcp l) (accept 0 rs).0, returns_or panics (accept 0 rs).1))
unfolding serve_at listen new_server
serve_at-accept net_listen h limits close_listener how addr handler rs l e = (
  served (undisturbed rs)
      ∙ ap (λ p. ok p)
          (accept_rounds-undisturbed close_listener sv (wrap_listener (net_listener l)) (is_tcp l)
            refl (settings-kept_alive l) 0 rs),
  λ a more.
      served (undisturbed rs ++ ((true, a) ∷ more))
      ∙ ap (λ p. ok p)
          (accept_rounds-closed close_listener sv (wrap_listener (net_listener l)) (is_tcp l) refl
            (settings-kept_alive l) 0 rs a more),
)
  where
    sv : Server
    sv = record (new_server h limits (wrap_listener (net_listener l))) { accept_handler = handler }

    served :
        (rounds : List (Bool × Accepted))
        → serve_at net_listen h limits close_listener how addr handler rounds
          ≡ ok (accept_rounds close_listener 0 sv rounds)
    served rounds =
        ap
          (λ (m : Result NetListener).
            (m >>= (λ l. ok (new_server h limits (wrap_listener (net_listener l))))) >>= (λ sv.
              ok (accept_rounds close_listener 0 (record sv { accept_handler = handler }) rounds)))
          e
