-- ===== src/Server.antt =====
-- server.go: the loop of `Accept` with its back-off, and in Serving what becomes of a connection.
pub mod Backoff
pub mod Serving
pub mod Listening
use gotalk.Common.{
  ℕ, ◌+◌, ◌*◌, Bool, List, [], ◌∷◌, ltb, ◌==◌, if◌then◌else◌, Option, none, some, Error,
}

abbrev pub millisecond : ℕ
millisecond = 1_000_000

-- What `Listener.Accept` returns: a connection, known by a number, or an error, which is a
-- `net.Error` that calls itself temporary, or another.
pub data Accepted : Type 0 where
  connection : ℕ → Accepted
  temporary : Error → Accepted
  final : Error → Accepted

-- What the loop does: it sleeps for a time in nanoseconds, or serves a connection on a goroutine.
pub data Action : Type 0 where
  sleep : ℕ → Action
  serve : ℕ → Action

-- `tempDelay` behind another temporary error
unfoldable pub next_delay : ℕ → ℕ
next_delay temp_delay =
    let d = if temp_delay == 0 then 5 * millisecond else temp_delay * 2 in
    if ltb (1000 * millisecond) d then 1000 * millisecond else d

-- The loop over the results to come, with what it does, in order, and the error that it returns. It
-- returns none where the results end, since it waits there for the next.
unfoldable pub accept : ℕ → List Accepted → List Action × Option Error
accept temp_delay [] = ([], none)
accept temp_delay (connection c ∷ rs) = let (done, e) = accept temp_delay rs in (serve c ∷ done, e)
accept temp_delay (temporary e ∷ rs) =
    let (done, e') = accept (next_delay temp_delay) rs in (sleep (next_delay temp_delay) ∷ done, e')
accept temp_delay (final e ∷ rs) = ([], some e)
