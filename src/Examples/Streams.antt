-- ===== src/Examples/Streams.antt =====
-- A streaming request that a socket serves, and the same id again behind it.
use gotalk.Sock.Streams.Lifetime.{serve_stream-Heard}
use gotalk.Handlers.{lookup}
use gotalk.Sock.Wire.{written}
use gotalk.Sock.Streams.Reuse.{read_stream_req-reused}
use gotalk.Sock.Streams.Results.{serve_stream, result_msgs, forgotten}
use gotalk.Common.Int.{pos}
use gotalk.Protocol.{Msg}
use gotalk.Sock.Wire.Heard.{on_wire, Heard}
use gotalk.Sock.{Sock}
use gotalk.Limits.{LimitsImpl, dec_stream_req, inc_stream_req, inc}
use gotalk.Sock.Streams.{StreamJob, read_stream_req}
use gotalk.Limits.Counter.{IsSound}
use gotalk.Common.{
  List, arith, ◌++◌, Bytes, [], none, some, true, ◌∷◌, ◌≡◌, false, ok, panic, replicate, ap, refl,
  append-nil,
}
use gotalk.Protocol.Reader.{Reader}
use gotalk.Examples.Sockets.{connection, echo, hi, first_id, idle}

abbrev pub stream_limits : LimitsImpl
stream_limits = record {
  read_timeout = pos 0;
  buffer_limit = record { limit = 2; count = 1 };
  stream_limit = record { limit = 2; count = 1 };
  buffer_min_wait = 500;
  buffer_max_wait = 5000;
  stream_min_wait = 500;
  stream_max_wait = 5000;
}

pub stream_limits-IsSound : IsSound stream_limits
stream_limits-IsSound = record {
  buffer_count = omega arith;
  stream_count = omega arith;
  buffer_limit = omega arith;
  stream_limit = omega arith;
}

abbrev stream_job : StreamJob
stream_job = record { handler = 3; id = first_id; op = echo; channel = 0 }

-- Two results, then the error "hi", then the end of the results.
abbrev results : List (Msg × Bytes)
results = result_msgs first_id false (some hi) (echo ∷ hi ∷ [])

abbrev requestor : Reader
requestor =
    record { bytes = on_wire results; failure = none }
    ∷ record { bytes = echo; failure = none }
    ∷ []

serve_stream-Heard_example :
    (s' : Sock) × (serve_stream connection
        (λ e. [])
        (λ ch. true)
        stream_job
        (echo ∷ hi ∷ [])
        (some hi)
        stream_limits
        idle
      ≡ ok (dec_stream_req stream_limits, s'))
    × (written s'.writes ≡ written idle.writes ++ on_wire results)
    × (s'.pending_req ≡ forgotten first_id (some hi) idle.pending_req)
    × Heard requestor (replicate 21 0) results echo
serve_stream-Heard_example =
    serve_stream-Heard connection (λ e. []) (λ ch. true) stream_job (echo ∷ hi ∷ []) (some hi)
      stream_limits idle echo (replicate 21 0) requestor (λ done b. refl) refl refl
      (omega arith, (omega arith, tt)) (omega arith) (refl, (refl, tt))
      (ap (λ (v : Bytes). on_wire results ++ v) (append-nil echo)) (omega arith)

abbrev twice : Reader
twice = record { bytes = hi ++ (echo ++ echo); failure = none } ∷ []

read_stream_req-reused_example :
    (lim1 : LimitsImpl) × (job : StreamJob) × (r1 : Reader) × (s1 : Sock) × (s2 : Sock)
    × (read_stream_req connection (λ n. 0) (λ op. some 3) stream_limits first_id echo 2 twice idle
        ≡ ok (none, lim1, some job, r1, s1))
    × (serve_stream connection (λ e. []) (λ ch. true) job (hi ∷ []) none lim1 s1
        ≡ ok (stream_limits, s2))
    × (read_stream_req connection (λ n. 0) (λ op. some 3) stream_limits first_id echo 4 r1 s2
        ≡ panic)
read_stream_req-reused_example =
    read_stream_req-reused connection (λ e. []) (λ ch. true) (λ n. 0) (λ op. some 3) stream_limits
      first_id echo hi echo echo (hi ∷ []) 3 twice idle (λ done b. refl) refl refl
      (unfold lookup in refl) (omega arith, tt) stream_limits-IsSound
      (unfold inc_stream_req inc in refl) refl (refl, tt) refl
