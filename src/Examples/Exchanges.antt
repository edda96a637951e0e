-- ===== src/Examples/Exchanges.antt =====
-- "echo" asked by one socket and answered by another, and a streaming request that is let in.
use gotalk.Protocol.Reader.Exact.{stream}
use gotalk.Sock.Exchange.Orders.{
  Coming, wires, is_coming, ArePending, deliveries, read_loop-deliveries,
}
use gotalk.Handlers.{lookup}
use gotalk.Sock.Retry.{receive, waiting}
use gotalk.Sock.Exchange.Asking.{response_of}
use gotalk.Protocol.{msg_type_single_res, msg_type_error_res}
use gotalk.Sock.Serving.{returned}
use gotalk.Sock.Streams.{read_stream_req}
use gotalk.Sock.Exchange.RoundTrip.{Sends, request_wire, Serves, Hears, request-concluded}
use gotalk.Sock.Streams.Balance.{StreamSettles, stream_turn, read_stream_req-Settles}
use gotalk.Protocol.Reader.{Reader}
use gotalk.Sock.{Sock}
use gotalk.Common.{
  ◌≡◌, none, refl, ok, some, true, ◌++◌, ◌∷◌, [], ap, replicate, arith, sym, ap₂, List, bytes_eq, ℕ,
  Bytes, inr, inl, if◌then◌else◌,
}
use gotalk.Protocol.Version.{format_request_id}
use gotalk.Sock.Loop.{deadline_error, read_loop}
use gotalk.Sock.Exchange.{ResponseParts, Run, deserved, response_wire, concluded}
use gotalk.Limits.{
  inc_buffer_req, wait_buffer_req, wait_stream_req, inc, rand_uint32, inc_stream_req,
  stream_req_enabled,
}
use gotalk.Examples.Sockets.{connection, echo, hi, first_id, idle}
use gotalk.Examples.Loop.{outside}
use gotalk.Examples.Streams.{stream_limits, stream_limits-IsSound}

abbrev run : Run
run f op payload = returned (payload ++ payload)

abbrev requested : Reader
requested =
    record { bytes = request_wire first_id echo hi; failure = none }
    ∷ record { bytes = echo; failure = none }
    ∷ []

abbrev responded : Reader
responded =
    record { bytes = response_wire first_id (msg_type_single_res, 0, hi ++ hi); failure = none }
    ∷ record { bytes = hi; failure = none }
    ∷ []

let_in : (inc_buffer_req stream_limits).1 ≡ true
unfolding inc_buffer_req inc
let_in = refl

no_deadline : deadline_error outside 0 stream_limits ≡ none
unfolding deadline_error
no_deadline = refl

waits : wait_buffer_req (outside.draw 0) stream_limits ≡ ok 500
unfolding wait_buffer_req rand_uint32
waits = refl

stream_waits : wait_stream_req (outside.draw 0) stream_limits ≡ ok 500
unfolding wait_stream_req rand_uint32
stream_waits = refl

first_made : format_request_id idle.next_op_id ≡ first_id
unfolding format_request_id
first_made = refl

-- The response, for what the limits say
abbrev response : ResponseParts
response = deserved (inc_buffer_req stream_limits).1 (some 3) echo hi 500 run

the_response : response ≡ (msg_type_single_res, 0, hi ++ hi)
the_response = ap (λ b. deserved b (some 3) echo hi 500 run) let_in

request-concluded_example :
    (c1 : Sock) × Sends outside echo hi 7 idle c1
    × Serves outside run 0 requested
        (replicate 128 0)
        stream_limits
        idle
        (response_wire (format_request_id idle.next_op_id) response)
        echo
    × Hears outside 0 responded
        (replicate 128 0)
        stream_limits
        c1
        (format_request_id idle.next_op_id)
        7
        (response_of response)
        hi
    × (receive (some (response_of response), idle) (ok (waiting, idle))
        ≡ concluded (inc_buffer_req stream_limits).1 (some 3) echo hi run idle (ok (waiting, idle)))
request-concluded_example =
    request-concluded outside outside run 0 0 echo hi 7 500 idle idle stream_limits stream_limits
      responded requested (replicate 128 0) (replicate 128 0) hi echo idle (ok (waiting, idle))
      (λ done b. refl) (λ done b. refl) refl refl refl (omega arith) (omega arith) (omega arith)
      no_deadline no_deadline stream_limits-IsSound waits (omega arith)
      (rw the_response (omega arith)) (refl, (refl, tt))
      (ap (λ i. request_wire i echo hi ++ echo) (sym first_made)) (refl, (refl, tt))
      (ap₂ (λ i d. response_wire i d ++ hi) (sym first_made) (sym the_response)) (omega arith)
      (omega arith)

read_stream_req-Settles_example :
    StreamSettles
      (read_stream_req connection
        (outside.draw 0)
        outside.find_buffer
        stream_limits
        first_id
        echo
        2
        (record { bytes = hi ++ echo; failure = none } ∷ [])
        idle)
      (stream_turn
        (inc_stream_req stream_limits).1
        (stream_req_enabled stream_limits)
        (some 3)
        first_id
        echo
        hi
        500
        idle)
      stream_limits
      echo
read_stream_req-Settles_example =
    read_stream_req-Settles connection (outside.draw 0) outside.find_buffer first_id echo hi echo
      (record { bytes = hi ++ echo; failure = none } ∷ []) idle (λ done b. refl) refl refl
      (omega arith) (unfold lookup in refl) (refl, tt) refl stream_limits 500 stream_limits-IsSound
      stream_waits (omega arith)

-- Two requests are pending, and the later one is answered first.
abbrev two_pending : Sock
two_pending = record idle { pending_res = (first_id, some 4) ∷ (echo, some 5) ∷ [] }

abbrev coming : List Coming
coming =
    record { id = echo; channel = 5; parts = (msg_type_error_res, 0, hi) }
    ∷ record { id = first_id; channel = 4; parts = (msg_type_single_res, 0, echo) }
    ∷ []

abbrev arriving : Reader
arriving =
    record { bytes = wires coming; failure = none } ∷ record { bytes = hi; failure = none } ∷ []

coming-ArePending : ArePending coming two_pending
unfolding lookup bytes_eq is_coming
coming-ArePending = (
  refl,
  inr (inl (refl, refl)),
  omega arith,
  refl,
  refl,
  (refl, inl (refl, refl), omega arith, refl, refl, tt),
)

read_loop-deliveries_example :
    (n' : ℕ) × (r' : Reader) × (b' : Bytes) × (s' : Sock) × (read_loop outside 5 0 arriving
        (replicate 128 0)
        stream_limits
        two_pending
      ≡ read_loop outside 3 n' r' b' stream_limits s')
    × (stream r' ≡ hi)
    × (s'.delivered ≡ deliveries coming two_pending.delivered)
    × ((j : Bytes)
        → lookup j s'.pending_res
          ≡ (if is_coming j coming then none else lookup j two_pending.pending_res))
read_loop-deliveries_example =
    read_loop-deliveries outside stream_limits (λ n x. refl) (λ n. unfold deadline_error in refl)
      coming 3 0 arriving (replicate 128 0) hi two_pending coming-ArePending (refl, (refl, tt)) refl
      (omega arith)
