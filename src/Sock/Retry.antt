-- ===== src/Sock/Retry.antt =====
-- `BufferRequest`: the loop over retry results.
use gotalk.Common.Int.{ℤ, is_nonpos, pos, negsuc}
use gotalk.Common.{
  ℕ, ◌^◌, ◌<◌, ◌≡◌, refl, ◌∙◌, true, false, List, [], ◌∷◌, ◌++◌, Bytes, length, none, some, ok,
  Result, sock_closed, Error, Option, if◌then◌else◌, ◌>>=◌, unexpected_streaming_res, ◌%◌, ◌-◌, ap,
}
use gotalk.Protocol.{msg_type_single_req}
use gotalk.Protocol.Version.{format_request_id}
use gotalk.Protocol.Make.Fields.{wire}
use gotalk.Sock.{
  register_res_chan, Conn, Sock, Response, new_request, is_retry, or_close_code, Request, is_error,
  send_request, is_streaming, protocol_error,
}
use gotalk.Sock.Wire.{pushed, IsWritable, send_request-pushed}

-- How `BufferRequest` ends: `refused` is an error that carries the peer's message. It is `waiting`
-- where its channel has given all that it will.
pub data Outcome : Type 0 where
  answered : Bytes → Outcome
  failed_with : Error → Outcome
  refused : Bytes → Outcome
  waiting : Outcome

-- What comes out of the channel, which is `none` where the channel is closed, and what the other
-- goroutines have done to the socket by then.
abbrev pub Answer : Type 0
Answer = Option Response × (Sock → Sock)

-- `protocolError(int32(res.Wait))`, for a positive wait
unfoldable pub error_of_wait : ℤ → Error
error_of_wait (pos n) = protocol_error (n % 2 ^ 32)
error_of_wait (negsuc n) = protocol_error ((0xffff_ffff - n % 2 ^ 32) % 2 ^ 32)

-- A response that ends the loop: all but a retry result.
unfoldable pub outcome_of : Response → Outcome
outcome_of r =
    if is_error r
    then if is_nonpos r.wait then refused r.payload else failed_with (error_of_wait r.wait)
    else if is_streaming r
    then failed_with unexpected_streaming_res
    else answered r.payload

-- The rest of a round behind `<-reschan`, with the socket as it is then: `again` is the next round.
unfoldable pub receive : Option Response × Sock → Result (Outcome × Sock) → Result (Outcome × Sock)
receive (none, s) again = ok (failed_with (or_close_code s sock_closed), s)
receive (some r, s) again = if is_retry r then again else ok (outcome_of r, s)

-- A round: `next` is what follows a request that was sent.
unfoldable pub round :
    Conn → Request → ℕ → Sock → (Sock → Result (Outcome × Sock)) → Result (Outcome × Sock)
round c r ch s next = do
  (e, s1) ← send_request c r ch s
  elim e [ some e' ↦ ok (failed_with (or_close_code s1 e'), s1) | none ↦ next s1 ]

unfoldable pub request_loop : Conn → Request → ℕ → List Answer → Sock → Result (Outcome × Sock)
request_loop c r ch [] s = round c r ch s λ s1. ok (waiting, s1)
request_loop c r ch (a ∷ answers) s =
    round c r ch s λ s1. receive (a.0, a.1 s1) (request_loop c r ch answers (a.1 s1))

unfoldable pub buffer_request :
    Conn → Bytes → Bytes → ℕ → List Answer → Sock → Result (Outcome × Sock)
buffer_request c op buf ch answers s = request_loop c (new_request op buf) ch answers s

-- The socket can send.
abbrev pub IsReady : Sock → Type 0
IsReady s = (s.is_open ≡ true) × (s.is_shutdown ≡ false)

receive-retry :
    (r : Response) (s : Sock) (again : Result (Outcome × Sock))
    → is_retry r ≡ true
    → receive (some r, s) again ≡ again
unfolding receive
receive-retry r s again retry = rw retry

-- The socket behind a request that was sent: its channel is registered under the next id, and the
-- request is written, a header and a payload.
abbrev pub asked : Bytes → Bytes → ℕ → Sock → Sock
asked op buf ch s = record (register_res_chan ch s).1 {
  writes =
      pushed (wire msg_type_single_req (format_request_id s.next_op_id) op 0 (length buf)) buf
        s.writes;
}

-- The socket once a request was sent for each of these answers, and each answer has come.
unfoldable pub asked_for : Bytes → Bytes → ℕ → List Answer → Sock → Sock
asked_for op buf ch [] s = s
asked_for op buf ch (a ∷ answers) s = asked_for op buf ch answers (a.1 (asked op buf ch s))

-- Retry results; the socket can send at the start and behind each.
abbrev pub AreRetries : Bytes → Bytes → ℕ → List Answer → Sock → Type 0
AreRetries op buf ch [] s = IsReady s
AreRetries op buf ch ((none, between) ∷ answers) s = ⊥
AreRetries op buf ch ((some r, between) ∷ answers) s =
    IsReady s × (is_retry r ≡ true) × AreRetries op buf ch answers (between (asked op buf ch s))

module _ (c : Conn) (op buf : Bytes) (ch : ℕ) (writable : IsWritable c) (some_name : 0 < length op)
    (short : length op < 4096) (small : length buf < 2 ^ 32) where
  round-next :
      (s : Sock) (next : Sock → Result (Outcome × Sock))
      → IsReady s
      → round c (new_request op buf) ch s next ≡ next (asked op buf ch s)
  unfolding round
  round-next s next (open_, on) =
      ap
        (λ (m : Result (Option Error × Sock)). m >>= (λ x. elim x.0 [
          | some e' ↦ ok (failed_with (or_close_code x.1 e'), x.1)
          | none ↦ next x.1
        ]))
        (send_request-pushed c op buf ch s writable open_ on some_name short small)

  loop-ends :
      (retries more : List Answer) (a : Answer) (s : Sock) (out : Sock → Result (Outcome × Sock))
      → AreRetries op buf ch retries s
      → ((u : Sock) (again : Result (Outcome × Sock)) → receive (a.0, a.1 u) again ≡ out (a.1 u))
      → request_loop c (new_request op buf) ch (retries ++ (a ∷ more)) s
        ≡ out (asked_for op buf ch (retries ++ (a ∷ [])) s)
  unfolding request_loop asked_for
  loop-ends [] more a s out ready h = round-next s _ ready ∙ h (asked op buf ch s) _
  loop-ends ((none, between) ∷ retries) more a s out rs h = absurd rs
  loop-ends ((some r, between) ∷ retries) more a s out (ready, retry, rs) h =
      round-next s _ ready
      ∙ receive-retry r (between (asked op buf ch s)) _ retry
      ∙ loop-ends retries more a (between (asked op buf ch s)) out rs h

  -- With a connection that takes every write, a name of 1 to 4095 bytes, a payload of fewer than `2
  -- ^ 32` bytes, and a socket that is open and not shut down at the start and whenever a retry
  -- result has come, whatever else the other goroutines do to it: `BufferRequest` sends the request
  -- once at the start and once more behind each retry result, each time under the next id, with its
  -- channel registered there and with the request's header and payload written, and nothing else.
  -- It ends at the first other response with that response's outcome, or where its channel is
  -- closed with the error of the close code, and if there is none with the error of a closed
  -- socket.
  pub buffer_request-ends :
      (retries more : List Answer) (r : Response) (between : Sock → Sock) (s : Sock)
      → AreRetries op buf ch retries s
      → is_retry r ≡ false
      → (buffer_request c op buf ch (retries ++ ((some r, between) ∷ more)) s
          ≡ ok (outcome_of r, asked_for op buf ch (retries ++ ((some r, between) ∷ [])) s))
        × (buffer_request c op buf ch (retries ++ ((none, between) ∷ more)) s
            ≡ ok (
              failed_with (
                  or_close_code
                    (asked_for op buf ch (retries ++ ((none, between) ∷ [])) s)
                    sock_closed),
              asked_for op buf ch (retries ++ ((none, between) ∷ [])) s,
            ))
  unfolding buffer_request
  buffer_request-ends retries more r between s rs last = (
    loop-ends retries more (some r, between) s (λ u. ok (outcome_of r, u)) rs
        (λ u again. (unfold receive in rw last)),
    loop-ends retries more (none, between) s
        (λ u. ok (failed_with (or_close_code u sock_closed), u)) rs
        (λ u again. (unfold receive in refl)),
  )
