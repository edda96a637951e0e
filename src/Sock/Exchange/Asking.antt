-- ===== src/Sock/Exchange/Asking.antt =====
-- The asking end of an exchange: the response reaches the channel of its request.
use gotalk.Sock.Exchange.Serving.{turn-read}
use gotalk.Protocol.Make.Fields.{wire}
use gotalk.Sock.Serving.{returned, failed_with_text, panicked}
use gotalk.Protocol.Reader.Exact.{IsQuiet, stream}
use gotalk.Sock.Pending.{read_response, read_response-delivers}
use gotalk.Sock.Serving.{Reply}
use mathlib.Core.Path.{subst}
use gotalk.Protocol.Reader.{Reader}
use gotalk.Protocol.Read.RoundTrip.{IsSendable, plain, retry, read_msg-make_msg, made}
use gotalk.Limits.{LimitsImpl}
use gotalk.Protocol.{
  msg_type_single_res, msg_type_error_res, msg_type_retry_res, msg_type_stream_res, Msg,
}
use gotalk.Common.Int.{pos}
use gotalk.Handlers.{FuncId, lookup}
use gotalk.Sock.{Response, is_retry, is_error, Sock, is_streaming}
use gotalk.Sock.Retry.{receive, outcome_of, Outcome}
use gotalk.Common.{
  Bool, Option, ℕ, ◌≡◌, Bytes, ◌*◌, ◌⊎◌, ◌<◌, Result, length, ◌^◌, ◌==◌, inr, some, false, inl,
  none, ok, ap, sym, ◌>>=◌, refl, ◌++◌, true, ◌≤◌, ◌∷◌, [], ◌∙◌, append_assoc, if◌then◌else◌,
  bytes_eq,
}
use gotalk.Sock.Loop.{
  Outside, after_msg, handle_msg, deadline_error, is_response, carry_on, turn, again,
}
use gotalk.Sock.Exchange.{
  ResponseParts, Run, deserved, response_msg, concluded, parts_of_reply, reply_outcome,
  response_wire,
}

-- A response to a request with one payload, whose wait fits its type
abbrev pub IsFinalOrRetry : ResponseParts → Type 0
IsFinalOrRetry (t, wait, payload) =
    ((t ≡ msg_type_single_res) × (wait ≡ 0))
    ⊎ (((t ≡ msg_type_error_res) × (wait ≡ 0)) ⊎ ((t ≡ msg_type_retry_res) × (wait < 2 ^ 32)))

abbrev pub response_of : ResponseParts → Response
response_of (t, wait, payload) = record { t = t; payload = payload; wait = pos (wait * 1_000_000) }

pub deserved-IsFinalOrRetry :
    (admitted : Bool) (found : Option FuncId) (op buf : Bytes) (w : ℕ) (run : Run)
    → w < 2 ^ 32
    → IsFinalOrRetry (deserved admitted found op buf w run)
deserved-IsFinalOrRetry false found op buf w run h = inr (inr (refl, h))
deserved-IsFinalOrRetry true none op buf w run h = inr (inl (refl, refl))
deserved-IsFinalOrRetry true (some f) op buf w run h = kind (run f op buf)
  where
    kind : (reply : Reply) → IsFinalOrRetry (parts_of_reply reply)
    kind (returned b) = inl (refl, refl)
    kind (failed_with_text m) = inr (inl (refl, refl))
    kind (panicked m) = inr (inl (refl, refl))

-- What `BufferRequest` makes of the response
pub receive-concluded :
    (admitted : Bool) (found : Option FuncId) (op buf : Bytes) (w : ℕ) (run : Run) (u : Sock)
    (more : Result (Outcome × Sock))
    → receive (some (response_of (deserved admitted found op buf w run)), u) more
      ≡ concluded admitted found op buf run u more
unfolding receive is_retry outcome_of is_error is_streaming
receive-concluded false found op buf w run u more = refl
receive-concluded true none op buf w run u more = refl
receive-concluded true (some f) op buf w run u more = ends (run f op buf)
  where
    ends :
        (reply : Reply)
        → receive (some (response_of (parts_of_reply reply)), u) more ≡ ok (reply_outcome reply, u)
    ends (returned b) = refl
    ends (failed_with_text m) = refl
    ends (panicked m) = refl

module _ (o : Outside) (n : ℕ) (id : Bytes) (d : ResponseParts) (lim : LimitsImpl) (u : Sock)
    (hid : length id ≡ 4) (fits : IsFinalOrRetry d) where
  response-IsSendable : IsSendable (response_msg id d)
  response-IsSendable = elim fits [
    | inl (e, e0) ↦ plain (inr (inl e)) hid refl e0
    | inr (inl (e, e0)) ↦ plain (inr (inr (inr e))) hid refl e0
    | inr (inr (e, h)) ↦ retry e hid refl h
  ]

  abbrev Dispatches : ℕ → Reader → Type 0
  Dispatches t r = handle_msg o n (response_msg id (t, d.1, d.2)) r lim u ≡ (
      ok (read_response t id d.1 (length d.2) r u) >>= λ x. ok (carry_on x.0, none, x.1, lim, x.2))

  handle_msg-response : (r : Reader) → Dispatches d.0 r
  unfolding handle_msg is_response
  handle_msg-response r = elim fits [
    | inl (e, _) ↦ subst (λ t. Dispatches t r) (sym e) refl
    | inr (inl (e, _)) ↦ subst (λ t. Dispatches t r) (sym e) refl
    | inr (inr (e, _)) ↦ subst (λ t. Dispatches t r) (sym e) refl
  ]

  not_streaming : (d.0 == msg_type_stream_res) ≡ false
  not_streaming = elim fits [
    | inl (e, _) ↦ ap (λ t. t == msg_type_stream_res) e
    | inr (inl (e, _)) ↦ ap (λ t. t == msg_type_stream_res) e
    | inr (inr (e, _)) ↦ ap (λ t. t == msg_type_stream_res) e
  ]

  -- A round of the asking loop takes the response, and its channel gets it.
  pub turn-delivers :
      (r : Reader) (b rest : Bytes) (ch : ℕ)
      → length d.2 < 2 ^ 32
      → deadline_error o n lim ≡ none
      → lookup id u.pending_res ≡ some ch
      → IsQuiet r
      → stream r ≡ response_wire id d ++ rest
      → 21 ≤ length b
      → (r' : Reader) × (b' : Bytes) × (u' : Sock) × (turn o n r b lim u
          ≡ ok (again none r' b' lim u'))
        × (stream r' ≡ rest)
        × (u'.delivered ≡ (ch, response_of d) ∷ u.delivered)
        × ((j : Bytes)
            → lookup j u'.pending_res ≡ (if bytes_eq id j then none else lookup j u.pending_res))
        × IsQuiet r'
        × (length b' ≡ length b)
  unfolding after_msg
  turn-delivers r b rest ch small dl found q e room =
      let m : Msg = response_msg id d in
      let (r1, b', got, left, q1, wide) =
        read_msg-make_msg m r b (wire d.0 id [] d.1 (length d.2)) (d.2 ++ rest) response-IsSendable
          small (made m response-IsSendable small) q (e ∙ append_assoc _ d.2 rest) room in
      let (r2, u', done, back, q2, delivered, gone) =
        read_response-delivers d.0 id d.2 rest d.1 ch r1 u q1 left found in
      (
        r2,
        b',
        u',
        turn-read o u n r r1 b b' lim m dl got
            ∙ ap (λ m. m >>= after_msg o b') (handle_msg-response r1)
            ∙ ap (λ x. ok (carry_on x.0, none, x.1, lim, x.2) >>= after_msg o b') done,
        back,
        delivered,
        (λ j. gone j ∙ rw not_streaming refl),
        q2,
        wide,
      )
