-- ===== src/Sock/Pending.antt =====
-- The map of pending responses: which channel a result goes to, and for how long.
use gotalk.Common.{
  ℕ, ◌*◌, ◌^◌, ◌<◌, ◌≤◌, ◌≡◌, ◌≢◌, refl, ap, ◌∙◌, arith, Bool, true, false, inl, inr, List, [], ◌∷◌,
  ◌++◌, Bytes, length, bytes_eq, bytes_eq-eq, bytes_eq_refl, ◌==◌, if◌then◌else◌, Option, none,
  some, Bool-cases, Error,
}
use gotalk.Protocol.{msg_type_stream_res}
use gotalk.Protocol.Version.{format_request_id, format_request_id-distinct}
use gotalk.Handlers.{lookup}
use gotalk.Handlers.Lookup.{lookup-insert}
use gotalk.Sock.{Sock, Response, delete, register_res_chan, forget_res_chan}
use gotalk.Common.Int.{pos}
use gotalk.Protocol.Reader.{Reader, readn}
use gotalk.Protocol.Reader.Exact.{stream, IsQuiet, readn-exact}

-- `readResponse` behind its payload, with the entry for the id: its channel gets the response.
-- The send is modelled where it does not block: the channel of a buffer request has room for the one
-- response that it gets, while that of a streaming request has none, and the send waits for whoever takes it.
unfoldable pub deliver_to : Option ℕ → ℕ → Bytes → Response → Sock → Sock
deliver_to none t id res s = s
deliver_to (some ch) t id res s = record s {
  pending_res = if t == msg_type_stream_res then s.pending_res else delete id s.pending_res;
  delivered = (ch, res) ∷ s.delivered;
}

unfoldable pub deliver : ℕ → Bytes → Response → Sock → Sock
deliver t id res s = deliver_to (lookup id s.pending_res) t id res s

-- What `readResponse` does with what it read.
unfoldable pub respond :
    ℕ → Bytes → ℕ → Bytes × Option Error × Reader → Sock → Option Error × Reader × Sock
respond t id wait (buf, some e, r) s = (some e, r, forget_res_chan id s)
respond t id wait (buf, none, r) s =
    (none, r, deliver t id (record { t = t; payload = buf; wait = pos (wait * 1_000_000) }) s)

-- To read no bytes takes no `Read`.
unfoldable pub read_response : ℕ → Bytes → ℕ → ℕ → Reader → Sock → Option Error × Reader × Sock
read_response t id wait size r s = respond t id wait (readn r size) s

bytes_ne : (a b : Bytes) → a ≢ b → bytes_eq a b ≡ false
bytes_ne a b ne = elim (Bool-cases (bytes_eq a b)) [
  | inl same ↦ absurd (ne (bytes_eq-eq a b same))
  | inr other ↦ other
]

lookup-delete :
    (k j : Bytes) (m : List (Bytes × Option ℕ))
    → lookup j (delete k m) ≡ (if bytes_eq k j then none else lookup j m)
unfolding lookup delete
lookup-delete k j [] = ground arith
lookup-delete k j ((i, w) ∷ m) = elim (Bool-cases (bytes_eq i k)) [
  | inl same ↦ rw (same, bytes_eq-eq i k same) (ground (arith, lookup-delete k j m))
  | inr other ↦ elim (Bool-cases (bytes_eq k j)) [
    | inl here ↦ rw (← bytes_eq-eq k j here) (ground (arith, lookup-delete k k m, bytes_eq_refl k))
    | inr there ↦ ground (arith, lookup-delete k j m)
  ]
]

-- The requests numbered so far, as long as the numbers have not wrapped around: an id that waits is
-- that of a smaller number.
abbrev pub IsNumbered : Sock → Type 0
IsNumbered s =
    (n : ℕ) → s.next_op_id ≤ n → n < 2 ^ 32 → lookup (format_request_id n) s.pending_res ≡ none

pub register_res_chan-IsNumbered :
    (ch : ℕ) (s : Sock)
    → s.next_op_id < 0xffff_ffff
    → IsNumbered s
    → IsNumbered (register_res_chan ch s).1
unfolding register_res_chan
register_res_chan-IsNumbered ch s lt h n le small =
    lookup-insert (format_request_id s.next_op_id) (format_request_id n) (some ch) s.pending_res
    ∙ rw
        (bytes_ne (format_request_id s.next_op_id) (format_request_id n)
          (format_request_id-distinct s.next_op_id n (omega arith) small (λ e. omega (arith, e))))
        (h n (omega arith) small)

-- While the operation numbers stay below `2 ^ 32 - 1` and no id from the next number on is pending,
-- `registerResChan` keeps that so, its id was not pending, and then this id is pending with its
-- channel and every other id as before.
pub register_res_chan-fresh :
    (ch : ℕ) (j : Bytes) (s : Sock)
    → s.next_op_id < 0xffff_ffff
    → IsNumbered s
    → IsNumbered (register_res_chan ch s).1
      × (lookup (register_res_chan ch s).0 s.pending_res ≡ none)
      × (lookup j (register_res_chan ch s).1.pending_res
          ≡ (if bytes_eq (register_res_chan ch s).0 j then some ch else lookup j s.pending_res))
register_res_chan-fresh ch j s lt h = (
  register_res_chan-IsNumbered ch s lt h,
  (unfold register_res_chan in h s.next_op_id (omega arith) (omega arith)),
  (unfold register_res_chan in
      lookup-insert (format_request_id s.next_op_id) j (some ch) s.pending_res),
)

pub deliver-some :
    (t : ℕ) (id : Bytes) (ch : ℕ) (res : Response) (s : Sock)
    → lookup id s.pending_res ≡ some ch
    → deliver t id res s ≡ deliver_to (some ch) t id res s
unfolding deliver
deliver-some t id ch res s e = ap (λ found. deliver_to found t id res s) e

pub deliver-none :
    (t : ℕ) (id : Bytes) (res : Response) (s : Sock)
    → lookup id s.pending_res ≡ none
    → deliver t id res s ≡ s
unfolding deliver deliver_to
deliver-none t id res s e = ap (λ found. deliver_to found t id res s) e

lookup-deliver_to :
    (t : ℕ) (id j : Bytes) (ch : ℕ) (res : Response) (s : Sock) (b : Bool)
    → lookup j (if b then s.pending_res else delete id s.pending_res) ≡ (
        if b
        then lookup j s.pending_res
        else if bytes_eq id j
        then none
        else lookup j s.pending_res)
lookup-deliver_to t id j ch res s true = refl
lookup-deliver_to t id j ch res s false = lookup-delete id j s.pending_res

-- A response for a pending id, and what it leaves pending.
pub read_response-delivers :
    (t : ℕ) (id payload rest : Bytes) (wait ch : ℕ) (r : Reader) (s : Sock)
    → IsQuiet r
    → stream r ≡ payload ++ rest
    → lookup id s.pending_res ≡ some ch
    → (r' : Reader) × (s' : Sock) × (read_response t id wait (length payload) r s ≡ (none, r', s'))
      × (stream r' ≡ rest)
      × IsQuiet r'
      × (s'.delivered
          ≡ (ch, record { t = t; payload = payload; wait = pos (wait * 1_000_000) }) ∷ s.delivered)
      × ((j : Bytes)
          → lookup j s'.pending_res ≡ (
              if t == msg_type_stream_res
              then lookup j s.pending_res
              else if bytes_eq id j
              then none
              else lookup j s.pending_res))
unfolding read_response respond
read_response-delivers t id payload rest wait ch r s q e found =
    let (r', got, back, q') = readn-exact r (length payload) payload rest q e refl in
    let res : Response = record { t = t; payload = payload; wait = pos (wait * 1_000_000) } in
    (
      r',
      deliver_to (some ch) t id res s,
      ap (λ g. respond t id wait g s) got
          ∙ ap (λ u. (none, r', u)) (deliver-some t id ch res s found),
      back,
      q',
      (unfold deliver_to in refl),
      λ j. (unfold deliver_to in lookup-deliver_to t id j ch res s (t == msg_type_stream_res)),
    )

-- For an id with a pending channel, on a stream with no read failure that starts with the payload,
-- `readResponse` takes exactly the payload, sends one response with it to that channel, and then
-- the id is pending only if the type is a stream result, while every other id is pending as before.
pub read_response-found :
    (t : ℕ) (id j payload rest : Bytes) (wait ch : ℕ) (r : Reader) (s : Sock)
    → IsQuiet r
    → stream r ≡ payload ++ rest
    → lookup id s.pending_res ≡ some ch
    → (r' : Reader) × (s' : Sock) × (read_response t id wait (length payload) r s ≡ (none, r', s'))
      × (stream r' ≡ rest)
      × (s'.delivered
          ≡ (ch, record { t = t; payload = payload; wait = pos (wait * 1_000_000) }) ∷ s.delivered)
      × (lookup j s'.pending_res ≡ (
          if t == msg_type_stream_res
          then lookup j s.pending_res
          else if bytes_eq id j
          then none
          else lookup j s.pending_res))
read_response-found t id j payload rest wait ch r s q e found =
    let (r', s', done, back, _, delivered, left) =
      read_response-delivers t id payload rest wait ch r s q e found in
    (r', s', done, back, delivered, left j)

-- For an id with no pending channel, on a stream with no read failure that starts with the payload,
-- `readResponse` takes exactly the payload, without an error, and leaves the socket as it was.
pub read_response-unknown :
    (t : ℕ) (id payload rest : Bytes) (wait : ℕ) (r : Reader) (s : Sock)
    → IsQuiet r
    → stream r ≡ payload ++ rest
    → lookup id s.pending_res ≡ none
    → (r' : Reader) × (read_response t id wait (length payload) r s ≡ (none, r', s))
      × (stream r' ≡ rest)
unfolding read_response respond
read_response-unknown t id payload rest wait r s q e found =
    let (r', got, back, q') = readn-exact r (length payload) payload rest q e refl in
    (
      r',
      ap (λ g. respond t id wait g s) got ∙ ap (λ u. (none, r', u)) (deliver-none t id _ s found),
      back,
    )
