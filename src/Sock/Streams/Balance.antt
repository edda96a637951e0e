-- ===== src/Sock/Streams/Balance.antt =====
-- Every path of `readStreamReq` keeps or gives back what it took of the limit.
use mathlib.Core.Path.{subst}
use gotalk.Protocol.Read.RoundTrip.{retry, plain}
use gotalk.Protocol.Reader.Exact.{stream, IsQuiet, readn-exact}
use gotalk.Protocol.Make.Fields.{wire}
use gotalk.Protocol.{msg_type_retry_res, msg_type_error_res}
use gotalk.Sock.Wire.{IsWritable, pushed}
use gotalk.Limits.Counter.{IsSound, dec_stream_req-inc, inc_stream_req-refused}
use gotalk.Protocol.Reader.{Reader}
use gotalk.Sock.Streams.{
  StreamJob, not_supported_text, read_stream_req, refuse_stream, with_stream_handler,
  if_stream_admitted, start_stream, alloc_req_chan, alloc_found, send_part,
}
use gotalk.Sock.Serving.{Turn, rate_limit_text, unknown_text, respond_error, respond_retry}
use gotalk.Handlers.{FuncId, lookup, insert}
use gotalk.Sock.{Conn, Sock}
use gotalk.Limits.{inc_stream_req, dec_stream_req, LimitsImpl, wait_stream_req, stream_req_enabled}
use gotalk.Common.{
  Bool, Option, Result, ℕ, Bytes, none, some, ◌≡◌, false, ok, true, arith, length, [], ◌<◌, ◌+◌,
  ◌++◌, ◌∷◌, ◌^◌, Bool-cases, inl, inr, ap, length-append, refl, sym, ◌∙◌, ◌>>=◌,
}
use gotalk.Sock.Serving.Balance.{discard-then-write}

-- The limits behind a turn, once the goroutine that it started has ended.
abbrev pub stream_settled : Option StreamJob → LimitsImpl → LimitsImpl
stream_settled none lim = lim
stream_settled (some job) lim = dec_stream_req lim

-- The error or retry result that a request gets which is not served
abbrev refusing : ℕ → Bytes → ℕ → Bytes → Sock → Option StreamJob × Sock
refusing t id w text s =
    (none, record s { writes = pushed (wire t id [] w (length text)) text s.writes })

-- The goroutine and the socket behind the turn: `admitted` says whether the limit lets the request in,
-- and `enabled` whether there are streaming requests at all.
abbrev pub stream_turn :
    Bool → Bool → Option FuncId → Bytes → Bytes → Bytes → ℕ → Sock → Option StreamJob × Sock
stream_turn false true found id op payload w s = refusing msg_type_retry_res id w rate_limit_text s
stream_turn false false found id op payload w s =
    refusing msg_type_error_res id 0 not_supported_text s
stream_turn true enabled none id op payload w s =
    refusing msg_type_error_res id 0 (unknown_text op) s
stream_turn true enabled (some f) id op payload w s = (
  some (record { handler = f; id = id; op = op; channel = s.next_chan }),
  record s {
    next_chan = s.next_chan + 1;
    pending_req = insert id (some s.next_chan) s.pending_req;
    parts = (s.next_chan, some payload) ∷ s.parts;
  },
)

-- A turn that ends without an error, with this goroutine and socket, the limits as they were once its
-- goroutine has ended, and the payload read.
abbrev pub StreamSettles :
    Result (Turn StreamJob) → Option StreamJob × Sock → LimitsImpl → Bytes → Type 0
StreamSettles turn (job, s') lim rest =
    (lim' : LimitsImpl) × (r' : Reader) × ((turn ≡ ok (none, lim', job, r', s'))
      × ((stream_settled job lim' ≡ lim) × (stream r' ≡ rest)))

module _ (c : Conn) (draw : ℕ → ℕ) (find : Bytes → Option FuncId) (id op payload rest : Bytes)
    (r : Reader) (s : Sock) (writable : IsWritable c) (open_ : s.is_open ≡ true)
    (hid : length id ≡ 4) (short : length op < 65536) (fresh : lookup id s.pending_req ≡ none)
    (q : IsQuiet r) (e : stream r ≡ payload ++ rest) where
  refuse_stream-Settles :
      (enabled : Bool) (w : ℕ) (lim : LimitsImpl)
      → wait_stream_req draw lim ≡ ok w
      → w < 2 ^ 32
      → StreamSettles
          (refuse_stream c draw enabled id (length payload) lim r s)
          (stream_turn false enabled (find op) id op payload w s)
          lim
          rest
  unfolding refuse_stream respond_retry respond_error
  refuse_stream-Settles true w lim hw small =
      let (r', done, back) =
        discard-then-write c msg_type_retry_res id w rate_limit_text payload rest r s writable open_
          (retry refl hid refl small) (omega arith) q e in
      (lim, r', (rw (hw, done) refl, (refl, back)))
  refuse_stream-Settles false w lim hw small =
      let (r', done, back) =
        discard-then-write c msg_type_error_res id 0 not_supported_text payload rest r s writable
          open_ (plain (inr (inr (inr refl))) hid refl refl) (omega arith) q e in
      (lim, r', (rw done refl, (refl, back)))

  with_stream_handler-Settles :
      (enabled : Bool) (w : ℕ) (found : Option FuncId) (lim lim' : LimitsImpl)
      → dec_stream_req lim' ≡ lim
      → StreamSettles
          (with_stream_handler c found id op (length payload) lim' r s)
          (stream_turn true enabled found id op payload w s)
          lim
          rest
  unfolding with_stream_handler respond_error start_stream alloc_req_chan alloc_found send_part
  with_stream_handler-Settles enabled w none lim lim' balanced =
      let (r', done, back) =
        discard-then-write c msg_type_error_res id 0 (unknown_text op) payload rest r s writable
          open_ (plain (inr (inr (inr refl))) hid refl refl)
          (omega (arith, length-append op (34 ∷ []))) q e in
      (dec_stream_req lim', r', (rw done refl, (balanced, back)))
  with_stream_handler-Settles enabled w (some f) lim lim' balanced =
      let (r', got, back, _) = readn-exact r (length payload) payload rest q e refl in
      (
        lim',
        r',
        (
          ap (λ g. start_stream f id op lim' g s) got
              ∙ ap
                  (λ found. alloc_found found id s >>= λ x. ok (
                    none,
                    lim',
                    some (record { handler = f; id = id; op = op; channel = x.0 }),
                    r',
                    send_part x.0 (some payload) x.1,
                  ))
                  fresh,
          (balanced, back),
        ),
      )

  -- On an open connection that takes every write, for a streaming request with a 4-byte id that no
  -- request has yet and a name below 65536 bytes, whose first part comes first in a stream with no
  -- read failure, with counters within their limits and a wait of 32 bits, `readStreamReq` ends
  -- without an error and has read exactly that part. Where the limit lets the request in and a
  -- handler is found, it starts a goroutine, registers a new channel under the id and sends the
  -- part to it; otherwise it writes one response and changes nothing else of the socket: a retry
  -- result where streaming requests are allowed but the limit is reached, an error where they are
  -- not allowed, and an error where there is no handler. The limits are those from before, at once
  -- or, where it starts a goroutine, once this has given its place back.
  pub read_stream_req-Settles :
      (lim : LimitsImpl) (w : ℕ)
      → IsSound lim
      → wait_stream_req draw lim ≡ ok w
      → w < 2 ^ 32
      → StreamSettles
          (read_stream_req c draw find lim id op (length payload) r s)
          (stream_turn (inc_stream_req lim).1 (stream_req_enabled lim) (find op) id op payload w s)
          lim
          rest
  unfolding read_stream_req if_stream_admitted
  read_stream_req-Settles lim w sound hw small =
      let Goal : LimitsImpl × Bool → Type 0 = λ p.
        StreamSettles (if_stream_admitted c draw find id op (length payload) p r s)
          (stream_turn p.1 (stream_req_enabled lim) (find op) id op payload w s) lim rest in
      let taken = (inc_stream_req lim).0 in
      elim (Bool-cases (inc_stream_req lim).1) [
        | inl admitted ↦
            let pair : inc_stream_req lim ≡ (taken, true) = ap (λ b. (taken, b)) admitted in
            subst Goal (sym pair) (
              with_stream_handler-Settles (stream_req_enabled lim) w (find op) lim taken
                (dec_stream_req-inc lim sound admitted))
        | inr full ↦
            let pair : inc_stream_req lim ≡ (lim, false) =
              ap (λ b. (taken, b)) full
              ∙ ap (λ l. (l, false)) (inc_stream_req-refused lim sound full) in
            subst Goal (sym pair) (refuse_stream-Settles (stream_req_enabled lim) w lim hw small)
      ]
