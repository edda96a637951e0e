-- ===== src/Sock/Serving/Balance.antt =====
-- Every path of `readBufferReq` keeps or gives back what it took of the limit.
use gotalk.Protocol.Make.Fields.{wire}
use gotalk.Common.{
  ℕ, ◌^◌, ◌<◌, ◌≡◌, refl, sym, ap, ◌∙◌, arith, Bool, true, false, inl, inr, [], ◌∷◌, ◌++◌, Bytes,
  length, length-append, Option, none, some, Result, ok, ◌>>=◌, if◌then◌else◌, Bool-cases, List,
}
use mathlib.Core.Path.{subst}
use gotalk.Protocol.{msg_type_error_res, msg_type_retry_res}
use gotalk.Protocol.Reader.{Reader, readn}
use gotalk.Protocol.Reader.Exact.{stream, IsQuiet, readn-exact}
use gotalk.Protocol.Read.RoundTrip.{IsSendable, plain, retry}
use gotalk.Limits.{LimitsImpl, inc_buffer_req, dec_buffer_req, wait_buffer_req}
use gotalk.Limits.Counter.{IsSound, dec_buffer_req-inc, inc_buffer_req-refused}
use gotalk.Handlers.{FuncId}
use gotalk.Sock.{Conn, Sock}
use gotalk.Sock.Wire.{IsWritable, write_msg-pushed, msg_of, pushed}
use gotalk.Sock.Serving.{
  Job, Turn, discard_and_write, respond_error, respond_retry, rate_limit_text, unknown_text,
  read_payload, with_handler, if_admitted, read_buffer_req,
}

-- The limits behind a turn, once the goroutine that it started has ended.
unfoldable pub settled : Option Job → LimitsImpl → LimitsImpl
settled none lim = lim
settled (some job) lim = dec_buffer_req lim

unfoldable pub job_for : Bytes → Bytes → Bytes → Option FuncId → Option Job
job_for id op payload none = none
job_for id op payload (some f) = some (record { handler = f; id = id; op = op; inbuf = payload })

-- The error or retry result is written once the payload is out of the way.
pub discard-then-write :
    (c : Conn) (t : ℕ) (id : Bytes) (wait : ℕ) (msg payload rest : Bytes) (r : Reader) (s : Sock)
    → IsWritable c
    → s.is_open ≡ true
    → IsSendable (msg_of t id [] wait msg)
    → length msg < 2 ^ 32
    → IsQuiet r
    → stream r ≡ payload ++ rest
    → (r' : Reader) × (discard_and_write c t id wait msg (readn r (length payload)) s
        ≡ ok (none, r', record s { writes = pushed (wire t id [] wait (length msg)) msg s.writes }))
      × (stream r' ≡ rest)
unfolding discard_and_write
discard-then-write c t id wait msg payload rest r s h open_ sendable small q e =
    let (r', got, back, _) = readn-exact r (length payload) payload rest q e refl in
    (
      r',
      ap (λ g. discard_and_write c t id wait msg g s) got
          ∙ ap (λ m. m >>= (λ w. ok (w.0, r', w.1)))
              (write_msg-pushed c t id [] wait msg s h open_ sendable small),
      back,
    )

-- What the socket has written by the end of the turn, for a request with this wait.
abbrev pub turn_writes : Option FuncId → Bytes → Bytes → ℕ → Bool → List Bytes → List Bytes
turn_writes found id op w false writes =
    pushed (wire msg_type_retry_res id [] w (length rate_limit_text)) rate_limit_text writes
turn_writes none id op w true writes =
    pushed (wire msg_type_error_res id [] 0 (length (unknown_text op))) (unknown_text op) writes
turn_writes (some f) id op w true writes = writes

-- A turn that ends without an error, with the limits as they were once its goroutine has ended, the
-- payload read, and a goroutine just for an admitted request with a handler; all that it does to the
-- socket is that it answers the other requests.
abbrev pub Settles :
    Option FuncId
    → Bytes
    → Bytes
    → Bytes
    → Bytes
    → Result (Turn Job)
    → Bool
    → LimitsImpl
    → ℕ
    → Sock
    → Type 0
Settles found id op payload rest turn admitted lim w s =
    (lim' : LimitsImpl) × (job : Option Job) × (r' : Reader) × (s' : Sock) × (turn
      ≡ ok (none, lim', job, r', s'))
    × (settled job lim' ≡ lim)
    × (stream r' ≡ rest)
    × (job ≡ (if admitted then job_for id op payload found else none))
    × (s' ≡ record s { writes = turn_writes found id op w admitted s.writes })

module _ (c : Conn) (draw : ℕ → ℕ) (find : Bytes → Option FuncId) (id op payload rest : Bytes)
    (r : Reader) (s : Sock) (writable : IsWritable c) (open_ : s.is_open ≡ true)
    (hid : length id ≡ 4) (short : length op < 65536) (q : IsQuiet r)
    (e : stream r ≡ payload ++ rest) where
  refused :
      (w : ℕ) (lim : LimitsImpl)
      → wait_buffer_req draw lim ≡ ok w
      → w < 2 ^ 32
      → Settles
          (find op)
          id
          op
          payload
          rest
          (if_admitted c draw find id op (length payload) (lim, false) r s)
          false
          lim
          w
          s
  unfolding if_admitted respond_retry
  refused w lim hw small =
      let (r', done, back) =
        discard-then-write c msg_type_retry_res id w rate_limit_text payload rest r s writable open_
          (retry refl hid refl small) (omega arith) q e in
      (lim, none, r', _, rw (hw, done) refl, (unfold settled in refl), back, refl, refl)

  handled :
      (w : ℕ) (found : Option FuncId) (lim lim' : LimitsImpl)
      → find op ≡ found
      → dec_buffer_req lim' ≡ lim
      → Settles
          (find op)
          id
          op
          payload
          rest
          (with_handler c found id op (length payload) lim' r s)
          true
          lim
          w
          s
  unfolding with_handler respond_error
  handled w none lim lim' hf balanced =
      let (r', done, back) =
        discard-then-write c msg_type_error_res id 0 (unknown_text op) payload rest r s writable
          open_ (plain (inr (inr (inr refl))) hid refl refl)
          (omega (arith, length-append op (34 ∷ []))) q e in
      (
        dec_buffer_req lim',
        none,
        r',
        _,
        rw done refl,
        (unfold settled in balanced),
        back,
        (unfold job_for in sym (ap (job_for id op payload) hf)),
        ap (λ g. record s { writes = turn_writes g id op w true s.writes }) (sym hf),
      )
  handled w (some f) lim lim' hf balanced =
      let (r', got, back, _) = readn-exact r (length payload) payload rest q e refl in
      (
        lim',
        some (record { handler = f; id = id; op = op; inbuf = payload }),
        r',
        s,
        ap (λ g. ok (read_payload f id op lim' g s)) got ∙ (unfold read_payload in refl),
        (unfold settled in balanced),
        back,
        (unfold job_for in sym (ap (job_for id op payload) hf)),
        ap (λ g. record s { writes = turn_writes g id op w true s.writes }) (sym hf),
      )

  -- On an open connection that takes every write, for a request with a 4-byte id and a name below
  -- 65536 bytes whose payload comes first in a stream with no read failure, with counters within
  -- their limits and a wait of 32 bits, `readBufferReq` ends without an error and has read exactly
  -- the payload; it starts a goroutine, with the payload, just where the limit lets the request in
  -- and a handler is found; and the limits are those from before, at once or, where it starts a
  -- goroutine, once this has given its place back; and all that it does to the socket is to write
  -- the error or the retry result of a request that is not served.
  pub read_buffer_req-Settles :
      (lim : LimitsImpl) (w : ℕ)
      → IsSound lim
      → wait_buffer_req draw lim ≡ ok w
      → w < 2 ^ 32
      → Settles
          (find op)
          id
          op
          payload
          rest
          (read_buffer_req c draw find lim id op (length payload) r s)
          (inc_buffer_req lim).1
          lim
          w
          s
  unfolding read_buffer_req if_admitted
  read_buffer_req-Settles lim w sound hw small =
      let Goal : LimitsImpl × Bool → Type 0 = λ p.
        Settles (find op) id op payload rest (if_admitted c draw find id op (length payload) p r s)
          p.1 lim w s in
      let taken = (inc_buffer_req lim).0 in
      elim (Bool-cases (inc_buffer_req lim).1) [
        | inl admitted ↦
            let pair : inc_buffer_req lim ≡ (taken, true) = ap (λ b. (taken, b)) admitted in
            subst Goal (sym pair)
              (handled w (find op) lim taken refl (dec_buffer_req-inc lim sound admitted))
        | inr full ↦
            let pair : inc_buffer_req lim ≡ (lim, false) =
              ap (λ b. (taken, b)) full
              ∙ ap (λ l. (l, false)) (inc_buffer_req-refused lim sound full) in
            subst Goal (sym pair) (refused w lim hw small)
      ]
