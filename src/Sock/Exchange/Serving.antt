-- ===== src/Sock/Exchange/Serving.antt =====
-- The serving end of an exchange.
use gotalk.Protocol.Make.Fields.{wire}
use gotalk.Protocol.Reader.Exact.{IsQuiet, stream}
use gotalk.Sock.Close.{close}
use gotalk.Limits.Counter.{IsSound}
use gotalk.Protocol.Read.{read_msg}
use gotalk.Protocol.Reader.{Reader}
use gotalk.Sock.Serving.Balance.{settled, job_for, turn_writes, read_buffer_req-Settles}
use gotalk.Protocol.Read.RoundTrip.{plain, IsSendable, request, read_msg-make_msg, made}
use gotalk.Protocol.{
  msg_type_single_res, msg_type_error_res, msg_type_stream_req_part, msg_type_stream_res, Msg,
  msg_type_single_req,
}
use gotalk.Limits.{LimitsImpl, dec_buffer_req, wait_buffer_req, inc_buffer_req}
use gotalk.Sock.Serving.{Reply, failed_with_text, panicked}
use gotalk.Handlers.{FuncId}
use gotalk.Sock.Serving.{finish_job, Job, write_reply, respond_ok, close_on_error, returned}
use gotalk.Sock.Wire.{IsWritable, write_msg-pushed, msg_of}
use gotalk.Sock.{Sock, write_msg}
use gotalk.Common.{
  Bytes, ℕ, ◌≡◌, true, length, ◌<◌, ◌^◌, ok, [], inr, inl, refl, ap, none, ◌⊎◌, ◌>>=◌, ◌∙◌, false,
  Bool, Option, if◌then◌else◌, some, ◌++◌, ◌≤◌, append_assoc, arith, ap₂, sym,
}
use gotalk.Sock.Exchange.{Run, parts_of_reply, answered_sock, finish_started, deserved}
use gotalk.Sock.Loop.{
  Outside, handle_msg, turn, after_msg, serve_msg, deadline_error, return_now, again, with_task,
  buffer_task, carry_on,
}

-- A round that no deadline ends
pub turn-read :
    (o : Outside) (s : Sock) (n : ℕ) (r r1 : Reader) (b b' : Bytes) (lim : LimitsImpl) (m : Msg)
    → deadline_error o n lim ≡ none
    → read_msg r b ≡ ok (m, r1, b')
    → turn o n r b lim s ≡ (handle_msg o n m r1 lim s >>= after_msg o b')
unfolding turn serve_msg
turn-read o s n r r1 b b' lim m dl got =
    ap
      (λ d. elim d [
        | some e ↦ (close o.conn o.text o.has_room s >>= λ x. ok (return_now e lim x.1))
        | none ↦ serve_msg o n lim s (read_msg r b)
      ])
      dl
    ∙ ap (serve_msg o n lim s) got

module _ (o : Outside) (run : Run) (id op buf : Bytes) (w : ℕ) (s : Sock)
    (writable : IsWritable o.conn) (open_ : s.is_open ≡ true) (hid : length id ≡ 4) where
  job_of : FuncId → Job
  job_of f = record { handler = f; id = id; op = op; inbuf = buf }

  sends :
      (t : ℕ) (b : Bytes)
      → (t ≡ msg_type_single_res) ⊎ (t ≡ msg_type_error_res)
      → length b < 2 ^ 32
      → write_msg o.conn t id [] 0 b s ≡ ok (none, answered_sock id (t, 0, b) s)
  sends t b ht small =
      write_msg-pushed o.conn t id [] 0 b s writable open_ (plain (kind ht) hid refl refl) small
    where
      kind :
          (t ≡ msg_type_single_res) ⊎ (t ≡ msg_type_error_res)
          → (t ≡ msg_type_stream_req_part)
            ⊎ (t ≡ msg_type_single_res)
            ⊎ (t ≡ msg_type_stream_res)
            ⊎ (t ≡ msg_type_error_res)
      kind (inl e) = inr (inl e)
      kind (inr e) = inr (inr (inr e))

  write_reply-sends :
      (reply : Reply)
      → length (parts_of_reply reply).2 < 2 ^ 32
      → write_reply o.conn id reply s ≡ ok (none, answered_sock id (parts_of_reply reply) s)
  unfolding write_reply respond_ok
  write_reply-sends (returned b) small = sends msg_type_single_res b (inl refl) small
  write_reply-sends (failed_with_text m) small = sends msg_type_error_res m (inr refl) small
  write_reply-sends (panicked m) small =
      ap
        (λ b. elim b [
          | true ↦ write_msg o.conn msg_type_error_res id [] 0 m s
          | false ↦ ok (none, s)
        ])
        open_
      ∙ sends msg_type_error_res m (inr refl) small

  finish_job-sends :
      (f : FuncId) (reply : Reply) (lim : LimitsImpl)
      → length (parts_of_reply reply).2 < 2 ^ 32
      → finish_job o.conn o.text o.has_room (job_of f) reply lim s
        ≡ ok (dec_buffer_req lim, answered_sock id (parts_of_reply reply) s)
  unfolding finish_job close_on_error job_of
  finish_job-sends f reply lim small =
      ap
        (λ m. m >>= (λ got.
          close_on_error o.conn o.text o.has_room got >>= (λ s'. ok (dec_buffer_req lim, s'))))
        (write_reply-sends reply small)

  -- The goroutine of the turn, or what the turn wrote itself, is the response that is deserved.
  finish_started-answers :
      (admitted : Bool) (found : Option FuncId) (lim lim' : LimitsImpl)
      → length (deserved admitted found op buf w run).2 < 2 ^ 32
      → settled (if admitted then job_for id op buf found else none) lim' ≡ lim
      → finish_started o run
          (if admitted then job_for id op buf found else none)
          lim'
          (record s { writes = turn_writes found id op w admitted s.writes })
        ≡ ok (lim, answered_sock id (deserved admitted found op buf w run) s)
  unfolding finish_started settled job_for job_of
  finish_started-answers false found lim lim' small balanced =
      ap (λ l. ok (l, answered_sock id (deserved false found op buf w run) s)) balanced
  finish_started-answers true none lim lim' small balanced =
      ap (λ l. ok (l, answered_sock id (deserved true none op buf w run) s)) balanced
  finish_started-answers true (some f) lim lim' small balanced =
      finish_job-sends f (run f op buf) lim' small
      ∙ ap (λ l. ok (l, answered_sock id (parts_of_reply (run f op buf)) s)) balanced

  pub turn-Serves :
      (n : ℕ) (r : Reader) (b rest : Bytes) (lim : LimitsImpl)
      → 0 < length op
      → length op < 4096
      → length buf < 2 ^ 32
      → deadline_error o n lim ≡ none
      → IsSound lim
      → wait_buffer_req (o.draw n) lim ≡ ok w
      → w < 2 ^ 32
      → length (deserved (inc_buffer_req lim).1 (o.find_buffer op) op buf w run).2 < 2 ^ 32
      → IsQuiet r
      → stream r ≡ (wire msg_type_single_req id op 0 (length buf) ++ buf) ++ rest
      → 21 ≤ length b
      → (job : Option Job) × (r' : Reader) × (b' : Bytes) × (lim' : LimitsImpl) × (s1 : Sock)
        × (turn o n r b lim s ≡ ok (again (with_task buffer_task job) r' b' lim' s1))
        × (stream r' ≡ rest)
        × (finish_started o run job lim' s1
            ≡ ok (
              lim,
              answered_sock id (deserved (inc_buffer_req lim).1 (o.find_buffer op) op buf w run) s,
            ))
  unfolding handle_msg after_msg
  turn-Serves n r b rest lim some_name short small dl sound hw hw2 little q e room =
      let m : Msg = msg_of msg_type_single_req id op 0 buf in
      let sendable : IsSendable m = request (inl refl) hid some_name short refl in
      let (r1, b', got, left, q1, _) =
        read_msg-make_msg m r b (wire msg_type_single_req id op 0 (length buf)) (buf ++ rest)
          sendable small (made m sendable small) q (e ∙ append_assoc _ buf rest) room in
      let (lim', job, r2, s1, done, balanced, back, which, same) =
        read_buffer_req-Settles o.conn (o.draw n) o.find_buffer id op buf rest r1 s writable open_
          hid (omega arith) q1 left lim w sound hw hw2 in
      let admitted : Bool = (inc_buffer_req lim).1 in
      let found : Option FuncId = o.find_buffer op in
      (
        job,
        r2,
        b',
        lim',
        s1,
        turn-read o s n r r1 b b' lim m dl got
            ∙ ap
                (λ m.
                  m
                  >>= (λ x. ok (carry_on x.0, with_task buffer_task x.2, x.3, x.1, x.4))
                  >>= after_msg o b')
                done,
        back,
        ap₂ (λ j u. finish_started o run j lim' u) which same
            ∙ finish_started-answers admitted found lim lim' little
                (ap (λ j. settled j lim') (sym which) ∙ balanced),
      )
