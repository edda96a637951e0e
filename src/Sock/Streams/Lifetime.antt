-- ===== src/Sock/Streams/Lifetime.antt =====
-- A streaming request's handler, from its first result to the end of its goroutine.
use gotalk.Sock.Streams.Results.{
  Follows, IsShortText, serve_stream, write_results, end_msgs, error_msgs, result_msgs, Follows-nil,
  forgotten, Follows-append, result_msgs-AreSendable,
}
use gotalk.Protocol.Reader.Exact.{IsQuiet, stream}
use gotalk.Protocol.Reader.{Reader}
use gotalk.Sock.Sending.Parts.{AreSmall}
use gotalk.Sock.Serving.{close_on_error}
use gotalk.Protocol.Make.Fields.{wire}
use gotalk.Protocol.Read.RoundTrip.{plain}
use gotalk.Sock.Wire.Heard.{on_wire, Heard, on_wire-Heard}
use gotalk.Limits.{LimitsImpl, dec_stream_req}
use gotalk.Sock.Streams.{StreamJob, dealloc_req_chan}
use gotalk.Sock.Wire.{IsWritable, msg_of, written, write_msg-pushed, written-pushed}
use gotalk.Sock.Streams.Writer.{
  StreamWriter, write_stream, finish_stream, answer_error, close_stream, close_unless,
}
use gotalk.Protocol.{msg_type_error_res, msg_type_stream_res}
use gotalk.Sock.{Conn, Sock, write_msg}
use gotalk.Common.{
  Bytes, List, Option, Bool, Error, some, Result, [], length, ℕ, ◌++◌, ok, ◌<◌, ◌∷◌, none, ◌>>=◌,
  ◌^◌, ◌≡◌, false, if◌then◌else◌, true, ◌==◌, ◌⊎◌, inr, ◌∙◌, ap, sym, append-nil, refl, inl, arith,
  ◌≤◌,
}

module _ (c : Conn) (text : Error → Bytes) (has_room : ℕ → Bool) (writable : IsWritable c)
    (id : Bytes) (hid : length id ≡ 4) where
  sends :
      (t : ℕ) (b : Bytes) (s : Sock)
      → (t ≡ msg_type_stream_res) ⊎ (t ≡ msg_type_error_res)
      → s.is_open ≡ true
      → length b < 2 ^ 32
      → (s' : Sock) × (write_msg c t id [] 0 b s ≡ ok (none, s'))
        × Follows ((msg_of t id [] 0 b, b) ∷ []) s.pending_req s s'
  unfolding on_wire
  sends t b s ht open_ small = (
    _,
    write_msg-pushed c t id [] 0 b s writable open_ (plain (inr (inr ht)) hid refl refl) small,
    (
      written-pushed (wire t id [] 0 (length b)) b s.writes
          ∙ ap (λ (v : Bytes). written s.writes ++ v)
              (sym (append-nil (wire t id [] 0 (length b) ++ b))),
      refl,
      open_,
    ),
  )

  answers :
      (failure : Option Bytes) (s : Sock)
      → s.is_open ≡ true
      → IsShortText failure
      → (s' : Sock) × (answer_error c text has_room id failure s ≡ ok s')
        × Follows (error_msgs id failure) (forgotten id failure s.pending_req) s s'
  unfolding answer_error
  answers none s open_ small = (s, refl, Follows-nil s open_)
  answers (some m) s open_ small =
      let (s', got, follows) =
        sends msg_type_error_res m (dealloc_req_chan id s) (inr refl)
          (unfold dealloc_req_chan in open_) small in
      (
        s',
        ap (λ r. r >>= close_on_error c text has_room) got ∙ (unfold close_on_error in refl),
        (unfold dealloc_req_chan in follows),
      )

  closes :
      (over : Bool) (s : Sock)
      → s.is_open ≡ true
      → (s' : Sock) × (close_stream c (record { id = id; wrote_eos = over }, s)
          ≡ ok (none, record { id = id; wrote_eos = true }, s'))
        × Follows (end_msgs id over) s.pending_req s s'
  unfolding close_stream close_unless
  closes true s open_ = (s, refl, Follows-nil s open_)
  closes false s open_ =
      let (s', got, follows) = sends msg_type_stream_res [] s (inl refl) open_ (omega arith) in
      (s', ap (λ r. r >>= (λ x. ok (x.0, record { id = id; wrote_eos = true }, x.1))) got, follows)

  -- From the handler's next result to the end of its goroutine.
  unfoldable pub run_on :
      Bool → List Bytes → Option Bytes → LimitsImpl → StreamJob → Sock → Result (LimitsImpl × Sock)
  run_on over bs failure lim job s =
      write_results c bs (record { id = id; wrote_eos = over }, s) >>= λ x.
      finish_stream c text has_room job failure x.0 lim x.1

  finishes :
      (over : Bool) (failure : Option Bytes) (lim : LimitsImpl) (job : StreamJob) (s : Sock)
      → job.id ≡ id
      → s.is_open ≡ true
      → IsShortText failure
      → (s' : Sock) × (finish_stream c text has_room job failure
            (record { id = id; wrote_eos = over })
            lim
            s
          ≡ ok (dec_stream_req lim, s'))
        × Follows
            (error_msgs id failure ++ end_msgs id over)
            (forgotten id failure s.pending_req)
            s
            s'
  unfolding finish_stream
  finishes over failure lim job s same open_ small =
      let (s1, got1, follows1) = answers failure s open_ small in
      let (s2, got2, follows2) = closes over s1 follows1.2 in
      let w : StreamWriter = record { id = id; wrote_eos = over } in
      let at_id : answer_error c text has_room job.id failure s ≡ ok s1 =
        ap (λ i. answer_error c text has_room i failure s) same ∙ got1 in
      let (ws, ps, os) =
        Follows-append (error_msgs id failure) (end_msgs id over)
          (forgotten id failure s.pending_req) s1.pending_req s s1 s2 follows1 follows2 in
      (s2, (rw at_id (rw got2 (unfold close_on_error in refl))), (ws, ps ∙ follows1.1, os))

  abbrev pub writer : Bool → StreamWriter
  writer over = record { id = id; wrote_eos = over }

  writer-if :
      (e over : Bool) → (if e then writer true else writer over) ≡ writer (if e then true else over)
  writer-if true over = refl
  writer-if false over = refl

  writes-one :
      (over : Bool) (b : Bytes) (s : Sock)
      → s.is_open ≡ true
      → length b < 2 ^ 32
      → (s' : Sock) × (write_stream c b (record { id = id; wrote_eos = over }, s)
          ≡ ok (none, writer (if length b == 0 then true else over), s'))
        × Follows ((msg_of msg_type_stream_res id [] 0 b, b) ∷ []) s.pending_req s s'
  unfolding write_stream
  writes-one over b s open_ small =
      let (s', got, follows) = sends msg_type_stream_res b s (inl refl) open_ small in
      (
        s',
        ap (λ r. r >>= (λ x. ok (x.0, (if length b == 0 then writer true else writer over), x.1)))
              got
            ∙ ap (λ (w : StreamWriter). ok (none, w, s')) (writer-if (length b == 0) over),
        follows,
      )

  pub serves :
      (bs : List Bytes) (over : Bool) (failure : Option Bytes) (lim : LimitsImpl) (job : StreamJob)
      (s : Sock)
      → job.id ≡ id
      → s.is_open ≡ true
      → AreSmall bs
      → IsShortText failure
      → (s' : Sock) × (run_on over bs failure lim job s ≡ ok (dec_stream_req lim, s'))
        × Follows (result_msgs id over failure bs) (forgotten id failure s.pending_req) s s'
  unfolding run_on write_results
  serves [] over failure lim job s same open_ small short =
      finishes over failure lim job s same open_ short
  serves (b ∷ bs) over failure lim job s same open_ (small, smalls) short =
      let over' : Bool = if length b == 0 then true else over in
      let (s1, got1, follows1) = writes-one over b s open_ small in
      let (s2, got2, follows2) = serves bs over' failure lim job s1 same follows1.2 smalls short in
      let (ws, ps, os) =
        Follows-append ((msg_of msg_type_stream_res id [] 0 b, b) ∷ [])
          (result_msgs id over' failure bs) s.pending_req (forgotten id failure s1.pending_req) s s1
          s2 follows1 follows2 in
      (s2, rw got1 got2, (ws, ps ∙ ap (forgotten id failure) follows1.1, os))

-- On an open connection that takes every write, for a streaming request with a 4-byte id whose
-- handler writes results and then ends with an error's text or without an error, all of fewer than
-- `2 ^ 32` bytes, the goroutine writes the results in order, the error result if there is one, and
-- an empty result just where the handler wrote none; it gives its place of the limit back, forgets
-- the request's channel only after an error; and from a stream with no read failure that starts
-- with these bytes a peer with a buffer of at least 21 bytes reads exactly these messages and
-- payloads, and has the rest left.
pub serve_stream-Heard :
    (c : Conn) (text : Error → Bytes) (has_room : ℕ → Bool) (job : StreamJob) (bs : List Bytes)
    (failure : Option Bytes) (lim : LimitsImpl) (s : Sock) (rest buf : Bytes) (r : Reader)
    → IsWritable c
    → length job.id ≡ 4
    → s.is_open ≡ true
    → AreSmall bs
    → IsShortText failure
    → IsQuiet r
    → stream r ≡ on_wire (result_msgs job.id false failure bs) ++ rest
    → 21 ≤ length buf
    → (s' : Sock) × (serve_stream c text has_room job bs failure lim s
        ≡ ok (dec_stream_req lim, s'))
      × (written s'.writes ≡ written s.writes ++ on_wire (result_msgs job.id false failure bs))
      × (s'.pending_req ≡ forgotten job.id failure s.pending_req)
      × Heard r buf (result_msgs job.id false failure bs) rest
unfolding serve_stream run_on
serve_stream-Heard c text has_room job bs failure lim s rest buf r writable hid open_ smalls short q
      es room =
    let (s', got, (ws, ps, _)) =
      serves c text has_room writable job.id hid bs false failure lim job s refl open_ smalls
        short in
    (
      s',
      got,
      ws,
      ps,
      on_wire-Heard (result_msgs job.id false failure bs) r buf rest
          (result_msgs-AreSendable job.id bs false failure hid smalls short) q es room,
    )
