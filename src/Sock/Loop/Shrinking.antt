-- ===== src/Sock/Loop/Shrinking.antt =====
-- No part of a round puts bytes back: what is served takes its payload from the stream at most.
use gotalk.Protocol.{msg_type_error_res, msg_type_retry_res}
use gotalk.Protocol.Reader.Conserve.{length-readn}
use gotalk.Handlers.{FuncId}
use gotalk.Protocol.Read.Shorter.{left}
use gotalk.Limits.{
  LimitsImpl, wait_buffer_req, wait_stream_req, stream_req_enabled, inc_buffer_req, inc_stream_req,
  dec_buffer_req, dec_stream_req,
}
use gotalk.Common.{
  Bytes, ℕ, Option, Ensures, Error, ◌≤◌, Ensures-weaken, arith, some, Bool, Ensures->>=, none,
  ◌>>=◌, Ensures-any, [], ok, false, true,
}
use gotalk.Protocol.Reader.{Reader, readn}
use gotalk.Sock.Streams.{
  read_stream_req_part, read_stream_req, refuse_stream, start_stream, with_stream_handler,
  push_part, StreamJob, read_part_for, alloc_req_chan, get_req_chan, if_stream_admitted,
  not_supported_text,
}
use gotalk.Sock.Loop.{read_notification, call_note, notify_with}
use gotalk.Sock.Serving.{
  discard_and_write, read_buffer_req, respond_retry, with_handler, Turn, respond_error, Job,
  if_admitted, rate_limit_text, unknown_text, read_payload,
}
use gotalk.Sock.{Conn, Sock, write_msg}
use gotalk.Sock.Pending.{read_response, respond}

readn-shrinks : (r : Reader) (k : ℕ) → left (readn r k).2 ≤ left r
readn-shrinks r k = omega (arith, length-readn r k)

discard-reader :
    (c : Conn) (t : ℕ) (id : Bytes) (wait : ℕ) (msg : Bytes) (g : Bytes × Option Error × Reader)
    (s : Sock)
    → Ensures
        (λ (x : Option Error × Reader × Sock). left x.1 ≤ left g.2)
        (discard_and_write c t id wait msg g s)
unfolding discard_and_write
discard-reader c t id wait msg (got, some e, r) s = omega arith
discard-reader c t id wait msg (got, none, r) s =
    Ensures->>= _ _ (write_msg c t id [] wait msg s) _ (Ensures-any _) λ w _. omega arith

respond-shrinks :
    (c : Conn) (t : ℕ) (id : Bytes) (wait size : ℕ) (msg : Bytes) (r : Reader) (s : Sock)
    → Ensures
        (λ (x : Option Error × Reader × Sock). left x.1 ≤ left r)
        (discard_and_write c t id wait msg (readn r size) s)
respond-shrinks c t id wait size msg r s =
    Ensures-weaken (λ (x : Option Error × Reader × Sock). left x.1 ≤ left (readn r size).2) _ _
      (λ x h. omega (arith, readn-shrinks r size)) (discard-reader c t id wait msg (readn r size) s)

module _ (c : Conn) (draw : ℕ → ℕ) (id op : Bytes) (size : ℕ) (r : Reader) (s : Sock) where
  responded-shrinks :
      (J : Type 0) (t wait : ℕ) (msg : Bytes) (lim : LimitsImpl)
      → Ensures
          (λ (x : Turn J). left x.3 ≤ left r)
          (discard_and_write c t id wait msg (readn r size) s >>= λ w.
            ok (w.0, lim, none, w.1, w.2))
  responded-shrinks J t wait msg lim =
      Ensures->>= (λ (x : Option Error × Reader × Sock). left x.1 ≤ left r)
        (λ (x : Turn J). left x.3 ≤ left r) (discard_and_write c t id wait msg (readn r size) s) _
        (respond-shrinks c t id wait size msg r s) λ w h. h

  refuse_stream-shrinks :
      (lim : LimitsImpl) (enabled : Bool)
      → Ensures
          (λ (x : Turn StreamJob). left x.3 ≤ left r)
          (refuse_stream c draw enabled id size lim r s)
  unfolding refuse_stream respond_retry respond_error
  refuse_stream-shrinks lim true =
      Ensures->>= _ (λ (x : Turn StreamJob). left x.3 ≤ left r) (wait_stream_req draw lim) _
        (Ensures-any _)
        λ wait _. responded-shrinks StreamJob msg_type_retry_res wait rate_limit_text lim
  refuse_stream-shrinks lim false =
      responded-shrinks StreamJob msg_type_error_res 0 not_supported_text lim

  with_handler-shrinks :
      (found : Option FuncId) (lim : LimitsImpl)
      → Ensures (λ (x : Turn Job). left x.3 ≤ left r) (with_handler c found id op size lim r s)
  unfolding with_handler respond_error
  with_handler-shrinks none lim =
      responded-shrinks Job msg_type_error_res 0 (unknown_text op) (dec_buffer_req lim)
  with_handler-shrinks (some f) lim = payload (readn r size) (readn-shrinks r size)
    where
      payload :
          (g : Bytes × Option Error × Reader)
          → left g.2 ≤ left r
          → left (read_payload f id op lim g s).3 ≤ left r
      payload (got, some e, r') h = unfold read_payload in h
      payload (got, none, r') h = unfold read_payload in h

  start_stream-shrinks :
      (f : FuncId) (lim : LimitsImpl) (g : Bytes × Option Error × Reader)
      → left g.2 ≤ left r
      → Ensures (λ (x : Turn StreamJob). left x.3 ≤ left r) (start_stream f id op lim g s)
  unfolding start_stream
  start_stream-shrinks f lim (got, some e, r') h = h
  start_stream-shrinks f lim (got, none, r') h =
      Ensures->>= _ (λ (x : Turn StreamJob). left x.3 ≤ left r) (alloc_req_chan id s) _
        (Ensures-any _) λ a _. h

  with_stream_handler-shrinks :
      (found : Option FuncId) (lim : LimitsImpl)
      → Ensures
          (λ (x : Turn StreamJob). left x.3 ≤ left r)
          (with_stream_handler c found id op size lim r s)
  unfolding with_stream_handler respond_error
  with_stream_handler-shrinks none lim =
      responded-shrinks StreamJob msg_type_error_res 0 (unknown_text op) (dec_stream_req lim)
  with_stream_handler-shrinks (some f) lim =
      start_stream-shrinks f lim (readn r size) (readn-shrinks r size)

  pub read_buffer_req-shrinks :
      (find : Bytes → Option FuncId) (lim : LimitsImpl)
      → Ensures
          (λ (x : Turn Job). left x.3 ≤ left r)
          (read_buffer_req c draw find lim id op size r s)
  unfolding read_buffer_req
  read_buffer_req-shrinks find lim = admitted (inc_buffer_req lim)
    where
      admitted :
          (l : LimitsImpl × Bool)
          → Ensures (λ (x : Turn Job). left x.3 ≤ left r) (if_admitted c draw find id op size l r s)
      admitted (l, false) =
          unfold if_admitted respond_retry in
          Ensures->>= _ (λ (x : Turn Job). left x.3 ≤ left r) (wait_buffer_req draw l) _
            (Ensures-any _)
            λ wait _. responded-shrinks Job msg_type_retry_res wait rate_limit_text l
      admitted (l, true) = unfold if_admitted in with_handler-shrinks (find op) l

  pub read_stream_req-shrinks :
      (find : Bytes → Option FuncId) (lim : LimitsImpl)
      → Ensures
          (λ (x : Turn StreamJob). left x.3 ≤ left r)
          (read_stream_req c draw find lim id op size r s)
  unfolding read_stream_req
  read_stream_req-shrinks find lim = admitted (inc_stream_req lim)
    where
      admitted :
          (l : LimitsImpl × Bool)
          → Ensures
              (λ (x : Turn StreamJob). left x.3 ≤ left r)
              (if_stream_admitted c draw find id op size l r s)
      admitted (l, false) =
          unfold if_stream_admitted in refuse_stream-shrinks l (stream_req_enabled l)
      admitted (l, true) = unfold if_stream_admitted in with_stream_handler-shrinks (find op) l

pub read_stream_req_part-shrinks :
    (lim : LimitsImpl) (id : Bytes) (size : ℕ) (r : Reader) (s : Sock)
    → left (read_stream_req_part lim id size r s).3 ≤ left r
unfolding read_stream_req_part
read_stream_req_part-shrinks lim id size r s = part (get_req_chan id s)
  where
    pushed_part :
        (ch : ℕ) (g : Bytes × Option Error × Reader)
        → left g.2 ≤ left r
        → left (push_part ch lim g s).3 ≤ left r
    pushed_part ch (b, some e, r') h = unfold push_part in h
    pushed_part ch (b, none, r') h = unfold push_part in h

    part : (found : Option ℕ) → left (read_part_for found lim size r s).3 ≤ left r
    part none = unfold read_part_for in omega arith
    part (some ch) = unfold read_part_for in pushed_part ch (readn r size) (readn-shrinks r size)

pub read_response-shrinks :
    (t : ℕ) (id : Bytes) (wait size : ℕ) (r : Reader) (s : Sock)
    → left (read_response t id wait size r s).1 ≤ left r
unfolding read_response
read_response-shrinks t id wait size r s = responds (readn r size) (readn-shrinks r size)
  where
    responds :
        (g : Bytes × Option Error × Reader)
        → left g.2 ≤ left r
        → left (respond t id wait g s).1 ≤ left r
    responds (b, some e, r') h = unfold respond in h
    responds (b, none, r') h = unfold respond in h

pub read_notification-shrinks :
    (find : Bytes → Option FuncId) (name : Bytes) (size : ℕ) (r : Reader) (s : Sock)
    → left (read_notification find name size r s).1 ≤ left r
unfolding read_notification
read_notification-shrinks find name size r s = notifies (find name)
  where
    calls :
        (f : FuncId) (g : Bytes × Option Error × Reader)
        → left g.2 ≤ left r
        → left (call_note f name g s).1 ≤ left r
    calls f (b, some e, r') h = unfold call_note in h
    calls f (b, none, r') h = unfold call_note in h

    notifies : (found : Option FuncId) → left (notify_with found name size r s).1 ≤ left r
    notifies none = unfold notify_with in readn-shrinks r size
    notifies (some f) = unfold notify_with in calls f (readn r size) (readn-shrinks r size)
