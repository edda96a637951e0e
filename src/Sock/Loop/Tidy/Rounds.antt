-- ===== src/Sock/Loop/Tidy/Rounds.antt =====
-- Every kind of message keeps a socket tidy.
use gotalk.Sock.Loop.Tidy.{IsTidy, write_msg-IsTidy, forget_res_chan-IsTidy, deliver-IsTidy}
use gotalk.Common.{
  Bytes, ℕ, Bool, Ensures, Option, Ensures->>=, Error, false, some, ◌>>=◌, Ensures-any, [], none,
  ok, true,
}
use gotalk.Protocol.{msg_type_error_res, msg_type_retry_res}
use gotalk.Handlers.{FuncId, lookup}
use gotalk.Limits.{
  LimitsImpl, wait_buffer_req, wait_stream_req, stream_req_enabled, inc_buffer_req, inc_stream_req,
  dec_buffer_req, dec_stream_req,
}
use gotalk.Protocol.Reader.{Reader, readn}
use gotalk.Sock.Streams.{
  read_stream_req_part, read_stream_req, refuse_stream, start_stream, with_stream_handler,
  push_part, StreamJob, read_part_for, alloc_req_chan, alloc_found, get_req_chan,
  if_stream_admitted, not_supported_text, send_part,
}
use gotalk.Sock.Loop.{read_notification, call_note, notify_with}
use gotalk.Sock.Serving.{
  discard_and_write, read_buffer_req, respond_retry, with_handler, Turn, respond_error, Job,
  if_admitted, rate_limit_text, unknown_text, read_payload,
}
use gotalk.Sock.{Conn, Sock, write_msg}
use gotalk.Sock.Pending.{read_response, respond}

module _ (c : Conn) (draw : ℕ → ℕ) (id op : Bytes) (size : ℕ) (r : Reader) (s : Sock)
    (h : IsTidy s) where
  discard-IsTidy :
      (t wait : ℕ) (msg : Bytes) (g : Bytes × Option Error × Reader)
      → Ensures
          (λ (x : Option Error × Reader × Sock). IsTidy x.2)
          (discard_and_write c t id wait msg g s)
  unfolding discard_and_write
  discard-IsTidy t wait msg (got, some e, r) = h
  discard-IsTidy t wait msg (got, none, r) =
      Ensures->>= (λ (x : Option Error × Sock). IsTidy x.1) _ (write_msg c t id [] wait msg s) _
        (write_msg-IsTidy c t id [] wait msg s h) λ w k. k

  responded-IsTidy :
      (J : Type 0) (t wait : ℕ) (msg : Bytes) (lim : LimitsImpl)
      → Ensures
          (λ (x : Turn J). IsTidy x.4)
          (discard_and_write c t id wait msg (readn r size) s >>= λ w.
            ok (w.0, lim, none, w.1, w.2))
  responded-IsTidy J t wait msg lim =
      Ensures->>= (λ (x : Option Error × Reader × Sock). IsTidy x.2) (λ (x : Turn J). IsTidy x.4)
        (discard_and_write c t id wait msg (readn r size) s) _
        (discard-IsTidy t wait msg (readn r size)) λ w k. k

  refuse_stream-IsTidy :
      (lim : LimitsImpl) (enabled : Bool)
      → Ensures (λ (x : Turn StreamJob). IsTidy x.4) (refuse_stream c draw enabled id size lim r s)
  unfolding refuse_stream respond_retry respond_error
  refuse_stream-IsTidy lim true =
      Ensures->>= _ (λ (x : Turn StreamJob). IsTidy x.4) (wait_stream_req draw lim) _
        (Ensures-any _)
        λ wait _. responded-IsTidy StreamJob msg_type_retry_res wait rate_limit_text lim
  refuse_stream-IsTidy lim false =
      responded-IsTidy StreamJob msg_type_error_res 0 not_supported_text lim

  with_handler-IsTidy :
      (found : Option FuncId) (lim : LimitsImpl)
      → Ensures (λ (x : Turn Job). IsTidy x.4) (with_handler c found id op size lim r s)
  unfolding with_handler respond_error
  with_handler-IsTidy none lim =
      responded-IsTidy Job msg_type_error_res 0 (unknown_text op) (dec_buffer_req lim)
  with_handler-IsTidy (some f) lim = payload (readn r size)
    where
      payload : (g : Bytes × Option Error × Reader) → IsTidy (read_payload f id op lim g s).4
      payload (got, some e, r') = unfold read_payload in h
      payload (got, none, r') = unfold read_payload in h

  start_stream-IsTidy :
      (f : FuncId) (lim : LimitsImpl) (g : Bytes × Option Error × Reader)
      → Ensures (λ (x : Turn StreamJob). IsTidy x.4) (start_stream f id op lim g s)
  unfolding start_stream alloc_req_chan
  start_stream-IsTidy f lim (got, some e, r') = h
  start_stream-IsTidy f lim (got, none, r') = allocated (lookup id s.pending_req)
    where
      allocated :
          (o : Option ℕ)
          → Ensures
              (λ (x : Turn StreamJob). IsTidy x.4)
              (alloc_found o id s >>= λ a. ok (
                none,
                lim,
                some (record { handler = f; id = id; op = op; channel = a.0 }),
                r',
                send_part a.0 (some got) a.1,
              ))
      allocated none = unfold alloc_found send_part in h
      allocated (some ch) = unfold alloc_found in tt

  with_stream_handler-IsTidy :
      (found : Option FuncId) (lim : LimitsImpl)
      → Ensures
          (λ (x : Turn StreamJob). IsTidy x.4)
          (with_stream_handler c found id op size lim r s)
  unfolding with_stream_handler respond_error
  with_stream_handler-IsTidy none lim =
      responded-IsTidy StreamJob msg_type_error_res 0 (unknown_text op) (dec_stream_req lim)
  with_stream_handler-IsTidy (some f) lim = start_stream-IsTidy f lim (readn r size)

  pub read_buffer_req-IsTidy :
      (find : Bytes → Option FuncId) (lim : LimitsImpl)
      → Ensures (λ (x : Turn Job). IsTidy x.4) (read_buffer_req c draw find lim id op size r s)
  unfolding read_buffer_req
  read_buffer_req-IsTidy find lim = admitted (inc_buffer_req lim)
    where
      admitted :
          (l : LimitsImpl × Bool)
          → Ensures (λ (x : Turn Job). IsTidy x.4) (if_admitted c draw find id op size l r s)
      admitted (l, false) =
          unfold if_admitted respond_retry in
          Ensures->>= _ (λ (x : Turn Job). IsTidy x.4) (wait_buffer_req draw l) _ (Ensures-any _)
            λ wait _. responded-IsTidy Job msg_type_retry_res wait rate_limit_text l
      admitted (l, true) = unfold if_admitted in with_handler-IsTidy (find op) l

  pub read_stream_req-IsTidy :
      (find : Bytes → Option FuncId) (lim : LimitsImpl)
      → Ensures
          (λ (x : Turn StreamJob). IsTidy x.4)
          (read_stream_req c draw find lim id op size r s)
  unfolding read_stream_req
  read_stream_req-IsTidy find lim = admitted (inc_stream_req lim)
    where
      admitted :
          (l : LimitsImpl × Bool)
          → Ensures
              (λ (x : Turn StreamJob). IsTidy x.4)
              (if_stream_admitted c draw find id op size l r s)
      admitted (l, false) =
          unfold if_stream_admitted in refuse_stream-IsTidy l (stream_req_enabled l)
      admitted (l, true) = unfold if_stream_admitted in with_stream_handler-IsTidy (find op) l

pub read_stream_req_part-IsTidy :
    (lim : LimitsImpl) (id : Bytes) (size : ℕ) (r : Reader) (s : Sock)
    → IsTidy s
    → IsTidy (read_stream_req_part lim id size r s).4
unfolding read_stream_req_part
read_stream_req_part-IsTidy lim id size r s h = part (get_req_chan id s)
  where
    pushed_part : (ch : ℕ) (g : Bytes × Option Error × Reader) → IsTidy (push_part ch lim g s).4
    pushed_part ch (b, some e, r') = unfold push_part in h
    pushed_part ch (b, none, r') = unfold push_part send_part in h

    part : (found : Option ℕ) → IsTidy (read_part_for found lim size r s).4
    part none = unfold read_part_for in h
    part (some ch) = unfold read_part_for in pushed_part ch (readn r size)

pub read_response-IsTidy :
    (t : ℕ) (id : Bytes) (wait size : ℕ) (r : Reader) (s : Sock)
    → IsTidy s
    → IsTidy (read_response t id wait size r s).2
unfolding read_response
read_response-IsTidy t id wait size r s h = responds (readn r size)
  where
    responds : (g : Bytes × Option Error × Reader) → IsTidy (respond t id wait g s).2
    responds (b, some e, r') = unfold respond in forget_res_chan-IsTidy id s h
    responds (b, none, r') = unfold respond in deliver-IsTidy t id _ s h

pub read_notification-IsTidy :
    (find : Bytes → Option FuncId) (name : Bytes) (size : ℕ) (r : Reader) (s : Sock)
    → IsTidy s
    → IsTidy (read_notification find name size r s).2
unfolding read_notification
read_notification-IsTidy find name size r s h = notifies (find name)
  where
    calls : (f : FuncId) (g : Bytes × Option Error × Reader) → IsTidy (call_note f name g s).2
    calls f (b, some e, r') = unfold call_note in h
    calls f (b, none, r') = unfold call_note in h

    notifies : (found : Option FuncId) → IsTidy (notify_with found name size r s).2
    notifies none = unfold notify_with in h
    notifies (some f) = unfold notify_with in calls f (readn r size)
