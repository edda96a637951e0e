-- ===== src/Sock/Loop/Tidy.antt =====
-- What a round does to the count of calls of `Close` and to the pending requests: nothing but that a
-- response ends a request.
pub mod Rounds
use gotalk.Common.{
  Bytes, ℕ, ◌<◌, Bool, Ensures, Option, ◌≡◌, Ensures->>=, Error, arith, false, some, ◌>>=◌, ◌⊎◌,
  Ensures-any, Ensures-if, [], if◌then◌else◌, inl, none, ok, true, length, not, refl, ◌∙◌, ◌∷◌, inr,
  ◌%◌, ◌==◌, ap, ◌^◌,
}
use gotalk.Protocol.{msg_type_error_res, msg_type_retry_res, msg_type_stream_res}
use gotalk.Protocol.Make.{make_msg}
use gotalk.Handlers.{FuncId, lookup}
use gotalk.Limits.{
  LimitsImpl, wait_buffer_req, wait_stream_req, stream_req_enabled, inc_buffer_req, inc_stream_req,
  dec_buffer_req, dec_stream_req,
}
use gotalk.Protocol.Reader.{Reader, readn}
use gotalk.Sock.Streams.{
  read_stream_req_part, read_stream_req, refuse_stream, start_stream, with_stream_handler,
  push_part, StreamJob, read_part_for, alloc_req_chan, alloc_found, get_req_chan,
  if_stream_admitted, not_supported_text, send_part,
}
use gotalk.Sock.Loop.{read_notification, call_note, notify_with}
use gotalk.Sock.Serving.{
  discard_and_write, read_buffer_req, respond_retry, with_handler, Turn, respond_error, Job,
  if_admitted, rate_limit_text, unknown_text, read_payload,
}
use gotalk.Sock.{
  Conn, Sock, Response, write, write_msg, write_payload, forget_res_chan, forget_found, delete,
}
use gotalk.Sock.Pending.{read_response, respond, deliver, deliver_to}

-- Fewer calls of `Close` than the counter can count, and no request is pending once it was called.
abbrev pub IsTidy : Sock → Type 0
IsTidy s = (s.closex < 0xffff_fffe) × ((s.closex ≡ 0) ⊎ (s.pending_res ≡ []))

write_payload-IsTidy :
    (c : Conn) (buf : Bytes) (e : Option Error) (s : Sock)
    → IsTidy s
    → IsTidy (write_payload c buf (e, s)).1
unfolding write_payload write
write_payload-IsTidy c buf (some e) s h = h
write_payload-IsTidy c buf none s h = nothing (length buf == 0)
  where
    nothing : (b : Bool) → IsTidy (if b then (none, s) else write c buf s).1
    nothing true = h
    nothing false = h

pub write_msg-IsTidy :
    (c : Conn) (t : ℕ) (id op : Bytes) (wait : ℕ) (buf : Bytes) (s : Sock)
    → IsTidy s
    → Ensures (λ (x : Option Error × Sock). IsTidy x.1) (write_msg c t id op wait buf s)
unfolding write_msg write
write_msg-IsTidy c t id op wait buf s h =
    Ensures-if (λ (x : Option Error × Sock). IsTidy x.1) (not s.is_open) _ _ h
      (Ensures->>= _ _ (make_msg t id op wait (length buf % 2 ^ 32)) _ (Ensures-any _) λ msg _.
        write_payload-IsTidy c buf (c.write s.writes msg) (record s { writes = msg ∷ s.writes }) h)

deleted-IsTidy :
    (s s' : Sock) (id : Bytes)
    → s'.closex ≡ s.closex
    → s'.pending_res ≡ delete id s.pending_res
    → IsTidy s
    → IsTidy s'
unfolding delete
deleted-IsTidy s s' id same less (few, none_left) = (
  omega (arith, few, same),
  elim none_left [
    | inl zero_closed ↦ inl (same ∙ zero_closed)
    | inr empty ↦ inr (less ∙ ap (delete id) empty)
  ],
)

pub forget_res_chan-IsTidy : (id : Bytes) (s : Sock) → IsTidy s → IsTidy (forget_res_chan id s)
unfolding forget_res_chan
forget_res_chan-IsTidy id s h = found (lookup id s.pending_res)
  where
    found : (o : Option ℕ) → IsTidy (forget_found o id s)
    found none = unfold forget_found in h
    found (some ch) =
        unfold forget_found in
        deleted-IsTidy s (record s { pending_res = delete id s.pending_res }) id refl refl h

pub deliver-IsTidy :
    (t : ℕ) (id : Bytes) (res : Response) (s : Sock) → IsTidy s → IsTidy (deliver t id res s)
unfolding deliver
deliver-IsTidy t id res s h = found (lookup id s.pending_res)
  where
    found : (o : Option ℕ) → IsTidy (deliver_to o t id res s)
    found none = unfold deliver_to in h
    found (some ch) = unfold deliver_to in streaming (t == msg_type_stream_res)
      where
        streaming :
            (b : Bool)
            → IsTidy (record s {
              pending_res = if b then s.pending_res else delete id s.pending_res;
              delivered = (ch, res) ∷ s.delivered;
            })
        streaming true = h
        streaming false =
            deleted-IsTidy s
              (record s {
                pending_res = delete id s.pending_res;
                delivered = (ch, res) ∷ s.delivered;
              })
              id refl refl h
