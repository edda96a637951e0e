-- ===== src/Sock/Streams/Reuse.antt =====
-- The id of a streaming request that has ended is still taken.
use gotalk.Sock.Streams.Lifetime.{run_on, serves}
use gotalk.Sock.Streams.Results.{serve_stream}
use gotalk.Handlers.Lookup.{lookup-insert}
use gotalk.Limits.Counter.{IsSound, dec_stream_req-inc}
use gotalk.Handlers.{FuncId, lookup, insert}
use gotalk.Protocol.Reader.Exact.{IsQuiet, stream, readn-exact}
use gotalk.Protocol.Reader.{Reader}
use gotalk.Sock.Sending.Parts.{AreSmall}
use gotalk.Limits.{LimitsImpl, inc_stream_req}
use gotalk.Sock.Streams.{
  StreamJob, read_stream_req, start_stream, alloc_req_chan, if_stream_admitted, with_stream_handler,
  send_part, alloc_found,
}
use gotalk.Sock.Wire.{IsWritable}
use gotalk.Sock.{Conn, Sock}
use gotalk.Common.{
  Bytes, List, Option, Bool, Error, some, length, ℕ, ◌++◌, ok, none, ◌≡◌, false, if◌then◌else◌,
  true, ◌∙◌, ap, refl, panic, ◌+◌, bytes_eq_refl,
}

-- A streaming request that is let in, with a handler, and whose payload comes first.
starts :
    (c : Conn) (draw : ℕ → ℕ) (find : Bytes → Option FuncId) (lim : LimitsImpl)
    (id op payload rest : Bytes) (h : FuncId) (r : Reader) (s : Sock)
    → (inc_stream_req lim).1 ≡ true
    → find op ≡ some h
    → IsQuiet r
    → stream r ≡ payload ++ rest
    → (r' : Reader) × (read_stream_req c draw find lim id op (length payload) r s
        ≡ start_stream h id op (inc_stream_req lim).0 (payload, none, r') s)
      × (stream r' ≡ rest)
      × IsQuiet r'
unfolding read_stream_req if_stream_admitted with_stream_handler
starts c draw find lim id op payload rest h r s let_in found q es =
    let (r', got, back, q') = readn-exact r (length payload) payload rest q es refl in
    (
      r',
      ap
            (λ b.
              if_stream_admitted c draw find id op (length payload) ((inc_stream_req lim).0, b) r s)
            let_in
          ∙ ap (λ f. with_stream_handler c f id op (length payload) (inc_stream_req lim).0 r s)
              found
          ∙ ap (λ g. start_stream h id op (inc_stream_req lim).0 g s) got,
      back,
      q',
    )

-- On an open connection that takes every write, with counters within their limits and a stream with
-- no read failure, where a streaming request with a 4-byte id that no request has yet is let in and
-- finds a handler, and this handler writes results of fewer than `2 ^ 32` bytes and ends without an
-- error: the request is served, its goroutine ends and the limits are those from before, but a next
-- streaming request with the same id and operation, whose payload comes next in the stream, panics.
pub read_stream_req-reused :
    (c : Conn) (text : Error → Bytes) (has_room : ℕ → Bool) (draw : ℕ → ℕ)
    (find : Bytes → Option FuncId) (lim : LimitsImpl) (id op p1 p2 rest : Bytes) (bs : List Bytes)
    (h : FuncId) (r : Reader) (s : Sock)
    → IsWritable c
    → length id ≡ 4
    → s.is_open ≡ true
    → lookup id s.pending_req ≡ none
    → AreSmall bs
    → IsSound lim
    → (inc_stream_req lim).1 ≡ true
    → find op ≡ some h
    → IsQuiet r
    → stream r ≡ p1 ++ (p2 ++ rest)
    → (lim1 : LimitsImpl) × (job : StreamJob) × (r1 : Reader) × (s1 : Sock) × (s2 : Sock)
      × (read_stream_req c draw find lim id op (length p1) r s ≡ ok (none, lim1, some job, r1, s1))
      × (serve_stream c text has_room job bs none lim1 s1 ≡ ok (lim, s2))
      × (read_stream_req c draw find lim id op (length p2) r1 s2 ≡ panic)
unfolding start_stream serve_stream run_on alloc_req_chan
read_stream_req-reused c text has_room draw find lim id op p1 p2 rest bs h r s writable hid open_
      fresh smalls sound let_in found q es =
    let lim1 : LimitsImpl = (inc_stream_req lim).0 in
    let job : StreamJob = record { handler = h; id = id; op = op; channel = s.next_chan } in
    let s0 : Sock = record s {
      next_chan = s.next_chan + 1;
      pending_req = insert id (some s.next_chan) s.pending_req;
    } in
    let (r1, got1, back1, q1) =
      starts c draw find lim id op p1 (p2 ++ rest) h r s let_in found q es in
    let begun : start_stream h id op lim1 (p1, none, r1) s
        ≡ ok (none, lim1, some job, r1, send_part s.next_chan (some p1) s0) =
      rw fresh (unfold alloc_found in refl) in
    let (s2, got2, (_, ps, _)) =
      serves c text has_room writable id hid bs false none lim1 job
        (send_part s.next_chan (some p1) s0) refl (unfold send_part in open_) smalls tt in
    let (r2, got3, _, _) = starts c draw find lim id op p2 rest h r1 s2 let_in found q1 back1 in
    let taken : lookup id s2.pending_req ≡ some s.next_chan =
      ap (lookup id) ps
      ∙ (unfold send_part in
          lookup-insert id id (some s.next_chan) s.pending_req
          ∙ ap (λ e. if e then some s.next_chan else lookup id s.pending_req) (bytes_eq_refl id)) in
    (
      lim1,
      job,
      r1,
      _,
      s2,
      got1 ∙ begun,
      got2 ∙ ap (λ l. ok (l, s2)) (dec_stream_req-inc lim sound let_in),
      got3 ∙ rw taken (unfold alloc_found in refl),
    )
