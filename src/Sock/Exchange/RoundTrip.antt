-- ===== src/Sock/Exchange/RoundTrip.antt =====
-- The whole exchange: what `SendRequest` wrote is served, and the response ends the request.
use gotalk.Sock.Exchange.Serving.{turn-Serves}
use gotalk.Handlers.Lookup.{lookup-insert}
use gotalk.Handlers.Lookup.{lookup-insert}
use gotalk.Sock.Exchange.Asking.{
  response_of, turn-delivers, deserved-IsFinalOrRetry, receive-concluded,
}
use gotalk.Limits.Counter.{IsSound}
use gotalk.Protocol.Reader.Exact.{stream, IsQuiet}
use gotalk.Protocol.Version.{format_request_id, length-format_request_id}
use gotalk.Handlers.{lookup, FuncId}
use gotalk.Sock.Wire.{IsWritable, written, pushed, send_request-pushed, written-pushed}
use gotalk.Sock.Serving.{Job}
use gotalk.Sock.Retry.{Outcome, receive}
use gotalk.Limits.{LimitsImpl, wait_buffer_req, inc_buffer_req}
use gotalk.Protocol.{msg_type_single_req}
use gotalk.Sock.{Sock, send_request, Response, new_request, register_res_chan}
use gotalk.Protocol.Reader.{Reader}
use gotalk.Protocol.Make.Fields.{wire}
use gotalk.Sock.Exchange.{Run, finish_started, deserved, response_wire, concluded, ResponseParts}
use gotalk.Sock.Loop.{Outside, turn, again, with_task, buffer_task, deadline_error}
use gotalk.Common.{
  Bytes, ℕ, length, Option, Result, ◌++◌, ◌≡◌, ok, none, true, false, ◌∷◌, ◌<◌, ◌^◌, ◌≤◌, some, ◌∙◌,
  ap, if◌then◌else◌, bytes_eq_refl, Bool, [], refl,
}

abbrev pub request_wire : Bytes → Bytes → Bytes → Bytes
request_wire id op buf = wire msg_type_single_req id op 0 (length buf) ++ buf

-- The request is written behind what was written before.
abbrev pub Sends : Outside → Bytes → Bytes → ℕ → Sock → Sock → Type 0
Sends o op buf ch c c1 =
    (send_request o.conn (new_request op buf) ch c ≡ ok (none, c1))
    × (written c1.writes ≡ written c.writes ++ request_wire (format_request_id c.next_op_id) op buf)

-- A round of the serving loop, with the goroutine that it starts, writes the response behind what was
-- written before, leaves the rest of the stream, and leaves the limits as they were.
abbrev pub Serves : Outside → Run → ℕ → Reader → Bytes → LimitsImpl → Sock → Bytes → Bytes → Type 0
Serves o run n r b lim s reply rest =
    (job : Option Job) × (r' : Reader) × (b' : Bytes) × (lim' : LimitsImpl) × (s1 : Sock)
    × (s2 : Sock) × (turn o n r b lim s ≡ ok (again (with_task buffer_task job) r' b' lim' s1))
    × (finish_started o run job lim' s1 ≡ ok (lim, s2))
    × (written s2.writes ≡ written s.writes ++ reply)
    × (stream r' ≡ rest)

-- A round of the asking loop takes the response, which is sent to the request's channel, and then the
-- request is not pending any more.
abbrev pub Hears :
    Outside → ℕ → Reader → Bytes → LimitsImpl → Sock → Bytes → ℕ → Response → Bytes → Type 0
Hears o n r b lim c id ch res rest =
    (r' : Reader) × (b' : Bytes) × (c' : Sock) × (turn o n r b lim c ≡ ok (again none r' b' lim c'))
    × (c'.delivered ≡ (ch, res) ∷ c.delivered)
    × (lookup id c'.pending_res ≡ none)
    × (stream r' ≡ rest)

-- A request from one socket to another and back. With connections that take every write, both
-- sockets open and the asking one not shut down, a name of 1 to 4095 bytes, a payload and a
-- response of fewer than `2 ^ 32` bytes, deadlines that can be set, counters within their limits, a
-- wait of 32 bits, buffers of at least 21 bytes, and on each side a stream with no read failure
-- that starts with the wire form that the other side's part of the exchange writes: `SendRequest`
-- succeeds and writes the request's wire form; a round of the serving `Read` loop, with the
-- goroutine that it starts, reads exactly that, writes one response behind what was written before,
-- and leaves the limits as they were; a round of the asking `Read` loop reads exactly the response
-- and sends it to the request's channel, and then the id is not pending; and what `BufferRequest`
-- does with it is to end with the handler's result or error, or with the error of an unknown
-- operation, or, where the limit refused the request, to go on to another round.
pub request-concluded :
    (asking serving : Outside) (run : Run) (n k : ℕ) (op buf : Bytes) (ch w : ℕ) (c s : Sock)
    (limc lims : LimitsImpl) (rc rs : Reader) (bc bs restc rests : Bytes) (u : Sock)
    (more : Result (Outcome × Sock))
    → IsWritable asking.conn
    → IsWritable serving.conn
    → c.is_open ≡ true
    → c.is_shutdown ≡ false
    → s.is_open ≡ true
    → 0 < length op
    → length op < 4096
    → length buf < 2 ^ 32
    → deadline_error asking n limc ≡ none
    → deadline_error serving k lims ≡ none
    → IsSound lims
    → wait_buffer_req (serving.draw k) lims ≡ ok w
    → w < 2 ^ 32
    → length (deserved (inc_buffer_req lims).1 (serving.find_buffer op) op buf w run).2 < 2 ^ 32
    → IsQuiet rs
    → stream rs ≡ request_wire (format_request_id c.next_op_id) op buf ++ rests
    → IsQuiet rc
    → stream rc
      ≡ response_wire
          (format_request_id c.next_op_id)
          (deserved (inc_buffer_req lims).1 (serving.find_buffer op) op buf w run)
        ++ restc
    → 21 ≤ length bc
    → 21 ≤ length bs
    → (c1 : Sock) × Sends asking op buf ch c c1
      × Serves serving run k rs bs lims s
          (response_wire
            (format_request_id c.next_op_id)
            (deserved (inc_buffer_req lims).1 (serving.find_buffer op) op buf w run))
          rests
      × Hears asking n rc bc limc c1
          (format_request_id c.next_op_id)
          ch
          (response_of (deserved (inc_buffer_req lims).1 (serving.find_buffer op) op buf w run))
          restc
      × (receive
            (
              some (
                  response_of
                    (deserved (inc_buffer_req lims).1 (serving.find_buffer op) op buf w run)),
              u,
            )
            more
          ≡ concluded (inc_buffer_req lims).1 (serving.find_buffer op) op buf run u more)
request-concluded asking serving run n k op buf ch w c s limc lims rc rs bc bs restc rests u more wc
      ws oc up os some_name short small dc ds sound hw hw2 little qs es qc ec roomc rooms =
    let id : Bytes = format_request_id c.next_op_id in
    let hid : length id ≡ 4 = length-format_request_id c.next_op_id in
    let admitted : Bool = (inc_buffer_req lims).1 in
    let found : Option FuncId = serving.find_buffer op in
    let d : ResponseParts = deserved admitted found op buf w run in
    let c1 : Sock = record (register_res_chan ch c).1 {
      writes = pushed (wire msg_type_single_req id op 0 (length buf)) buf c.writes;
    } in
    let (job, rs', bs', lims', s1, served, left, finished) =
      turn-Serves serving run id op buf w s ws os hid k rs bs rests lims some_name short small ds
        sound hw hw2 little qs es rooms in
    let (rc', bc', c2, heard, leftc, delivered, gone, _, _) =
      turn-delivers asking n id d limc c1 hid
        (deserved-IsFinalOrRetry admitted found op buf w run hw2) rc bc restc ch little dc
        (registered ch c) qc ec roomc in
    (
      c1,
      (
        send_request-pushed asking.conn op buf ch c wc oc up some_name short small,
        written-pushed (wire msg_type_single_req id op 0 (length buf)) buf c.writes,
      ),
      (
        job,
        rs',
        bs',
        lims',
        s1,
        _,
        served,
        finished,
        written-pushed (wire d.0 id [] d.1 (length d.2)) d.2 s.writes,
        left,
      ),
      (
        rc',
        bc',
        c2,
        heard,
        (unfold register_res_chan in delivered),
        gone id ∙ rw (bytes_eq_refl id) refl,
        leftc,
      ),
      receive-concluded admitted found op buf w run u more,
    )
  where
    registered :
        (ch : ℕ) (c : Sock)
        → lookup (format_request_id c.next_op_id) (register_res_chan ch c).1.pending_res ≡ some ch
    registered ch c =
        unfold register_res_chan in
        lookup-insert (format_request_id c.next_op_id) (format_request_id c.next_op_id) (some ch)
          c.pending_res
        ∙ ap (λ b. if b then some ch else lookup (format_request_id c.next_op_id) c.pending_res)
            (bytes_eq_refl (format_request_id c.next_op_id))
