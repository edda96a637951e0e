-- ===== src/Sock/Wire.antt =====
-- What `writeMsg` and `SendRequest` put on the connection, and how a peer reads it.
pub mod Heard
use gotalk.Common.{
  ℕ, suc, ◌%◌, ◌^◌, ◌<◌, ◌≤◌, ◌≡◌, refl, sym, ap, ◌∙◌, arith, true, false, not, inl, List, [], ◌∷◌,
  ◌++◌, Bytes, length, if◌then◌else◌, none, some, ok, ◌>>=◌, append_assoc, append-nil, sock_closed,
  ok-injective, eqb-eq_false, drop, drop-append,
}
use gotalk.Protocol.{Msg, msg_type_single_req}
use gotalk.Protocol.Make.{make_msg}
use gotalk.Protocol.Make.Fields.{wire}
use gotalk.Protocol.Reader.{Reader, readn}
use gotalk.Protocol.Reader.Exact.{stream, IsQuiet, readn-exact}
use gotalk.Protocol.Read.{read_msg}
use gotalk.Protocol.Read.RoundTrip.{IsSendable, request, read_msg-make_msg, made}
use gotalk.Protocol.Version.{format_request_id, length-format_request_id}
use gotalk.Sock.{
  Conn, Sock, write, write_payload, write_msg, new_request, register_res_chan, sent, send_request,
}

-- The connection takes every write.
abbrev pub IsWritable : Conn → Type 0
IsWritable c = (done : List Bytes) (b : Bytes) → c.write done b ≡ none

-- The writes of a message and its payload, the newest first.
abbrev pub pushed : Bytes → Bytes → List Bytes → List Bytes
pushed w [] writes = w ∷ writes
pushed w (x ∷ buf) writes = (x ∷ buf) ∷ w ∷ writes

write_payload-pushed :
    (c : Conn) (w buf : Bytes) (s : Sock)
    → IsWritable c
    → write_payload c buf (write c w s) ≡ (none, record s { writes = pushed w buf s.writes })
unfolding write
write_payload-pushed c w [] s h =
    ap (λ e. write_payload c [] (e, record s { writes = w ∷ s.writes })) (h s.writes w)
    ∙ (unfold write_payload in refl)
write_payload-pushed c w (x ∷ buf) s h =
    ap (λ e. write_payload c (x ∷ buf) (e, record s { writes = w ∷ s.writes })) (h s.writes w)
    ∙ (unfold write_payload in
        rw (eqb-eq_false (suc (length buf)) 0 (λ e. omega (arith, e))) (
          ap (λ e. (e, record s { writes = (x ∷ buf) ∷ w ∷ s.writes }))
            (h (w ∷ s.writes) (x ∷ buf))))

abbrev pub msg_of : ℕ → Bytes → Bytes → ℕ → Bytes → Msg
msg_of t id op wait buf = record { t = t; id = id; name = op; wait = wait; size = length buf }

pub write_msg-pushed :
    (c : Conn) (t : ℕ) (id op : Bytes) (wait : ℕ) (buf : Bytes) (s : Sock)
    → IsWritable c
    → s.is_open ≡ true
    → IsSendable (msg_of t id op wait buf)
    → length buf < 2 ^ 32
    → write_msg c t id op wait buf s
      ≡ ok (none, record s { writes = pushed (wire t id op wait (length buf)) buf s.writes })
unfolding write_msg
write_msg-pushed c t id op wait buf s h open_ sendable small =
    ap
      (λ b.
        if not b
        then ok (some sock_closed, s)
        else make_msg t id op wait (length buf % 2 ^ 32)
          >>= (λ msg. ok (write_payload c buf (write c msg s))))
      open_
    ∙ ap (λ n. make_msg t id op wait n >>= (λ msg. ok (write_payload c buf (write c msg s))))
        (ground arith)
    ∙ ap (λ m. m >>= (λ msg. ok (write_payload c buf (write c msg s))))
        (made (msg_of t id op wait buf) sendable small)
    ∙ ap ok (write_payload-pushed c (wire t id op wait (length buf)) buf s h)

-- All bytes written, in order.
unfoldable pub written : List Bytes → Bytes
written [] = []
written (b ∷ bs) = written bs ++ b

pub written-pushed :
    (w buf : Bytes) (writes : List Bytes)
    → written (pushed w buf writes) ≡ written writes ++ (w ++ buf)
unfolding written
written-pushed w [] writes = ap (λ v. written writes ++ v) (sym (append-nil w))
written-pushed w (x ∷ buf) writes = append_assoc (written writes) w (x ∷ buf)

pub append-cancel : (a b c : Bytes) → a ++ b ≡ a ++ c → b ≡ c
append-cancel a b c e =
    sym (drop-append (length a) a b refl) ∙ ap (drop (length a)) e ∙ drop-append (length a) a c refl

-- On an open connection that takes every write, after `writeMsg` of a sendable message with a
-- payload of fewer than `2 ^ 32` bytes, a peer whose stream, with no read failure, starts with the
-- bytes that were then written reads with `ReadMsg`, into a buffer of at least 21 bytes, the same
-- type, id, name and wait and the payload's length as the size, then with `readn` the payload, and
-- has the rest of its stream left.
pub write_msg-read :
    (c : Conn) (t : ℕ) (id op : Bytes) (wait : ℕ) (buf out rest b : Bytes) (s s' : Sock)
    (r : Reader)
    → IsWritable c
    → s.is_open ≡ true
    → IsSendable (msg_of t id op wait buf)
    → length buf < 2 ^ 32
    → write_msg c t id op wait buf s ≡ ok (none, s')
    → written s'.writes ≡ written s.writes ++ out
    → IsQuiet r
    → stream r ≡ out ++ rest
    → 21 ≤ length b
    → (r1 : Reader) × (r2 : Reader) × (b' : Bytes) × (read_msg r b
        ≡ ok (msg_of t id op wait buf, r1, b'))
      × (readn r1 (length buf) ≡ (buf, none, r2))
      × (stream r2 ≡ rest)
write_msg-read c t id op wait buf out rest b s s' r h open_ sendable small e es q er room =
    let w : Bytes = wire t id op wait (length buf) in
    let same : s' ≡ record s { writes = pushed w buf s.writes } =
      ap (λ x. x.1)
        (ok-injective (sym e ∙ write_msg-pushed c t id op wait buf s h open_ sendable small)) in
    let outs : out ≡ w ++ buf =
      append-cancel (written s.writes) out (w ++ buf)
        (sym es ∙ ap (λ x. written x.writes) same ∙ written-pushed w buf s.writes) in
    let (r1, b', got, left, q1, _) =
      read_msg-make_msg (msg_of t id op wait buf) r b w (buf ++ rest) sendable small
        (made (msg_of t id op wait buf) sendable small) q
        (er ∙ ap (λ o. o ++ rest) outs ∙ append_assoc w buf rest) room in
    let (r2, got2, left2, _) = readn-exact r1 (length buf) buf rest q1 left refl in
    (r1, r2, b', got, got2, left2)

-- With a connection that takes every write, a socket that is open and not shut down, a name of 1 to
-- 4095 bytes and a payload of fewer than `2 ^ 32` bytes, `SendRequest` succeeds, registers the
-- channel, and writes the request's wire form under the registered id and then the payload unless
-- it is empty.
pub send_request-pushed :
    (c : Conn) (op buf : Bytes) (ch : ℕ) (s : Sock)
    → IsWritable c
    → s.is_open ≡ true
    → s.is_shutdown ≡ false
    → 0 < length op
    → length op < 4096
    → length buf < 2 ^ 32
    → send_request c (new_request op buf) ch s
      ≡ ok (
        none,
        record (register_res_chan ch s).1 {
          writes =
              pushed
                (wire msg_type_single_req (format_request_id s.next_op_id) op 0 (length buf))
                buf
                s.writes;
        },
      )
unfolding send_request new_request sent register_res_chan
send_request-pushed c op buf ch s h open_ on some_name short small =
    ap
      (λ b.
        if b
        then ok (some sock_closed, s)
        else (write_msg c msg_type_single_req (format_request_id s.next_op_id) op 0 buf
              (register_res_chan ch s).1
            >>= (λ got. ok (sent (format_request_id s.next_op_id) got))))
      on
    ∙ ap (λ m. m >>= (λ got. ok (sent (format_request_id s.next_op_id) got)))
        (write_msg-pushed c msg_type_single_req (format_request_id s.next_op_id) op 0 buf
          (register_res_chan ch s).1 h open_
          (request (inl refl) (length-format_request_id s.next_op_id) some_name short refl) small)
