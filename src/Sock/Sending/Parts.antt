-- ===== src/Sock/Sending/Parts.antt =====
-- The messages of a streaming request, from its first buffer to its end.
use gotalk.Protocol.Reader.Exact.{IsQuiet, stream}
use gotalk.Protocol.Reader.{Reader}
use gotalk.Sock.Wire.Heard.{AreSendable, on_wire, Heard, on_wire-Heard}
use gotalk.Protocol.Read.RoundTrip.{plain, request}
use gotalk.Protocol.{msg_type_stream_req_part, Msg, msg_type_stream_req}
use gotalk.Protocol.Make.Fields.{wire}
use gotalk.Sock.Sending.{StreamRequest, write_request, end_request, write_part, or_finalize}
use gotalk.Sock.Wire.{IsWritable, pushed, write_msg-pushed, msg_of, written, written-pushed}
use gotalk.Sock.{Conn, Sock, write_msg}
use gotalk.Common.{
  Bytes, List, ◌∷◌, length, Result, ◌<◌, ◌≡◌, Option, true, ◌^◌, Error, [], ok, none, ◌>>=◌, some,
  inl, ap, false, refl, arith, inr, ◌++◌, ◌≤◌, sym, ◌∙◌, append_assoc, append-nil,
}

-- The buffers, written one after another.
unfoldable pub write_all :
    Conn → List Bytes → StreamRequest × Sock → Result (Option Error × StreamRequest × Sock)
write_all c [] (q, s) = ok (none, q, s)
write_all c (b ∷ bs) (q, s) = do
  (e, q', s') ← write_request c b q s
  elim e [ some e' ↦ ok (some e', q', s') | none ↦ write_all c bs (q', s') ]

-- All of a request: `Write` for each buffer, and `End`.
unfoldable pub send_stream :
    Conn → List Bytes → StreamRequest × Sock → Result (Option Error × StreamRequest × Sock)
send_stream c bs (q, s) = do
  (e, q', s') ← write_all c bs (q, s)
  elim e [ some e' ↦ ok (some e', q', s') | none ↦ end_request c q' s' ]

-- What is on the wire behind `writes`, the newest first: each buffer behind its message.
unfoldable pub part_writes : Bytes → List Bytes → List Bytes → List Bytes
part_writes id [] writes = writes
part_writes id (b ∷ bs) writes =
    part_writes id bs (pushed (wire msg_type_stream_req_part id [] 0 (length b)) b writes)

abbrev pub AreSmall : List Bytes → Type 0
AreSmall [] = Unit {0}
AreSmall (b ∷ bs) = (length b < 2 ^ 32) × AreSmall bs

module _ (c : Conn) (op id : Bytes) (writable : IsWritable c) (hid : length id ≡ 4) where
  abbrev going : StreamRequest
  going = record { op = op; id = id; started = true }

  part_sent :
      (b : Bytes) (s : Sock)
      → s.is_open ≡ true
      → length b < 2 ^ 32
      → write_msg c msg_type_stream_req_part id [] 0 b s
        ≡ ok (
          none,
          record s {
            writes = pushed (wire msg_type_stream_req_part id [] 0 (length b)) b s.writes;
          },
        )
  part_sent b s open_ small =
      write_msg-pushed c msg_type_stream_req_part id [] 0 b s writable open_
        (plain (inl refl) hid refl refl) small

  write_all-parts :
      (bs : List Bytes) (s : Sock)
      → s.is_open ≡ true
      → AreSmall bs
      → write_all c bs (going, s)
        ≡ ok (none, going, record s { writes = part_writes id bs s.writes })
  unfolding write_all part_writes
  write_all-parts [] s open_ small = refl
  write_all-parts (b ∷ bs) s open_ (small, rest) =
      let s' : Sock = record s {
        writes = pushed (wire msg_type_stream_req_part id [] 0 (length b)) b s.writes;
      } in
      let wrote : write_request c b going s ≡ ok (none, going, s') =
        unfold write_request write_part or_finalize in
        ap (λ m. m >>= (λ got. ok (or_finalize going got))) (part_sent b s open_ small) in
      rw wrote (write_all-parts bs s' open_ rest)

-- The messages that a streaming request sends, with their payloads.
abbrev pub part_msgs : Bytes → List Bytes → List (Msg × Bytes)
part_msgs id [] = (msg_of msg_type_stream_req_part id [] 0 [], []) ∷ []
part_msgs id (b ∷ bs) = (msg_of msg_type_stream_req_part id [] 0 b, b) ∷ part_msgs id bs

abbrev pub stream_msgs : Bytes → Bytes → Bytes → List Bytes → List (Msg × Bytes)
stream_msgs id op b bs = (msg_of msg_type_stream_req id op 0 b, b) ∷ part_msgs id bs

end_writes : Bytes → List Bytes → List Bytes → List Bytes
end_writes id bs writes =
    pushed (wire msg_type_stream_req_part id [] 0 0) [] (part_writes id bs writes)

written-end_writes :
    (id : Bytes) (bs writes : List Bytes)
    → written (end_writes id bs writes) ≡ written writes ++ on_wire (part_msgs id bs)
unfolding end_writes part_writes on_wire
written-end_writes id [] writes =
    written-pushed (wire msg_type_stream_req_part id [] 0 0) [] writes
    ∙ ap (λ (v : Bytes). written writes ++ v)
        (sym (append-nil (wire msg_type_stream_req_part id [] 0 0 ++ [])))
written-end_writes id (b ∷ bs) writes =
    written-end_writes id bs (pushed (wire msg_type_stream_req_part id [] 0 (length b)) b writes)
    ∙ simp (written-pushed, append_assoc)

part_msgs-AreSendable :
    (id : Bytes) (bs : List Bytes) → length id ≡ 4 → AreSmall bs → AreSendable (part_msgs id bs)
part_msgs-AreSendable id [] hid small = (plain (inl refl) hid refl refl, omega arith, refl, tt)
part_msgs-AreSendable id (b ∷ bs) hid (small, rest) =
    (plain (inl refl) hid refl refl, small, refl, part_msgs-AreSendable id bs hid rest)

module _ (c : Conn) (op id b : Bytes) (bs : List Bytes) (writable : IsWritable c)
    (hid : length id ≡ 4) (some_name : 0 < length op) (short : length op < 4096)
    (small : length b < 2 ^ 32) (parts_small : AreSmall bs) where
  abbrev asked : StreamRequest
  asked = record { op = op; id = id; started = false }

  send_stream-writes :
      (s : Sock)
      → s.is_open ≡ true
      → send_stream c (b ∷ bs) (asked, s)
        ≡ ok (
          none,
          record { op = op; id = id; started = true },
          record s {
            writes =
                end_writes id bs (pushed (wire msg_type_stream_req id op 0 (length b)) b s.writes);
          },
        )
  unfolding send_stream end_writes
  send_stream-writes s open_ =
      let s1 : Sock = record s {
        writes = pushed (wire msg_type_stream_req id op 0 (length b)) b s.writes;
      } in
      let s2 : Sock = record s1 { writes = part_writes id bs s1.writes } in
      let sending : StreamRequest = record { op = op; id = id; started = true } in
      let first : write_request c b asked s ≡ ok (none, sending, s1) =
        unfold write_request write_part or_finalize in
        ap (λ m. m >>= (λ got. ok (or_finalize sending got)))
          (write_msg-pushed c msg_type_stream_req id op 0 b s writable open_
            (request (inr refl) hid some_name short refl) small) in
      let ended : end_request c sending s2
          ≡ ok (
            none,
            sending,
            record s2 { writes = pushed (wire msg_type_stream_req_part id [] 0 0) [] s2.writes },
          ) =
        unfold end_request or_finalize in
        ap (λ m. m >>= (λ got. ok (or_finalize sending got)))
          (part_sent c op id writable hid [] s2 open_ (omega arith)) in
      let all : write_all c (b ∷ bs) (asked, s) ≡ ok (none, sending, s2) =
        unfold write_all in
        rw first (write_all-parts c op id writable hid bs s1 open_ parts_small) in
      rw all ended

  -- On an open connection that takes every write, for a streaming request that has not started,
  -- with a 4-byte id, an operation of 1 to 4095 bytes and at least one buffer, each of fewer than
  -- `2 ^ 32` bytes, a `Write` for each buffer and then `End` succeed, and write the request with
  -- the first buffer, a part for each further buffer and an empty part, in this order, behind what
  -- was written before; and from a stream with no read failure that starts with these bytes a peer
  -- with a buffer of at least 21 bytes reads exactly these messages and payloads with `ReadMsg` and
  -- `readn`, and has the rest left.
  pub send_stream-Heard :
      (s : Sock) (rest buf : Bytes) (r : Reader)
      → s.is_open ≡ true
      → IsQuiet r
      → stream r ≡ on_wire (stream_msgs id op b bs) ++ rest
      → 21 ≤ length buf
      → (q' : StreamRequest) × (s' : Sock) × (send_stream c (b ∷ bs) (asked, s) ≡ ok (none, q', s'))
        × (written s'.writes ≡ written s.writes ++ on_wire (stream_msgs id op b bs))
        × Heard r buf (stream_msgs id op b bs) rest
  send_stream-Heard s rest buf r open_ q es room = (
    _,
    _,
    send_stream-writes s open_,
    written-end_writes id bs (pushed (wire msg_type_stream_req id op 0 (length b)) b s.writes)
        ∙ (unfold on_wire in simp (written-pushed, append_assoc)),
    on_wire-Heard (stream_msgs id op b bs) r buf rest
        (
          request (inr refl) hid some_name short refl,
          small,
          refl,
          part_msgs-AreSendable id bs hid parts_small,
        )
        q es room,
  )
