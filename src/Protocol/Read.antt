-- ===== src/Protocol/Read.antt =====
-- `ReadMsg`, with the buffer that its caller hands in and keeps.
pub mod Buffer
pub mod Named
pub mod Kinds
pub mod RoundTrip
pub mod Special
pub mod Shorter
use gotalk.Common.{
  ℕ, ◌+◌, ◌-◌, Bool, true, false, not, ◌&&◌, ◌||◌, List, [], ◌∷◌, ◌++◌, Bytes, length, get_or, take,
  drop, replicate, slice, ltb, leb, ◌==◌, if◌then◌else◌, Result, ok, err, panic, ◌>>=◌, check,
  Option, none, some, Error, eof, timeout, failed,
}
use gotalk.Protocol.{
  Msg, msg_type_single_req, msg_type_stream_req, msg_type_retry_res, msg_type_notification,
  msg_type_heartbeat, msg_type_protocol_error,
}
use gotalk.Protocol.Fixnum.{parse_uint}
use gotalk.Protocol.Reader.{Reader, readn}

-- `readn(s, b[i:j])`: the buffer afterwards, the count, the error and the reader.
unfoldable pub fill : Bytes → ℕ → ℕ → Reader → Result (Bytes × ℕ × Option Error × Reader)
fill b i j s = check (leb i j && leb j (length b)) (
    let (got, e, s') = readn s (j - i) in
    ok (take i b ++ (got ++ drop (i + length got) b), length got, e, s'))

-- `if _, err = readn(s, b[i:j]); err != nil { return }`
unfoldable pub fill_all : Bytes → ℕ → ℕ → Reader → Result (Bytes × Reader)
fill_all b i j s = do
  (b', got, e, s') ← fill b i j s
  elim e [ some e' ↦ err e' | none ↦ ok (b', s') ]

unfoldable pub is_eof : Error → Bool
is_eof eof = true
is_eof _ = false

-- The test on the first 13 bytes: the end of the stream may come early in a protocol error.
unfoldable pub header_error : Option Error → ℕ → ℕ → Option Error
unfolding is_eof
header_error none readz t = none
header_error (some e) readz t =
    if is_eof e && (leb 9 readz && t == msg_type_protocol_error) then none else some e

unfoldable pub has_id : ℕ → Bool
has_id t = not (t == msg_type_notification) && not (t == msg_type_protocol_error)

unfoldable pub has_name : ℕ → Bool
has_name t = t == msg_type_single_req || (t == msg_type_stream_req || t == msg_type_notification)

-- The load of a heartbeat or the request id: `id`, `wait` and the next offset `z`.
unfoldable pub read_head : ℕ → Bytes → Result (Bytes × ℕ × ℕ)
read_head t b =
    if t == msg_type_heartbeat
    then (do n ← parse_uint (slice b 1 5) 16; ok ([], n, 5))
    else if has_id t
    then ok (slice b 1 5, 0, 5)
    else ok ([], 0, 1)

-- What `ReadMsg` has in hand behind its second part. `b` may have grown, and `caller` has not.
pub record Part : Type 0 where
  pub name : Bytes
  pub wait : ℕ
  pub z : ℕ
  pub b : Bytes
  pub caller : Bytes
  pub s : Reader

unfoldable pub grow : Bytes → ℕ → Bytes
grow b newz = if ltb (length b) newz then b ++ replicate (newz - length b) 0 else b

unfoldable pub read_name : Bytes → ℕ → ℕ → Reader → ℕ → Result Part
read_name b wait z0 s readz = do
  name3z ← parse_uint (slice b z0 (z0 + 3)) 16
  let z = z0 + 3
  let newz = z + name3z + 8
  (b', s') ← (if ltb readz newz then fill_all (grow b newz) readz newz s else ok (grow b newz, s))
  ok (record {
    name = slice b' z (z + name3z);
    wait = wait;
    z = z + name3z;
    b = b';
    caller = if ltb (length b) newz then b else b';
    s = s';
  })

unfoldable pub read_wait : Bytes → ℕ → Reader → Result Part
read_wait b z0 s = do
  n ← parse_uint (slice b z0 (z0 + 8)) 32
  let z = z0 + 8
  (b', s') ← fill_all b z (z + 8) s
  ok (record { name = []; wait = n; z = z; b = b'; caller = b'; s = s' })

unfoldable pub read_part : ℕ → Bytes → ℕ → ℕ → Reader → ℕ → Result Part
read_part t b wait z s readz =
    if has_name t
    then read_name b wait z s readz
    else if t == msg_type_retry_res
    then read_wait b z s
    else ok (record { name = []; wait = wait; z = z; b = b; caller = b; s = s })

-- Behind the first 13 bytes.
unfoldable pub read_fields : Bytes → ℕ → Reader → Result (Msg × Reader × Bytes)
read_fields b readz s = do
  let t = get_or b 0 0
  (id, wait, z) ← read_head t b
  p ← read_part t b wait z s readz
  size ← parse_uint (slice p.b p.z (p.z + 8)) 32
  ok (record { t = t; id = id; name = p.name; wait = p.wait; size = size }, p.s, p.caller)

-- The message, the reader behind it and the caller's buffer.
unfoldable pub read_msg : Reader → Bytes → Result (Msg × Reader × Bytes)
read_msg s b = do
  (b1, readz, e, s1) ← fill b 0 13 s
  elim (header_error e readz (get_or b1 0 0)) [ some e' ↦ err e' | none ↦ read_fields b1 readz s1 ]
