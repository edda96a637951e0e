-- ===== src/Protocol/Read/Special.antt =====
-- `ReadMsg` on heartbeats, and on protocol errors, which are shorter than what it asks for first.
use gotalk.Common.{
  ℕ, ◌+◌, ◌^◌, ◌≤◌, ◌<◌, ◌≡◌, refl, sym, ap, ap₂, ◌∙◌, arith, false, inl, inr, [], ◌∷◌, ◌++◌, Bytes,
  length, get_or, take, drop, ltb, ok, Option, none, ◌>>=◌, eof, Error, some, length-append,
  length-take, append_assoc, take-append, take-append-drop, leb-eq_true, Bool-cases, ok-injective,
}
use native.Mathlib.Nat.{zero-add}
use gotalk.Protocol.{Msg, msg_type_heartbeat, msg_type_protocol_error}
use gotalk.Protocol.Fixnum.{parse_uint, hex_digits}
use gotalk.Protocol.Fixnum.Copy.{length-hex_digits}
use gotalk.Protocol.Fixnum.Parse.{parse_uint-hex_digits}
use gotalk.Protocol.Make.{make_msg, make_heartbeat_msg, name_size}
use gotalk.Protocol.Make.Fields.{wire, name_field, wait_field}
use gotalk.Protocol.Make.Wire.{make_msg-wire}
use gotalk.Protocol.Make.Heartbeat.{make_heartbeat_msg-wire}
use gotalk.Protocol.Reader.{Reader}
use gotalk.Protocol.Reader.Exact.{stream, IsQuiet, readn_short}
use gotalk.Protocol.Read.{
  fill, is_eof, read_head, read_part, read_fields, read_msg, has_id, has_name, header_error,
}
use gotalk.Protocol.Read.Kinds.{ReadsBack, read_msg-front, read_msg_short}

read_head-heartbeat :
    (load : ℕ) (tail : Bytes)
    → load < 2 ^ 16
    → read_head msg_type_heartbeat (msg_type_heartbeat ∷ (hex_digits 4 load ++ tail))
      ≡ ok ([], load, 5)
unfolding read_head
read_head-heartbeat load tail h =
    ap (λ d. parse_uint d 16 >>= λ n. ok ([], n, 5))
      (take-append 4 (hex_digits 4 load) tail (sym (length-hex_digits 4 load)))
    ∙ ap (λ r. r >>= λ n. ok ([], n, 5))
        (parse_uint-hex_digits 16 4 load (omega arith) (omega arith) h (omega arith))

heartbeat_unnamed : has_name msg_type_heartbeat ≡ false
unfolding has_name
heartbeat_unnamed = refl

-- From a stream with no read failure that starts with what `MakeHeartbeatMsg` made of a load of 16
-- bits and a time of 32 bits in a buffer of at least 13 bytes, `ReadMsg` gives a heartbeat with
-- that load as its wait and that time as its size, and leaves the stream exactly behind it.
pub read_msg-make_heartbeat_msg :
    (load now : ℕ) (buf : Bytes) (s : Reader) (b w rest : Bytes)
    → 13 ≤ length buf
    → load < 2 ^ 16
    → now < 2 ^ 32
    → make_heartbeat_msg load now buf ≡ ok w
    → IsQuiet s
    → stream s ≡ w ++ rest
    → 13 ≤ length b
    → ReadsBack
        (record { t = msg_type_heartbeat; id = []; name = []; wait = load; size = now })
        s
        b
        rest
read_msg-make_heartbeat_msg load now buf s b w rest hbuf hload hnow e q es room =
    read_msg_short s b msg_type_heartbeat (hex_digits 4 load) [] rest load now q
      (es
        ∙ ap (λ v. v ++ rest)
            (ok-injective (sym e ∙ make_heartbeat_msg-wire load now buf hbuf hload hnow)))
      room (length-hex_digits 4 load) hnow heartbeat_unnamed refl
      (λ tail. read_head-heartbeat load tail hload)

protocol_error_tests :
    (has_name msg_type_protocol_error ≡ false) × (has_id msg_type_protocol_error ≡ false)
unfolding has_name has_id
protocol_error_tests = (refl, refl)

abbrev pub error_msg : ℕ → Msg
error_msg code = record { t = msg_type_protocol_error; id = []; name = []; wait = 0; size = code }

read_fields-protocol_error :
    (code readz : ℕ) (junk : Bytes) (s : Reader)
    → code < 2 ^ 32
    → read_fields (msg_type_protocol_error ∷ (hex_digits 8 code ++ junk)) readz s
      ≡ ok (error_msg code, s, msg_type_protocol_error ∷ (hex_digits 8 code ++ junk))
unfolding read_fields read_part read_head
read_fields-protocol_error code readz junk s h =
    let (unnamed, no_id) = protocol_error_tests in
    let digits : take 8 (hex_digits 8 code ++ junk) ≡ hex_digits 8 code =
      take-append 8 (hex_digits 8 code) junk (sym (length-hex_digits 8 code)) in
    rw (
      unnamed,
      no_id,
      digits,
      parse_uint-hex_digits 32 8 code (omega arith) (omega arith) h (omega arith),
    )

wire-protocol_error :
    (code : ℕ)
    → wire msg_type_protocol_error [] [] 0 code ≡ msg_type_protocol_error ∷ hex_digits 8 code
unfolding wire wait_field name_field name_size
wire-protocol_error code = refl

fill_short :
    (b : Bytes) (s : Reader)
    → IsQuiet s
    → length (stream s) < 13
    → 13 ≤ length b
    → fill b 0 13 s ≡ ok (stream s ++ drop (length (stream s)) b, length (stream s), some eof, [])
unfolding fill
fill_short b s q h room =
    rw (leb-eq_true 13 (length b) room, readn_short s 13 q h, zero-add (length (stream s)))

header_error_eof : (n : ℕ) → 9 ≤ n → header_error (some eof) n msg_type_protocol_error ≡ none
unfolding header_error is_eof
header_error_eof n h = rw (leb-eq_true 9 n h)

abbrev error_wire : ℕ → Bytes
error_wire code = msg_type_protocol_error ∷ hex_digits 8 code

empty_name : name_size msg_type_protocol_error [] < 4096
unfolding name_size
empty_name = omega arith

read_msg_filled :
    (s s1 : Reader) (b b1 : Bytes) (n : ℕ) (e : Option Error)
    → fill b 0 13 s ≡ ok (b1, n, e, s1)
    → header_error e n (get_or b1 0 0) ≡ none
    → read_msg s b ≡ read_fields b1 n s1
unfolding read_msg
read_msg_filled s s1 b b1 n e f h = rw (f, ◌>>=◌) (rw h)

-- The two ways that the first read can end.
read_msg-error_more :
    (code : ℕ) (s : Reader) (b rest : Bytes)
    → code < 2 ^ 32
    → IsQuiet s
    → stream s ≡ error_wire code ++ rest
    → 4 ≤ length rest
    → 13 ≤ length b
    → (s' : Reader) × (b' : Bytes) × (read_msg s b ≡ ok (error_msg code, s', b'))
read_msg-error_more code s b rest h q es more room =
    let front : Bytes = error_wire code ++ take 4 rest in
    let len : length front ≡ 13 = omega (
      arith,
      length-append (error_wire code) (take 4 rest),
      length-hex_digits 8 code,
      length-take 4 rest,
    ) in
    let cut : error_wire code ++ rest ≡ front ++ drop 4 rest =
      ap (◌++◌ (error_wire code)) (sym (take-append-drop 4 rest))
      ∙ sym (append_assoc (error_wire code) (take 4 rest) (drop 4 rest)) in
    let (s1, r1, e1, q1) = read_msg-front s b front (drop 4 rest) q (es ∙ cut) len room in
    (
      s1,
      error_wire code ++ (take 4 rest ++ drop 13 b),
      r1
          ∙ ap (λ buf. read_fields buf 13 s1)
              (append_assoc (error_wire code) (take 4 rest) (drop 13 b))
          ∙ read_fields-protocol_error code 13 (take 4 rest ++ drop 13 b) s1 h,
    )

read_msg-error_end :
    (code : ℕ) (s : Reader) (b rest : Bytes)
    → code < 2 ^ 32
    → IsQuiet s
    → stream s ≡ error_wire code ++ rest
    → length rest < 4
    → 13 ≤ length b
    → (s' : Reader) × (b' : Bytes) × (read_msg s b ≡ ok (error_msg code, s', b'))
read_msg-error_end code s b rest h q es few room =
    let len : length (stream s) ≡ 9 + length rest =
      omega (arith, ap length es, length-append (error_wire code) rest, length-hex_digits 8 code) in
    let junk : Bytes = rest ++ drop (9 + length rest) b in
    let buf : stream s ++ drop (length (stream s)) b ≡ error_wire code ++ junk =
      ap₂ (λ (a : Bytes) n. a ++ drop n b) es len
      ∙ append_assoc (error_wire code) rest (drop (9 + length rest) b) in
    (
      [],
      error_wire code ++ junk,
      read_msg_filled s [] b (error_wire code ++ junk) (9 + length rest) (some eof)
            (fill_short b s q (omega (arith, len)) room
              ∙ ap₂ (λ (buf : Bytes) n. ok (buf, n, some eof, [])) buf len)
            (header_error_eof (9 + length rest) (omega arith))
          ∙ read_fields-protocol_error code (9 + length rest) junk [] h,
    )

-- From a stream with no read failure that starts with the protocol error that `MakeMsg` made for a
-- code of 32 bits, `ReadMsg` into a buffer of at least 13 bytes gives that code, whether the stream
-- ends behind the 9 bytes or goes on.
pub read_msg-protocol_error :
    (code : ℕ) (s : Reader) (b w rest : Bytes)
    → code < 2 ^ 32
    → make_msg msg_type_protocol_error [] [] 0 code ≡ ok w
    → IsQuiet s
    → stream s ≡ w ++ rest
    → 13 ≤ length b
    → (s' : Reader) × (b' : Bytes) × (read_msg s b ≡ ok (error_msg code, s', b'))
read_msg-protocol_error code s b w rest h e q es room =
    let same : stream s ≡ error_wire code ++ rest =
      es
      ∙ ap (λ v. v ++ rest)
          (ok-injective (
              sym e
              ∙ make_msg-wire msg_type_protocol_error [] [] 0 code (inl refl) empty_name
                  (omega arith) h)
            ∙ wire-protocol_error code) in
    elim (Bool-cases (ltb (length rest) 4)) [
      | inl few ↦ read_msg-error_end code s b rest h q same (ground arith) room
      | inr more ↦ read_msg-error_more code s b rest h q same (ground arith) room
    ]
