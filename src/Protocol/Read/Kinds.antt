-- ===== src/Protocol/Read/Kinds.antt =====
-- `ReadMsg` on each kind of message, whatever follows it and however the bytes arrive.
use gotalk.Common.{
  ℕ, suc, ◌-◌, ◌^◌, ◌≤◌, ◌<◌, ◌≡◌, refl, sym, ap, ◌∙◌, arith, true, false, [], ◌∷◌, ◌++◌, Bytes,
  length, take, drop, slice, ◌==◌, ok, length-append, length-take, length-drop, append_assoc,
  take-append, take-append-drop,
}
use gotalk.Protocol.{Msg, msg_type_heartbeat, msg_type_retry_res}
use gotalk.Protocol.Fixnum.{parse_uint, hex_digits}
use gotalk.Protocol.Fixnum.Copy.{length-hex_digits}
use gotalk.Protocol.Fixnum.Parse.{parse_uint-hex_digits}
use gotalk.Protocol.Reader.{Reader}
use gotalk.Protocol.Reader.Exact.{stream, IsQuiet}
use gotalk.Protocol.Read.{
  fill_all, read_head, read_wait, read_part, read_fields, read_msg, has_id, has_name, header_error,
}
use gotalk.Protocol.Read.Buffer.{slice-append, fill-exact}
use gotalk.Protocol.Read.Named.{before, read_fields-named}

-- The reader gives `m` and has `rest` left; the caller's buffer keeps its size.
abbrev pub ReadsBack : Msg → Reader → Bytes → Bytes → Type 0
ReadsBack m s b rest =
    (s' : Reader) × (b' : Bytes) × (read_msg s b ≡ ok (m, s', b'))
    × (stream s' ≡ rest)
    × IsQuiet s'
    × (length b' ≡ length b)

-- The first 13 bytes.
pub read_msg-front :
    (s : Reader) (b front tail : Bytes)
    → IsQuiet s
    → stream s ≡ front ++ tail
    → length front ≡ 13
    → 13 ≤ length b
    → (s1 : Reader) × (read_msg s b ≡ read_fields (front ++ drop 13 b) 13 s1)
      × (stream s1 ≡ tail)
      × IsQuiet s1
unfolding read_msg header_error
read_msg-front s b front tail q e hf room =
    let (s1, r, back, q1) =
      fill-exact s [] front b tail 0 13 q e refl (omega (arith, hf)) (omega (arith, hf)) in
    (s1, rw (r, hf), back, q1)

pub read_head-id :
    (t : ℕ) (id tail : Bytes)
    → (t == msg_type_heartbeat) ≡ false
    → has_id t ≡ true
    → length id ≡ 4
    → read_head t (t ∷ (id ++ tail)) ≡ ok (id, 0, 5)
unfolding read_head
read_head-id t id tail heart with_id len =
    rw (heart, with_id) (ap (λ i. ok (i, 0, 5)) (take-append 4 id tail (sym len)))

pub read_head-no_id :
    (t : ℕ) (b : Bytes)
    → (t == msg_type_heartbeat) ≡ false
    → has_id t ≡ false
    → read_head t b ≡ ok ([], 0, 1)
unfolding read_head
read_head-no_id t b heart no_id = rw (heart, no_id)

regroup_front :
    (pre h3 x y both rest : Bytes)
    → x ++ y ≡ both
    → (pre ++ (h3 ++ both)) ++ rest ≡ (pre ++ (h3 ++ x)) ++ (y ++ rest)
regroup_front pre h3 x y both rest e =
    ap (λ m. (pre ++ (h3 ++ m)) ++ rest) (sym e) ∙ simp append_assoc

regroup_junk : (pre h3 x junk : Bytes) → (pre ++ (h3 ++ x)) ++ junk ≡ pre ++ (h3 ++ (x ++ junk))
regroup_junk pre h3 x junk = simp append_assoc

-- Messages with a name.
pub read_msg-named :
    (s : Reader) (b : Bytes) (t : ℕ) (id name rest : Bytes) (size : ℕ)
    → IsQuiet s
    → stream s ≡ ((t ∷ id) ++ (hex_digits 3 (length name) ++ (name ++ hex_digits 8 size))) ++ rest
    → 13 ≤ length b
    → length id ≤ 4
    → 0 < length name
    → length name < 4096
    → size < 2 ^ 32
    → has_name t ≡ true
    → ((tail : Bytes) → read_head t (t ∷ (id ++ tail)) ≡ ok (id, 0, suc (length id)))
    → ReadsBack (record { t = t; id = id; name = name; wait = 0; size = size }) s b rest
read_msg-named s b t id name rest size q e room hid some_name short hsize named head =
    let h3 = hex_digits 3 (length name) in
    let both : Bytes = name ++ hex_digits 8 size in
    let k = 9 - length id in
    let x : Bytes = take k both in
    let y : Bytes = drop k both in
    let front : Bytes = (t ∷ id) ++ (h3 ++ x) in
    let lenx : length x ≡ k = omega (
      arith,
      length-take k both,
      length-append name (hex_digits 8 size),
      length-hex_digits 8 size,
    ) in
    let len : length front ≡ 13 = omega (
      arith,
      lenx,
      length-append (t ∷ id) (h3 ++ x),
      length-append h3 x,
      length-hex_digits 3 (length name),
    ) in
    let (s1, r1, e1, q1) =
      read_msg-front s b front (y ++ rest) q
        (e ∙ regroup_front (t ∷ id) h3 x y both rest (take-append-drop k both)) len room in
    let (s', b', r, back, q', same) =
      read_fields-named s1 t id name x y (drop 13 b) rest size q1 e1 (take-append-drop k both)
        (omega (arith, lenx)) short hsize named (head (h3 ++ (x ++ drop 13 b))) in
    let junk : Bytes = drop 13 b in
    let joined : front ++ junk ≡ before (t ∷ id) name x junk = regroup_junk (t ∷ id) h3 x junk in
    (
      s',
      b',
      r1 ∙ ap (λ buf. read_fields buf 13 s1) joined ∙ r,
      back,
      q',
      omega (arith, same, ap length joined, length-append front junk, length-drop 13 b, len),
    )

-- Messages of exactly 13 bytes: a head and the size.
pub read_msg_short :
    (s : Reader) (b : Bytes) (t : ℕ) (head id rest : Bytes) (wait size : ℕ)
    → IsQuiet s
    → stream s ≡ ((t ∷ head) ++ hex_digits 8 size) ++ rest
    → 13 ≤ length b
    → length head ≡ 4
    → size < 2 ^ 32
    → has_name t ≡ false
    → (t == msg_type_retry_res) ≡ false
    → ((tail : Bytes) → read_head t (t ∷ (head ++ tail)) ≡ ok (id, wait, 5))
    → ReadsBack (record { t = t; id = id; name = []; wait = wait; size = size }) s b rest
unfolding read_fields read_part
read_msg_short s b t head id rest wait size q e room hlen hsize unnamed other read =
    let h8 = hex_digits 8 size in
    let junk : Bytes = drop 13 b in
    let front : Bytes = (t ∷ head) ++ h8 in
    let len : length front ≡ 13 =
      omega (arith, hlen, length-append (t ∷ head) h8, length-hex_digits 8 size) in
    let (s1, r1, e1, q1) = read_msg-front s b front rest q e len room in
    let size_at : parse_uint (slice (front ++ junk) 5 13) 32 ≡ ok size =
      ap (λ buf. parse_uint (slice buf 5 13) 32) (append_assoc (t ∷ head) h8 junk)
      ∙ ap (λ d. parse_uint d 32)
          (slice-append (t ∷ head) h8 junk 5 13 (omega (arith, hlen))
            (omega (arith, hlen, length-hex_digits 8 size)))
      ∙ parse_uint-hex_digits 32 8 size (omega arith) (omega arith) hsize (omega arith) in
    let head_at : read_head t (front ++ junk) ≡ ok (id, wait, 5) =
      ap (read_head t) (append_assoc (t ∷ head) h8 junk) ∙ read (h8 ++ junk) in
    (
      s1,
      front ++ junk,
      r1 ∙ rw (head_at, unnamed, other, size_at),
      e1,
      q1,
      omega (arith, len, length-append front junk, length-drop 13 b),
    )

retry_has_id : has_id msg_type_retry_res ≡ true
unfolding has_id
retry_has_id = refl

-- A retry result has eight bytes more.
pub read_msg_retry :
    (s : Reader) (b id rest : Bytes) (wait size : ℕ)
    → IsQuiet s
    → stream s ≡ (((msg_type_retry_res ∷ id) ++ hex_digits 8 wait) ++ hex_digits 8 size) ++ rest
    → 21 ≤ length b
    → length id ≡ 4
    → wait < 2 ^ 32
    → size < 2 ^ 32
    → ReadsBack
        (record { t = msg_type_retry_res; id = id; name = []; wait = wait; size = size })
        s
        b
        rest
unfolding read_fields read_part read_wait fill_all has_name
read_msg_retry s b id rest wait size q e room hlen hwait hsize =
    let hw = hex_digits 8 wait in
    let h8 = hex_digits 8 size in
    let junk : Bytes = drop 13 b in
    let pre : Bytes = msg_type_retry_res ∷ id in
    let front : Bytes = pre ++ hw in
    let len : length front ≡ 13 =
      omega (arith, hlen, length-append pre hw, length-hex_digits 8 wait) in
    let (s1, r1, e1, q1) =
      read_msg-front s b front (h8 ++ rest) q (e ∙ append_assoc front h8 rest) len (omega arith) in
    let (s2, r2, e2, q2) =
      fill-exact s1 front h8 junk rest 13 21 q1 e1 (sym len)
        (omega (arith, len, length-hex_digits 8 size))
        (omega (arith, length-drop 13 b, length-hex_digits 8 size)) in
    let j : Bytes = drop (length h8) junk in
    let head_at : read_head msg_type_retry_res (front ++ junk) ≡ ok (id, 0, 5) =
      ap (read_head msg_type_retry_res) (append_assoc pre hw junk)
      ∙ read_head-id msg_type_retry_res id (hw ++ junk) refl retry_has_id hlen in
    let wait_at : parse_uint (slice (front ++ junk) 5 13) 32 ≡ ok wait =
      ap (λ buf. parse_uint (slice buf 5 13) 32) (append_assoc pre hw junk)
      ∙ ap (λ d. parse_uint d 32)
          (slice-append pre hw junk 5 13 (omega (arith, hlen))
            (omega (arith, hlen, length-hex_digits 8 wait)))
      ∙ parse_uint-hex_digits 32 8 wait (omega arith) (omega arith) hwait (omega arith) in
    let size_at : parse_uint (slice (front ++ (h8 ++ j)) 13 21) 32 ≡ ok size =
      ap (λ d. parse_uint d 32)
        (slice-append front h8 j 13 21 (sym len) (omega (arith, len, length-hex_digits 8 size)))
      ∙ parse_uint-hex_digits 32 8 size (omega arith) (omega arith) hsize (omega arith) in
    (
      s2,
      front ++ (h8 ++ j),
      r1 ∙ rw (head_at, wait_at, r2, size_at),
      e2,
      q2,
      omega (
        arith,
        len,
        length-append front (h8 ++ j),
        length-append h8 j,
        length-drop (length h8) junk,
        length-drop 13 b,
        length-hex_digits 8 size,
      ),
    )
