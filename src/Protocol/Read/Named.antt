-- ===== src/Protocol/Read/Named.antt =====
-- `ReadMsg` on the messages with a name: requests and notifications.
use gotalk.Common.{
  ℕ, suc, ◌+◌, ◌-◌, ◌^◌, ◌≤◌, ◌<◌, ◌≡◌, refl, sym, ap, ◌∙◌, arith, true, inl, inr, [], ◌∷◌, ◌++◌,
  Bytes, length, drop, replicate, slice, ltb, if◌then◌else◌, ok, length-append, length-drop,
  length-replicate, append_assoc, append-nil, ltb-eq_true, Bool-cases, ltb-false_le,
}
use gotalk.Protocol.Fixnum.{parse_uint, hex_digits}
use gotalk.Protocol.Fixnum.Copy.{length-hex_digits}
use gotalk.Protocol.Fixnum.Parse.{parse_uint-hex_digits}
use gotalk.Protocol.Reader.{Reader}
use gotalk.Protocol.Reader.Exact.{stream, IsQuiet}
use gotalk.Protocol.Read.{fill_all, grow, read_name, read_head, read_part, read_fields, has_name}
use gotalk.Protocol.Read.Buffer.{slice-append, fill-exact}

-- Growing adds zeros behind the buffer, or nothing.
grow-append : (b : Bytes) (n : ℕ) → grow b n ≡ b ++ replicate (n - length b) 0
unfolding grow
grow-append b n = elim (Bool-cases (ltb (length b) n)) [
  | inl short ↦ rw short
  | inr room ↦
      rw room (
        sym (append-nil b) ∙ ap (λ k. b ++ replicate k 0) {x = 0} {y = n - length b} (ground arith))
]

-- The rest of a named message arrives behind its first 13 bytes, if any is missing.
fill_rest :
    (s : Reader) (pre y junk rest : Bytes)
    → IsQuiet s
    → stream s ≡ y ++ rest
    → length pre ≡ 13
    → length y ≤ length junk
    → (s' : Reader) × ((if ltb 13 (13 + length y)
          then fill_all (pre ++ junk) 13 (13 + length y) s
          else ok (pre ++ junk, s))
        ≡ ok (pre ++ (y ++ drop (length y) junk), s'))
      × (stream s' ≡ rest)
      × IsQuiet s'
unfolding fill_all
fill_rest s pre [] junk rest q e hp room = (s, ground arith, e, q)
fill_rest s pre (c ∷ y) junk rest q e hp room =
    let (s', r, back, q') =
      fill-exact s pre (c ∷ y) junk rest 13 (13 + length (c ∷ y)) q e (sym hp) (omega (arith, hp))
        room in
    (s', rw (ltb-eq_true 13 (13 + suc (length y)) (omega arith), r), back, q')

-- The buffer behind the first read and behind the second: `x` is what the first read takes of the
-- name and the size, and `j` what an earlier use of the buffer left.
abbrev pub before : Bytes → Bytes → Bytes → Bytes → Bytes
before pre name x junk = pre ++ (hex_digits 3 (length name) ++ (x ++ junk))

abbrev after : Bytes → Bytes → Bytes → Bytes → Bytes
after pre name h8 j = pre ++ (hex_digits 3 (length name) ++ (name ++ (h8 ++ j)))

regroup :
    (pre h3 name h8 x y j : Bytes)
    → x ++ y ≡ name ++ h8
    → (pre ++ (h3 ++ x)) ++ (y ++ j) ≡ pre ++ (h3 ++ (name ++ (h8 ++ j)))
regroup pre h3 name h8 x y j cut =
    append_assoc pre (h3 ++ x) (y ++ j)
    ∙ ap (◌++◌ pre) (
        append_assoc h3 x (y ++ j)
        ∙ ap (◌++◌ h3) (sym (append_assoc x y j) ∙ ap (λ t. t ++ j) cut ∙ append_assoc name h8 j))

regroup_before :
    (pre h3 x junk zs : Bytes)
    → (pre ++ (h3 ++ (x ++ junk))) ++ zs ≡ (pre ++ (h3 ++ x)) ++ (junk ++ zs)
regroup_before pre h3 x junk zs = simp append_assoc

parse_name_size :
    (pre name tail : Bytes) (z0 : ℕ)
    → length pre ≡ z0
    → length name < 4096
    → parse_uint (slice (pre ++ (hex_digits 3 (length name) ++ tail)) z0 (z0 + 3)) 16
      ≡ ok (length name)
parse_name_size pre name tail z0 hpre h =
    ap (λ t. parse_uint t 16)
      (slice-append pre (hex_digits 3 (length name)) tail z0 (z0 + 3) (sym hpre)
        (omega (arith, length-hex_digits 3 (length name))))
    ∙ parse_uint-hex_digits 16 3 (length name) (omega arith) (omega arith) (omega arith)
        (omega arith)

name_slice :
    (pre name tail : Bytes) (z0 : ℕ)
    → length pre ≡ z0
    → slice (pre ++ (hex_digits 3 (length name) ++ (name ++ tail))) (z0 + 3) (z0 + 3 + length name)
      ≡ name
name_slice pre name tail z0 hpre =
    let h3 = hex_digits 3 (length name) in
    let len : length (pre ++ h3) ≡ z0 + 3 =
      omega (arith, hpre, length-append pre h3, length-hex_digits 3 (length name)) in
    ap (λ t. slice t (z0 + 3) (z0 + 3 + length name)) (sym (append_assoc pre h3 (name ++ tail)))
    ∙ slice-append (pre ++ h3) name tail (z0 + 3) (z0 + 3 + length name) (sym len)
        (omega (arith, len))

parse_size :
    (pre name j : Bytes) (size z0 : ℕ)
    → length pre ≡ z0
    → size < 2 ^ 32
    → parse_uint
        (slice
          (after pre name (hex_digits 8 size) j)
          (z0 + 3 + length name)
          (z0 + 3 + length name + 8))
        32
      ≡ ok size
parse_size pre name j size z0 hpre h =
    let h3 = hex_digits 3 (length name) in
    let h8 = hex_digits 8 size in
    let front : Bytes = pre ++ (h3 ++ name) in
    let len : length front ≡ z0 + 3 + length name = omega (
      arith,
      hpre,
      length-append pre (h3 ++ name),
      length-append h3 name,
      length-hex_digits 3 (length name),
    ) in
    let same : pre ++ (h3 ++ (name ++ (h8 ++ j))) ≡ front ++ (h8 ++ j) = simp append_assoc in
    ap (λ b. parse_uint (slice b (z0 + 3 + length name) (z0 + 3 + length name + 8)) 32) same
    ∙ ap (λ b. parse_uint b 32)
        (slice-append front h8 j (z0 + 3 + length name) (z0 + 3 + length name + 8) (sym len)
          (omega (arith, len, length-hex_digits 8 size)))
    ∙ parse_uint-hex_digits 32 8 size (omega arith) (omega arith) h (omega arith)

length-caller :
    (b b' : Bytes) (n : ℕ)
    → length b' ≡ length b + (n - length b)
    → length (if ltb (length b) n then b else b') ≡ length b
length-caller b b' n h = elim (Bool-cases (ltb (length b) n)) [
  | inl short ↦ rw short
  | inr room ↦ rw room (omega (arith, h, ltb-false_le (length b) n room))
]

-- The name and what follows, from the buffer behind the first read.
read_name-exact :
    (s : Reader) (pre name h8 x y junk rest : Bytes) (wait z0 : ℕ)
    → IsQuiet s
    → stream s ≡ y ++ rest
    → length pre ≡ z0
    → x ++ y ≡ name ++ h8
    → length h8 ≡ 8
    → z0 + 3 + length x ≡ 13
    → length name < 4096
    → (s' : Reader) × (j : Bytes) × (caller : Bytes) × (read_name
          (before pre name x junk)
          wait
          z0
          s
          13
        ≡ ok (record {
          name = name;
          wait = wait;
          z = z0 + 3 + length name;
          b = after pre name h8 j;
          caller = caller;
          s = s';
        }))
      × (stream s' ≡ rest)
      × IsQuiet s'
      × (length caller ≡ length (before pre name x junk))
unfolding read_name
read_name-exact s pre name h8 x y junk rest wait z0 q e hpre cut len8 first short =
    let h3 = hex_digits 3 (length name) in
    let b0 = before pre name x junk in
    let pre13 : Bytes = pre ++ (h3 ++ x) in
    let newz : z0 + 3 + length name + 8 ≡ 13 + length y =
      omega (arith, ap length cut, length-append x y, length-append name h8) in
    let zs : Bytes = replicate (13 + length y - length b0) 0 in
    let len13 : length pre13 ≡ 13 =
      omega (
        arith,
        length-append pre (h3 ++ x),
        length-append h3 x,
        length-hex_digits 3 (length name),
      ) in
    let len0 : length b0 ≡ 13 + length junk = omega (
      arith,
      length-append pre (h3 ++ (x ++ junk)),
      length-append h3 (x ++ junk),
      length-append x junk,
      length-hex_digits 3 (length name),
    ) in
    let room : length y ≤ length (junk ++ zs) = omega (
      arith,
      len0,
      length-append junk zs,
      length-replicate {A = ℕ} (13 + length y - length b0) 0,
    ) in
    let (s', r, back, q') = fill_rest s pre13 y (junk ++ zs) rest q e len13 room in
    let j = drop (length y) (junk ++ zs) in
    let caller : Bytes = if ltb (length b0) (13 + length y) then b0 else after pre name h8 j in
    (
      s',
      j,
      caller,
      rw (
        parse_name_size pre name (x ++ junk) z0 hpre short,
        newz,
        grow-append b0 (13 + length y),
        regroup_before pre h3 x junk zs,
        r,
        regroup pre h3 name h8 x y j cut,
        name_slice pre name (h8 ++ j) z0 hpre,
      ),
      back,
      q',
      length-caller b0 (after pre name h8 j) (13 + length y) (
          omega (
            arith,
            ap length (regroup pre h3 name h8 x y j cut),
            length-append pre13 (y ++ j),
            length-append y j,
            length-drop (length y) (junk ++ zs),
            length-append junk zs,
            length-replicate {A = ℕ} (13 + length y - length b0) 0,
            len13,
            len0,
            room,
          )),
    )

-- A request (`id` of four bytes) or a notification (none).
pub read_fields-named :
    (s : Reader) (t : ℕ) (id name x y junk rest : Bytes) (size : ℕ)
    → IsQuiet s
    → stream s ≡ y ++ rest
    → x ++ y ≡ name ++ hex_digits 8 size
    → suc (length id) + 3 + length x ≡ 13
    → length name < 4096
    → size < 2 ^ 32
    → has_name t ≡ true
    → read_head t (before (t ∷ id) name x junk) ≡ ok (id, 0, suc (length id))
    → (s' : Reader) × (caller : Bytes) × (read_fields (before (t ∷ id) name x junk) 13 s
        ≡ ok (record { t = t; id = id; name = name; wait = 0; size = size }, s', caller))
      × (stream s' ≡ rest)
      × IsQuiet s'
      × (length caller ≡ length (before (t ∷ id) name x junk))
unfolding read_fields read_part
read_fields-named s t id name x y junk rest size q e cut first short hsize named head =
    let h8 = hex_digits 8 size in
    let pre : Bytes = t ∷ id in
    let z0 : ℕ = suc (length id) in
    let (s', j, caller, r, back, q', same) =
      read_name-exact s pre name h8 x y junk rest 0 z0 q e refl cut (length-hex_digits 8 size) first
        short in
    (s', caller, rw (head, named, r, parse_size pre name j size z0 refl hsize), back, q', same)
