-- ===== src/Sock/Setup/Handshaking.antt =====
-- `Handshake` succeeds with a peer of the same version, and closes the socket for any other.
use gotalk.Sock.Closing.{close_first}
use gotalk.Protocol.Reader.Exact.{IsQuiet, stream}
use gotalk.Protocol.{protocol_version}
use gotalk.Sock.Setup.{handshake, handshake_read, is_closed, handshake_failed, handshake_written}
use gotalk.Sock.Wire.{IsWritable}
use gotalk.Common.{
  Error, ℕ, Bytes, IsSafe, Bool, ◌∷◌, Result, if◌then◌else◌, ◌>>=◌, IsSafe->>=, err, ok, Option,
  syntax, unsupported_version, range, some, ◌==◌, ◌≡◌, take, true, replicate, ◌≢◌, ◌++◌, [], drop,
  none, ◌⊎◌, ◌+◌, ap, inl, length, inr, not, panic, refl, ◌∙◌, false, leb, ◌^◌, ◌||◌, ◌*◌,
}
use gotalk.Protocol.Reader.{Reader, readn}
use gotalk.Protocol.Read.{fill_all, fill}
use gotalk.Sock.{Conn, Sock, write}
use gotalk.Protocol.Version.{
  check_version, read_version, protocol_version_buf, read_version-only, read_version-write,
}
use gotalk.Protocol.Fixnum.{parse_loop, parse_uint, digit_value}

parse_loop-IsSafe : (bits : ℕ) (s : Bytes) (n : ℕ) → IsSafe (parse_loop bits s n)
unfolding parse_loop
parse_loop-IsSafe bits [] n = tt
parse_loop-IsSafe bits (c ∷ s) n =
    tests (leb 16 (digit_value c)) (leb (2 ^ 60) n || leb (2 ^ bits) (n * 16 + digit_value c))
      (parse_loop bits s (n * 16 + digit_value c))
      (parse_loop-IsSafe bits s (n * 16 + digit_value c))
  where
    tests :
        (b d : Bool) (m : Result ℕ)
        → IsSafe m
        → IsSafe (if b then err syntax else if d then err range else m)
    tests true d m h = tt
    tests false true m h = tt
    tests false false m h = h

check_version-IsSafe : (r : Reader) (n : ℕ) → IsSafe (check_version r n)
unfolding check_version
check_version-IsSafe r n = tested (n == protocol_version)
  where
    tested : (b : Bool) → IsSafe {A = ℕ × Reader} (if b then ok (n, r) else err unsupported_version)
    tested true = tt
    tested false = tt

read_version-IsSafe : (r : Reader) → IsSafe (read_version r)
unfolding read_version fill_all fill
read_version-IsSafe r = filled (readn r 2)
  where
    after_fill : Result (Bytes × Reader) → Result (ℕ × Reader)
    after_fill m = m >>= λ x. (parse_uint x.0 8 >>= check_version x.1)

    checked : (b : Bytes) (r' : Reader) → IsSafe (parse_uint b 8 >>= check_version r')
    checked [] r' = unfold parse_uint in tt
    checked (x ∷ b) r' =
        unfold parse_uint in
        IsSafe->>= (parse_loop 8 (x ∷ b) 0) (check_version r') (parse_loop-IsSafe 8 (x ∷ b) 0)
          (check_version-IsSafe r')

    filled :
        (g : Bytes × Option Error × Reader)
        → IsSafe (
            after_fill (elim g.1 [
              | some e' ↦ err e'
              | none ↦
                  ok (take 0 (replicate 2 0) ++ (g.0 ++ drop (0 + length g.0) (replicate 2 0)), g.2)
            ]))
    filled (b, some e, r') = tt
    filled (b, none, r') =
        checked (take 0 (replicate 2 0) ++ (b ++ drop (0 + length b) (replicate 2 0))) r'

module _ (c : Conn) (text : Error → Bytes) (has_room : ℕ → Bool) (writable : IsWritable c) where
  handshake-starts :
      (r : Reader) (s : Sock) (v : Bytes)
      → protocol_version_buf ≡ ok v
      → s.is_open ≡ true
      → handshake c text has_room r s
        ≡ handshake_read c text has_room r (record s { writes = v ∷ s.writes }) (read_version r)
  unfolding handshake handshake_written write
  handshake-starts r s v e open_ =
      ap
        (λ m. m >>= (λ version.
          if not s.is_open then panic else handshake_written c text has_room r (write c version s)))
        e
      ∙ ap (λ b. if not b then panic else handshake_written c text has_room r (write c v s)) open_
      ∙ ap (λ w. handshake_written c text has_room r (w, record s { writes = v ∷ s.writes }))
          (writable s.writes v)

  -- On an open connection that takes every write, and from a stream with no read failure that
  -- starts with what `WriteVersion` writes, `Handshake` succeeds, writes this version, changes
  -- nothing else of the socket and leaves the rest of the stream.
  pub handshake-agrees :
      (r : Reader) (s : Sock) (v rest : Bytes)
      → protocol_version_buf ≡ ok v
      → s.is_open ≡ true
      → IsQuiet r
      → stream r ≡ v ++ rest
      → (r' : Reader) × (handshake c text has_room r s
          ≡ ok (none, r', record s { writes = v ∷ s.writes }))
        × (stream r' ≡ rest)
  unfolding handshake_read
  handshake-agrees r s v rest e open_ q es =
      let (r', got, back) = read_version-write r v rest e q es in
      let s1 : Sock = record s { writes = v ∷ s.writes } in
      (r', handshake-starts r s v e open_ ∙ ap (handshake_read c text has_room r s1) got, back)

  refused :
      (r : Reader) (s : Sock) (m : Result (ℕ × Reader))
      → s.is_open ≡ true
      → s.closex ≡ 0
      → IsSafe m
      → ((v : ℕ) (r' : Reader) → m ≢ ok (v, r'))
      → (e : Error) × (r' : Reader) × (s' : Sock) × (handshake_read c text has_room r s m
          ≡ ok (some e, r', s'))
        × (is_closed s' ≡ true)
        × (s'.pending_res ≡ [])
  unfolding handshake_read
  refused r s (ok (v, r')) open_ first safe no_version = absurd (no_version v r' refl)
  refused r s panic open_ first safe no_version = absurd safe
  refused r s (err e) open_ first safe no_version =
      let (error, s', closed, one, none_left, _) = close_first c text has_room s open_ first in
      (
        e,
        r,
        s',
        (unfold handshake_failed in ap (λ m. m >>= (λ x. ok (some e, r, x.1))) closed),
        (unfold is_closed in rw one),
        none_left,
      )

  -- On a connection that takes every write, of an open socket that was never closed, and from a
  -- stream with no read failure that starts with two bytes other than `01`, `Handshake` returns an
  -- error, and leaves the socket closed with no request pending.
  pub handshake-refuses :
      (r : Reader) (s : Sock) (a d : ℕ) (rest v : Bytes)
      → protocol_version_buf ≡ ok v
      → s.is_open ≡ true
      → s.closex ≡ 0
      → IsQuiet r
      → stream r ≡ a ∷ d ∷ rest
      → (a ≢ b'0') ⊎ (d ≢ b'1')
      → (e : Error) × (r' : Reader) × (s' : Sock) × (handshake c text has_room r s
          ≡ ok (some e, r', s'))
        × (is_closed s' ≡ true)
        × (s'.pending_res ≡ [])
  handshake-refuses r s a d rest v ev open_ first q es other =
      let s1 : Sock = record s { writes = v ∷ s.writes } in
      let (e, r', s', done, shut, none_left) =
        refused r s1 (read_version r) open_ first (read_version-IsSafe r) (λ n r'' got.
          let (x, y, _) = read_version-only r r'' a d n rest q es got in
          elim other [ inl ne ↦ ne x | inr ne ↦ ne y ]) in
      (e, r', s', handshake-starts r s v ev open_ ∙ done, shut, none_left)
