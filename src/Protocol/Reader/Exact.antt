-- ===== src/Protocol/Reader/Exact.antt =====
-- `readn` does not depend on how the bytes arrive.
use gotalk.Common.{
  ℕ, ◌-◌, ◌≤◌, ◌<◌, ◌≡◌, inl, inr, refl, sym, ap, ◌∙◌, arith, [], ◌∷◌, ◌++◌, Bytes, length, take,
  drop, leb, Option, none, some, Error, eof, length-append, Bool-cases, eqb-eq_false, length-take,
  length-drop, leb-false_lt, leb-true_le, append-nil, append-split, take-append, leb-eq_true,
  leb-eq_false,
}
use gotalk.Protocol.Reader.{Chunk, Reader, read, readn}

-- All the bytes to come, and no error but the end.
abbrev pub stream : Reader → Bytes
stream [] = []
stream (c ∷ s) = c.bytes ++ stream s

abbrev pub IsQuiet : Reader → Type 0
IsQuiet [] = Unit {0}
IsQuiet (c ∷ s) = (c.failure ≡ none) × IsQuiet s

readn-zero : (s : Reader) → readn s 0 ≡ ([], none, s)
unfolding readn
readn-zero [] = refl
readn-zero (c ∷ s) = refl

-- A round of the loop is one `Read`, and ends it on an error even where all bytes came with it.
pub readn_step :
    (c : Chunk) (s : Reader) (k : ℕ)
    → 0 < k
    → readn (c ∷ s) k ≡ (
        let (got, e, s') = read (c ∷ s) k in
        elim e [
          | some e' ↦ (got, some e', s')
          | none ↦ (let (more, e'', s'') = readn s' (k - length got) in (got ++ more, e'', s''))
        ])
unfolding readn read
readn_step c s k h = ground (
  arith,
  length-take k c.bytes,
  readn-zero (record c { bytes = drop k c.bytes } ∷ s),
  ap (readn (record c { bytes = drop k c.bytes } ∷ s)) {x = k - length (take k c.bytes)} {y = 0},
  append-nil (take k c.bytes),
)

readn_whole :
    (c : Chunk) (s : Reader) (k : ℕ) {more : Bytes} {e : Option Error} {s' : Reader}
    → 0 < k
    → length c.bytes ≤ k
    → c.failure ≡ none
    → readn s (k - length c.bytes) ≡ (more, e, s')
    → readn (c ∷ s) k ≡ (c.bytes ++ more, e, s')
unfolding readn
readn_whole c s k h whole ok_chunk r =
    rw (eqb-eq_false k 0 (λ e. omega arith), leb-eq_true (length c.bytes) k whole, ok_chunk, r)

readn_part :
    (c : Chunk) (s : Reader) (k : ℕ)
    → 0 < k
    → k < length c.bytes
    → readn (c ∷ s) k ≡ (take k c.bytes, none, record c { bytes = drop k c.bytes } ∷ s)
unfolding readn
readn_part c s k h part =
    rw (eqb-eq_false k 0 (λ e. omega arith), leb-eq_false (length c.bytes) k part)

-- On a stream with no read failure that starts with `k` bytes, `readn` returns these bytes without
-- an error, and leaves the rest, however the stream is cut into reads.
pub readn-exact :
    (s : Reader) (k : ℕ) (front back : Bytes)
    → IsQuiet s
    → stream s ≡ front ++ back
    → k ≡ length front
    → (s' : Reader) × (readn s k ≡ (front, none, s')) × (stream s' ≡ back) × IsQuiet s'
readn-exact [] k [] back q e hk = ([], rw hk (readn-zero []), e, tt)
readn-exact [] k (x ∷ front) back q e hk = cc
readn-exact (c ∷ s) k [] back q e hk = (c ∷ s, rw hk (readn-zero (c ∷ s)), e, q)
readn-exact (c ∷ s) k (x ∷ front) back q e hk = elim (Bool-cases (leb (length c.bytes) k)) [
  | inl whole ↦
      let (cut, rest) =
        append-split c.bytes (stream s) (x ∷ front) back e
          (omega (arith, leb-true_le (length c.bytes) k whole)) in
      let (s', r, b, q') =
        readn-exact s (k - length c.bytes) (drop (length c.bytes) (x ∷ front)) back q.1 rest
          (omega (arith, length-drop (length c.bytes) (x ∷ front))) in
      (
        s',
        readn_whole c s k (omega arith) (leb-true_le (length c.bytes) k whole) q.0 r
            ∙ ap (λ got. (got, none, s')) (sym cut),
        b,
        q',
      )
  | inr part ↦
      let (cut, rest) =
        append-split (x ∷ front) back c.bytes (stream s) (sym e)
          (omega (arith, leb-false_lt (length c.bytes) k part)) in
      let first : take k c.bytes ≡ x ∷ front =
        ap (take k) cut ∙ take-append k (x ∷ front) (drop (length (x ∷ front)) c.bytes) hk in
      (
        record c { bytes = drop k c.bytes } ∷ s,
        readn_part c s k (omega arith) (leb-false_lt (length c.bytes) k part)
            ∙ ap (λ got. (got, none, record c { bytes = drop k c.bytes } ∷ s)) first,
        ap (λ n. drop n c.bytes ++ stream s) hk ∙ sym rest,
        q,
      )
]

-- A stream with no failure that is too short is read whole, and then ends.
pub readn_short :
    (s : Reader) (k : ℕ) → IsQuiet s → length (stream s) < k → readn s k ≡ (stream s, some eof, [])
readn_short [] k q h = unfold readn in rw (eqb-eq_false k 0 (λ e. omega arith))
readn_short (c ∷ s) k q h =
    readn_whole c s k (omega arith) (omega (arith, length-append c.bytes (stream s))) q.0
      (readn_short s (k - length c.bytes) q.1 (omega (arith, length-append c.bytes (stream s))))
