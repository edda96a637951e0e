-- ===== src/Protocol/Read/Buffer.antt =====
-- What `ReadMsg` finds in its buffer.
use gotalk.Common.{
  ℕ, ◌+◌, ◌-◌, ◌≤◌, ◌≡◌, ap, ◌∙◌, arith, ◌++◌, Bytes, length, take, drop, slice, ok, none,
  length-append, take-append, drop-append, leb-eq_true, drop-drop,
}
use native.Mathlib.Nat.{add_comm}
use gotalk.Protocol.Reader.{Reader}
use gotalk.Protocol.Reader.Exact.{stream, IsQuiet, readn-exact}
use gotalk.Protocol.Read.{fill}

pub slice-append :
    (pre mid post : Bytes) (i j : ℕ)
    → i ≡ length pre
    → j ≡ length pre + length mid
    → slice (pre ++ (mid ++ post)) i j ≡ mid
slice-append pre mid post i j hi hj =
    ap (take (j - i)) (drop-append i pre (mid ++ post) hi)
    ∙ take-append (j - i) mid post (omega arith)

-- Filling the buffer behind `pre` with the next bytes of the stream.
pub fill-exact :
    (s : Reader) (pre got junk rest : Bytes) (i j : ℕ)
    → IsQuiet s
    → stream s ≡ got ++ rest
    → i ≡ length pre
    → j ≡ length pre + length got
    → length got ≤ length junk
    → (s' : Reader) × (fill (pre ++ junk) i j s
        ≡ ok (pre ++ (got ++ drop (length got) junk), length got, none, s'))
      × (stream s' ≡ rest)
      × IsQuiet s'
unfolding fill
fill-exact s pre got junk rest i j q e hi hj room =
    let (s', r, back, q') = readn-exact s (j - i) got rest q e (omega arith) in
    (
      s',
      rw (
        leb-eq_true i j (omega arith),
        leb-eq_true j (length (pre ++ junk)) (omega (arith, length-append pre junk)),
        r,
        take-append i pre junk hi,
        add_comm i (length got),
        ← drop-drop (length got) i (pre ++ junk),
        drop-append i pre junk hi,
      ),
      back,
      q',
    )
