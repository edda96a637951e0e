-- ===== src/Protocol/Reader/Conserve.antt =====
-- What `readn` takes and what it leaves are the stream, whatever fails.
use gotalk.Common.{
  ℕ, length, ◌≡◌, none, ◌+◌, arith, ◌∷◌, ◌-◌, length-append, drop, length-take, [], length-drop,
}
use gotalk.Protocol.Reader.{Reader, readn}
use gotalk.Protocol.Reader.Exact.{stream}

pub length-readn :
    (r : Reader) (k : ℕ) → length (readn r k).0 + length (stream (readn r k).2) ≡ length (stream r)
unfolding readn stream
length-readn [] k = ground arith
length-readn (c ∷ r) k = ground (
  arith,
  length-readn r (k - length c.bytes),
  length-append c.bytes (stream r),
  length-append c.bytes (readn r (k - length c.bytes)).0,
  length-append (drop k c.bytes) (stream r),
  length-drop k c.bytes,
  length-take k c.bytes,
)

-- Without an error it has read all it was asked for.
pub readn_full : (r : Reader) (k : ℕ) → (readn r k).1 ≡ none → length (readn r k).0 ≡ k
unfolding readn
readn_full [] k h = ground arith
readn_full (c ∷ r) k h = ground (
  arith,
  readn_full r (k - length c.bytes),
  length-append c.bytes (readn r (k - length c.bytes)).0,
  length-take k c.bytes,
)
